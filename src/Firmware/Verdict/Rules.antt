-- ===== src/Firmware/Verdict/Rules.antt =====
-- Programs that do not exit: the functions of log.h, and the steps of a program.
use systemc_model.Base.{◌==◌, Bool-cases, ℕ, zero, suc, ◌+◌, ◌%◌, inl, inr, Bool, List}
use systemc_model.Base.Bits.{u32, has_any}
use systemc_model.Firmware.Program.{Piece, Program, done, load, store, set_mask, spin, bind}
use systemc_model.Firmware.Program.Ends.{Ends, Ends-bind}
use systemc_model.Firmware.Log.{
  log_line, log_mmio_write, log_mmio_read, report_set, report_waiting, report_timeout, wait_loop,
  log_wait_bit,
}
use Prim.Native.String.{String}

module _ (V : ℕ → List Piece → Type 0) where
  pub log_line-Ends : (msg : String) → Ends V (Unit {0}) (log_line msg)
  unfolding log_line bind Ends
  log_line-Ends msg = λ out. tt

  pub log_mmio_read-Ends :
      (reg : String) (offset value : ℕ) → Ends V (Unit {0}) (log_mmio_read reg offset value)
  unfolding log_mmio_read bind Ends
  log_mmio_read-Ends reg offset value = λ out. tt

  pub report_waiting-Ends : (polls v : ℕ) → Ends V (Unit {0}) (report_waiting polls v)
  unfolding report_waiting bind Ends
  report_waiting-Ends polls v =
      λ out. elim (Bool-cases (polls % 200000 == 0)) [ inl e ↦ rw e tt | inr e ↦ rw e tt ]

  pub wait_loop-Ends :
      (reg mask : ℕ) (label : String) (spins polls : ℕ)
      → Ends V (Unit {0}) (wait_loop reg mask label spins polls)
  unfolding wait_loop bind Ends report_timeout report_set
  wait_loop-Ends reg mask label zero polls = λ out v out'. tt
  wait_loop-Ends reg mask label (suc spins) polls = λ out v out'.
      elim (Bool-cases (has_any v mask)) [
        | inl e ↦ rw e tt
        | inr e ↦ rw e (
            Ends-bind V (Unit {0}) (report_waiting (u32 (polls + 1)) v)
              (λ _. wait_loop reg mask label spins (u32 (polls + 1)))
              (report_waiting-Ends (u32 (polls + 1)) v)
              (λ _. wait_loop-Ends reg mask label spins (u32 (polls + 1))) out')
      ]

  pub log_wait_bit-Ends :
      (reg mask spins : ℕ) (label : String) → Ends V (Unit {0}) (log_wait_bit reg mask spins label)
  unfolding log_wait_bit bind Ends
  log_wait_bit-Ends reg mask spins label = λ out. wait_loop-Ends reg mask label spins 0 _

  pub read-Ends : (a : ℕ) → Ends V (Unit {0}) (load a done)
  unfolding Ends
  read-Ends a = λ out v out'. tt

  pub write-Ends : (a v : ℕ) → Ends V (Unit {0}) (store a v (done tt))
  unfolding Ends
  write-Ends a v = λ out out'. tt

  pub step :
      {A B : Type 0} (m : Program A) (f : A → Program B)
      → Ends V (Unit {0}) m
      → ((a : A) → Ends V (Unit {0}) (f a))
      → Ends V (Unit {0}) (bind m f)
  step m f h k = Ends-bind V (Unit {0}) m f h k

  pub set_mask-Ends : (b : Bool) → Ends V (Unit {0}) (set_mask b (done tt))
  unfolding Ends
  set_mask-Ends b = λ out out'. tt

  pub spin-Ends : Ends V (Unit {0}) (spin (done tt))
  unfolding Ends
  spin-Ends = λ out out'. tt

  pub log_mmio_write-Ends :
      (reg : String) (offset value : ℕ) → Ends V (Unit {0}) (log_mmio_write reg offset value)
  unfolding log_mmio_write bind Ends
  log_mmio_write-Ends reg offset value = λ out. tt

pub ruleset steps = (
  step, log_line-Ends, read-Ends, write-Ends, spin-Ends, set_mask-Ends, log_mmio_read-Ends,
  log_mmio_write-Ends, log_wait_bit-Ends,
)
