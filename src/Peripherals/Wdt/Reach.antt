-- ===== src/Peripherals/Wdt/Reach.antt =====
-- The watchdog as a state machine: every state that bus accesses, edges and wake-ups can bring about.
use systemc_model.Base.{◌==◌, ℕ, ◌^◌, ◌≤◌, ◌<◌, bit_and, ◌≡◌, refl, Bool, false, not, ◌&&◌}
use systemc_model.Base.{arith}
use systemc_model.Base.Bits.{u32, has_any, bit_and_low_mask}
use systemc_model.Tlm.{Txn, IsBytes, word_of}
use systemc_model.Tlm.Laws.{word_of-lt}
use systemc_model.Peripherals.Wdt.{
  Wdt, wdt_apb, wdt_ctrl_inten, wdt_ctrl_resen, drive, on_reset, tick, write_register, b_transport,
}
use systemc_model.Peripherals.Wdt.Laws.{b_transport_effect}

-- What happens to a watchdog: an access on its socket, a change of `reset`, an edge of `pclk`, and
-- the method that `irq_ev_` wakes.
pub data Step (s : Wdt) : Wdt → Type 0 where
  access : (t : Txn) → IsBytes t.bytes → Step s (b_transport s t).0
  reset : (level : Bool) → Step s (on_reset level s)
  clock : (level : Bool) → Step s (tick level s)
  wake : Step s (drive s)

pub data Reach : Wdt → Type 0 where
  start : Reach wdt_apb
  later : {s u : Wdt} → Reach s → Step s u → Reach u

-- The registers keep their widths, the value never passes the load, and unless a notification is
-- pending the two lines stand at the levels that the registers ask for.
pub record IsValid (s : Wdt) : Type 0 where
  pub load_small : s.load < 2 ^ 32
  pub value_small : s.value ≤ s.load
  pub ctrl_small : s.ctrl < 4
  pub ris_small : s.ris < 2
  pub irq_settled : s.irq_ev ≡ false → s.irq ≡ has_any s.ris (bit_and s.ctrl wdt_ctrl_inten)
  pub rst_settled :
      s.irq_ev ≡ false → s.rst_req ≡ (not (s.ris == 0) && has_any s.ctrl wdt_ctrl_resen)

write_register-IsValid :
    (s : Wdt) (off v : ℕ) → v < 2 ^ 32 → IsValid s → IsValid (write_register s off v)
unfolding write_register
write_register-IsValid s off v small h = ground (arith, bit_and_low_mask 2 v)

Step-IsValid : {s u : Wdt} → Step s u → IsValid s → IsValid u
unfolding drive on_reset tick
Step-IsValid {s} (access t h) v = ground (
  arith,
  b_transport_effect s t,
  word_of-lt t.bytes h,
  write_register-IsValid s (u32 t.address) (word_of t.bytes),
)
Step-IsValid (reset level) v = ground arith
Step-IsValid (clock level) v = ground arith
Step-IsValid wake v = ground arith

start-IsValid : IsValid wdt_apb
start-IsValid = record {
  load_small = omega arith;
  value_small = omega arith;
  ctrl_small = omega arith;
  ris_small = omega arith;
  irq_settled = λ e. refl;
  rst_settled = λ e. refl;
}

-- In every state that the watchdog can reach, the registers keep their widths, the value does not
-- pass the load, and unless a notification is pending the two lines stand at the levels that the
-- registers ask for.
pub wdt_always-IsValid : {s : Wdt} → Reach s → IsValid s
wdt_always-IsValid start = start-IsValid
wdt_always-IsValid (later r st) = Step-IsValid st (wdt_always-IsValid r)
