-- ===== src/Firmware/Program.antt =====
-- What a program of platforms/basic_cortexM/firmware/ does, as a monad: its accesses to volatile
-- addresses, its output by semihosting, the interrupt mask, and its exit.
pub mod Laws
pub mod Ends
pub mod Total
use systemc_model.Base.{if◌then◌else◌, ℕ, Bool, ◌&&◌, Option, none, some, List, ◌∷◌}
use Prim.Native.String.{String}

-- A piece of output: a text of `sh_puts`, or the ten characters of `log_put_hex32`.
pub data Piece : Type 0 where
  text : String → Piece
  number : ℕ → Piece

-- `set_mask` is `cpsie i` and `cpsid i`; `get_count` and `set_count` read and write the volatile
-- `g_uart_irqs`; `spin` is a counting loop that touches no device.
pub data Program (A : Type 0) : Type 0 where
  done : A → Program A
  exit : ℕ → Program A
  load : ℕ → (ℕ → Program A) → Program A
  store : ℕ → ℕ → Program A → Program A
  put : Piece → Program A → Program A
  set_mask : Bool → Program A → Program A
  get_count : (ℕ → Program A) → Program A
  set_count : ℕ → Program A → Program A
  spin : Program A → Program A

unfoldable pub bind : {A B : Type 0} → Program A → (A → Program B) → Program B
bind (done a) f = f a
bind (exit code) f = exit code
bind (load a k) f = load a (λ v. bind (k v) f)
bind (store a v k) f = store a v (bind k f)
bind (put p k) f = put p (bind k f)
bind (set_mask b k) f = set_mask b (bind k f)
bind (get_count k) f = get_count (λ n. bind (k n) f)
bind (set_count n k) f = set_count n (bind k f)
bind (spin k) f = spin (bind k f)

infixl 5 ◌>>=◌ ◌>>◌
abbrev pub ◌>>=◌ : {A B : Type 0} → Program A → (A → Program B) → Program B
m >>= f = bind m f

abbrev pub ◌>>◌ : {B : Type 0} → Program (Unit {0}) → Program B → Program B
m >> k = bind m λ _. k

abbrev pub read : ℕ → Program ℕ
read a = load a done

abbrev pub write : ℕ → ℕ → Program (Unit {0})
write a v = store a v (done tt)

abbrev pub sh_puts : String → Program (Unit {0})
sh_puts s = put (text s) (done tt)

-- What answers the accesses: `none` is a fault. `pending` is whether an interrupt that the
-- controller has enabled is asked for, and `idle` is what happens during a `spin`.
pub record Bus (S : Type 0) : Type 0 where
  pub fetch : ℕ → S → Option (ℕ × S)
  pub modify : ℕ → ℕ → S → Option S
  pub pending : S → Bool
  pub idle : S → Option S

-- The program's side: whether interrupts are let through, `g_uart_irqs`, and the output, its newest
-- piece first.
pub record Regs : Type 0 where
  pub unmasked : Bool
  pub uart_irqs : ℕ
  pub out : List Piece

pub data Outcome (A S : Type 0) : Type 0 where
  finished : A → Regs → S → Outcome A S
  exited : ℕ → Regs → S → Outcome A S
  fault : Outcome A S

abbrev pub resume : {A B S : Type 0} → Outcome A S → (A → Regs → S → Outcome B S) → Outcome B S
resume (finished a r s) f = f a r s
resume (exited code r s) f = exited code r s
resume fault f = fault

-- What follows an access that is answered.
abbrev pub answered : {A X S : Type 0} → Option X → (X → Outcome A S) → Outcome A S
answered none f = fault
answered (some x) f = f x

module _ {S : Type 0} (bus : Bus S) where
  -- The run of a program; `taken` is what the processor does between two of its steps.
  unfoldable pub run_with :
      {A : Type 0} → (Regs → S → Outcome (Unit {0}) S) → Program A → Regs → S → Outcome A S
  run_with taken (done a) r s = finished a r s
  run_with taken (exit code) r s = exited code r s
  run_with taken (load a k) r s =
      answered (bus.fetch a s) (λ x. resume (taken r x.1) (λ _ r' s'. run_with taken (k x.0) r' s'))
  run_with taken (store a v k) r s =
      answered (bus.modify a v s) (λ x. resume (taken r x) (λ _ r' s'. run_with taken k r' s'))
  run_with taken (put p k) r s = run_with taken k (record r { out = p ∷ r.out }) s
  run_with taken (set_mask b k) r s =
      resume (taken (record r { unmasked = b }) s) (λ _ r' s'. run_with taken k r' s')
  run_with taken (get_count k) r s = run_with taken (k r.uart_irqs) r s
  run_with taken (set_count n k) r s = run_with taken k (record r { uart_irqs = n }) s
  run_with taken (spin k) r s =
      answered (bus.idle s) (λ x. resume (taken r x) (λ _ r' s'. run_with taken k r' s'))

  -- No interrupt comes.
  unfoldable pub undisturbed : Regs → S → Outcome (Unit {0}) S
  undisturbed r s = finished tt r s

  -- An interrupt that is asked for and let through runs its handler once, undisturbed.
  unfoldable pub interrupted : Program (Unit {0}) → Regs → S → Outcome (Unit {0}) S
  interrupted handler r s =
      if r.unmasked && bus.pending s then run_with undisturbed handler r s else finished tt r s

  -- A program with its interrupt handler.
  unfoldable pub run : {A : Type 0} → Program (Unit {0}) → Program A → Regs → S → Outcome A S
  run handler = run_with (interrupted handler)
