-- ===== src/Firmware/Program/Ends.antt =====
-- How a program can end: a judgement on its text, and what its runs do.
use systemc_model.Base.{if◌then◌else◌, ℕ, true, false, ◌&&◌, Option, none, some, List, ◌∷◌}
use systemc_model.Firmware.Program.{
  Piece, Program, done, exit, load, store, put, set_mask, get_count, set_count, spin, bind, Bus,
  Regs, Outcome, finished, exited, fault, resume, answered, run_with, undisturbed, interrupted, run,
}

-- Every exit of the program, with the output up to it, satisfies `V`; `D` holds if it can finish.
-- What stands in the log before an access is left open, since a handler may run there.
abbrev pub Judged :
    (ℕ → List Piece → Type 0) → Type 0 → {A : Type 0} → List Piece → Program A → Type 0
Judged V D out (done a) = D
Judged V D out (exit code) = V code out
Judged V D out (load a k) = (v : ℕ) (out' : List Piece) → Judged V D out' (k v)
Judged V D out (store a v k) = (out' : List Piece) → Judged V D out' k
Judged V D out (put p k) = Judged V D (p ∷ out) k
Judged V D out (set_mask b k) = (out' : List Piece) → Judged V D out' k
Judged V D out (get_count k) = (n : ℕ) → Judged V D out (k n)
Judged V D out (set_count n k) = Judged V D out k
Judged V D out (spin k) = (out' : List Piece) → Judged V D out' k

-- After any output.
unfoldable pub Ends : (ℕ → List Piece → Type 0) → Type 0 → {A : Type 0} → Program A → Type 0
Ends V D p = (out : List Piece) → Judged V D out p

module _ (V : ℕ → List Piece → Type 0) (D : Type 0) where
  Judged-bind :
      {A B : Type 0} (m : Program A) (f : A → Program B) (out : List Piece)
      → Judged V (Unit {0}) out m
      → ((a : A) → Ends V D (f a))
      → Judged V D out (bind m f)
  unfolding bind Ends
  Judged-bind (done a) f out h k = k a out
  Judged-bind (exit code) f out h k = h
  Judged-bind (load a c) f out h k = λ v out'. Judged-bind (c v) f out' (h v out') k
  Judged-bind (store a v c) f out h k = λ out'. Judged-bind c f out' (h out') k
  Judged-bind (put p c) f out h k = Judged-bind c f (p ∷ out) h k
  Judged-bind (set_mask b c) f out h k = λ out'. Judged-bind c f out' (h out') k
  Judged-bind (get_count c) f out h k = λ n. Judged-bind (c n) f out (h n) k
  Judged-bind (set_count n c) f out h k = Judged-bind c f out h k
  Judged-bind (spin c) f out h k = λ out'. Judged-bind c f out' (h out') k

  -- The rules for the texts of programs.
  pub Ends-bind :
      {A B : Type 0} (m : Program A) (f : A → Program B)
      → Ends V (Unit {0}) m
      → ((a : A) → Ends V D (f a))
      → Ends V D (bind m f)
  unfolding Ends
  Ends-bind m f h k = λ out. Judged-bind m f out (h out) k

-- The outcome is an exit that satisfies `V`, a fault, or the end of the program if `D` holds.
abbrev pub Allowed : (ℕ → List Piece → Type 0) → Type 0 → {A S : Type 0} → Outcome A S → Type 0
Allowed V D (finished a r s) = D
Allowed V D (exited code r s) = V code r.out
Allowed V D fault = Unit

abbrev pub Never : ℕ → List Piece → Type 0
Never code out = ⊥

module _ (V : ℕ → List Piece → Type 0) (D : Type 0) {S : Type 0} (bus : Bus S) where
  resume-Allowed :
      {A : Type 0} (o : Outcome (Unit {0}) S) (f : Regs → S → Outcome A S)
      → Allowed Never (Unit {0}) o
      → ((r : Regs) (s : S) → Allowed V D (f r s))
      → Allowed V D (resume o (λ _ r s. f r s))
  resume-Allowed (finished a r s) f h k = k r s
  resume-Allowed (exited code r s) f h k = absurd h
  resume-Allowed fault f h k = tt

  answered-Allowed :
      {A X : Type 0} (o : Option X) (f : X → Outcome A S)
      → ((x : X) → Allowed V D (f x))
      → Allowed V D (answered o f)
  answered-Allowed none f k = tt
  answered-Allowed (some x) f k = k x

  module _ (taken : Regs → S → Outcome (Unit {0}) S)
      (returns : (r : Regs) (s : S) → Allowed Never (Unit {0}) (taken r s)) where
    pub run_with-Allowed :
        {A : Type 0} (p : Program A) (r : Regs) (s : S)
        → Judged V D r.out p
        → Allowed V D (run_with bus taken p r s)
    unfolding run_with
    run_with-Allowed (done a) r s h = h
    run_with-Allowed (exit code) r s h = h
    run_with-Allowed (load a k) r s h = answered-Allowed (bus.fetch a s) _ (λ x.
        resume-Allowed (taken r x.1) _ (returns r x.1)
          (λ r' s'. run_with-Allowed (k x.0) r' s' (h x.0 r'.out)))
    run_with-Allowed (store a v k) r s h = answered-Allowed (bus.modify a v s) _ (λ x.
        resume-Allowed (taken r x) _ (returns r x) (λ r' s'. run_with-Allowed k r' s' (h r'.out)))
    run_with-Allowed (put p k) r s h = run_with-Allowed k (record r { out = p ∷ r.out }) s h
    run_with-Allowed (set_mask b k) r s h =
        resume-Allowed (taken (record r { unmasked = b }) s) _
          (returns (record r { unmasked = b }) s) (λ r' s'. run_with-Allowed k r' s' (h r'.out))
    run_with-Allowed (get_count k) r s h = run_with-Allowed (k r.uart_irqs) r s (h r.uart_irqs)
    run_with-Allowed (set_count n k) r s h = run_with-Allowed k (record r { uart_irqs = n }) s h
    run_with-Allowed (spin k) r s h = answered-Allowed (bus.idle s) _ (λ x.
        resume-Allowed (taken r x) _ (returns r x) (λ r' s'. run_with-Allowed k r' s' (h r'.out)))

module _ {S : Type 0} (bus : Bus S) (handler : Program (Unit {0}))
    (harmless : Ends Never (Unit {0}) handler) where
  interrupted-Allowed : (r : Regs) (s : S) → Allowed Never (Unit {0}) (interrupted bus handler r s)
  unfolding interrupted undisturbed Ends
  interrupted-Allowed r s =
      elim (r.unmasked && bus.pending s)
        as (λ b.
          Allowed Never (Unit {0})
            (if b then run_with bus (undisturbed bus) handler r s else finished tt r s)) [
              | true ↦
                  run_with-Allowed Never (Unit {0}) bus (undisturbed bus) (λ r' s'. tt) handler r s
                    (harmless r.out)
              | false ↦ tt
            ]

  -- A run of a program with a handler that never exits ends as the program's text allows.
  pub run-Allowed :
      {A : Type 0} (V : ℕ → List Piece → Type 0) (D : Type 0) (p : Program A) (r : Regs) (s : S)
      → Ends V D p
      → Allowed V D (run bus handler p r s)
  unfolding run Ends
  run-Allowed V D p r s h =
      run_with-Allowed V D bus (interrupted bus handler) interrupted-Allowed p r s (h r.out)
