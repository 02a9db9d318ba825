-- ===== src/Firmware/Program/Total.antt =====
-- Total correctness of a program on a bus that asks for no interrupt: how its runs end, whatever the
-- bus does within what is known of it.
use systemc_model.Base.{if◌then◌else◌, ℕ, ◌≡◌, refl, true, false, ◌&&◌, some, ◌∷◌}
use systemc_model.Firmware.Program.{
  Program, done, exit, load, store, put, set_mask, get_count, set_count, spin, bind, Bus, Regs,
  Outcome, finished, exited, fault, run_with, undisturbed, interrupted, run,
}

module _ {S : Type 0} (bus : Bus S) where
  -- Every access from the state `s` on is answered, and the program finishes with a result and a
  -- state of `Q`, or exits with a code of `E`.
  abbrev pub Leads : {A : Type 0} → (ℕ → Type 0) → (A → S → Type 0) → S → Program A → Type 0
  Leads E Q s (done a) = Q a s
  Leads E Q s (exit code) = E code
  Leads E Q s (load a k) = (v : ℕ) × (s' : S) × (bus.fetch a s ≡ some (v, s')) × Leads E Q s' (k v)
  Leads E Q s (store a v k) = (s' : S) × (bus.modify a v s ≡ some s') × Leads E Q s' k
  Leads E Q s (put p k) = Leads E Q s k
  Leads E Q s (set_mask b k) = Leads E Q s k
  Leads E Q s (get_count k) = (n : ℕ) → Leads E Q s (k n)
  Leads E Q s (set_count n k) = Leads E Q s k
  Leads E Q s (spin k) = (s' : S) × (bus.idle s ≡ some s') × Leads E Q s' k

  pub Leads-bind :
      {A B : Type 0} (E : ℕ → Type 0) (Q : A → S → Type 0) (R : B → S → Type 0) (m : Program A)
      (f : A → Program B) (s : S)
      → Leads E Q s m
      → ((a : A) (s' : S) → Q a s' → Leads E R s' (f a))
      → Leads E R s (bind m f)
  unfolding bind
  Leads-bind E Q R (done a) f s h g = g a s h
  Leads-bind E Q R (exit code) f s h g = h
  Leads-bind E Q R (load a k) f s (v, s', e, h) g = (v, s', e, Leads-bind E Q R (k v) f s' h g)
  Leads-bind E Q R (store a v k) f s (s', e, h) g = (s', e, Leads-bind E Q R k f s' h g)
  Leads-bind E Q R (put p k) f s h g = Leads-bind E Q R k f s h g
  Leads-bind E Q R (set_mask b k) f s h g = Leads-bind E Q R k f s h g
  Leads-bind E Q R (get_count k) f s h g = λ n. Leads-bind E Q R (k n) f s (h n) g
  Leads-bind E Q R (set_count n k) f s h g = Leads-bind E Q R k f s h g
  Leads-bind E Q R (spin k) f s (s', e, h) g = (s', e, Leads-bind E Q R k f s' h g)

  -- A run that finishes in `Q` or exits in `E`.
  abbrev pub Reaches : {A : Type 0} → (ℕ → Type 0) → (A → S → Type 0) → Outcome A S → Type 0
  Reaches E Q (finished a r s) = Q a s
  Reaches E Q (exited code r s) = E code
  Reaches E Q fault = ⊥

  module _ (handler : Program (Unit {0})) (calm : (s : S) → bus.pending s ≡ false) where
    pub no_interrupt : (r : Regs) (s : S) → interrupted bus handler r s ≡ finished tt r s
    unfolding interrupted
    no_interrupt r s =
        elim r.unmasked
          as (λ b.
            (if b && bus.pending s
              then run_with bus (undisturbed bus) handler r s
              else finished tt r s)
            ≡ finished tt r s) [ true ↦ rw (calm s) refl | false ↦ refl ]

    -- So do its runs.
    pub Leads-run :
        {A : Type 0} (E : ℕ → Type 0) (Q : A → S → Type 0) (m : Program A) (r : Regs) (s : S)
        → Leads E Q s m
        → Reaches E Q (run bus handler m r s)
    unfolding run run_with
    Leads-run E Q (done a) r s h = h
    Leads-run E Q (exit code) r s h = h
    Leads-run E Q (load a k) r s (v, s', e, h) =
        rw (e, no_interrupt r s') (Leads-run E Q (k v) r s' h)
    Leads-run E Q (store a v k) r s (s', e, h) = rw (e, no_interrupt r s') (Leads-run E Q k r s' h)
    Leads-run E Q (put p k) r s h = Leads-run E Q k (record r { out = p ∷ r.out }) s h
    Leads-run E Q (set_mask b k) r s h =
        rw (no_interrupt (record r { unmasked = b }) s)
          (Leads-run E Q k (record r { unmasked = b }) s h)
    Leads-run E Q (get_count k) r s h = Leads-run E Q (k r.uart_irqs) r s (h r.uart_irqs)
    Leads-run E Q (set_count n k) r s h = Leads-run E Q k (record r { uart_irqs = n }) s h
    Leads-run E Q (spin k) r s (s', e, h) = rw (e, no_interrupt r s') (Leads-run E Q k r s' h)
