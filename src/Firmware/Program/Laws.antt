-- ===== src/Firmware/Program/Laws.antt =====
-- Runs of programs, one after the other and on two platforms.
use systemc_model.Base.{if◌then◌else◌, ℕ, ◌≡◌, refl, Bool, true, false, ◌&&◌, Option, none}
use systemc_model.Base.{some, ◌∷◌}
use systemc_model.Firmware.Program.{
  Program, done, exit, load, store, put, set_mask, get_count, set_count, spin, bind, Bus, Regs,
  Outcome, finished, exited, fault, resume, answered, run_with, undisturbed, interrupted, run,
}

resume-after :
    {B C S : Type 0} (o : Outcome (Unit {0}) S) (f : Regs → S → Outcome C S)
    (h : Regs → S → Outcome B S) (g : B → Regs → S → Outcome C S)
    → ((r : Regs) (s : S) → f r s ≡ resume (h r s) g)
    → resume o (λ _ r s. f r s) ≡ resume (resume o (λ _ r s. h r s)) g
resume-after (finished a r s) f h g e = e r s
resume-after (exited code r s) f h g e = refl
resume-after fault f h g e = refl

answered-after :
    {B C S X : Type 0} (o : Option X) (f : X → Outcome C S) (h : X → Outcome B S)
    (g : B → Regs → S → Outcome C S)
    → ((x : X) → f x ≡ resume (h x) g)
    → answered o f ≡ resume (answered o h) g
answered-after none f h g e = refl
answered-after (some x) f h g e = e x

module _ {S : Type 0} (bus : Bus S) (taken : Regs → S → Outcome (Unit {0}) S) where
  -- A program in two parts runs the first, and goes on with the second where the first finishes.
  pub run_with-bind :
      {A B : Type 0} (m : Program A) (f : A → Program B) (r : Regs) (s : S)
      → run_with bus taken (bind m f) r s
        ≡ resume (run_with bus taken m r s) (λ a r' s'. run_with bus taken (f a) r' s')
  unfolding run_with bind
  run_with-bind (done a) f r s = refl
  run_with-bind (exit code) f r s = refl
  run_with-bind (load a k) f r s =
      answered-after (bus.fetch a s) _ _ _
        (λ x. resume-after (taken r x.1) _ _ _ (run_with-bind (k x.0) f))
  run_with-bind (store a v k) f r s =
      answered-after (bus.modify a v s) _ _ _
        (λ x. resume-after (taken r x) _ _ _ (run_with-bind k f))
  run_with-bind (put p k) f r s = run_with-bind k f (record r { out = p ∷ r.out }) s
  run_with-bind (set_mask b k) f r s =
      resume-after (taken (record r { unmasked = b }) s) _ _ _ (run_with-bind k f)
  run_with-bind (get_count k) f r s = run_with-bind (k r.uart_irqs) f r s
  run_with-bind (set_count n k) f r s = run_with-bind k f (record r { uart_irqs = n }) s
  run_with-bind (spin k) f r s =
      answered-after (bus.idle s) _ _ _ (λ x. resume-after (taken r x) _ _ _ (run_with-bind k f))

-- What a reference platform `one` promises of another platform `two`: an access that it answers is
-- answered alike there.
pub record Simulates {S T : Type 0} (one : Bus S) (two : Bus T) (R : S → T → Type 0) : Type 0 where
  pub fetches :
      (a : ℕ) (s : S) (t : T) (v : ℕ) (s' : S)
      → R s t
      → one.fetch a s ≡ some (v, s')
      → (t' : T) × (two.fetch a t ≡ some (v, t')) × R s' t'
  pub modifies :
      (a v : ℕ) (s : S) (t : T) (s' : S)
      → R s t
      → one.modify a v s ≡ some s'
      → (t' : T) × (two.modify a v t ≡ some t') × R s' t'
  pub asks : (s : S) (t : T) → R s t → one.pending s ≡ two.pending t
  pub idles :
      (s : S) (t : T) (s' : S)
      → R s t
      → one.idle s ≡ some s'
      → (t' : T) × (two.idle t ≡ some t') × R s' t'

module _ {S T : Type 0} (R : S → T → Type 0) where
  -- The second outcome is the first one, if that is no fault.
  abbrev pub Follows : {A : Type 0} → Outcome A S → Outcome A T → Type 0
  Follows (finished a r s) o = (t : T) × (o ≡ finished a r t) × R s t
  Follows (exited code r s) o = (t : T) × (o ≡ exited code r t) × R s t
  Follows fault o = Unit

  resume-Follows :
      {A B : Type 0} (o : Outcome A S) (p : Outcome A T) (f : A → Regs → S → Outcome B S)
      (g : A → Regs → T → Outcome B T)
      → Follows o p
      → ((a : A) (r : Regs) (s : S) (t : T) → R s t → Follows (f a r s) (g a r t))
      → Follows (resume o f) (resume p g)
  resume-Follows (finished a r s) p f g (t, e, h) k = rw e (k a r s t h)
  resume-Follows (exited code r s) p f g (t, e, h) k = rw e (t, refl, h)
  resume-Follows fault p f g h k = tt

  answered-Follows :
      {A X Y : Type 0} (o : Option X) (p : Option Y) (f : X → Outcome A S) (g : Y → Outcome A T)
      → ((x : X) → o ≡ some x → (y : Y) × (p ≡ some y) × Follows (f x) (g y))
      → Follows (answered o f) (answered p g)
  answered-Follows none p f g k = tt
  answered-Follows (some x) p f g k = let (y, e, h) = k x refl in rw e h

module _ {S T : Type 0} (one : Bus S) (two : Bus T) (R : S → T → Type 0)
    (sim : Simulates one two R) where
  module _ (taken_one : Regs → S → Outcome (Unit {0}) S)
      (taken_two : Regs → T → Outcome (Unit {0}) T)
      (alike : (r : Regs) (s : S) (t : T) → R s t → Follows R (taken_one r s) (taken_two r t)) where
    run_with-Follows :
        {A : Type 0} (p : Program A) (r : Regs) (s : S) (t : T)
        → R s t
        → Follows R (run_with one taken_one p r s) (run_with two taken_two p r t)
    unfolding run_with
    run_with-Follows (done a) r s t h = (t, refl, h)
    run_with-Follows (exit code) r s t h = (t, refl, h)
    run_with-Follows (load a k) r s t h =
        answered-Follows R (one.fetch a s) (two.fetch a t) _ _ (λ x e.
          let (t', e', h') = sim.fetches a s t x.0 x.1 h e in
          (
            (x.0, t'),
            e',
            resume-Follows R (taken_one r x.1) (taken_two r t') _ _ (alike r x.1 t' h')
                (λ _ r' s'' t'' h''. run_with-Follows (k x.0) r' s'' t'' h''),
          ))
    run_with-Follows (store a v k) r s t h =
        answered-Follows R (one.modify a v s) (two.modify a v t) _ _ (λ x e.
          let (t', e', h') = sim.modifies a v s t x h e in
          (
            t',
            e',
            resume-Follows R (taken_one r x) (taken_two r t') _ _ (alike r x t' h')
                (λ _ r' s'' t'' h''. run_with-Follows k r' s'' t'' h''),
          ))
    run_with-Follows (put p k) r s t h = run_with-Follows k (record r { out = p ∷ r.out }) s t h
    run_with-Follows (set_mask b k) r s t h =
        resume-Follows R (taken_one (record r { unmasked = b }) s)
          (taken_two (record r { unmasked = b }) t) _ _ (alike (record r { unmasked = b }) s t h)
          (λ _ r' s'' t'' h''. run_with-Follows k r' s'' t'' h'')
    run_with-Follows (get_count k) r s t h = run_with-Follows (k r.uart_irqs) r s t h
    run_with-Follows (set_count n k) r s t h = run_with-Follows k (record r { uart_irqs = n }) s t h
    run_with-Follows (spin k) r s t h = answered-Follows R (one.idle s) (two.idle t) _ _ (λ x e.
        let (t', e', h') = sim.idles s t x h e in
        (
          t',
          e',
          resume-Follows R (taken_one r x) (taken_two r t') _ _ (alike r x t' h')
              (λ _ r' s'' t'' h''. run_with-Follows k r' s'' t'' h''),
        ))

  interrupted-Follows :
      (handler : Program (Unit {0})) (r : Regs) (s : S) (t : T)
      → R s t
      → Follows R (interrupted one handler r s) (interrupted two handler r t)
  unfolding interrupted undisturbed
  interrupted-Follows handler r s t h = rw (← sim.asks s t h) (
      if-Follows (r.unmasked && one.pending s) (
        run_with-Follows (undisturbed one) (undisturbed two) (λ r' s' t' h'. (t', refl, h')) handler
          r s t h))
    where
      if-Follows :
          (b : Bool)
          → Follows R
              (run_with one (undisturbed one) handler r s)
              (run_with two (undisturbed two) handler r t)
          → Follows R
              (if b then run_with one (undisturbed one) handler r s else finished tt r s)
              (if b then run_with two (undisturbed two) handler r t else finished tt r t)
      if-Follows true k = k
      if-Follows false k = (t, refl, h)

  -- A program runs on the second platform as on the first, interrupts included, if the run on the
  -- first meets no fault.
  pub run-Follows :
      {A : Type 0} (handler : Program (Unit {0})) (p : Program A) (r : Regs) (s : S) (t : T)
      → R s t
      → Follows R (run one handler p r s) (run two handler p r t)
  unfolding run
  run-Follows handler =
      run_with-Follows (interrupted one handler) (interrupted two handler)
        (interrupted-Follows handler)
