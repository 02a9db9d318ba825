-- ===== src/Firmware/Completes/CortexA.antt =====
-- The whole run of platforms/basic_cortexA/firmware/main.c on its platform, over any kernel that
-- schedules the timer.
use systemc_model.Base.{◌==◌, Bool-cases, ℕ, ◌^◌, ◌<◌, bit_and, ◌≡◌, refl, sym, ap, ◌∙◌, inl}
use systemc_model.Base.{inr, true, false, some, [], arith}
use systemc_model.Base.Bits.{testbit, not_word, has_any, bit_and-le, has_any-two_pow}
use systemc_model.Firmware.Program.{
  run, done, bind, ◌>>◌, Program, Regs, Outcome, exited, finished, fault, Bus,
}
use systemc_model.Firmware.Program.Total.{Leads, Leads-bind, Leads-run, Reaches}
use systemc_model.Firmware.Program.Ends.{Ends, Allowed}
use systemc_model.Firmware.Log.{log_line, log_wait_bit, log_mmio_write, log_mmio_read}
use systemc_model.Firmware.Log.Wait.{Polls, log_wait_bit-Leads}
use systemc_model.Firmware.CortexA.{
  timer_reg_ctrl, timer_reg_value, timer_reg_cmp, timer_reg_intr, ctrl_all, intr_cmp, intr_ov,
  exit_app, mmio_write_ctrl, mmio_write_value, mmio_write_cmp, mmio_write_intr, mmio_read_intr,
  require, greeting, reset_phase, compare_test, overflow_test, disable_test, farewell, main,
}
use systemc_model.Firmware.Board.CortexA.{timer_bus}
use systemc_model.Firmware.Board.CortexA.Access.{At, Stays, write_after, read_value, read_status}
use systemc_model.Firmware.Verdict.CortexA.{Verdict, HasCompleted, timer_main-Verdict}
use systemc_model.Peripherals.Timer.{Timer}
use systemc_model.Peripherals.Timer.Count.{intr_of}
use systemc_model.Peripherals.Timer.Later.{
  IsStopped, IsRunning, to_compare, to_overflow, write-IsStopped, enable-IsRunning,
  status-IsRunning, preset-IsRunning, disable-IsStopped,
}
use systemc_model.Bridges.PinBridge as PinBridge
use systemc_model.Bridges.PinBridge.{BusPins, PinState, clock_period}
use systemc_model.Bridges.PinBridge.TimerBus.{IsScheduled}
use systemc_model.Bridges.PinBridge.Cycles.{turns-Later, turns-IsStopped, wait-Cycle}

module _ {P : Type 0} (run_pins : ℕ → BusPins → P → P) (data_out : P → ℕ) (timer_of : P → Timer)
    (IsQuiet : P → Type 0) (kernel : IsScheduled run_pins data_out timer_of IsQuiet) where
  abbrev pub Holds : (Timer → Type 0) → PinState P → Type 0
  Holds I = At run_pins data_out timer_of IsQuiet kernel I

  abbrev bus : Bus (PinState P)
  bus = timer_bus run_pins data_out

  abbrev Clean : ℕ → Type 0
  Clean code = code ≡ 0

  -- A part of the program leads from `I` to `J`.
  abbrev Passes : (Timer → Type 0) → (Timer → Type 0) → Program (Unit {0}) → Type 0
  Passes I J m = (s : PinState P) → Holds I s → Leads bus Clean (λ _ s'. Holds J s') s m

  stopped_stays : (v m i : ℕ) → Stays run_pins data_out timer_of IsQuiet kernel (IsStopped v m i)
  stopped_stays v m i ps t h = turns-IsStopped v m i ps t h

  running_stays : Stays run_pins data_out timer_of IsQuiet kernel IsRunning
  running_stays ps t h = (turns-Later ps t h).running

  -- The four writes while the timer stands.
  module _ (v m i w : ℕ) (s : PinState P) (small : w < 2 ^ 32) (h : Holds (IsStopped v m i) s) where
    write_value :
        (s' : PinState P) × (bus.modify timer_reg_value w s ≡ some s') × Holds (IsStopped w m i) s'
    write_value =
        write_after run_pins data_out timer_of IsQuiet kernel (IsStopped v m i) (IsStopped w m i)
          0x04 w s (inl (inr refl)) small (stopped_stays v m i) (stopped_stays w m i)
          (λ t k. (write-IsStopped v m i t k w).1) h

    write_cmp :
        (s' : PinState P) × (bus.modify timer_reg_cmp w s ≡ some s') × Holds (IsStopped v w i) s'
    write_cmp =
        write_after run_pins data_out timer_of IsQuiet kernel (IsStopped v m i) (IsStopped v w i)
          0x08 w s (inr (inl refl)) small (stopped_stays v m i) (stopped_stays v w i)
          (λ t k. (write-IsStopped v m i t k w).2) h

    write_intr :
        (s' : PinState P) × (bus.modify timer_reg_intr w s ≡ some s') × Holds (IsStopped v m w) s'
    write_intr =
        write_after run_pins data_out timer_of IsQuiet kernel (IsStopped v m i) (IsStopped v m w)
          0x0C w s (inr (inr refl)) small (stopped_stays v m i) (stopped_stays v m w)
          (λ t k. (write-IsStopped v m i t k w).3) h

  module _ (v m i : ℕ) (s : PinState P) (h : Holds (IsStopped v m i) s) where
    write_stop :
        (s' : PinState P) × (bus.modify timer_reg_ctrl 0 s ≡ some s') × Holds (IsStopped v m i) s'
    write_stop =
        write_after run_pins data_out timer_of IsQuiet kernel (IsStopped v m i) (IsStopped v m i)
          0x00 0 s (inl (inl refl)) (omega arith) (stopped_stays v m i) (stopped_stays v m i)
          (λ t k. (write-IsStopped v m i t k 0).0) h

    write_start :
        v < 255
        → m ≡ 20
        → i < 2 ^ 32
        → (s' : PinState P) × (bus.modify timer_reg_ctrl ctrl_all s ≡ some s') × Holds IsRunning s'
    write_start below cmp small =
        write_after run_pins data_out timer_of IsQuiet kernel (IsStopped v m i) IsRunning 0x00 7 s
          (inl (inl refl)) (omega arith) (stopped_stays v m i) running_stays
          (λ t k. enable-IsRunning v m i t k below cmp small) h

  write_status :
      (w : ℕ) (s : PinState P)
      → w < 2 ^ 32
      → Holds IsRunning s
      → (s' : PinState P) × (bus.modify timer_reg_intr w s ≡ some s') × Holds IsRunning s'
  write_status w s small h =
      write_after run_pins data_out timer_of IsQuiet kernel IsRunning IsRunning 0x0C w s
        (inr (inr refl)) small running_stays running_stays (λ t k. status-IsRunning t k w small) h

  -- The timer stands at some value.
  abbrev Stands : Timer → Type 0
  Stands t = (v : ℕ) × (m : ℕ) × (i : ℕ) × IsStopped v m i t × (v < 2 ^ 32)

  write_halt :
      (s : PinState P)
      → Holds IsRunning s
      → (s' : PinState P) × (bus.modify timer_reg_ctrl 0 s ≡ some s') × Holds Stands s'
  write_halt s h =
      write_after run_pins data_out timer_of IsQuiet kernel IsRunning Stands 0x00 0 s
        (inl (inl refl)) (omega arith) running_stays
        (λ ps t (v, m, i, k, small). (v, m, i, turns-IsStopped v m i ps t k, small))
        (λ t k.
          (t.timer_val, t.timer_cmp, intr_of t, disable-IsStopped t k, omega (arith, k.below)))
        h

  wait_stopped :
      (v m i : ℕ) (s : PinState P)
      → Holds (IsStopped v m i) s
      → Holds (IsStopped v m i) (PinBridge.wait run_pins data_out clock_period s)
  wait_stopped v m i s (rest, h) =
      let (rest', (ks, e, more)) = wait-Cycle run_pins data_out timer_of IsQuiet kernel s rest in
      (rest', rw e (turns-IsStopped v m i ks _ (turns-IsStopped v m i [] _ h)))

  reset_phase-Passes : Passes (IsStopped 0 0 0) (IsStopped 0 0 0) reset_phase
  unfolding reset_phase mmio_write_ctrl mmio_write_value mmio_write_cmp mmio_write_intr log_line
      log_mmio_write log_mmio_read bind
  reset_phase-Passes s h =
      let (s1, e1, h1) = write_stop 0 0 0 s h in
      let (s2, e2, h2) = write_value 0 0 0 0 s1 (omega arith) h1 in
      let (s3, e3, h3) = write_cmp 0 0 0 0 s2 (omega arith) h2 in
      let (s4, e4, h4) = write_intr 0 0 0 0 s3 (omega arith) h3 in
      let (s5, e5, h5) =
        read_value run_pins data_out timer_of IsQuiet kernel 0 0 0 s4 (omega arith) h4 in
      (s1, e1, (s2, e2, (s3, e3, (s4, e4, (0, s5, e5, h5)))))

  compare-Polls :
      Polls bus timer_reg_intr intr_cmp
        (Holds IsRunning)
        (Holds IsRunning)
        (λ s. to_compare (timer_of s.model))
  compare-Polls s h =
      let (w, s', e, rest, t, n, got, before, after, more) =
        read_status run_pins data_out timer_of IsQuiet kernel s h in
      (
        w,
        s',
        e,
        elim (Bool-cases (has_any w intr_cmp)) [
          | inl bit ↦ inl (bit, (rest, after.running))
          | inr low ↦
              let off : testbit (intr_of t) 1 ≡ false =
                ap (λ x. testbit x 1) (sym got) ∙ sym (has_any-two_pow w 1) ∙ low in
              inr (
                low,
                (rest, after.running),
                ground (
                  arith, off, before.compare_near, after.compare_near, before.running.below, more,
                ),
              )
        ],
      )

  overflow-Polls :
      Polls bus timer_reg_intr intr_ov
        (Holds IsRunning)
        (Holds IsRunning)
        (λ s. to_overflow (timer_of s.model))
  overflow-Polls s h =
      let (w, s', e, rest, t, n, got, before, after, more) =
        read_status run_pins data_out timer_of IsQuiet kernel s h in
      (
        w,
        s',
        e,
        elim (Bool-cases (has_any w intr_ov)) [
          | inl bit ↦ inl (bit, (rest, after.running))
          | inr low ↦
              let off : testbit (intr_of t) 2 ≡ false =
                ap (λ x. testbit x 2) (sym got) ∙ sym (has_any-two_pow w 2) ∙ low in
              inr (
                low,
                (rest, after.running),
                ground (
                  arith, off, before.overflow_near, after.overflow_near, before.running.below, more,
                ),
              )
        ],
      )

  compare_test-Passes : Passes (IsStopped 0 0 0) IsRunning compare_test
  unfolding compare_test mmio_write_ctrl mmio_write_cmp mmio_write_intr mmio_read_intr log_line
      log_mmio_write log_mmio_read bind require
  compare_test-Passes s h =
      let (s1, e1, h1) = write_cmp 0 0 0 20 s (omega arith) h in
      let (s2, e2, h2) = write_start 0 20 0 s1 h1 (omega arith) refl (omega arith) in
      (
        s1,
        e1,
        (
          s2,
          e2,
          Leads-bind bus Clean (λ b s'. (b ≡ true) × Holds IsRunning s')
              (λ _ s'. Holds IsRunning s')
              (log_wait_bit timer_reg_intr intr_cmp 1000000 "TIMER_INTR_CMP") _ s2
              (log_wait_bit-Leads bus Clean timer_reg_intr intr_cmp "TIMER_INTR_CMP"
                (Holds IsRunning) (Holds IsRunning) (λ t. to_compare (timer_of t.model))
                compare-Polls 1000000 s2 h2 (ground arith))
              (λ b t k. rw (k.0) (
                let (w, t1, e, rest, u, n, got, before, after, more) =
                  read_status run_pins data_out timer_of IsQuiet kernel t k.1 in
                let kept : bit_and w (not_word intr_cmp) < 2 ^ 32 =
                  omega (arith, bit_and-le w (not_word intr_cmp), got, before.running.small) in
                let (t2, e', h') =
                  write_status (bit_and w (not_word intr_cmp)) t1 kept (rest, after.running) in
                (w, t1, e, (t2, e', h')))),
        ),
      )

  overflow_test-Passes : Passes IsRunning IsRunning overflow_test
  unfolding overflow_test mmio_write_value log_line log_mmio_write bind require
  overflow_test-Passes s h =
      let (s1, e1, h1) =
        write_after run_pins data_out timer_of IsQuiet kernel IsRunning IsRunning 0x04 250 s
          (inl (inr refl)) (omega arith) running_stays running_stays
          (λ t k. preset-IsRunning t k 250 (omega arith)) h in
      (
        s1,
        e1,
        Leads-bind bus Clean (λ b s'. (b ≡ true) × Holds IsRunning s') (λ _ s'. Holds IsRunning s')
            (log_wait_bit timer_reg_intr intr_ov 1000000 "TIMER_INTR_OV") _ s1
            (log_wait_bit-Leads bus Clean timer_reg_intr intr_ov "TIMER_INTR_OV" (Holds IsRunning)
              (Holds IsRunning) (λ t. to_overflow (timer_of t.model)) overflow-Polls 1000000 s1 h1
              (ground arith))
            (λ b t k. rw (k.0) (k.1)),
      )

  disable_test-Passes : Passes IsRunning Stands disable_test
  unfolding disable_test mmio_write_ctrl log_line log_mmio_write log_mmio_read bind require
  disable_test-Passes s h =
      let (s1, e1, (rest, (v, m, i, k, small))) = write_halt s h in
      let (s2, e2, h2) =
        read_value run_pins data_out timer_of IsQuiet kernel v m i s1 small (rest, k) in
      let h3 = wait_stopped v m i s2 h2 in
      let s3 = PinBridge.wait run_pins data_out clock_period s2 in
      let (s4, e4, (rest4, k4)) =
        read_value run_pins data_out timer_of IsQuiet kernel v m i s3 small h3 in
      let same : (v == v) ≡ true = ground arith in
      (s1, e1, (v, s2, e2, (s3, refl, (v, s4, e4, rw same (rest4, (v, m, i, k4, small))))))

  then_Leads :
      (I J : Timer → Type 0) (m : Program (Unit {0})) (k : Program ℕ) (s : PinState P)
      → Passes I J m
      → ((t : PinState P) → Holds J t → Leads bus Clean (λ _ _. ⊥) t k)
      → Holds I s
      → Leads bus Clean (λ _ _. ⊥) s (m >> k)
  then_Leads I J m k s h next i =
      Leads-bind bus Clean (λ _ t. Holds J t) (λ _ _. ⊥) m (λ _. k) s (h s i) (λ _ t j. next t j)

  main-Leads : (s : PinState P) → Holds (IsStopped 0 0 0) s → Leads bus Clean (λ _ _. ⊥) s main
  unfolding main greeting farewell exit_app log_line bind
  main-Leads s h =
      then_Leads (IsStopped 0 0 0) (IsStopped 0 0 0) reset_phase _ s reset_phase-Passes
        (λ t h1.
          then_Leads (IsStopped 0 0 0) IsRunning compare_test _ t compare_test-Passes
            (λ u h2.
              then_Leads IsRunning IsRunning overflow_test _ u overflow_test-Passes
                (λ w h3.
                  then_Leads IsRunning Stands disable_test _ w disable_test-Passes (λ x h4. refl)
                    h3)
                h2)
            h1)
        h

  -- The program has ended with code 0 and the closing lines.
  abbrev pub Completed : Outcome ℕ (PinState P) → Type 0
  Completed o = (r : Regs) × (s : PinState P) × (o ≡ exited 0 r s) × HasCompleted r.out

  Reaches-Completed :
      (o : Outcome ℕ (PinState P))
      → Reaches bus Clean (λ _ _. ⊥) o
      → Allowed Verdict ⊥ o
      → Completed o
  Reaches-Completed (finished a r s) h v = absurd h
  Reaches-Completed fault h v = absurd h
  Reaches-Completed (exited code r s) h (inl (good, last)) = (r, s, rw good refl, last)
  Reaches-Completed (exited code r s) h (inr (bad, last)) = absurd (omega (arith, h, bad))

  -- On the Cortex-A platform with the timer as its reset leaves it, whatever the kernel makes of the
  -- turns of the timer's processes in and between the accesses, as long as each clock period runs its
  -- thread at least once, the firmware runs to its end: both events are found by polling, the timer
  -- stands when it is disabled, and the program exits with code 0 just after the closing lines.
  pub timer_main_completes :
      (r : Regs) (s : PinState P)
      → Holds (IsStopped 0 0 0) s
      → Completed (run bus (done tt) main r s)
  timer_main_completes r s h =
      Reaches-Completed (run bus (done tt) main r s)
        (Leads-run bus (done tt) (λ t. refl) Clean (λ _ _. ⊥) main r s (main-Leads s h))
        (timer_main-Verdict bus (done tt) r s (unfold Ends in λ out. tt))
