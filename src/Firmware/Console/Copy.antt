-- ===== src/Firmware/Console/Copy.antt =====
-- The two files log.h of platforms/: the one of basic_cortexA does over the serial port what the one
-- of basic_cortexM does by semihosting.
pub mod Lines
use systemc_model.Base.{Bool-cases, ℕ, zero, suc, ◌+◌, ◌≡◌, refl, ap, ◌∙◌, inl, inr, true}
use systemc_model.Base.{false, none, some, [], ◌∷◌}
use systemc_model.Base.Bits.{u32, has_any}
use systemc_model.Firmware.Program.{
  text, number, Program, done, load, put, bind, Bus, Regs, Outcome, finished, answered, resume,
}
use systemc_model.Firmware.Log as Semihost
use systemc_model.Firmware.Console.Log as Log
use systemc_model.Firmware.Console.Run.{on_console, on_console-bind}
use systemc_model.Firmware.Console.Copy.Lines.{
  written, result, put_then, print_then, pieces_copy, log_line_copy, log_mmio_write_copy,
  log_mmio_read_copy, report_set_copy, report_waiting_copy, after_copy,
}
use Prim.Native.String.{String}

module _ {P W : Type 0} (uartfr : P → ℕ × P) (uartdr : ℕ → P → P) (patience : ℕ) (bus : Bus W) where
  abbrev runs : {A : Type 0} → Program A → Regs → P × W → Outcome A (P × W)
  runs = on_console uartfr uartdr patience bus

  report_timeout_copy :
      (reg : ℕ) (label : String) (polls : ℕ) (r : Regs) (p : P) (w : W)
      → runs (Semihost.report_timeout reg label polls) r (p, w)
        ≡ answered
            (Log.report_timeout uartfr uartdr patience (bus.fetch reg) label polls (p, w))
            (λ s. finished tt r s)
  unfolding Semihost.report_timeout Log.report_timeout bind on_console put_then print_then
  report_timeout_copy reg label polls r p w =
      pieces_copy uartfr uartdr patience bus (λ s. finished tt r s)
        (text "[poll] TIMEOUT "
          ∷ text label
          ∷ text " after "
          ∷ number polls
          ∷ text " reads, INTR="
          ∷ [])
        (load reg (λ v. put (number v) (put (text "\n") (done tt)))) _ r p w
        (λ p'.
          elim (bus.fetch reg w)
            as (λ o.
              answered o (λ x. runs (put (number x.0) (put (text "\n") (done tt))) r (p', x.1))
              ≡ answered
                  (Log.◌>>=◌ o (λ x.
                    print_then uartfr uartdr patience bus (number x.0 ∷ text "\n" ∷ [])
                      (λ p''. some (p'', x.1)) p'))
                  (λ s. finished tt r s)) [
                    | none ↦ refl
                    | some x ↦
                        pieces_copy uartfr uartdr patience bus (λ s. finished tt r s)
                          (number x.0 ∷ text "\n" ∷ []) (done tt) (λ p''. some (p'', x.1)) r p' x.1
                          (λ _. refl)
                  ])

  -- What a round does with the value that it read.
  round_copy :
      (reg mask : ℕ) (label : String) (spins polls : ℕ) (r : Regs) (p : P) (v : ℕ) (w : W)
      → ((p' : P)
          → runs (Semihost.wait_loop reg mask label spins polls) r (p', w)
            ≡ result uartfr uartdr patience bus r (
                Log.wait_loop uartfr uartdr patience
                  (bus.fetch reg)
                  mask
                  label
                  spins
                  polls
                  (p', w)))
      → runs
          (elim (has_any v mask) [
            | true ↦ bind (Semihost.report_set label polls v) (λ _. done true)
            | false ↦
                bind
                  (Semihost.report_waiting polls v)
                  (λ _. Semihost.wait_loop reg mask label spins polls)
          ])
          r
          (p, w)
        ≡ result uartfr uartdr patience bus r (elim (has_any v mask) [
          | true ↦
              Log.◌>>=◌
                (Log.report_set uartfr uartdr patience label polls v p)
                (λ p'. some (true, p', w))
          | false ↦ Log.◌>>=◌ (Log.report_waiting uartfr uartdr patience polls v p) (λ p'.
              Log.wait_loop uartfr uartdr patience (bus.fetch reg) mask label spins polls (p', w))
        ])
  unfolding on_console
  round_copy reg mask label spins polls r p v w h = elim (Bool-cases (has_any v mask)) [
    | inl e ↦ rw e (
        after_copy uartfr uartdr patience bus (λ (a, p', w'). finished a r (p', w'))
          (Semihost.report_set label polls v) _ (done true) (λ p'. some (true, p', w)) r p w
          (report_set_copy uartfr uartdr patience bus label polls v r p w) (λ _. refl))
    | inr e ↦ rw e (
        after_copy uartfr uartdr patience bus (λ (a, p', w'). finished a r (p', w'))
          (Semihost.report_waiting polls v) _ (Semihost.wait_loop reg mask label spins polls)
          (λ p'.
            Log.wait_loop uartfr uartdr patience (bus.fetch reg) mask label spins polls (p', w))
          r p w (report_waiting_copy uartfr uartdr patience bus polls v r p w) h)
  ]

  wait_loop_copy :
      (reg mask : ℕ) (label : String) (spins polls : ℕ) (r : Regs) (p : P) (w : W)
      → runs (Semihost.wait_loop reg mask label spins polls) r (p, w)
        ≡ result uartfr uartdr patience bus r
            (Log.wait_loop uartfr uartdr patience (bus.fetch reg) mask label spins polls (p, w))
  unfolding Semihost.wait_loop Log.wait_loop bind on_console
  wait_loop_copy reg mask label zero polls r p w =
      on_console-bind uartfr uartdr patience bus (Semihost.report_timeout reg label polls)
        (λ _. done false) r (p, w)
      ∙ ap (λ q. resume q (λ _ r' s'. finished false r' s'))
          (report_timeout_copy reg label polls r p w)
      ∙ (elim (Log.report_timeout uartfr uartdr patience (bus.fetch reg) label polls (p, w))
          as (λ o.
            resume (answered o (λ s. finished tt r s)) (λ _ r' s'. finished false r' s')
            ≡ result uartfr uartdr patience bus r (Log.◌>>=◌ o (λ s. some (false, s.0, s.1)))) [
              | none ↦ refl
              | some s ↦ refl
            ])
  wait_loop_copy reg mask label (suc spins) polls r p w =
      elim (bus.fetch reg w)
        as (λ o.
          answered o (λ x.
            runs
              (elim (has_any x.0 mask) [
                | true ↦ bind (Semihost.report_set label (u32 (polls + 1)) x.0) (λ _. done true)
                | false ↦
                    bind (Semihost.report_waiting (u32 (polls + 1)) x.0)
                      (λ _. Semihost.wait_loop reg mask label spins (u32 (polls + 1)))
              ])
              r (p, x.1))
          ≡ result uartfr uartdr patience bus r (
              Log.◌>>=◌ o (λ x. elim (has_any x.0 mask) [
                | true ↦
                    Log.◌>>=◌ (Log.report_set uartfr uartdr patience label (u32 (polls + 1)) x.0 p)
                      (λ p'. some (true, p', x.1))
                | false ↦
                    Log.◌>>=◌ (Log.report_waiting uartfr uartdr patience (u32 (polls + 1)) x.0 p)
                      (λ p'.
                        Log.wait_loop uartfr uartdr patience (bus.fetch reg) mask label spins
                          (u32 (polls + 1)) (p', x.1))
              ]))) [
                | none ↦ refl
                | some x ↦
                    round_copy reg mask label spins (u32 (polls + 1)) r p x.0 x.1
                      (λ p'. wait_loop_copy reg mask label spins (u32 (polls + 1)) r p' x.1)
              ]

  log_wait_bit_copy :
      (reg mask spins : ℕ) (label : String) (r : Regs) (p : P) (w : W)
      → runs (Semihost.log_wait_bit reg mask spins label) r (p, w)
        ≡ result uartfr uartdr patience bus r
            (Log.log_wait_bit uartfr uartdr patience (bus.fetch reg) mask spins label (p, w))
  unfolding Semihost.log_wait_bit Log.log_wait_bit bind put_then print_then
  log_wait_bit_copy reg mask spins label r p w =
      pieces_copy uartfr uartdr patience bus (λ (a, p', w'). finished a r (p', w'))
        (text "[poll] waiting for "
          ∷ text label
          ∷ text " (mask "
          ∷ number mask
          ∷ text ")...\n"
          ∷ [])
        (Semihost.wait_loop reg mask label spins 0) _ r p w
        (λ p'. wait_loop_copy reg mask label spins 0 r p' w)

  -- The log over the serial port does what the log by semihosting does with its output sent over that
  -- port: a line and the two messages on an access, and polling a register, with the same reads, the
  -- same messages and the same result, whether or not the port's loops and the accesses end.
  pub log_copies :
      (msg reg label : String) (offset value a mask spins : ℕ) (r : Regs) (p : P) (w : W)
      → (runs (Semihost.log_line msg) r (p, w)
          ≡ written uartfr uartdr patience bus r w (Log.log_line uartfr uartdr patience msg p))
        × (runs (Semihost.log_mmio_write reg offset value) r (p, w)
            ≡ written uartfr uartdr patience bus r w
                (Log.log_mmio_write uartfr uartdr patience reg offset value p))
        × (runs (Semihost.log_mmio_read reg offset value) r (p, w)
            ≡ written uartfr uartdr patience bus r w
                (Log.log_mmio_read uartfr uartdr patience reg offset value p))
        × (runs (Semihost.log_wait_bit a mask spins label) r (p, w)
            ≡ result uartfr uartdr patience bus r
                (Log.log_wait_bit uartfr uartdr patience (bus.fetch a) mask spins label (p, w)))
  log_copies msg reg label offset value a mask spins r p w = (
    log_line_copy uartfr uartdr patience bus msg r p w,
    log_mmio_write_copy uartfr uartdr patience bus reg offset value r p w,
    log_mmio_read_copy uartfr uartdr patience bus reg offset value r p w,
    log_wait_bit_copy a mask spins label r p w,
  )
