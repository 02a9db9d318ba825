-- ===== src/Firmware/Board/Laws.antt =====
-- Two boards whose blocks are the same answer an access alike.
use systemc_model.Base.{◌==◌, if◌then◌else◌, ℕ, ◌^◌, ◌≡◌, refl, sym, ap, ◌∙◌, true, false, some}
use systemc_model.Base.{arith}
use systemc_model.Base.Bits.{has_any}
use systemc_model.Tlm.{Txn, Transport, word_of}
use systemc_model.Transactor.Initiator.{read_payload, write_payload}
use systemc_model.Transactor.Server.{handle, dispatch, tlm_read, tlm_write, waited, is_response_ok}
use systemc_model.Peripherals.Sram
use systemc_model.Peripherals.Gpio
use systemc_model.Peripherals.Uart
use systemc_model.Peripherals.Uart.{Uart}
use systemc_model.Peripherals.SysCtrl
use systemc_model.Peripherals.Wdt.{Wdt}
use systemc_model.Soc.Clocked.{settled_gpio, settled_uart}
use systemc_model.Soc.{Soc, b_transport, on_sram, on_gpio, on_uart, on_sysctrl}
use systemc_model.Soc.HostMemory.{read_request, write_request}
use systemc_model.Soc.Map.{
  Place, timer, sram, gpio, uart, sysctrl, wdt, place_of, deliver, over_ahb, over_apb,
}
use systemc_model.Soc.Map.Routing.{route-some, transport-eq-route}
use systemc_model.Firmware.CortexM.{pl_irq_uart}
use systemc_model.Firmware.Board.{Nvic, Board, taken}
use systemc_model.Firmware.Board.Reference.{IsTimed, is_known}

-- The four blocks whose registers do not depend on the passing of time.
abbrev pub Same : {T U : Type 0} → Soc T → Soc U → Type 0
Same s t = (s.sram ≡ t.sram) × (s.gpio ≡ t.gpio) × (s.uart ≡ t.uart) × (s.sysctrl ≡ t.sysctrl)

module _ {T U : Type 0} (first : Transport T) (second : Transport U) where
  deliver_alike :
      (p : Place) (off : ℕ) (s : Soc T) (t : Soc U) (x : Txn)
      → is_known p ≡ true
      → Same s t
      → ((deliver first p off s x).1 ≡ (deliver second p off t x).1)
        × Same (deliver first p off s x).0 (deliver second p off t x).0
  unfolding deliver on_sram on_gpio on_uart on_sysctrl
  deliver_alike timer off s t x k h = cc
  deliver_alike wdt off s t x k h = cc
  deliver_alike sram off s t x k (a, b, c, d) =
      let e = ap (λ m. Sram.b_transport m (over_ahb off x)) a in
      (ap (λ r. r.1) e, (ap (λ r. r.0) e, b, c, d))
  deliver_alike gpio off s t x k (a, b, c, d) =
      let e = ap (λ m. Gpio.b_transport m (over_apb off x)) b in
      (ap (λ r. r.1) e, (a, ap (λ r. r.0) e, c, d))
  deliver_alike uart off s t x k (a, b, c, d) =
      let e = ap (λ m. Uart.b_transport m (over_apb off x)) c in
      (ap (λ r. r.1) e, (a, b, ap (λ r. r.0) e, d))
  deliver_alike sysctrl off s t x k (a, b, c, d) =
      let e = ap (λ m. SysCtrl.b_transport m (over_apb off x)) d in
      (ap (λ r. r.1) e, (a, b, c, ap (λ r. r.0) e))

  pub transport_alike :
      (p : Place) (off : ℕ) (s : Soc T) (t : Soc U) (x : Txn)
      → place_of x.address ≡ some (p, off)
      → is_known p ≡ true
      → Same s t
      → ((b_transport first s x).1 ≡ (b_transport second t x).1)
        × Same (b_transport first s x).0 (b_transport second t x).0
  transport_alike p off s t x e k h =
      let (same, blocks) = deliver_alike p off s t x k h in
      rw
        (
          transport-eq-route first s x,
          route-some first s x p off e,
          transport-eq-route second t x,
          route-some second t x p off e,
        )
        (ap (λ (u : Txn). record u { address = x.address }) same, blocks)

module _ {T : Type 0} (bridge : Transport T) where
  -- The timer and the watchdog do not notice an access of another block.
  deliver_aside :
      (p : Place) (off : ℕ) (s : Soc T) (x : Txn)
      → is_known p ≡ true
      → let u = (deliver bridge p off s x).0 in (u.timer ≡ s.timer) × (u.wdt ≡ s.wdt)
  unfolding deliver on_sram on_gpio on_uart on_sysctrl
  deliver_aside timer off s x k = cc
  deliver_aside wdt off s x k = cc
  deliver_aside sram off s x k = (refl, refl)
  deliver_aside gpio off s x k = (refl, refl)
  deliver_aside uart off s x k = (refl, refl)
  deliver_aside sysctrl off s x k = (refl, refl)

  pub transport_aside :
      (p : Place) (off : ℕ) (s : Soc T) (x : Txn)
      → place_of x.address ≡ some (p, off)
      → is_known p ≡ true
      → let u = (b_transport bridge s x).0 in (u.timer ≡ s.timer) × (u.wdt ≡ s.wdt)
  transport_aside p off s x e k =
      rw (transport-eq-route bridge s x, route-some bridge s x p off e) (deliver_aside p off s x k)

module _ {T N : Type 0} (bridge : Transport T) (wait : ℕ → Soc T → Soc T) (irq_bits : Soc T → ℕ)
    (idle : Soc T → Soc T) (nvic : Nvic N) where
  abbrev pub after : Soc T → Txn → Soc T
  after s x = waited (b_transport bridge) wait irq_bits (b_transport bridge s x)

  pub read_taken :
      (b : Board T N) (a : ℕ)
      → let u = (b_transport bridge b.soc (read_payload a)).1 in
        taken bridge wait irq_bits idle nvic b
          (handle (b_transport bridge) wait irq_bits (read_request a) b.soc)
        ≡ (if is_response_ok u
            then (
              word_of u.bytes,
              record b {
                soc = after b.soc (read_payload a);
                lines = irq_bits (after b.soc (read_payload a));
              },
            )
            else (0, record b { soc = after b.soc (read_payload a) }))
  unfolding handle dispatch tlm_read
  read_taken b a = ground arith

  pub write_taken :
      (b : Board T N) (a v : ℕ)
      → let u = (b_transport bridge b.soc (write_payload a v)).1 in
        taken bridge wait irq_bits idle nvic b
          (handle (b_transport bridge) wait irq_bits (write_request a v) b.soc)
        ≡ (if is_response_ok u
            then (
              0,
              record b {
                soc = after b.soc (write_payload a v);
                lines = irq_bits (after b.soc (write_payload a v));
              },
            )
            else (0, record b { soc = after b.soc (write_payload a v) }))
  unfolding handle dispatch tlm_write
  write_taken b a v = ground arith

module _ {T U : Type 0} (first : Transport T) (second : Transport U) (Steady : T → Wdt → Type 0)
    (Steady' : U → Wdt → Type 0) (wait : ℕ → Soc T → Soc T) (wait' : ℕ → Soc U → Soc U)
    (irq_bits : Soc T → ℕ) (irq_bits' : Soc U → ℕ) (timed : IsTimed Steady wait irq_bits)
    (timed' : IsTimed Steady' wait' irq_bits') where
  wait_alike :
      (d : ℕ) (s : Soc T) (t : Soc U)
      → Steady s.timer s.wdt
      → Steady' t.timer t.wdt
      → Same s t
      → Same (wait d s) (wait' d t) × Steady' (wait' d t).timer (wait' d t).wdt
  wait_alike d s t h h' (a, b, c, e) = (
    (
      timed.sram d s h ∙ a ∙ sym (timed'.sram d t h'),
      timed.gpio d s h ∙ ap settled_gpio b ∙ sym (timed'.gpio d t h'),
      timed.uart d s h ∙ ap settled_uart c ∙ sym (timed'.uart d t h'),
      timed.sysctrl d s h ∙ e ∙ sym (timed'.sysctrl d t h'),
    ),
    timed'.keeps d t h',
  )

  pub waited_alike :
      (s : Soc T) (t : Soc U) (x y : Txn)
      → x ≡ y
      → Steady s.timer s.wdt
      → Steady' t.timer t.wdt
      → Same s t
      → let u = waited (b_transport first) wait irq_bits (s, x) in
        let u' = waited (b_transport second) wait' irq_bits' (t, y) in
        Same u u' × Steady' u'.timer u'.wdt
  waited_alike s t x y e h h' same =
      rw e
        (elim (y.delay == 0)
          as (λ z.
            let u' = if z then t else wait' y.delay t in
            Same (if z then s else wait y.delay s) u' × Steady' u'.timer u'.wdt) [
              | true ↦ (same, h')
              | false ↦ wait_alike y.delay s t h h' same
            ])

  pub line_alike :
      (s : Soc T) (t : Soc U)
      → Same s t
      → has_any (irq_bits s) (2 ^ pl_irq_uart) ≡ has_any (irq_bits' t) (2 ^ pl_irq_uart)
  line_alike s t (a, b, c, e) = timed.line s ∙ ap (λ (u : Uart). u.irq) c ∙ sym (timed'.line t)
