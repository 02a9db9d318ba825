-- ===== src/Firmware/Board/Follow.antt =====
-- A board answers as the reference board does, wherever that one answers.
use systemc_model.Base.{◌==◌, if◌then◌else◌, Bool-cases, ℕ, ◌-◌, ◌^◌, ◌≡◌, refl, sym, ap, ◌∙◌}
use systemc_model.Base.{inl, inr, Bool, true, false, ◌&&◌, ◌||◌, Option, none, some, arith}
use systemc_model.Base.Bits.{has_any}
use systemc_model.Tlm.{Txn, Transport, word_of}
use systemc_model.Transactor.Initiator.{read_payload, write_payload}
use systemc_model.Transactor.Server.{is_response_ok}
use systemc_model.Peripherals.Wdt.{Wdt}
use systemc_model.Soc.{Soc, b_transport}
use systemc_model.Soc.Map.{Place, place_of}
use systemc_model.Firmware.Program.Laws.{Simulates}
use systemc_model.Firmware.CortexM.{pl_base, nvic_iser0, pl_irq_uart}
use systemc_model.Firmware.Board.{
  Nvic, Board, in_window, answer_read, answer_write, fetch, modify, pending, board_bus,
}
use systemc_model.Firmware.Board.Reference.{
  IsTimed, is_known, Always, quiet_timer, settle, uart_line, settle-IsTimed, uart_nvic, Reference,
  known_place, is_answered, reference,
}
use systemc_model.Firmware.Board.Laws.{
  Same, transport_aside, transport_alike, waited_alike, line_alike, after, read_taken, write_taken,
}

-- A write of ISER0 enables the interrupts of its bits, beside those that are enabled.
pub record IsNvic {N : Type 0} (nvic : Nvic N) : Type 0 where
  pub enables :
      (v : ℕ) (n : N) (lines : ℕ)
      → nvic.fires (nvic.set_enable v n) lines ≡ (nvic.fires n lines || has_any lines v)

pub record Matches {T N : Type 0} (Steady : T → Wdt → Type 0) (nvic : Nvic N) (s : Reference)
    (t : Board T N) : Type 0 where
  pub blocks : Same s.soc t.soc
  pub enabled : (lines : ℕ) → (s.nvic && has_any lines (2 ^ pl_irq_uart)) ≡ nvic.fires t.nvic lines
  pub line : has_any s.lines (2 ^ pl_irq_uart) ≡ has_any t.lines (2 ^ pl_irq_uart)
  pub steady : Steady t.soc.timer t.soc.wdt

known :
    (o : Option (Place × ℕ))
    → known_place o ≡ true
    → (p : Place) × (off : ℕ) × (o ≡ some (p, off)) × (is_known p ≡ true)
known none h = cc
known (some (p, off)) h = (p, off, refl, h)

both : (a b : Bool) → (a && b) ≡ true → (a ≡ true) × (b ≡ true)
both true b h = (refl, h)
both false b h = cc

module _ {T N : Type 0} (bridge : Transport T) (Steady : T → Wdt → Type 0)
    (wait : ℕ → Soc T → Soc T) (irq_bits : Soc T → ℕ) (idle : Soc T → Soc T) (nvic : Nvic N)
    (timed : IsTimed Steady wait irq_bits) where
  replied_alike :
      (good good' : Bool) (w w' : ℕ) (s : Reference) (t : Board T N) (s2 : Soc (Unit {0}))
      (t2 : Soc T)
      → good ≡ good'
      → w ≡ w'
      → Matches Steady nvic s t
      → Same s2 t2
      → Steady t2.timer t2.wdt
      → let one : ℕ × Reference =
          if good
          then (w, record s { soc = s2; lines = uart_line s2 })
          else (0, record s { soc = s2 }) in
        let two : ℕ × Board T N =
          if good'
          then (w', record t { soc = t2; lines = irq_bits t2 })
          else (0, record t { soc = t2 }) in
        (one.0 ≡ two.0) × Matches Steady nvic one.1 two.1
  replied_alike true true w w' s t s2 t2 g e h same still = (
    e,
    record {
      blocks = same;
      enabled = h.enabled;
      line =
          line_alike quiet_timer bridge Always Steady settle wait uart_line irq_bits settle-IsTimed
            timed s2 t2 same;
      steady = still;
    },
  )
  replied_alike false false w w' s t s2 t2 g e h same still =
      (refl, record { blocks = same; enabled = h.enabled; line = h.line; steady = still })
  replied_alike true false w w' s t s2 t2 g e h same still = cc
  replied_alike false true w w' s t s2 t2 g e h same still = cc

  aside :
      (p : Place) (off : ℕ) {s : Reference} (t : Board T N) (x : Txn)
      → place_of x.address ≡ some (p, off)
      → is_known p ≡ true
      → Matches Steady nvic s t
      → let u = (b_transport bridge t.soc x).0 in Steady u.timer u.wdt
  aside p off t x e k h =
      let (same_timer, same_wdt) = transport_aside bridge p off t.soc x e k in
      rw (same_timer, same_wdt) h.steady

  read_alike :
      (a : ℕ) (p : Place) (off : ℕ) (s : Reference) (t : Board T N)
      → place_of a ≡ some (p, off)
      → is_known p ≡ true
      → Matches Steady nvic s t
      → let one = answer_read quiet_timer settle uart_line (λ x. x) uart_nvic a s in
        let two = answer_read bridge wait irq_bits idle nvic a t in
        (one.0 ≡ two.0) × Matches Steady nvic one.1 two.1
  unfolding read_payload
  read_alike a p off s t e k h =
      let x = read_payload a in
      let (same, blocks) = transport_alike quiet_timer bridge p off s.soc t.soc x e k h.blocks in
      let (later, still) =
        waited_alike quiet_timer bridge Always Steady settle wait uart_line irq_bits settle-IsTimed
          timed (b_transport quiet_timer s.soc x).0 (b_transport bridge t.soc x).0 _ _ same tt
          (aside p off t x e k h) blocks in
      rw
        (
          read_taken quiet_timer settle uart_line (λ y. y) uart_nvic s a,
          read_taken bridge wait irq_bits idle nvic t a,
        )
        (replied_alike _ _ _ _ s t _ _ (ap is_response_ok same)
          (ap (λ (u : Txn). word_of u.bytes) same) h later still)

  write_alike :
      (a v : ℕ) (p : Place) (off : ℕ) (s : Reference) (t : Board T N)
      → place_of a ≡ some (p, off)
      → is_known p ≡ true
      → Matches Steady nvic s t
      → Matches Steady nvic
          (answer_write quiet_timer settle uart_line (λ x. x) uart_nvic a v s).1
          (answer_write bridge wait irq_bits idle nvic a v t).1
  unfolding write_payload
  write_alike a v p off s t e k h =
      let x = write_payload a v in
      let (same, blocks) = transport_alike quiet_timer bridge p off s.soc t.soc x e k h.blocks in
      let (later, still) =
        waited_alike quiet_timer bridge Always Steady settle wait uart_line irq_bits settle-IsTimed
          timed (b_transport quiet_timer s.soc x).0 (b_transport bridge t.soc x).0 _ _ same tt
          (aside p off t x e k h) blocks in
      rw
        (
          write_taken quiet_timer settle uart_line (λ y. y) uart_nvic s a v,
          write_taken bridge wait irq_bits idle nvic t a v,
        )
        (replied_alike _ _ 0 0 s t _ _ (ap is_response_ok same) refl h later still).1

  fetches :
      (a : ℕ) (s : Reference) (t : Board T N) (v : ℕ) (s' : Reference)
      → Matches Steady nvic s t
      → reference.fetch a s ≡ some (v, s')
      → (t' : Board T N) × (fetch bridge wait irq_bits idle nvic a t ≡ some (v, t'))
        × Matches Steady nvic s' t'
  unfolding fetch
  fetches a s t v s' h e = elim (Bool-cases (is_answered a)) [
    | inl here ↦
        let (inside, there) = both (in_window a) (known_place (place_of (a - pl_base))) here in
        let (p, off, place, k) = known (place_of (a - pl_base)) there in
        let (same, after) = read_alike (a - pl_base) p off s t place k h in
        let r = answer_read quiet_timer settle uart_line (λ x. x) uart_nvic (a - pl_base) s in
        let r' = answer_read bridge wait irq_bits idle nvic (a - pl_base) t in
        let got : r ≡ (v, s') = ground (arith, here, inside, e) in
        (
          (r').1,
          rw inside (ap (λ x. some (x, r'.1)) (sym same ∙ ap (λ x. x.0) got)),
          rw (← ap (λ x. x.1) got) after,
        )
    | inr other ↦ ground arith
  ]

  modifies :
      (a v : ℕ) (s : Reference) (t : Board T N) (s' : Reference)
      → IsNvic nvic
      → Matches Steady nvic s t
      → reference.modify a v s ≡ some s'
      → (t' : Board T N) × (modify bridge wait irq_bits idle nvic a v t ≡ some t')
        × Matches Steady nvic s' t'
  unfolding modify
  modifies a v s t s' law h e = elim (Bool-cases (a == nvic_iser0)) [
    | inl iser ↦ elim (Bool-cases (v == 2 ^ pl_irq_uart)) [
      | inl uart ↦ (
        record t { nvic = nvic.set_enable v t.nvic },
        rw iser,
        let got : record s { nvic = true } ≡ s' = ground (arith, iser, uart, e) in
            rw (← got) (record {
              blocks = h.blocks;
              enabled = λ lines. ground (arith, h.enabled lines, law.enables v t.nvic lines, uart);
              line = h.line;
              steady = h.steady;
            }),
      )
      | inr other ↦ ground arith
    ]
    | inr mapped ↦ elim (Bool-cases (is_answered a)) [
      | inl here ↦
          let (inside, there) = both (in_window a) (known_place (place_of (a - pl_base))) here in
          let (p, off, place, k) = known (place_of (a - pl_base)) there in
          let after = write_alike (a - pl_base) v p off s t place k h in
          let r = answer_write quiet_timer settle uart_line (λ x. x) uart_nvic (a - pl_base) v s in
          let got : r.1 ≡ s' = ground (arith, mapped, here, inside, e) in
          (
            (answer_write bridge wait irq_bits idle nvic (a - pl_base) v t).1,
            rw (mapped, inside),
            rw (← got) after,
          )
      | inr other ↦ ground arith
    ]
  ]

  -- Every board whose blocks do in passing time what the platform's do, and whose controller enables
  -- what is written to it, answers as the reference board.
  pub board-Simulates :
      IsNvic nvic
      → Simulates reference (board_bus bridge wait irq_bits idle nvic) (Matches Steady nvic)
  unfolding pending
  board-Simulates law = record {
    fetches = fetches;
    modifies = λ a v s t s' h e. modifies a v s t s' law h e;
    asks = λ s t h. rw h.line (h.enabled t.lines);
    idles = λ s t s' h e. cc;
  }
