-- ===== src/Firmware/Console.antt =====
-- platforms/basic_cortexA/firmware/uart_console.h: the output of the Cortex-A firmware on QEMU's own
-- serial port, which is a parameter.
pub mod Text
pub mod Log
pub mod Run
pub mod Copy
pub mod Refine
use systemc_model.Base.{◌==◌, if◌then◌else◌, Bool-cases, ℕ, zero, suc, ◌^◌, ◌<◌, ◌≡◌, refl, sym}
use systemc_model.Base.{ap, ◌∙◌, inl, inr, true, false, Option, none, some, List, [], ◌∷◌, ◌++◌}
use systemc_model.Base.{arith}
use systemc_model.Base.Bits.{u8, has_any}
use mathlib.Core.List.{map, append-nil, append_assoc}

abbrev pub uartfr_txff : ℕ
uartfr_txff = 2 ^ 5

-- The characters of a string before its end.
abbrev pub IsText : List ℕ → Type 0
IsText [] = Unit
IsText (c ∷ cs) = ((c == 0) ≡ false) × IsText cs

-- A read of `UARTFR`, with what it does to the port, and a write of `UARTDR`.
module _ {S : Type 0} (uartfr : S → ℕ × S) (uartdr : ℕ → S → S) where
  -- The loop reads the flags at most `patience` times: `none` is a loop that has not ended by then.
  unfoldable pub uart_putc : ℕ → ℕ → S → Option S
  uart_putc zero c s = none
  uart_putc (suc patience) c s =
      let (fr, s') = uartfr s in
      let waits = uart_putc patience c s' in
      if has_any fr uartfr_txff then waits else some (uartdr (u8 c) s')

  -- A string of C: it ends at its first 0.
  unfoldable pub uart_puts : ℕ → List ℕ → S → Option S
  uart_puts patience [] s = some s
  uart_puts patience (c ∷ cs) s =
      if c == 0
      then some s
      else elim (uart_putc patience c s) [ none ↦ none | some s' ↦ uart_puts patience cs s' ]

  -- What the loop relies on: `busy` bounds the reads of the flags that still find the FIFO full and
  -- gets smaller with each of them, and what is written while there is room is sent after the rest.
  pub record IsConsole (busy : S → ℕ) (sent : S → List ℕ) : Type 0 where
    pub waits : (s : S) → has_any (uartfr s).0 uartfr_txff ≡ true → busy (uartfr s).1 < busy s
    pub reads : (s : S) → sent (uartfr s).1 ≡ sent s
    pub writes :
        (c : ℕ) (s : S)
        → has_any (uartfr s).0 uartfr_txff ≡ false
        → sent (uartdr c (uartfr s).1) ≡ sent s ++ (c ∷ [])

  module _ (busy : S → ℕ) (sent : S → List ℕ) (console : IsConsole busy sent) where
    pub uart_putc-sends :
        (patience c : ℕ) (s : S)
        → busy s < patience
        → (s' : S) × (uart_putc patience c s ≡ some s') × (sent s' ≡ sent s ++ (u8 c ∷ []))
    unfolding uart_putc
    uart_putc-sends zero c s h = absurd (omega arith)
    uart_putc-sends (suc patience) c s h = elim (Bool-cases (has_any (uartfr s).0 uartfr_txff)) [
      | inl full ↦
          let (s', e, after) =
            uart_putc-sends patience c (uartfr s).1 (omega (arith, console.waits s full)) in
          (s', rw full e, after ∙ ap (λ xs. xs ++ (u8 c ∷ [])) (console.reads s))
      | inr room ↦ (uartdr (u8 c) (uartfr s).1, rw room refl, console.writes (u8 c) s room)
    ]

    -- If the port keeps no state busy for as many reads of its flags as the loop may make, the whole
    -- string is sent, as the bytes of its characters and in order, and nothing after its end is.
    pub uart_puts-sends :
        (patience : ℕ) (cs rest : List ℕ) (s : S)
        → ((t : S) → busy t < patience)
        → IsText cs
        → (s' : S) × (uart_puts patience (cs ++ (0 ∷ rest)) s ≡ some s')
          × (sent s' ≡ sent s ++ map u8 cs)
    unfolding uart_puts
    uart_puts-sends patience [] rest s h text = (s, refl, sym (append-nil (sent s)))
    uart_puts-sends patience (c ∷ cs) rest s h (here, later) =
        let (s1, e, one) = uart_putc-sends patience c s (h s) in
        let (s2, e', others) = uart_puts-sends patience cs rest s1 h later in
        (
          s2,
          rw (here, e) e',
          others ∙ ap (λ xs. xs ++ map u8 cs) one ∙ append_assoc (sent s) (u8 c ∷ []) (map u8 cs),
        )
