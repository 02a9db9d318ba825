-- ===== src/Firmware/Console/Refine.antt =====
-- A program of platforms/basic_cortexA/firmware/ with its console does to the platform what it does by
-- itself, and sends its log.
use systemc_model.Base.{◌==◌, Bool-cases, ℕ, zero, suc, ◌*◌, ◌/◌, ◌^◌, ◌<◌, bit_and, ◌≡◌, refl}
use systemc_model.Base.{sym, ap, ◌∙◌, inl, inr, false, Option, none, some, List, [], ◌∷◌, ◌++◌}
use systemc_model.Base.Bits.{u8}
use systemc_model.Firmware.Program.{
  Piece, text, number, Program, done, exit, load, store, put, set_mask, get_count, set_count, spin,
  Bus, Regs, Outcome, finished, exited, fault, answered, run, run_with, undisturbed, interrupted,
}
use systemc_model.Firmware.Program.Total.{no_interrupt}
use systemc_model.Firmware.Log as Semihost
use systemc_model.Firmware.Console.{IsConsole, uart_putc, uart_puts, uart_putc-sends}
use systemc_model.Firmware.Console.Text.{utf8, bytes, until_end, characters, printed}
use systemc_model.Firmware.Console.Log as Log
use systemc_model.Firmware.Console.Run.{print, on_console}
use mathlib.Core.List.{map, append-nil, append_assoc}

module _ {P : Type 0} (uartfr : P → ℕ × P) (uartdr : ℕ → P → P) (busy : P → ℕ) (sent : P → List ℕ)
    (console : IsConsole uartfr uartdr busy sent) (patience : ℕ)
    (patient : (p : P) → busy p < patience) where
  -- An operation that ends and sends `cs`.
  abbrev Sends : Option P → P → List ℕ → Type 0
  Sends o p cs = (p' : P) × (o ≡ some p') × (sent p' ≡ sent p ++ cs)

  Sends-then :
      (o : Option P) (f : P → Option P) (p : P) (cs ds : List ℕ)
      → Sends o p cs
      → ((p' : P) → Sends (f p') p' ds)
      → Sends (Log.◌>>=◌ o f) p (cs ++ ds)
  Sends-then o f p cs ds (p1, e, one) h =
      let (p2, e', two) = h p1 in
      (p2, rw e e', two ∙ ap (λ xs. xs ++ ds) one ∙ append_assoc (sent p) cs ds)

  puts-Sends :
      (cs : List ℕ) (p : P) → Sends (uart_puts uartfr uartdr patience cs p) p (until_end cs)
  unfolding uart_puts until_end
  puts-Sends [] p = (p, refl, sym (append-nil (sent p)))
  puts-Sends (c ∷ cs) p = elim (Bool-cases (c == 0)) [
    | inl e ↦ rw e (p, refl, sym (append-nil (sent p)))
    | inr e ↦
        let (p1, e1, one) =
          uart_putc-sends uartfr uartdr busy sent console patience c p (patient p) in
        let (p2, e2, two) = puts-Sends cs p1 in
        rw (e, e1)
          (
            p2,
            e2,
            two
                ∙ ap (λ xs. xs ++ until_end cs) one
                ∙ append_assoc (sent p) (u8 c ∷ []) (until_end cs),
          )
  ]

  put_digits-Sends :
      (n v : ℕ) (p : P)
      → Sends (Log.put_digits uartfr uartdr patience n v p) p (map u8 (Semihost.put_digits n v))
  unfolding Log.put_digits Semihost.put_digits
  put_digits-Sends zero v p = (p, refl, sym (append-nil (sent p)))
  put_digits-Sends (suc n) v p =
      let c = Semihost.hex (bit_and (v / 2 ^ (4 * n)) 0xF) in
      Sends-then (uart_putc uartfr uartdr patience c p) _ p (u8 c ∷ []) _
        (uart_putc-sends uartfr uartdr busy sent console patience c p (patient p))
        (λ p'. put_digits-Sends n v p')

  print-Sends :
      {W : Type 0} (bus : Bus W) (x : Piece) (p : P)
      → Sends (print uartfr uartdr patience bus x p) p (characters x)
  unfolding characters utf8 until_end Log.log_put_hex32 Semihost.log_put_hex32
  print-Sends bus (text s) p = puts-Sends (bytes s) p
  print-Sends bus (number v) p =
      Sends-then (uart_puts uartfr uartdr patience (bytes "0x") p) _ p (48 ∷ 120 ∷ []) _
        (unfold bytes in puts-Sends (48 ∷ 120 ∷ []) p) (λ p'. put_digits-Sends 8 v p')

  -- The console's run keeps no log of its own.
  abbrev pub unlogged : Regs → Regs
  unlogged r = record r { out = [] }

  -- The second outcome is the first one, with the port: it has sent `base` and the log.
  abbrev pub Shows : {A W : Type 0} → List ℕ → Outcome A W → Outcome A (P × W) → Type 0
  Shows base (finished a r w) o =
      (p : P) × (o ≡ finished a (unlogged r) (p, w)) × (sent p ≡ base ++ printed r.out)
  Shows base (exited code r w) o =
      (p : P) × (o ≡ exited code (unlogged r) (p, w)) × (sent p ≡ base ++ printed r.out)
  Shows base fault o = o ≡ fault

  answered-Shows :
      {A W X : Type 0} (base : List ℕ) (o : Option X) (f : X → Outcome A W)
      (g : X → Outcome A (P × W))
      → ((x : X) → Shows base (f x) (g x))
      → Shows base (answered o f) (answered o g)
  answered-Shows base none f g h = refl
  answered-Shows base (some x) f g h = h x

  module _ {W : Type 0} (bus : Bus W) where
    undisturbed-Shows :
        {A : Type 0} (base : List ℕ) (m : Program A) (r : Regs) (p : P) (w : W)
        → sent p ≡ base ++ printed r.out
        → Shows base
            (run_with bus (undisturbed bus) m r w)
            (on_console uartfr uartdr patience bus m (unlogged r) (p, w))
    unfolding run_with undisturbed on_console
    undisturbed-Shows base (done a) r p w h = (p, refl, h)
    undisturbed-Shows base (exit code) r p w h = (p, refl, h)
    undisturbed-Shows base (load a k) r p w h =
        answered-Shows base (bus.fetch a w) _ _ (λ x. undisturbed-Shows base (k x.0) r p x.1 h)
    undisturbed-Shows base (store a v k) r p w h =
        answered-Shows base (bus.modify a v w) _ _ (λ w'. undisturbed-Shows base k r p w' h)
    undisturbed-Shows base (put x k) r p w h =
        let (p', e, more) = print-Sends bus x p in
        rw e (
          undisturbed-Shows base k (record r { out = x ∷ r.out }) p' w
            (unfold printed in
              more
              ∙ ap (λ xs. xs ++ characters x) h
              ∙ append_assoc base (printed r.out) (characters x)))
    undisturbed-Shows base (set_mask b k) r p w h =
        undisturbed-Shows base k (record r { unmasked = b }) p w h
    undisturbed-Shows base (get_count k) r p w h = undisturbed-Shows base (k r.uart_irqs) r p w h
    undisturbed-Shows base (set_count n k) r p w h =
        undisturbed-Shows base k (record r { uart_irqs = n }) p w h
    undisturbed-Shows base (spin k) r p w h =
        answered-Shows base (bus.idle w) _ _ (λ w'. undisturbed-Shows base k r p w' h)

    -- On a platform that asks for no interrupt, and a port that never stays full for longer than the
    -- loops are patient, a program whose output goes over the port ends as it does with the output
    -- kept in a log: with the same result, exit code or fault and the same state of the platform, and
    -- what the port has sent in the end is what it had sent before and the characters of the log.
    pub on_console-Shows :
        {A : Type 0} (handler : Program (Unit {0})) (base : List ℕ) (m : Program A) (r : Regs)
        (p : P) (w : W)
        → ((w' : W) → bus.pending w' ≡ false)
        → sent p ≡ base ++ printed r.out
        → Shows base
            (run bus handler m r w)
            (on_console uartfr uartdr patience bus m (unlogged r) (p, w))
    unfolding run undisturbed
    on_console-Shows handler base m r p w calm h =
        let calmly : interrupted bus handler ≡ undisturbed bus =
          λ i r' w'. no_interrupt bus handler calm r' w' i in
        rw calmly (undisturbed-Shows base m r p w h)
