-- ===== src/Firmware/Console/Copy/Lines.antt =====
-- The lines of the two files log.h of platforms/.
use systemc_model.Base.{◌==◌, Bool-cases, ℕ, ◌%◌, ◌≡◌, refl, ap, ◌∙◌, inl, inr, Option, none}
use systemc_model.Base.{some, List, [], ◌∷◌}
use systemc_model.Firmware.Program.{
  Piece, text, number, Program, done, put, bind, Bus, Regs, Outcome, finished, answered, resume,
}
use systemc_model.Firmware.Log as Semihost
use systemc_model.Firmware.Console.Log as Log
use systemc_model.Firmware.Console.Run.{print, on_console, on_console-bind}
use Prim.Native.String.{String}

module _ {P W : Type 0} (uartfr : P → ℕ × P) (uartdr : ℕ → P → P) (patience : ℕ) (bus : Bus W) where
  abbrev pub runs : {A : Type 0} → Program A → Regs → P × W → Outcome A (P × W)
  runs = on_console uartfr uartdr patience bus

  abbrev pub prints : Piece → P → Option P
  prints = print uartfr uartdr patience bus

  -- What an operation on the port gives, and one on the port and the platform.
  abbrev pub written : Regs → W → Option P → Outcome (Unit {0}) (P × W)
  written r w o = answered o (λ p. finished tt r (p, w))

  abbrev pub result : {A : Type 0} → Regs → Option (A × P × W) → Outcome A (P × W)
  result r o = answered o (λ (a, p, w). finished a r (p, w))

  unfoldable pub put_then : {A : Type 0} → List Piece → Program A → Program A
  put_then [] k = k
  put_then (x ∷ xs) k = put x (put_then xs k)

  unfoldable pub print_then : {B : Type 0} → List Piece → (P → Option B) → P → Option B
  print_then [] g p = g p
  print_then (x ∷ xs) g p = Log.◌>>=◌ (prints x p) (print_then xs g)

  -- A sequence of pieces, and what follows it.
  pub pieces_copy :
      {A B : Type 0} (f : B → Outcome A (P × W)) (xs : List Piece) (k : Program A)
      (g : P → Option B) (r : Regs) (p : P) (w : W)
      → ((p' : P) → runs k r (p', w) ≡ answered (g p') f)
      → runs (put_then xs k) r (p, w) ≡ answered (print_then xs g p) f
  unfolding put_then print_then on_console
  pieces_copy f [] k g r p w h = h p
  pieces_copy f (x ∷ xs) k g r p w h =
      elim (prints x p)
        as (λ o.
          answered o (λ p'. runs (put_then xs k) r (p', w))
          ≡ answered (Log.◌>>=◌ o (print_then xs g)) f) [
            | none ↦ refl
            | some p' ↦ pieces_copy f xs k g r p' w h
          ]

  -- Pieces that end with a text.
  line_copy :
      (xs : List Piece) (s : String) (r : Regs) (p : P) (w : W)
      → runs (put_then xs (put (text s) (done tt))) r (p, w)
        ≡ written r w (print_then xs (prints (text s)) p)
  unfolding on_console
  line_copy xs s r p w = pieces_copy (λ p'. finished tt r (p', w)) xs _ _ r p w (λ _. refl)

  pub log_line_copy :
      (msg : String) (r : Regs) (p : P) (w : W)
      → runs (Semihost.log_line msg) r (p, w)
        ≡ written r w (Log.log_line uartfr uartdr patience msg p)
  unfolding Semihost.log_line Log.log_line bind put_then print_then
  log_line_copy msg r p w = line_copy (text msg ∷ []) "\n" r p w

  pub log_mmio_write_copy :
      (reg : String) (offset value : ℕ) (r : Regs) (p : P) (w : W)
      → runs (Semihost.log_mmio_write reg offset value) r (p, w)
        ≡ written r w (Log.log_mmio_write uartfr uartdr patience reg offset value p)
  unfolding Semihost.log_mmio_write Log.log_mmio_write bind put_then print_then
  log_mmio_write_copy reg offset value r p w =
      line_copy
        (text "[mmio] WRITE "
          ∷ text reg
          ∷ text " @+"
          ∷ number offset
          ∷ text " = "
          ∷ number value
          ∷ [])
        "\n" r p w

  pub log_mmio_read_copy :
      (reg : String) (offset value : ℕ) (r : Regs) (p : P) (w : W)
      → runs (Semihost.log_mmio_read reg offset value) r (p, w)
        ≡ written r w (Log.log_mmio_read uartfr uartdr patience reg offset value p)
  unfolding Semihost.log_mmio_read Log.log_mmio_read bind put_then print_then
  log_mmio_read_copy reg offset value r p w =
      line_copy
        (text "[mmio] READ  "
          ∷ text reg
          ∷ text " @+"
          ∷ number offset
          ∷ text " -> "
          ∷ number value
          ∷ [])
        "\n" r p w

  pub report_set_copy :
      (label : String) (polls v : ℕ) (r : Regs) (p : P) (w : W)
      → runs (Semihost.report_set label polls v) r (p, w)
        ≡ written r w (Log.report_set uartfr uartdr patience label polls v p)
  unfolding Semihost.report_set Log.report_set bind put_then print_then
  report_set_copy label polls v r p w =
      line_copy
        (text "[poll] "
          ∷ text label
          ∷ text " set after "
          ∷ number polls
          ∷ text " reads, INTR="
          ∷ number v
          ∷ [])
        "\n" r p w

  pub report_waiting_copy :
      (polls v : ℕ) (r : Regs) (p : P) (w : W)
      → runs (Semihost.report_waiting polls v) r (p, w)
        ≡ written r w (Log.report_waiting uartfr uartdr patience polls v p)
  unfolding Semihost.report_waiting Log.report_waiting bind on_console put_then print_then
  report_waiting_copy polls v r p w = elim (Bool-cases (polls % 200000 == 0)) [
    | inl e ↦ rw e (
        line_copy
          (text "[poll] still waiting (" ∷ number polls ∷ text " reads, INTR=" ∷ number v ∷ [])
          ")\n" r p w)
    | inr e ↦ rw e refl
  ]

  -- An operation on the port, and what follows it.
  pub after_copy :
      {A B : Type 0} (f : B → Outcome A (P × W)) (m : Program (Unit {0})) (o : Option P)
      (k : Program A) (g : P → Option B) (r : Regs) (p : P) (w : W)
      → runs m r (p, w) ≡ written r w o
      → ((p' : P) → runs k r (p', w) ≡ answered (g p') f)
      → runs (bind m (λ _. k)) r (p, w) ≡ answered (Log.◌>>=◌ o g) f
  after_copy f m o k g r p w e h =
      on_console-bind uartfr uartdr patience bus m (λ _. k) r (p, w)
      ∙ ap (λ q. resume q (λ _ r' s'. runs k r' s')) e
      ∙ (elim o
          as (λ o. resume (written r w o) (λ _ r' s'. runs k r' s') ≡ answered (Log.◌>>=◌ o g) f) [
            | none ↦ refl
            | some p' ↦ h p'
          ])
