-- ===== src/Firmware/Console/Run.antt =====
-- The run of a program of platforms/basic_cortexA/firmware/ with its console: what it puts out goes
-- over the guest's serial port, character by character. It enables no interrupt.
use systemc_model.Base.{ℕ, ◌≡◌, refl, Option, none, some}
use systemc_model.Firmware.Program.{
  Piece, text, number, Program, done, exit, load, store, put, set_mask, get_count, set_count, spin,
  bind, Bus, Regs, Outcome, finished, exited, resume, answered,
}
use systemc_model.Firmware.Console.{uart_puts}
use systemc_model.Firmware.Console.Text.{bytes}
use systemc_model.Firmware.Console.Log.{log_put_hex32}

module _ {P W : Type 0} (uartfr : P → ℕ × P) (uartdr : ℕ → P → P) (patience : ℕ) (bus : Bus W) where
  abbrev pub print : Piece → P → Option P
  print (text s) p = uart_puts uartfr uartdr patience (bytes s) p
  print (number v) p = log_put_hex32 uartfr uartdr patience v p

  -- The port and the platform. `fault` is also a loop on the port's flags that has not ended.
  unfoldable pub on_console : {A : Type 0} → Program A → Regs → P × W → Outcome A (P × W)
  on_console (done a) r s = finished a r s
  on_console (exit code) r s = exited code r s
  on_console (load a k) r (p, w) = answered (bus.fetch a w) (λ x. on_console (k x.0) r (p, x.1))
  on_console (store a v k) r (p, w) = answered (bus.modify a v w) (λ w'. on_console k r (p, w'))
  on_console (put x k) r (p, w) = answered (print x p) (λ p'. on_console k r (p', w))
  on_console (set_mask b k) r s = on_console k (record r { unmasked = b }) s
  on_console (get_count k) r s = on_console (k r.uart_irqs) r s
  on_console (set_count n k) r s = on_console k (record r { uart_irqs = n }) s
  on_console (spin k) r (p, w) = answered (bus.idle w) (λ w'. on_console k r (p, w'))

  answered-resume :
      {A B X : Type 0} (o : Option X) (f : X → Outcome A (P × W)) (h : X → Outcome B (P × W))
      (g : A → Regs → P × W → Outcome B (P × W))
      → ((x : X) → h x ≡ resume (f x) g)
      → answered o h ≡ resume (answered o f) g
  answered-resume none f h g e = refl
  answered-resume (some x) f h g e = e x

  -- A program in two parts runs the first, and goes on with the second where the first finishes.
  pub on_console-bind :
      {A B : Type 0} (m : Program A) (f : A → Program B) (r : Regs) (s : P × W)
      → on_console (bind m f) r s ≡ resume (on_console m r s) (λ a r' s'. on_console (f a) r' s')
  unfolding on_console bind
  on_console-bind (done a) f r s = refl
  on_console-bind (exit code) f r s = refl
  on_console-bind (load a k) f r (p, w) =
      answered-resume (bus.fetch a w) _ _ _ (λ x. on_console-bind (k x.0) f r (p, x.1))
  on_console-bind (store a v k) f r (p, w) =
      answered-resume (bus.modify a v w) _ _ _ (λ w'. on_console-bind k f r (p, w'))
  on_console-bind (put x k) f r (p, w) =
      answered-resume (print x p) _ _ _ (λ p'. on_console-bind k f r (p', w))
  on_console-bind (set_mask b k) f r s = on_console-bind k f (record r { unmasked = b }) s
  on_console-bind (get_count k) f r s = on_console-bind (k r.uart_irqs) f r s
  on_console-bind (set_count n k) f r s = on_console-bind k f (record r { uart_irqs = n }) s
  on_console-bind (spin k) f r (p, w) =
      answered-resume (bus.idle w) _ _ _ (λ w'. on_console-bind k f r (p, w'))
