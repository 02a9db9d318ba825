-- ===== src/Machines/Interrupts.antt =====
-- The interrupt lines of both boards.
use systemc_model.Base.{ltb, leb, ◌==◌, if◌then◌else◌, get_or, ℕ, zero, suc, ◌+◌, ◌*◌, ◌≤◌, ◌<◌}
use systemc_model.Base.{◌≡◌, refl, ap, ◌∙◌, Bool, true, false, ◌&&◌, ◌||◌, List, [], ◌∷◌, ◌++◌}
use systemc_model.Base.{arith}
use systemc_model.Base.Bits.{testbit}
use systemc_model.Machines.Calls.{
  Device, armv7m, remote_mmio, a9mpcore, pl011, l2x0, arm_cpu, Input, pin, irq, fiq, virq, vfiq,
  MachineState, Wire, wire, wires, wires-append,
}
use systemc_model.Machines.SystemcSoc.{systemc_soc_init}
use systemc_model.Machines.SystemcPs.{create_cpu, create_cpus, connect_cpus, ps_init_cpus, ps_calls}
use systemc_model.Bridges.RemoteMmio.{RemoteMmioState, update_irqs}
use systemc_model.Bridges.RemoteMmio.Lines.{IsShown, update_irqs-IsShown}
use systemc_model.Soc.{pack_irqs}
use systemc_model.Soc.Irq.{pack_irqs_bits}
use mathlib.Core.List.{append-nil}
use native.Mathlib.Decide.{dec_lt}

-- The level at an input of the Cortex-M3's interrupt controller, by the bridge's lines.
unfoldable pub nvic_level : (ℕ → Bool) → ℕ → List Wire → Bool
nvic_level line n [] = false
nvic_level line n (wire remote_mmio k armv7m (pin m) ∷ ws) =
    (m == n && line k) || nvic_level line n ws
nvic_level line n (_ ∷ ws) = nvic_level line n ws

-- The lines of the device.
abbrev pub line_of : RemoteMmioState → ℕ → Bool
line_of d k = get_or d.irqs k false

soc_levels :
    (m : MachineState) (line : ℕ → Bool) (n : ℕ)
    → nvic_level line n (wires (systemc_soc_init m)) ≡ (ltb n 5 && line n)
unfolding nvic_level wires systemc_soc_init
soc_levels m line n = ground arith

applied : (bits : ℕ) (d : RemoteMmioState) → (update_irqs bits d).irq_last ≡ bits
unfolding update_irqs
applied bits d = ground arith

-- Once the word of the platform's five lines has been applied to a device whose lines are in step,
-- the Cortex-M3's interrupt controller sees the timer's compare line at its input 0, its overflow
-- line at 1, the serial port's at 2, the pins' at 3 and the watchdog's at 4, and nothing elsewhere.
pub guest_interrupts :
    (m : MachineState) (d : RemoteMmioState) (intr1 intr2 uart gpio wdt : Bool) (n : ℕ)
    → IsShown d
    → nvic_level
        (line_of (update_irqs (pack_irqs intr1 intr2 uart gpio wdt) d))
        n
        (wires (systemc_soc_init m))
      ≡ (if n == 0
          then intr1
          else if n == 1
          then intr2
          else if n == 2
          then uart
          else if n == 3
          then gpio
          else if n == 4
          then wdt
          else false)
guest_interrupts m d intr1 intr2 uart gpio wdt n h =
    let bits = pack_irqs intr1 intr2 uart gpio wdt in
    let v = update_irqs-IsShown bits d h in
    elim (dec_lt n 5) [
      | yes lt ↦
          let seen = v.shown n (omega arith) ∙ ap (λ w. testbit w n) (applied bits d) in
          ground (
            arith,
            soc_levels m (line_of (update_irqs bits d)) n,
            seen,
            pack_irqs_bits intr1 intr2 uart gpio wdt n,
          )
      | no ge ↦ ground (arith, soc_levels m (line_of (update_irqs bits d)) n)
    ]

-- The inputs that a numbered output of the private block drives.
unfoldable pub targets : ℕ → List Wire → List (Device × Input)
targets k [] = []
targets k (wire a9mpcore n to input ∷ ws) =
    let rest = targets k ws in if n == k then (to, input) ∷ rest else rest
targets k (_ ∷ ws) = targets k ws

abbrev pub is_cpu_input : Input → Bool
is_cpu_input (pin n) = false
is_cpu_input _ = true

-- The output for an input of processor `n`: by the kind of input first.
abbrev pub output : ℕ → Input → ℕ → ℕ
output cpus (pin k) n = k
output cpus irq n = n
output cpus fiq n = n + cpus
output cpus virq n = n + 2 * cpus
output cpus vfiq n = n + 3 * cpus

targets-connect_cpus :
    (cpus r left n : ℕ) (i : Input)
    → is_cpu_input i ≡ true
    → r < cpus
    → n + left ≤ cpus
    → targets (output cpus i r) (wires (connect_cpus cpus left n))
      ≡ (if leb n r && ltb r (n + left) then (arm_cpu r, i) ∷ [] else [])
unfolding targets wires connect_cpus
targets-connect_cpus cpus r zero n i k h e = ground arith
targets-connect_cpus cpus r (suc left) n (pin m) k h e = cc
targets-connect_cpus cpus r (suc left) n irq k h e =
    ground (arith, targets-connect_cpus cpus r left (n + 1) irq refl h (omega arith))
targets-connect_cpus cpus r (suc left) n fiq k h e =
    ground (arith, targets-connect_cpus cpus r left (n + 1) fiq refl h (omega arith))
targets-connect_cpus cpus r (suc left) n virq k h e =
    ground (arith, targets-connect_cpus cpus r left (n + 1) virq refl h (omega arith))
targets-connect_cpus cpus r (suc left) n vfiq k h e =
    ground (arith, targets-connect_cpus cpus r left (n + 1) vfiq refl h (omega arith))

targets-append : (k : ℕ) (ws vs : List Wire) → targets k (ws ++ vs) ≡ targets k ws ++ targets k vs
unfolding targets
targets-append k [] vs = refl
targets-append k (wire a9mpcore n to input ∷ ws) vs = ground (arith, targets-append k ws vs)
targets-append k (wire armv7m n to input ∷ ws) vs = targets-append k ws vs
targets-append k (wire remote_mmio n to input ∷ ws) vs = targets-append k ws vs
targets-append k (wire pl011 n to input ∷ ws) vs = targets-append k ws vs
targets-append k (wire l2x0 n to input ∷ ws) vs = targets-append k ws vs
targets-append k (wire (arm_cpu c) n to input ∷ ws) vs = targets-append k ws vs

create_cpus-unwired : (has_el2 : Bool) (left n : ℕ) → wires (create_cpus has_el2 left n) ≡ []
unfolding wires create_cpus create_cpu
create_cpus-unwired has_el2 zero n = refl
create_cpus-unwired true (suc left) n = create_cpus-unwired true left (n + 1)
create_cpus-unwired false (suc left) n = create_cpus-unwired false left (n + 1)

ps_init_cpus-wires :
    (has_el2 : Bool) (m : MachineState)
    → wires (ps_init_cpus has_el2 m) ≡ wires (connect_cpus m.cpus m.cpus 0)
unfolding ps_init_cpus wires
ps_init_cpus-wires has_el2 m = simp (wires-append, create_cpus-unwired, append-nil)

ps_calls-wires :
    (has_el2 : Bool) (m : MachineState)
    → wires (ps_calls has_el2 m)
      ≡ wires (connect_cpus m.cpus m.cpus 0)
        ++ wire remote_mmio 0 a9mpcore (pin 32) ∷ wire remote_mmio 1 a9mpcore (pin 33) ∷ []
unfolding ps_calls wires
ps_calls-wires has_el2 m =
    wires-append (ps_init_cpus has_el2 m) _
    ∙ ap
        (λ ws.
          ws ++ wire remote_mmio 0 a9mpcore (pin 32) ∷ wire remote_mmio 1 a9mpcore (pin 33) ∷ [])
        (ps_init_cpus-wires has_el2 m)

-- On the Cortex-A9 board with any number of processors, the output of the private block for each of
-- the four interrupt inputs of each processor is connected to that input, and to nothing else.
pub cpu_interrupts :
    (has_el2 : Bool) (m : MachineState) (i : Input) (r : ℕ)
    → is_cpu_input i ≡ true
    → r < m.cpus
    → targets (output m.cpus i r) (wires (ps_calls has_el2 m)) ≡ (arm_cpu r, i) ∷ []
unfolding targets
cpu_interrupts has_el2 m i r k h = rw (ps_calls-wires has_el2 m) (
    targets-append (output m.cpus i r) (wires (connect_cpus m.cpus m.cpus 0)) _
    ∙ append-nil _
    ∙ targets-connect_cpus m.cpus r m.cpus 0 i k h (omega arith)
    ∙ ground arith)
