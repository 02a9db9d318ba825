-- ===== src/Machines/Calls.antt =====
-- The calls of QEMU that build a board, as values: a board's construction is the list of its calls.
use systemc_model.Base.{ℕ, ◌+◌, ◌≤◌, ◌≡◌, refl, sym, ap, ◌∙◌, ◌⊎◌, Bool, Option, none, some}
use systemc_model.Base.{List, [], ◌∷◌, ◌++◌}
use systemc_model.Bridges.RemoteMmio.{remote_mmio_realize}
use Prim.Native.String.{String}
use mathlib.Core.List.{append_assoc}

pub data Device : Type 0 where
  armv7m remote_mmio a9mpcore pl011 l2x0 : Device
  arm_cpu : ℕ → Device

pub data Area : Type 0 where
  flash machine_ram : Area
  registers : Device → Area

-- An input of a device: a numbered one, or one of the four of an ARM processor.
pub data Input : Type 0 where
  pin : ℕ → Input
  irq fiq virq vfiq : Input

pub data Call : Type 0 where
  init_rom : Area → ℕ → Call
  add_subregion : ℕ → Area → Call
  clock_set_hz : ℕ → Call
  qdev_new : Device → Call
  set_uint : Device → String → ℕ → Call
  set_string : Device → String → String → Call
  set_bool : Device → String → Bool → Call
  connect_clock : Device → Call
  link_memory : Device → Call
  realize : Device → Call
  mmio_map : Device → ℕ → Call
  connect_irq : Device → ℕ → Device → Input → Call
  create_pl011 : ℕ → Device → Input → Call
  create_varargs : Device → ℕ → Call
  load_kernel : ℕ → ℕ → Call

-- What the command line and the environment give.
pub record MachineState : Type 0 where
  pub cpu_type : String
  pub cpus : ℕ
  pub ram_size : ℕ
  pub socket_env : Option String

-- `!sock || !sock[0]`
unfoldable pub socket_path : Option String → String
socket_path none = "/tmp/systemc_cosim.sock"
socket_path (some String.[]) = "/tmp/systemc_cosim.sock"
socket_path (some s) = s

-- Where something is in the guest's memory.
pub record Mapping : Type 0 where
  pub base : ℕ
  pub size : ℕ
  pub area : Area

abbrev pub ends : Mapping → ℕ
ends m = m.base + m.size

abbrev pub Disjoint : Mapping → Mapping → Type 0
Disjoint m n = (ends m ≤ n.base) ⊎ (ends n ≤ m.base)

-- No two of the mappings overlap.
abbrev pub ApartFrom : Mapping → List Mapping → Type 0
ApartFrom m [] = Unit
ApartFrom m (n ∷ ns) = Disjoint m n × ApartFrom m ns

abbrev pub Separate : List Mapping → Type 0
Separate [] = Unit
Separate (m ∷ ms) = ApartFrom m ms × Separate ms

-- What one call maps, with the sizes of the areas.
abbrev pub placed : (Area → ℕ) → Call → List Mapping
placed size (add_subregion base area) = record { base = base; size = size area; area = area } ∷ []
placed size (mmio_map d base) =
    record { base = base; size = size (registers d); area = registers d } ∷ []
placed size (create_pl011 base to input) =
    record { base = base; size = size (registers pl011); area = registers pl011 } ∷ []
placed size (create_varargs d base) =
    record { base = base; size = size (registers d); area = registers d } ∷ []
placed size _ = []

unfoldable pub mappings : (Area → ℕ) → List Call → List Mapping
mappings size [] = []
mappings size (c ∷ cs) = placed size c ++ mappings size cs

pub data Wire : Type 0 where
  wire : Device → ℕ → Device → Input → Wire

-- What one call connects.
abbrev pub wired : Call → List Wire
wired (connect_irq d n to input) = wire d n to input ∷ []
wired _ = []

unfoldable pub wires : List Call → List Wire
wires [] = []
wires (c ∷ cs) = wired c ++ wires cs

pub mappings-append :
    (size : Area → ℕ) (cs ds : List Call)
    → mappings size (cs ++ ds) ≡ mappings size cs ++ mappings size ds
unfolding mappings
mappings-append size [] ds = refl
mappings-append size (c ∷ cs) ds =
    ap (λ ms. placed size c ++ ms) (mappings-append size cs ds)
    ∙ sym (append_assoc (placed size c) (mappings size cs) (mappings size ds))

pub wires-append : (cs ds : List Call) → wires (cs ++ ds) ≡ wires cs ++ wires ds
unfolding wires
wires-append [] ds = refl
wires-append (c ∷ cs) ds =
    ap (λ ws. wired c ++ ws) (wires-append cs ds)
    ∙ sym (append_assoc (wired c) (wires cs) (wires ds))

-- The window size that the `size` property of the bridge asks for, if the device is realized.
unfoldable pub window : List Call → Option ℕ
window [] = none
window (set_uint remote_mmio name n ∷ cs) = remote_mmio_realize n
window (_ ∷ cs) = window cs
