-- ===== src/Peripherals/Sram/Words.antt =====
-- The memory as an array of words.
use systemc_model.Base.{◌==◌, if◌then◌else◌, length, get_or, ℕ, ◌+◌, ◌*◌, ◌%◌, ◌^◌, ◌≤◌, ◌<◌}
use systemc_model.Base.{◌≡◌, ap, ◌≢◌, ◌⊎◌, inl, inr, List, arith}
use systemc_model.Tlm.{Txn, memcpy, word_of, ok}
use systemc_model.Tlm.Laws.{get_or-memcpy_below, get_or-memcpy_above, get_or-memcpy_inside}
use systemc_model.Tlm.Laws.{IsReadOf, IsWriteOf, Returns}
use systemc_model.Peripherals.Sram.{Sram, b_transport}
use systemc_model.Peripherals.Sram.Laws.{accepts}
use native.Mathlib.Decide.{ℕ_discrete}

-- The word that stands at address `a`, lowest byte first.
unfoldable pub word_at : List ℕ → ℕ → ℕ
word_at mem a =
    get_or mem a 0
    + get_or mem (a + 1) 0 * 256
    + get_or mem (a + 2) 0 * 65536
    + get_or mem (a + 3) 0 * 16777216

copied_out :
    (bs mem : List ℕ) (a : ℕ) → length bs ≡ 4 → word_of (memcpy 4 bs 0 mem a) ≡ word_at mem a
unfolding word_of word_at
copied_out bs mem a e = omega (
  arith,
  get_or-memcpy_inside 4 bs 0 mem a 0 0 a (omega arith),
  get_or-memcpy_inside 4 bs 0 mem a 1 1 (a + 1) (omega arith),
  get_or-memcpy_inside 4 bs 0 mem a 2 2 (a + 2) (omega arith),
  get_or-memcpy_inside 4 bs 0 mem a 3 3 (a + 3) (omega arith),
)

copied_in :
    (mem bs : List ℕ) (a : ℕ) → a + 4 ≤ length mem → word_at (memcpy 4 mem a bs 0) a ≡ word_of bs
unfolding word_of word_at
copied_in mem bs a h = omega (
  arith,
  get_or-memcpy_inside 4 mem a bs 0 0 a 0 h,
  get_or-memcpy_inside 4 mem a bs 0 1 (a + 1) 1 h,
  get_or-memcpy_inside 4 mem a bs 0 2 (a + 2) 2 h,
  get_or-memcpy_inside 4 mem a bs 0 3 (a + 3) 3 h,
)

elsewhere :
    (mem bs : List ℕ) (a b : ℕ)
    → (b + 4 ≤ a) ⊎ (a + 4 ≤ b)
    → word_at (memcpy 4 mem a bs 0) b ≡ word_at mem b
unfolding word_at
elsewhere mem bs a b (inl below) = omega (
  arith,
  get_or-memcpy_below 4 mem a bs 0 b (omega arith),
  get_or-memcpy_below 4 mem a bs 0 (b + 1) (omega arith),
  get_or-memcpy_below 4 mem a bs 0 (b + 2) (omega arith),
  get_or-memcpy_below 4 mem a bs 0 (b + 3) (omega arith),
)
elsewhere mem bs a b (inr above) = omega (
  arith,
  get_or-memcpy_above 4 mem a bs 0 b (omega arith),
  get_or-memcpy_above 4 mem a bs 0 (b + 1) (omega arith),
  get_or-memcpy_above 4 mem a bs 0 (b + 2) (omega arith),
  get_or-memcpy_above 4 mem a bs 0 (b + 3) (omega arith),
)

apart : (a b : ℕ) → a % 4 ≡ 0 → b % 4 ≡ 0 → a ≢ b → (b + 4 ≤ a) ⊎ (a + 4 ≤ b)
apart a b h k ne = ground arith

-- An access in range: OK, and a read carries the word that stands there.
pub load_lem :
    (s : Sram) (a : ℕ) (t : Txn)
    → IsReadOf a t
    → a % 4 ≡ 0
    → a + 4 ≤ length s.mem
    → a + 4 < 2 ^ 32
    → Returns (word_at s.mem a) (b_transport s t).1 × ((b_transport s t).0.mem ≡ s.mem)
unfolding b_transport
load_lem s a t r aligned fits small =
    ground (arith, accepts s a aligned fits small, copied_out t.bytes s.mem a r.room)

store_mem :
    (s : Sram) (a v : ℕ) (t : Txn)
    → IsWriteOf a v t
    → a % 4 ≡ 0
    → a + 4 ≤ length s.mem
    → a + 4 < 2 ^ 32
    → ((b_transport s t).1.response ≡ ok) × ((b_transport s t).0.mem ≡ memcpy 4 s.mem a t.bytes 0)
unfolding b_transport
store_mem s a v t w aligned fits small = ground (arith, accepts s a aligned fits small)

-- A write in range changes the word at its address and no other aligned word.
pub store_lem :
    (s : Sram) (a v : ℕ) (t : Txn)
    → IsWriteOf a v t
    → a % 4 ≡ 0
    → a + 4 ≤ length s.mem
    → a + 4 < 2 ^ 32
    → ((b_transport s t).1.response ≡ ok)
      × ((b : ℕ)
          → b % 4 ≡ 0
          → word_at (b_transport s t).0.mem b ≡ (if a == b then v else word_at s.mem b))
store_lem s a v t w aligned fits small =
    let done = store_mem s a v t w aligned fits small in
    (
      done.0,
      λ b even. rw done.1 (elim (ℕ_discrete a b) [
        | yes e ↦
            ground
              (arith, ap (word_at (memcpy 4 s.mem a t.bytes 0)) e, copied_in s.mem t.bytes a fits)
        | no ne ↦ ground (arith, elsewhere s.mem t.bytes a b (apart a b aligned even ne))
      ]),
    )
