-- ===== src/Peripherals/Sram/Refine.antt =====
-- The memory refines an array of words: no sequence of loads and stores tells them apart.
use systemc_model.Base.{◌==◌, if◌then◌else◌, length, ℕ, ◌*◌, ◌^◌, ◌<◌, ◌≡◌, refl, ap, ap₂, ◌∙◌}
use systemc_model.Base.{List, [], ◌∷◌, arith}
use systemc_model.Tlm.{Response, word_of, ok}
use systemc_model.Transactor.Initiator.{
  read_payload, write_payload, read_payload-IsReadOf, write_payload-IsWriteOf,
}
use systemc_model.Peripherals.Sram.{Sram, b_transport}
use systemc_model.Peripherals.Sram.Laws.{length-mem}
use systemc_model.Peripherals.Sram.Words.{word_at, load_lem, store_lem}
use mathlib.Core.Path.{fun_ext}

-- An access to the word of index `i`, at byte address `4 * i`.
pub data Op : Type 0 where
  load : ℕ → Op
  store : ℕ → ℕ → Op

-- What is seen of an access: the response, and the word that a load returns.
abbrev pub Reply : Type 0
Reply = Response × ℕ

unfoldable pub run : Sram → List Op → List Reply
run s [] = []
run s (load i ∷ ops) =
    let (s', t) = b_transport s (read_payload (4 * i)) in (t.response, word_of t.bytes) ∷ run s' ops
run s (store i v ∷ ops) =
    let (s', t) = b_transport s (write_payload (4 * i) v) in (t.response, 0) ∷ run s' ops

-- The specification: a function from indices to words, updated at one index.
abbrev pub Words : Type 0
Words = ℕ → ℕ

abbrev pub update : Words → ℕ → ℕ → Words
update m i v j = if i == j then v else m j

unfoldable pub replay : Words → List Op → List Reply
replay m [] = []
replay m (load i ∷ ops) = (ok, m i) ∷ replay m ops
replay m (store i v ∷ ops) = (ok, 0) ∷ replay (update m i v) ops

abbrev pub view : Sram → Words
view s i = word_at s.mem (4 * i)

-- The accesses stay inside a memory of `n` words and store words.
abbrev pub AreInside : ℕ → List Op → Type 0
AreInside n [] = Unit
AreInside n (load i ∷ ops) = (i < n) × AreInside n ops
AreInside n (store i v ∷ ops) = (i < n) × (v < 2 ^ 32) × AreInside n ops

replay_ext : (ops : List Op) (m k : Words) → ((i : ℕ) → m i ≡ k i) → replay m ops ≡ replay k ops
replay_ext ops m k h = ap (λ w. replay w ops) (fun_ext h)

same_index :
    (i j v : ℕ) (m : Words) → (if 4 * i == 4 * j then v else m j) ≡ (if i == j then v else m j)
same_index i j v m = ground arith

-- The memory answers every sequence of aligned accesses in its range as the array of its words
-- does: each response is OK, and each load returns the word last stored at its index or, before
-- any store there, the word that stood there at the start.
pub run_refines :
    (ops : List Op) (s : Sram) (n : ℕ)
    → length s.mem ≡ 4 * n
    → 4 * n < 2 ^ 32
    → AreInside n ops
    → run s ops ≡ replay (view s) ops
unfolding run replay
run_refines [] s n size small h = refl
run_refines (load i ∷ ops) s n size small h =
    let t = read_payload (4 * i) in
    let r = read_payload-IsReadOf (4 * i) (omega arith) (omega arith) in
    let (good, kept) = load_lem s (4 * i) t r (omega arith) (omega arith) (omega arith) in
    let rest = run_refines ops (b_transport s t).0 n (length-mem s t ∙ size) small h.1 in
    let same : replay (view (b_transport s t).0) ops ≡ replay (view s) ops =
      ap (λ (mem : List ℕ). replay (λ i. word_at mem (4 * i)) ops) kept in
    ap₂ ◌∷◌ (ground (arith, good)) (rest ∙ same)
run_refines (store i v ∷ ops) s n size small h =
    let t = write_payload (4 * i) v in
    let w = write_payload-IsWriteOf (4 * i) v (omega arith) (omega arith) h.1 in
    let (good, words) = store_lem s (4 * i) v t w (omega arith) (omega arith) (omega arith) in
    let rest = run_refines ops (b_transport s t).0 n (length-mem s t ∙ size) small h.2 in
    let same : replay (view (b_transport s t).0) ops ≡ replay (update (view s) i v) ops =
      replay_ext ops (view (b_transport s t).0) (update (view s) i v)
        (λ j. words (4 * j) (omega arith) ∙ same_index i j v (view s)) in
    ap₂ ◌∷◌ (ground (arith, good)) (rest ∙ same)
