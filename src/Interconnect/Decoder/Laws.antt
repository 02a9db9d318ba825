-- ===== src/Interconnect/Decoder/Laws.antt =====
-- Which slave the decoder picks, what the slave sees, and what the initiator gets back.
use systemc_model.Base.{◌==◌, if◌then◌else◌, Bool-cases, length, get_or, ℕ, zero, suc, ◌+◌, ◌-◌}
use systemc_model.Base.{◌<◌, ◌≡◌, refl, ◌↔◌, ◌⊎◌, inl, inr, Bool, true, false, Option, none}
use systemc_model.Base.{some, List, [], ◌∷◌, arith}
use systemc_model.Tlm.{Txn, IsSameRequest, Transport, IsTarget, address_error}
use systemc_model.Interconnect.Decoder.{
  Region, Decoder, unused, covers, find, decode, base_of, port, b_transport,
}

abbrev pub region_at : List Region → ℕ → Region
region_at rs i = get_or rs i unused

-- The region `j` is the first of the list that holds the address.
record IsFirst (rs : List Region) (addr j : ℕ) : Type 0 where
  inside : j < length rs
  hit : covers (region_at rs j) addr ≡ true
  before : (m : ℕ) → m < j → covers (region_at rs m) addr ≡ false

IsFirst-cons :
    (r : Region) (rs : List Region) (addr j : ℕ)
    → covers r addr ≡ false
    → IsFirst rs addr j
    → IsFirst (r ∷ rs) addr (suc j)
IsFirst-cons r rs addr j miss h = record {
  inside = omega (arith, h.inside);
  hit = h.hit;
  before = earlier;
}
  where
    earlier : (m : ℕ) → m < suc j → covers (region_at (r ∷ rs) m) addr ≡ false
    earlier zero lt = miss
    earlier (suc m) lt = h.before m (omega arith)

find-some :
    (rs : List Region) (k addr i : ℕ)
    → find k rs addr ≡ some i
    → (j : ℕ) × (i ≡ k + j) × IsFirst rs addr j
unfolding find
find-some [] k addr i h = cc
find-some (r ∷ rs) k addr i h = elim (Bool-cases (covers r addr)) [
  | inl hit ↦ (
    0,
    ground arith,
    record { inside = omega arith; hit = hit; before = λ m lt. absurd (omega arith) },
  )
  | inr miss ↦
      let (j, e, first) = find-some rs (k + 1) addr i (ground arith) in
      (suc j, omega arith, IsFirst-cons r rs addr j miss first)
]

find-none :
    (rs : List Region) (k addr : ℕ)
    → find k rs addr ≡ none
    → (j : ℕ) → j < length rs
    → covers (region_at rs j) addr ≡ false
unfolding find
find-none [] k addr h j lt = absurd (omega arith)
find-none (r ∷ rs) k addr h zero lt = ground arith
find-none (r ∷ rs) k addr h (suc j) lt = find-none rs (k + 1) addr (ground arith) j (omega arith)

none_of_misses :
    (rs : List Region) (k addr : ℕ)
    → ((j : ℕ) → j < length rs → covers (region_at rs j) addr ≡ false)
    → find k rs addr ≡ none
unfolding find
none_of_misses [] k addr h = refl
none_of_misses (r ∷ rs) k addr h =
    rw (h 0 (omega arith)) (none_of_misses rs (k + 1) addr (λ j lt. h (suc j) (omega arith)))

-- `decode` picks the first of the used regions that hold the address, and fails exactly if none
-- does.
pub decode_first :
    (d : Decoder) (addr : ℕ)
    → ((i : ℕ)
        → decode d addr ≡ some i
        → (i < length d.regions)
          × (covers (region_at d.regions i) addr ≡ true)
          × ((m : ℕ) → m < i → covers (region_at d.regions m) addr ≡ false))
      × ((decode d addr ≡ none)
          ↔ ((j : ℕ) → j < length d.regions → covers (region_at d.regions j) addr ≡ false))
unfolding decode
decode_first d addr = (
  λ i h. first i (find-some d.regions 0 addr i h),
  (find-none d.regions 0 addr, none_of_misses d.regions 0 addr),
)
  where
    first :
        (i : ℕ)
        → (j : ℕ) × (i ≡ 0 + j) × IsFirst d.regions addr j
        → (i < length d.regions)
          × (covers (region_at d.regions i) addr ≡ true)
          × ((m : ℕ) → m < i → covers (region_at d.regions m) addr ≡ false)
    first i (j, e, h) = let same : i ≡ j = omega arith in rw same (h.inside, h.hit, h.before)

pub Option-cases : (o : Option ℕ) → (o ≡ none) ⊎ ((i : ℕ) × (o ≡ some i))
Option-cases none = inl refl
Option-cases (some i) = inr (i, refl)

-- What goes down to slave `i`.
abbrev pub down : Decoder → Txn → ℕ → Txn
down d t i = record t { address = t.address - base_of d i; delay = t.delay + d.cycle }

pub restored :
    (t d u : Txn)
    → IsSameRequest t (record d { address = t.address })
    → IsSameRequest d u
    → IsSameRequest t (record u { address = t.address })
restored t d u h k = ground arith

pick-IsTarget :
    {S : Type 0} {x y : Transport S} (b : Bool)
    → IsTarget x
    → IsTarget y
    → IsTarget (if b then x else y)
pick-IsTarget true hx hy = hx
pick-IsTarget false hx hy = hy

module _ {S : Type 0} (s0 s1 s2 s3 : Transport S) where
  -- An access that no region holds gets the address error, and reaches no slave.
  pub transport_miss :
      (d : Decoder) (s : S) (t : Txn)
      → decode d t.address ≡ none
      → b_transport s0 s1 s2 s3 d s t ≡ (s, record t { response = address_error })
  unfolding b_transport
  transport_miss d s t h = rw (h, b_transport)

  -- An access in region `i` goes to slave `i`, at its offset in the region.
  pub transport_hit :
      (d : Decoder) (s : S) (t : Txn) (i : ℕ)
      → decode d t.address ≡ some i
      → let (s', u) = port s0 s1 s2 s3 i s (down d t i) in
        b_transport s0 s1 s2 s3 d s t ≡ (s', record u { address = t.address })
  unfolding b_transport
  transport_hit d s t i h = rw (h, b_transport)

  port-IsTarget :
      IsTarget s0
      → IsTarget s1
      → IsTarget s2
      → IsTarget s3
      → (i : ℕ) → IsTarget (port s0 s1 s2 s3 i)
  unfolding port
  port-IsTarget h0 h1 h2 h3 i =
      pick-IsTarget (i == 0) h0 (pick-IsTarget (i == 1) h1 (pick-IsTarget (i == 2) h2 h3))

  -- If the four slaves keep the contract of a target, so does the decoder in front of them: it
  -- always answers, hands every request back with the address that it came with, and takes no
  -- delay away.
  pub decoder-IsTarget :
      (d : Decoder)
      → IsTarget s0
      → IsTarget s1
      → IsTarget s2
      → IsTarget s3
      → IsTarget (b_transport s0 s1 s2 s3 d)
  decoder-IsTarget d h0 h1 h2 h3 = record {
    answers = λ s t. elim (Option-cases (decode d t.address)) [
      | inl miss ↦ rw (transport_miss d s t miss) (ground arith)
      | inr (i, hit) ↦
          rw (transport_hit d s t i hit) ((port-IsTarget h0 h1 h2 h3 i).answers s (down d t i))
    ];
    keeps = λ s t. elim (Option-cases (decode d t.address)) [
      | inl miss ↦ rw (transport_miss d s t miss) (ground arith)
      | inr (i, hit) ↦ rw (transport_hit d s t i hit) (
          restored t (down d t i) (port s0 s1 s2 s3 i s (down d t i)).1 (ground arith)
            ((port-IsTarget h0 h1 h2 h3 i).keeps s (down d t i)))
    ];
    delays = λ s t. elim (Option-cases (decode d t.address)) [
      | inl miss ↦ rw (transport_miss d s t miss) (omega arith)
      | inr (i, hit) ↦
          rw (transport_hit d s t i hit)
            (omega (arith, (port-IsTarget h0 h1 h2 h3 i).delays s (down d t i)))
    ];
  }
