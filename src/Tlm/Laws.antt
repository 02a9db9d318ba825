-- ===== src/Tlm/Laws.antt =====
-- What packing and unpacking a word do, and when they refuse.
use systemc_model.Base.{ℕ, zero, suc, ◌+◌, ◌%◌, ◌^◌, ◌≤◌, ◌<◌, ◌≡◌, ◌≢◌, ◌⊎◌, refl, ◌∙◌}
use systemc_model.Base.{arith, true, false, none, some}
use systemc_model.Base.{List, [], ◌∷◌}
use systemc_model.Base.{length, get_or, set, length-set, get_or-set_self, get_or-set_ne}
use systemc_model.Base.Bits.{u32, bit_and_low_mask}
use systemc_model.Tlm.Payload.{
  Command, Txn, ok, address_error, burst_error, incomplete, IsBytes, IsRequest, IsSameRequest,
}
use systemc_model.Tlm.Words.{memcpy, word_bytes, word_of}
use systemc_model.Tlm.Helpers.{finish, tlm_check_u32, tlm_unpack_u32, tlm_pack_u32}

pub length-memcpy :
    (n : ℕ) (dst : List ℕ) (i : ℕ) (src : List ℕ) (j : ℕ)
    → length (memcpy n dst i src j) ≡ length dst
unfolding memcpy
length-memcpy zero dst i src j = refl
length-memcpy (suc n) dst i src j =
    length-memcpy n (set dst i (get_or src j 0)) (i + 1) src (j + 1)
    ∙ length-set dst i (get_or src j 0)

-- Below and above the copied range nothing changes.
pub get_or-memcpy_below :
    (n : ℕ) (dst : List ℕ) (i : ℕ) (src : List ℕ) (j k : ℕ)
    → k < i
    → get_or (memcpy n dst i src j) k 0 ≡ get_or dst k 0
unfolding memcpy
get_or-memcpy_below zero dst i src j k h = refl
get_or-memcpy_below (suc n) dst i src j k h =
    get_or-memcpy_below n (set dst i (get_or src j 0)) (i + 1) src (j + 1) k (omega arith)
    ∙ get_or-set_ne dst i k (get_or src j 0) 0 (omega arith)

pub get_or-memcpy_above :
    (n : ℕ) (dst : List ℕ) (i : ℕ) (src : List ℕ) (j k : ℕ)
    → i + n ≤ k
    → get_or (memcpy n dst i src j) k 0 ≡ get_or dst k 0
unfolding memcpy
get_or-memcpy_above zero dst i src j k h = refl
get_or-memcpy_above (suc n) dst i src j k h =
    get_or-memcpy_above n (set dst i (get_or src j 0)) (i + 1) src (j + 1) k (omega arith)
    ∙ get_or-set_ne dst i k (get_or src j 0) 0 (omega arith)

-- Inside it stands the source.
pub get_or-memcpy_inside :
    (n : ℕ) (dst : List ℕ) (i : ℕ) (src : List ℕ) (j k p q : ℕ)
    → i + n ≤ length dst
    → k < n
    → p ≡ i + k
    → q ≡ j + k
    → get_or (memcpy n dst i src j) p 0 ≡ get_or src q 0
unfolding memcpy
get_or-memcpy_inside zero dst i src j k p q h lt ep eq = absurd (omega arith)
get_or-memcpy_inside (suc n) dst i src j zero p q h lt ep eq =
    let here : p ≡ i = omega arith in
    let there : q ≡ j = omega arith in
    rw (here, there)
      (get_or-memcpy_below n (set dst i (get_or src j 0)) (i + 1) src (j + 1) i (omega arith)
        ∙ get_or-set_self dst i (get_or src j 0) 0 (omega arith))
get_or-memcpy_inside (suc n) dst i src j (suc k) p q h lt ep eq =
    get_or-memcpy_inside n (set dst i (get_or src j 0)) (i + 1) src (j + 1) k p q
      (omega (arith, length-set dst i (get_or src j 0))) (omega arith) (omega arith) (omega arith)

pub word_of-word_bytes : (v : ℕ) → v < 2 ^ 32 → word_of (word_bytes v) ≡ v
unfolding word_of word_bytes
word_of-word_bytes v h = omega arith

pub word_of-lt : (bs : List ℕ) → IsBytes bs → word_of bs < 2 ^ 32
unfolding word_of
word_of-lt bs h = omega (arith, h 0, h 1, h 2, h 3)

-- A word copied into a buffer is the word that is read back.
pub word_of-memcpy :
    (bs : List ℕ) (v : ℕ)
    → 4 ≤ length bs
    → v < 2 ^ 32
    → word_of (memcpy 4 bs 0 (word_bytes v) 0) ≡ v
word_of-memcpy bs v long small = copied ∙ word_of-word_bytes v small
  where
    copied : word_of (memcpy 4 bs 0 (word_bytes v) 0) ≡ word_of (word_bytes v)
    copied =
        unfold word_of in
        omega (
          arith,
          get_or-memcpy_inside 4 bs 0 (word_bytes v) 0 0 0 0 long,
          get_or-memcpy_inside 4 bs 0 (word_bytes v) 0 1 1 1 long,
          get_or-memcpy_inside 4 bs 0 (word_bytes v) 0 2 2 2 long,
          get_or-memcpy_inside 4 bs 0 (word_bytes v) 0 3 3 3 long,
        )

pub word_bytes-IsBytes : (v : ℕ) → IsBytes (word_bytes v)
unfolding word_bytes
word_bytes-IsBytes v zero = omega arith
word_bytes-IsBytes v (suc zero) = omega arith
word_bytes-IsBytes v (suc (suc zero)) = omega arith
word_bytes-IsBytes v (suc (suc (suc zero))) = omega arith
word_bytes-IsBytes v (suc (suc (suc (suc i)))) = omega arith

pub set-IsBytes : (bs : List ℕ) (i v : ℕ) → IsBytes bs → v < 256 → IsBytes (set bs i v)
set-IsBytes [] i v h small k = h k
set-IsBytes (x ∷ bs) zero v h small zero = small
set-IsBytes (x ∷ bs) zero v h small (suc k) = h (suc k)
set-IsBytes (x ∷ bs) (suc i) v h small zero = h 0
set-IsBytes (x ∷ bs) (suc i) v h small (suc k) = set-IsBytes bs i v (λ m. h (suc m)) small k

pub memcpy-IsBytes :
    (n : ℕ) (dst : List ℕ) (i : ℕ) (src : List ℕ) (j : ℕ)
    → IsBytes dst
    → IsBytes src
    → IsBytes (memcpy n dst i src j)
unfolding memcpy
memcpy-IsBytes zero dst i src j h k = h
memcpy-IsBytes (suc n) dst i src j h k =
    memcpy-IsBytes n (set dst i (get_or src j 0)) (i + 1) src (j + 1)
      (set-IsBytes dst i (get_or src j 0) h (k j)) k

-- The accesses that the peripherals take: one aligned word.
pub record IsWordAccess (t : Txn) : Type 0 where
  pub word : t.data_length ≡ 4
  pub wide : 4 ≤ t.streaming_width
  pub aligned : t.address % 4 ≡ 0

pub check-word : (t : Txn) → IsWordAccess t → tlm_check_u32 t ≡ (true, t)
unfolding tlm_check_u32
check-word t w = ground (arith, bit_and_low_mask 2 t.address)

-- `tlm_check_u32` accepts the aligned one-word accesses and leaves them as they are. It answers any
-- other length, or a narrower streaming width, with the burst error, and a word that is not
-- aligned with the address error.
pub tlm_check_u32_lem :
    (t : Txn)
    → (IsWordAccess t × (tlm_check_u32 t ≡ (true, t)))
      ⊎ ((t.data_length ≢ 4) ⊎ (t.streaming_width < 4))
        × (tlm_check_u32 t ≡ (false, record t { response = burst_error }))
      ⊎ (t.data_length ≡ 4)
        × (4 ≤ t.streaming_width)
        × (t.address % 4 ≢ 0)
        × (tlm_check_u32 t ≡ (false, record t { response = address_error }))
unfolding tlm_check_u32
tlm_check_u32_lem t = ground (arith, bit_and_low_mask 2 t.address)

-- A word that is packed into an accepted access is unpacked from it again.
pub tlm_unpack_u32-tlm_pack_u32 :
    (t : Txn) (v : ℕ)
    → IsRequest t
    → IsWordAccess t
    → v < 2 ^ 32
    → (tlm_unpack_u32 (tlm_pack_u32 t v).1).0 ≡ some v
unfolding tlm_unpack_u32 tlm_pack_u32
tlm_unpack_u32-tlm_pack_u32 t v r w small =
    ground (arith, bit_and_low_mask 2 t.address, word_of-memcpy t.bytes v, r.buffer, w.word)

-- The helpers as their callers see them: what they do to a word access, that a refusal is an
-- answer, and that the request stays as it was.
pub pack-word :
    (t : Txn) (v : ℕ)
    → IsWordAccess t
    → tlm_pack_u32 t v ≡ (true, record t { bytes = memcpy 4 t.bytes 0 (word_bytes v) 0 })
unfolding tlm_pack_u32
pack-word t v w = ground (arith, bit_and_low_mask 2 t.address)

pub unpack-word : (t : Txn) → IsWordAccess t → tlm_unpack_u32 t ≡ (some (word_of t.bytes), t)
unfolding tlm_unpack_u32
unpack-word t w = ground (arith, bit_and_low_mask 2 t.address)

pub pack-answers :
    (t : Txn) (v : ℕ) → (tlm_pack_u32 t v).0 ≡ false → (tlm_pack_u32 t v).1.response ≢ incomplete
unfolding tlm_pack_u32
pack-answers t v h = ground arith

pub unpack-answers :
    (t : Txn) → (tlm_unpack_u32 t).0 ≡ none → (tlm_unpack_u32 t).1.response ≢ incomplete
unfolding tlm_unpack_u32
unpack-answers t h = ground arith

pub pack-IsSameRequest : (t : Txn) (v : ℕ) → IsSameRequest t (tlm_pack_u32 t v).1
unfolding tlm_pack_u32
pack-IsSameRequest t v = ground (arith, length-memcpy 4 t.bytes 0 (word_bytes v) 0)

pub unpack-IsSameRequest : (t : Txn) → IsSameRequest t (tlm_unpack_u32 t).1
unfolding tlm_unpack_u32
unpack-IsSameRequest t = ground arith

pub pack-delay : (t : Txn) (v : ℕ) → (tlm_pack_u32 t v).1.delay ≡ t.delay
unfolding tlm_pack_u32 tlm_check_u32
pack-delay t v = ground arith

pub unpack-delay : (t : Txn) → (tlm_unpack_u32 t).1.delay ≡ t.delay
unfolding tlm_unpack_u32 tlm_check_u32
unpack-delay t = ground arith

-- A read of the word at offset `off`, and a write of `v` there, as an initiator issues them.
pub record IsReadOf (off : ℕ) (t : Txn) : Type 0 where
  pub reads : t.command ≡ Command.read
  pub access : IsWordAccess t
  pub here : u32 t.address ≡ off
  pub room : length t.bytes ≡ 4

pub record IsWriteOf (off v : ℕ) (t : Txn) : Type 0 where
  pub writes : t.command ≡ Command.write
  pub access : IsWordAccess t
  pub here : u32 t.address ≡ off
  pub carries : word_of t.bytes ≡ v
  pub small : v < 2 ^ 32

-- The answer to a read: OK, with the word `v` in the buffer.
pub record Returns (v : ℕ) (t : Txn) : Type 0 where
  pub good : t.response ≡ ok
  pub word : word_of t.bytes ≡ v

-- The transaction `t` with the word `v` stored into its buffer.
abbrev pub carrying : ℕ → Txn → Txn
carrying v t = record t { bytes = memcpy 4 t.bytes 0 (word_bytes v) 0 }

pub carrying-Returns :
    (off v ns : ℕ) (t : Txn) → IsReadOf off t → v < 2 ^ 32 → Returns v (finish ns (carrying v t))
carrying-Returns off v ns t r small = record {
  good = refl;
  word = word_of-memcpy t.bytes v (omega (arith, r.room)) small;
}

-- Unpacking either takes the word of a word access, or refuses.
pub unpack-cases :
    (t : Txn)
    → (IsWordAccess t × (tlm_unpack_u32 t ≡ (some (word_of t.bytes), t)))
      ⊎ ((tlm_unpack_u32 t).0 ≡ none)
unfolding tlm_unpack_u32
unpack-cases t = ground (arith, tlm_check_u32_lem t)

-- Packing either stores the word, or refuses.
pub pack-cases :
    (t : Txn) (v : ℕ)
    → (IsWordAccess t × (tlm_pack_u32 t v ≡ (true, carrying v t))) ⊎ ((tlm_pack_u32 t v).0 ≡ false)
unfolding tlm_pack_u32
pack-cases t v = ground (arith, tlm_check_u32_lem t)
