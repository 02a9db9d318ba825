-- ===== src/Tlm/Words.antt =====
-- A `uint32_t` in a byte buffer of a little-endian host, and `memcpy`.
use systemc_model.Base.{ℕ, zero, suc, ◌+◌, ◌*◌, ◌/◌, ◌%◌, List, [], ◌∷◌, get_or, set}

-- `memcpy(&dst[i], &src[j], n)`
unfoldable pub memcpy : ℕ → List ℕ → ℕ → List ℕ → ℕ → List ℕ
memcpy zero dst i src j = dst
memcpy (suc n) dst i src j = memcpy n (set dst i (get_or src j 0)) (i + 1) src (j + 1)

-- The four bytes of a word, lowest first.
unfoldable pub word_bytes : ℕ → List ℕ
word_bytes v = v % 256 ∷ v / 256 % 256 ∷ v / 65536 % 256 ∷ v / 16777216 % 256 ∷ []

-- The word in the first four bytes.
unfoldable pub word_of : List ℕ → ℕ
word_of bs = get_or bs 0 0 + get_or bs 1 0 * 256 + get_or bs 2 0 * 65536 + get_or bs 3 0 * 16777216
