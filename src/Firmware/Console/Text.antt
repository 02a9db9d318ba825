-- ===== src/Firmware/Console/Text.antt =====
-- The bytes of what platforms/basic_cortexA/firmware/ prints: the compiler keeps a literal in UTF-8.
use systemc_model.Base.{ltb, ◌==◌, if◌then◌else◌, ℕ, ◌+◌, ◌/◌, ◌%◌, List, [], ◌∷◌, ◌++◌}
use systemc_model.Base.Bits.{u8}
use systemc_model.Firmware.Program.{Piece, text, number}
use systemc_model.Firmware.Log.{log_put_hex32}
use mathlib.Core.List.{map}
use Prim.Native.Char.{code}
use Prim.Native.String.{String}

-- The bytes of the character with the number `c`.
unfoldable pub utf8 : ℕ → List ℕ
utf8 c =
    if ltb c 0x80
    then c ∷ []
    else if ltb c 0x800
    then (0xC0 + c / 64) ∷ (0x80 + c % 64) ∷ []
    else if ltb c 0x10000
    then (0xE0 + c / 4096) ∷ (0x80 + c / 64 % 64) ∷ (0x80 + c % 64) ∷ []
    else (0xF0 + c / 262144) ∷ (0x80 + c / 4096 % 64) ∷ (0x80 + c / 64 % 64) ∷ (0x80 + c % 64) ∷ []

unfoldable pub bytes : String → List ℕ
bytes String.[] = []
bytes (String.◌∷◌ c s) = utf8 (code c) ++ bytes s

-- A string of C as it is sent: the bytes in front of its first 0.
unfoldable pub until_end : List ℕ → List ℕ
until_end [] = []
until_end (c ∷ cs) = if c == 0 then [] else u8 c ∷ until_end cs

unfoldable pub characters : Piece → List ℕ
characters (text s) = until_end (bytes s)
characters (number v) = map u8 (log_put_hex32 v)

-- A log, which has its newest piece first, as it is read.
unfoldable pub printed : List Piece → List ℕ
printed [] = []
printed (x ∷ xs) = printed xs ++ characters x
