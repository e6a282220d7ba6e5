-- ===== src/Auth/Base64.antt =====
-- Go's `base64.StdEncoding`, as the decoding of credentials uses it: line breaks are skipped, the
-- padding is required, and the unused bits of the last character are not looked at.
use gitopia_storage.Prelude.{
  ℕ, ◌+◌, ◌-◌, ◌*◌, ◌/◌, ◌%◌, ◌≡◌, refl, Bool, true, false, ◌&&◌, ◌||◌, Option, none, some, [], ◌∷◌,
  leb, ◌==◌, if◌then◌else◌,
}
use gitopia_storage.Text.{Bytes, codes}

-- The value of a character of the alphabet A-Z, a-z, 0-9, +, /.
unfoldable pub char_value : ℕ → Option ℕ
char_value c =
    if leb 65 c && leb c 90
    then some (c - 65)
    else if leb 97 c && leb c 122
    then some (c - 71)
    else if leb 48 c && leb c 57
    then some (c + 4)
    else if c == 43
    then some 62
    else if c == 47
    then some 63
    else none

unfoldable pub skip_breaks : Bytes → Bytes
skip_breaks [] = []
skip_breaks (c ∷ s) = let rest = skip_breaks s in if c == 10 || c == 13 then rest else c ∷ rest

abbrev last_byte : Option ℕ → Option ℕ → Option Bytes
last_byte (some a) (some b) = some ((a * 4 + b / 16) ∷ [])
last_byte _ _ = none

abbrev last_two : Option ℕ → Option ℕ → Option ℕ → Option Bytes
last_two (some a) (some b) (some c) = some ((a * 4 + b / 16) ∷ (b % 16 * 16 + c / 4) ∷ [])
last_two _ _ _ = none

abbrev three_bytes : Option ℕ → Option ℕ → Option ℕ → Option ℕ → Option Bytes → Option Bytes
three_bytes (some a) (some b) (some c) (some d) (some rest) =
    some ((a * 4 + b / 16) ∷ (b % 16 * 16 + c / 4) ∷ (c % 4 * 64 + d) ∷ rest)
three_bytes _ _ _ _ _ = none

abbrev is_end : Bytes → Bool
is_end [] = true
is_end (c ∷ s) = false

-- Four characters at a time; only the last four may hold padding.
unfoldable pub decode_quads : Bytes → Option Bytes
unfolding char_value
decode_quads [] = some []
decode_quads (a ∷ b ∷ c ∷ d ∷ s) =
    let rest = decode_quads s in
    if d == b'=' && is_end s
    then (if c == b'='
        then last_byte (char_value a) (char_value b)
        else last_two (char_value a) (char_value b) (char_value c))
    else three_bytes (char_value a) (char_value b) (char_value c) (char_value d) rest
decode_quads _ = none

-- `StdEncoding.DecodeString`; `none` is its error.
unfoldable pub decode_string : Bytes → Option Bytes
unfolding skip_breaks decode_quads
decode_string s = decode_quads (skip_breaks s)

decode_test : decode_string (codes "QWxhZGRpbjpvcGVu\n") ≡ some (codes "Aladdin:open")
unfolding decode_string
decode_test = refl

decode_padded : decode_string (codes "YWI=") ≡ some (codes "ab")
unfolding decode_string
decode_padded = refl
