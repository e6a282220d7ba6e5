-- ===== src/Text.antt =====
-- Byte strings, and what the code uses of Go's `strings` and `strconv` packages.
pub mod Equality
pub mod Split
pub mod Decimal
use Prim.Native.Char.{code}
use gitopia_storage.Prelude.{
  ◌≡◌, refl, ℕ, ◌+◌, ◌-◌, ◌*◌, ◌^◌, String, Bool, true, false, ◌&&◌, Option, none, some, List, [],
  ◌∷◌, leb, ltb, ◌==◌, if◌then◌else◌,
}

abbrev pub Bytes : Type 0
Bytes = List ℕ

-- The bytes of an ASCII text.
abbrev pub codes : String → Bytes
codes String.[] = []
codes (String.◌∷◌ c s) = code c ∷ codes s

unfoldable pub bytes_eq : Bytes → Bytes → Bool
bytes_eq [] [] = true
bytes_eq (x ∷ xs) (y ∷ ys) = x == y && bytes_eq xs ys
bytes_eq _ _ = false

abbrev pub push_first : ℕ → List Bytes → List Bytes
push_first c [] = (c ∷ []) ∷ []
push_first c (part ∷ parts) = (c ∷ part) ∷ parts

-- `strings.Split(s, sep)` for a separator of one byte: never the empty list.
unfoldable pub split : ℕ → Bytes → List Bytes
split sep [] = [] ∷ []
split sep (c ∷ s) = let parts = split sep s in if c == sep then [] ∷ parts else push_first c parts

-- `strings.HasPrefix(s, prefix)`, with the rest.
unfoldable pub cut_prefix : Bytes → Bytes → Option Bytes
cut_prefix [] s = some s
cut_prefix (p ∷ ps) [] = none
cut_prefix (p ∷ ps) (c ∷ s) = if p == c then cut_prefix ps s else none

-- `strings.TrimSuffix(s, suffix)`.
unfoldable pub trim_suffix : Bytes → Bytes → Bytes
trim_suffix suffix [] = []
trim_suffix suffix (c ∷ s) = if bytes_eq (c ∷ s) suffix then [] else c ∷ trim_suffix suffix s

unfoldable pub digit : ℕ → Bool
digit c = leb 48 c && leb c 57

unfoldable pub parse_digits : ℕ → Bytes → Option ℕ
unfolding digit
parse_digits n [] = some n
parse_digits n (c ∷ s) =
    let rest = parse_digits (n * 10 + (c - 48)) s in if digit c then rest else none

abbrev pub in_range : Option ℕ → Option ℕ
in_range none = none
in_range (some n) = if ltb n (2 ^ 64) then some n else none

-- `strconv.ParseUint(s, 10, 64)`; `none` stands for its error.
unfoldable pub parse_uint : Bytes → Option ℕ
unfolding parse_digits
parse_uint [] = none
parse_uint (c ∷ s) = in_range (parse_digits 0 (c ∷ s))

-- `strings.HasSuffix(s, suffix)`.
unfoldable pub has_suffix : Bytes → Bytes → Bool
unfolding bytes_eq
has_suffix suffix [] = bytes_eq [] suffix
has_suffix suffix (c ∷ s) =
    let rest = has_suffix suffix s in if bytes_eq (c ∷ s) suffix then true else rest

-- `strings.Replace(s, part, "", 1)` for a part that is not empty.
unfoldable pub remove_first : Bytes → Bytes → Bytes
unfolding cut_prefix
remove_first part [] = []
remove_first part (c ∷ s) = elim (cut_prefix part (c ∷ s)) [
  | some rest ↦ rest
  | none ↦ c ∷ remove_first part s
]

abbrev pub push_before : ℕ → Option (Bytes × Bytes) → Option (Bytes × Bytes)
push_before c none = none
push_before c (some (before, after)) = some (c ∷ before, after)

-- `strings.Index(s, "c")`, with the two sides: before the byte and behind it.
unfoldable pub cut_at : ℕ → Bytes → Option (Bytes × Bytes)
cut_at sep [] = none
cut_at sep (c ∷ s) = if c == sep then some ([], s) else push_before c (cut_at sep s)

parse_uint_test : parse_uint (codes "1042") ≡ some 1042
unfolding parse_uint
parse_uint_test = refl
