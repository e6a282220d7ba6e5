-- ===== src/Events/Paths.antt =====
-- Go's `path.Join`, `path.Clean` and `filepath.Base` on Unix, as the handlers use them, and the
-- decimal text of a repository's id.
use mathlib.Core.List.{reverse}
use gitopia_storage.Prelude.{
  ℕ, zero, suc, ◌+◌, ◌/◌, ◌%◌, ◌≡◌, refl, Bool, true, false, List, [], ◌∷◌, ◌++◌, ◌==◌,
  if◌then◌else◌,
}
use gitopia_storage.Text.{Bytes, codes, bytes_eq, split}

-- One step of `Clean`, over the kept parts, the last one first.
unfoldable pub clean_part : Bool → Bytes → List Bytes → List Bytes
unfolding bytes_eq
clean_part rooted part [] =
    if bytes_eq part []
    then []
    else if bytes_eq part (codes ".")
    then []
    else if bytes_eq part (codes "..")
    then (if rooted then [] else part ∷ [])
    else part ∷ []
clean_part rooted part (top ∷ kept) =
    if bytes_eq part []
    then top ∷ kept
    else if bytes_eq part (codes ".")
    then top ∷ kept
    else if bytes_eq part (codes "..")
    then (if bytes_eq top (codes "..") then part ∷ top ∷ kept else kept)
    else part ∷ top ∷ kept

unfoldable pub clean_parts : Bool → List Bytes → List Bytes → List Bytes
unfolding clean_part
clean_parts rooted [] kept = kept
clean_parts rooted (part ∷ parts) kept = clean_parts rooted parts (clean_part rooted part kept)

abbrev pub is_rooted : Bytes → Bool
is_rooted [] = false
is_rooted (c ∷ p) = c == b'/'

unfoldable pub join_parts : List Bytes → Bytes
join_parts [] = []
join_parts (part ∷ []) = part
join_parts (part ∷ parts) = part ++ b'/' ∷ join_parts parts

-- the parts of a cleaned path, back in order
unfoldable pub with_root : Bool → List Bytes → Bytes
unfolding join_parts
with_root true parts = b'/' ∷ join_parts parts
with_root false [] = codes "."
with_root false (part ∷ parts) = join_parts (part ∷ parts)

unfoldable pub clean : Bytes → Bytes
unfolding with_root split clean_parts
clean p = with_root (is_rooted p) (reverse (clean_parts (is_rooted p) (split b'/' p) []))

unfoldable pub join_raw : Bytes → List Bytes → Bytes
join_raw buf [] = buf
join_raw [] (e ∷ es) = join_raw e es
join_raw (c ∷ buf) (e ∷ es) = join_raw (c ∷ buf ++ b'/' ∷ e) es

abbrev pub unless_empty : Bytes → Bytes → Bytes
unless_empty [] p = []
unless_empty (c ∷ buf) p = p

-- `path.Join`: empty elements before the first that is not are skipped.
unfoldable pub join : List Bytes → Bytes
unfolding join_raw clean
join es = unless_empty (join_raw [] es) (clean (join_raw [] es))

last_part : Bytes → List Bytes → Bytes
last_part found [] = found
last_part found ([] ∷ parts) = last_part found parts
last_part found ((c ∷ part) ∷ parts) = last_part (c ∷ part) parts

-- `filepath.Base`: the last element without the slashes behind it.
unfoldable pub base : Bytes → Bytes
unfolding last_part split
base [] = codes "."
base (c ∷ p) = last_part (codes "/") (split b'/' (c ∷ p))

unfoldable pub decimal_digits : ℕ → ℕ → Bytes → Bytes
decimal_digits zero n shown = shown
decimal_digits (suc fuel) n shown =
    let rest = decimal_digits fuel (n / 10) ((48 + n % 10) ∷ shown) in
    if n / 10 == 0 then (48 + n % 10) ∷ shown else rest

-- The decimal text of a `uint64`, which has at most twenty digits.
unfoldable pub decimal : ℕ → Bytes
unfolding decimal_digits
decimal n = decimal_digits 20 n []

base_test :
    base (join (codes "repos/../r" ∷ codes "7.git/objects/pack/" ∷ codes "pack-1.pack" ∷ []))
    ≡ codes "pack-1.pack"
unfolding base join
base_test = refl

join_test :
    join (codes "repos/../r" ∷ codes "7.git/objects/pack/" ∷ codes "p" ∷ [])
    ≡ codes "r/7.git/objects/pack/p"
unfolding join
join_test = refl

decimal_test : decimal 18446744073709551615 ≡ codes "18446744073709551615"
unfolding decimal
decimal_test = refl
