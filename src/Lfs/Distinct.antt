-- ===== src/Lfs/Distinct.antt =====
-- filepath.Join gives the objects below a root different paths: names that the cleaning of a path
-- keeps stand at its end as they are.
use mathlib.Core.List.{append_assoc, reverse, reverse-cons}
use gitopia_storage.Prelude.{
  ℕ, ◌≡◌, refl, arith, sym, ap, ◌∙◌, Bool, true, false, List, [], ◌∷◌, ◌++◌, ◌==◌, Bool-cases, inl,
  inr,
}
use gitopia_storage.Text.{Bytes, codes, bytes_eq, split}
use gitopia_storage.Text.Split.{split-append}
use gitopia_storage.Text.Equality.{bytes_eq_iff}
use gitopia_storage.Events.Paths.{clean_part, clean_parts, join_parts, with_root, clean}
use gitopia_storage.Lfs.{valid_oid, all_hex, is_lower_hex, LocalStorage, storage_path}

pub other-oid : (a b : Bytes) → valid_oid a ≡ true → valid_oid b ≡ false → bytes_eq a b ≡ false
other-oid a b h k = elim (Bool-cases (bytes_eq a b)) [
  | inl e ↦
      let same : valid_oid a ≡ valid_oid b = ap valid_oid ((bytes_eq_iff a b).0 e) in
      ground (arith, same, h, k)
  | inr e ↦ e
]

pub no-slash : (s : Bytes) → all_hex s ≡ true → split b'/' s ≡ s ∷ []
unfolding split all_hex is_lower_hex
no-slash [] h = refl
no-slash (c ∷ s) h = rw (no-slash s (ground (arith, h))) ground (arith, h)

clean_parts-append :
    (rooted : Bool) (ps qs kept : List Bytes)
    → clean_parts rooted (ps ++ qs) kept ≡ clean_parts rooted qs (clean_parts rooted ps kept)
unfolding clean_parts
clean_parts-append rooted [] qs kept = refl
clean_parts-append rooted (p ∷ ps) qs kept =
    clean_parts-append rooted ps qs (clean_part rooted p kept)

not_empty : valid_oid [] ≡ false
unfolding valid_oid
not_empty = refl

not_dot : valid_oid (codes ".") ≡ false
unfolding valid_oid
not_dot = refl

not_dots : valid_oid (codes "..") ≡ false
unfolding valid_oid
not_dots = refl

pub valid-hex : (oid : Bytes) → valid_oid oid ≡ true → all_hex oid ≡ true
unfolding valid_oid
valid-hex oid h = ground (arith, h)

hex-unrooted : (c : ℕ) (s : Bytes) → all_hex (c ∷ s) ≡ true → (c == b'/') ≡ false
unfolding all_hex
hex-unrooted c s h = ground (arith, h)

hex-tail : (c : ℕ) (s : Bytes) → all_hex (c ∷ s) ≡ true → all_hex s ≡ true
unfolding all_hex
hex-tail c s h = ground (arith, h)

clean_part-oid :
    (rooted : Bool) (oid : Bytes) (kept : List Bytes)
    → valid_oid oid ≡ true
    → clean_part rooted oid kept ≡ oid ∷ kept
unfolding clean_part
clean_part-oid rooted oid [] h = ground (
  arith,
  other-oid oid [] h not_empty,
  other-oid oid (codes ".") h not_dot,
  other-oid oid (codes "..") h not_dots,
)
clean_part-oid rooted oid (top ∷ kept) h = ground (
  arith,
  other-oid oid [] h not_empty,
  other-oid oid (codes ".") h not_dot,
  other-oid oid (codes "..") h not_dots,
)

-- what stands before the last of some parts
before_last : List Bytes → Bytes
before_last [] = []
before_last (part ∷ parts) = part ++ (b'/' ∷ before_last parts)

join_parts-last :
    (parts : List Bytes) (part : Bytes)
    → join_parts (parts ++ (part ∷ [])) ≡ before_last parts ++ part
unfolding join_parts before_last
join_parts-last [] part = refl
join_parts-last (p ∷ []) part = rw (append_assoc p (b'/' ∷ []) part) refl
join_parts-last (p ∷ q ∷ parts) part =
    rw (join_parts-last (q ∷ parts) part, append_assoc p (b'/' ∷ before_last (q ∷ parts)) part) refl

prefix : Bool → List Bytes → Bytes
prefix true parts = b'/' ∷ before_last parts
prefix false parts = before_last parts

with_root-last :
    (rooted : Bool) (parts : List Bytes) (part : Bytes)
    → with_root rooted (parts ++ (part ∷ [])) ≡ prefix rooted parts ++ part
unfolding with_root prefix
with_root-last true parts part = ap (◌∷◌ b'/') (join_parts-last parts part)
with_root-last false [] part = join_parts-last [] part
with_root-last false (p ∷ parts) part = join_parts-last (p ∷ parts) part

clean-oid :
    (root oid : Bytes)
    → (rooted : Bool) → valid_oid oid ≡ true
    → with_root rooted (reverse (clean_parts rooted (split b'/' (root ++ (b'/' ∷ oid))) []))
      ≡ prefix rooted (reverse (clean_parts rooted (split b'/' root) [])) ++ oid
unfolding clean_parts
clean-oid root oid rooted h =
    rw
      (
        split-append b'/' root oid,
        no-slash oid (valid-hex oid h),
        clean_parts-append rooted (split b'/' root) (oid ∷ []) [],
        clean_part-oid rooted oid (clean_parts rooted (split b'/' root) []) h,
        reverse-cons oid (clean_parts rooted (split b'/' root) []),
      )
      (with_root-last rooted (reverse (clean_parts rooted (split b'/' root) [])) oid)

-- what stands before an object's name below a root
object_prefix : Bytes → Bytes
object_prefix [] = []
object_prefix (c ∷ root) =
    prefix (c == b'/') (reverse (clean_parts (c == b'/') (split b'/' (c ∷ root)) []))

storage_path-oid :
    (root oid : Bytes)
    → valid_oid oid ≡ true
    → storage_path (record { root = root }) oid ≡ object_prefix root ++ oid
unfolding storage_path object_prefix clean
storage_path-oid [] [] h = absurd (ground (arith, h, not_empty))
storage_path-oid [] (d ∷ oid) h =
    rw
      (
        hex-unrooted d oid (valid-hex (d ∷ oid) h),
        no-slash oid (hex-tail d oid (valid-hex (d ∷ oid) h)),
        clean_part-oid false (d ∷ oid) [] h,
      )
      refl
storage_path-oid (c ∷ root) oid h = clean-oid (c ∷ root) oid (c == b'/') h

append-inj : (p a b : Bytes) → p ++ a ≡ p ++ b → a ≡ b
append-inj [] a b h = h
append-inj (c ∷ p) a b h = append-inj p a b (ap (λ s. elim s [ [] ↦ [] | _ ∷ t ↦ t ]) h)

pub storage_path_inj :
    (s : LocalStorage) (a b : Bytes)
    → valid_oid a ≡ true
    → valid_oid b ≡ true
    → storage_path s a ≡ storage_path s b
    → a ≡ b
storage_path_inj s a b h k e =
    append-inj (object_prefix s.root) a b
      (sym (storage_path-oid s.root a h) ∙ e ∙ storage_path-oid s.root b k)
