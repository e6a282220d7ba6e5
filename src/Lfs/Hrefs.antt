-- ===== src/Lfs/Hrefs.antt =====
-- The address that ServeBatchHandler gives for an object is one that the other handlers read back:
-- the path behind the host names the same repository and the same object.
use mathlib.Core.List.{append_assoc}
use gitopia_storage.Prelude.{
  ℕ, ◌<◌, ◌^◌, ◌≡◌, refl, arith, sym, ap, ◌∙◌, true, some, List, [], ◌∷◌, ◌++◌, ok, All, or_err,
}
use gitopia_storage.Text.{Bytes, codes, bytes_eq, split, trim_suffix, parse_uint}
use gitopia_storage.Text.Split.{split-append}
use gitopia_storage.Text.Decimal.{Digit, decimal-Digit, parse_uint-decimal}
use gitopia_storage.Events.Paths.{decimal}
use gitopia_storage.Auth.{parse_repository_id_from_uri, id_of_parts, bad_repository_id}
use gitopia_storage.Lfs.{valid_oid}
use gitopia_storage.Lfs.Distinct.{no-slash, valid-hex}
use gitopia_storage.Lfs.Batch.{object_path, objects_of}
use gitopia_storage.Lfs.Basic.{parse_path, oid_of_path, seventh}

split-digits : (s : Bytes) → All Digit s → split b'/' (s ++ codes ".git") ≡ (s ++ codes ".git") ∷ []
unfolding split
split-digits [] h = refl
split-digits (c ∷ s) (h, k) = rw (split-digits s k) ground (arith, h)

trim-digits : (s : Bytes) → All Digit s → trim_suffix (codes ".git") (s ++ codes ".git") ≡ s
unfolding trim_suffix bytes_eq
trim-digits [] h = refl
trim-digits (c ∷ s) (h, k) = rw (trim-digits s k) ground (arith, h)

-- the parts of an object's path
href-parts :
    (shown oid : Bytes)
    → All Digit shown
    → valid_oid oid ≡ true
    → split b'/' (objects_of shown ++ (b'/' ∷ oid))
      ≡ []
        ∷ (shown ++ codes ".git")
        ∷ codes "info"
        ∷ codes "lfs"
        ∷ codes "objects"
        ∷ codes "basic"
        ∷ oid
        ∷ []
unfolding split
href-parts shown oid h k =
    let rest : Bytes = codes "info/lfs/objects/basic/" ++ oid in
    let tail : split b'/' rest
        ≡ codes "info" ∷ codes "lfs" ∷ codes "objects" ∷ codes "basic" ∷ oid ∷ [] =
      rw (no-slash oid (valid-hex oid k)) refl in
    ap (λ s. split b'/' (b'/' ∷ s))
      (append_assoc shown (codes ".git/info/lfs/objects/basic") (b'/' ∷ oid)
        ∙ sym (append_assoc shown (codes ".git") (b'/' ∷ rest)))
    ∙ ap (◌∷◌ []) (split-append b'/' (shown ++ codes ".git") rest)
    ∙ ap (λ parts. [] ∷ (parts ++ split b'/' rest)) (split-digits shown h)
    ∙ ap (λ parts. [] ∷ (shown ++ codes ".git") ∷ parts) tail

read-path :
    (path oid : Bytes) (id : ℕ)
    → parse_repository_id_from_uri path ≡ ok id
    → oid_of_path path ≡ ok oid
    → parse_path path ≡ ok (id, oid)
unfolding parse_path
read-path path oid id h k = rw (h, k) refl

read-id :
    (path shown : Bytes) (id : ℕ) {parts : List Bytes}
    → split b'/' path ≡ [] ∷ (shown ++ codes ".git") ∷ parts
    → trim_suffix (codes ".git") (shown ++ codes ".git") ≡ shown
    → parse_uint shown ≡ some id
    → parse_repository_id_from_uri path ≡ ok id
unfolding parse_repository_id_from_uri
read-id path shown id h k l =
    ap id_of_parts h
    ∙ ap (λ s. or_err bad_repository_id (parse_uint s)) k
    ∙ ap (or_err bad_repository_id) l

read-oid :
    (path shown oid : Bytes)
    → split b'/' path
      ≡ [] ∷ shown ∷ codes "info" ∷ codes "lfs" ∷ codes "objects" ∷ codes "basic" ∷ oid ∷ []
    → oid_of_path path ≡ ok oid
unfolding oid_of_path
read-oid path shown oid h = ap seventh h

-- The path of the address given for a valid object of a repository is read back as that repository
-- and that object.
pub parse_path-object_path :
    (id : ℕ) (oid : Bytes)
    → id < 2 ^ 64
    → valid_oid oid ≡ true
    → parse_path (object_path id ++ (codes "/" ++ oid)) ≡ ok (id, oid)
unfolding object_path
parse_path-object_path id oid h k =
    let path : Bytes = objects_of (decimal id) ++ (b'/' ∷ oid) in
    let parts = href-parts (decimal id) oid (decimal-Digit id) k in
    read-path path oid id
      (read-id path (decimal id) id parts (trim-digits (decimal id) (decimal-Digit id))
        (parse_uint-decimal id h))
      (read-oid path (decimal id ++ codes ".git") oid parts)
