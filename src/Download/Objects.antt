-- ===== src/Download/Objects.antt =====
-- One LFS object of the caching in utils/cache.go.
use gitopia_storage.Prelude.{
  ◌≡◌, refl, arith, sym, ap, subst, ◌∙◌, ◌⊎◌, inl, inr, Bool, true, false, none, some, List, ◌∷◌,
  Bool-cases, Option-cases,
}
use gitopia_storage.Text.{Bytes, bytes_eq}
use gitopia_storage.Text.Equality.{bytes_eq_refl}
use gitopia_storage.Lfs.{Disk, write_file}
use gitopia_storage.Download.{
  LfsObject, Outcome, Response, Source, body, bad_status, unreachable, cache_each, cache_lfs_object,
  lfs_path, save, then_rest,
}

abbrev pub Stored : Disk → Bytes → Type 0
Stored d path = (content : Bytes) × (d path ≡ some content)

pub write-same : (path content : Bytes) (d : Disk) → write_file path content d path ≡ some content
write-same path content d = rw (bytes_eq_refl path) refl

pub save-Stored :
    (mkdir create : Bool) (path : Bytes) (r : Response) (d : Disk)
    → (save mkdir create path r d).0 ≡ none
    → (content : Bytes) × (r ≡ body content true)
      × ((save mkdir create path r d).1 ≡ write_file path content d)
save-Stored mkdir create path unreachable d h = ground (arith, h)
save-Stored mkdir create path bad_status d h = ground (arith, h)
save-Stored false create path (body content complete) d h = ground (arith, h)
save-Stored true false path (body content complete) d h = ground (arith, h)
save-Stored true true path (body content false) d h = ground (arith, h)
save-Stored true true path (body content true) d h = (content, refl, refl)

pub missing-save :
    (s : Source) (o : LfsObject) (d : Disk)
    → d (lfs_path s o.oid) ≡ none
    → cache_lfs_object s o d
      ≡ save
          (s.mkdir_works (lfs_path s o.oid))
          (s.create_works (lfs_path s o.oid))
          (lfs_path s o.oid)
          (s.ipfs o.cid)
          d
unfolding cache_lfs_object
missing-save s o d e = rw (e) refl

-- One object without an error: it was there, or its whole content is written.
pub object-step :
    (s : Source) (o : LfsObject) (d : Disk)
    → (cache_lfs_object s o d).0 ≡ none
    → ((Stored d (lfs_path s o.oid)) × ((cache_lfs_object s o d).1 ≡ d))
      ⊎ ((content : Bytes) × (s.ipfs o.cid ≡ body content true)
          × ((cache_lfs_object s o d).1 ≡ write_file (lfs_path s o.oid) content d))
unfolding cache_lfs_object
object-step s o d h = elim (Option-cases (d (lfs_path s o.oid))) [
  | inl e ↦
      inr
        let path = lfs_path s o.oid in
          let run = missing-save s o d e in
          let (content, k, l) =
            save-Stored (s.mkdir_works path) (s.create_works path) path (s.ipfs o.cid) d
              (sym (ap (λ r. r.0) run) ∙ h) in
          (content, k, ap (λ r. r.1) run ∙ l)
  | inr (content, e) ↦ inl ((content, e), rw (e) refl)
]

then-step :
    (r : Outcome) (rest : Disk → Outcome)
    → (then_rest r rest).0 ≡ none
    → (r.0 ≡ none) × (then_rest r rest ≡ rest r.1)
then-step (some e, after) rest h = ground (arith, h)
then-step (none, after) rest h = (refl, refl)

pub each-step :
    (s : Source) (o : LfsObject) (os : List LfsObject) (d : Disk)
    → (cache_each s (o ∷ os) d).0 ≡ none
    → ((cache_lfs_object s o d).0 ≡ none)
      × (cache_each s (o ∷ os) d ≡ cache_each s os (cache_lfs_object s o d).1)
unfolding cache_each
each-step s o os d h = then-step (cache_lfs_object s o d) (cache_each s os) h

pub write-keeps :
    (path content p : Bytes) (d : Disk) → Stored d p → Stored (write_file path content d) p
write-keeps path content p d (c, h) = elim (Bool-cases (bytes_eq p path)) [
  | inl e ↦ (content, rw (e) refl)
  | inr e ↦ (c, rw (e) h)
]

pub object-keeps :
    (s : Source) (o : LfsObject) (d : Disk) (p : Bytes)
    → (cache_lfs_object s o d).0 ≡ none
    → Stored d p
    → Stored (cache_lfs_object s o d).1 p
object-keeps s o d p h k = elim (object-step s o d h) [
  | inl (there, same) ↦ subst (λ f. Stored f p) (sym same) k
  | inr (content, e, same) ↦
      subst (λ f. Stored f p) (sym same) (write-keeps (lfs_path s o.oid) content p d k)
]

pub object-Stored :
    (s : Source) (o : LfsObject) (d : Disk)
    → (cache_lfs_object s o d).0 ≡ none
    → Stored (cache_lfs_object s o d).1 (lfs_path s o.oid)
object-Stored s o d h = elim (object-step s o d h) [
  | inl (there, same) ↦ subst (λ f. Stored f (lfs_path s o.oid)) (sym same) there
  | inr (content, e, same) ↦
      subst (λ f. Stored f (lfs_path s o.oid)) (sym same)
        (content, write-same (lfs_path s o.oid) content d)
]
