-- ===== src/Download/Complete.antt =====
-- What the caching of LFS objects leaves on the disk.
use gitopia_storage.Prelude.{
  ◌≡◌, refl, sym, ap, subst, ◌∙◌, ◌⊎◌, inl, inr, true, false, none, some, List, [], ◌∷◌, All,
  Bool-cases,
}
use gitopia_storage.Text.{Bytes, bytes_eq}
use gitopia_storage.Events.Paths.{join}
use gitopia_storage.Text.Equality.{bytes_eq_iff}
use gitopia_storage.Lfs.{Disk, write_file}
use gitopia_storage.Download.{
  LfsObject, Source, body, failed_write, cache_each, cache_lfs_object, cache_lfs_objects, lfs_path,
}
use gitopia_storage.Download.Objects.{
  Stored, write-same, missing-save, object-step, each-step, object-keeps, object-Stored,
}

-- A file is as before, or the complete content of one of the objects, whose path it is.
abbrev pub Origin : Source → Disk → Disk → Bytes → List LfsObject → Type 0
Origin s before after path [] = after path ≡ before path
Origin s before after path (o ∷ os) =
    ((content : Bytes) × (path ≡ lfs_path s o.oid)
      × (s.ipfs o.cid ≡ body content true)
      × (after path ≡ some content))
    ⊎ Origin s before after path os

each-keeps :
    (s : Source) (os : List LfsObject) (d : Disk) (p : Bytes)
    → (cache_each s os d).0 ≡ none
    → Stored d p
    → Stored (cache_each s os d).1 p
unfolding cache_each
each-keeps s [] d p h k = k
each-keeps s (o ∷ os) d p h k =
    let (fine, same) = each-step s o os d h in
    subst (λ r. Stored r.1 p) (sym same)
      (each-keeps s os (cache_lfs_object s o d).1 p (sym (ap (λ r. r.0) same) ∙ h)
        (object-keeps s o d p fine k))

each-Stored :
    (s : Source) (os : List LfsObject) (d : Disk)
    → (cache_each s os d).0 ≡ none
    → All (λ o. Stored (cache_each s os d).1 (lfs_path s o.oid)) os
each-Stored s [] d h = tt
each-Stored s (o ∷ os) d h =
    let (fine, same) = each-step s o os d h in
    let next = (cache_lfs_object s o d).1 in
    let rest : (cache_each s os next).0 ≡ none = sym (ap (λ r. r.0) same) ∙ h in
    subst (λ r. All (λ o. Stored r.1 (lfs_path s o.oid)) (o ∷ os)) (sym same)
      (
        each-keeps s os next (lfs_path s o.oid) rest (object-Stored s o d fine),
        each-Stored s os next rest,
      )

same-Origin :
    (s : Source) (before next after : Disk) (p : Bytes) (os : List LfsObject)
    → next p ≡ before p
    → Origin s next after p os
    → Origin s before after p os
same-Origin s before next after p [] e h = h ∙ e
same-Origin s before next after p (o ∷ os) e (inl h) = inl h
same-Origin s before next after p (o ∷ os) e (inr h) =
    inr (same-Origin s before next after p os e h)

new-Origin :
    (s : Source) (before next after : Disk) (p : Bytes) (o : LfsObject) (os : List LfsObject)
    (content : Bytes)
    → p ≡ lfs_path s o.oid
    → s.ipfs o.cid ≡ body content true
    → next p ≡ some content
    → Origin s next after p os
    → Origin s before after p (o ∷ os)
new-Origin s before next after p o [] content e k l h = inl (content, e, k, h ∙ l)
new-Origin s before next after p o (x ∷ os) content e k l (inl h) = inr (inl h)
new-Origin s before next after p o (x ∷ os) content e k l (inr h) =
    elim (new-Origin s before next after p o os content e k l h) [
      | inl y ↦ inl y
      | inr y ↦ inr (inr y)
    ]

-- through the first object
first-Origin :
    (s : Source) (o : LfsObject) (os : List LfsObject) (d after : Disk) (p : Bytes)
    → (cache_lfs_object s o d).0 ≡ none
    → Origin s (cache_lfs_object s o d).1 after p os
    → Origin s d after p (o ∷ os)
first-Origin s o os d after p h k =
    let next = (cache_lfs_object s o d).1 in
    elim (object-step s o d h) [
      | inl (there, same) ↦ inr (same-Origin s d next after p os (ap (λ f. f p) same) k)
      | inr (content, e, same) ↦ elim (Bool-cases (bytes_eq p (lfs_path s o.oid))) [
        | inl z ↦
            new-Origin s d next after p o os content ((bytes_eq_iff p (lfs_path s o.oid)).0 z) e
              (ap (λ f. f p) same ∙ rw (z) refl) k
        | inr z ↦ inr (same-Origin s d next after p os (ap (λ f. f p) same ∙ rw (z) refl) k)
      ]
    ]

each-Origin :
    (s : Source) (os : List LfsObject) (d : Disk) (p : Bytes)
    → (cache_each s os d).0 ≡ none
    → Origin s d (cache_each s os d).1 p os
unfolding cache_each
each-Origin s [] d p h = refl
each-Origin s (o ∷ os) d p h =
    let (fine, same) = each-step s o os d h in
    let next = (cache_lfs_object s o d).1 in
    let rest : (cache_each s os next).0 ≡ none = sym (ap (λ r. r.0) same) ∙ h in
    subst (λ r. Origin s d r.1 p (o ∷ os)) (sym same)
      (first-Origin s o os d (cache_each s os next).1 p fine (each-Origin s os next p rest))

-- Where the caching of a repository's LFS objects returns no error, each object has a file, and any
-- file is as before or has the complete content that IPFS delivered for one of the objects.
pub cache_lfs_objects-Stored :
    (s : Source) (os : List LfsObject) (d : Disk) (path : Bytes)
    → (cache_lfs_objects s (some os) d).0 ≡ none
    → All (λ o. Stored (cache_lfs_objects s (some os) d).1 (lfs_path s o.oid)) os
      × Origin s d (cache_lfs_objects s (some os) d).1 path os
unfolding cache_lfs_objects
cache_lfs_objects-Stored s os d path h = (each-Stored s os d h, each-Origin s os d path h)

-- what a broken download leaves
missing-broken :
    (s : Source) (o : LfsObject) (part : Bytes) (d : Disk)
    → d (lfs_path s o.oid) ≡ none
    → s.mkdir_works (lfs_path s o.oid) ≡ true
    → s.create_works (lfs_path s o.oid) ≡ true
    → s.ipfs o.cid ≡ body part false
    → cache_lfs_object s o d ≡ (some failed_write, write_file (lfs_path s o.oid) part d)
missing-broken s o part d e h k l = missing-save s o d e ∙ rw (h, k, l) refl

there-kept :
    (s : Source) (o : LfsObject) (d : Disk) (content : Bytes)
    → d (lfs_path s o.oid) ≡ some content
    → cache_lfs_object s o d ≡ (none, d)
unfolding cache_lfs_object
there-kept s o d content e = rw (e) refl

same-lfs_path :
    (s later : Source) (oid : Bytes)
    → later.lfs_dir ≡ s.lfs_dir
    → lfs_path later oid ≡ lfs_path s oid
unfolding lfs_path
same-lfs_path s later oid m = ap (λ dir. join (dir ∷ oid ∷ [])) m

-- Where an object has no file and one can be created, a download that breaks off is reported and
-- leaves what it got, and the object counts as cached from then on: the next caching, into the same
-- directory, reports no error and keeps the broken file, whatever IPFS delivers by then.
pub broken_download-kept :
    (s later : Source) (o : LfsObject) (part : Bytes) (d : Disk)
    → d (lfs_path s o.oid) ≡ none
    → s.mkdir_works (lfs_path s o.oid) ≡ true
    → s.create_works (lfs_path s o.oid) ≡ true
    → s.ipfs o.cid ≡ body part false
    → later.lfs_dir ≡ s.lfs_dir
    → ((cache_lfs_object s o d).0 ≡ some failed_write)
      × ((cache_lfs_object later o (cache_lfs_object s o d).1).0 ≡ none)
      × ((cache_lfs_object later o (cache_lfs_object s o d).1).1 (lfs_path s o.oid) ≡ some part)
broken_download-kept s later o part d e h k l m =
    let left = write_file (lfs_path s o.oid) part d in
    let there = write-same (lfs_path s o.oid) part d in
    let again = there-kept later o left part (ap left (same-lfs_path s later o.oid m) ∙ there) in
    subst
      (λ r.
        (r.0 ≡ some failed_write)
        × ((cache_lfs_object later o r.1).0 ≡ none)
        × ((cache_lfs_object later o r.1).1 (lfs_path s o.oid) ≡ some part))
      (sym (missing-broken s o part d e h k l))
      (refl, ap (λ r. r.0) again, ap (λ r. r.1 (lfs_path s o.oid)) again ∙ there)
