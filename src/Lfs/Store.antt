-- ===== src/Lfs/Store.antt =====
-- The local storage of LFS objects implements a map from ids to contents.
use gitopia_storage.Prelude.{
  ◌≡◌, refl, arith, sym, ap, ◌∙◌, Bool, true, false, not, Option, none, some, List, [], ◌∷◌, Result,
  ok, err, All, if◌then◌else◌, Bool-cases, inl, inr,
}
use gitopia_storage.Text.{Bytes, bytes_eq}
use gitopia_storage.Text.Equality.{bytes_eq_iff}
use gitopia_storage.Lfs.Distinct.{other-oid, storage_path_inj}
use gitopia_storage.Lfs.{
  Disk, Faults, LocalStorage, StorageError, valid_oid, storage_path, upload, download,
  object_not_exist, contents_of,
}

pub record Request : Type 0 where
  pub oid : Bytes
  pub content : Bytes
  pub faults : Faults

-- The uploads, one after the other.
unfoldable pub upload_all : LocalStorage → List Request → Disk → Disk
unfolding upload
upload_all s [] d = d
upload_all s (r ∷ rs) d = upload_all s rs (upload s r.faults r.oid r.content d).1

-- An upload is complete where nothing it asks of the system fails.
abbrev pub completes : Faults → Bool
completes f = if f.mkdir_fails then false else if f.create_fails then false else not f.copy_fails

-- The map: a complete upload replaces the object, another one deletes it.
abbrev pub after_upload : Request → Bytes → Option Bytes → Option Bytes
after_upload r oid before =
    if bytes_eq oid r.oid then (if completes r.faults then some r.content else none) else before

abbrev pub after_uploads : List Request → Bytes → Option Bytes → Option Bytes
after_uploads [] oid before = before
after_uploads (r ∷ rs) oid before = after_uploads rs oid (after_upload r oid before)

bool-ext : {a b : Bool} → (a ≡ true → b ≡ true) → (b ≡ true → a ≡ true) → a ≡ b
bool-ext {a = true} f g = sym (f refl)
bool-ext {a = false} {b = true} f g = g refl
bool-ext {a = false} {b = false} f g = refl

module _ (s : LocalStorage) where
  same-path :
      (a b : Bytes)
      → valid_oid a ≡ true
      → valid_oid b ≡ true
      → bytes_eq (storage_path s a) (storage_path s b) ≡ bytes_eq a b
  same-path a b ha hb =
      bool-ext
        (λ h.
          (bytes_eq_iff a b).1 (
            storage_path_inj s a b ha hb
              ((bytes_eq_iff (storage_path s a) (storage_path s b)).0 h)))
        (λ h.
          (bytes_eq_iff (storage_path s a) (storage_path s b)).1
            (ap (storage_path s) ((bytes_eq_iff a b).0 h)))

  upload-after :
      (r : Request) (oid : Bytes) (d : Disk)
      → r.faults.remove_fails ≡ false
      → valid_oid oid ≡ true
      → (upload s r.faults r.oid r.content d).1 (storage_path s oid)
        ≡ after_upload r oid (d (storage_path s oid))
  unfolding upload
  upload-after r oid d hr h = elim (Bool-cases (valid_oid r.oid)) [
    | inl v ↦ ground (arith, same-path oid r.oid h v, hr, v)
    | inr v ↦ ground (arith, other-oid oid r.oid h v, v)
  ]

  follow_uploads :
      (rs : List Request) (oid : Bytes) (d : Disk)
      → All (λ r. r.faults.remove_fails ≡ false) rs
      → valid_oid oid ≡ true
      → upload_all s rs d (storage_path s oid) ≡ after_uploads rs oid (d (storage_path s oid))
  unfolding upload_all
  follow_uploads [] oid d hr h = refl
  follow_uploads (r ∷ rs) oid d (hr, hrs) h =
      follow_uploads rs oid (upload s r.faults r.oid r.content d).1 hrs h
      ∙ ap (after_uploads rs oid) (upload-after r oid d hr h)

abbrev pub found : Option Bytes → Result StorageError Bytes
found none = err object_not_exist
found (some content) = ok content

quiet :
    (o : Option Bytes) (f : Faults)
    → f.stat_fails ≡ false
    → f.open_fails ≡ false
    → f.copy_fails ≡ false
    → contents_of f o ≡ found o
quiet none f h k l = ground (arith, h)
quiet (some content) f h k l = ground (arith, k, l)

-- After any uploads, failed ones included, a download that no system call disturbs returns what the
-- map from ids to contents holds: the content of the last upload of that id if it was complete, and
-- no object if it was not. The removal of a failed upload's file does not fail itself.
pub upload_all-download :
    (s : LocalStorage) (rs : List Request) (oid : Bytes) (d : Disk) (f : Faults)
    → All (λ r. r.faults.remove_fails ≡ false) rs
    → valid_oid oid ≡ true
    → f.stat_fails ≡ false
    → f.open_fails ≡ false
    → f.copy_fails ≡ false
    → download s f oid (upload_all s rs d) ≡ found (after_uploads rs oid (d (storage_path s oid)))
unfolding download
upload_all-download s rs oid d f hrs h h1 h2 h3 =
    rw (follow_uploads s rs oid d hrs h)
      (quiet (after_uploads rs oid (d (storage_path s oid))) f h1 h2 h3)
