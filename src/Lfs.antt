-- ===== src/Lfs.antt =====
-- lfs/oid.go and lfs/storage.go: the ids of LFS objects and the local storage that keeps them. The
-- disk is a map from paths to the contents of files. What the operating system refuses is an
-- argument, `Faults`.
pub mod Store
pub mod Distinct
pub mod Http
pub mod Basic
pub mod Upload
pub mod Refusals
pub mod Announced
pub mod Stored
mod Tests
pub mod Batch
pub mod Hrefs
pub mod Lookup
use gitopia_storage.Prelude.{
  ℕ, suc, ◌*◌, ◌≡◌, refl, Bool, true, false, not, ◌&&◌, ◌||◌, Option, none, some, List, [], ◌∷◌,
  Result, ok, err, length, leb, ◌==◌, if◌then◌else◌,
}
use gitopia_storage.Text.{Bytes, codes, bytes_eq}
use gitopia_storage.Events.Paths.{join}

unfoldable pub is_lower_hex : ℕ → Bool
is_lower_hex c = leb b'a' c && leb c b'f' || leb b'0' c && leb c b'9'

unfoldable pub all_hex : Bytes → Bool
unfolding is_lower_hex
all_hex [] = true
all_hex (c ∷ s) = is_lower_hex c && all_hex s

-- The regular expression `^[a-f0-9]{64}$`.
unfoldable pub valid_oid : Bytes → Bool
unfolding all_hex
valid_oid oid = length oid == 64 && all_hex oid

pub data StorageError : Type 0 where
  invalid_oid : StorageError
  object_not_exist : StorageError
  create_directories : StorageError
  create_file : StorageError
  open_file : StorageError
  copy_file : StorageError
  nil_info_panics : StorageError

abbrev pub Disk : Type 0
Disk = Bytes → Option Bytes

abbrev pub write_file : Bytes → Bytes → Disk → Disk
write_file path content d = λ p. if bytes_eq p path then some content else d p

abbrev pub remove_file : Bytes → Disk → Disk
remove_file path d = λ p. if bytes_eq p path then none else d p

-- What goes wrong in one call: a test that is true is a system call that fails. `stat` is a failure
-- other than that of a missing file.
pub record Faults : Type 0 where
  pub mkdir_fails : Bool
  pub create_fails : Bool
  pub copy_fails : Bool
  pub remove_fails : Bool
  pub stat_fails : Bool
  pub open_fails : Bool

pub record LocalStorage : Type 0 where
  pub root : Bytes

unfoldable pub storage_path : LocalStorage → Bytes → Bytes
unfolding join
storage_path s oid = join (s.root ∷ oid ∷ [])

-- The deferred removal after an error.
unfoldable pub drop_failed : LocalStorage → Faults → Bytes → Disk → Disk
unfolding storage_path bytes_eq
drop_failed s f oid d = if f.remove_fails then d else remove_file (storage_path s oid) d

-- `content` is what the reader delivers, all of it or up to the failure of the copy.
unfoldable pub upload : LocalStorage → Faults → Bytes → Bytes → Disk → Result StorageError ℕ × Disk
unfolding valid_oid storage_path drop_failed bytes_eq
upload s f oid content d =
    if not (valid_oid oid)
    then (err invalid_oid, d)
    else if f.mkdir_fails
    then (err create_directories, drop_failed s f oid d)
    else if f.create_fails
    then (err create_file, drop_failed s f oid d)
    else let written : Disk = write_file (storage_path s oid) content d in
      if f.copy_fails
      then (err copy_file, drop_failed s f oid written)
      else (ok (length content), written)

abbrev pub contents_of : Faults → Option Bytes → Result StorageError Bytes
contents_of f none = err (if f.stat_fails then open_file else object_not_exist)
contents_of f (some content) =
    if f.open_fails then err open_file else if f.copy_fails then err copy_file else ok content

-- The contents written to the client.
unfoldable pub download : LocalStorage → Faults → Bytes → Disk → Result StorageError Bytes
unfolding storage_path
download s f oid d = contents_of f (d (storage_path s oid))

abbrev size_of : Option Bytes → Result StorageError ℕ
size_of none = err object_not_exist
size_of (some content) = ok (length content)

-- Where stat fails for another reason than a missing file, `info` is nil.
unfoldable pub size : LocalStorage → Faults → Bytes → Disk → Result StorageError ℕ
unfolding storage_path
size s f oid d = if f.stat_fails then err nil_info_panics else size_of (d (storage_path s oid))
