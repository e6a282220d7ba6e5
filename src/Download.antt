-- ===== src/Download.antt =====
-- utils/cache.go, IsReleaseAssetCached to CacheLFSObjects: release assets and LFS objects are fetched
-- from IPFS into files. The disk is a map from paths to contents; what IPFS delivers and what the
-- system refuses is an argument (`Source`). The locks around a download are not modelled here.
pub mod Packfiles
pub mod Forks
pub mod Linked
pub mod Origins
pub mod Depth
pub mod EmptyForks
pub mod Complete
pub mod Objects
mod Tests
use gitopia_storage.Prelude.{
  ℕ, ◌≡◌, refl, Bool, true, false, Option, none, some, List, [], ◌∷◌, ◌++◌, if◌then◌else◌,
}
use gitopia_storage.Text.{Bytes, codes, bytes_eq}
use gitopia_storage.Events.Paths.{join}
use gitopia_storage.Lfs.{Disk, write_file}

-- The answer of IPFS for a cid: no answer, a status other than 200, or a body, which is complete or
-- breaks off after what is given.
pub data Response : Type 0 where
  unreachable : Response
  bad_status : Response
  body : Bytes → Bool → Response

pub data DownloadError : Type 0 where
  failed_fetch : DownloadError
  failed_directory : DownloadError
  failed_create : DownloadError
  failed_write : DownloadError
  failed_query : DownloadError

pub record Source : Type 0 where
  pub ipfs : Bytes → Response
  pub mkdir_works : Bytes → Bool
  pub create_works : Bytes → Bool
  pub attachment_dir : Bytes
  pub lfs_dir : Bytes

-- An error, and the disk afterwards.
abbrev pub Outcome : Type 0
Outcome = Option DownloadError × Disk

abbrev pub is_there : Option Bytes → Bool
is_there none = false
is_there (some content) = true

-- A file that breaks off stays.
abbrev pub save : Bool → Bool → Bytes → Response → Disk → Outcome
save mkdir create path unreachable d = (some failed_fetch, d)
save mkdir create path bad_status d = (some failed_fetch, d)
save false create path (body content complete) d = (some failed_directory, d)
save true false path (body content complete) d = (some failed_create, d)
save true true path (body content false) d = (some failed_write, write_file path content d)
save true true path (body content true) d = (none, write_file path content d)

unfoldable pub asset_path : Source → Bytes → Bytes
asset_path s sha256 = s.attachment_dir ++ (b'/' ∷ sha256)

unfoldable pub is_release_asset_cached : Source → Bytes → Disk → Bool
unfolding asset_path
is_release_asset_cached s sha256 d = is_there (d (asset_path s sha256))

unfoldable pub download_release_asset : Source → Bytes → Bytes → Disk → Outcome
unfolding asset_path bytes_eq
download_release_asset s cid sha256 d =
    save true (s.create_works (asset_path s sha256)) (asset_path s sha256) (s.ipfs cid) d

-- The chain's answer is the cid and the digest of the asset, or an error.
unfoldable pub cache_release_asset : Source → Option (Bytes × Bytes) → Disk → Outcome
unfolding is_release_asset_cached download_release_asset
cache_release_asset s none d = (some failed_query, d)
cache_release_asset s (some (cid, sha256)) d =
    if is_release_asset_cached s sha256 d then (none, d) else download_release_asset s cid sha256 d

unfoldable pub lfs_path : Source → Bytes → Bytes
unfolding join
lfs_path s oid = join (s.lfs_dir ∷ oid ∷ [])

unfoldable pub is_lfs_object_cached : Source → Bytes → Disk → Bool
is_lfs_object_cached s oid d = is_there (d (lfs_path s oid))

-- The test is made again under the lock.
unfoldable pub download_lfs_object : Source → Bytes → Bytes → Disk → Outcome
unfolding bytes_eq
download_lfs_object s cid oid d =
    let path = lfs_path s oid in
    if is_there (d path)
    then (none, d)
    else save (s.mkdir_works path) (s.create_works path) path (s.ipfs cid) d

pub record LfsObject : Type 0 where
  pub oid : Bytes
  pub cid : Bytes

unfoldable pub cache_lfs_object : Source → LfsObject → Disk → Outcome
unfolding is_lfs_object_cached download_lfs_object
cache_lfs_object s o d =
    if is_lfs_object_cached s o.oid d then (none, d) else download_lfs_object s o.cid o.oid d

-- What follows, unless there was an error.
abbrev pub then_rest : Outcome → (Disk → Outcome) → Outcome
then_rest (some e, after) rest = (some e, after)
then_rest (none, after) rest = rest after

-- The loop stops at the first error.
unfoldable pub cache_each : Source → List LfsObject → Disk → Outcome
cache_each s [] d = (none, d)
cache_each s (o ∷ os) d = then_rest (cache_lfs_object s o d) (cache_each s os)

unfoldable pub cache_lfs_objects : Source → Option (List LfsObject) → Disk → Outcome
unfolding cache_each
cache_lfs_objects s none d = (some failed_query, d)
cache_lfs_objects s (some os) d = cache_each s os d
