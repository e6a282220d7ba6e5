-- ===== src/Download/Packfiles.antt =====
-- utils/cache.go, IsRepositoryPackfileCached to downloadPackfile, and CacheRepository of
-- internal/app/common.go: the packfile of a repository and those of the repositories that it was
-- forked from are fetched into the cache, and a fork is linked with its parent.
use gitopia_storage.Prelude.{
  ℕ, zero, suc, Bool, true, false, not, ◌&&◌, ◌||◌, Option, none, some, List, [], ◌∷◌, ◌++◌, Result,
  ok, err, if◌then◌else◌,
}
use gitopia_storage.Text.{Bytes, codes, bytes_eq}
use gitopia_storage.Events.Paths.{join, decimal}
use gitopia_storage.App.{Query, answered, failed, contains}
use gitopia_storage.Lfs.{Disk, write_file}
use gitopia_storage.Download.{
  DownloadError, LfsObject, Outcome, Response, Source, cache_lfs_objects, is_there, save,
}
use gitopia_storage.Sync.{Git, Ref, Refs, SyncError, sync_repository_refs}

pub record Repository : Type 0 where
  pub id : ℕ
  pub fork : Bool
  pub parent : ℕ

pub record Packfile : Type 0 where
  pub cid : Bytes
  pub name : Bytes

-- What the chain and IPFS answer and what the system refuses. `indexes` is whether git index-pack is
-- run without an error.
pub record Env : Type 0 where
  pub connects : Bool
  pub repository : ℕ → Option Repository
  pub packfile : ℕ → Query Packfile
  pub ipfs : Bytes → Response
  pub init_works : Bytes → Bool
  pub mkdir_works : Bytes → Bool
  pub create_works : Bytes → Bool
  pub write_works : Bytes → Bool
  pub indexes : Bytes → Bool
  pub cache_dir : Bytes

-- The directories that exist, as far as they are asked for, and the files.
pub record Cache : Type 0 where
  pub dirs : Bytes → Bool
  pub files : Disk

pub data CacheError : Type 0 where
  no_connection failed_query failed_init failed_alternates failed_index failed_refs : CacheError
  download_failed : DownloadError → CacheError
  -- of the model: the fuel is used up
  out_of_fuel : CacheError

abbrev pub Act : Type 0
Act = Cache → Option CacheError × Cache

abbrev pub next : Option CacheError × Cache → Act → Option CacheError × Cache
next (some e, s) act = (some e, s)
next (none, s) act = act s

abbrev pub then_act : Act → Act → Act
then_act first second s = next (first s) second

abbrev pub is_nothing : Bytes → Bool
is_nothing [] = true
is_nothing (c ∷ s) = false

unfoldable pub repo_dir : Env → ℕ → Bytes
unfolding join decimal
repo_dir c id = join (c.cache_dir ∷ (decimal id ++ codes ".git") ∷ [])

unfoldable pub pack_path : Bytes → Bytes → Bytes
unfolding join
pack_path dir name = join (dir ∷ codes "objects" ∷ codes "pack" ∷ name ∷ [])

unfoldable pub alternates_path : Bytes → Bytes
unfolding join
alternates_path dir = join (dir ∷ codes "objects" ∷ codes "info" ∷ codes "alternates" ∷ [])

unfoldable pub objects_dir : Bytes → Bytes
unfolding join
objects_dir dir = join (dir ∷ codes "objects" ∷ [])

-- A packfile with an empty cid is that of an empty repository.
unfoldable pub cached_answer : Env → ℕ → Query Packfile → Cache → Result CacheError Bool
unfolding contains repo_dir pack_path
cached_answer c id (failed text) s =
    if contains text (codes "packfile not found") then ok false else err failed_query
cached_answer c id (answered p) s =
    ok (is_nothing p.cid || is_there (s.files (pack_path (repo_dir c id) p.name)))

unfoldable pub is_repository_packfile_cached : Env → ℕ → Cache → Result CacheError Bool
unfolding cached_answer
is_repository_packfile_cached c id s =
    if c.connects then cached_answer c id (c.packfile id) s else err no_connection

-- The index is built where the file is written.
abbrev pub indexed : Bool → Cache → Outcome → Option CacheError × Cache
indexed works s (some e, d) = (some (download_failed e), record s { files = d })
indexed true s (none, d) = (none, record s { files = d })
indexed false s (none, d) = (some failed_index, record s { files = d })

unfoldable pub download_packfile : Env → Packfile → Bytes → Act
unfolding pack_path
download_packfile c p dir s =
    let path = pack_path dir p.name in
    indexed (c.indexes path) s
      (save (c.mkdir_works path) (c.create_works path) path (c.ipfs p.cid) s.files)

unfoldable pub init_repository : Env → Bytes → Act
unfolding objects_dir bytes_eq
init_repository c dir s =
    if s.dirs (objects_dir dir)
    then (none, s)
    else if c.init_works dir
    then (none, record s { dirs = λ path. bytes_eq path (objects_dir dir) || s.dirs path })
    else (some failed_init, s)

abbrev pub fetch_parent : Act → Result CacheError Bool → Act
fetch_parent fetch (err e) s = (some e, s)
fetch_parent fetch (ok true) s = (none, s)
fetch_parent fetch (ok false) s = fetch s

-- The path of the parent's objects, unless the file is there.
unfoldable pub write_alternates : Env → Repository → Bytes → Act
unfolding alternates_path objects_dir repo_dir bytes_eq
write_alternates c r dir s =
    let path = alternates_path dir in
    if is_there (s.files path)
    then (none, s)
    else if c.write_works path
    then (
      none,
      record s {
        files = write_file path (objects_dir (repo_dir c r.parent) ++ b'\n' ∷ []) s.files;
      },
    )
    else (some failed_alternates, s)

unfoldable pub link_parent : Env → Act → Repository → Bytes → Act
unfolding is_repository_packfile_cached write_alternates
link_parent c fetch r dir s =
    if r.fork
    then then_act (λ t. fetch_parent fetch (is_repository_packfile_cached c r.parent t) t)
        (write_alternates c r dir) s
    else (none, s)

unfoldable pub fetch_packfile : Env → Query Packfile → Bytes → Act
unfolding contains download_packfile
fetch_packfile c (failed text) dir s =
    if contains text (codes "packfile not found") then (none, s) else (some failed_query, s)
fetch_packfile c (answered p) dir s = download_packfile c p dir s

abbrev pub download_found : Env → (ℕ → Act) → ℕ → Option Repository → Act
download_found c fetch id none s = (some failed_query, s)
download_found c fetch id (some r) s =
    let dir = repo_dir c r.id in
    then_act (init_repository c dir)
      (then_act (link_parent c (fetch r.parent) r dir) (fetch_packfile c (c.packfile id) dir)) s

-- The fuel bounds the depth of the forks.
unfoldable pub download_repository_packfile : Env → ℕ → ℕ → Act
unfolding init_repository link_parent fetch_packfile repo_dir
download_repository_packfile c zero id s = (some out_of_fuel, s)
download_repository_packfile c (suc n) id s =
    if c.connects
    then download_found c (download_repository_packfile c n) id (c.repository id) s
    else (some no_connection, s)

-- The error, the cache and the references.
abbrev pub Cached : Type 0
Cached = Option CacheError × (Cache × Refs)

abbrev pub synced : Result SyncError (Refs × List Bytes) → Refs → Option CacheError × Cache → Cached
synced answer refs (some e, s) = (some e, (s, refs))
synced (err e) refs (none, s) = (some failed_refs, (s, refs))
synced (ok (after, names)) refs (none, s) = (none, (s, after))

abbrev pub unless_cached : Result CacheError Bool → Act → Act
unless_cached (err e) fetch s = (some e, s)
unless_cached (ok true) fetch s = (none, s)
unless_cached (ok false) fetch s = fetch s

unfoldable pub cache_repository :
    Env → Git → Option (List Ref) → Option (List Ref) → ℕ → ℕ → Cache → Refs → Cached
unfolding is_repository_packfile_cached download_repository_packfile sync_repository_refs
cache_repository c g branches tags fuel id s refs =
    synced (sync_repository_refs g branches tags refs) refs (
      unless_cached (is_repository_packfile_cached c id s) (download_repository_packfile c fuel id)
        s)

-- CacheRepository of the server asks the chain first; a fork is fetched also without a packfile.
abbrev pub has_packfile : Query Packfile → Bool
has_packfile (failed text) = false
has_packfile (answered p) = not (is_nothing p.cid)

abbrev pub has_file : Env → ℕ → Query Packfile → Cache → Bool
has_file c id (failed text) s = false
has_file c id (answered p) s =
    not (is_nothing p.cid) && is_there (s.files (pack_path (repo_dir c id) p.name))

abbrev pub readable : Query Packfile → Bool
readable (failed text) = contains text (codes "packfile not found")
readable (answered p) = true

unfoldable pub fetch_server : Env → ℕ → ℕ → Option Repository → Act
unfolding download_repository_packfile repo_dir pack_path contains
fetch_server c fuel id none s = (some failed_query, s)
fetch_server c fuel id (some r) s =
    if (has_packfile (c.packfile id) || r.fork) && not (has_file c id (c.packfile id) s)
    then download_repository_packfile c fuel id s
    else (none, s)

abbrev pub with_objects : Outcome → Cache → Refs → Cached
with_objects (some e, d) s refs = (some (download_failed e), (record s { files = d }, refs))
with_objects (none, d) s refs = (none, (record s { files = d }, refs))

abbrev pub then_objects : Source → Option (List LfsObject) → Cached → Cached
then_objects source objects (some e, (s, refs)) = (some e, (s, refs))
then_objects source objects (none, (s, refs)) =
    with_objects (cache_lfs_objects source objects s.files) s refs

unfoldable pub server_cache_repository :
    Env
    → Git
    → Source
    → Option (List Ref)
    → Option (List Ref)
    → Option (List LfsObject)
    → ℕ
    → ℕ
    → Cache
    → Refs
    → Cached
unfolding fetch_server sync_repository_refs contains cache_lfs_objects
server_cache_repository c g source branches tags objects fuel id s refs =
    if readable (c.packfile id)
    then then_objects source objects (
        synced (sync_repository_refs g branches tags refs) refs
          (fetch_server c fuel id (c.repository id) s))
    else (some failed_query, (s, refs))
