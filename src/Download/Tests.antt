-- ===== src/Download/Tests.antt =====
-- The caching of LFS objects (utils/cache.go) at concrete objects.
use gitopia_storage.Prelude.{
  ℕ, zero, suc, ltb, some-inj, subst, ◌≡◌, ◌<◌, refl, arith, true, false, Option, none, some, [],
  ◌∷◌, ◌==◌, All, if◌then◌else◌,
}
use gitopia_storage.Text.{Bytes, codes, bytes_eq}
use gitopia_storage.App.{answered}
use gitopia_storage.Sync.{Git, Refs, waited}
use gitopia_storage.Events.Paths.{join, decimal, decimal_digits}
use gitopia_storage.Lfs.{Disk}
use gitopia_storage.Download.{
  LfsObject, Source, Response, bad_status, body, failed_write, cache_each, cache_lfs_object,
  cache_lfs_objects, lfs_path,
}
use gitopia_storage.Download.Objects.{Stored}
use gitopia_storage.Download.Complete.{Origin, broken_download-kept, cache_lfs_objects-Stored}
use gitopia_storage.Download.Packfiles.{
  Cache, Env, Repository, alternates_path, cache_repository, cached_answer, download_packfile,
  download_repository_packfile, fetch_packfile, init_repository, is_repository_packfile_cached,
  link_parent, objects_dir, out_of_fuel, pack_path, repo_dir, server_cache_repository,
  write_alternates,
}
use gitopia_storage.Download.Forks.{Lineage}
use gitopia_storage.Download.Origins
use gitopia_storage.Download.Origins.{download_repository_packfile-Linked}
use gitopia_storage.Download.Depth.{ForkedLater, download_repository_packfile-Fuelled}
use gitopia_storage.Download.EmptyForks.{empty_fork-refused}

abbrev answers : Response → Source
answers r = record {
  ipfs = λ cid. r;
  mkdir_works = λ path. true;
  create_works = λ path. true;
  attachment_dir = codes "/a";
  lfs_dir = codes "/l";
}

abbrev complete : Source
complete = answers (body (codes "data") true)

abbrev broken : Source
broken = answers (body (codes "da") false)

abbrev empty_disk : Disk
empty_disk path = none

abbrev first : LfsObject
first = record { oid = codes "o1"; cid = codes "c1" }

abbrev second : LfsObject
second = record { oid = codes "o2"; cid = codes "c2" }

two_objects-fine : (cache_lfs_objects complete (some (first ∷ second ∷ [])) empty_disk).0 ≡ none
unfolding cache_lfs_objects cache_each cache_lfs_object lfs_path join bytes_eq
two_objects-fine = refl

cache_lfs_objects-Stored_example :
    All
      (λ o.
        Stored
          (cache_lfs_objects complete (some (first ∷ second ∷ [])) empty_disk).1
          (lfs_path complete o.oid))
      (first ∷ second ∷ [])
    × Origin complete empty_disk
        (cache_lfs_objects complete (some (first ∷ second ∷ [])) empty_disk).1
        (codes "/l/o1")
        (first ∷ second ∷ [])
cache_lfs_objects-Stored_example =
    cache_lfs_objects-Stored complete (first ∷ second ∷ []) empty_disk (codes "/l/o1")
      two_objects-fine

broken_download-kept_example :
    ((cache_lfs_object broken first empty_disk).0 ≡ some failed_write)
    × ((cache_lfs_object complete first (cache_lfs_object broken first empty_disk).1).0 ≡ none)
    × ((cache_lfs_object complete first (cache_lfs_object broken first empty_disk).1).1
          (lfs_path broken first.oid)
        ≡ some (codes "da"))
broken_download-kept_example =
    broken_download-kept broken complete first (codes "da") empty_disk refl refl refl refl refl

-- Each repository is a fork of the one before, and the third has no cid.
abbrev repositories : ℕ → Option Repository
repositories zero = none
repositories (suc id) = some (record { id = suc id; fork = ltb 0 id; parent = id })

abbrev env : Env
env = record {
  connects = true;
  repository = repositories;
  packfile =
      λ id. answered (record { cid = if id == 3 then [] else codes "cid"; name = codes "p.pack" });
  ipfs = λ cid. if bytes_eq cid [] then bad_status else body (codes "PACK") true;
  init_works = λ path. true;
  mkdir_works = λ path. true;
  create_works = λ path. true;
  write_works = λ path. true;
  indexes = λ path. true;
  cache_dir = codes "/c";
}

abbrev nothing_cached : Cache
nothing_cached = record { dirs = λ path. false; files = empty_disk }

fork-fine : (download_repository_packfile env 3 2 nothing_cached).0 ≡ none
unfolding download_repository_packfile init_repository link_parent fetch_packfile repo_dir join
    decimal decimal_digits objects_dir is_repository_packfile_cached cached_answer pack_path
    write_alternates alternates_path download_packfile bytes_eq
fork-fine = refl

-- the file that links the fork with its parent
fork_link :
    (download_repository_packfile env 3 2 nothing_cached).1.files
      (codes "/c/2.git/objects/info/alternates")
    ≡ some (codes "/c/1.git/objects\n")
unfolding download_repository_packfile init_repository link_parent fetch_packfile repo_dir join
    decimal decimal_digits objects_dir is_repository_packfile_cached cached_answer pack_path
    write_alternates alternates_path download_packfile bytes_eq
fork_link = refl

download_repository_packfile-Linked_example :
    ((path : Bytes)
      → Origins.Origin env empty_disk
          (download_repository_packfile env 3 2 nothing_cached).1.files
          path)
    × ((download_repository_packfile env 3 2 nothing_cached).0 ≡ none
        → Lineage env (download_repository_packfile env 3 2 nothing_cached).1.files 3 2)
download_repository_packfile-Linked_example =
    download_repository_packfile-Linked env 3 2 nothing_cached

repositories-ForkedLater : ForkedLater env
repositories-ForkedLater zero r e fork = ground (arith, e)
repositories-ForkedLater (suc id) r e fork =
    subst (λ (z : Repository). z.parent < suc id) (some-inj e) (omega arith)

download_repository_packfile-Fuelled_example :
    ¬ ((download_repository_packfile env 3 2 nothing_cached).0 ≡ some out_of_fuel)
    × (download_repository_packfile env 9 2 nothing_cached
        ≡ download_repository_packfile env 3 2 nothing_cached)
download_repository_packfile-Fuelled_example =
    download_repository_packfile-Fuelled env 3 9 2 nothing_cached repositories-ForkedLater
      (omega arith) (omega arith)

abbrev git : Git
git = record {
  accepts = λ refs r. true;
  accepts_batch = λ refs rs. true;
  update_process = λ r. waited;
  batch_process = waited;
  written = 0;
}

abbrev no_refs : Refs
no_refs name = none

empty_fork-refused_example :
    ((cache_repository env git (some []) (some []) 4 3 nothing_cached no_refs).0 ≡ none)
    × ¬ (
        (server_cache_repository env git complete
          (some [])
          (some [])
          (some [])
          4
          3
          nothing_cached
          no_refs).0
        ≡ none)
unfolding bytes_eq
empty_fork-refused_example =
    empty_fork-refused env 3 (record { cid = []; name = codes "p.pack" })
      (record { id = 3; fork = true; parent = 2 }) git complete [] [] (some []) 4 nothing_cached
      no_refs refl refl refl refl refl refl
