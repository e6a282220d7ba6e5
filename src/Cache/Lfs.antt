-- ===== src/Cache/Lfs.antt =====
-- utils/cache_manager.go: the LFS objects' variant of the clearing, which sorts its first listing
-- again instead of a second one, and the three clearings in a row.
use gitopia_storage.Prelude.{
  ℕ, String, Bool, false, ◌&&◌, ◌||◌, Option, none, some, List, [], ◌∷◌, str_eq, if◌then◌else◌,
}
use gitopia_storage.Cache.{
  Cleared, by_size, Node, Dir, Os, Policy, EntryInfo, CacheError, read_lfs_dir, remove, scan,
  is_free, sub64, lt64, clear_repository_cache, clear_asset_cache,
}

-- `entry.Info()` finds a file that is still there.
unfoldable pub is_there : String → Dir → Bool
is_there name [] = false
is_there name (n ∷ ns) = str_eq n.name name || is_there name ns

unfoldable pub evict_lfs : Os → Policy → List Node → Dir × ℕ → Dir × ℕ
unfolding remove
evict_lfs os p [] s = s
evict_lfs os p (n ∷ ns) (dir, total) =
    let next = evict_lfs os p ns (
      if is_free os p by_size n && (is_there n.name dir && os.remove_ok n.name)
      then (remove n.name dir, sub64 total n.size)
      else (dir, total)) in
    if lt64 p.max_size total then next else (dir, total)

-- The order of `sort.Slice` depends on the files that are still there.
unfoldable pub clear_lfs_cache : Os → (Dir → List Node → List Node) → Policy → Dir → Cleared
unfolding scan evict_lfs
clear_lfs_cache os sort_entries p dir =
    if os.readable
    then (let (left, total) = scan os p dir (dir, 0) in
        if lt64 p.max_size total
        then (none, (evict_lfs os p (sort_entries left dir) (left, total)).0)
        else (none, left))
    else (some read_lfs_dir, dir)

pub record Caches : Type 0 where
  pub repos : Dir
  pub assets : Dir
  pub lfs : Dir

pub record Policies : Type 0 where
  pub repos : Policy
  pub assets : Policy
  pub lfs : Policy

-- Each directory has its own answers. The first error ends the clearing.
module _ (os_repos os_assets os_lfs : Os) (sort : List EntryInfo → List EntryInfo)
    (sort_entries : Dir → List Node → List Node) where
  after_lfs : Caches → Cleared → Option CacheError × Caches
  after_lfs c (e, dir) = (e, record c { lfs = dir })

  after_assets : Policies → Caches → Cleared → Option CacheError × Caches
  unfolding after_lfs
  after_assets p c (some e, dir) = (some e, record c { assets = dir })
  after_assets p c (none, dir) =
      after_lfs (record c { assets = dir }) (clear_lfs_cache os_lfs sort_entries p.lfs c.lfs)

  after_repos : Policies → Caches → Cleared → Option CacheError × Caches
  unfolding after_assets
  after_repos p c (some e, dir) = (some e, record c { repos = dir })
  after_repos p c (none, dir) =
      after_assets p (record c { repos = dir }) (clear_asset_cache os_assets sort p.assets c.assets)

  unfoldable pub clear_cache : Policies → Caches → Option CacheError × Caches
  unfolding after_repos
  clear_cache p c = after_repos p c (clear_repository_cache os_repos sort p.repos c.repos)
