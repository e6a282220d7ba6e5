-- ===== src/Locks/Families.antt =====
-- utils/cache.go: the three maps of locks, and the functions that the rest of the server calls.
use gitopia_storage.Prelude.{ℕ, String, Bool, Option, none, some, nat_eq, string_eq}
use gitopia_storage.Locks.{Registry, lock, unlock, rlock, runlock, in_use}

-- `repoMutexes`, `assetMutexes` and `lfsMutexes`.
pub record LockMaps : Type 0 where
  pub repos : Registry ℕ
  pub assets : Registry String
  pub lfs : Registry String

abbrev with_repos : LockMaps → Option (Registry ℕ) → Option LockMaps
with_repos maps none = none
with_repos maps (some r) = some (record maps { repos = r })

abbrev with_assets : LockMaps → Option (Registry String) → Option LockMaps
with_assets maps none = none
with_assets maps (some r) = some (record maps { assets = r })

abbrev with_lfs : LockMaps → Option (Registry String) → Option LockMaps
with_lfs maps none = none
with_lfs maps (some r) = some (record maps { lfs = r })

unfoldable pub lock_repository : ℕ → ℕ → LockMaps → Option LockMaps
unfolding lock
lock_repository repo_id now maps = with_repos maps (lock repo_id now maps.repos)

unfoldable pub unlock_repository : ℕ → LockMaps → Option LockMaps
unfolding unlock
unlock_repository repo_id maps = with_repos maps (unlock repo_id maps.repos)

unfoldable pub rlock_repository : ℕ → ℕ → LockMaps → Option LockMaps
unfolding rlock
rlock_repository repo_id now maps = with_repos maps (rlock repo_id now maps.repos)

unfoldable pub runlock_repository : ℕ → LockMaps → Option LockMaps
unfolding runlock
runlock_repository repo_id maps = with_repos maps (runlock repo_id maps.repos)

unfoldable pub is_repository_in_use : ℕ → LockMaps → Bool
unfolding in_use
is_repository_in_use repo_id maps = in_use repo_id maps.repos

unfoldable pub lock_asset : String → ℕ → LockMaps → Option LockMaps
unfolding lock
lock_asset sha now maps = with_assets maps (lock sha now maps.assets)

unfoldable pub unlock_asset : String → LockMaps → Option LockMaps
unfolding unlock
unlock_asset sha maps = with_assets maps (unlock sha maps.assets)

unfoldable pub rlock_asset : String → ℕ → LockMaps → Option LockMaps
unfolding rlock
rlock_asset sha now maps = with_assets maps (rlock sha now maps.assets)

unfoldable pub runlock_asset : String → LockMaps → Option LockMaps
unfolding runlock
runlock_asset sha maps = with_assets maps (runlock sha maps.assets)

unfoldable pub is_asset_in_use : String → LockMaps → Bool
unfolding in_use
is_asset_in_use sha maps = in_use sha maps.assets

unfoldable pub lock_lfs_object : String → ℕ → LockMaps → Option LockMaps
unfolding lock
lock_lfs_object oid now maps = with_lfs maps (lock oid now maps.lfs)

unfoldable pub unlock_lfs_object : String → LockMaps → Option LockMaps
unfolding unlock
unlock_lfs_object oid maps = with_lfs maps (unlock oid maps.lfs)

unfoldable pub rlock_lfs_object : String → ℕ → LockMaps → Option LockMaps
unfolding rlock
rlock_lfs_object oid now maps = with_lfs maps (rlock oid now maps.lfs)

unfoldable pub runlock_lfs_object : String → LockMaps → Option LockMaps
unfolding runlock
runlock_lfs_object oid maps = with_lfs maps (runlock oid maps.lfs)

unfoldable pub is_lfs_object_in_use : String → LockMaps → Bool
unfolding in_use
is_lfs_object_in_use oid maps = in_use oid maps.lfs
