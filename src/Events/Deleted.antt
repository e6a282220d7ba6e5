-- ===== src/Events/Deleted.antt =====
-- handler/repositoryDeleted.go: what the event of a deleted repository makes the process do.
use gitopia_storage.Prelude.{ℕ, not, ◌&&◌, List, [], ◌∷◌, ◌==◌, if◌then◌else◌}
use gitopia_storage.Text.{Bytes, bytes_eq}
use gitopia_storage.Events.{Env, Run, done, and_then, with_count, unpin_logged, has_providers}
use gitopia_storage.Events.Packfile.{packfile_name}
use gitopia_storage.Events.Assets.{asset_name}
use gitopia_storage.Events.Lfs.{lfs_name}

pub record ReleaseAsset : Type 0 where
  pub name : Bytes
  pub cid : Bytes
  pub sha : Bytes
  pub tag : Bytes

pub record LfsObject : Type 0 where
  pub oid : Bytes
  pub cid : Bytes

pub record RepositoryDeletedEvent : Type 0 where
  pub repository_id : ℕ
  pub provider : Bytes
  pub packfile_cid : Bytes
  pub packfile_name : Bytes
  pub release_assets : List ReleaseAsset
  pub lfs_objects : List LfsObject

-- Unpin what nothing refers to, with an early return where the count fails.
unfoldable pub unpin_if_unused : Env → Bytes → Bytes → Run
unfolding with_count unpin_logged
unpin_if_unused env cid name =
    with_count env cid (λ n. if n == 0 then unpin_logged env name else done)

unfoldable pub unpin_packfile : Env → RepositoryDeletedEvent → Run
unfolding bytes_eq has_providers unpin_if_unused packfile_name
unpin_packfile env e =
    if not (bytes_eq e.packfile_cid []) && has_providers env.providers
    then unpin_if_unused env e.packfile_cid (packfile_name e.packfile_name)
    else done

unfoldable pub unpin_assets : Env → List ReleaseAsset → Run
unfolding unpin_if_unused asset_name
unpin_assets env [] = done
unpin_assets env (a ∷ rest) =
    and_then (unpin_if_unused env a.cid (asset_name a.sha)) (unpin_assets env rest)

unfoldable pub unpin_objects : Env → List LfsObject → Run
unfolding unpin_if_unused lfs_name
unpin_objects env [] = done
unpin_objects env (o ∷ os) =
    and_then (unpin_if_unused env o.cid (lfs_name o.oid)) (unpin_objects env os)

unfoldable pub process_deleted : Env → RepositoryDeletedEvent → Run
unfolding unpin_packfile unpin_assets unpin_objects has_providers
process_deleted env e = and_then (unpin_packfile env e) (
    and_then (if has_providers env.providers then unpin_assets env e.release_assets else done)
      (if has_providers env.providers then unpin_objects env e.lfs_objects else done))
