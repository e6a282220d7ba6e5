-- ===== src/Events/Lfs.antt =====
-- handler/lfsObjectUpdated.go: what one event of a changed LFS object makes the process do.
use gitopia_storage.Prelude.{ℕ, Bool, not, ◌&&◌, [], ◌∷◌, ◌++◌, ◌==◌, if◌then◌else◌}
use gitopia_storage.Text.{Bytes, codes, bytes_eq}
use gitopia_storage.Events.{
  downloaded_lfs, Env, Run, done, calls_first, with_count, pin_logged, unpin_logged, has_providers,
}
use gitopia_storage.Events.Paths.{join}

pub record LfsObjectUpdatedEvent : Type 0 where
  pub repository_id : ℕ
  pub oid : Bytes
  pub cid : Bytes
  pub deleted : Bool

unfoldable pub lfs_name : Bytes → Bytes
lfs_name oid = codes "lfs-objects/" ++ oid

unfoldable pub unpin_object : Env → LfsObjectUpdatedEvent → Run
unfolding bytes_eq has_providers with_count unpin_logged lfs_name
unpin_object env e =
    if not (bytes_eq e.oid []) && has_providers env.providers
    then with_count env e.cid (λ n.
      if n == 0 && has_providers env.providers then unpin_logged env (lfs_name e.oid) else done)
    else done

-- The download's error is logged only: the pin is tried all the same.
unfoldable pub download_and_pin : Env → LfsObjectUpdatedEvent → Run
unfolding pin_logged lfs_name join
download_and_pin env e =
    calls_first (if env.is_lfs_cached e.oid then [] else downloaded_lfs e.cid e.oid ∷ [])
      (pin_logged env (join (env.lfs_dir ∷ e.oid ∷ [])) (lfs_name e.oid))

unfoldable pub pin_object : Env → LfsObjectUpdatedEvent → Run
unfolding bytes_eq has_providers with_count download_and_pin
pin_object env e =
    if not (bytes_eq e.cid []) && has_providers env.providers
    then with_count env e.cid (λ n. if n == 1 then download_and_pin env e else done)
    else done

unfoldable pub process_lfs : Env → LfsObjectUpdatedEvent → Run
unfolding unpin_object pin_object
process_lfs env e = if e.deleted then unpin_object env e else pin_object env e
