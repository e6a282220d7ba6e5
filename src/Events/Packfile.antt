-- ===== src/Events/Packfile.antt =====
-- handler/packfileUpdated.go: what one event of a changed packfile makes the process do. Three parts
-- in a row, with the early returns of each; the read lock is given back when the handler returns.
use gitopia_storage.Prelude.{
  ℕ, Bool, false, not, ◌&&◌, Option, none, some, [], ◌∷◌, ◌++◌, ◌==◌, if◌then◌else◌,
}
use gitopia_storage.Text.{Bytes, codes, bytes_eq}
use gitopia_storage.Events.{
  rlocked, runlocked, cached_repository, Env, Run, cache_failed, done, calls_first, and_then,
  with_count, pin_logged, unpin_logged, has_providers,
}
use gitopia_storage.Events.Paths.{join, base, decimal}

pub record PackfileUpdatedEvent : Type 0 where
  pub repository_id : ℕ
  pub new_cid : Bytes
  pub old_cid : Bytes
  pub new_name : Bytes
  pub old_name : Bytes
  pub deleted : Bool

unfoldable pub packfile_path : Env → PackfileUpdatedEvent → Bytes
unfolding join decimal
packfile_path env e =
    join (env.repos_dir ∷ (decimal e.repository_id ++ codes ".git/objects/pack/") ∷ e.new_name ∷ [])

unfoldable pub packfile_name : Bytes → Bytes
packfile_name name = codes "packfiles/" ++ name

unfoldable pub pins_new : Env → PackfileUpdatedEvent → Bool
unfolding bytes_eq has_providers
pins_new env e = not (bytes_eq e.new_cid []) && (not e.deleted && has_providers env.providers)

-- With the read lock of the repository, which is cached first.
unfoldable pub pin_cached : Env → PackfileUpdatedEvent → Run
unfolding pin_logged packfile_path packfile_name base
pin_cached env e =
    let path = packfile_path env e in
    calls_first (rlocked e.repository_id ∷ cached_repository e.repository_id ∷ []) (
      if env.cache_repository e.repository_id
      then pin_logged env path (packfile_name (base path))
      else ([], some cache_failed))

unfoldable pub pin_new : Env → PackfileUpdatedEvent → Run
unfolding pins_new pin_cached with_count
pin_new env e =
    if pins_new env e
    then with_count env e.new_cid (λ n. if n == 1 then pin_cached env e else done)
    else done

unfoldable pub unpin_unused : Env → Bytes → Bytes → Run
unfolding with_count has_providers unpin_logged packfile_name
unpin_unused env cid name = with_count env cid (λ n.
    if n == 0 && has_providers env.providers then unpin_logged env (packfile_name name) else done)

unfoldable pub unpin_old : Env → PackfileUpdatedEvent → Run
unfolding bytes_eq unpin_unused
unpin_old env e =
    if not (bytes_eq e.old_cid []) && not (bytes_eq e.old_cid e.new_cid)
    then unpin_unused env e.old_cid e.old_name
    else done

unfoldable pub unpin_deleted : Env → PackfileUpdatedEvent → Run
unfolding unpin_unused
unpin_deleted env e = if e.deleted then unpin_unused env e.new_cid e.new_name else done

unfoldable pub counted_once : Option ℕ → Bool
counted_once none = false
counted_once (some n) = n == 1

-- The deferred unlock, behind whatever the rest of the handler does.
unfoldable pub unlock_deferred : Env → PackfileUpdatedEvent → Run → Run
unfolding pins_new counted_once
unlock_deferred env e (calls, error) =
    if pins_new env e && counted_once (env.ref_count e.new_cid)
    then (calls ++ runlocked e.repository_id ∷ [], error)
    else (calls, error)

unfoldable pub process_packfile : Env → PackfileUpdatedEvent → Run
unfolding pin_new unpin_old unpin_deleted unlock_deferred
process_packfile env e =
    unlock_deferred env e
      (and_then (pin_new env e) (and_then (unpin_old env e) (unpin_deleted env e)))
