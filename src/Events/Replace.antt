-- ===== src/Events/Replace.antt =====
-- handler/packfileUpdated.go: the whole run of the handler where a packfile replaces another.
use mathlib.Core.List.{append-nil}
use gitopia_storage.Prelude.{◌≡◌, refl, ap, true, false, none, some, [], ◌∷◌, ◌++◌, map}
use gitopia_storage.Text.{bytes_eq}
use gitopia_storage.Events.{
  Provider, pinned, unpinned, counted, rlocked, runlocked, cached_repository, Env, has_providers,
  with_count,
}
use gitopia_storage.Events.Paths.{base}
use gitopia_storage.Events.Packfile.{
  PackfileUpdatedEvent, packfile_name, packfile_path, process_packfile, pin_new, pin_cached,
  pins_new, unpin_old, unpin_deleted, unpin_unused, unlock_deferred, counted_once,
}
use gitopia_storage.Events.Pinning.{pin_file_lem}

module _ (env : Env) where
  -- Where an event replaces a packfile (its two content ids differ and neither is empty, it is not
  -- a deletion, the new content has one reference and the old has none, there are providers and the
  -- repository can be cached), the handler succeeds, and its calls are: the count of the new
  -- content; under the read lock, which it holds until the end, the caching of the repository and
  -- the pin of the packfile with every provider; the count of the old content, and its unpin with
  -- every provider.
  pub process_packfile-replaces :
      (e : PackfileUpdatedEvent)
      → has_providers env.providers ≡ true
      → e.deleted ≡ false
      → bytes_eq e.new_cid [] ≡ false
      → bytes_eq e.old_cid [] ≡ false
      → bytes_eq e.old_cid e.new_cid ≡ false
      → env.ref_count e.new_cid ≡ some 1
      → env.ref_count e.old_cid ≡ some 0
      → env.cache_repository e.repository_id ≡ true
      → process_packfile env e ≡ (
        (counted e.new_cid (some 1)
              ∷ rlocked e.repository_id
              ∷ cached_repository e.repository_id
              ∷ (map
                    (λ (p : Provider).
                      pinned p.name
                        (packfile_path env e)
                        (packfile_name (base (packfile_path env e))))
                    env.providers
                  ++ counted e.old_cid (some 0)
                    ∷ map
                        (λ (p : Provider). unpinned p.name (packfile_name e.old_name))
                        env.providers))
            ++ runlocked e.repository_id ∷ [],
        none,
      )
  unfolding process_packfile pin_new pin_cached pins_new unpin_old unpin_deleted unpin_unused
      unlock_deferred counted_once with_count
  process_packfile-replaces e providers kept new old apart one zero_ cached =
      let pins =
        (pin_file_lem env.providers (packfile_path env e)
          (packfile_name (base (packfile_path env e)))).0 in
      let unpins = ap (λ r. r.0) (pin_file_lem env.providers [] (packfile_name e.old_name)).2 in
      rw
        (
          providers,
          kept,
          new,
          old,
          apart,
          one,
          zero_,
          cached,
          pins,
          unpins,
          append-nil
              (map (λ (p : Provider). unpinned p.name (packfile_name e.old_name)) env.providers),
        )
        refl
