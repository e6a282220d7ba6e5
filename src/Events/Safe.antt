-- ===== src/Events/Safe.antt =====
-- handler: each handler's run is justified, call by call.
use gitopia_storage.Prelude.{
  ℕ, ◌≡◌, refl, ap, ◌∙◌, arith, Bool, not, ◌&&◌, some, [], ◌∷◌, ◌++◌, ◌==◌, if◌then◌else◌,
  All-append, inl, inr, Bool-cases,
}
use gitopia_storage.Text.{Bytes, bytes_eq}
use gitopia_storage.Events.{
  Env, Run, done, and_then, with_count, unpin_logged, has_providers, runlocked,
}
use gitopia_storage.Events.Paths.{join, base}
use gitopia_storage.Events.Packfile.{
  PackfileUpdatedEvent, packfile_name, packfile_path, process_packfile, pin_new, pin_cached,
  pins_new, unpin_old, unpin_deleted, unpin_unused, unlock_deferred, counted_once,
}
use gitopia_storage.Events.Lfs.{
  LfsObjectUpdatedEvent, lfs_name, process_lfs, unpin_object, pin_object, download_and_pin,
}
use gitopia_storage.Events.Justified.{
  Owned, Justified, Good, if-Good, either-Good, either-Good, and_then-Good, with_count-Good,
  pin_logged-Good, unused-Good, packfile_content, lfs_content,
}

module _ (env : Env) (e : PackfileUpdatedEvent) where
  pin_cached-Good :
      env.ref_count e.new_cid ≡ some 1 → Good env (packfile_content env e) (pin_cached env e)
  unfolding pin_cached
  pin_cached-Good h = elim (Bool-cases (env.cache_repository e.repository_id)) [
    | inl c ↦ rw c (
      tt,
      (
        tt,
        pin_logged-Good env (packfile_content env e) (packfile_path env e)
            (packfile_name (base (packfile_path env e))) (e.new_cid, (inl (refl, refl), h)),
      ),
    )
    | inr c ↦ rw c (tt, (tt, tt))
  ]

  pin_new-Good : Good env (packfile_content env e) (pin_new env e)
  unfolding pin_new
  pin_new-Good =
      let next : ℕ → Run = λ n. if n == 1 then pin_cached env e else done in
      if-Good env (packfile_content env e) (pins_new env e) (with_count env e.new_cid next) (λ _.
        with_count-Good env (packfile_content env e) e.new_cid next (λ n h.
          if-Good env (packfile_content env e) (n == 1) (pin_cached env e)
            (λ g. pin_cached-Good (h ∙ ap some (ground arith)))))

  unpin_unused-Good :
      (cid name : Bytes)
      → Owned (packfile_content env e) cid (packfile_name name)
      → Good env (packfile_content env e) (unpin_unused env cid name)
  unfolding unpin_unused
  unpin_unused-Good cid name o =
      unused-Good env (packfile_content env e) cid (packfile_name name)
        (λ n. n == 0 && has_providers env.providers) o (λ n h. ground arith)

  unlock_deferred-Good :
      (r : Run)
      → Good env (packfile_content env e) r
      → Good env (packfile_content env e) (unlock_deferred env e r)
  unfolding unlock_deferred
  unlock_deferred-Good (calls, error) g =
      either-Good env (packfile_content env e)
        (pins_new env e && counted_once (env.ref_count e.new_cid))
        (calls ++ runlocked e.repository_id ∷ [], error) (calls, error)
        (All-append (Justified env (packfile_content env e)) calls (runlocked e.repository_id ∷ [])
          g (tt, tt))
        g

  unpin_old-Good : Good env (packfile_content env e) (unpin_old env e)
  unfolding unpin_old
  unpin_old-Good =
      if-Good env (packfile_content env e)
        (not (bytes_eq e.old_cid []) && not (bytes_eq e.old_cid e.new_cid))
        (unpin_unused env e.old_cid e.old_name)
        (λ _. unpin_unused-Good e.old_cid e.old_name (inr (inl (refl, refl))))

  unpin_deleted-Good : Good env (packfile_content env e) (unpin_deleted env e)
  unfolding unpin_deleted
  unpin_deleted-Good =
      if-Good env (packfile_content env e) e.deleted (unpin_unused env e.new_cid e.new_name)
        (λ _. unpin_unused-Good e.new_cid e.new_name (inr (inr (inl (refl, refl)))))

  pub process_packfile-Good : Good env (packfile_content env e) (process_packfile env e)
  unfolding process_packfile
  process_packfile-Good =
      let r = and_then (unpin_old env e) (unpin_deleted env e) in
      let g : Good env (packfile_content env e) r =
        and_then-Good env (packfile_content env e) (unpin_old env e) (unpin_deleted env e)
          unpin_old-Good unpin_deleted-Good in
      unlock_deferred-Good (and_then (pin_new env e) r)
        (and_then-Good env (packfile_content env e) (pin_new env e) r pin_new-Good g)

module _ (env : Env) (e : LfsObjectUpdatedEvent) where
  unpin_object-Good : Good env (lfs_content e) (unpin_object env e)
  unfolding unpin_object
  unpin_object-Good =
      let guard : ℕ → Bool = λ n. n == 0 && has_providers env.providers in
      if-Good env (lfs_content e) (not (bytes_eq e.oid []) && has_providers env.providers)
        (with_count env e.cid (λ n. if guard n then unpin_logged env (lfs_name e.oid) else done))
        (λ _.
          unused-Good env (lfs_content e) e.cid (lfs_name e.oid) guard (inl (refl, refl))
            (λ n h. ground arith))

  download_and_pin-Good :
      env.ref_count e.cid ≡ some 1 → Good env (lfs_content e) (download_and_pin env e)
  unfolding download_and_pin
  download_and_pin-Good h =
      let pin =
        pin_logged-Good env (lfs_content e) (join (env.lfs_dir ∷ e.oid ∷ [])) (lfs_name e.oid)
          (e.cid, (inl (refl, refl), h)) in
      elim (Bool-cases (env.is_lfs_cached e.oid)) [ inl c ↦ rw c pin | inr c ↦ rw c (tt, pin) ]

  pin_object-Good : Good env (lfs_content e) (pin_object env e)
  unfolding pin_object
  pin_object-Good =
      let next : ℕ → Run = λ n. if n == 1 then download_and_pin env e else done in
      if-Good env (lfs_content e) (not (bytes_eq e.cid []) && has_providers env.providers)
        (with_count env e.cid next)
        (λ _. with_count-Good env (lfs_content e) e.cid next (λ n h.
          if-Good env (lfs_content e) (n == 1) (download_and_pin env e)
            (λ g. download_and_pin-Good (h ∙ ap some (ground arith)))))

  pub process_lfs-Good : Good env (lfs_content e) (process_lfs env e)
  unfolding process_lfs
  process_lfs-Good =
      either-Good env (lfs_content e) e.deleted (unpin_object env e) (pin_object env e)
        unpin_object-Good pin_object-Good
