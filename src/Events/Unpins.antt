-- ===== src/Events/Unpins.antt =====
-- handler: the runs over the assets and objects of an event, and the handlers together.
use gitopia_storage.Prelude.{
  ℕ, refl, ap, ◌∙◌, arith, not, ◌&&◌, some, List, [], ◌∷◌, map, ◌==◌, if◌then◌else◌, All, inl, inr,
}
use gitopia_storage.Text.{Bytes, bytes_eq}
use gitopia_storage.Events.{
  Env, Run, done, calls_first, and_then, with_count, pin_logged, has_providers, cached_asset,
}
use gitopia_storage.Events.Paths.{join}
use gitopia_storage.Events.Packfile.{PackfileUpdatedEvent, packfile_name, process_packfile}
use gitopia_storage.Events.Lfs.{LfsObjectUpdatedEvent, lfs_name, process_lfs}
use gitopia_storage.Events.Assets.{
  ReleaseAssetUpdate, ReleaseAssetsUpdatedEvent, asset_name, process_assets, process_each,
  process_asset, pin_asset, unpin_asset, unpin_replaced,
}
use gitopia_storage.Events.Deleted.{
  ReleaseAsset, LfsObject, RepositoryDeletedEvent, process_deleted, unpin_packfile, unpin_assets,
  unpin_objects, unpin_if_unused,
}
use gitopia_storage.Events.Justified.{
  Owned, Justified, Good, if-Good, either-Good, Good-weaken, Owned-left, Owned-right, and_then-Good,
  with_count-Good, pin_logged-Good, unused-Good, packfile_content, lfs_content, asset_content,
  deleted_content,
}
use gitopia_storage.Events.Safe.{process_packfile-Good, process_lfs-Good}

module _ (env : Env) where
  module _ (owned : List (Bytes × Bytes)) where
    unpin_asset-Good :
        (cid sha : Bytes)
        → Owned owned cid (asset_name sha)
        → Good env owned (unpin_asset env cid sha)
    unfolding unpin_asset
    unpin_asset-Good cid sha o =
        unused-Good env owned cid (asset_name sha) (λ n. n == 0 && has_providers env.providers) o
          (λ n h. ground arith)

    pin_asset-Good :
        (e : ReleaseAssetsUpdatedEvent) (a : ReleaseAssetUpdate)
        → Owned owned a.cid (asset_name a.sha256)
        → Good env owned (pin_asset env e a)
    unfolding pin_asset
    pin_asset-Good e a o =
        let path = join (env.attachment_dir ∷ a.sha256 ∷ []) in
        let pin : Run =
          calls_first (cached_asset e.repository_id e.tag a.name ∷ [])
            (pin_logged env path (asset_name a.sha256)) in
        let next : ℕ → Run = λ n. if n == 1 then pin else done in
        if-Good env owned (not (bytes_eq a.cid []) && has_providers env.providers)
          (with_count env a.cid next)
          (λ _. with_count-Good env owned a.cid next (λ n h. if-Good env owned (n == 1) pin (λ g. (
            tt,
            pin_logged-Good env owned path (asset_name a.sha256)
                (a.cid, (o, h ∙ ap some (ground arith))),
          ))))

    unpin_if_unused-Good :
        (cid name : Bytes) → Owned owned cid name → Good env owned (unpin_if_unused env cid name)
    unfolding unpin_if_unused
    unpin_if_unused-Good cid name o =
        unused-Good env owned cid name (λ n. n == 0) o (λ n h. ground arith)

    process_asset-Good :
        (e : ReleaseAssetsUpdatedEvent) (a : ReleaseAssetUpdate)
        → Owned owned a.cid (asset_name a.sha256)
        → Owned owned a.old_cid (asset_name a.old_sha256)
        → Good env owned (process_asset env e a)
    unfolding process_asset unpin_replaced
    process_asset-Good e a o o' =
        let unpin = unpin_asset-Good a.old_cid a.old_sha256 o' in
        either-Good env owned a.delete (unpin_asset env a.old_cid a.old_sha256)
          (and_then (pin_asset env e a) (unpin_replaced env a)) unpin
          (and_then-Good env owned (pin_asset env e a) (unpin_replaced env a) (pin_asset-Good e a o)
            (if-Good env owned
              (not (bytes_eq a.old_cid [])
                && (not (bytes_eq a.old_cid a.cid) && has_providers env.providers))
              (unpin_asset env a.old_cid a.old_sha256) (λ _. unpin)))

  process_each-Good :
      (e : ReleaseAssetsUpdatedEvent) (as_ : List ReleaseAssetUpdate)
      → Good env (asset_content as_) (process_each env e as_)
  unfolding process_each
  process_each-Good e [] = tt
  process_each-Good e (a ∷ rest) =
      let content = asset_content (a ∷ rest) in
      and_then-Good env content (process_asset env e a) (process_each env e rest)
        (process_asset-Good content e a (inl (refl, refl)) (inr (inl (refl, refl))))
        (Good-weaken env (asset_content rest) content (λ cid name o. inr (inr o))
          (process_each env e rest) (process_each-Good e rest))

  unpin_assets-Good :
      (assets : List ReleaseAsset)
      → Good env
          (map (λ (a : ReleaseAsset). (a.cid, asset_name a.sha)) assets)
          (unpin_assets env assets)
  unfolding unpin_assets
  unpin_assets-Good [] = tt
  unpin_assets-Good (a ∷ rest) =
      let left = map (λ (b : ReleaseAsset). (b.cid, asset_name b.sha)) rest in
      let content = (a.cid, asset_name a.sha) ∷ left in
      and_then-Good env content (unpin_if_unused env a.cid (asset_name a.sha))
        (unpin_assets env rest)
        (unpin_if_unused-Good content a.cid (asset_name a.sha) (inl (refl, refl)))
        (Good-weaken env left content (λ cid name o. inr o) (unpin_assets env rest)
          (unpin_assets-Good rest))

  unpin_objects-Good :
      (objects : List LfsObject)
      → Good env
          (map (λ (o : LfsObject). (o.cid, lfs_name o.oid)) objects)
          (unpin_objects env objects)
  unfolding unpin_objects
  unpin_objects-Good [] = tt
  unpin_objects-Good (a ∷ rest) =
      let left = map (λ (o : LfsObject). (o.cid, lfs_name o.oid)) rest in
      let content = (a.cid, lfs_name a.oid) ∷ left in
      and_then-Good env content (unpin_if_unused env a.cid (lfs_name a.oid))
        (unpin_objects env rest)
        (unpin_if_unused-Good content a.cid (lfs_name a.oid) (inl (refl, refl)))
        (Good-weaken env left content (λ cid name o. inr o) (unpin_objects env rest)
          (unpin_objects-Good rest))

  process_deleted-Good :
      (e : RepositoryDeletedEvent) → Good env (deleted_content e) (process_deleted env e)
  unfolding process_deleted unpin_packfile
  process_deleted-Good e =
      let content = deleted_content e in
      let assets = map (λ (a : ReleaseAsset). (a.cid, asset_name a.sha)) e.release_assets in
      let objects = map (λ (o : LfsObject). (o.cid, lfs_name o.oid)) e.lfs_objects in
      let rest : Run =
        if has_providers env.providers then unpin_assets env e.release_assets else done in
      let last : Run =
        if has_providers env.providers then unpin_objects env e.lfs_objects else done in
      and_then-Good env content (unpin_packfile env e) (and_then rest last)
        (if-Good env content (not (bytes_eq e.packfile_cid []) && has_providers env.providers)
          (unpin_if_unused env e.packfile_cid (packfile_name e.packfile_name))
          (λ _.
            unpin_if_unused-Good content e.packfile_cid (packfile_name e.packfile_name)
              (inl (refl, refl))))
        (and_then-Good env content rest last
          (if-Good env content (has_providers env.providers) (unpin_assets env e.release_assets)
            (λ _.
              Good-weaken env assets content
                (λ cid name o. inr (Owned-left assets objects cid name o))
                (unpin_assets env e.release_assets) (unpin_assets-Good e.release_assets)))
          (if-Good env content (has_providers env.providers) (unpin_objects env e.lfs_objects) (λ _.
            Good-weaken env objects content
              (λ cid name o. inr (Owned-right assets objects cid name o))
              (unpin_objects env e.lfs_objects) (unpin_objects-Good e.lfs_objects))))

  -- Whatever the chain, the caches and the providers answer, each of the four handlers unpins only
  -- content of its event whose reference count on the chain is zero, and pins only content of its
  -- event whose count is one, in both cases under a name of that content. So no content that a
  -- repository still refers to is unpinned.
  pub process-Justified :
      (packfile : PackfileUpdatedEvent) (object : LfsObjectUpdatedEvent)
      (assets : ReleaseAssetsUpdatedEvent) (gone : RepositoryDeletedEvent)
      → All (Justified env (packfile_content env packfile)) (process_packfile env packfile).0
        × All (Justified env (lfs_content object)) (process_lfs env object).0
        × All (Justified env (asset_content assets.assets)) (process_assets env assets).0
        × All (Justified env (deleted_content gone)) (process_deleted env gone).0
  unfolding process_assets
  process-Justified packfile object assets gone = (
    process_packfile-Good env packfile,
    process_lfs-Good env object,
    process_each-Good assets assets.assets,
    process_deleted-Good gone,
  )
