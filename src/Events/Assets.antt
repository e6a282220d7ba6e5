-- ===== src/Events/Assets.antt =====
-- handler/releaseAssetsUpdated.go: what one event of changed release assets makes the process do, one
-- asset after the other. Where a count fails, an unpin goes on with the next asset, and a pin
-- returns.
use gitopia_storage.Prelude.{ℕ, Bool, not, ◌&&◌, none, List, [], ◌∷◌, ◌++◌, ◌==◌, if◌then◌else◌}
use gitopia_storage.Text.{Bytes, codes, bytes_eq}
use gitopia_storage.Events.{
  cached_asset, Env, Run, done, calls_first, and_then, with_count, pin_logged, unpin_logged,
  has_providers,
}
use gitopia_storage.Events.Paths.{join}

pub record ReleaseAssetUpdate : Type 0 where
  pub name : Bytes
  pub cid : Bytes
  pub old_cid : Bytes
  pub sha256 : Bytes
  pub old_sha256 : Bytes
  pub delete : Bool

pub record ReleaseAssetsUpdatedEvent : Type 0 where
  pub repository_id : ℕ
  pub tag : Bytes
  pub assets : List ReleaseAssetUpdate
  pub provider : Bytes

unfoldable pub asset_name : Bytes → Bytes
asset_name sha256 = codes "release-assets/" ++ sha256

-- `continue` behind an error.
abbrev pub continued : Run → Run
continued (calls, e) = (calls, none)

unfoldable pub unpin_asset : Env → Bytes → Bytes → Run
unfolding with_count has_providers unpin_logged asset_name
unpin_asset env cid sha256 = continued (
    with_count env cid (λ n.
      if n == 0 && has_providers env.providers then unpin_logged env (asset_name sha256) else done))

unfoldable pub pin_asset : Env → ReleaseAssetsUpdatedEvent → ReleaseAssetUpdate → Run
unfolding bytes_eq has_providers with_count pin_logged asset_name join
pin_asset env e a =
    if not (bytes_eq a.cid []) && has_providers env.providers
    then with_count env a.cid (λ n.
      if n == 1
      then calls_first (cached_asset e.repository_id e.tag a.name ∷ [])
          (pin_logged env (join (env.attachment_dir ∷ a.sha256 ∷ [])) (asset_name a.sha256))
      else done)
    else done

unfoldable pub unpin_replaced : Env → ReleaseAssetUpdate → Run
unfolding bytes_eq has_providers unpin_asset
unpin_replaced env a =
    if not (bytes_eq a.old_cid [])
      && (not (bytes_eq a.old_cid a.cid) && has_providers env.providers)
    then unpin_asset env a.old_cid a.old_sha256
    else done

unfoldable pub process_asset : Env → ReleaseAssetsUpdatedEvent → ReleaseAssetUpdate → Run
unfolding unpin_asset pin_asset unpin_replaced
process_asset env e a =
    if a.delete
    then unpin_asset env a.old_cid a.old_sha256
    else and_then (pin_asset env e a) (unpin_replaced env a)

unfoldable pub process_each : Env → ReleaseAssetsUpdatedEvent → List ReleaseAssetUpdate → Run
unfolding process_asset
process_each env e [] = done
process_each env e (a ∷ rest) = and_then (process_asset env e a) (process_each env e rest)

unfoldable pub process_assets : Env → ReleaseAssetsUpdatedEvent → Run
unfolding process_each
process_assets env e = process_each env e e.assets
