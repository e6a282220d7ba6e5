-- ===== src/Events/Tests.antt =====
-- Runs of the handlers, and the theorems applied to small events.
use gitopia_storage.Prelude.{
  ◌≡◌, refl, true, false, none, some, [], ◌∷◌, ok, err, if◌then◌else◌, All,
}
use gitopia_storage.Text.{Bytes, codes, bytes_eq}
use gitopia_storage.Events.{Provider, unpinned, counted, Env}
use gitopia_storage.Events.Paths.{base}
use gitopia_storage.Events.Packfile.{
  PackfileUpdatedEvent, packfile_name, packfile_path, process_packfile,
}
use gitopia_storage.Events.Lfs.{LfsObjectUpdatedEvent, process_lfs}
use gitopia_storage.Events.Assets.{ReleaseAssetsUpdatedEvent, process_assets}
use gitopia_storage.Events.Deleted.{RepositoryDeletedEvent, process_deleted}
use gitopia_storage.Events.Extract.{Attribute, strings, unmarshal}
use gitopia_storage.Events.Justified.{
  Justified, packfile_content, lfs_content, asset_content, deleted_content,
}
use gitopia_storage.Events.Unpins.{process-Justified}

abbrev pinata : Provider
pinata = record {
  name = codes "pinata";
  pin_file = λ path name. ok (codes "id");
  unpin_file = λ name. none;
}

-- a provider that is down
abbrev filebase : Provider
filebase = record {
  name = codes "filebase";
  pin_file = λ path name. err (codes "down");
  unpin_file = λ name. some (codes "down");
}

-- content "new" is referred to once, all else not at all
abbrev env : Env
env = record {
  providers = pinata ∷ filebase ∷ [];
  ref_count = λ cid. if bytes_eq cid (codes "new") then some 1 else some 0;
  cache_repository = λ id. true;
  is_lfs_cached = λ oid. false;
  repos_dir = codes "/repos";
  lfs_dir = codes "/lfs";
  attachment_dir = codes "/assets";
}

abbrev event : PackfileUpdatedEvent
event = record {
  repository_id = 7;
  new_cid = codes "new";
  old_cid = codes "old";
  new_name = codes "pack-2.pack";
  old_name = codes "pack-1.pack";
  deleted = false;
}

-- the packfile is pinned under its own name
pinned_name : packfile_name (base (packfile_path env event)) ≡ codes "packfiles/pack-2.pack"
unfolding packfile_name base packfile_path
pinned_name = refl

abbrev object : LfsObjectUpdatedEvent
object = record { repository_id = 7; oid = codes "oid"; cid = codes "old"; deleted = true }

abbrev assets : ReleaseAssetsUpdatedEvent
assets = record {
  repository_id = 7;
  tag = codes "v1";
  assets =
      record {
        name = codes "a.zip";
        cid = codes "new";
        old_cid = codes "old";
        sha256 = codes "22";
        old_sha256 = codes "11";
        delete = false;
      }
      ∷ [];
  provider = codes "me";
}

abbrev gone : RepositoryDeletedEvent
gone = record {
  repository_id = 7;
  provider = codes "me";
  packfile_cid = codes "old";
  packfile_name = codes "pack-1.pack";
  release_assets = [];
  lfs_objects = record { oid = codes "oid"; cid = codes "new" } ∷ [];
}

unpins_gone :
    (process_deleted env gone).0
    ≡ counted (codes "old") (some 0)
      ∷ unpinned (codes "pinata") (codes "packfiles/pack-1.pack")
      ∷ unpinned (codes "filebase") (codes "packfiles/pack-1.pack")
      ∷ counted (codes "new") (some 1)
      ∷ []
unfolding process_deleted
unpins_gone = refl

process_example :
    All (Justified env (packfile_content env event)) (process_packfile env event).0
    × All (Justified env (lfs_content object)) (process_lfs env object).0
    × All (Justified env (asset_content assets.assets)) (process_assets env assets).0
    × All (Justified env (deleted_content gone)) (process_deleted env gone).0
process_example = process-Justified env event object assets gone

abbrev attribute : Bytes → Attribute
attribute key =
    if bytes_eq key (codes "repository_id")
    then strings (some (codes "\"7\"") ∷ some (codes "8") ∷ [])
    else strings (some (codes "true") ∷ some (codes "false") ∷ [])

unmarshals :
    unmarshal attribute
    ≡ ok (
        record { repository_id = 7; oid = codes "true"; cid = codes "true"; deleted = true }
        ∷ record { repository_id = 8; oid = codes "false"; cid = codes "false"; deleted = false }
        ∷ [])
unfolding unmarshal bytes_eq
unmarshals = refl
