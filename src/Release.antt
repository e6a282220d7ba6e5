-- ===== src/Release.antt =====
-- Process of handler/release.go: the attachments of a release are pinned, and what changes is proposed
-- to the chain. What the chain, the cluster and the file system answer is an argument (`Env`); a Go
-- map is a list of assets with distinct names, and `iterate` is the order in which it is walked.
-- Errors that the code only logs are left out. `Unmarshal` is the reading of the event.
pub mod Unmarshal
pub mod View
pub mod Changes
pub mod Applied
mod Tests
use gitopia_storage.Prelude.{
  ℕ, ◌≡◌, refl, Bool, true, false, not, ◌&&◌, ◌||◌, Option, none, some, List, [], ◌∷◌, ◌++◌, Result,
  ok, err, if◌then◌else◌,
}
use gitopia_storage.Text.{Bytes, codes, bytes_eq}
use gitopia_storage.App.{Query, answered, failed, contains}
use gitopia_storage.Merkle.{File, MerkleError, Trees, compute_merkle_root, default_chunk_size}
use gitopia_storage.Push.{root_found}

pub data EventType : Type 0 where
  create_release dao_create_release update_release delete_release : EventType

pub record Attachment : Type 0 where
  pub name : Bytes
  pub sha : Bytes
  pub size : ℕ

pub record ReleaseEvent : Type 0 where
  pub creator : Bytes
  pub repository_id : ℕ
  pub repository_owner_id : Bytes
  pub tag : Bytes
  pub attachments : List Attachment
  pub provider : Bytes

-- `storagetypes.ReleaseAsset` as the code reads it, and `ReleaseAssetUpdate`.
pub record Asset : Type 0 where
  pub name : Bytes
  pub cid : Bytes
  pub sha256 : Bytes

pub record Update : Type 0 where
  pub name : Bytes
  pub cid : Bytes
  pub root_hash : Bytes
  pub size : ℕ
  pub sha256 : Bytes
  pub old_sha256 : Bytes
  pub old_cid : Bytes
  pub delete : Bool

pub data Call : Type 0 where
  pinned : Bytes → Call
  proposed : Bytes → ℕ → Bytes → List Update → Call
  polled : ℕ → Bytes → Bytes → Call

pub data ReleaseError : Type 0 where
  query_failed : ReleaseError

-- `open` gives the file that is opened, looked at and read for the Merkle root.
pub record Env (T P : Type 0) : Type 0 where
  pub address : Bytes
  pub attachment_dir : Bytes
  pub assets : ℕ → Bytes → Query (List Asset)
  pub iterate : List Asset → List Asset
  pub pin_file : Bytes → Option Bytes
  pub open_file : Bytes → Option File
  pub trees : Trees Bytes T P
  pub proposes : Bytes → ℕ → Bytes → List Update → Bool

abbrev pub Updates : Type 0
Updates = List Call × List Update

abbrev pub add_updates : Updates → Updates → Updates
add_updates (calls, updates) (more, others) = (calls ++ more, updates ++ others)

unfoldable pub named : Bytes → List Attachment → Bool
unfolding bytes_eq
named name [] = false
named name (a ∷ attachments) = bytes_eq name a.name || named name attachments

unfoldable pub find_asset : Bytes → List Asset → Option Asset
unfolding bytes_eq
find_asset name [] = none
find_asset name (a ∷ assets) =
    let rest = find_asset name assets in if bytes_eq name a.name then some a else rest

-- `existingAssets[asset.Name] = asset`.
unfoldable pub insert_asset : Asset → List Asset → List Asset
unfolding bytes_eq
insert_asset asset [] = asset ∷ []
insert_asset asset (a ∷ assets) =
    let rest = insert_asset asset assets in
    if bytes_eq asset.name a.name then asset ∷ assets else a ∷ rest

unfoldable pub asset_map : List Asset → List Asset → List Asset
unfolding insert_asset
asset_map known [] = known
asset_map known (asset ∷ assets) = asset_map (insert_asset asset known) assets

abbrev pub deletion : Asset → Update
deletion a = record {
  name = a.name;
  cid = [];
  root_hash = [];
  size = 0;
  sha256 = [];
  old_sha256 = a.sha256;
  old_cid = a.cid;
  delete = true;
}

-- The deletions of an update, and those of a deleted release.
unfoldable pub deletions : List Attachment → List Asset → List Update
unfolding named
deletions attachments [] = []
deletions attachments (a ∷ assets) =
    let rest = deletions attachments assets in
    if named a.name attachments then rest else deletion a ∷ rest

module _ {T P : Type 0} (e : Env T P) where
  unfoldable pub file_path : Bytes → Bytes
  file_path sha = e.attachment_dir ++ b'/' ∷ sha

  abbrev pub root_of : Option File → Option Bytes
  root_of none = none
  root_of (some file) = root_found (compute_merkle_root e.trees default_chunk_size file)

  unfoldable pub calculate_merkle_root : Attachment → Option Bytes
  unfolding file_path compute_merkle_root
  calculate_merkle_root a = root_of (e.open_file (file_path a.sha))

  abbrev pub rooted :
      Attachment → Bytes → (Bytes → Bytes → List Update) → Option Bytes → List Update
  rooted a cid make none = []
  rooted a cid make (some root) = make cid root

  abbrev pub with_cid : Attachment → (Bytes → Bytes → List Update) → Option Bytes → List Update
  with_cid a make none = []
  with_cid a make (some cid) = rooted a cid make (calculate_merkle_root a)

  -- An attachment that cannot be pinned or read is left out.
  unfoldable pub pin_attachment : Attachment → (Bytes → Bytes → List Update) → Updates
  unfolding file_path calculate_merkle_root
  pin_attachment a make =
      (pinned (file_path a.sha) ∷ [], with_cid a make (e.pin_file (file_path a.sha)))

  abbrev pub update_of : Attachment → Bytes → Bytes → Bytes → Bytes → Update
  update_of a old_sha256 old_cid cid root = record {
    name = a.name;
    cid = cid;
    root_hash = root;
    size = a.size;
    sha256 = a.sha;
    old_sha256 = old_sha256;
    old_cid = old_cid;
    delete = false;
  }

  unfoldable pub created : List Attachment → Updates
  unfolding pin_attachment
  created [] = ([], [])
  created (a ∷ attachments) =
      add_updates (pin_attachment a (λ cid root. update_of a [] [] cid root ∷ []))
        (created attachments)

  -- An asset of the same name changes only with its digest and its cid.
  unfoldable pub changed_asset : Attachment → Option Asset → Updates
  unfolding pin_attachment bytes_eq
  changed_asset a none = pin_attachment a (λ cid root. update_of a [] [] cid root ∷ [])
  changed_asset a (some old) =
      if bytes_eq old.sha256 a.sha
      then ([], [])
      else pin_attachment a (λ cid root.
        if bytes_eq cid old.cid then [] else update_of a old.sha256 old.cid cid root ∷ [])

  unfoldable pub changed : List Asset → List Attachment → Updates
  unfolding changed_asset find_asset
  changed existing [] = ([], [])
  changed existing (a ∷ attachments) =
      add_updates (changed_asset a (find_asset a.name existing)) (changed existing attachments)

  -- The loops of one event.
  unfoldable pub release_updates : EventType → List Attachment → List Asset → Updates
  unfolding created changed deletions
  release_updates create_release attachments existing = created attachments
  release_updates dao_create_release attachments existing = created attachments
  release_updates update_release attachments existing =
      add_updates ([], deletions attachments (e.iterate existing)) (changed existing attachments)
  release_updates delete_release attachments existing = ([], deletions [] (e.iterate existing))

  abbrev pub proposal_calls : ReleaseEvent → List Update → Bool → List Call
  proposal_calls ev updates false = proposed ev.creator ev.repository_id ev.tag updates ∷ []
  proposal_calls ev updates true =
      proposed ev.creator ev.repository_id ev.tag updates
      ∷ polled ev.repository_id ev.tag ev.creator
      ∷ []

  -- Nothing is proposed where nothing changes; a failed proposal is not waited for.
  unfoldable pub propose : ReleaseEvent → List Update → List Call
  propose ev [] = []
  propose ev (u ∷ updates) =
      proposal_calls ev (u ∷ updates) (e.proposes ev.creator ev.repository_id ev.tag (u ∷ updates))

  -- The assets on the chain are asked for by the last two types of events only.
  unfoldable pub existing_assets : EventType → Query (List Asset) → Result ReleaseError (List Asset)
  unfolding contains asset_map
  existing_assets create_release answer = ok []
  existing_assets dao_create_release answer = ok []
  existing_assets type (answered assets) = ok (asset_map [] assets)
  existing_assets type (failed text) =
      if contains text (codes "release asset not found") then ok [] else err query_failed

  abbrev pub finished : ReleaseEvent → Updates → List Call × Option ReleaseError
  finished ev (calls, updates) = (calls ++ propose ev updates, none)

  abbrev pub with_assets :
      EventType → ReleaseEvent → Result ReleaseError (List Asset) → List Call × Option ReleaseError
  with_assets type ev (err x) = ([], some x)
  with_assets type ev (ok existing) = finished ev (release_updates type ev.attachments existing)

  unfoldable pub process_release : EventType → ReleaseEvent → List Call × Option ReleaseError
  unfolding existing_assets release_updates propose bytes_eq
  process_release type ev =
      if bytes_eq ev.provider e.address
      then with_assets type ev (existing_assets type (e.assets ev.repository_id ev.tag))
      else ([], none)
