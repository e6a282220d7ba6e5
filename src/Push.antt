-- ===== src/Push.antt =====
-- handleGitReceivePack of internal/app/git_http.go, and GetPackfileName of utils/git.go: after a push
-- the packfile is pinned and proposed to the chain. The answers of git, of the file system, of the
-- chain and of IPFS are arguments (`Env`). What a failing `RemoveAll` leaves is not modelled.
pub mod Rpc
pub mod Answers
pub mod Checks
pub mod Proposed
mod Tests
use gitopia_storage.Prelude.{
  ℕ, ◌+◌, ◌%◌, String, ◌≡◌, refl, Bool, true, false, not, ◌&&◌, Option, none, some, List, [], ◌∷◌,
  ◌++◌, Result, ok, err, ltb, ◌==◌, if◌then◌else◌,
}
use gitopia_storage.Text.{Bytes, codes, has_suffix}
use gitopia_storage.Events.Paths.{base}
use gitopia_storage.App.{Query, answered, failed, contains}
use gitopia_storage.Cost.{Coin, Params, calculate_storage_cost, sub64, uint64_mod}
use gitopia_storage.Merkle.{File, MerkleError, Trees, compute_merkle_root, default_chunk_size}
use gitopia_storage.Handlers.Challenge.{Node, file_node, other_node}
use gitopia_storage.Calls.{Run, ◌>>=◌, ask_for, call_for, check, make_call, on_error}

pub record Proposal : Type 0 where
  pub user : Bytes
  pub repository_id : ℕ
  pub name : Bytes
  pub cid : Bytes
  pub root_hash : Bytes
  pub size : ℕ
  pub previous_cid : Bytes
  pub merge_commit_sha : Bytes

pub data Call : Type 0 where
  collected : Bytes → Call
  pinned : Bytes → Call
  proposed : Proposal → Call
  polled : ℕ → Bytes → Call
  removed : Bytes → Call

-- The last two are errors of a merge only.
pub data PushError : Type 0 where
  proposal_pending proposals_unknown gc_failed no_packfile no_packfile_info : PushError
  no_repository no_quota no_params no_balance insufficient_balance : PushError
  pin_failed no_api bad_path not_retrieved invalid_format no_root : PushError
  proposal_failed not_verified : PushError
  rollback_failed no_current_packfile : PushError

-- One entry of a walk: its path, its name and whether it is a directory.
pub record Entry : Type 0 where
  pub path : Bytes
  pub name : Bytes
  pub is_dir : Bool

-- `none` and false are errors. `packfile` is the size and the cid of the packfile that the chain
-- has; `confirmed` is the end of PollForUpdate without an error.
pub record Env (T P : Type 0) : Type 0 where
  pub pending : ℕ → Bytes → Query Unit
  pub gc_works : Bytes → Bool
  pub walk : Bytes → Option (List Entry)
  pub file_size : Bytes → Option ℕ
  pub owner_of : ℕ → Option Bytes
  pub packfile : ℕ → Option (ℕ × Bytes)
  pub storage_used : Bytes → Option ℕ
  pub storage_params : Option Params
  pub balance : Bytes → String → Option ℕ
  pub dec_mul : ℕ → ℕ → ℕ
  pub pin_file : Bytes → Option Bytes
  pub api_works : Bool
  pub path_works : Bytes → Bool
  pub get : Bytes → Option Node
  pub trees : Trees Bytes T P
  pub proposes : Proposal → Bool
  pub confirmed : ℕ → Bytes → Bool

abbrev pub Push : Type 0 → Type 0
Push A = Run Call PushError A

-- The last entry with the suffix, for the walk goes on behind one.
unfoldable pub last_pack : Option Bytes → List Entry → Option Bytes
unfolding has_suffix
last_pack found [] = found
last_pack found (e ∷ es) =
    last_pack (if not e.is_dir && has_suffix (codes ".pack") e.name then some e.path else found) es

abbrev walked : Option (List Entry) → Option Bytes
walked none = none
walked (some es) = last_pack none es

-- An error of the walk and a walk without a packfile are both `none`.
unfoldable pub get_packfile_name : (Bytes → Option (List Entry)) → Bytes → Option Bytes
unfolding last_pack
get_packfile_name walk repo_path = walked (walk repo_path)

unfoldable pub check_pending : Query Unit → Push Unit
unfolding contains
check_pending (answered proposal) = ([], err proposal_pending)
check_pending (failed text) =
    check (contains text (codes "packfile update proposal not found")) proposals_unknown

-- The size and the cid that the chain has; none is size 0 and the empty cid.
abbrev pub current_packfile : Option (ℕ × Bytes) → ℕ × Bytes
current_packfile none = (0, [])
current_packfile (some known) = known

-- `storageUsed + uint64(storageDelta)`; the delta may be negative.
unfoldable pub new_usage : ℕ → ℕ → ℕ → ℕ
unfolding sub64
new_usage used size current = (used + sub64 size current) % uint64_mod

abbrev pub file_of : Node → Option File
file_of (file_node f) = some f
file_of other_node = none

-- The Merkle loop always ends.
abbrev pub root_found : Option (Result MerkleError Bytes) → Option Bytes
root_found none = none
root_found (some (err x)) = none
root_found (some (ok root)) = some root

module _ {T P : Type 0} (e : Env T P) where
  unfoldable pub charge_for : Params → ℕ → ℕ → ℕ → Coin
  unfolding new_usage calculate_storage_cost
  charge_for p used size current =
      (calculate_storage_cost e.dec_mul used (new_usage used size current) p).storage_charge

  abbrev pub pays : Bytes → Coin → Push Unit
  pays owner charge = ask_for no_balance (e.balance owner charge.denom) >>= λ amount.
      check (not (ltb amount charge.amount)) insufficient_balance

  -- There is nothing to pay without a price or a charge.
  unfoldable pub check_charge : Params → Bytes → ℕ → ℕ → ℕ → Push Unit
  unfolding charge_for
  check_charge p owner used size current =
      if p.storage_price_per_gb.amount == 0
      then ([], ok tt)
      else let charge = charge_for p used size current in
        if charge.amount == 0 then ([], ok tt) else pays owner charge

  -- The packfile that IPFS has under a cid, and its root.
  unfoldable pub retrieved_root : Bytes → Push Bytes
  unfolding compute_merkle_root
  retrieved_root cid = check e.api_works no_api >>= λ _. check (e.path_works cid) bad_path >>= λ _.
      ask_for not_retrieved (e.get cid) >>= λ node.
      ask_for invalid_format (file_of node) >>= λ file.
      ask_for no_root (root_found (compute_merkle_root e.trees default_chunk_size file))

  unfoldable pub announce : Proposal → Push Unit
  announce p = make_call (proposed p) proposal_failed (e.proposes p) >>= λ _.
      make_call (polled p.repository_id p.user) not_verified (e.confirmed p.repository_id p.user)

  unfoldable pub update_packfile : Bytes → ℕ → Bytes → Push Unit
  unfolding check_pending get_packfile_name check_charge retrieved_root announce
  update_packfile address id repo_path = check_pending (e.pending id address) >>= λ _.
      make_call (collected repo_path) gc_failed (e.gc_works repo_path) >>= λ _.
      ask_for no_packfile (get_packfile_name e.walk repo_path) >>= λ name.
      ask_for no_packfile_info (e.file_size name) >>= λ size.
      ask_for no_repository (e.owner_of id) >>= λ owner.
      let current = current_packfile (e.packfile id) in
      ask_for no_quota (e.storage_used owner) >>= λ used.
      ask_for no_params e.storage_params >>= λ p. check_charge p owner used size current.0 >>= λ _.
      call_for (pinned name) pin_failed (e.pin_file name) >>= λ cid. retrieved_root cid >>= λ root.
      announce (record {
        user = address;
        repository_id = id;
        name = base name;
        cid = cid;
        root_hash = root;
        size = size;
        previous_cid = current.1;
        merge_commit_sha = [];
      })

  -- After any error the repository is removed from the disk.
  unfoldable pub handle_git_receive_pack : Bytes → ℕ → Bytes → Push Unit
  unfolding update_packfile
  handle_git_receive_pack address id repo_path =
      on_error (removed repo_path ∷ []) (update_packfile address id repo_path)
