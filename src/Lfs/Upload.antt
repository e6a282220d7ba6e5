-- ===== src/Lfs/Upload.antt =====
-- ServeUploadHandler of route/lfs/basic.go, and its route behind Authenticate. The chain, the IPFS
-- cluster and the Merkle root of the stored file are arguments; the object's lock is not modelled
-- here.
use gitopia_storage.Prelude.{
  ℕ, ◌+◌, ◌-◌, ◌%◌, String, Bool, true, false, Option, none, some, List, [], ◌∷◌, Result, ok, err,
  ◌>>=◌, or_err, ltb, ◌==◌, if◌then◌else◌,
}
use gitopia_storage.Text.{Bytes}
use gitopia_storage.Auth.{AuthError}
use gitopia_storage.Cost.{Params, Coin, calculate_storage_cost, uint64_mod}
use gitopia_storage.Lfs.{
  Disk, Faults, LocalStorage, StorageError, invalid_oid, storage_path, upload,
}
use gitopia_storage.Lfs.Http.{
  Reply, empty_body, message_body, error_text, response, status_ok, status_bad_request,
  status_payment_required, internal_server_error,
}
use gitopia_storage.Lfs.Basic.{parse_path, authenticate}

pub record Proposal : Type 0 where
  pub user : Bytes
  pub repository_id : ℕ
  pub oid : Bytes
  pub cid : Bytes
  pub root_hash : Bytes
  pub size : ℕ

-- The other services. `none` and false are errors; `confirmed` is the end of PollForUpdate without
-- an error, and `root_of` the Merkle root of a file's contents.
pub record Services : Type 0 where
  pub owner_of : ℕ → Option Bytes
  pub storage_used : Bytes → Option ℕ
  pub storage_params : Option Params
  pub balance : Bytes → String → Option ℕ
  pub dec_mul : ℕ → ℕ → ℕ
  pub pin_file : Bytes → Option Bytes
  pub root_of : Option Bytes → Option Bytes
  pub object_known : ℕ → Bytes → Bool
  pub proposes : Proposal → Bool
  pub confirmed : Proposal → Bool

-- What the handler did besides its answer.
pub record Effects : Type 0 where
  pub disk : Disk
  pub pinned : List Bytes
  pub proposed : List Proposal

-- `uint64(r.ContentLength)`, which is -1 where the length is not known.
abbrev pub content_length : Option ℕ → ℕ
content_length none = uint64_mod - 1
content_length (some n) = n

unfoldable pub charge_for : Services → Params → ℕ → Option ℕ → Coin
charge_for v p used length =
    (calculate_storage_cost v.dec_mul used ((used + content_length length) % uint64_mod)
      p).storage_charge

unfoldable pub check_balance : Option ℕ → Coin → Result Reply Unit
check_balance none charge = err internal_server_error
check_balance (some amount) charge =
    if ltb amount charge.amount
    then err
        (response status_payment_required (message_body "insufficient balance for storage charge"))
    else ok tt

-- The charge is asked for only where there is a price and it is not zero.
unfoldable pub check_charge : Services → Params → ℕ → Bytes → Option ℕ → Result Reply Unit
unfolding charge_for check_balance
check_charge v p used owner length =
    if p.storage_price_per_gb.amount == 0
    then ok tt
    else let charge = charge_for v p used length in
      if charge.amount == 0 then ok tt else check_balance (v.balance owner charge.denom) charge

unfoldable pub admit : Services → ℕ → Option ℕ → Result Reply Unit
unfolding check_charge
admit v id length = or_err internal_server_error (v.owner_of id) >>= λ owner.
    or_err internal_server_error (v.storage_used owner) >>= λ used.
    or_err internal_server_error v.storage_params >>= λ p. check_charge v p used owner length

abbrev pub upload_error : StorageError → Reply
upload_error invalid_oid = response status_bad_request error_text
upload_error e = internal_server_error

-- The proposal to the chain, and the wait for it: whether it is made and confirmed.
abbrev pub proposal_result : Disk → Bytes → Proposal → Bool → Bool → Reply × Effects
proposal_result d cid p false confirmed =
    (internal_server_error, record { disk = d; pinned = cid ∷ []; proposed = [] })
proposal_result d cid p true confirmed = (
  (if confirmed then response status_ok empty_body else internal_server_error),
  record { disk = d; pinned = cid ∷ []; proposed = p ∷ [] },
)

-- After the Merkle root; an object that the chain knows is not proposed again.
abbrev pub announce_root : Services → Disk → Bytes → Option Proposal → Bool → Reply × Effects
announce_root v d cid none known =
    (internal_server_error, record { disk = d; pinned = cid ∷ []; proposed = [] })
announce_root v d cid (some p) true =
    (response status_ok empty_body, record { disk = d; pinned = cid ∷ []; proposed = [] })
announce_root v d cid (some p) false = proposal_result d cid p (v.proposes p) (v.confirmed p)

abbrev pub proposal_of : Bytes → ℕ → Bytes → ℕ → Bytes → Option Bytes → Option Proposal
proposal_of user id oid n cid none = none
proposal_of user id oid n cid (some root) =
    some
      (record { user = user; repository_id = id; oid = oid; cid = cid; root_hash = root; size = n })

abbrev pub announce_pin :
    Services → LocalStorage → Bytes → ℕ → Bytes → ℕ → Disk → Option Bytes → Reply × Effects
announce_pin v s user id oid n d none =
    (internal_server_error, record { disk = d; pinned = []; proposed = [] })
announce_pin v s user id oid n d (some cid) =
    announce_root v d cid (proposal_of user id oid n cid (v.root_of (d (storage_path s oid))))
      (v.object_known id oid)

unfoldable pub announce : Services → LocalStorage → Bytes → ℕ → Bytes → ℕ → Disk → Reply × Effects
unfolding storage_path
announce v s user id oid n d = announce_pin v s user id oid n d (v.pin_file (storage_path s oid))

unfoldable pub store :
    Services → LocalStorage → Bytes → ℕ → Bytes → Result StorageError ℕ → Disk → Reply × Effects
unfolding announce
store v s user id oid (err e) d = (upload_error e, record { disk = d; pinned = []; proposed = [] })
store v s user id oid (ok n) d = announce v s user id oid n d

pub record Put : Type 0 where
  pub path : Bytes
  pub header : Option Bytes
  pub content_length : Option ℕ
  pub content : Bytes

-- An early answer leaves everything as it is.
unfoldable pub serve_upload :
    Services → LocalStorage → Faults → Put → Disk → Bytes → Result Reply (Reply × Effects)
unfolding parse_path admit upload store
serve_upload v s f r d user = parse_path r.path >>= λ (id, oid).
    admit v id r.content_length >>= λ _.
    (let uploaded = upload s f oid r.content d in ok (store v s user id oid uploaded.0 uploaded.1))

unfoldable pub finish : Disk → Result Reply (Reply × Effects) → Reply × Effects
finish d (ok done) = done
finish d (err reply) = (reply, record { disk = d; pinned = []; proposed = [] })

-- The route of a PUT.
unfoldable pub put_object :
    (Bytes → Bytes → Result AuthError Bytes)
    → Services
    → LocalStorage
    → Faults
    → Put
    → Disk
    → Reply × Effects
unfolding authenticate serve_upload finish
put_object validate v s f r d =
    finish d (authenticate validate r.path r.header (serve_upload v s f r d))
