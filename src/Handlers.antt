-- ===== src/Handlers.antt =====
-- handler/deleteStorageObject.go, proposalTimeout.go and deleteRepository.go: the events that give up
-- content or a repository. A run is the list of the calls that leave the process and an error; what
-- the chain and the IPFS cluster answer is an argument (`Env`). Logging is left out.
pub mod Unmarshal
pub mod Sizes
pub mod Cids
pub mod Challenge
pub mod Proved
mod Tests
use gitopia_storage.Prelude.{
  ℕ, zero, suc, ◌≡◌, refl, Bool, true, false, Option, none, some, List, [], ◌∷◌, ◌==◌,
  if◌then◌else◌,
}
use gitopia_storage.Text.{Bytes, bytes_eq}

-- The event of a deleted storage object, and that of a proposal that timed out.
pub record CidsEvent : Type 0 where
  pub provider : Bytes
  pub cids : List Bytes

pub record DeleteRepositoryEvent : Type 0 where
  pub creator : Bytes
  pub repository_id : ℕ
  pub provider : Bytes

pub data Call : Type 0 where
  counted : Bytes → Call
  unpinned : Bytes → Call
  proposed_delete : Bytes → ℕ → Call
  polled_delete : Bytes → ℕ → Call

pub data HandlerError : Type 0 where
  ref_count_failed : HandlerError
  unpin_failed : HandlerError
  proposal_failed : HandlerError
  verification_failed : HandlerError

-- The address of this provider, the reference counts, and which calls succeed.
pub record Env : Type 0 where
  pub address : Bytes
  pub ref_count : Bytes → Option ℕ
  pub unpins : Bytes → Bool
  pub proposes : Bytes → ℕ → Bool
  pub confirmed : Bytes → ℕ → Bool

abbrev pub Run : Type 0
Run = List Call × Option HandlerError

-- `CheckProvider`.
unfoldable pub check_provider : Env → Bytes → Bool
unfolding bytes_eq
check_provider env provider = bytes_eq provider env.address

abbrev pub call_first : Call → Run → Run
call_first call (calls, e) = (call ∷ calls, e)

-- A cid after its reference count; `stop` says whether a failed unpin ends the loop.
abbrev pub unpin_counted : Bool → Bool → Bytes → Option ℕ → Run → Run
unpin_counted stop works cid none rest = (counted cid ∷ [], some ref_count_failed)
unpin_counted stop works cid (some (suc n)) rest = call_first (counted cid) rest
unpin_counted stop true cid (some zero) rest =
    call_first (counted cid) (call_first (unpinned cid) rest)
unpin_counted true false cid (some zero) rest = (counted cid ∷ unpinned cid ∷ [], some unpin_failed)
unpin_counted false false cid (some zero) rest =
    call_first (counted cid) (call_first (unpinned cid) rest)

abbrev pub is_empty : Bytes → Bool
is_empty [] = true
is_empty (c ∷ s) = false

unfoldable pub delete_cids : Env → List Bytes → Run
delete_cids env [] = ([], none)
delete_cids env (cid ∷ cids) =
    let rest = delete_cids env cids in
    if is_empty cid then rest else unpin_counted true (env.unpins cid) cid (env.ref_count cid) rest

unfoldable pub timeout_cids : Env → List Bytes → Run
timeout_cids env [] = ([], none)
timeout_cids env (cid ∷ cids) =
    unpin_counted false (env.unpins cid) cid (env.ref_count cid) (timeout_cids env cids)

-- `Process` of handler/deleteStorageObject.go and of handler/proposalTimeout.go.
unfoldable pub process_delete_storage_object : Env → CidsEvent → Run
unfolding check_provider delete_cids
process_delete_storage_object env e =
    if check_provider env e.provider then delete_cids env e.cids else ([], none)

unfoldable pub process_proposal_timeout : Env → CidsEvent → Run
unfolding check_provider timeout_cids
process_proposal_timeout env e =
    if check_provider env e.provider then timeout_cids env e.cids else ([], none)

abbrev proposal_run : Bytes → ℕ → Bool → Bool → Run
proposal_run creator id false confirmed = (proposed_delete creator id ∷ [], some proposal_failed)
proposal_run creator id true false =
    (proposed_delete creator id ∷ polled_delete creator id ∷ [], some verification_failed)
proposal_run creator id true true =
    (proposed_delete creator id ∷ polled_delete creator id ∷ [], none)

-- `Process` of handler/deleteRepository.go; `confirmed` is the end of PollForUpdate without an error.
unfoldable pub process_delete_repository : Env → DeleteRepositoryEvent → Run
unfolding check_provider
process_delete_repository env e =
    if check_provider env e.provider
    then proposal_run e.creator e.repository_id (env.proposes e.creator e.repository_id)
        (env.confirmed e.creator e.repository_id)
    else ([], none)
