-- ===== src/Handlers/Challenge.antt =====
-- Process of handler/challenge.go: the proof of a chunk of the challenged content is sent to the chain.
-- The chain, IPFS and the Merkle tree library are arguments; hashes are bytes.
use gitopia_storage.Prelude.{
  ℕ, Bool, Option, none, some, List, [], ◌∷◌, Result, ok, err, or_err, ◌>>=◌, if◌then◌else◌,
}
use gitopia_storage.Text.{Bytes, codes, bytes_eq}
use gitopia_storage.App.{contains}
use gitopia_storage.Merkle.{File, MerkleError, Trees, default_chunk_size, generate_proof}
use gitopia_storage.Handlers.Unmarshal.{ChallengeEvent}

pub data ChallengeType : Type 0 where
  packfile : ChallengeType
  release_asset : ChallengeType
  lfs_object : ChallengeType
  other_type : ChallengeType

pub record Challenge : Type 0 where
  pub challenge_type : ChallengeType
  pub content_id : ℕ
  pub chunk_index : ℕ
  pub root_hash : Bytes

pub data ChallengeError : Type 0 where
  no_challenge : ChallengeError
  no_api : ChallengeError
  no_content_record : ChallengeError
  invalid_type : ChallengeError
  bad_path : ChallengeError
  not_retrieved : ChallengeError
  invalid_format : ChallengeError
  proof_failed : MerkleError → ChallengeError
  root_mismatch : ChallengeError
  submit_failed : ChallengeError

-- What IPFS has under a path: a file, or something else.
pub data Node : Type 0 where
  file_node : File → Node
  other_node : Node

pub record Network (T P : Type 0) : Type 0 where
  pub challenge_of : ℕ → Option Challenge
  pub api_works : Bool
  pub cid_of : ChallengeType → ℕ → Option Bytes
  pub path_works : Bytes → Bool
  pub get : Bytes → Option Node
  pub trees : Trees Bytes T P

pub record Submission (P : Type 0) : Type 0 where
  pub challenge_id : ℕ
  pub data_hash : Bytes
  pub proof : P

abbrev pub content_cid :
    {T P : Type 0} → Network T P → ChallengeType → ℕ → Result ChallengeError Bytes
content_cid n packfile id = or_err no_content_record (n.cid_of packfile id)
content_cid n release_asset id = or_err no_content_record (n.cid_of release_asset id)
content_cid n lfs_object id = or_err no_content_record (n.cid_of lfs_object id)
content_cid n other_type id = err invalid_type

abbrev pub file_of : Node → Result ChallengeError File
file_of (file_node f) = ok f
file_of other_node = err invalid_format

-- The challenge and the content it is about.
unfoldable pub challenged_file :
    {T P : Type 0} → Network T P → ℕ → Result ChallengeError (Challenge × File)
challenged_file n id = or_err no_challenge (n.challenge_of id) >>= λ c.
    (if n.api_works then ok tt else err no_api) >>= λ _.
    content_cid n c.challenge_type c.content_id >>= λ cid.
    (if n.path_works cid then ok tt else err bad_path) >>= λ _.
    or_err not_retrieved (n.get cid) >>= λ node. file_of node >>= λ file. ok (c, file)

unfoldable pub check_root :
    {P : Type 0}
    → ℕ
    → Bytes
    → Result MerkleError (P × Bytes × Bytes)
    → Result ChallengeError (Submission P)
unfolding bytes_eq
check_root id root_hash (err e) = err (proof_failed e)
check_root id root_hash (ok (proof, root, chunk_hash)) =
    if bytes_eq root root_hash
    then ok (record { challenge_id = id; data_hash = chunk_hash; proof = proof })
    else err root_mismatch

-- `none` is a proof that does not end.
abbrev pub checked_proof :
    {P : Type 0}
    → ℕ
    → Bytes
    → Option (Result MerkleError (P × Bytes × Bytes))
    → Option (Result ChallengeError (Submission P))
checked_proof id root_hash none = none
checked_proof id root_hash (some r) = some (check_root id root_hash r)

abbrev pub prove_file :
    {T P : Type 0}
    → Network T P
    → ℕ
    → Result ChallengeError (Challenge × File)
    → Option (Result ChallengeError (Submission P))
prove_file n id (err e) = some (err e)
prove_file n id (ok (c, file)) =
    checked_proof id c.root_hash (generate_proof n.trees default_chunk_size file c.chunk_index)

-- What is sent to the chain.
unfoldable pub prepare :
    {T P : Type 0} → Network T P → ChallengeEvent → Option (Result ChallengeError (Submission P))
unfolding challenged_file check_root generate_proof
prepare n e = prove_file n e.challenge_id (challenged_file n e.challenge_id)

-- The answer of the chain is the text of an error; a passed deadline is logged only.
abbrev pub submitted :
    {P : Type 0} → (Submission P → Option Bytes) → Submission P → Option ChallengeError
submitted submit s = elim (submit s) [
  | none ↦ none
  | some text ↦
      if contains text (codes "challenge deadline exceeded") then none else some submit_failed
]

abbrev pub send :
    {P : Type 0}
    → (Submission P → Option Bytes)
    → Option (Result ChallengeError (Submission P))
    → Option (List (Submission P) × Option ChallengeError)
send submit none = none
send submit (some (err e)) = some ([], some e)
send submit (some (ok s)) = some (s ∷ [], submitted submit s)

-- The submissions and the error.
unfoldable pub process_challenge :
    {T P : Type 0}
    → Network T P
    → (Submission P → Option Bytes)
    → ChallengeEvent
    → Option (List (Submission P) × Option ChallengeError)
unfolding prepare contains
process_challenge n submit e = send submit (prepare n e)
