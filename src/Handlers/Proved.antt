-- ===== src/Handlers/Proved.antt =====
-- What the handler of challenges sends to the chain.
use gitopia_storage.Prelude.{
  ℕ, ◌≡◌, refl, arith, sym, ap, ◌∙◌, Option, none, some, some-inj, List, [], ◌∷◌, Result, ok, err,
  ok-inj, bind-ok, or_err, or_err-ok, get_elem?, subst, guard-ok, if◌then◌else◌,
}
use gitopia_storage.Text.{Bytes, bytes_eq}
use gitopia_storage.Text.Equality.{bytes_eq_iff}
use gitopia_storage.Merkle.{
  File, MerkleError, compute_chunk_hashes, chunk_index_panics, default_chunk_size, generate_proof,
  no_proof, no_tree, prove_chunk, then_with,
}
use gitopia_storage.Handlers.Unmarshal.{ChallengeEvent}
use gitopia_storage.Handlers.Challenge.{
  Challenge, ChallengeError, ChallengeType, Node, file_node, other_node, file_of, content_cid,
  packfile, release_asset, lfs_object, other_type, no_challenge, no_api, no_content_record,
  bad_path, not_retrieved, Network, Submission, challenged_file, check_root, checked_proof, prepare,
  process_challenge, prove_file, root_mismatch, send,
}

sent-prepared :
    {P : Type 0} (submit : Submission P → Option Bytes)
    (prepared : Option (Result ChallengeError (Submission P))) {s : Submission P}
    {e : Option ChallengeError}
    → send submit prepared ≡ some (s ∷ [], e)
    → prepared ≡ some (ok s)
sent-prepared submit none h = ground (arith, h)
sent-prepared submit (some (err x)) h = ground (arith, h)
sent-prepared submit (some (ok s)) h =
    ap
      (λ o. elim o [
        | none ↦ some (ok s)
        | some r ↦ elim r.0 [ [] ↦ some (ok s) | z ∷ _ ↦ some (ok z) ]
      ])
      h

root-checked :
    {P : Type 0} (id : ℕ) (root_hash : Bytes) (r : Result MerkleError (P × Bytes × Bytes))
    {s : Submission P}
    → check_root id root_hash r ≡ ok s
    → (r ≡ ok (s.proof, root_hash, s.data_hash)) × (s.challenge_id ≡ id)
unfolding check_root
root-checked id root_hash (err e) h = ground (arith, h)
root-checked id root_hash (ok (proof, root, chunk_hash)) h =
    let (e, same) =
      guard-ok (bytes_eq root root_hash)
        (record { challenge_id = id; data_hash = chunk_hash; proof = proof }) root_mismatch h in
    let equal : root ≡ root_hash = (bytes_eq_iff root root_hash).0 e in
    (
      ap (λ z. ok (proof, z, chunk_hash)) equal
          ∙ ap (λ z. ok (z.proof, root_hash, z.data_hash)) same,
      sym (ap (λ z. z.challenge_id) same),
    )

proof-checked :
    {P : Type 0} (id : ℕ) (root_hash : Bytes) (r : Option (Result MerkleError (P × Bytes × Bytes)))
    {s : Submission P}
    → checked_proof id root_hash r ≡ some (ok s)
    → (r ≡ some (ok (s.proof, root_hash, s.data_hash))) × (s.challenge_id ≡ id)
proof-checked id root_hash none h = ground (arith, h)
proof-checked id root_hash (some r) h =
    let (e, k) = root-checked id root_hash r (some-inj h) in (ap some e, k)

-- The chain has this cid for the packfile, the release asset or the LFS object of an id.
abbrev pub ContentCid : {T P : Type 0} → Network T P → ChallengeType → ℕ → Bytes → Type 0
ContentCid n packfile id cid = n.cid_of packfile id ≡ some cid
ContentCid n release_asset id cid = n.cid_of release_asset id ≡ some cid
ContentCid n lfs_object id cid = n.cid_of lfs_object id ≡ some cid
ContentCid n other_type id cid = ⊥

-- IPFS has the file for the content of the challenge.
abbrev pub FileFor : {T P : Type 0} → Network T P → Challenge → File → Type 0
FileFor n c file =
    (cid : Bytes) × ContentCid n c.challenge_type c.content_id cid
    × (n.get cid ≡ some (file_node file))

-- A tree over the hashes of the file's chunks has the challenge's root, and the submission is the
-- library's proof in it for the hash of the chunk with the challenge's index.
abbrev pub Proof : {T P : Type 0} → Network T P → Challenge → File → Submission P → Type 0
Proof {T} n c file s =
    (hashes : List Bytes) × (tree : T) × (compute_chunk_hashes n.trees.hash file default_chunk_size
      ≡ some (ok hashes))
    × (n.trees.new_tree hashes ≡ some tree)
    × (n.trees.root tree ≡ c.root_hash)
    × (get_elem? hashes c.chunk_index ≡ some s.data_hash)
    × (n.trees.proof_of tree s.data_hash ≡ some s.proof)

-- A submission for a challenge that the chain has, and for a file that IPFS has for its content.
abbrev pub ProvenFor : {T P : Type 0} → Network T P → ℕ → Submission P → Type 0
ProvenFor n id s =
    (c : Challenge) × (file : File) × (n.challenge_of id ≡ some c)
    × FileFor n c file
    × Proof n c file s
    × (s.challenge_id ≡ id)

content_cid-ContentCid :
    {T P : Type 0} (n : Network T P) (type : ChallengeType) (id : ℕ) {cid : Bytes}
    → content_cid n type id ≡ ok cid
    → ContentCid n type id cid
content_cid-ContentCid n packfile id h = or_err-ok no_content_record (n.cid_of packfile id) h
content_cid-ContentCid n release_asset id h =
    or_err-ok no_content_record (n.cid_of release_asset id) h
content_cid-ContentCid n lfs_object id h = or_err-ok no_content_record (n.cid_of lfs_object id) h
content_cid-ContentCid n other_type id h = ground (arith, h)

file_of-file_node : (node : Node) {file : File} → file_of node ≡ ok file → node ≡ file_node file
file_of-file_node (file_node f) h = ap file_node (ok-inj h)
file_of-file_node other_node h = ground (arith, h)

challenged_file-FileFor :
    {T P : Type 0} (n : Network T P) (id : ℕ) {c : Challenge} {file : File}
    → challenged_file n id ≡ ok (c, file)
    → (n.challenge_of id ≡ some c) × FileFor n c file
unfolding challenged_file
challenged_file-FileFor n id {c} {file} h =
    let (found, e, h1) = bind-ok (or_err no_challenge (n.challenge_of id)) _ h in
    let (_, e1, h2) = bind-ok (if n.api_works then ok tt else err no_api) _ h1 in
    let (cid, e2, h3) = bind-ok (content_cid n found.challenge_type found.content_id) _ h2 in
    let (_, e3, h4) = bind-ok (if n.path_works cid then ok tt else err bad_path) _ h3 in
    let (node, e4, h5) = bind-ok (or_err not_retrieved (n.get cid)) _ h4 in
    let (f, e5, h6) = bind-ok (file_of node) _ h5 in
    let same : (found, f) ≡ (c, file) = ok-inj h6 in
    subst (λ (pair : Challenge × File). (n.challenge_of id ≡ some pair.0) × FileFor n pair.0 pair.1)
      same
      (
        or_err-ok no_challenge (n.challenge_of id) e,
        (
          cid,
          content_cid-ContentCid n found.challenge_type found.content_id e2,
          or_err-ok not_retrieved (n.get cid) e4 ∙ ap some (file_of-file_node node e5),
        ),
      )

then-hashes :
    {A B : Type 0} (r : Option (Result MerkleError A)) (f : A → Result MerkleError B) {b : B}
    → then_with r f ≡ some (ok b)
    → (a : A) × (r ≡ some (ok a)) × (f a ≡ ok b)
then-hashes none f h = ground (arith, h)
then-hashes (some (err e)) f h = ground (arith, some-inj h)
then-hashes (some (ok a)) f h = (a, refl, some-inj h)

generate_proof-Proof :
    {T P : Type 0} (n : Network T P) (c : Challenge) (file : File) (s : Submission P)
    → generate_proof n.trees default_chunk_size file c.chunk_index
      ≡ some (ok (s.proof, c.root_hash, s.data_hash))
    → Proof n c file s
unfolding generate_proof prove_chunk
generate_proof-Proof {P = P} n c file s h =
    let (hashes, e, h1) =
      then-hashes (compute_chunk_hashes n.trees.hash file default_chunk_size)
        (prove_chunk n.trees c.chunk_index) h in
    let (tree, e1, h2) = bind-ok (or_err no_tree (n.trees.new_tree hashes)) _ h1 in
    let (chunk, e2, h3) =
      bind-ok (or_err chunk_index_panics (get_elem? hashes c.chunk_index)) _ h2 in
    let (proof, e3, h4) = bind-ok (or_err no_proof (n.trees.proof_of tree chunk)) _ h3 in
    let same : (proof, n.trees.root tree, chunk) ≡ (s.proof, c.root_hash, s.data_hash) =
      ok-inj h4 in
    let chunk_same : chunk ≡ s.data_hash = ap (λ (x : P × Bytes × Bytes). x.2) same in
    (
      hashes,
      tree,
      e,
      or_err-ok no_tree (n.trees.new_tree hashes) e1,
      ap (λ (x : P × Bytes × Bytes). x.1) same,
      or_err-ok chunk_index_panics (get_elem? hashes c.chunk_index) e2 ∙ ap some chunk_same,
      ap (n.trees.proof_of tree) (sym chunk_same)
          ∙ or_err-ok no_proof (n.trees.proof_of tree chunk) e3
          ∙ ap (λ (x : P × Bytes × Bytes). some x.0) same,
    )

file-proved :
    {T P : Type 0} (n : Network T P) (id : ℕ) (r : Result ChallengeError (Challenge × File))
    {s : Submission P}
    → challenged_file n id ≡ r
    → prove_file n id r ≡ some (ok s)
    → ProvenFor n id s
file-proved n id (err e) k h = ground (arith, h)
file-proved n id (ok (c, file)) {s} k h =
    let (e, same) =
      proof-checked id c.root_hash (generate_proof n.trees default_chunk_size file c.chunk_index)
        h in
    let (found, content) = challenged_file-FileFor n id k in
    (c, file, found, content, generate_proof-Proof n c file s e, same)

-- What the handler sends for a challenge that the chain has is the library's proof for the hash of
-- the chunk with the challenge's index, in a tree over the hashes of the chunks of a file; its root
-- is the challenge's root hash, and the file is what IPFS has under the cid that the chain has for
-- the packfile, the release asset or the LFS object, as the type of the challenge says.
pub process_challenge-ProvenFor :
    {T P : Type 0} (n : Network T P) (submit : Submission P → Option Bytes) (e : ChallengeEvent)
    (s : Submission P) (x : Option ChallengeError)
    → process_challenge n submit e ≡ some (s ∷ [], x)
    → ProvenFor n e.challenge_id s
unfolding process_challenge
process_challenge-ProvenFor n submit e s x h =
    file-proved n e.challenge_id (challenged_file n e.challenge_id) refl
      (sent-prepared submit (prepare n e) h)
