-- ===== src/Merkle.antt =====
-- pkg/merkleproof/merkleproof.go: the hashes of a file's chunks, the Merkle root and the proof of a
-- chunk. SHA-256 and the tree are libraries' code: `Trees` holds them as arguments.
pub mod Chunks
pub mod Proofs
mod Tests
use gitopia_storage.Prelude.{
  ℕ, zero, suc, ◌+◌, ◌-◌, ◌*◌, ◌/◌, ◌≡◌, refl, Bool, true, false, Option, none, some, List, [], ◌∷◌,
  ◌++◌, Result, ok, err, ◌>>=◌, or_err, length, get_elem?, take, drop, min, ltb, leb, ◌==◌,
  if◌then◌else◌,
}
use gitopia_storage.Text.{Bytes}

pub data MerkleError : Type 0 where
  no_size : MerkleError
  empty_file : MerkleError
  failed_read : MerkleError
  no_tree : MerkleError
  no_proof : MerkleError
  nil_proof : MerkleError
  failed_verification : MerkleError
  chunk_index_panics : MerkleError

-- The size that the file claims, the bytes that its reader delivers, and the offsets at which a
-- read fails.
pub record File : Type 0 where
  pub size : Option ℕ
  pub content : Bytes
  pub read_fails : ℕ → Bool

-- `io.ReadFull` of `n` bytes, with the bytes behind them; too few bytes are an error of the caller.
unfoldable pub read_full : Bool → ℕ → Bytes → Result MerkleError (Bytes × Bytes)
read_full fails n rest =
    if fails
    then err failed_read
    else if leb n (length rest)
    then ok (take n rest, drop n rest)
    else err failed_read

abbrev pub push_hash :
    {H : Type 0} → H → Option (Result MerkleError (List H)) → Option (Result MerkleError (List H))
push_hash h none = none
push_hash h (some (err e)) = some (err e)
push_hash h (some (ok hs)) = some (ok (h ∷ hs))

-- The loop over the offsets; `rest` is what the reader has left and `none` a loop that still runs.
unfoldable pub chunk_loop :
    {H : Type 0}
    → (Bytes → H)
    → (ℕ → Bool)
    → ℕ
    → ℕ
    → ℕ
    → ℕ
    → Bytes
    → Option (Result MerkleError (List H))
chunk_loop hash fails chunk_size file_size zero offset rest = none
chunk_loop hash fails chunk_size file_size (suc fuel) offset rest =
    let current = min chunk_size (file_size - offset) in
    elim (ltb offset file_size) [
      | false ↦ some (ok [])
      | true ↦ elim (read_full (fails offset) current rest) [
        | err e ↦ some (err e)
        | ok (chunk, left) ↦
            push_hash (hash chunk)
              (chunk_loop hash fails chunk_size file_size fuel (offset + current) left)
      ]
    ]

-- The loop has as many rounds as there are chunks, and one to see the end.
unfoldable pub sized_hashes :
    {H : Type 0} → (Bytes → H) → File → ℕ → ℕ → Option (Result MerkleError (List H))
sized_hashes hash file chunk_size file_size =
    let chunks = (file_size + chunk_size - 1) / chunk_size in
    if chunks == 0
    then some (err empty_file)
    else chunk_loop hash file.read_fails chunk_size file_size (suc chunks) 0 file.content

unfoldable pub compute_chunk_hashes :
    {H : Type 0} → (Bytes → H) → File → ℕ → Option (Result MerkleError (List H))
unfolding sized_hashes chunk_loop read_full
compute_chunk_hashes hash file chunk_size = elim file.size [
  | none ↦ some (err no_size)
  | some n ↦ sized_hashes hash file chunk_size n
]

abbrev pub default_chunk_size : ℕ
default_chunk_size = 256 * 1024

-- The hash of a chunk and the Merkle tree library: a proof is of a datum of the tree.
pub record Trees (H T P : Type 0) : Type 0 where
  pub hash : Bytes → H
  pub new_tree : List H → Option T
  pub root : T → H
  pub proof_of : T → H → Option P
  pub verify_using : H → P → H → Option Bool

-- `none` is an operation that does not end.
abbrev pub then_with :
    {A B : Type 0}
    → Option (Result MerkleError A)
    → (A → Result MerkleError B)
    → Option (Result MerkleError B)
then_with none f = none
then_with (some r) f = some (r >>= f)

unfoldable pub compute_merkle_root :
    {H T P : Type 0} → Trees H T P → ℕ → File → Option (Result MerkleError H)
unfolding compute_chunk_hashes
compute_merkle_root t chunk_size file =
    then_with (compute_chunk_hashes t.hash file chunk_size)
      λ hashes. or_err no_tree (t.new_tree hashes) >>= λ tree. ok (t.root tree)

-- The proof, the root and the chunk's hash.
unfoldable pub prove_chunk :
    {H T P : Type 0} → Trees H T P → ℕ → List H → Result MerkleError (P × H × H)
prove_chunk t index hashes = or_err no_tree (t.new_tree hashes) >>= λ tree.
    or_err chunk_index_panics (get_elem? hashes index) >>= λ chunk.
    or_err no_proof (t.proof_of tree chunk) >>= λ proof. ok (proof, t.root tree, chunk)

unfoldable pub generate_proof :
    {H T P : Type 0} → Trees H T P → ℕ → File → ℕ → Option (Result MerkleError (P × H × H))
unfolding compute_chunk_hashes prove_chunk
generate_proof t chunk_size file index =
    then_with (compute_chunk_hashes t.hash file chunk_size) (prove_chunk t index)

unfoldable pub verify_proof :
    {H T P : Type 0} → Trees H T P → H → Option P → H → Result MerkleError Bool
verify_proof t chunk none root = err nil_proof
verify_proof t chunk (some proof) root =
    or_err failed_verification (t.verify_using chunk proof root)
