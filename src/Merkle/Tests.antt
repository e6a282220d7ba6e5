-- ===== src/Merkle/Tests.antt =====
-- Runs of pkg/merkleproof/merkleproof.go, and the properties at concrete inputs.
use gitopia_storage.Prelude.{
  ℕ, ◌*◌, ◌≤◌, ◌≡◌, ◌↔◌, refl, arith, true, false, Option, none, some, List, [], ◌∷◌, ok, err, map,
  length, get_elem?,
}
use gitopia_storage.Text.{Bytes, codes}
use gitopia_storage.Merkle.{
  File, Trees, chunk_index_panics, compute_chunk_hashes, compute_merkle_root, generate_proof,
}
use gitopia_storage.Merkle.Chunks.{Chunks, compute_chunk_hashes-Chunks}
use gitopia_storage.Merkle.Proofs.{proved, generate_proof-proved}

abbrev five_bytes : File
five_bytes = record { size = some 5; content = codes "abcde"; read_fails = λ i. false }

-- The hash is the first byte, a tree its leaves, of which there is one, and a proof the leaf.
abbrev first : Bytes → ℕ
first [] = 0
first (c ∷ s) = c

abbrev tree_of : List ℕ → Option (List ℕ)
tree_of [] = none
tree_of (h ∷ hashes) = some (h ∷ hashes)

abbrev toy : Trees ℕ (List ℕ) ℕ
toy = record {
  hash = first;
  new_tree = tree_of;
  root = λ tree. length tree;
  proof_of = λ tree h. some h;
  verify_using = λ h p root. some true;
}

compute_chunk_hashes-Chunks_example :
    (chunks : List Bytes) × Chunks 2 (codes "abcde") chunks
    × (compute_chunk_hashes first five_bytes 2 ≡ some (ok (map first chunks)))
compute_chunk_hashes-Chunks_example =
    compute_chunk_hashes-Chunks first five_bytes 1 refl (omega arith) λ i. refl

generate_proof-proved_example :
    (chunks : List Bytes) × (tree : List ℕ) × Chunks 2 (codes "abcde") chunks
    × (generate_proof toy 2 five_bytes 2 ≡ some (proved toy tree (get_elem? chunks 2)))
    × ((get_elem? chunks 2 ≡ none) ↔ (5 ≤ 2 * 2))
generate_proof-proved_example =
    generate_proof-proved toy five_bytes 1 2 refl (omega arith) (λ i. refl)
      λ h hashes. (h ∷ hashes, refl)

five_hashes : compute_chunk_hashes first five_bytes 2 ≡ some (ok (b'a' ∷ b'c' ∷ b'e' ∷ []))
unfolding compute_chunk_hashes
five_hashes = refl

behind_the_end : generate_proof toy 2 five_bytes 3 ≡ some (err chunk_index_panics)
unfolding generate_proof
behind_the_end = refl

five_root : compute_merkle_root toy 2 five_bytes ≡ some (ok 3)
unfolding compute_merkle_root
five_root = refl
