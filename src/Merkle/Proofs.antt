-- ===== src/Merkle/Proofs.antt =====
-- GenerateProof of pkg/merkleproof/merkleproof.go proves the chunk with the given index, and indexes
-- out of range where the file has no such chunk.
use native.Mathlib.Nat.{suc-mul, mul-le-mul_right, lt_of_mul-lt-mul_right}
use gitopia_storage.Prelude.{
  ℕ, zero, suc, ◌+◌, ◌*◌, ◌≤◌, ◌<◌, ◌≡◌, ◌↔◌, refl, arith, ap, ◌∙◌, false, inl, inr, Option, none,
  some, List, [], ◌∷◌, ◌++◌, Result, ok, err, map, length, length-append, get_elem?, Option-cases,
  or_err, ◌>>=◌, some-inj, Bool-cases, ◌==◌,
}
use gitopia_storage.Text.{Bytes}
use gitopia_storage.Merkle.{
  File, MerkleError, Trees, chunk_index_panics, no_proof, generate_proof, prove_chunk, then_with,
}
use gitopia_storage.Merkle.Chunks.{Chunks, compute_chunk_hashes-Chunks}

no-Chunks : (chunk_size : ℕ) (chunks : List Bytes) → Chunks chunk_size [] chunks → length chunks ≡ 0
no-Chunks chunk_size [] h = refl
no-Chunks chunk_size (chunk ∷ chunks) (left, e, h, _, _, _) =
    let split : length (chunk ++ left) ≡ length chunk + length left = length-append chunk left in
    let none_left : length (chunk ++ left) ≡ 0 = ap length e in
    absurd (omega (arith, h, split, none_left))

last-count :
    (c : ℕ) (left : Bytes) (chunks : List Bytes)
    → Chunks (suc c) left chunks
    → length left ≡ 0
    → length chunks * suc c ≡ 0
last-count c [] chunks h e = ap (λ n. n * suc c) (no-Chunks (suc c) chunks h) ∙ omega arith
last-count c (x ∷ left) chunks h e = absurd (omega (arith, e))

-- how many chunks there are
Chunks-count :
    (c : ℕ) (s : Bytes) (chunks : List Bytes)
    → Chunks (suc c) s chunks
    → (length s ≤ length chunks * suc c) × (length chunks * suc c < length s + suc c)
Chunks-count c s [] h =
    let empty : length s ≡ 0 = ap length h in (omega (arith, empty), omega (arith, empty))
Chunks-count c s (chunk ∷ chunks) (left, e, h, k, l, rest) =
    let split : length (chunk ++ left) ≡ length chunk + length left = length-append chunk left in
    let whole : length (chunk ++ left) ≡ length s = ap length e in
    let (lower, upper) = Chunks-count c left chunks rest in
    let more : suc (length chunks) * suc c ≡ length chunks * suc c + suc c =
      suc-mul (length chunks) (suc c) in
    (
      omega (arith, split, whole, k, l, lower, more),
      elim (Bool-cases (length left == 0)) [
        | inl z ↦
            let none_more : length chunks * suc c ≡ 0 =
              last-count c left chunks rest (ground (arith, z)) in
            omega (arith, split, whole, h, more, none_more)
        | inr z ↦
            let full : length chunk ≡ suc c = l (ground (arith, z)) in
            omega (arith, split, whole, full, more, upper)
      ],
    )

get_elem?-out : {A : Type 0} (xs : List A) (i : ℕ) → (get_elem? xs i ≡ none) ↔ (length xs ≤ i)
get_elem?-out [] i = (λ h. omega arith, λ h. refl)
get_elem?-out (x ∷ xs) zero = ground arith
get_elem?-out (x ∷ xs) (suc i) = ground (arith, get_elem?-out xs i)

get_elem?-map :
    {A B : Type 0} (f : A → B) (xs : List A) (i : ℕ) {x : A}
    → get_elem? xs i ≡ some x
    → get_elem? (map f xs) i ≡ some (f x)
get_elem?-map f [] i h = ground (arith, h)
get_elem?-map f (x ∷ xs) zero h = ap (λ y. some (f y)) (some-inj h)
get_elem?-map f (x ∷ xs) (suc i) h = get_elem?-map f xs i h

get_elem?-map-none :
    {A B : Type 0} (f : A → B) (xs : List A) (i : ℕ)
    → get_elem? xs i ≡ none
    → get_elem? (map f xs) i ≡ none
get_elem?-map-none f [] i h = refl
get_elem?-map-none f (x ∷ xs) zero h = ground (arith, h)
get_elem?-map-none f (x ∷ xs) (suc i) h = get_elem?-map-none f xs i h

index-out :
    (c index count len : ℕ)
    → len ≤ count * suc c
    → count * suc c < len + suc c
    → (count ≤ index) ↔ (len ≤ index * suc c)
index-out c index count len h k = (
  λ l.
      let wide : count * suc c ≤ index * suc c = mul-le-mul_right (suc c) l in
      omega (arith, h, wide),
  λ l.
      let next : suc index * suc c ≡ index * suc c + suc c = suc-mul index (suc c) in
      let strict : count * suc c < suc index * suc c = omega (arith, k, l, next) in
      let below : count < suc index = lt_of_mul-lt-mul_right (suc c) strict in omega (arith, below),
)

-- What GenerateProof makes of the chunk at an index: the library's proof for its hash.
abbrev pub proved :
    {H T P : Type 0} → Trees H T P → T → Option Bytes → Result MerkleError (P × H × H)
proved t tree none = err chunk_index_panics
proved t tree (some chunk) = or_err no_proof (t.proof_of tree (t.hash chunk)) >>= λ proof.
    ok (proof, t.root tree, t.hash chunk)

prove_chunk-proved :
    {H T P : Type 0} (t : Trees H T P) (tree : T) (index : ℕ) (chunks : List Bytes)
    → t.new_tree (map t.hash chunks) ≡ some tree
    → prove_chunk t index (map t.hash chunks) ≡ proved t tree (get_elem? chunks index)
unfolding prove_chunk
prove_chunk-proved t tree index chunks h = elim (Option-cases (get_elem? chunks index)) [
  | inl e ↦ rw (h, get_elem?-map-none t.hash chunks index e, e) refl
  | inr (chunk, e) ↦ rw (h, get_elem?-map t.hash chunks index e, e) refl
]

-- A file with content has a chunk, so there is a tree.
some_tree :
    {H T P : Type 0} (t : Trees H T P) (c : ℕ) (content : Bytes) (chunks : List Bytes)
    → 0 < length content
    → Chunks (suc c) content chunks
    → ((first : H) (hashes : List H) → (tree : T) × (t.new_tree (first ∷ hashes) ≡ some tree))
    → (tree : T) × (t.new_tree (map t.hash chunks) ≡ some tree)
some_tree t c content [] h cut builds = absurd (omega (arith, h, (Chunks-count c content [] cut).0))
some_tree t c content (chunk ∷ chunks) h cut builds = builds (t.hash chunk) (map t.hash chunks)

-- For a file that can be read, GenerateProof answers with the library's proof for the chunk at the
-- index, the root of the tree and the chunk's hash. It panics for exactly the indices behind the end
-- of the file. The file is not empty, and the library builds a tree of any hashes but none.
pub generate_proof-proved :
    {H T P : Type 0} (t : Trees H T P) (file : File) (c index : ℕ)
    → file.size ≡ some (length file.content)
    → 0 < length file.content
    → ((i : ℕ) → file.read_fails i ≡ false)
    → ((first : H) (hashes : List H) → (tree : T) × (t.new_tree (first ∷ hashes) ≡ some tree))
    → (chunks : List Bytes) × (tree : T) × Chunks (suc c) file.content chunks
      × (generate_proof t (suc c) file index ≡ some (proved t tree (get_elem? chunks index)))
      × ((get_elem? chunks index ≡ none) ↔ (length file.content ≤ index * suc c))
unfolding generate_proof
generate_proof-proved t file c index e h readable builds =
    let (chunks, cut, run) = compute_chunk_hashes-Chunks t.hash file c e h readable in
    let (tree, built) = some_tree t c file.content chunks h cut builds in
    let (lower, upper) = Chunks-count c file.content chunks cut in
    let out = index-out c index (length chunks) (length file.content) lower upper in
    let last = get_elem?-out chunks index in
    (
      chunks,
      tree,
      cut,
      ap (λ r. then_with r (prove_chunk t index)) run
          ∙ ap some (prove_chunk-proved t tree index chunks built),
      (λ k. out.0 (last.0 k), λ k. last.1 (out.1 k)),
    )
