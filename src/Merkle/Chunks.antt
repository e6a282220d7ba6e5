-- ===== src/Merkle/Chunks.antt =====
-- The chunks whose hashes computeChunkHashes of pkg/merkleproof/merkleproof.go returns are the file,
-- cut into pieces of the chunk size.
use native.Mathlib.Nat.{mod-add-div', mod-lt, suc-mul}
use gitopia_storage.Prelude.{
  ℕ, zero, suc, ◌+◌, ◌-◌, ◌*◌, ◌/◌, ◌%◌, ◌≤◌, ◌<◌, ◌≡◌, refl, arith, ap, ◌∙◌, Bool, true, false,
  some, List, [], ◌∷◌, ◌++◌, ok, map, length, take, drop, take-append-drop, length-take,
  length-drop, min, ltb, le→leb, ◌==◌,
}
use gitopia_storage.Text.{Bytes}
use gitopia_storage.Merkle.{File, chunk_loop, compute_chunk_hashes, push_hash, read_full}

-- Bytes cut into chunks: no chunk is empty, and all but the last have the full size.
abbrev pub Chunks : ℕ → Bytes → List Bytes → Type 0
Chunks chunk_size s [] = s ≡ []
Chunks chunk_size s (chunk ∷ chunks) =
    (left : Bytes) × (chunk ++ left ≡ s)
    × (0 < length chunk)
    × (length chunk ≤ chunk_size)
    × (0 < length left → length chunk ≡ chunk_size)
    × Chunks chunk_size left chunks

enough : (n c : ℕ) → n ≤ (n + suc c - 1) / suc c * suc c
enough n c =
    let q = (n + suc c - 1) / suc c * suc c in
    let r = (n + suc c - 1) % suc c in
    let split : r + q ≡ n + suc c - 1 = mod-add-div' (n + suc c - 1) (suc c) in
    let small : r < suc c = mod-lt (n + suc c - 1) (omega arith) in omega (arith, split, small)

nonzero : (q c n : ℕ) → n ≤ q * suc c → 0 < n → (q == 0) ≡ false
nonzero zero c n h k = absurd (omega (arith, h, k))
nonzero (suc q) c n h k = ground arith

read_full-enough :
    (n : ℕ) (rest : Bytes)
    → n ≤ length rest
    → read_full false n rest ≡ ok (take n rest, drop n rest)
unfolding read_full
read_full-enough n rest h = rw (le→leb n (length rest) h) refl

module _ {H : Type 0} (hash : Bytes → H) (fails : ℕ → Bool) (c n : ℕ)
    (readable : (i : ℕ) → fails i ≡ false) where
  loop-end :
      (fuel offset : ℕ) (rest : Bytes)
      → n ≤ offset
      → chunk_loop hash fails (suc c) n (suc fuel) offset rest ≡ some (ok [])
  unfolding chunk_loop
  loop-end fuel offset rest h =
      let end : ltb offset n ≡ false = ground (arith, h) in rw (end, chunk_loop) refl

  loop-round :
      (fuel offset : ℕ) (rest : Bytes)
      → offset < n
      → length rest ≡ n - offset
      → chunk_loop hash fails (suc c) n (suc fuel) offset rest
        ≡ push_hash (hash (take (min (suc c) (n - offset)) rest)) (
            chunk_loop hash fails
              (suc c)
              n
              fuel
              (offset + min (suc c) (n - offset))
              (drop (min (suc c) (n - offset)) rest))
  unfolding chunk_loop
  loop-round fuel offset rest h e =
      let more : ltb offset n ≡ true = ground (arith, h) in
      rw
        (
          more,
          readable offset,
          read_full-enough (min (suc c) (n - offset)) rest (omega (arith, e)),
          chunk_loop,
        )
        refl

  loop-Chunks :
      (k offset : ℕ) (rest : Bytes)
      → length rest ≡ n - offset
      → length rest ≤ k * suc c
      → (chunks : List Bytes) × Chunks (suc c) rest chunks
        × (chunk_loop hash fails (suc c) n (suc k) offset rest ≡ some (ok (map hash chunks)))
  loop-Chunks k offset [] e h = ([], refl, loop-end k offset [] (omega (arith, e)))
  loop-Chunks zero offset (x ∷ rest) e h = absurd (omega (arith, h))
  loop-Chunks (suc k) offset (x ∷ rest) e h =
      let len = length (x ∷ rest) in
      let current = min (suc c) (n - offset) in
      let first = take current (x ∷ rest) in
      let left = drop current (x ∷ rest) in
      let first_length : length first ≡ min current len = length-take current (x ∷ rest) in
      let left_length : length left ≡ len - current = length-drop current (x ∷ rest) in
      let bound : suc k * suc c ≡ k * suc c + suc c = suc-mul k (suc c) in
      let (chunks, cut, run) =
        loop-Chunks k (offset + current) left (omega (arith, e, left_length))
          (omega (arith, e, h, bound, left_length)) in
      (
        first ∷ chunks,
        (
          left,
          take-append-drop current (x ∷ rest),
          omega (arith, e, first_length),
          omega (arith, first_length),
          λ more. omega (arith, e, first_length, left_length, more),
          cut,
        ),
        loop-round (suc k) offset (x ∷ rest) (omega (arith, e)) e ∙ ap (push_hash (hash first)) run,
      )

-- For a file that delivers as many bytes as its size says, at least one, and can be read,
-- computeChunkHashes returns the hashes of the file's chunks in order.
pub compute_chunk_hashes-Chunks :
    {H : Type 0} (hash : Bytes → H) (file : File) (c : ℕ)
    → file.size ≡ some (length file.content)
    → 0 < length file.content
    → ((i : ℕ) → file.read_fails i ≡ false)
    → (chunks : List Bytes) × Chunks (suc c) file.content chunks
      × (compute_chunk_hashes hash file (suc c) ≡ some (ok (map hash chunks)))
unfolding compute_chunk_hashes
compute_chunk_hashes-Chunks hash file c e h readable =
    let n = length file.content in
    let rounds = (n + suc c - 1) / suc c in
    let (chunks, cut, run) =
      loop-Chunks hash file.read_fails c n readable rounds 0 file.content (omega arith)
        (enough n c) in
    let some_chunk : (rounds == 0) ≡ false = nonzero rounds c n (enough n c) h in
    (chunks, cut, rw (e, some_chunk) run)
