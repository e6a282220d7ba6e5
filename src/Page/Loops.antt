-- ===== src/Page/Loops.antt =====
-- The two loops of the paginated endpoints, where grabbing an entry succeeds and the callback
-- appends it, in closed form.
use mathlib.Core.List.{append-nil, append_assoc}
use gitopia_storage.Prelude.{
  ℕ, zero, suc, ◌+◌, ◌<◌, ◌≡◌, refl, arith, Option, none, some, List, [], ◌∷◌, ◌++◌, map, Result,
  ok, length, take, drop,
}
use gitopia_storage.Page.{
  PageError, uint64_mod, uint64_to_bytes, bytes_to_uint64, emit, key_loop, offset_loop,
}

-- The closures of the HTTP handlers: `out = append(out, &item)`.
unfoldable pub collect : {B : Type 0} → B → List B → Option (List B)
collect b out = some (out ++ b ∷ [])

-- The key of the page that starts at index `i`, if an entry is there.
abbrev pub next_at : {A : Type 0} → List A → ℕ → Option (List ℕ)
next_at [] i = none
next_at (a ∷ rest) i = some (uint64_to_bytes i)

pub bytes_to_uint64-uint64_to_bytes :
    (id : ℕ) → id < uint64_mod → bytes_to_uint64 (uint64_to_bytes id) ≡ some id
unfolding bytes_to_uint64 uint64_to_bytes
bytes_to_uint64-uint64_to_bytes id h = ground arith

pub length-uint64_to_bytes : (id : ℕ) → length (uint64_to_bytes id) ≡ 8
unfolding uint64_to_bytes
length-uint64_to_bytes id = refl

module _ {A B : Type 0} (grab : A → Result PageError B) (f : A → B)
    (grabs : (a : A) → grab a ≡ ok (f a)) where
  emit_lem : (a : A) (s : List B) → emit grab collect a s ≡ ok (s ++ f a ∷ [])
  unfolding emit collect
  emit_lem a s = rw (grabs a)

  pub key_loop_lem :
      (n : ℕ) (xs : List A) (i count limit : ℕ) (s : List B)
      → count + n ≡ limit
      → key_loop grab collect xs i count limit s
        ≡ ok (next_at (drop n xs) (i + n), s ++ map f (take n xs))
  unfolding key_loop
  key_loop_lem zero [] i count limit s h = rw append-nil
  key_loop_lem (suc n) [] i count limit s h = rw append-nil
  key_loop_lem zero (a ∷ xs) i count limit s h = ground (arith, append-nil s)
  key_loop_lem (suc n) (a ∷ xs) i count limit s h = ground (
    arith,
    emit_lem a s,
    key_loop_lem n xs (i + 1) (count + 1) limit (s ++ f a ∷ []) (omega arith),
    append_assoc s (f a ∷ []) (map f (take n xs)),
  )

  pub offset_loop_lem :
      (n : ℕ) (xs : List A) (i end : ℕ) (s : List B)
      → i + n ≡ end
      → end + 1 < uint64_mod
      → offset_loop grab collect xs i end s
        ≡ ok (next_at (drop (suc n) xs) (end + 1), s ++ map f (take n xs))
  unfolding offset_loop
  offset_loop_lem zero [] i end s e h = rw append-nil
  offset_loop_lem (suc n) [] i end s e h = rw append-nil
  offset_loop_lem zero (a ∷ []) i end s e h = ground (arith, append-nil s)
  offset_loop_lem zero (a ∷ b ∷ xs) i end s e h = ground (arith, append-nil s)
  offset_loop_lem (suc n) (a ∷ xs) i end s e h = ground (
    arith,
    emit_lem a s,
    offset_loop_lem n xs (i + 1) end (s ++ f a ∷ []) (omega arith) h,
    append_assoc s (f a ∷ []) (map f (take n xs)),
  )
