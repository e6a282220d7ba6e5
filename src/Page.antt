-- ===== src/Page.antt =====
-- utils/pagination.go, utils/common.go, and the loop that utils/content.go and utils/diff.go each
-- spell out. A byte string is a list of numbers below 256; `none` is a nil key, which differs from
-- an empty one. The callback `onResult` is a function on the state that it writes.
mod Loops
pub mod Walk
mod Tests
pub mod Tree
pub mod Diff
pub mod Grabs
pub mod Commits
use gitopia_storage.Prelude.{
  ℕ, ◌+◌, ◌*◌, ◌/◌, ◌%◌, ◌^◌, Bool, true, false, ◌&&◌, Option, none, some, List, [], ◌∷◌, Result,
  ok, err, or_err, ◌>>=◌, ltb, ◌==◌, if◌then◌else◌, length, drop,
}

pub record PageRequest : Type 0 where
  pub key : Option (List ℕ)
  pub offset : ℕ
  pub limit : ℕ
  pub count_total : Bool
  pub reverse : Bool

pub record PageResponse : Type 0 where
  pub next_key : Option (List ℕ)
  pub total : ℕ

-- `panic` is a run-time fault: an index out of range, or a nil pointer.
pub data PageError : Type 0 where
  offset_and_key grab_failed result_failed count_failed panic : PageError

abbrev pub uint64_mod : ℕ
uint64_mod = 2 ^ 64

-- `binary.BigEndian.PutUint64` into eight bytes.
unfoldable pub uint64_to_bytes : ℕ → List ℕ
uint64_to_bytes id =
    (id / 2 ^ 56 % 256)
    ∷ (id / 2 ^ 48 % 256)
    ∷ (id / 2 ^ 40 % 256)
    ∷ (id / 2 ^ 32 % 256)
    ∷ (id / 2 ^ 24 % 256)
    ∷ (id / 2 ^ 16 % 256)
    ∷ (id / 2 ^ 8 % 256)
    ∷ (id % 256)
    ∷ []

-- `binary.BigEndian.Uint64`: it reads eight bytes and faults where there are fewer.
unfoldable pub bytes_to_uint64 : List ℕ → Option ℕ
bytes_to_uint64 (a ∷ b ∷ c ∷ d ∷ e ∷ f ∷ g ∷ h ∷ rest) =
    some
      (a * 2 ^ 56 + b * 2 ^ 48 + c * 2 ^ 40 + d * 2 ^ 32 + e * 2 ^ 24 + f * 2 ^ 16 + g * 2 ^ 8 + h)
bytes_to_uint64 _ = none

unfoldable pub default_request : PageRequest
default_request = record { key = none; offset = 0; limit = 0; count_total = false; reverse = false }

abbrev pub or_default : Option PageRequest → PageRequest
or_default none = default_request
or_default (some r) = r

abbrev pub is_set : Option (List ℕ) → Bool
is_set none = false
is_set (some _) = true

-- The bytes of a key; a nil key has none.
abbrev pub bytes : Option (List ℕ) → List ℕ
bytes none = []
bytes (some k) = k

module _ {A B S : Type 0} (grab : A → Result PageError B) (on_result : B → S → Option S) where
  unfoldable pub emit : A → S → Result PageError S
  emit a s = do b ← grab a; or_err result_failed (on_result b s)

  -- The loop over `i` from the decoded key; `entries` are those from index `i` on.
  unfoldable pub key_loop : List A → ℕ → ℕ → ℕ → S → Result PageError (Option (List ℕ) × S)
  key_loop [] i count limit s = ok (none, s)
  key_loop (a ∷ entries) i count limit s =
      let rest : S → Result PageError (Option (List ℕ) × S) =
        λ t. key_loop entries (i + 1) (count + 1) limit t in
      if count == limit then ok (some (uint64_to_bytes i), s) else (do t ← emit a s; rest t)

  -- The loop over `i` from the offset. An index that is neither below `end` nor `end + 1` passes.
  unfoldable pub offset_loop : List A → ℕ → ℕ → S → Result PageError (Option (List ℕ) × S)
  offset_loop [] i end s = ok (none, s)
  offset_loop (a ∷ entries) i end s =
      let rest : S → Result PageError (Option (List ℕ) × S) =
        λ t. offset_loop entries (i + 1) end t in
      if ltb i end
      then (do t ← emit a s; rest t)
      else if i == (end + 1) % uint64_mod
      then ok (some (uint64_to_bytes i), s)
      else rest s

  key_page : List A → ℕ → List ℕ → S → Result PageError (PageResponse × S)
  key_page entries limit key s = do
    start ← or_err panic (bytes_to_uint64 key)
    (next, t) ← key_loop (drop start entries) start 0 limit s
    ok (record { next_key = next; total = 0 }, t)

  offset_page : List A → ℕ → ℕ → Bool → S → Result PageError (PageResponse × S)
  offset_page entries offset limit count_total s = do
    (next, t) ← offset_loop (drop offset entries) offset ((offset + limit) % uint64_mod) s
    ok (record { next_key = next; total = if count_total then length entries else 0 }, t)

  unfoldable pub paginate :
      List A → Option PageRequest → ℕ → S → Result PageError (PageResponse × S)
  unfolding key_page offset_page
  paginate entries page_request default_limit s =
      let r = or_default page_request in
      let unlimited = r.limit == 0 in
      let limit = if unlimited then default_limit else r.limit in
      let count_total = if unlimited then true else r.count_total in
      if ltb 0 r.offset && is_set r.key
      then err offset_and_key
      else if ltb 0 (length (bytes r.key))
      then key_page entries limit (bytes r.key) s
      else offset_page entries r.offset limit count_total s
