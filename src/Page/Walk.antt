-- ===== src/Page/Walk.antt =====
-- utils/content.go and utils/diff.go, as a client pages through them. The reader follows `next_key`
-- from page to page.
use Prim.Native.Nat.add
use mathlib.Core.List.{map-append}
use mathlib.Core.List.{map-append}
use gitopia_storage.Prelude.{
  length-take, length, ap, length-drop, take-append-drop, ℕ, zero, suc, ◌+◌, ◌≤◌, ◌<◌, ◌≡◌, refl,
  sym, ap, ◌∙◌, arith, false, Option, none, some, List, [], ◌∷◌, ◌++◌, map, Result, ok, err, ◌>>=◌,
  length, take, drop, take-append-drop,
}
use gitopia_storage.Page.{
  PageRequest, PageResponse, PageError, panic, uint64_mod, uint64_to_bytes, paginate,
}
use gitopia_storage.Page.Loops.{
  collect, next_at, key_loop_lem, offset_loop_lem, bytes_to_uint64-uint64_to_bytes,
  length-uint64_to_bytes,
}

abbrev pub by_key : ℕ → List ℕ → Option PageRequest
by_key limit key =
    some
      (record { key = some key; offset = 0; limit = limit; count_total = false; reverse = false })

abbrev pub by_offset : ℕ → ℕ → Option PageRequest
by_offset limit offset =
    some
      (record { key = none; offset = offset; limit = limit; count_total = false; reverse = false })

module _ {A : Type 0} where
  drop-nil : (n : ℕ) → drop {A = A} n [] ≡ []
  drop-nil zero = refl
  drop-nil (suc n) = refl

  pub drop-drop : (n m : ℕ) (xs : List A) → drop n (drop m xs) ≡ drop (m + n) xs
  drop-drop n zero xs = rw add.zero
  drop-drop n (suc m) [] = drop-nil n ∙ sym (drop-nil (suc m + n))
  drop-drop n (suc m) (x ∷ xs) = rw add.suc (drop-drop n m xs)

  drop_uncons : (n : ℕ) (xs : List A) → n < length xs → (x : A) × (drop n xs ≡ x ∷ drop (suc n) xs)
  drop_uncons n [] h = absurd (omega arith)
  drop_uncons zero (x ∷ xs) h = (x, refl)
  drop_uncons (suc n) (x ∷ xs) h = drop_uncons n xs (omega arith)

module _ {B : Type 0} where
  -- What a client that follows `next_key` reads, with fuel for the pages.
  pub follow :
      (List ℕ → Result PageError (PageResponse × List B))
      → ℕ
      → Option (List ℕ)
      → Result PageError (List B)
  follow page fuel none = ok []
  follow page zero (some key) = err panic
  follow page (suc fuel) (some key) = do
    (res, out) ← page key
    rest ← follow page fuel res.next_key
    ok (out ++ rest)

module _ {A B : Type 0} (grab : A → Result PageError B) (f : A → B)
    (grabs : (a : A) → grab a ≡ ok (f a)) where
  pub paginate-by_key :
      (entries : List A) (start limit default_limit : ℕ)
      → start < uint64_mod
      → 0 < limit
      → paginate grab collect entries (by_key limit (uint64_to_bytes start)) default_limit []
        ≡ ok (
          record {
            next_key = next_at (drop limit (drop start entries)) (start + limit);
            total = 0;
          },
          map f (take limit (drop start entries)),
        )
  unfolding paginate
  paginate-by_key entries start limit default_limit h pos = ground (
    arith,
    length-uint64_to_bytes start,
    bytes_to_uint64-uint64_to_bytes start h,
    key_loop_lem grab f grabs limit (drop start entries) start 0 limit [] (omega arith),
  )

  pub paginate-by_offset :
      (entries : List A) (offset limit default_limit : ℕ)
      → offset + limit + 1 < uint64_mod
      → 0 < limit
      → paginate grab collect entries (by_offset limit offset) default_limit []
        ≡ ok (
          record {
            next_key = next_at (drop (suc limit) (drop offset entries)) (offset + limit + 1);
            total = 0;
          },
          map f (take limit (drop offset entries)),
        )
  unfolding paginate
  paginate-by_offset entries offset limit default_limit h pos = ground (
    arith,
    offset_loop_lem grab f grabs limit (drop offset entries) offset (offset + limit) [] refl h,
  )

-- A reader that follows `next_key`, over any endpoint whose pages turn as `turns` says.
module _ {A B : Type 0} (f : A → B) (entries : List A) (limit : ℕ) (pos : 0 < limit)
    (page : List ℕ → Result PageError (PageResponse × List B))
    (turns : (start : ℕ)
      → start < length entries
      → page (uint64_to_bytes start)
        ≡ ok (
          record {
            next_key = next_at (drop limit (drop start entries)) (start + limit);
            total = 0;
          },
          map f (take limit (drop start entries)),
        )) where
  split-joined : (xs : List A) → map f (take limit xs) ++ map f (drop limit xs) ≡ map f xs
  split-joined xs = sym (map-append _ _ _) ∙ ap (map f) (take-append-drop limit xs)

  within : (start : ℕ) (x : A) (xs : List A) → drop start entries ≡ x ∷ xs → start < length entries
  within start x xs e = omega (arith, ap length e, length-drop start entries)

  follow_suffix :
      (fuel start : ℕ) (xs : List A)
      → drop start entries ≡ xs
      → length xs ≤ fuel
      → follow page fuel (next_at xs start) ≡ ok (map f xs)
  unfolding follow
  follow_suffix fuel start [] e h = refl
  follow_suffix zero start (x ∷ xs) e h = absurd (omega arith)
  follow_suffix (suc fuel) start (x ∷ xs) e h =
      let rest : follow page fuel (next_at (drop limit (x ∷ xs)) (start + limit))
          ≡ ok (map f (drop limit (x ∷ xs))) =
        follow_suffix fuel (start + limit) (drop limit (x ∷ xs))
          (sym (drop-drop limit start entries) ∙ ap (drop limit) e)
          (omega (arith, length-drop limit (x ∷ xs))) in
      rw (turns start (within start x xs e), e, rest) (rw (split-joined (x ∷ xs)))

  pub follow_all :
      (start : ℕ)
      → follow page (length entries) (next_at (drop start entries) start)
        ≡ ok (map f (drop start entries))
  follow_all start =
      follow_suffix (length entries) start (drop start entries) refl
        (omega (arith, length-drop start entries))

module _ {A B : Type 0} (grab : A → Result PageError B) (f : A → B)
    (grabs : (a : A) → grab a ≡ ok (f a)) (entries : List A) (limit default_limit : ℕ)
    (pos : 0 < limit) (small : length entries < uint64_mod) where
  abbrev pub page : List ℕ → Result PageError (PageResponse × List B)
  page key = paginate grab collect entries (by_key limit key) default_limit []

  pub follow_complete :
      (start : ℕ)
      → follow page (length entries) (next_at (drop start entries) start)
        ≡ ok (map f (drop start entries))
  follow_complete = follow_all f entries limit pos page (λ start h.
      paginate-by_key grab f grabs entries start limit default_limit (omega (arith, small)) pos)

  -- A reader that asks for a page by offset, and then follows `next_key`.
  pub read_from_offset : ℕ → Result PageError (List B)
  read_from_offset offset = do
    (res, out) ← paginate grab collect entries (by_offset limit offset) default_limit []
    rest ← follow page (length entries) res.next_key
    ok (out ++ rest)

  pub read_from_offset-skips :
      (offset : ℕ)
      → offset + limit < length entries
      → offset + limit + 1 < uint64_mod
      → (before after : List A) × (skipped : A) × (drop offset entries ≡ before ++ skipped ∷ after)
        × (length before ≡ limit)
        × (read_from_offset offset ≡ ok (map f (before ++ after)))
  unfolding read_from_offset
  read_from_offset-skips offset more fits =
      let ys = drop offset entries in
      let (x, e) = drop_uncons limit ys (omega (arith, length-drop offset entries)) in
      let rest : follow page (length entries) (next_at (drop (suc limit) ys) (offset + limit + 1))
          ≡ ok (map f (drop (suc limit) ys)) =
        let e' : drop (offset + limit + 1) entries ≡ drop (suc limit) ys =
          ap (λ n. drop n entries) (omega arith) ∙ sym (drop-drop (suc limit) offset entries) in
        rw e' at (follow_complete (offset + limit + 1)) in
      (
        take limit ys,
        drop (suc limit) ys,
        x,
        sym (take-append-drop limit ys) ∙ ap (λ zs. take limit ys ++ zs) e,
        omega (arith, length-take limit ys, length-drop offset entries),
        rw (paginate-by_offset grab f grabs entries offset limit default_limit fits pos, rest)
            (ap ok (sym (map-append f (take limit ys) (drop (suc limit) ys)))),
      )

  -- What a client reads of a listing, from an index on, where more entries are left than a page
  -- holds: if its first page is asked for by the key of that index, following `next_key` shows every
  -- entry from there on once and in order; if its first page is asked for by offset, it shows all of
  -- them but one, the first entry behind that page, which it misses. As many pages by key as there
  -- are entries are enough. Grabbing an entry succeeds, the limit is positive, and the number of
  -- entries and the sum of the offset, the limit and one fit a `uint64`.
  pub read_by_key_or_offset :
      (start : ℕ)
      → start + limit < length entries
      → start + limit + 1 < uint64_mod
      → (follow page (length entries) (some (uint64_to_bytes start))
          ≡ ok (map f (drop start entries)))
        × ((before after : List A) × (skipped : A) × (drop start entries
              ≡ before ++ skipped ∷ after)
            × (length before ≡ limit)
            × (read_from_offset start ≡ ok (map f (before ++ after))))
  read_by_key_or_offset start more fits =
      let (x, e) = drop_uncons start entries (omega arith) in
      let here : next_at (drop start entries) start ≡ some (uint64_to_bytes start) = rw e refl in
      (
        ap (follow page (length entries)) (sym here) ∙ follow_complete start,
        read_from_offset-skips start more fits,
      )
