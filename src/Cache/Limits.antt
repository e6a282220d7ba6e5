-- ===== src/Cache/Limits.antt =====
-- utils/cache_manager.go: what a clearing leaves, by age and by size.
use mathlib.Core.List.{Permᴰ}
use gitopia_storage.Prelude.{
  ℕ, ◌≤◌, ◌<◌, ◌^◌, ◌≡◌, ◌∙◌, refl, sym, none, String, Bool, if◌then◌else◌, ap, subst, arith, false,
  List, [], ◌∷◌, inl, inr, Bool-cases,
}
use gitopia_storage.Cache.{
  Cleared, CacheError, read_repository_dir, read_asset_dir, Node, Dir, Os, Policy, EntryInfo,
  remove, scan, evict, candidates, clear_by_size, clear_repository_cache, clear_asset_cache, lt64,
  sub64,
}
use gitopia_storage.Cache.InUse.{All-Permᴰ}
use gitopia_storage.Cache.Names.{Absent, Distinct, Among, remove-Among}
use gitopia_storage.Cache.Size.{cached_size, is_expired, young, young-le, Works, scan_lem}
use gitopia_storage.Cache.Fits.{
  Steady, Listed, sum_sizes-Permᴰ, DistinctPaths-Permᴰ, candidates-DistinctPaths, candidates-sum,
  candidates-Listed, evict_lem,
}

module _ (os : Os) (p : Policy) where
  young-Among : (n : Node) (dir : Dir) → Among n (young os p dir) → Among n dir
  young-Among n [] i = i
  young-Among n (m ∷ ms) i = ground (arith, young-Among n ms)

  young-Absent : (k : String) (dir : Dir) → Absent k dir → Absent k (young os p dir)
  young-Absent k [] a = tt
  young-Absent k (n ∷ ns) a = ground (arith, young-Absent k ns a.1)

  young-Distinct : (dir : Dir) → Distinct dir → Distinct (young os p dir)
  young-Distinct [] d = tt
  young-Distinct (n ∷ ns) d = ground (arith, young-Distinct ns d.1, young-Absent n.name ns d.0)

  young-is_expired : (n : Node) (dir : Dir) → Among n (young os p dir) → is_expired os p n ≡ false
  young-is_expired n [] i = elim i [ ]
  young-is_expired n (m ∷ ms) i =
      let rest = young os p ms in
      let split : Bool → Type 0 = λ b. Among n (if b then rest else m ∷ rest) in
      elim (Bool-cases (is_expired os p m)) [
        | inl e ↦ young-is_expired n ms (subst split e i)
        | inr e ↦ elim (subst split e i) [
          | inl q ↦ ap (is_expired os p) q ∙ e
          | inr j ↦ young-is_expired n ms j
        ]
      ]

  evict-Among :
      (n : Node) (es : List EntryInfo) (dir : Dir) (total : ℕ)
      → Among n (evict os p es (dir, total)).0
      → Among n dir
  unfolding evict
  evict-Among n [] dir total i = i
  evict-Among n (e ∷ es) dir total i = ground (
    arith,
    evict-Among n es (remove e.path dir) (sub64 total e.size),
    evict-Among n es dir total,
    remove-Among n e.path dir,
  )

  clear_by_size-Among :
      (sort : List EntryInfo → List EntryInfo) (x : CacheError) (n : Node) (dir : Dir) (total : ℕ)
      → Among n (clear_by_size os sort x p (dir, total)).1
      → Among n dir
  unfolding clear_by_size
  clear_by_size-Among sort x n dir total i =
      ground (arith, evict-Among n (sort (candidates os p dir)) dir total)

  clear_by_size-le :
      (sort : List EntryInfo → List EntryInfo) (x : CacheError) (dir : Dir)
      → ((es : List EntryInfo) → Permᴰ (sort es) es)
      → Works os
      → Steady os p
      → Distinct dir
      → cached_size os p dir < 2 ^ 63
      → p.max_size < 2 ^ 63
      → cached_size os p (clear_by_size os sort x p (dir, cached_size os p dir)).1 ≤ p.max_size
  unfolding clear_by_size lt64
  clear_by_size-le sort x dir sorts works steady d fits small =
      let es = candidates os p dir in
      let r =
        evict_lem os p works small (sort es) dir (cached_size os p dir)
          (DistinctPaths-Permᴰ (sorts es) (candidates-DistinctPaths os p dir d))
          (All-Permᴰ (Listed os p dir) (sorts es) (candidates-Listed os p dir steady)) d
          (sum_sizes-Permᴰ (sorts es) ∙ candidates-sum os p dir steady) refl fits in
      ground (arith, r, works.readable_again)

  clear_by_size_within :
      (sort : List EntryInfo → List EntryInfo) (x : CacheError) (dir : Dir) (total : ℕ)
      → total < 2 ^ 63
      → p.max_size < 2 ^ 63
      → total ≤ p.max_size
      → clear_by_size os sort x p (dir, total) ≡ (none, dir)
  unfolding clear_by_size lt64
  clear_by_size_within sort x dir total fits small within = ground arith

  clear_by_size-works :
      (sort : List EntryInfo → List EntryInfo) (x : CacheError) (dir : Dir) (total : ℕ)
      → Works os
      → (clear_by_size os sort x p (dir, total)).0 ≡ none
  unfolding clear_by_size
  clear_by_size-works sort x dir total works = ground (arith, works.readable_again)

-- What is left of the entries that a clearing by age and by size looks at.
abbrev pub Fits : Os → Policy → Dir → Cleared → Type 0
Fits os p dir (e, left) =
    (e ≡ none)
    × ((n : Node) → Among n left → Among n dir × (is_expired os p n ≡ false))
    × (cached_size os p left ≤ p.max_size)
    × (cached_size os p (young os p dir) ≤ p.max_size → left ≡ young os p dir)

module _ (os : Os) (sort : List EntryInfo → List EntryInfo) (p : Policy) (dir : Dir)
    (sorts : (es : List EntryInfo) → Permᴰ (sort es) es) (works : Works os) (steady : Steady os p)
    (d : Distinct dir) (fits : cached_size os p dir < 2 ^ 63) (small : p.max_size < 2 ^ 63) where
  scanned : scan os p dir (dir, 0) ≡ (young os p dir, cached_size os p (young os p dir))
  scanned = ground (arith, scan_lem os p works dir [] 0 d (omega arith))

  by_size-Fits :
      (x : CacheError) → Fits os p dir (clear_by_size os sort x p (scan os p dir (dir, 0)))
  by_size-Fits x =
      let kept = young os p dir in
      let total = cached_size os p kept in
      let fewer : total < 2 ^ 63 = ground (arith, young-le os p works dir) in
      subst (λ s. Fits os p dir (clear_by_size os sort x p s)) (sym scanned)
        (
          clear_by_size-works os p sort x kept total works,
          λ n i.
              let j = clear_by_size-Among os p sort x n kept total i in
              (young-Among os p n dir j, young-is_expired os p n dir j),
          clear_by_size-le os p sort x kept sorts works steady (young-Distinct os p dir d) fewer
              small,
          λ within.
              ap (λ (s : Cleared). s.1)
                (clear_by_size_within os p sort x kept total fewer small within),
        )

  -- What a clearing of the repositories or of the release assets leaves, where the calls of the
  -- operating system succeed, an entry that is in use when the first loop asks is in use when it is
  -- asked after again, and conversely, the names are distinct and the sizes fit an `int64`. Both return
  -- without an error, and what they leave was there before. Nothing is left that was not in use, whose
  -- information was read, and that is older than the limit; the sizes of what was not in use and could be
  -- read are within the limit on the size; and if those of the young ones are within that limit, exactly
  -- such expired entries are gone. What is in use stays, whatever its age, and is not counted.
  pub clear-Fits :
      Fits os p dir (clear_repository_cache os sort p dir)
      × Fits os p dir (clear_asset_cache os sort p dir)
  unfolding clear_repository_cache clear_asset_cache
  clear-Fits = (
    rw (works.readable) (by_size-Fits read_repository_dir),
    rw (works.readable) (by_size-Fits read_asset_dir),
  )
