-- ===== src/Cache/InUse.antt =====
-- utils/cache_manager.go: why a clearing removes an entry.
use mathlib.Core.List.{Permᴰ}
use mathlib.Core.List.Permᴰ.{nil, cons, swap, trans}
use gitopia_storage.Prelude.{
  ℕ, ◌≡◌, refl, ◌∙◌, ◌⊎◌, inl, inr, Bool, ◌&&◌, Bool-cases, if◌then◌else◌, eq_iff, str_eq, subst,
  sym, ap, arith, true, false, List, [], ◌∷◌, All,
}
use gitopia_storage.Cache.{
  clear_by_size, by_age, by_size, is_old, lt64, CacheError, read_repository_dir, read_asset_dir,
  Node, Dir, Os, Policy, EntryInfo, scan, visit, evict, candidates, clear_repository_cache,
  clear_asset_cache, is_free, remove, sub64,
}
use gitopia_storage.Cache.Lfs.{evict_lfs, clear_lfs_cache}
use gitopia_storage.Cache.Names.{Among, Distinct, Among-remove, same_node}

pub All-Permᴰ : {A : Type 0} (P : A → Type 0) {xs ys : List A} → Permᴰ xs ys → All P ys → All P xs
All-Permᴰ P nil h = h
All-Permᴰ P (cons e d) h = (subst P (sym e) h.0, All-Permᴰ P d h.1)
All-Permᴰ P (swap e f) h = (subst P (sym e) h.1.0, (subst P (sym f) h.0, h.1.1))
All-Permᴰ P (trans d f) h = All-Permᴰ P d (All-Permᴰ P f h)

module _ (os : Os) (p : Policy) (n : Node) where
  -- An entry with the name of n was answered not to be in use in the first loop, and is too old.
  abbrev Expired : List Node → Type 0
  Expired ms =
      (m : Node) × Among m ms
      × (m.name ≡ n.name)
      × (p.in_use by_age m.name ≡ false)
      × (is_old os p m ≡ true)

  visit-Expired :
      (m : Node) (dir : Dir) (total : ℕ)
      → Among n dir
      → Among n (visit os p m (dir, total)).0
        ⊎ ((m.name ≡ n.name) × (p.in_use by_age m.name ≡ false) × (is_old os p m ≡ true))
  unfolding visit is_free
  visit-Expired m dir total i = elim (Bool-cases (is_free os p by_age m && is_old os p m)) [
    | inl e ↦ elim (Bool-cases (str_eq m.name n.name)) [
      | inl q ↦ inr ((eq_iff m.name n.name).0 q, ground (arith, e), ground (arith, e))
      | inr q ↦ inl (ground (arith, Among-remove n m.name dir, eq_iff m.name n.name, q))
    ]
    | inr e ↦ inl (ground (arith, e, i))
  ]

  scan-Expired :
      (ms : List Node) (dir : Dir) (total : ℕ)
      → Among n dir
      → Among n (scan os p ms (dir, total)).0 ⊎ Expired ms
  unfolding scan
  scan-Expired [] dir total i = inl i
  scan-Expired (m ∷ ms) dir total i =
      let (d, t) = visit os p m (dir, total) in
      elim (visit-Expired m dir total i) [
        | inl j ↦ elim (scan-Expired ms d t j) [
          | inl k ↦ inl k
          | inr (o, among, q, free, old) ↦ inr (o, inr among, q, free, old)
        ]
        | inr (q, free, old) ↦ inr (m, inl refl, q, free, old)
      ]

  -- The last loop, for an entry that the second question finds in use.
  module _ (busy : p.in_use by_size n.name ≡ true) where
    abbrev NotBusy : EntryInfo → Type 0
    NotBusy e = p.in_use by_size e.path ≡ false

    candidates-NotBusy : (ms : List Node) → All NotBusy (candidates os p ms)
    unfolding candidates is_free
    candidates-NotBusy [] = tt
    candidates-NotBusy (m ∷ ms) = ground (arith, candidates-NotBusy ms)

    evict-Among :
        (es : List EntryInfo) (dir : Dir) (total : ℕ)
        → All NotBusy es
        → Among n dir
        → Among n (evict os p es (dir, total)).0
    unfolding evict
    evict-Among [] dir total h i = i
    evict-Among (e ∷ es) dir total h i = ground (
      arith,
      evict-Among es (remove e.path dir) (sub64 total e.size) h.1
          (Among-remove n e.path dir (λ q. cc (ap (p.in_use by_size) q)) i),
      evict-Among es dir total h.1 i,
    )

    evict_lfs-Among :
        (ms : List Node) (dir : Dir) (total : ℕ)
        → Among n dir
        → Among n (evict_lfs os p ms (dir, total)).0
    unfolding evict_lfs is_free
    evict_lfs-Among [] dir total i = i
    evict_lfs-Among (m ∷ ms) dir total i = ground (
      arith,
      evict_lfs-Among ms (remove m.name dir) (sub64 total m.size),
      evict_lfs-Among ms dir total i,
      Among-remove n m.name dir,
    )

  -- An entry was removed by size: it was answered not to be in use for that, and the total of the first
  -- loop is over the limit.
  abbrev Evicted : ℕ → Type 0
  Evicted total = (p.in_use by_size n.name ≡ false) × (lt64 p.max_size total ≡ true)

  clear_by_size-Evicted :
      (sort : List EntryInfo → List EntryInfo) (e : CacheError) (dir : Dir) (total : ℕ)
      → ((es : List EntryInfo) → Permᴰ (sort es) es)
      → Among n dir
      → Among n (clear_by_size os sort e p (dir, total)).1 ⊎ Evicted total
  unfolding clear_by_size
  clear_by_size-Evicted sort e dir total sorts i =
      let es = candidates os p dir in
      elim (Bool-cases (lt64 p.max_size total)) [
        | inl big ↦ elim (Bool-cases (p.in_use by_size n.name)) [
          | inl busy ↦
              let kept =
                evict-Among busy (sort es) dir total
                  (All-Permᴰ (NotBusy busy) (sorts es) (candidates-NotBusy busy dir)) i in
              inl (ground (arith, big, kept))
          | inr free ↦ inr (free, big)
        ]
        | inr small ↦ inl (ground (arith, small, i))
      ]

  -- What becomes of an entry of the directory: it stays, or there was a reason to remove it.
  abbrev pub Justified : Dir → Dir → Type 0
  Justified dir left =
      Among n left
      ⊎ (((p.in_use by_age n.name ≡ false) × (is_old os p n ≡ true))
          ⊎ Evicted (scan os p dir (dir, 0)).1)

  Expired-Justified :
      (dir left : Dir) → Distinct dir → Among n dir → Expired dir → Justified dir left
  Expired-Justified dir left d i (m, j, q, free, old) =
      let same : m ≡ n = same_node n m dir d i j q in
      inr (inl (sym (ap (p.in_use by_age) q) ∙ free, sym (ap (is_old os p) same) ∙ old))

  by_size-Justified :
      (sort : List EntryInfo → List EntryInfo) (e : CacheError) (dir : Dir)
      → ((es : List EntryInfo) → Permᴰ (sort es) es)
      → Distinct dir
      → Among n dir
      → Justified dir (clear_by_size os sort e p (scan os p dir (dir, 0))).1
  by_size-Justified sort e dir sorts d i =
      let (kept, total) = scan os p dir (dir, 0) in
      elim (scan-Expired dir dir 0 i) [
        | inl j ↦ elim (clear_by_size-Evicted sort e kept total sorts j) [
          | inl k ↦ inl k
          | inr why ↦ inr (inr why)
        ]
        | inr gone ↦ Expired-Justified dir _ d i gone
      ]

  either_way :
      {A : Type 0} (b : Bool) (dir : Dir) (x y : A × Dir)
      → Justified dir x.1
      → Justified dir y.1
      → Justified dir (if b then x else y).1
  either_way true dir x y h k = h
  either_way false dir x y h k = k

  lfs-Justified :
      (sort_entries : Dir → List Node → List Node) (dir : Dir)
      → Distinct dir
      → Among n dir
      → Justified dir (clear_lfs_cache os sort_entries p dir).1
  unfolding clear_lfs_cache
  lfs-Justified sort_entries dir d i =
      let (kept, total) = scan os p dir (dir, 0) in
      either_way os.readable dir _ _
        (elim (scan-Expired dir dir 0 i) [
          | inl j ↦ elim (Bool-cases (lt64 p.max_size total)) [
            | inl big ↦ elim (Bool-cases (p.in_use by_size n.name)) [
              | inl busy ↦
                  inl
                    (ground (arith, big, evict_lfs-Among busy (sort_entries kept dir) kept total j))
              | inr free ↦ inr (inr (free, big))
            ]
            | inr small ↦ inl (ground (arith, small, j))
          ]
          | inr gone ↦ Expired-Justified dir _ d i gone
        ])
        (inl i)

-- What a clearing of any of the three caches does to an entry of the directory, also if it ends with
-- an error: the entry stays; or the first loop was answered that it is not in use, and it is older than
-- the limit; or it was answered not to be in use when it was asked after for the removal by size, and
-- the size that the first loop counted is over the limit. So an entry that both questions find in use
-- stays. The names are distinct and the sort returns the entries in another order.
pub clear-Justified :
    (os : Os) (sort : List EntryInfo → List EntryInfo) (sort_entries : Dir → List Node → List Node)
    (p : Policy) (dir : Dir) (n : Node)
    → ((es : List EntryInfo) → Permᴰ (sort es) es)
    → Distinct dir
    → Among n dir
    → Justified os p n dir (clear_repository_cache os sort p dir).1
      × Justified os p n dir (clear_asset_cache os sort p dir).1
      × Justified os p n dir (clear_lfs_cache os sort_entries p dir).1
unfolding clear_repository_cache clear_asset_cache
clear-Justified os sort sort_entries p dir n sorts d i = (
  either_way os p n os.readable dir _ _
      (by_size-Justified os p n sort read_repository_dir dir sorts d i) (inl i),
  either_way os p n os.readable dir _ _ (by_size-Justified os p n sort read_asset_dir dir sorts d i)
      (inl i),
  lfs-Justified os p n sort_entries dir d i,
)
