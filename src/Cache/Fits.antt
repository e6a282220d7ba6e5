-- ===== src/Cache/Fits.antt =====
-- utils/cache_manager.go: the last loop of a clearing, over a listing with the sizes of what is there.
use mathlib.Core.List.{Permᴰ}
use mathlib.Core.List.Permᴰ.{nil, cons, swap, trans}
use gitopia_storage.Prelude.{
  ℕ, ◌+◌, ◌-◌, ◌≤◌, ◌<◌, ◌^◌, ◌≡◌, ◌≢◌, ◌∙◌, refl, sym, ap, subst, arith, List, [], ◌∷◌, eq_iff,
  All, inl, inr, Option-cases, Bool-cases, String,
}
use gitopia_storage.Cache.{
  by_age, by_size, Node, Dir, Os, Policy, EntryInfo, remove, evict, candidates, is_free, sub64,
  lt64,
}
use gitopia_storage.Cache.InUse.{All-Permᴰ}
use gitopia_storage.Cache.Names.{
  Absent, Distinct, Among, Among-Absent, remove-Absent, Distinct-remove, Among-remove,
}
use gitopia_storage.Cache.Size.{weight, cached_size, Works}

abbrev pub sum_sizes : List EntryInfo → ℕ
sum_sizes [] = 0
sum_sizes (e ∷ es) = e.size + sum_sizes es

abbrev pub OtherPath : EntryInfo → EntryInfo → Type 0
OtherPath e f = f.path ≢ e.path

abbrev pub DistinctPaths : List EntryInfo → Type 0
DistinctPaths [] = Unit
DistinctPaths (e ∷ es) = All (OtherPath e) es × DistinctPaths es

pub sum_sizes-Permᴰ : {xs ys : List EntryInfo} → Permᴰ xs ys → sum_sizes xs ≡ sum_sizes ys
sum_sizes-Permᴰ nil = refl
sum_sizes-Permᴰ (cons e d) = ground (arith, e, sum_sizes-Permᴰ d)
sum_sizes-Permᴰ (swap e f) = ground (arith, e, f)
sum_sizes-Permᴰ (trans d f) = ground (arith, sum_sizes-Permᴰ d, sum_sizes-Permᴰ f)

pub DistinctPaths-Permᴰ :
    {xs ys : List EntryInfo} → Permᴰ xs ys → DistinctPaths ys → DistinctPaths xs
DistinctPaths-Permᴰ nil h = h
DistinctPaths-Permᴰ {xs = x ∷ xs} {ys = y ∷ ys} (cons e d) h = (
  All-Permᴰ (OtherPath x) d (subst (λ z. All (OtherPath z) ys) (sym e) h.0),
  DistinctPaths-Permᴰ d h.1,
)
DistinctPaths-Permᴰ {xs = a ∷ b ∷ l} {ys = d ∷ c ∷ m} (swap e f) h =
    subst (λ x. DistinctPaths (x ∷ b ∷ l)) (sym e)
      (subst (λ y. DistinctPaths (c ∷ y ∷ l)) (sym f) ((λ q. h.0.0 (sym q), h.1.0), (h.0.1, h.1.1)))
DistinctPaths-Permᴰ (trans d f) h = DistinctPaths-Permᴰ d (DistinctPaths-Permᴰ f h)

module _ (os : Os) (p : Policy) where
  -- an entry of the listing, with the size that it counts
  abbrev pub Listed : Dir → EntryInfo → Type 0
  Listed dir e = (n : Node) × (Among n dir × (n.name ≡ e.path) × (weight os p n ≡ e.size))

  remove-weight :
      (n : Node) (dir : Dir)
      → Distinct dir
      → Among n dir
      → cached_size os p (remove n.name dir) + weight os p n ≡ cached_size os p dir
  unfolding remove
  remove-weight n [] d i = elim i [ ]
  remove-weight n (m ∷ ms) d (inl e) = ground (
    arith,
    remove-Absent m.name ms d.0,
    eq_iff m.name m.name,
    ap (λ (x : Node). x.name) e,
    ap (weight os p) e,
  )
  remove-weight n (m ∷ ms) d (inr i) =
      ground (arith, eq_iff m.name n.name, Among-Absent n m.name ms d.0 i, remove-weight n ms d.1 i)

  Listed-remove :
      (name : String) (dir : Dir) (e : EntryInfo)
      → name ≢ e.path
      → Listed dir e
      → Listed (remove name dir) e
  Listed-remove name dir e h (n, (i, q, w)) =
      (n, (Among-remove n name dir (λ r. h (sym r ∙ q)) i, q, w))

  candidates-Absent :
      (k : EntryInfo) (ns : Dir) → Absent k.path ns → All (OtherPath k) (candidates os p ns)
  unfolding candidates
  candidates-Absent k [] a = tt
  candidates-Absent k (n ∷ ns) a = elim (Option-cases (p.entry_size n)) [
    | inl e ↦ ground (arith, e, candidates-Absent k ns a.1)
    | inr (s, e) ↦ ground (arith, e, candidates-Absent k ns a.1)
  ]

  pub candidates-DistinctPaths : (ns : Dir) → Distinct ns → DistinctPaths (candidates os p ns)
  unfolding candidates
  candidates-DistinctPaths [] d = tt
  candidates-DistinctPaths (n ∷ ns) d = elim (Option-cases (p.entry_size n)) [
    | inl e ↦ ground (arith, e, candidates-DistinctPaths ns d.1)
    | inr (s, e) ↦
        let k : EntryInfo = record { path = n.name; mod_time = n.mod_time; size = s } in
        ground (arith, e, candidates-DistinctPaths ns d.1, candidates-Absent k ns d.0)
  ]

  -- The second answers are the first ones again.
  abbrev pub Steady : Type 0
  Steady = (name : String) → p.in_use by_size name ≡ p.in_use by_age name

  still_free : (n : Node) → Steady → is_free os p by_size n ≡ is_free os p by_age n
  unfolding is_free
  still_free n steady = rw (steady n.name) refl

  pub candidates-sum : (ns : Dir) → Steady → sum_sizes (candidates os p ns) ≡ cached_size os p ns
  unfolding candidates
  candidates-sum [] steady = refl
  candidates-sum (n ∷ ns) steady = elim (Option-cases (p.entry_size n)) [
    | inl e ↦ ground (arith, e, still_free n steady, candidates-sum ns steady)
    | inr (s, e) ↦ ground (arith, e, still_free n steady, candidates-sum ns steady)
  ]

  All-weaken :
      (n : Node) (ns : Dir) (es : List EntryInfo) → All (Listed ns) es → All (Listed (n ∷ ns)) es
  All-weaken n ns [] h = tt
  All-weaken n ns (e ∷ es) ((m, (i, q, w)), t) = ((m, (inr i, q, w)), All-weaken n ns es t)

  pub candidates-Listed : (ns : Dir) → Steady → All (Listed ns) (candidates os p ns)
  unfolding candidates
  candidates-Listed [] steady = tt
  candidates-Listed (n ∷ ns) steady =
      let rest = All-weaken n ns (candidates os p ns) (candidates-Listed ns steady) in
      elim (Bool-cases (is_free os p by_size n)) [
        | inl f ↦ elim (Option-cases (p.entry_size n)) [
          | inl e ↦ ground (arith, e, f, rest)
          | inr (s, e) ↦
              let w : weight os p n ≡ s = ground (arith, e, f, still_free n steady) in
              rw (f, e) ((n, (inl refl, refl, w)), rest)
        ]
        | inr f ↦ rw f rest
      ]

  -- the last loop
  module _ (works : Works os) (small : p.max_size < 2 ^ 63) where
    All-remove :
        (k : EntryInfo) (dir : Dir) (es : List EntryInfo)
        → All (OtherPath k) es
        → All (Listed dir) es
        → All (Listed (remove k.path dir)) es
    All-remove k dir [] o h = tt
    All-remove k dir (e ∷ es) o h =
        (Listed-remove k.path dir e (λ q. o.0 (sym q)) h.0, All-remove k dir es o.1 h.1)

    pub evict_lem :
        (es : List EntryInfo) (dir : Dir) (total : ℕ)
        → DistinctPaths es
        → All (Listed dir) es
        → Distinct dir
        → sum_sizes es ≡ total
        → cached_size os p dir ≡ total
        → total < 2 ^ 63
        → cached_size os p (evict os p es (dir, total)).0 ≤ p.max_size
    unfolding evict lt64
    evict_lem [] dir total o h d e f lt = ground arith
    evict_lem (e ∷ es) dir total o ((n, (i, q, w)), t) d s f lt =
        let gone : cached_size os p (remove e.path dir) + e.size ≡ cached_size os p dir =
          subst (λ k. cached_size os p (remove k dir) + e.size ≡ cached_size os p dir) q
            (subst (λ z. cached_size os p (remove n.name dir) + z ≡ cached_size os p dir) w
              (remove-weight n dir d i)) in
        let less : sub64 total e.size ≡ total - e.size = unfold sub64 in omega arith in
        let rest =
          evict_lem es (remove e.path dir) (sub64 total e.size) o.1 (All-remove e dir es o.0 t)
            (Distinct-remove e.path dir d) (rw less (omega arith)) (rw less (omega arith))
            (rw less (omega arith)) in
        ground (arith, rest, works.removes e.path)
