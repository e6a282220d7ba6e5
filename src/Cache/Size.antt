-- ===== src/Cache/Size.antt =====
-- utils/cache_manager.go: the size of a cache, and how the two loops keep count of it, where every
-- call of the operating system succeeds and the sizes fit an `int64`.
use mathlib.Core.List.{append_assoc}
use gitopia_storage.Prelude.{
  ℕ, ◌+◌, ◌≤◌, ◌<◌, ◌^◌, ◌≡◌, sym, arith, true, false, ◌&&◌, Option, none, some, [], ◌∷◌, ◌++◌,
  eq_iff, if◌then◌else◌, inl, inr, Bool, String, Bool-cases, Option-cases,
}
use gitopia_storage.Cache.{
  by_age, Node, Dir, Os, Policy, remove, try_remove, scan, visit, is_free, is_old, add64,
}
use gitopia_storage.Cache.Names.{Absent, Distinct, remove-Absent, remove-append}

abbrev pub size_or_zero : Option ℕ → ℕ
size_or_zero none = 0
size_or_zero (some s) = s

-- What an entry counts: nothing if it is in use, or if its size is not found.
abbrev pub weight : Os → Policy → Node → ℕ
weight os p n = if is_free os p by_age n then size_or_zero (p.entry_size n) else 0

abbrev pub cached_size : Os → Policy → Dir → ℕ
cached_size os p [] = 0
cached_size os p (n ∷ ns) = weight os p n + cached_size os p ns

abbrev pub is_expired : Os → Policy → Node → Bool
is_expired os p n = is_free os p by_age n && is_old os p n

abbrev pub young : Os → Policy → Dir → Dir
young os p [] = []
young os p (n ∷ ns) = let rest = young os p ns in if is_expired os p n then rest else n ∷ rest

pub record Works (os : Os) : Type 0 where
  pub readable : os.readable ≡ true
  pub readable_again : os.readable_again ≡ true
  pub info : (name : String) → os.info_ok name ≡ true
  pub removes : (name : String) → os.remove_ok name ≡ true

Absent-append : (k : String) (xs ys : Dir) → Absent k (xs ++ ys) → Absent k xs × Absent k ys
Absent-append k [] ys h = (tt, h)
Absent-append k (x ∷ xs) ys h = let (a, b) = Absent-append k xs ys h.1 in ((h.0, a), b)

Absent-join : (k : String) (xs ys : Dir) → Absent k xs → Absent k ys → Absent k (xs ++ ys)
Absent-join k [] ys a b = b
Absent-join k (x ∷ xs) ys a b = (a.0, Absent-join k xs ys a.1 b)

Distinct-middle :
    (xs : Dir) (n : Node) (ys : Dir)
    → Distinct (xs ++ n ∷ ys)
    → Absent n.name xs × Absent n.name ys × Distinct (xs ++ ys)
Distinct-middle [] n ys d = (tt, d.0, d.1)
Distinct-middle (x ∷ xs) n ys d =
    let (a, b, c) = Distinct-middle xs n ys d.1 in
    let (f, g) = Absent-append x.name xs (n ∷ ys) d.0 in
    ((λ e. g.0 (sym e), a), b, (Absent-join x.name xs ys f g.1, c))

remove_middle :
    (xs : Dir) (n : Node) (ys : Dir)
    → Distinct (xs ++ n ∷ ys)
    → remove n.name (xs ++ n ∷ ys) ≡ xs ++ ys
unfolding remove
remove_middle xs n ys d =
    let (a, b, c) = Distinct-middle xs n ys d in
    ground (
      arith,
      remove-append n.name xs (n ∷ ys),
      remove-Absent n.name xs a,
      remove-Absent n.name ys b,
      eq_iff n.name n.name,
    )

module _ (os : Os) (p : Policy) (works : Works os) where
  pub young-le : (ns : Dir) → cached_size os p (young os p ns) ≤ cached_size os p ns
  young-le [] = omega arith
  young-le (n ∷ ns) = ground (arith, young-le ns)

  add64_small : (a b : ℕ) → a + b < 2 ^ 63 → add64 a b ≡ a + b
  unfolding add64
  add64_small a b h = omega arith

  visit-expired :
      (n : Node) (dir : Dir) (total : ℕ)
      → is_expired os p n ≡ true
      → visit os p n (dir, total) ≡ (remove n.name dir, total)
  unfolding visit try_remove
  visit-expired n dir total h = ground (arith, works.removes n.name)

  visit-kept :
      (n : Node) (dir : Dir) (total : ℕ)
      → is_expired os p n ≡ false
      → total + weight os p n < 2 ^ 63
      → visit os p n (dir, total) ≡ (dir, total + weight os p n)
  unfolding visit
  visit-kept n dir total h fits = elim (Option-cases (p.entry_size n)) [
    | inl e ↦ ground (arith, e)
    | inr (s, e) ↦ ground (arith, e, add64_small total s)
  ]

  -- The first loop removes what is expired, and its total is the size of what it leaves.
  pub scan_lem :
      (ns xs : Dir) (total : ℕ)
      → Distinct (xs ++ ns)
      → total + cached_size os p ns < 2 ^ 63
      → scan os p ns (xs ++ ns, total)
        ≡ (xs ++ young os p ns, total + cached_size os p (young os p ns))
  unfolding scan
  scan_lem [] xs total d h = ground arith
  scan_lem (n ∷ ns) xs total d h = elim (Bool-cases (is_expired os p n)) [
    | inl e ↦
        rw (visit-expired n (xs ++ n ∷ ns) total e, remove_middle xs n ns d, e)
          (scan_lem ns xs total (Distinct-middle xs n ns d).2 (ground arith))
    | inr e ↦
        let fits : total + weight os p n + cached_size os p ns < 2 ^ 63 = ground arith in
        let here = visit-kept n (xs ++ n ∷ ns) total e (ground arith) in
        let rest =
          scan_lem ns (xs ++ n ∷ []) (total + weight os p n) (rw (append_assoc xs (n ∷ []) ns) d)
            fits in
        ground (
          arith,
          e,
          here,
          rest,
          append_assoc xs (n ∷ []) ns,
          append_assoc xs (n ∷ []) (young os p ns),
        )
  ]
