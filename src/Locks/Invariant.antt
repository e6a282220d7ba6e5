-- ===== src/Locks/Invariant.antt =====
-- utils/cache.go, as long as no cleanup's timeout comes: the invariant of the locks.
use gitopia_storage.Prelude.{
  ℕ, zero, suc, ◌+◌, ◌≡◌, refl, ap, subst, arith, List, [], ◌∷◌, ◌++◌, Eq, All,
}
use gitopia_storage.Locks.{Registry, empty}
use gitopia_storage.Locks.System.{
  Phase, idle, wants_write, has_write, leaves_write, wants_read, has_read, leaves_read, State, Step,
  Step.acts, Reach, Reach.here, Reach.next, idles, init,
}
use gitopia_storage.Locks.Tidy.{At, IsTidy}
use gitopia_storage.Locks.Balance.{
  Linked, IsBalanced, Balanced, counted_write, counted_read, writing, reading, Act-Balanced,
}
use gitopia_storage.Locks.Kept.{Act-Kept}

module _ {K : Type 0} where
  abbrev pub total : (Phase K → ℕ) → List (Phase K) → ℕ
  total f [] = 0
  total f (p ∷ ps) = f p + total f ps

  pub total-append :
      (f : Phase K → ℕ) (ps qs : List (Phase K)) → total f (ps ++ qs) ≡ total f ps + total f qs
  total-append f [] qs = omega arith
  total-append f (p ∷ ps) qs = omega (arith, total-append f ps qs)

  pub All-split :
      (P : Phase K → Type 0) (ps : List (Phase K)) (q : Phase K) (qs : List (Phase K))
      → All P (ps ++ q ∷ qs)
      → All P ps × P q × All P qs
  All-split P [] q qs h = (tt, h.0, h.1)
  All-split P (p ∷ ps) q qs h = let (l, m, r) = All-split P ps q qs h.1 in ((h.0, l), m, r)

  All-join :
      (P : Phase K → Type 0) (ps : List (Phase K)) (q : Phase K) (qs : List (Phase K))
      → All P ps
      → P q
      → All P qs
      → All P (ps ++ q ∷ qs)
  All-join P [] q qs l m r = (m, r)
  All-join P (p ∷ ps) q qs l m r = (l.0, All-join P ps q qs l.1 m r)

  pub All-map :
      (P Q : Phase K → Type 0) (ps : List (Phase K))
      → ((p : Phase K) → P p → Q p)
      → All P ps
      → All Q ps
  All-map P Q [] h a = tt
  All-map P Q (p ∷ ps) h a = (h p a.0, All-map P Q ps h a.1)

  Linked-mono :
      (r r' : Registry K)
      → ((k : K) (j : ℕ) → At r k j → At r' k j)
      → (p : Phase K) → Linked r p
      → Linked r' p
  Linked-mono r r' h idle l = tt
  Linked-mono r r' h (wants_write k j) l = h k j l
  Linked-mono r r' h (has_write k j) l = h k j l
  Linked-mono r r' h (leaves_write k j) l = h k j l
  Linked-mono r r' h (wants_read k j) l = h k j l
  Linked-mono r r' h (has_read k j) l = h k j l
  Linked-mono r r' h (leaves_read k j) l = h k j l

  abbrev pub others : (Phase K → ℕ) → List (Phase K) → List (Phase K) → ℕ
  others f before after = total f before + total f after

  pub record Inv (s : State K) : Type 0 where
    pub tidy : IsTidy s.registry
    pub linked : All (Linked s.registry) s.goroutines
    pub balanced :
        (id : ℕ)
        → IsBalanced
            (s.registry.heap id)
            (total (counted_write id) s.goroutines)
            (total (counted_read id) s.goroutines)
            (total (writing id) s.goroutines)
            (total (reading id) s.goroutines)

  -- the balance, seen by one goroutine
  pub Inv-Balanced :
      (s : State K) (before : List (Phase K)) (p : Phase K) (after : List (Phase K))
      → Inv s
      → s.goroutines ≡ before ++ p ∷ after
      → Balanced s.registry p
          (λ id. others (counted_write id) before after)
          (λ id. others (counted_read id) before after)
          (λ id. others (writing id) before after)
          (λ id. others (reading id) before after)
  Inv-Balanced s before p after v e id =
      let b = v.balanced id in
      record {
        writes = omega (
          arith,
          b.writes,
          ap (total (counted_write id)) e,
          total-append (counted_write id) before (p ∷ after),
        );
        reads = omega (
          arith,
          b.reads,
          ap (total (counted_read id)) e,
          total-append (counted_read id) before (p ∷ after),
        );
        writer = omega (
          arith,
          b.writer,
          ap (total (writing id)) e,
          total-append (writing id) before (p ∷ after),
        );
        readers = omega (
          arith,
          b.readers,
          ap (total (reading id)) e,
          total-append (reading id) before (p ∷ after),
        );
        alone = b.alone;
      }

module _ {K : Type 0} ⦃e : Eq K⦄ where
  Step-Inv : {s t : State K} → Step s t → Inv s → Inv t
  Step-Inv {s} (acts before after {p} {q} {r} g a) v =
      let (l, m, n) =
        All-split (Linked s.registry) before p after (subst (All (Linked s.registry)) g v.linked) in
      let b = Inv-Balanced s before p after v g in
      let k = Act-Kept _ _ _ _ a v.tidy m b in
      let b' = Act-Balanced _ _ _ _ a v.tidy m b in
      record {
        tidy = k.tidy;
        linked =
            All-join (Linked r) before q after
              (All-map _ _ before (Linked-mono s.registry r k.keeps) l) k.linked
              (All-map _ _ after (Linked-mono s.registry r k.keeps) n);
        balanced = λ id. record {
          writes =
              omega (arith, (b' id).writes, total-append (counted_write id) before (q ∷ after));
          reads = omega (arith, (b' id).reads, total-append (counted_read id) before (q ∷ after));
          writer = omega (arith, (b' id).writer, total-append (writing id) before (q ∷ after));
          readers = omega (arith, (b' id).readers, total-append (reading id) before (q ∷ after));
          alone = (b' id).alone;
        };
      }

  Reach-Inv : {s t : State K} → Reach s t → Inv s → Inv t
  Reach-Inv here v = v
  Reach-Inv (next r st) v = Step-Inv st (Reach-Inv r v)

  idles-zero : (f : Phase K → ℕ) → f idle ≡ 0 → (n : ℕ) → total f (idles n) ≡ 0
  idles-zero f h zero = refl
  idles-zero f h (suc n) = omega (arith, idles-zero f h n)

  idles-Linked : (r : Registry K) (n : ℕ) → All (Linked r) (idles n)
  idles-Linked r zero = tt
  idles-Linked r (suc n) = (tt, idles-Linked r n)

  init-Inv : (n : ℕ) → Inv (init {K = K} n)
  unfolding init empty
  init-Inv n = record {
    tidy = record { bounded = λ k id h. cc; fresh = λ id h. refl };
    linked = idles-Linked empty n;
    balanced = λ id. record {
      writes = omega (arith, idles-zero (counted_write id) refl n);
      reads = omega (arith, idles-zero (counted_read id) refl n);
      writer = omega (arith, idles-zero (writing id) refl n);
      readers = omega (arith, idles-zero (reading id) refl n);
      alone = λ h. refl;
    };
  }

  pub Reach-init-Inv : (n : ℕ) {s : State K} → Reach (init n) s → Inv s
  Reach-init-Inv n r = Reach-Inv r (init-Inv n)
