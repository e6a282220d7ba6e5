-- ===== src/Locks/Exclusion.antt =====
-- utils/cache.go, as long as no cleanup's timeout comes: the locks exclude one another by key, who
-- is in a call is seen by the in-use test, and an unlock neither panics nor returns early.
use gitopia_storage.Prelude.{ℕ, ◌≡◌, ap, subst, arith, true, some, List, [], ◌∷◌, ◌++◌, Eq, All}
use gitopia_storage.Locks.{Registry, released, release_write, release_read, in_use}
use gitopia_storage.Locks.System.{
  Phase, idle, wants_write, has_write, leaves_write, wants_read, has_read, leaves_read, State,
  Reach, init,
}
use gitopia_storage.Locks.Balance.{
  Balanced, Linked, writing, reading, release_write_lem, release_read_lem,
}
use gitopia_storage.Locks.Invariant.{total, All-split, Inv-Balanced, Reach-init-Inv}

module _ {K : Type 0} where
  -- The goroutine holds the lock of the key, for writing or for reading.
  abbrev pub Holds : K → Phase K → Type 0
  Holds k (has_write k' id) = k' ≡ k
  Holds k (has_read k' id) = k' ≡ k
  Holds k _ = ⊥

  -- The goroutine has asked for the lock of the key, and has not left its unlock call.
  abbrev pub Busy : K → Phase K → Type 0
  Busy k idle = ⊥
  Busy k (wants_write k' id) = k' ≡ k
  Busy k (has_write k' id) = k' ≡ k
  Busy k (leaves_write k' id) = k' ≡ k
  Busy k (wants_read k' id) = k' ≡ k
  Busy k (has_read k' id) = k' ≡ k
  Busy k (leaves_read k' id) = k' ≡ k

  none-Holds :
      (r : Registry K) (k : K) (id : ℕ) (ps : List (Phase K))
      → r.table k ≡ some id
      → All (Linked r) ps
      → total (writing id) ps ≡ 0
      → total (reading id) ps ≡ 0
      → All (λ q. ¬ Holds k q) ps
  none-Holds r k id [] h l w d = tt
  none-Holds r k id (p ∷ ps) h l w d = (
    head p l.0 (omega arith) (omega arith),
    none-Holds r k id ps h l.1 (omega arith) (omega arith),
  )
    where
      head : (q : Phase K) → Linked r q → writing id q ≡ 0 → reading id q ≡ 0 → ¬ Holds k q
      head (has_write k' j) a x y e = ground (arith, h, ap r.table e)
      head (has_read k' j) a x y e = ground (arith, h, ap r.table e)
      head idle a x y e = e
      head (wants_write k' j) a x y e = e
      head (leaves_write k' j) a x y e = e
      head (wants_read k' j) a x y e = e
      head (leaves_read k' j) a x y e = e

module _ {K : Type 0} ⦃e : Eq K⦄ where
  -- Mutual exclusion: in every state that the goroutines reach while no cleanup of a released lock
  -- runs, who holds the write lock of a key is the only one that holds its lock, for writing or for
  -- reading.
  pub mutual_exclusion :
      (n : ℕ) (s : State K) (before after : List (Phase K)) (k : K) (id : ℕ)
      → Reach (init n) s
      → s.goroutines ≡ before ++ has_write k id ∷ after
      → All (λ q. ¬ Holds k q) before × All (λ q. ¬ Holds k q) after
  mutual_exclusion n s before after k id r g =
      let v = Reach-init-Inv n r in
      let (l, m, h) =
        All-split (Linked s.registry) before (has_write k id) after
          (subst (All (Linked s.registry)) g v.linked) in
      let b = Inv-Balanced s before (has_write k id) after v g id in
      (
        none-Holds s.registry k id before m.0 l (ground (arith, b)) (ground (arith, b)),
        none-Holds s.registry k id after m.0 h (ground (arith, b)) (ground (arith, b)),
      )

  seen :
      (r : Registry K) (k : K) (q : Phase K) (w d hw hd : ℕ → ℕ)
      → Linked r q
      → Balanced r q w d hw hd
      → Busy k q
      → in_use k r ≡ true
  unfolding in_use
  seen r k idle w d hw hd l b e = absurd e
  seen r k (wants_write k' j) w d hw hd l b e = ground (arith, b j, l.0, ap r.table e)
  seen r k (has_write k' j) w d hw hd l b e = ground (arith, b j, l.0, ap r.table e)
  seen r k (leaves_write k' j) w d hw hd l b e = ground (arith, b j, l.0, ap r.table e)
  seen r k (wants_read k' j) w d hw hd l b e = ground (arith, b j, l.0, ap r.table e)
  seen r k (has_read k' j) w d hw hd l b e = ground (arith, b j, l.0, ap r.table e)
  seen r k (leaves_read k' j) w d hw hd l b e = ground (arith, b j, l.0, ap r.table e)

  -- A goroutine that has asked for a lock and has not left its unlock call is seen, while no
  -- cleanup of a released lock runs: the in-use test of its key answers yes.
  pub in_use-Busy :
      (n : ℕ) (s : State K) (before after : List (Phase K)) (q : Phase K) (k : K)
      → Reach (init n) s
      → s.goroutines ≡ before ++ q ∷ after
      → Busy k q
      → in_use k s.registry ≡ true
  in_use-Busy n s before after q k r g busy =
      let v = Reach-init-Inv n r in
      let (l, m, h) =
        All-split (Linked s.registry) before q after (subst (All (Linked s.registry)) g v.linked) in
      seen s.registry k q _ _ _ _ m (Inv-Balanced s before q after v g) busy

  -- Who holds a lock releases it, while no cleanup of a released lock runs: its unlock call finds
  -- the mutex that it holds, and neither returns early nor panics.
  pub unlock_releases :
      (n : ℕ) (s : State K) (before after : List (Phase K)) (k : K) (id : ℕ)
      → Reach (init n) s
      → (s.goroutines ≡ before ++ has_write k id ∷ after
          → (t : Registry K) × (release_write k s.registry ≡ released id t))
        × (s.goroutines ≡ before ++ has_read k id ∷ after
            → (t : Registry K) × (release_read k s.registry ≡ released id t))
  unlock_releases n s before after k id r =
      let v = Reach-init-Inv n r in
      (
        λ g.
            let (l, m, h) =
              All-split (Linked s.registry) before (has_write k id) after
                (subst (All (Linked s.registry)) g v.linked) in
            (
              _,
              release_write_lem _ _ _ _ k id s.registry m
                  (Inv-Balanced s before (has_write k id) after v g),
            ),
        λ g.
            let (l, m, h) =
              All-split (Linked s.registry) before (has_read k id) after
                (subst (All (Linked s.registry)) g v.linked) in
            (
              _,
              release_read_lem _ _ _ _ k id s.registry m
                  (Inv-Balanced s before (has_read k id) after v g),
            ),
      )
