-- ===== src/Locks/Cleanup.antt =====
-- utils/cache.go: what the timeout of a cleanup does to a lock that is held.
use gitopia_storage.Prelude.{ℕ, ◌≡◌, refl, ap, ◌∙◌, arith, true, some, List, ◌∷◌, ◌++◌, Eq}
use gitopia_storage.Locks.{Registry, get_mutex, set_mutex, ask_write, take_write, expire}
use gitopia_storage.Locks.System.{
  Phase, idle, has_write, State, asks_write, takes_write, Step.acts, CleanupReach,
  CleanupReach.here, CleanupReach.next, expires, runs,
}

module _ {K : Type 0} ⦃e : Eq K⦄ where
  -- The registry behind a timeout, a call of lock, and its success.
  expired : K → List K → Registry K → Registry K
  unfolding expire
  expired k timers r = record (expire k r) { timers = timers }

  relocked : K → List K → Registry K → Registry K
  unfolding expired ask_write
  relocked k timers r =
      let s = (ask_write k (expired k timers r)).1 in
      set_mutex r.next (record (s.heap r.next) { writer = true; last_used = 0 }) s

  relock :
      (k : K) (timers : List K) (r : Registry K)
      → ((ask_write k (expired k timers r)).0 ≡ r.next)
        × (take_write 0 r.next (ask_write k (expired k timers r)).1 ≡ some (relocked k timers r))
  unfolding relocked take_write get_mutex
  relock k timers r = ground (arith, e.beq_iff k k)

  -- A pending cleanup of a key breaks its lock: where one goroutine holds the lock for writing and
  -- another is outside, the timeout and a call of lock bring both to hold it for writing.
  pub cleanup_breaks_exclusion :
      (s : State K) (before between after : List (Phase K)) (k : K) (id : ℕ) (early late : List K)
      → s.goroutines ≡ (before ++ has_write k id ∷ between) ++ idle ∷ after
      → s.registry.timers ≡ early ++ k ∷ late
      → (t : State K) × (id' : ℕ) × CleanupReach s t
        × (t.goroutines ≡ (before ++ has_write k id ∷ between) ++ has_write k id' ∷ after)
  unfolding expired
  cleanup_breaks_exclusion s before between after k id early late g h =
      let r = expired k (early ++ late) s.registry in
      let (a, b) = relock k (early ++ late) s.registry in
      let taken : take_write 0 (ask_write k r).0 (ask_write k r).1
          ≡ some (relocked k (early ++ late) s.registry) =
        ap (λ j. take_write 0 j (ask_write k r).1) a ∙ b in
      (
        record {
          registry = relocked k (early ++ late) s.registry;
          goroutines =
              (before ++ has_write k id ∷ between) ++ has_write k (ask_write k r).0 ∷ after;
        },
        _,
        next (next (next here (expires early late k h)) (runs (acts _ after g (asks_write k))))
            (runs (acts _ after refl (takes_write 0 taken))),
        refl,
      )
