-- ===== src/Locks/Tidy.antt =====
-- utils/cache.go: what each piece of a lock or unlock call does to the map and to the mutexes.
use gitopia_storage.Prelude.{ℕ, ◌≤◌, ◌<◌, ◌≡◌, refl, arith, true, some, Eq, Option-cases, inl, inr}
use gitopia_storage.Locks.{Mutex, new_mutex, Registry, set_mutex, get_mutex}

abbrev pub At : {K : Type 0} → Registry K → K → ℕ → Type 0
At r k id = (r.table k ≡ some id) × (id < r.next)

-- Addresses in the map are below `next`, and no mutex at `next` or above has been used.
pub record IsTidy {K : Type 0} (r : Registry K) : Type 0 where
  pub bounded : (k : K) (id : ℕ) → r.table k ≡ some id → id < r.next
  pub fresh : (id : ℕ) → r.next ≤ id → r.heap id ≡ new_mutex

-- The mutex, as `get_mutex` finds it, and what stays.
pub record Found {K : Type 0} (k : K) (r : Registry K) (id : ℕ) (s : Registry K) : Type 0 where
  pub at : At s k id
  pub tidy : IsTidy s
  pub heap : (j : ℕ) → s.heap j ≡ r.heap j
  pub keeps : (k' : K) (j : ℕ) → At r k' j → At s k' j

module _ {K : Type 0} ⦃e : Eq K⦄ where
  beq_refl : (k : K) → e.beq k k ≡ true
  beq_refl k = (e.beq_iff k k).1 refl

  stored-Found : (k : K) (r : Registry K) (id : ℕ) → IsTidy r → r.table k ≡ some id → Found k r id r
  stored-Found k r id t h = record {
    at = (h, t.bounded k id h);
    tidy = t;
    heap = λ j. refl;
    keeps = λ k' j a. a;
  }

  pub get_mutex-Found :
      (k : K) (r : Registry K) → IsTidy r → Found k r (get_mutex k r).0 (get_mutex k r).1
  unfolding get_mutex
  get_mutex-Found k r t = elim (Option-cases (r.table k)) [
    | inr (id, h) ↦ rw (h, get_mutex) (stored-Found k r id t h)
    | inl h ↦
        rw (h, get_mutex)
          (record {
            at = ground (arith, beq_refl k);
            tidy = record {
              bounded = λ k' id p. ground (arith, t.bounded k' id, p);
              fresh = λ id p. ground (arith, t.fresh id);
            };
            heap = λ j. ground (arith, t.fresh j);
            keeps = λ k' j a. ground (arith, e.beq_iff k' k, h, a);
          })
  ]

  -- Writing to a used mutex keeps the map tidy.
  pub set_mutex-IsTidy :
      (id : ℕ) (m : Mutex) (r : Registry K) → id < r.next → IsTidy r → IsTidy (set_mutex id m r)
  unfolding set_mutex
  set_mutex-IsTidy id m r h t = record {
    bounded = t.bounded;
    fresh = λ j p. ground (arith, t.fresh j);
  }
