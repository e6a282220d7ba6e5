-- ===== src/Locks/System.antt =====
-- utils/cache.go as interleavings. A goroutine is at one point of a lock or an unlock call; each
-- step runs the code up to the next point where another goroutine can be seen. A goroutine unlocks
-- what it has locked, as every caller in the server does.
use gitopia_storage.Prelude.{ℕ, zero, suc, ◌≡◌, some, List, [], ◌∷◌, ◌++◌, Eq}
use gitopia_storage.Locks.{
  Registry, skipped, released, empty, take_write, take_read, count_down_write, count_down_read,
  ask_write, ask_read, release_write, release_read, expire,
}

-- `wants` has counted itself and waits for the lock; `leaves` has released it and is still counted.
pub data Phase (K : Type 0) : Type 0 where
  idle : Phase K
  wants_write has_write leaves_write : K → ℕ → Phase K
  wants_read has_read leaves_read : K → ℕ → Phase K

pub record State (K : Type 0) : Type 0 where
  pub registry : Registry K
  pub goroutines : List (Phase K)

module _ {K : Type 0} ⦃e : Eq K⦄ where
  pub data Act : Phase K → Registry K → Phase K → Registry K → Type 0 where
    asks_write :
        {r : Registry K} (k : K) → Act idle r (wants_write k (ask_write k r).0) (ask_write k r).1
    asks_read :
        {r : Registry K} (k : K) → Act idle r (wants_read k (ask_read k r).0) (ask_read k r).1
    takes_write :
        {r r' : Registry K} {k : K} {id : ℕ} (now : ℕ)
        → take_write now id r ≡ some r'
        → Act (wants_write k id) r (has_write k id) r'
    takes_read :
        {r r' : Registry K} {k : K} {id : ℕ} (now : ℕ)
        → take_read now id r ≡ some r'
        → Act (wants_read k id) r (has_read k id) r'
    releases_write :
        {r r' : Registry K} {k : K} {id id' : ℕ}
        → release_write k r ≡ released id' r'
        → Act (has_write k id) r (leaves_write k id') r'
    releases_read :
        {r r' : Registry K} {k : K} {id id' : ℕ}
        → release_read k r ≡ released id' r'
        → Act (has_read k id) r (leaves_read k id') r'
    skips_write :
        {r r' : Registry K} {k : K} {id : ℕ}
        → release_write k r ≡ skipped r'
        → Act (has_write k id) r idle r'
    skips_read :
        {r r' : Registry K} {k : K} {id : ℕ}
        → release_read k r ≡ skipped r'
        → Act (has_read k id) r idle r'
    counts_write :
        {r : Registry K} {k : K} {id : ℕ} → Act (leaves_write k id) r idle (count_down_write k id r)
    counts_read :
        {r : Registry K} {k : K} {id : ℕ} → Act (leaves_read k id) r idle (count_down_read k id r)

  -- One goroutine acts.
  pub data Step (s : State K) : State K → Type 0 where
    acts :
        (before after : List (Phase K)) {p q : Phase K} {r : Registry K}
        → s.goroutines ≡ before ++ p ∷ after
        → Act p s.registry q r
        → Step s (record { registry = r; goroutines = before ++ q ∷ after })

  pub data Reach (s : State K) : State K → Type 0 where
    here : Reach s s
    next : {t u : State K} → Reach s t → Step t u → Reach s u

  -- With the cleanups: the timeout of a pending one may come at any moment.
  pub data CleanupStep (s : State K) : State K → Type 0 where
    runs : {t : State K} → Step s t → CleanupStep s t
    expires :
        (before after : List K) (k : K)
        → s.registry.timers ≡ before ++ k ∷ after
        → CleanupStep s
            (record s { registry = record (expire k s.registry) { timers = before ++ after } })

  pub data CleanupReach (s : State K) : State K → Type 0 where
    here : CleanupReach s s
    next : {t u : State K} → CleanupReach s t → CleanupStep t u → CleanupReach s u

-- All goroutines are outside the locks, and no mutex is there yet.
abbrev pub idles : {K : Type 0} → ℕ → List (Phase K)
idles zero = []
idles (suc n) = idle ∷ idles n

unfoldable pub init : {K : Type 0} → ℕ → State K
unfolding empty
init n = record { registry = empty; goroutines = idles n }
