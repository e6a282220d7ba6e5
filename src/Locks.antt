-- ===== src/Locks.antt =====
-- utils/cache.go, the reference-counted locks of repositories, release assets and LFS objects. The
-- three families are one piece of code over three maps; it is modelled once, over any key.
-- A `sync.RWMutex` is the number of its readers and whether it has a writer. `lastUsed` is written
-- and never read; `cleanupCh` is never signalled, so a cleanup goroutine always runs into its
-- timeout: it is a pending timer of its key. The counts are `int32`; they are the numbers of
-- goroutines in a call, so they do not come near the bound.
pub mod Families
pub mod System
mod Tidy
mod Balance
mod Kept
mod Invariant
pub mod Exclusion
pub mod Cleanup
mod Tests
use gitopia_storage.Prelude.{
  ℕ, ◌+◌, ◌-◌, Bool, true, false, ◌&&◌, ◌||◌, Option, none, some, List, [], ◌∷◌, Eq, ltb, ◌==◌,
  if◌then◌else◌,
}

pub record Mutex : Type 0 where
  pub read_count : ℕ
  pub write_count : ℕ
  pub readers : ℕ
  pub writer : Bool
  pub last_used : ℕ

abbrev pub new_mutex : Mutex
new_mutex = record { read_count = 0; write_count = 0; readers = 0; writer = false; last_used = 0 }

-- A map from keys to mutexes, which live at addresses below `next`, and the pending cleanups.
pub record Registry (K : Type 0) : Type 0 where
  pub table : K → Option ℕ
  pub heap : ℕ → Mutex
  pub next : ℕ
  pub timers : List K

-- What an unlock comes to: it returns at the count's test, it panics in the `RWMutex`, or it has
-- released the mutex at an address and goes on to count down.
pub data Release (K : Type 0) : Type 0 where
  skipped : Registry K → Release K
  fault : Release K
  released : ℕ → Registry K → Release K

unfoldable pub empty : {K : Type 0} → Registry K
empty = record { table = λ k. none; heap = λ id. new_mutex; next = 0; timers = [] }

module _ {K : Type 0} where
  unfoldable pub set_mutex : ℕ → Mutex → Registry K → Registry K
  set_mutex id m r = record r { heap = λ j. if j == id then m else r.heap j }

  -- `mutex.mu.Lock()` and the time stamp; `none` while the caller is blocked.
  unfoldable pub take_write : ℕ → ℕ → Registry K → Option (Registry K)
  unfolding set_mutex
  take_write now id r =
      let m = r.heap id in
      if m.writer || ltb 0 m.readers
      then none
      else some (set_mutex id (record m { writer = true; last_used = now }) r)

  unfoldable pub take_read : ℕ → ℕ → Registry K → Option (Registry K)
  unfolding set_mutex
  take_read now id r =
      let m = r.heap id in
      if m.writer
      then none
      else some (set_mutex id (record m { readers = m.readers + 1; last_used = now }) r)

  -- The count goes down; the last one out schedules the cleanup.
  unfoldable pub count_down_write : K → ℕ → Registry K → Registry K
  unfolding set_mutex
  count_down_write k id r =
      let m = r.heap id in
      let s = set_mutex id (record m { write_count = m.write_count - 1 }) r in
      if m.write_count - 1 == 0 then record s { timers = k ∷ r.timers } else s

  unfoldable pub count_down_read : K → ℕ → Registry K → Registry K
  unfolding set_mutex
  count_down_read k id r =
      let m = r.heap id in
      let s = set_mutex id (record m { read_count = m.read_count - 1 }) r in
      if m.read_count - 1 == 0 && m.write_count == 0 then record s { timers = k ∷ r.timers } else s

module _ {K : Type 0} ⦃e : Eq K⦄ where
  -- `LoadOrStore`: the address in the map, or that of a new mutex.
  unfoldable pub get_mutex : K → Registry K → ℕ × Registry K
  get_mutex k r = elim (r.table k) [
    | some id ↦ (id, r)
    | none ↦ (
      r.next,
      record r {
        table = λ j. if e.beq j k then some r.next else r.table j;
        heap = λ j. if j == r.next then new_mutex else r.heap j;
        next = r.next + 1;
      },
    )
  ]

  -- A lock call up to the point where it may block.
  unfoldable pub ask_write : K → Registry K → ℕ × Registry K
  unfolding get_mutex set_mutex
  ask_write k r =
      let (id, s) = get_mutex k r in
      let m = s.heap id in (id, set_mutex id (record m { write_count = m.write_count + 1 }) s)

  unfoldable pub ask_read : K → Registry K → ℕ × Registry K
  unfolding get_mutex set_mutex
  ask_read k r =
      let (id, s) = get_mutex k r in
      let m = s.heap id in (id, set_mutex id (record m { read_count = m.read_count + 1 }) s)

  -- An unlock call up to and with the release of the `RWMutex`.
  unfoldable pub release_write : K → Registry K → Release K
  unfolding get_mutex set_mutex
  release_write k r =
      let (id, s) = get_mutex k r in
      let m = s.heap id in
      if m.write_count == 0
      then skipped s
      else if m.writer
      then released id (set_mutex id (record m { writer = false }) s)
      else fault

  unfoldable pub release_read : K → Registry K → Release K
  unfolding get_mutex set_mutex
  release_read k r =
      let (id, s) = get_mutex k r in
      let m = s.heap id in
      if m.read_count == 0
      then skipped s
      else if m.readers == 0
      then fault
      else released id (set_mutex id (record m { readers = m.readers - 1 }) s)

  -- A cleanup's timeout: the entry of its key leaves the map, whatever has happened since.
  unfoldable pub expire : K → Registry K → Registry K
  expire k r = record r { table = λ j. if e.beq j k then none else r.table j }

  -- The whole calls, where nothing runs in between. `none`: the caller blocks, or it panics.
  unfoldable pub lock : K → ℕ → Registry K → Option (Registry K)
  unfolding ask_write take_write
  lock k now r = let (id, s) = ask_write k r in take_write now id s

  unfoldable pub rlock : K → ℕ → Registry K → Option (Registry K)
  unfolding ask_read take_read
  rlock k now r = let (id, s) = ask_read k r in take_read now id s

  unfoldable pub unlock : K → Registry K → Option (Registry K)
  unfolding release_write count_down_write
  unlock k r = elim (release_write k r) [
    | skipped s ↦ some s
    | fault ↦ none
    | released id s ↦ some (count_down_write k id s)
  ]

  unfoldable pub runlock : K → Registry K → Option (Registry K)
  unfolding release_read count_down_read
  runlock k r = elim (release_read k r) [
    | skipped s ↦ some s
    | fault ↦ none
    | released id s ↦ some (count_down_read k id s)
  ]

  unfoldable pub in_use : K → Registry K → Bool
  in_use k r = elim (r.table k) [
    | none ↦ false
    | some id ↦ ltb 0 (r.heap id).read_count || ltb 0 (r.heap id).write_count
  ]
