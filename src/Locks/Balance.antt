-- ===== src/Locks/Balance.antt =====
-- utils/cache.go: the counts of a mutex against the goroutines at each point of a call.
use gitopia_storage.Prelude.{ℕ, ◌+◌, ◌-◌, ◌≡◌, refl, arith, Bool, true, false, some, Eq, ◌==◌}
use gitopia_storage.Locks.{
  Mutex, Registry, released, set_mutex, take_write, take_read, count_down_write, count_down_read,
  ask_write, ask_read, release_write, release_read, get_mutex,
}
use gitopia_storage.Locks.System.{
  Phase, idle, wants_write, has_write, leaves_write, wants_read, has_read, leaves_read, Act,
  asks_write, asks_read, takes_write, takes_read, releases_write, releases_read, skips_write,
  skips_read, counts_write, counts_read,
}
use gitopia_storage.Locks.Tidy.{At, IsTidy, get_mutex-Found}

abbrev pub one_if : Bool → ℕ
one_if true = 1
one_if false = 0

module _ {K : Type 0} where
  -- Is the goroutine counted by, or holding, the mutex at `id`?
  abbrev pub counted_write : ℕ → Phase K → ℕ
  counted_write id (wants_write k j) = one_if (id == j)
  counted_write id (has_write k j) = one_if (id == j)
  counted_write id (leaves_write k j) = one_if (id == j)
  counted_write id _ = 0

  abbrev pub counted_read : ℕ → Phase K → ℕ
  counted_read id (wants_read k j) = one_if (id == j)
  counted_read id (has_read k j) = one_if (id == j)
  counted_read id (leaves_read k j) = one_if (id == j)
  counted_read id _ = 0

  abbrev pub writing : ℕ → Phase K → ℕ
  writing id (has_write k j) = one_if (id == j)
  writing id _ = 0

  abbrev pub reading : ℕ → Phase K → ℕ
  reading id (has_read k j) = one_if (id == j)
  reading id _ = 0

  -- Where a goroutine is inside a call, the map still has its mutex.
  abbrev pub Linked : Registry K → Phase K → Type 0
  Linked r idle = Unit {0}
  Linked r (wants_write k j) = At r k j
  Linked r (has_write k j) = At r k j
  Linked r (leaves_write k j) = At r k j
  Linked r (wants_read k j) = At r k j
  Linked r (has_read k j) = At r k j
  Linked r (leaves_read k j) = At r k j

-- The mutex counts `w` writers and `d` readers, of which `hw` and `hd` hold it.
pub record IsBalanced (m : Mutex) (w d hw hd : ℕ) : Type 0 where
  pub writes : m.write_count ≡ w
  pub reads : m.read_count ≡ d
  pub writer : one_if m.writer ≡ hw
  pub readers : m.readers ≡ hd
  pub alone : m.writer ≡ true → m.readers ≡ 0

-- The mutexes are balanced against a goroutine at `p` and the others, counted by `w d hw hd`.
abbrev pub Balanced :
    {K : Type 0} → Registry K → Phase K → (ℕ → ℕ) → (ℕ → ℕ) → (ℕ → ℕ) → (ℕ → ℕ) → Type 0
Balanced r p w d hw hd =
    (id : ℕ)
    → IsBalanced (r.heap id) (w id + counted_write id p) (d id + counted_read id p)
        (hw id + writing id p) (hd id + reading id p)

module _ {K : Type 0} ⦃e : Eq K⦄ where
  get_mutex_linked : (k : K) (j : ℕ) (r : Registry K) → r.table k ≡ some j → get_mutex k r ≡ (j, r)
  unfolding get_mutex
  get_mutex_linked k j r h = rw (h, get_mutex) refl

  module _ (w d hw hd : ℕ → ℕ) (k : K) (j : ℕ) (r : Registry K) (linked : At r k j) where
    -- Who holds the lock can release it: the count is positive, and the `RWMutex` is held.
    pub release_write_lem :
        Balanced r (has_write k j) w d hw hd
        → release_write k r ≡ released j (set_mutex j (record (r.heap j) { writer = false }) r)
    unfolding release_write
    release_write_lem b = rw (get_mutex_linked k j r linked.0) (ground (arith, b j))

    pub release_read_lem :
        Balanced r (has_read k j) w d hw hd
        → release_read k r
          ≡ released j (set_mutex j (record (r.heap j) { readers = (r.heap j).readers - 1 }) r)
    unfolding release_read
    release_read_lem b = rw (get_mutex_linked k j r linked.0) (ground (arith, b j))

  -- The step of one goroutine keeps every mutex balanced, whatever the others do.
  pub Act-Balanced :
      {p q : Phase K} {r r' : Registry K} (w d hw hd : ℕ → ℕ)
      → Act p r q r'
      → IsTidy r
      → Linked r p
      → Balanced r p w d hw hd
      → Balanced r' q w d hw hd
  unfolding ask_write ask_read take_write take_read count_down_write count_down_read set_mutex
  Act-Balanced {r = r} w d hw hd (asks_write k) t l b id =
      ground (arith, (get_mutex-Found k r t).heap id, b id)
  Act-Balanced {r = r} w d hw hd (asks_read k) t l b id =
      ground (arith, (get_mutex-Found k r t).heap id, b id)
  Act-Balanced w d hw hd (takes_write now h) t l b id = ground (arith, b id)
  Act-Balanced w d hw hd (takes_read now h) t l b id = ground (arith, b id)
  Act-Balanced {r = r} w d hw hd (releases_write {k = k} {id = j} h) t l b id =
      ground (arith, release_write_lem w d hw hd k j r l b, b id)
  Act-Balanced {r = r} w d hw hd (releases_read {k = k} {id = j} h) t l b id =
      ground (arith, release_read_lem w d hw hd k j r l b, b id)
  Act-Balanced {r = r} w d hw hd (skips_write {k = k} {id = j} h) t l b id =
      cc (release_write_lem w d hw hd k j r l b)
  Act-Balanced {r = r} w d hw hd (skips_read {k = k} {id = j} h) t l b id =
      cc (release_read_lem w d hw hd k j r l b)
  Act-Balanced w d hw hd counts_write t l b id = ground (arith, b id)
  Act-Balanced w d hw hd counts_read t l b id = ground (arith, b id)
