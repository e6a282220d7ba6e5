-- ===== src/Locks/Kept.antt =====
-- utils/cache.go: what a step leaves of the map of locks.
use gitopia_storage.Prelude.{◌≢◌, ℕ, ◌<◌, ◌≡◌, arith, Eq}
use gitopia_storage.Locks.{
  Registry, set_mutex, take_write, take_read, count_down_write, count_down_read, ask_write,
  ask_read,
}
use gitopia_storage.Locks.System.{
  Phase, idle, has_write, leaves_write, has_read, leaves_read, Act, asks_write, asks_read,
  takes_write, takes_read, releases_write, releases_read, skips_write, skips_read, counts_write,
  counts_read,
}
use gitopia_storage.Locks.Tidy.{At, IsTidy, get_mutex-Found, set_mutex-IsTidy}
use gitopia_storage.Locks.Balance.{Linked, Balanced, release_write_lem, release_read_lem}

-- It stays tidy, and every linked goroutine stays linked.
pub record Kept {K : Type 0} (r : Registry K) (q : Phase K) (r' : Registry K) : Type 0 where
  pub tidy : IsTidy r'
  pub linked : Linked r' q
  pub keeps : (k : K) (j : ℕ) → At r k j → At r' k j

-- Only the mutex at `id`, or a timer, is new.
record OnlyAt {K : Type 0} (id : ℕ) (r r' : Registry K) : Type 0 where
  table : (k : K) → r'.table k ≡ r.table k
  next : r'.next ≡ r.next
  heap : (j : ℕ) → j ≢ id → r'.heap j ≡ r.heap j

module _ {K : Type 0} (id : ℕ) (r r' : Registry K) (o : OnlyAt id r r') where
  OnlyAt-At : (k : K) (j : ℕ) → At r k j → At r' k j
  OnlyAt-At k j a = ground (arith, o.table k, o.next)

  OnlyAt-IsTidy : IsTidy r → id < r.next → IsTidy r'
  OnlyAt-IsTidy t h = record {
    bounded = λ k j e. ground (arith, o.table k, o.next, t.bounded k j);
    fresh = λ j e. ground (arith, o.next, o.heap j, t.fresh j);
  }

module _ {K : Type 0} ⦃e : Eq K⦄ where
  stays_in_call :
      (k : K) (id : ℕ) (r r' : Registry K) (q : Phase K)
      → IsTidy r
      → At r k id
      → OnlyAt id r r'
      → (At r' k id → Linked r' q)
      → Kept r q r'
  stays_in_call k id r r' q t a o l = record {
    tidy = OnlyAt-IsTidy id r r' o t a.1;
    linked = l (OnlyAt-At id r r' o k id a);
    keeps = OnlyAt-At id r r' o;
  }

  pub Act-Kept :
      {p q : Phase K} {r r' : Registry K} (w d hw hd : ℕ → ℕ)
      → Act p r q r'
      → IsTidy r
      → Linked r p
      → Balanced r p w d hw hd
      → Kept r q r'
  unfolding ask_write ask_read take_write take_read count_down_write count_down_read set_mutex
  Act-Kept {r = r} w d hw hd (asks_write k) t l b =
      let f = get_mutex-Found k r t in
      record { tidy = set_mutex-IsTidy _ _ _ f.at.1 f.tidy; linked = f.at; keeps = f.keeps }
  Act-Kept {r = r} w d hw hd (asks_read k) t l b =
      let f = get_mutex-Found k r t in
      record { tidy = set_mutex-IsTidy _ _ _ f.at.1 f.tidy; linked = f.at; keeps = f.keeps }
  Act-Kept {r = r} {r' = r'} w d hw hd (takes_write {k = k} {id = j} now h) t l b =
      stays_in_call k j r r' (has_write k j) t l
        (record { table = λ i. ground arith; next = ground arith; heap = λ i n. ground arith })
        (λ a. a)
  Act-Kept {r = r} {r' = r'} w d hw hd (takes_read {k = k} {id = j} now h) t l b =
      stays_in_call k j r r' (has_read k j) t l
        (record { table = λ i. ground arith; next = ground arith; heap = λ i n. ground arith })
        (λ a. a)
  Act-Kept {r = r} {r' = r'} w d hw hd (releases_write {k = k} {id = j} {id' = j'} h) t l b =
      let s = release_write_lem w d hw hd k j r l b in
      stays_in_call k j r r' (leaves_write k j') t l
        (record {
          table = λ i. ground (arith, s);
          next = ground (arith, s);
          heap = λ i n. ground (arith, s);
        })
        (λ a. ground (arith, s, a))
  Act-Kept {r = r} {r' = r'} w d hw hd (releases_read {k = k} {id = j} {id' = j'} h) t l b =
      let s = release_read_lem w d hw hd k j r l b in
      stays_in_call k j r r' (leaves_read k j') t l
        (record {
          table = λ i. ground (arith, s);
          next = ground (arith, s);
          heap = λ i n. ground (arith, s);
        })
        (λ a. ground (arith, s, a))
  Act-Kept {r = r} w d hw hd (skips_write {k = k} {id = j} h) t l b =
      absurd (cc (release_write_lem w d hw hd k j r l b))
  Act-Kept {r = r} w d hw hd (skips_read {k = k} {id = j} h) t l b =
      absurd (cc (release_read_lem w d hw hd k j r l b))
  Act-Kept {r = r} {r' = r'} w d hw hd (counts_write {k = k} {id = j}) t l b =
      stays_in_call k j r r' idle t l
        (record { table = λ i. ground arith; next = ground arith; heap = λ i n. ground arith })
        (λ a. tt)
  Act-Kept {r = r} {r' = r'} w d hw hd (counts_read {k = k} {id = j}) t l b =
      stays_in_call k j r r' idle t l
        (record { table = λ i. ground arith; next = ground arith; heap = λ i n. ground arith })
        (λ a. tt)
