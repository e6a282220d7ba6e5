-- ===== src/Locks/Tests.antt =====
-- Runs of the locks, and witnesses.
use gitopia_storage.Prelude.{ℕ, ◌≡◌, refl, true, some, none, [], ◌∷◌, nat_eq, All, Option}
use gitopia_storage.Locks.{
  Registry, released, empty, lock, unlock, rlock, in_use, ask_write, take_write, release_write,
  set_mutex,
}
use gitopia_storage.Locks.System.{
  idle, wants_write, has_write, State, asks_write, takes_write, Step.acts, Reach, Reach.here,
  Reach.next, CleanupReach, init,
}
use gitopia_storage.Locks.Exclusion.{Holds, mutual_exclusion, in_use-Busy, unlock_releases}
use gitopia_storage.Locks.Cleanup.{cleanup_breaks_exclusion}

abbrev asked : Registry ℕ
asked = (ask_write 7 empty).1

abbrev address : ℕ
address = (ask_write 7 (empty {K = ℕ})).0

abbrev locked : Registry ℕ
locked = set_mutex address (record (asked.heap address) { writer = true; last_used = 3 }) asked

-- The first of two goroutines waits for the lock of repository 7, and then holds it.
abbrev waiting : State ℕ
waiting = record { registry = asked; goroutines = wants_write 7 address ∷ idle ∷ [] }

abbrev holding : State ℕ
holding = record { registry = locked; goroutines = has_write 7 address ∷ idle ∷ [] }

Reach-waiting : Reach (init 2) waiting
unfolding init
Reach-waiting = next here (acts [] (idle ∷ []) refl (asks_write 7))

took : take_write 3 address asked ≡ some locked
unfolding take_write ask_write empty
took = refl

Reach-holding : Reach (init 2) holding
Reach-holding = next Reach-waiting (acts [] (idle ∷ []) refl (takes_write {r' = locked} 3 took))

-- A second writer blocks; a reader gets in behind an unlock.
second_writer_blocks : lock 7 4 locked ≡ none
unfolding lock empty
second_writer_blocks = refl

free_after_unlock : Option ℕ
unfolding unlock rlock empty
free_after_unlock = elim (unlock 7 locked) [
  | none ↦ none
  | some r ↦ elim (rlock 7 9 r) [ none ↦ none | some t ↦ some (t.heap 0).readers ]
]

free_after_unlock_is_one : free_after_unlock ≡ some 1
unfolding free_after_unlock ask_write
free_after_unlock_is_one = refl

mutual_exclusion_example : Unit {0} × All (λ q. ¬ Holds {K = ℕ} 7 q) (idle ∷ [])
mutual_exclusion_example = mutual_exclusion 2 holding [] (idle ∷ []) 7 address Reach-holding refl

in_use_example : in_use 7 waiting.registry ≡ true
in_use_example =
    in_use-Busy 2 waiting [] (idle ∷ []) (wants_write 7 address) 7 Reach-waiting refl refl

unlock_releases_example : (t : Registry ℕ) × (release_write 7 locked ≡ released address t)
unlock_releases_example = (unlock_releases 2 holding [] (idle ∷ []) 7 address Reach-holding).0 refl

-- The lock was taken while the cleanup of an earlier unlock was pending.
abbrev stale : State ℕ
stale = record holding { registry = record locked { timers = 7 ∷ [] } }

cleanup_example :
    (t : State ℕ) × (id : ℕ) × CleanupReach stale t
    × (t.goroutines ≡ has_write 7 address ∷ has_write 7 id ∷ [])
cleanup_example = cleanup_breaks_exclusion stale [] [] [] 7 address [] [] refl refl
