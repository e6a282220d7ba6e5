-- ===== src/Batch/Tests.antt =====
-- A run of the batches: two messages are added, the ticker takes them, a third is added, and `Stop`
-- takes it before the ticker has broadcast.
use mathlib.Core.List.{Permᴰ}
use gitopia_storage.Prelude.{ℕ, ◌≡◌, refl, true, false, none, some, [], ◌∷◌, ◌++◌, All}
use gitopia_storage.Batch.{
  State, Reach, Step, adds, ticks, closes, stop_takes, stop_sends, here, next, take_batch,
  add_to_batch, close_stop, new_batch_tx_manager, init,
}
use gitopia_storage.Batch.Once.{joined, handled, NonEmpty, batches_once}

abbrev waiting : State ℕ
waiting = record init { manager = record { tx_queue = 1 ∷ 2 ∷ []; stopped = false } }

abbrev taken_once : State ℕ
taken_once = record init {
  manager = record { tx_queue = []; stopped = false };
  ticker = some (1 ∷ 2 ∷ []);
}

abbrev third : State ℕ
third = record taken_once { manager = record { tx_queue = 3 ∷ []; stopped = false } }

abbrev closed : State ℕ
closed = record third { manager = record { tx_queue = 3 ∷ []; stopped = true } }

abbrev drained : State ℕ
drained = record closed {
  manager = record { tx_queue = []; stopped = true };
  stopper = some (3 ∷ []);
}

abbrev sent : State ℕ
sent = record drained { stopper = none; broadcasts = (3 ∷ [], true) ∷ [] }

adds_two : Step init (1 ∷ 2 ∷ []) none waiting
unfolding add_to_batch new_batch_tx_manager
adds_two = adds (1 ∷ 2 ∷ [])

adds_third : Step taken_once (3 ∷ []) none third
unfolding add_to_batch
adds_third = adds (3 ∷ [])

ticks_first : Step waiting [] (some (1 ∷ 2 ∷ [])) taken_once
unfolding take_batch
ticks_first = ticks refl refl

closes_stop : Step third [] none closed
unfolding close_stop
closes_stop = closes refl

drains : Step closed [] (some (3 ∷ [])) drained
unfolding take_batch
drains = stop_takes refl refl refl

sends_last : Step drained [] none sent
sends_last = stop_sends (3 ∷ []) true refl

Reach-sent : Reach (1 ∷ 2 ∷ 3 ∷ []) ((3 ∷ []) ∷ (1 ∷ 2 ∷ []) ∷ []) sent
Reach-sent =
    next (next (next (next (next (next here adds_two) ticks_first) adds_third) closes_stop) drains)
      sends_last

batches_once_example :
    (joined {M = ℕ} ((3 ∷ []) ∷ (1 ∷ 2 ∷ []) ∷ []) ++ sent.manager.tx_queue ≡ 1 ∷ 2 ∷ 3 ∷ [])
    × Permᴰ ((3 ∷ []) ∷ (1 ∷ 2 ∷ []) ∷ []) (handled sent)
    × All (NonEmpty {M = ℕ}) ((3 ∷ []) ∷ (1 ∷ 2 ∷ []) ∷ [])
batches_once_example = batches_once (1 ∷ 2 ∷ 3 ∷ []) ((3 ∷ []) ∷ (1 ∷ 2 ∷ []) ∷ []) sent Reach-sent
