-- ===== src/Batch.antt =====
-- app/batch_tx_manager.go: messages wait in a queue, and are broadcast in batches by two
-- goroutines: the loop of the ticker, and the caller of `Stop`. A step is one region under the
-- queue's mutex, or one broadcast; what the client answers to a broadcast is on the step.
pub mod Once
mod Tests
use gitopia_storage.Prelude.{ℕ, Bool, true, false, ◌≡◌, Option, none, some, List, [], ◌∷◌, ◌++◌}

pub record BatchTxManager (M : Type 0) : Type 0 where
  pub tx_queue : List M
  pub stopped : Bool

-- Which batch each goroutine has taken and not yet broadcast, and the broadcasts so far with their
-- success, the last one first.
pub record State (M : Type 0) : Type 0 where
  pub manager : BatchTxManager M
  pub ticker : Option (List M)
  pub stopper : Option (List M)
  pub broadcasts : List (List M × Bool)

module _ {M : Type 0} where
  unfoldable pub new_batch_tx_manager : BatchTxManager M
  new_batch_tx_manager = record { tx_queue = []; stopped = false }

  unfoldable pub add_to_batch : List M → BatchTxManager M → BatchTxManager M
  add_to_batch msgs b = record b { tx_queue = b.tx_queue ++ msgs }

  -- The region of `processBatch` under the mutex: a copy of the queue, which it resets, or an early
  -- return.
  unfoldable pub take_batch : List M → BatchTxManager M → Option (List M) × BatchTxManager M
  take_batch [] b = (none, b)
  take_batch (m ∷ queue) b = (some (m ∷ queue), record b { tx_queue = [] })

  -- `close(b.stopCh)` panics where it is closed.
  unfoldable pub close_stop : BatchTxManager M → Option (BatchTxManager M)
  close_stop b = elim b.stopped [ true ↦ none | false ↦ some (record b { stopped = true }) ]

  abbrev pub init : State M
  init = record { manager = new_batch_tx_manager; ticker = none; stopper = none; broadcasts = [] }

-- What happens, with the messages that it adds and the batch that it takes.
pub data Step {M : Type 0} : State M → List M → Option (List M) → State M → Type 0 where
  adds :
      {s : State M} (msgs : List M)
      → Step s msgs none (record s { manager = add_to_batch msgs s.manager })
  ticks :
      {s : State M} {batch : Option (List M)} {b : BatchTxManager M}
      → s.ticker ≡ none
      → take_batch s.manager.tx_queue s.manager ≡ (batch, b)
      → Step s [] batch (record s { manager = b; ticker = batch })
  ticker_sends :
      {s : State M} (batch : List M) (success : Bool)
      → s.ticker ≡ some batch
      → Step s [] none (record s { ticker = none; broadcasts = (batch, success) ∷ s.broadcasts })
  closes :
      {s : State M} {b : BatchTxManager M}
      → close_stop s.manager ≡ some b
      → Step s [] none (record s { manager = b })
  stop_takes :
      {s : State M} {batch : Option (List M)} {b : BatchTxManager M}
      → s.manager.stopped ≡ true
      → s.stopper ≡ none
      → take_batch s.manager.tx_queue s.manager ≡ (batch, b)
      → Step s [] batch (record s { manager = b; stopper = batch })
  stop_sends :
      {s : State M} (batch : List M) (success : Bool)
      → s.stopper ≡ some batch
      → Step s [] none (record s { stopper = none; broadcasts = (batch, success) ∷ s.broadcasts })

abbrev pub and_taken : {M : Type 0} → Option (List M) → List (List M) → List (List M)
and_taken none taken = taken
and_taken (some batch) taken = batch ∷ taken

-- The states that are reached, with all messages that were added, in order, and the batches that
-- were taken, the last one first.
pub data Reach {M : Type 0} : List M → List (List M) → State M → Type 0 where
  here : Reach [] [] init
  next :
      {s t : State M} {added msgs : List M} {taken : List (List M)} {batch : Option (List M)}
      → Reach added taken s
      → Step s msgs batch t
      → Reach (added ++ msgs) (and_taken batch taken) t
