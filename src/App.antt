-- ===== src/App.antt =====
-- app/gitopia.go: the parts of the chain's proxy that are more than a call of the chain: waiting for
-- an update, the checks that it waits for, and reading all pages of a repository's release assets.
-- Times are in milliseconds.
pub mod Deadline
pub mod Pages
mod Tests
use gitopia_storage.Prelude.{
  ℕ, zero, suc, ◌+◌, ◌*◌, ◌/◌, ◌≡◌, refl, Bool, true, false, not, Option, none, some, List, [], ◌∷◌,
  ◌++◌, Result, ok, err, ltb, leb, min, if◌then◌else◌,
}
use gitopia_storage.Text.{Bytes, codes, bytes_eq, cut_prefix}

abbrev pub period : ℕ
period = 1000

abbrev pub deadline : ℕ
deadline = 10000

-- One call of the checker: how long it takes and what it answers.
pub record Check (E : Type 0) : Type 0 where
  pub duration : ℕ
  pub answer : Result E Bool

pub data PollError (E : Type 0) : Type 0 where
  check_failed : E → PollError E
  deadline_exceeded : PollError E
  canceled : PollError E

-- How the context of the caller ends, if it does: at a time, by its own deadline or by a cancel.
pub data Ending : Type 0 where
  never : Ending
  expires : ℕ → Ending
  cancels : ℕ → Ending

-- The context of the poll: it ends with the caller's, and after ten seconds.
abbrev pub end_time : Ending → ℕ
end_time never = deadline
end_time (expires t) = min t deadline
end_time (cancels t) = min t deadline

-- `ctx.Err()`.
abbrev pub end_error : {E : Type 0} → Ending → PollError E
end_error never = deadline_exceeded
end_error (expires t) = deadline_exceeded
end_error (cancels t) = if ltb t deadline then canceled else deadline_exceeded

-- What `select` does: the deadline, a tick, or waiting until the next of them.
pub data Event : Type 0 where
  expire : Event
  tick : Event
  sleep : Event

-- A tick is ready when a period has ended since the last one was received, for the ticker keeps one
-- tick. Where both are ready the choice is free.
unfoldable pub next_event : ℕ → ℕ → ℕ → Bool → Event
next_event end now received choice =
    if ltb received (now / period)
    then (if leb end now then (if choice then expire else tick) else tick)
    else if leb end now
    then expire
    else sleep

-- The answer of a check: the poll ends, or it goes on with `rest`.
abbrev pub after_check :
    {E : Type 0}
    → Result E Bool
    → Option (Result (PollError E) Unit)
    → Option (Result (PollError E) Unit)
after_check (err e) rest = some (err (check_failed e))
after_check (ok true) rest = some (ok tt)
after_check (ok false) rest = rest

-- The loop, before its check number `i`; `none` is a loop that still runs. It sleeps until the next
-- tick or the end of the context.
unfoldable pub poll_loop :
    {E : Type 0}
    → ℕ
    → ℕ
    → PollError E
    → (ℕ → Bool)
    → (ℕ → Check E)
    → ℕ
    → ℕ
    → ℕ
    → Option (Result (PollError E) Unit)
poll_loop zero end ended choose checks i now received = none
poll_loop (suc fuel) end ended choose checks i now received =
    elim (next_event end now received (choose now)) [
      | expire ↦ some (err ended)
      | tick ↦ after_check (checks i).answer (
          poll_loop fuel end ended choose checks (suc i) (now + (checks i).duration) (now / period))
      | sleep ↦
          poll_loop fuel end ended choose checks i (min ((now / period + 1) * period) end) received
    ]

unfoldable pub poll_for_update :
    {E : Type 0} → ℕ → Ending → (ℕ → Bool) → (ℕ → Check E) → Option (Result (PollError E) Unit)
poll_for_update fuel ending choose checks =
    after_check (checks 0).answer
      (poll_loop fuel (end_time ending) (end_error ending) choose checks 1 (checks 0).duration 0)

-- `strings.Contains`.
unfoldable pub contains : Bytes → Bytes → Bool
unfolding cut_prefix
contains [] part = bytes_eq part []
contains (c ∷ s) part = elim (cut_prefix part (c ∷ s)) [ some rest ↦ true | none ↦ contains s part ]

-- The answer to a query of the chain; an error is its text.
pub data Query (A : Type 0) : Type 0 where
  answered : A → Query A
  failed : Bytes → Query A

-- A proposal that the chain does not have yet is no error.
unfoldable pub check_proposal : {A : Type 0} → Bytes → (A → Bool) → Query A → Result Bytes Bool
unfolding contains bytes_eq
check_proposal missing accept (answered proposal) = ok (accept proposal)
check_proposal missing accept (failed text) = if contains text missing then ok false else err text

unfoldable pub check_propose_packfile_update : Query Bytes → Result Bytes Bool
unfolding check_proposal
check_propose_packfile_update =
    check_proposal (codes "packfile update proposal not found") λ cid. not (bytes_eq cid [])

unfoldable pub check_propose_repository_delete : Query Unit → Result Bytes Bool
unfolding check_proposal
check_propose_repository_delete =
    check_proposal (codes "repository delete proposal not found") λ proposal. true

unfoldable pub check_propose_lfs_object_update : Query Bytes → Result Bytes Bool
unfolding check_proposal
check_propose_lfs_object_update =
    check_proposal (codes "lfs object update proposal not found") λ cid. not (bytes_eq cid [])

abbrev some_asset : List Bytes → Bool
some_asset [] = false
some_asset (asset ∷ assets) = true

unfoldable pub check_propose_release_assets_update : Query (List Bytes) → Result Bytes Bool
unfolding check_proposal
check_propose_release_assets_update =
    check_proposal (codes "release assets update proposal not found") some_asset

unfoldable pub check_pull_request_update : Bytes → Query Bytes → Result Bytes Bool
unfolding bytes_eq
check_pull_request_update merge_commit_sha (answered sha) = ok (bytes_eq sha merge_commit_sha)
check_pull_request_update merge_commit_sha (failed text) = err text
