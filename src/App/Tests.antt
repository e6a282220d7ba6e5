-- ===== src/App/Tests.antt =====
-- Runs of app/gitopia.go, and the properties at concrete inputs.
use gitopia_storage.Prelude.{ℕ, ◌≡◌, refl, arith, String, true, false, some, ok, err, ◌==◌}
use gitopia_storage.Text.{codes}
use gitopia_storage.App.{
  Check, failed, poll_for_update, check_propose_lfs_object_update, next_event, poll_loop,
  deadline_exceeded, never, cancels, canceled,
}
use gitopia_storage.App.Deadline.{poll_for_update-first_answer}

-- The fourth check succeeds.
abbrev later : ℕ → Check String
later i = record { duration = 200; answer = ok (i == 3) }

abbrev not_ready : ℕ → Check String
not_ready i = record { duration = 200; answer = ok false }

poll_for_update-first_answer_example : poll_for_update 21 never (λ now. true) later ≡ some (ok tt)
poll_for_update-first_answer_example =
    poll_for_update-first_answer never (λ now. true) later 0 λ i. omega arith

poll_deadline : poll_for_update 21 never (λ now. true) not_ready ≡ some (err deadline_exceeded)
unfolding poll_for_update poll_loop next_event
poll_deadline = refl

-- The caller's context is cancelled between the second and the third tick.
poll_canceled : poll_for_update 21 (cancels 2500) (λ now. true) later ≡ some (err canceled)
unfolding poll_for_update poll_loop next_event
poll_canceled = refl

not_yet :
    check_propose_lfs_object_update
      (failed (codes "query error: lfs object update proposal not found"))
    ≡ ok false
unfolding check_propose_lfs_object_update
not_yet = refl
