-- ===== src/App/Deadline.antt =====
-- PollForUpdate of app/gitopia.go ends, and what it answers, where each check takes less than the
-- ticker's period.
use gitopia_storage.Prelude.{
  ℕ, zero, suc, ◌+◌, ◌-◌, ◌*◌, ◌/◌, ◌<◌, ◌≤◌, ◌≡◌, refl, arith, ap, ◌∙◌, Bool, true, false, Option,
  some, Result, err, min, leb, ◌==◌, ◌&&◌, not, Bool-cases, inl, inr, if◌then◌else◌,
}
use gitopia_storage.App.{
  Check, Ending, Event, PollError, after_check, cancels, end_error, end_time, expire, expires,
  never, next_event, poll_for_update, poll_loop, sleep, tick,
}

-- The first answer of `n` checks that ends the poll, or else `last`.
abbrev pub first_answer :
    {E : Type 0}
    → ℕ
    → (ℕ → Check E)
    → ℕ
    → Option (Result (PollError E) Unit)
    → Option (Result (PollError E) Unit)
first_answer zero checks i last = last
first_answer (suc n) checks i last =
    after_check (checks i).answer (first_answer n checks (suc i) last)

-- The ticks before the end of the context.
abbrev pub ticks : ℕ → ℕ
ticks end = (end - 1) / 1000

-- The poll ends with its context, after one check more where the end comes with a tick and the tick is chosen.
abbrev pub last_answer :
    {E : Type 0} → ℕ → PollError E → Bool → (ℕ → Check E) → Option (Result (PollError E) Unit)
last_answer end ended chosen checks =
    if (end == suc (ticks end) * 1000) && not chosen
    then after_check (checks (suc (ticks end))).answer (some (err ended))
    else some (err ended)

min-left : (a b : ℕ) → a ≤ b → min a b ≡ a
min-left a b h = ground (arith, h)

min-right : (a b : ℕ) → b ≤ a → min a b ≡ b
min-right a b h = ground (arith, h)

min-bound : (a : ℕ) → min a 10000 ≤ 10000
min-bound a = ground arith

module _ (end : ℕ) where
  late : (k : ℕ) (chosen : Bool) → chosen ≡ true → ((end == suc k * 1000) && not chosen) ≡ false
  late k chosen h = ground (arith, h)

  early :
      (k : ℕ) (chosen : Bool) → end < suc k * 1000 → ((end == suc k * 1000) && not chosen) ≡ false
  early k chosen h = ground (arith, h)

  event-sleep :
      (k d : ℕ) (choice : Bool)
      → d < 1000
      → k * 1000 + d < end
      → next_event end (k * 1000 + d) k choice ≡ sleep
  unfolding next_event
  event-sleep k d choice h l = ground (arith, h, l)

  event-tick :
      (k : ℕ) (choice : Bool) → suc k * 1000 < end → next_event end (suc k * 1000) k choice ≡ tick
  unfolding next_event
  event-tick k choice h = ground (arith, h)

  event-expire :
      (k d : ℕ) (choice : Bool)
      → d < 1000
      → end ≤ k * 1000 + d
      → next_event end (k * 1000 + d) k choice ≡ expire
  unfolding next_event
  event-expire k d choice h l = ground (arith, h, l)

  event-race-expire :
      (k : ℕ) (choice : Bool)
      → end ≤ suc k * 1000
      → choice ≡ true
      → next_event end (suc k * 1000) k choice ≡ expire
  unfolding next_event
  event-race-expire k choice l h = ground (arith, l, h)

  event-race-tick :
      (k : ℕ) (choice : Bool) → choice ≡ false → next_event end (suc k * 1000) k choice ≡ tick
  unfolding next_event
  event-race-tick k choice h = ground (arith, h)

module _ {E : Type 0} (end : ℕ) (ended : PollError E) (choose : ℕ → Bool) (checks : ℕ → Check E)
    (quick : (i : ℕ) → (checks i).duration < 1000) where
  loop : ℕ → ℕ → ℕ → ℕ → Option (Result (PollError E) Unit)
  loop fuel i now received = poll_loop fuel end ended choose checks i now received

  on_event : ℕ → ℕ → ℕ → ℕ → Event → Option (Result (PollError E) Unit)
  on_event fuel i now received event = elim event [
    | expire ↦ some (err ended)
    | tick ↦
        after_check (checks i).answer (loop fuel (suc i) (now + (checks i).duration) (now / 1000))
    | sleep ↦ loop fuel i (min ((now / 1000 + 1) * 1000) end) received
  ]

  loop-step :
      (fuel i now received : ℕ) (event : Event)
      → next_event end now received (choose now) ≡ event
      → loop (suc fuel) i now received ≡ on_event fuel i now received event
  unfolding poll_loop on_event loop
  loop-step fuel i now received event h = ap (on_event fuel i now received) h

  sleep-step :
      (fuel i k d : ℕ)
      → d < 1000
      → k * 1000 + d < end
      → loop (suc fuel) i (k * 1000 + d) k ≡ loop fuel i (min (suc k * 1000) end) k
  unfolding on_event
  sleep-step fuel i k d h l =
      loop-step fuel i (k * 1000 + d) k sleep (event-sleep end k d (choose (k * 1000 + d)) h l)
      ∙ ap (λ t. loop fuel i (min t end) k) (omega (arith, h))

  tick-step :
      (fuel i k : ℕ)
      → next_event end (suc k * 1000) k (choose (suc k * 1000)) ≡ tick
      → loop (suc fuel) i (suc k * 1000) k
        ≡ after_check
            (checks i).answer
            (loop fuel (suc i) (suc k * 1000 + (checks i).duration) (suc k))
  unfolding on_event
  tick-step fuel i k h =
      loop-step fuel i (suc k * 1000) k tick h
      ∙ ap
          (λ t.
            after_check (checks i).answer
              (loop fuel (suc i) (suc k * 1000 + (checks i).duration) t))
          (omega arith)

  expire-step :
      (fuel i k d : ℕ)
      → d < 1000
      → end ≤ k * 1000 + d
      → loop (suc fuel) i (k * 1000 + d) k ≡ some (err ended)
  unfolding on_event
  expire-step fuel i k d h l =
      loop-step fuel i (k * 1000 + d) k expire (event-expire end k d (choose (k * 1000 + d)) h l)

  last-checked :
      (k : ℕ) (chosen : Bool)
      → ticks end ≡ k
      → end ≡ suc k * 1000
      → chosen ≡ false
      → after_check (checks (suc k)).answer (some (err ended)) ≡ last_answer end ended chosen checks
  last-checked k chosen t e h =
      let now : (end == suc k * 1000) ≡ true = ground (arith, e) in rw (t, now, h) refl

  last-ended :
      (k : ℕ) (chosen : Bool)
      → ticks end ≡ k
      → ((end == suc k * 1000) && not chosen) ≡ false
      → some (err ended) ≡ last_answer end ended chosen checks
  last-ended k chosen t h = rw (t, h) refl

  -- the end of the context, where the next tick is ready too
  race-step :
      (fuel k : ℕ)
      → ticks end ≡ k
      → end ≡ suc k * 1000
      → loop (suc (suc fuel)) (suc k) (suc k * 1000) k ≡ last_answer end ended (choose end) checks
  unfolding on_event
  race-step fuel k t e = elim (Bool-cases (choose (suc k * 1000))) [
    | inl c ↦
        loop-step (suc fuel) (suc k) (suc k * 1000) k expire
          (event-race-expire end k (choose (suc k * 1000)) (omega (arith, e)) c)
        ∙ last-ended k (choose end) t (late end k (choose end) (ap choose e ∙ c))
    | inr c ↦
        tick-step (suc fuel) (suc k) k (event-race-tick end k (choose (suc k * 1000)) c)
        ∙ ap (after_check (checks (suc k)).answer) (
            expire-step fuel (suc (suc k)) (suc k) (checks (suc k)).duration (quick (suc k))
              (omega (arith, e)))
        ∙ last-checked k (choose end) t e (ap choose e ∙ c)
  ]

  rounds :
      (j k d fuel : ℕ)
      → ticks end ≡ j + k
      → d < 1000
      → loop (j * 2 + (3 + fuel)) (suc k) (k * 1000 + d) k
        ≡ first_answer j checks (suc k) (last_answer end ended (choose end) checks)
  rounds zero k d fuel t h = elim (Bool-cases (leb end (k * 1000 + d))) [
    | inl past ↦
        ap (λ f. loop f (suc k) (k * 1000 + d) k) (omega arith)
        ∙ expire-step (suc (suc fuel)) (suc k) k d h (ground (arith, past))
        ∙ last-ended k (choose end) (omega (arith, t))
            (early end k (choose end) (ground (arith, past, h)))
    | inr ahead ↦
        ap (λ f. loop f (suc k) (k * 1000 + d) k) (omega arith)
        ∙ sleep-step (suc (suc fuel)) (suc k) k d h (ground (arith, ahead))
        ∙ ap (λ n. loop (suc (suc fuel)) (suc k) n k)
            (min-right (suc k * 1000) end (omega (arith, t)))
        ∙ elim (Bool-cases (end == suc k * 1000)) [
          | inl e ↦
              let now : end ≡ suc k * 1000 = ground (arith, e) in
              ap (λ n. loop (suc (suc fuel)) (suc k) n k) now
              ∙ race-step fuel k (omega (arith, t)) now
          | inr e ↦
              ap (λ n. loop (suc (suc fuel)) (suc k) n k) (ground (arith, ahead))
              ∙ expire-step (suc fuel) (suc k) k (end - k * 1000) (ground (arith, e, t))
                  (omega arith)
              ∙ last-ended k (choose end) (omega (arith, t)) (rw e refl)
        ]
  ]
  rounds (suc j) k d fuel t h =
      let left = j * 2 + (3 + fuel) in
      ap (λ f. loop f (suc k) (k * 1000 + d) k) (omega arith)
      ∙ sleep-step (suc left) (suc k) k d h (omega (arith, t, h))
      ∙ ap (λ n. loop (suc left) (suc k) n k) (min-left (suc k * 1000) end (omega (arith, t)))
      ∙ tick-step left (suc k) k (event-tick end k (choose (suc k * 1000)) (omega (arith, t)))
      ∙ ap (after_check (checks (suc k)).answer)
          (rounds j (suc k) (checks (suc k)).duration fuel (omega (arith, t)) (quick (suc k)))

end-bound : (ending : Ending) → end_time ending ≤ 10000
end-bound never = omega arith
end-bound (expires t) = min-bound t
end-bound (cancels t) = min-bound t

-- The poll ends, also where the context of the caller ends before its ten seconds. Its answer is that
-- of the first of the initial check and the checks at the ticks before the end that is an error or a success; after
-- these it is the error of the context, behind one check more where the end comes with a tick and the tick is chosen.
-- Each check takes less than a second.
pub poll_for_update-first_answer :
    {E : Type 0} (ending : Ending) (choose : ℕ → Bool) (checks : ℕ → Check E) (fuel : ℕ)
    → ((i : ℕ) → (checks i).duration < 1000)
    → let end = end_time ending in
      poll_for_update (21 + fuel) ending choose checks
      ≡ first_answer
          (suc (ticks end))
          checks
          0
          (last_answer end (end_error ending) (choose end) checks)
unfolding poll_for_update loop
poll_for_update-first_answer ending choose checks fuel quick =
    let end = end_time ending in
    let most : ticks end ≤ 9 = omega (arith, end-bound ending) in
    ap (after_check (checks 0).answer) (
      ap (λ f. poll_loop f end (end_error ending) choose checks 1 (checks 0).duration 0)
        (omega (arith, most))
      ∙ ap
          (λ t.
            poll_loop (ticks end * 2 + (3 + ((9 - ticks end) * 2 + fuel))) end (end_error ending)
              choose checks 1 t 0)
          (omega arith)
      ∙ rounds end (end_error ending) choose checks quick (ticks end) 0 (checks 0).duration
          ((9 - ticks end) * 2 + fuel) (omega arith) (quick 0))
