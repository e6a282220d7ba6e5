-- ===== src/Merge/Crossed.antt =====
-- Two merges at once: each handler makes its calls in order, and waits at a lock that is held. Handle
-- of handler/mergePullRequest.go runs up to three events at once.
use gitopia_storage.Prelude.{
  ℕ, ◌≡◌, ◌≢◌, refl, arith, sym, ap, subst, ◌∙◌, Bool, true, false, Option, none, some, List, [],
  ◌∷◌, ◌++◌, ◌==◌, ==_iff, if◌then◌else◌,
}
use gitopia_storage.Text.{bytes_eq}
use gitopia_storage.Merge.Unmarshal.{InvokeMergePullRequestEvent}
use gitopia_storage.Merge.Quarantine.{PullRequest}
use gitopia_storage.Merge.Process.{
  MergeCall, Network, cached, locked, locks_of, merge_locked, process_merge, stored, unlocked,
  unlocks_of, worked,
}

-- The calls that each of the two still has to make, and the locks that are held.
pub record Two : Type 0 where
  pub left : List MergeCall
  pub right : List MergeCall
  pub held : ℕ → Bool

abbrev pub set_held : ℕ → Bool → (ℕ → Bool) → ℕ → Bool
set_held id b held key = if key == id then b else held key

-- The next call; `none` is a handler that has ended or waits.
abbrev pub turn : List MergeCall → (ℕ → Bool) → Option (List MergeCall × (ℕ → Bool))
turn [] held = none
turn (locked id ∷ calls) held = if held id then none else some (calls, set_held id true held)
turn (unlocked id ∷ calls) held = some (calls, set_held id false held)
turn (cached id ∷ calls) held = some (calls, held)
turn (worked s ∷ calls) held = some (calls, held)
turn (stored c ∷ calls) held = some (calls, held)

pub data Turn : Two → Two → Type 0 where
  left_turn :
      (s : Two) (calls : List MergeCall) (held : ℕ → Bool)
      → turn s.left s.held ≡ some (calls, held)
      → Turn s (record { left = calls; right = s.right; held = held })
  right_turn :
      (s : Two) (calls : List MergeCall) (held : ℕ → Bool)
      → turn s.right s.held ≡ some (calls, held)
      → Turn s (record { left = s.left; right = calls; held = held })

pub data Reach (s : Two) : Two → Type 0 where
  here : Reach s s
  next : {t u : Two} → Reach s t → Turn t u → Reach s u

-- Neither can go on, and neither has ended.
abbrev pub Deadlocked : Two → Type 0
Deadlocked t =
    (turn t.left t.held ≡ none) × (turn t.right t.held ≡ none) × (t.left ≢ []) × (t.right ≢ [])

abbrev pub nothing_held : ℕ → Bool
nothing_held id = false

not_same : (a b : ℕ) → a ≢ b → (a == b) ≡ false
not_same a b h = ground (arith, h)

crossed :
    (a b : ℕ) (xs ys : List MergeCall)
    → a ≢ b
    → (t : Two) × Reach
        (record {
          left = locked a ∷ locked b ∷ xs;
          right = locked b ∷ locked a ∷ ys;
          held = nothing_held;
        })
        t
      × Deadlocked t
crossed a b xs ys differ =
    let one : ℕ → Bool = set_held a true nothing_held in
    let both : ℕ → Bool = set_held b true one in
    let free : (b == a) ≡ false = not_same b a (λ e. differ (sym e)) in
    let other : (a == b) ≡ false = not_same a b differ in
    let same : (a == a) ≡ true = (==_iff a a).1 refl in
    let again : (b == b) ≡ true = (==_iff b b).1 refl in
    (
      record { left = locked b ∷ xs; right = locked a ∷ ys; held = both },
      next (next here (left_turn _ (locked b ∷ xs) one refl))
          (right_turn _ (locked a ∷ ys) both (rw free refl)),
      (rw again refl, rw (other, same) refl, (λ e. ground (arith, e)), (λ e. ground (arith, e))),
    )

two_locks :
    (p : PullRequest)
    → p.base_id ≢ p.head_id
    → locks_of p ≡ locked p.base_id ∷ locked p.head_id ∷ []
two_locks p differ = rw (not_same p.base_id p.head_id differ) refl

abbrev Meets : List MergeCall → List MergeCall → Type 0
Meets left right =
    (t : Two) × Reach (record { left = left; right = right; held = nothing_held }) t × Deadlocked t

module _ {T P : Type 0} (n : Network T P) where
  merge_calls :
      (ev : InvokeMergePullRequestEvent) (p : PullRequest)
      → bytes_eq ev.provider n.address ≡ true
      → n.pull_request ev.repository_id ev.pull_request_iid ≡ some p
      → p.base_id ≢ p.head_id
      → (rest : List MergeCall) × ((process_merge n ev).0
          ≡ locked p.base_id ∷ locked p.head_id ∷ rest)
  unfolding process_merge
  merge_calls ev p mine found differ = (
    (merge_locked n ev.creator p).0 ++ unlocks_of p,
    rw (mine, found)
        (ap (λ z. z ++ (merge_locked n ev.creator p).0 ++ unlocks_of p) (two_locks p differ)),
  )

  -- Two merges for this provider, of which each has as its head the repository that is the base of the
  -- other, can come to a state in which each waits for the lock that the other holds.
  pub crossed_merges-Deadlocked :
      (one two : InvokeMergePullRequestEvent) (p q : PullRequest)
      → bytes_eq one.provider n.address ≡ true
      → bytes_eq two.provider n.address ≡ true
      → n.pull_request one.repository_id one.pull_request_iid ≡ some p
      → n.pull_request two.repository_id two.pull_request_iid ≡ some q
      → q.base_id ≡ p.head_id
      → q.head_id ≡ p.base_id
      → p.base_id ≢ p.head_id
      → (t : Two) × Reach
          (record {
            left = (process_merge n one).0;
            right = (process_merge n two).0;
            held = nothing_held;
          })
          t
        × Deadlocked t
  crossed_merges-Deadlocked one two p q mine yours first second base head differ =
      let (xs, left) = merge_calls one p mine first differ in
      let (ys, right) = merge_calls two q yours second (λ e. differ (sym (sym base ∙ e ∙ head))) in
      let turned =
        right
        ∙ ap (λ z. locked z ∷ locked q.head_id ∷ ys) base
        ∙ ap (λ z. locked p.head_id ∷ locked z ∷ ys) head in
      subst (λ l. Meets l (process_merge n two).0) (sym left)
        (subst (λ r. Meets (locked p.base_id ∷ locked p.head_id ∷ xs) r) (sym turned)
          (crossed p.base_id p.head_id xs ys differ))
