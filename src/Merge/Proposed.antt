-- ===== src/Merge/Proposed.antt =====
-- What a merge has done when its handler returns without an error.
use gitopia_storage.Prelude.{
  ◌≡◌, arith, sym, ap, ◌∙◌, inl, inr, Bool, true, false, some, List, [], ◌∷◌, ◌++◌, map, ok, ◌==◌,
  Bool-cases, if◌then◌else◌,
}
use gitopia_storage.Text.{Bytes, codes, bytes_eq}
use gitopia_storage.Calls.{Gives, make_call, call-cons, call_last, ask_for-then}
use gitopia_storage.Push.{Call}
use gitopia_storage.Merge.Unmarshal.{InvokeMergePullRequestEvent}
use gitopia_storage.Merge.Quarantine.{
  PullRequest, commit, create_quarantine_repo, do_step, merge_no_commit, merge_style, perform_merge,
  push, push_changes, read_tree, remove_directory, rev_parse,
}
use gitopia_storage.Merge.Process.{
  Merge, MergeCall, Network, cached, finally, handle_post_merge_operations, locks_of,
  merge_and_push, merge_locked, merge_message, no_commit_sha, no_pull_request, no_repository_name,
  of_push, preparation_failed, prepare_repositories, process_merge, stored, under_locks, unlocks_of,
  worked,
}
use gitopia_storage.Merge.Steps.{
  quarantine_steps, create_quarantine-steps, perform_merge-steps, push_changes-steps, step_last,
  of_push-Gives, finally-Gives, work-then, value-then, known-then,
}
use gitopia_storage.Merge.Posted.{PostMerged, post_merge-PostMerged}

mine_only :
    {A : Type 0} (b : Bool) (m other : Merge A) {calls : Merge A}
    → b ≡ true
    → (if b then m else other) ≡ calls
    → m ≡ calls
mine_only true m other h k = k
mine_only false m other h k = ground (arith, h)

module _ {T P : Type 0} (n : Network T P) where
  -- The repositories that are cached.
  abbrev pub caching : PullRequest → List MergeCall
  caching p =
      if p.base_id == p.head_id
      then cached p.head_id ∷ []
      else cached p.head_id ∷ cached p.base_id ∷ []

  caching_lem :
      (p : PullRequest) (calls : List MergeCall)
      → Gives (prepare_repositories n p) calls tt
      → calls ≡ caching p
  unfolding prepare_repositories
  caching_lem p calls h = elim (Bool-cases (p.base_id == p.head_id)) [
    | inl e ↦ rw e (
        call-cons (cached p.head_id) (preparation_failed p.head_id) (n.caches p.head_id)
          (λ _. ([], ok tt)) [] (λ rest k. sym (ap (λ r. r.0) k)) calls (rw e at h))
    | inr e ↦ rw e (
        call-cons (cached p.head_id) (preparation_failed p.head_id) (n.caches p.head_id)
          (λ _. make_call (cached p.base_id) (preparation_failed p.base_id) (n.caches p.base_id))
          (cached p.base_id ∷ [])
          (λ rest k.
            call_last (cached p.base_id) (preparation_failed p.base_id) (n.caches p.base_id) rest k)
          calls (rw e at h))
  ]

  -- The git processes of a merge, between the locks.
  abbrev pub merging : PullRequest → Bytes → List Call → List MergeCall
  merging p name post =
      caching p
      ++ (map worked (quarantine_steps n.cache_dir p)
          ++ ((worked read_tree
                ∷ worked merge_no_commit
                ∷ worked (commit (merge_message p name))
                ∷ worked (rev_parse (codes "base"))
                ∷ worked (push (codes "origin") (codes "base:refs/heads/" ++ p.base_branch))
                ∷ map stored post)
              ++ worked remove_directory ∷ []))

  -- The calls in the quarantine repository.
  abbrev pub Pushed : Bytes → PullRequest → Bytes → List MergeCall → Type 0
  Pushed user p message calls =
      (sha : Bytes) × (post : List Call) × (n.commit_sha ≡ some sha)
      × PostMerged n user p sha post
      × (calls
          ≡ worked read_tree
            ∷ worked merge_no_commit
            ∷ worked (commit message)
            ∷ worked (rev_parse (codes "base"))
            ∷ worked (push (codes "origin") (codes "base:refs/heads/" ++ p.base_branch))
            ∷ map stored post)

  posted :
      (user : Bytes) (p : PullRequest) (message sha : Bytes) (rest : List MergeCall)
      → n.commit_sha ≡ some sha
      → Gives (of_push (handle_post_merge_operations n user p sha)) rest tt
      → Pushed user p message (
          worked read_tree
          ∷ worked merge_no_commit
          ∷ worked (commit message)
          ∷ worked (rev_parse (codes "base"))
          ∷ worked (push (codes "origin") (codes "base:refs/heads/" ++ p.base_branch))
          ∷ rest)
  posted user p message sha rest e h =
      let (post, made, same) = of_push-Gives (handle_post_merge_operations n user p sha) h in
      (
        sha,
        post,
        e,
        post_merge-PostMerged n user p sha post made,
        ap
            (λ z.
              worked read_tree
              ∷ worked merge_no_commit
              ∷ worked (commit message)
              ∷ worked (rev_parse (codes "base"))
              ∷ worked (push (codes "origin") (codes "base:refs/heads/" ++ p.base_branch))
              ∷ z)
            same,
      )

  merge_and_push-Pushed :
      (user : Bytes) (p : PullRequest) (message : Bytes) (calls : List MergeCall)
      → Gives (merge_and_push n user p message) calls tt
      → Pushed user p message calls
  unfolding merge_and_push
  merge_and_push-Pushed user p message =
      work-then (do_step n.git read_tree) (read_tree ∷ []) (step_last n.git read_tree) _
        (Pushed user p message)
        (λ r0 h0.
          work-then (perform_merge n.git merge_style p message)
            (merge_no_commit ∷ commit message ∷ []) (perform_merge-steps n.git p message) _
            (λ z. Pushed user p message (worked read_tree ∷ z))
            (λ r1 h1.
              value-then (worked (rev_parse (codes "base"))) no_commit_sha n.commit_sha _
                (λ z.
                  Pushed user p message
                    (worked read_tree ∷ worked merge_no_commit ∷ worked (commit message) ∷ z))
                (λ sha e r2 h2.
                  work-then (push_changes n.git merge_style p)
                    (push (codes "origin") (codes "base:refs/heads/" ++ p.base_branch) ∷ [])
                    (push_changes-steps n.git p) _
                    (λ z. Pushed user p message (
                      worked read_tree
                      ∷ worked merge_no_commit
                      ∷ worked (commit message)
                      ∷ worked (rev_parse (codes "base"))
                      ∷ z))
                    (λ r3 h3. posted user p message sha r3 e h3) r2 h2)
                r1 h1)
            r0 h0)

  -- An event of this provider that is processed without an error.
  abbrev pub Merged : InvokeMergePullRequestEvent → List MergeCall → Type 0
  Merged ev calls =
      (p : PullRequest) × (name : Bytes) × (sha : Bytes) × (post : List Call) × (n.pull_request
          ev.repository_id ev.pull_request_iid
        ≡ some p)
      × (n.repository_name p.head_id ≡ some name)
      × (n.commit_sha ≡ some sha)
      × PostMerged n ev.creator p sha post
      × (calls ≡ locks_of p ++ merging p name post ++ unlocks_of p)

  -- The calls between the locks.
  abbrev Between : Bytes → PullRequest → List MergeCall → Type 0
  Between user p calls =
      (name : Bytes) × (sha : Bytes) × (post : List Call) × (n.repository_name p.head_id
        ≡ some name)
      × (n.commit_sha ≡ some sha)
      × PostMerged n user p sha post
      × (calls ≡ merging p name post)

  removed-Between :
      (user : Bytes) (p : PullRequest) (name : Bytes) (calls : List MergeCall)
      → n.repository_name p.head_id ≡ some name
      → Gives
          (finally (worked remove_directory ∷ []) (merge_and_push n user p (merge_message p name)))
          calls
          tt
      → Between user p (caching p ++ (map worked (quarantine_steps n.cache_dir p) ++ calls))
  removed-Between user p name calls e h =
      let (made, pushing, same) =
        finally-Gives (worked remove_directory ∷ [])
          (merge_and_push n user p (merge_message p name)) h in
      let (sha, post, e1, done, c) =
        merge_and_push-Pushed user p (merge_message p name) made pushing in
      (
        name,
        sha,
        post,
        e,
        e1,
        done,
        ap (λ z. caching p ++ (map worked (quarantine_steps n.cache_dir p) ++ z))
            (same ∙ ap (λ z. z ++ worked remove_directory ∷ []) c),
      )

  merge_locked-Between :
      (user : Bytes) (p : PullRequest) (calls : List MergeCall)
      → Gives (merge_locked n user p) calls tt
      → Between user p calls
  unfolding merge_locked
  merge_locked-Between user p =
      known-then (prepare_repositories n p) (caching p) (caching_lem p) _ (Between user p) (λ r0 h0.
        let (name, e, h1) = ask_for-then no_repository_name (n.repository_name p.head_id) _ h0 in
        work-then (create_quarantine_repo n.git n.cache_dir p) (quarantine_steps n.cache_dir p)
          (create_quarantine-steps n.git n.cache_dir p) _ (λ z. Between user p (caching p ++ z))
          (λ r1 h2. removed-Between user p name r1 e h2) r0 h1)

  -- A merge for this provider that returns without an error has run exactly these git processes, in
  -- this order and between the locks of both repositories: the quarantine is made, the tracking branch merged and
  -- committed, the base pushed, and the quarantine removed. Behind the push the packfile is collected; where the owner
  -- can pay, it is pinned and proposed with its root and the merge commit, and where not, the repository is removed.
  pub process_merge-Merged :
      (ev : InvokeMergePullRequestEvent) (calls : List MergeCall)
      → bytes_eq ev.provider n.address ≡ true
      → Gives (process_merge n ev) calls tt
      → Merged ev calls
  unfolding process_merge
  process_merge-Merged ev calls mine h =
      let (p, e, k) =
        ask_for-then no_pull_request (n.pull_request ev.repository_id ev.pull_request_iid)
          (λ p. under_locks p (merge_locked n ev.creator p))
          (mine_only (bytes_eq ev.provider n.address) _ _ mine h) in
      let (name, sha, post, e1, e2, done, same) =
        merge_locked-Between ev.creator p (merge_locked n ev.creator p).0
          (ap (λ r. ((merge_locked n ev.creator p).0, r)) (ap (λ r. r.1) k)) in
      (
        p,
        name,
        sha,
        post,
        e,
        e1,
        e2,
        done,
        sym (ap (λ r. r.0) k) ∙ ap (λ z. locks_of p ++ z ++ unlocks_of p) same,
      )
