-- ===== src/Merge/Posted.antt =====
-- What follows the push of a merge: the packfile is proposed, or the repository is removed.
use gitopia_storage.Prelude.{
  ℕ, ◌<◌, ◌≡◌, refl, arith, sym, ap, ◌∙◌, ◌⊎◌, inl, inr, true, some, List, [], ◌∷◌, ◌++◌, err, ltb,
  ltb→lt, ◌==◌, Bool-cases, Option-cases,
}
use gitopia_storage.Text.{Bytes}
use gitopia_storage.Events.Paths.{base}
use gitopia_storage.Calls.{
  Gives, ask_for-then, check-then, call_for-then, make_call-then, quiet-then,
}
use gitopia_storage.Cost.{Coin, Params}
use gitopia_storage.Push.{
  Call, Proposal, charge_for, check_charge, collected, current_packfile, get_packfile_name,
  insufficient_balance, pays, pinned, polled, proposed, removed, retrieved_root,
  no_current_packfile, pin_failed, gc_failed, no_packfile, no_packfile_info, no_repository,
  no_quota, no_params,
}
use gitopia_storage.Push.Checks.{
  Covered, RootOf, announce-Gives, check_charge-Gives, retrieved_root-Gives,
}
use gitopia_storage.Merge.Quarantine.{PullRequest, repo_path}
use gitopia_storage.Merge.Process.{
  Network, afford, handle_post_merge_operations, known, pin_and_propose,
}
use gitopia_storage.Merge.Steps.{afford-Gives}

module _ {T P : Type 0} (n : Network T P) where
  -- The owner has less than the charge.
  abbrev pub Short : Bytes → Coin → Type 0
  Short owner charge =
      (amount : ℕ) × (n.storage.balance owner charge.denom ≡ some amount) × (amount < charge.amount)

  pays-Short :
      (owner : Bytes) (charge : Coin) (first : List Call)
      → pays n.storage owner charge ≡ (first, err insufficient_balance)
      → Short owner charge × (first ≡ [])
  pays-Short owner charge first h = elim (Option-cases (n.storage.balance owner charge.denom)) [
    | inl e ↦ ground (arith, ap (λ r. r.1) (rw e at h))
    | inr (amount, e) ↦ elim (Bool-cases (ltb amount charge.amount)) [
      | inl less ↦
          ((amount, e, ltb→lt amount charge.amount less), sym (ap (λ r. r.0) (rw (e, less) at h)))
      | inr enough ↦ ground (arith, ap (λ r. r.1) (rw (e, enough) at h))
    ]
  ]

  check_charge-Short :
      (p : Params) (owner : Bytes) (used size current : ℕ) (first : List Call)
      → check_charge n.storage p owner used size current ≡ (first, err insufficient_balance)
      → Short owner (charge_for n.storage p used size current) × (first ≡ [])
  unfolding check_charge
  check_charge-Short p owner used size current first h =
      elim (Bool-cases (p.storage_price_per_gb.amount == 0)) [
        | inl free ↦ ground (arith, ap (λ r. r.1) (rw free at h))
        | inr priced ↦ elim (Bool-cases ((charge_for n.storage p used size current).amount == 0)) [
          | inl nothing ↦ ground (arith, ap (λ r. r.1) (rw (priced, nothing) at h))
          | inr due ↦
              pays-Short owner (charge_for n.storage p used size current) first
                (rw (priced, due) at h)
        ]
      ]

  -- The packfile of this name and size is pinned, and proposed with the merge commit.
  abbrev pub ProposedAs : Bytes → PullRequest → Bytes → Bytes → ℕ → List Call → Type 0
  ProposedAs user p sha name size calls =
      (q : Proposal) × RootOf n.storage q.cid q.root_hash
      × (n.storage.pin_file name ≡ some q.cid)
      × (q.user ≡ user)
      × (q.repository_id ≡ p.base_id)
      × (q.name ≡ base name)
      × (q.size ≡ size)
      × (q.merge_commit_sha ≡ sha)
      × (q.previous_cid ≡ (current_packfile (n.storage.packfile p.base_id)).1)
      × (calls ≡ pinned name ∷ proposed q ∷ polled p.base_id user ∷ [])
      × (n.storage.confirmed p.base_id user ≡ true)

  pin_and_propose-ProposedAs :
      (user : Bytes) (p : PullRequest) (sha name : Bytes) (size : ℕ) (calls : List Call)
      → Gives (pin_and_propose n user p sha name size) calls tt
      → ProposedAs user p sha name size calls
  unfolding pin_and_propose
  pin_and_propose-ProposedAs user p sha name size calls h =
      let (cid, rest, e1, h1, c1) =
        call_for-then (pinned name) pin_failed (n.storage.pin_file name) _ h in
      let (has, h2) = check-then (known (n.storage.packfile p.base_id)) no_current_packfile _ h1 in
      let (root, rooted, h3) =
        quiet-then (λ root. RootOf n.storage cid root) (retrieved_root n.storage cid) _
          (retrieved_root-Gives n.storage cid) h2 in
      let q : Proposal = record {
        user = user;
        repository_id = p.base_id;
        name = base name;
        cid = cid;
        root_hash = root;
        size = size;
        previous_cid = (current_packfile (n.storage.packfile p.base_id)).1;
        merge_commit_sha = sha;
      } in
      let (c2, confirmed) = announce-Gives n.storage q h3 in
      (
        q,
        rooted,
        e1,
        refl,
        refl,
        refl,
        refl,
        refl,
        refl,
        c1 ∙ ap (λ z. pinned name ∷ z) c2,
        confirmed,
      )

  -- What follows the charge for the new size.
  abbrev pub Charged :
      Bytes → PullRequest → Bytes → Bytes → ℕ → Bytes → ℕ → Params → List Call → Type 0
  Charged user p sha name size owner used params calls =
      (let charge =
          charge_for n.storage params used size
            (current_packfile (n.storage.packfile p.base_id)).0 in
        (Short owner charge
          × (calls
              ≡ collected (repo_path n.cache_dir p.base_id)
                ∷ removed (repo_path n.cache_dir p.base_id)
                ∷ []))
        ⊎ (Covered n.storage params owner charge
            × ((rest : List Call) × ProposedAs user p sha name size rest
                × (calls ≡ collected (repo_path n.cache_dir p.base_id) ∷ rest))))

  -- The new packfile is proposed where the owner can pay; where not, the repository is removed.
  abbrev pub PostMerged : Bytes → PullRequest → Bytes → List Call → Type 0
  PostMerged user p sha calls =
      (name : Bytes) × (size : ℕ) × (owner : Bytes) × (used : ℕ) × (params : Params)
      × (get_packfile_name n.storage.walk (repo_path n.cache_dir p.base_id) ≡ some name)
      × (n.storage.file_size name ≡ some size)
      × (n.storage.owner_of p.base_id ≡ some owner)
      × (n.storage.storage_used owner ≡ some used)
      × (n.storage.storage_params ≡ some params)
      × Charged user p sha name size owner used params calls

  settled :
      (user : Bytes) (p : PullRequest) (sha name : Bytes) (size : ℕ) (owner : Bytes) (used : ℕ)
      (params : Params) (calls rest : List Call)
      → calls ≡ collected (repo_path n.cache_dir p.base_id) ∷ rest
      → (let current = (current_packfile (n.storage.packfile p.base_id)).0 in
          Gives
            (afford
              (repo_path n.cache_dir p.base_id)
              n.rollback_works
              (check_charge n.storage params owner used size current)
              (pin_and_propose n user p sha name size))
            rest
            tt)
      → Charged user p sha name size owner used params calls
  settled user p sha name size owner used params calls rest c h =
      let path = repo_path n.cache_dir p.base_id in
      let current = (current_packfile (n.storage.packfile p.base_id)).0 in
      elim (afford-Gives path n.rollback_works
        (check_charge n.storage params owner used size current)
        (pin_and_propose n user p sha name size) h) [
          | inl (first, more, paid, going, same) ↦
              let (covered, silent) =
                check_charge-Gives n.storage params owner used size current first tt paid in
              inr (
                covered,
                (
                  more,
                  pin_and_propose-ProposedAs user p sha name size more going,
                  c ∙ ap (λ z. collected path ∷ z) (same ∙ ap (λ z. z ++ more) silent),
                ),
              )
          | inr (first, unpaid, same) ↦
              let (short, silent) =
                check_charge-Short params owner used size current first unpaid in
              inl (
                short,
                c ∙ ap (λ z. collected path ∷ z) (same ∙ ap (λ z. z ++ removed path ∷ []) silent),
              )
        ]

  pub post_merge-PostMerged :
      (user : Bytes) (p : PullRequest) (sha : Bytes) (calls : List Call)
      → Gives (handle_post_merge_operations n user p sha) calls tt
      → PostMerged user p sha calls
  unfolding handle_post_merge_operations
  post_merge-PostMerged user p sha calls h =
      let path = repo_path n.cache_dir p.base_id in
      let current = (current_packfile (n.storage.packfile p.base_id)).0 in
      let (r1, gc, h1, c1) =
        make_call-then (collected path) gc_failed (n.storage.gc_works path) _ h in
      let (name, e1, h2) = ask_for-then no_packfile (get_packfile_name n.storage.walk path) _ h1 in
      let (size, e2, h3) = ask_for-then no_packfile_info (n.storage.file_size name) _ h2 in
      let (owner, e3, h4) = ask_for-then no_repository (n.storage.owner_of p.base_id) _ h3 in
      let (used, e4, h5) = ask_for-then no_quota (n.storage.storage_used owner) _ h4 in
      let (params, e5, h6) = ask_for-then no_params n.storage.storage_params _ h5 in
      (
        name,
        size,
        owner,
        used,
        params,
        e1,
        e2,
        e3,
        e4,
        e5,
        settled user p sha name size owner used params calls r1 c1 h6,
      )
