-- ===== src/Push/Proposed.antt =====
-- What a push has done when its handler returns.
use gitopia_storage.Prelude.{ℕ, ◌≡◌, refl, true, some, List, [], ◌∷◌, ◌++◌, ok, err}
use gitopia_storage.Text.{Bytes}
use gitopia_storage.Events.Paths.{base}
use gitopia_storage.Cost.{Params}
use gitopia_storage.Calls.{Gives, on_error, ask_for-then, call_for-then, make_call-then, quiet-then}
use gitopia_storage.Push.{
  Call, Env, Proposal, Push, charge_for, check_charge, check_pending, collected, current_packfile,
  get_packfile_name, handle_git_receive_pack, pinned, polled, proposed, removed, retrieved_root,
  update_packfile, gc_failed, no_packfile, no_packfile_info, no_repository, no_quota, no_params,
  pin_failed,
}
use gitopia_storage.Push.Checks.{
  NotPending, check_pending-Gives, joined, Covered, check_charge-Gives, RootOf,
  retrieved_root-Gives, announce-Gives,
}

module _ {T P : Type 0} (e : Env T P) where
  -- The packfile is pinned, proposed with its size and its root, and confirmed; its owner can pay.
  abbrev pub Proposes : Bytes → ℕ → Bytes → List Call → Proposal → Type 0
  Proposes address id repo_path calls p =
      NotPending (e.pending id address)
      × ((name : Bytes) × (owner : Bytes) × (used : ℕ) × (params : Params) × (get_packfile_name
              e.walk repo_path
            ≡ some name)
          × (p.name ≡ base name)
          × (e.file_size name ≡ some p.size)
          × (e.owner_of id ≡ some owner)
          × (e.storage_used owner ≡ some used)
          × (e.storage_params ≡ some params)
          × Covered e params owner
              (charge_for e params used p.size (current_packfile (e.packfile id)).0)
          × (e.pin_file name ≡ some p.cid)
          × (calls ≡ collected repo_path ∷ pinned name ∷ proposed p ∷ polled id address ∷ []))
      × RootOf e p.cid p.root_hash
      × (p.user ≡ address)
      × (p.repository_id ≡ id)
      × (p.previous_cid ≡ (current_packfile (e.packfile id)).1)
      × (e.confirmed id address ≡ true)

  update_packfile-Proposes :
      (address : Bytes) (id : ℕ) (repo_path : Bytes) {calls : List Call} {u : Unit}
      → Gives (update_packfile e address id repo_path) calls u
      → (p : Proposal) × Proposes address id repo_path calls p
  unfolding update_packfile
  update_packfile-Proposes address id repo_path h =
      let (_, pending, h1) =
        quiet-then (λ _. NotPending (e.pending id address)) (check_pending (e.pending id address)) _
          (check_pending-Gives (e.pending id address)) h in
      let (r1, gc, h2, c1) =
        make_call-then (collected repo_path) gc_failed (e.gc_works repo_path) _ h1 in
      let (name, e1, h3) = ask_for-then no_packfile (get_packfile_name e.walk repo_path) _ h2 in
      let (size, e2, h4) = ask_for-then no_packfile_info (e.file_size name) _ h3 in
      let (owner, e3, h5) = ask_for-then no_repository (e.owner_of id) _ h4 in
      let current = current_packfile (e.packfile id) in
      let (used, e4, h6) = ask_for-then no_quota (e.storage_used owner) _ h5 in
      let (params, e5, h7) = ask_for-then no_params e.storage_params _ h6 in
      let (_, covered, h8) =
        quiet-then (λ _. Covered e params owner (charge_for e params used size current.0))
          (check_charge e params owner used size current.0) _
          (check_charge-Gives e params owner used size current.0) h7 in
      let (cid, r2, e6, h9, c2) = call_for-then (pinned name) pin_failed (e.pin_file name) _ h8 in
      let (root, rooted, h10) =
        quiet-then (λ root. RootOf e cid root) (retrieved_root e cid) _ (retrieved_root-Gives e cid)
          h9 in
      let p : Proposal = record {
        user = address;
        repository_id = id;
        name = base name;
        cid = cid;
        root_hash = root;
        size = size;
        previous_cid = current.1;
        merge_commit_sha = [];
      } in
      let (c3, confirmed) = announce-Gives e p h10 in
      (
        p,
        (
          pending,
          (name, owner, used, params, e1, refl, e2, e3, e4, e5, covered, e6, joined c1 c2 c3),
          rooted,
          refl,
          refl,
          refl,
          confirmed,
        ),
      )

  abbrev pub Settled : Bytes → ℕ → Bytes → Push Unit → Type 0
  Settled address id repo_path (calls, ok tt) =
      (p : Proposal) × Proposes address id repo_path calls p
  Settled address id repo_path (calls, err x) =
      (before : List Call) × (calls ≡ before ++ removed repo_path ∷ [])

  settle :
      (address : Bytes) (id : ℕ) (repo_path : Bytes) (m : Push Unit)
      → ((calls : List Call)
          → Gives m calls tt
          → (p : Proposal) × Proposes address id repo_path calls p)
      → Settled address id repo_path (on_error (removed repo_path ∷ []) m)
  settle address id repo_path (calls, ok tt) h = h calls refl
  settle address id repo_path (calls, err x) h = (calls, refl)

  -- A push that its handler reports as done has collected, pinned and proposed the packfile and
  -- waited for the proposal, and for nothing else: no proposal of the user was pending, the owner can
  -- pay the charge, and the proposal has the packfile's name, size and cid, the Merkle root of the file that IPFS
  -- has under it, and the cid that it replaces. After any error the last call removes the repository.
  pub receive_pack-Settled :
      (address : Bytes) (id : ℕ) (repo_path : Bytes)
      → Settled address id repo_path (handle_git_receive_pack e address id repo_path)
  unfolding handle_git_receive_pack
  receive_pack-Settled address id repo_path =
      settle address id repo_path (update_packfile e address id repo_path)
        (λ calls h. update_packfile-Proposes address id repo_path h)
