-- ===== src/Merge/Process.antt =====
-- Process and handlePostMergeOperations of handler/mergePullRequest.go, over the answers of Push.Env.
-- The two queries of handleIPFSOperations run at once; the one for the packfile is not recorded.
use gitopia_storage.Prelude.{
  ℕ, Bool, true, false, Option, none, some, List, [], ◌∷◌, ◌++◌, ok, err, ◌==◌, if◌then◌else◌, map,
}
use gitopia_storage.Text.{Bytes, codes, bytes_eq}
use gitopia_storage.Events.Paths.{base, decimal}
use gitopia_storage.Calls.{Run, ◌>>=◌, after, ask_for, call_for, check, make_call}
use gitopia_storage.Push.{
  Call, Env, Push, PushError, announce, check_charge, collected, current_packfile, gc_failed,
  get_packfile_name, insufficient_balance, no_current_packfile, no_packfile, no_packfile_info,
  no_params, no_quota, no_repository, pin_failed, pinned, removed, retrieved_root, rollback_failed,
}
use gitopia_storage.Merge.Unmarshal.{InvokeMergePullRequestEvent}
use gitopia_storage.Merge.Quarantine.{
  Git, PullRequest, QuarantineError, Step, Work, create_quarantine_repo, do_step, merge_style,
  perform_merge, push_changes, read_tree, remove_directory, repo_path, rev_parse,
}

pub data MergeCall : Type 0 where
  locked unlocked cached : ℕ → MergeCall
  worked : Step → MergeCall
  stored : Call → MergeCall

pub data MergeError : Type 0 where
  no_pull_request no_repository_name no_commit_sha : MergeError
  preparation_failed : ℕ → MergeError
  quarantine : QuarantineError → MergeError
  post_merge_failed : PushError → MergeError

pub record Network (T P : Type 0) : Type 0 where
  pub address : Bytes
  pub pull_request : ℕ → ℕ → Option PullRequest
  pub cache_dir : Bytes
  pub caches : ℕ → Bool
  pub repository_name : ℕ → Option Bytes
  pub git : Git
  pub commit_sha : Option Bytes
  pub storage : Env T P
  pub rollback_works : Bool

abbrev pub Merge : Type 0 → Type 0
Merge A = Run MergeCall MergeError A

abbrev pub of_work : {A : Type 0} → Work A → Merge A
of_work (steps, ok a) = (map worked steps, ok a)
of_work (steps, err x) = (map worked steps, err (quarantine x))

abbrev pub of_push : {A : Type 0} → Push A → Merge A
of_push (calls, ok a) = (map stored calls, ok a)
of_push (calls, err x) = (map stored calls, err (post_merge_failed x))

-- What is deferred runs after a success and after an error.
abbrev pub finally : {A : Type 0} → List MergeCall → Merge A → Merge A
finally deferred (calls, r) = (calls ++ deferred, r)

abbrev pub merge_message : PullRequest → Bytes → Bytes
merge_message p name =
    codes "Merge pull request #" ++ decimal p.iid ++ codes " from " ++ name ++ b'/' ∷ p.head_branch

abbrev pub known : Option (ℕ × Bytes) → Bool
known none = false
known (some packfile) = true

-- Where the owner cannot pay, the repository is removed, and the run ends without an error.
abbrev pub afford : Bytes → Bool → Push Unit → Push Unit → Push Unit
afford path works (calls, ok tt) rest = after calls rest
afford path true (calls, err insufficient_balance) rest = (calls ++ removed path ∷ [], ok tt)
afford path false (calls, err insufficient_balance) rest =
    (calls ++ removed path ∷ [], err rollback_failed)
afford path works (calls, err x) rest = (calls, err x)

-- The base is locked first; what is deferred runs in the reverse order.
abbrev pub locks_of : PullRequest → List MergeCall
locks_of p =
    if p.base_id == p.head_id
    then locked p.base_id ∷ []
    else locked p.base_id ∷ locked p.head_id ∷ []

abbrev pub unlocks_of : PullRequest → List MergeCall
unlocks_of p =
    if p.base_id == p.head_id
    then unlocked p.base_id ∷ []
    else unlocked p.head_id ∷ unlocked p.base_id ∷ []

abbrev pub under_locks : PullRequest → Merge Unit → Merge Unit
under_locks p (calls, r) = (locks_of p ++ calls ++ unlocks_of p, r)

module _ {T P : Type 0} (n : Network T P) where
  unfoldable pub pin_and_propose : Bytes → PullRequest → Bytes → Bytes → ℕ → Push Unit
  unfolding retrieved_root announce
  pin_and_propose user p sha name size =
      call_for (pinned name) pin_failed (n.storage.pin_file name) >>= λ cid.
      check (known (n.storage.packfile p.base_id)) no_current_packfile >>= λ _.
      retrieved_root n.storage cid >>= λ root. announce n.storage (record {
        user = user;
        repository_id = p.base_id;
        name = base name;
        cid = cid;
        root_hash = root;
        size = size;
        previous_cid = (current_packfile (n.storage.packfile p.base_id)).1;
        merge_commit_sha = sha;
      })

  unfoldable pub handle_post_merge_operations : Bytes → PullRequest → Bytes → Push Unit
  unfolding get_packfile_name check_charge pin_and_propose
  handle_post_merge_operations user p sha =
      let path = repo_path n.cache_dir p.base_id in
      make_call (collected path) gc_failed (n.storage.gc_works path) >>= λ _.
      ask_for no_packfile (get_packfile_name n.storage.walk path) >>= λ name.
      ask_for no_packfile_info (n.storage.file_size name) >>= λ size.
      ask_for no_repository (n.storage.owner_of p.base_id) >>= λ owner.
      ask_for no_quota (n.storage.storage_used owner) >>= λ used.
      ask_for no_params n.storage.storage_params >>= λ params.
      afford path n.rollback_works
        (check_charge n.storage params owner used size
          (current_packfile (n.storage.packfile p.base_id)).0)
        (pin_and_propose user p sha name size)

  -- The head first, and the base where it is another repository.
  unfoldable pub prepare_repositories : PullRequest → Merge Unit
  prepare_repositories p =
      make_call (cached p.head_id) (preparation_failed p.head_id) (n.caches p.head_id) >>= λ _.
      (if p.base_id == p.head_id
        then ([], ok tt)
        else make_call (cached p.base_id) (preparation_failed p.base_id) (n.caches p.base_id))

  -- In the quarantine repository.
  unfoldable pub merge_and_push : Bytes → PullRequest → Bytes → Merge Unit
  unfolding do_step perform_merge push_changes handle_post_merge_operations
  merge_and_push user p message = of_work (do_step n.git read_tree) >>= λ _.
      of_work (perform_merge n.git merge_style p message) >>= λ _.
      call_for (worked (rev_parse (codes "base"))) no_commit_sha n.commit_sha >>= λ sha.
      of_work (push_changes n.git merge_style p) >>= λ _.
      of_push (handle_post_merge_operations user p sha)

  unfoldable pub merge_locked : Bytes → PullRequest → Merge Unit
  unfolding prepare_repositories create_quarantine_repo merge_and_push decimal
  merge_locked user p = prepare_repositories p >>= λ _.
      ask_for no_repository_name (n.repository_name p.head_id) >>= λ name.
      of_work (create_quarantine_repo n.git n.cache_dir p) >>= λ _.
      finally (worked remove_directory ∷ []) (merge_and_push user p (merge_message p name))

  unfoldable pub process_merge : InvokeMergePullRequestEvent → Merge Unit
  unfolding merge_locked bytes_eq
  process_merge ev =
      if bytes_eq ev.provider n.address
      then (ask_for no_pull_request (n.pull_request ev.repository_id ev.pull_request_iid) >>= λ p.
          under_locks p (merge_locked ev.creator p))
      else ([], ok tt)
