-- ===== src/Merge/Quarantine.antt =====
-- CreateQuarantineRepo of utils/pull.go, and the merges that run in it: RunMergeCommand and
-- CommitAndSignNoAuthor, and the three styles of handler/mergePullRequest.go. How each git process
-- ends is an argument.
use gitopia_storage.Prelude.{ℕ, Bool, true, false, List, [], ◌∷◌, ◌++◌, err}
use gitopia_storage.Text.{Bytes, codes}
use gitopia_storage.Events.Paths.{decimal, join}
use gitopia_storage.Calls.{Run, ◌>>=◌, make_call, on_error}

-- The branches and repositories of a pull request.
pub record PullRequest : Type 0 where
  pub iid : ℕ
  pub creator : Bytes
  pub base_id : ℕ
  pub base_branch : Bytes
  pub head_id : ℕ
  pub head_branch : Bytes

-- The work on a quarantine repository. The name of its directory is left out: a run has one.
pub data Step : Type 0 where
  make_directory init : Step
  add_alternates : Bytes → Step
  remote_add : Bytes → Bytes → Step
  fetch : Bytes → List Bytes → Step
  symbolic_ref read_tree merge_no_commit merge_ff_only merge_squash rebase : Step
  checkout : Bytes → Step
  commit : Bytes → Step
  commit_author : Bytes → Bytes → Step
  push : Bytes → Bytes → Step
  rev_parse : Bytes → Step
  remove_directory : Step

pub data QuarantineError : Type 0 where
  failed_step : Step → QuarantineError
  merge_conflict unrelated_histories failed_merge rebase_conflict failed_rebase : QuarantineError
  invalid_merge_style : QuarantineError

-- After a failed merge: whether MERGE_HEAD or REBASE_HEAD is there, and whether git refused to
-- merge unrelated histories.
pub record Git : Type 0 where
  pub works : Step → Bool
  pub merge_head : Bool
  pub unrelated : Bool
  pub rebase_head : Bool

abbrev pub Work : Type 0 → Type 0
Work A = Run Step QuarantineError A

unfoldable pub do_step : Git → Step → Work Unit
do_step g s = make_call s (failed_step s) (g.works s)

abbrev pub repo_path : Bytes → ℕ → Bytes
repo_path dir id = join (dir ∷ (decimal id ++ codes ".git") ∷ [])

abbrev pub objects_path : Bytes → Bytes
objects_path path = join (path ∷ codes "objects" ∷ [])

-- The work after the directory is there; the fetched refs are given with it.
unfoldable pub fill_quarantine : Git → Bytes → PullRequest → Work Unit
unfolding do_step join decimal
fill_quarantine g dir p =
    let base = repo_path dir p.base_id in
    let head = repo_path dir p.head_id in
    do_step g init >>= λ _. do_step g (add_alternates (objects_path base)) >>= λ _.
    do_step g (remote_add (codes "origin") base) >>= λ _.
    do_step g (
      fetch (codes "origin")
        ((p.base_branch ++ codes ":base") ∷ (p.base_branch ++ codes ":original_base") ∷ []))
    >>= λ _. do_step g symbolic_ref >>= λ _. do_step g (add_alternates (objects_path head)) >>= λ _.
        do_step g (remote_add (codes "head_repo") head) >>= λ _. do_step g (
          fetch (codes "head_repo")
            ((codes "refs/heads/" ++ p.head_branch ++ codes ":tracking") ∷ []))

-- An error after the directory was made removes it.
unfoldable pub create_quarantine_repo : Git → Bytes → PullRequest → Work Unit
unfolding fill_quarantine do_step
create_quarantine_repo g dir p =
    do_step g make_directory >>= λ _. on_error (remove_directory ∷ []) (fill_quarantine g dir p)

abbrev pub merge_error : Bool → Bool → QuarantineError
merge_error true unrelated = merge_conflict
merge_error false true = unrelated_histories
merge_error false false = failed_merge

unfoldable pub run_merge_command : Git → Step → Work Unit
run_merge_command g s = make_call s (merge_error g.merge_head g.unrelated) (g.works s)

unfoldable pub commit_and_sign_no_author : Git → Bytes → Work Unit
unfolding do_step
commit_and_sign_no_author g message = do_step g (commit message)

pub data MergeStyle : Type 0 where
  merge_style rebase_style rebase_merge_style squash_style manually_merged rebase_update_style :
      MergeStyle

unfoldable pub perform_merge_style : Git → Bytes → Work Unit
unfolding run_merge_command commit_and_sign_no_author
perform_merge_style g message =
    run_merge_command g merge_no_commit >>= λ _. commit_and_sign_no_author g message

abbrev pub rebase_error : Bool → QuarantineError
rebase_error true = rebase_conflict
rebase_error false = failed_rebase

unfoldable pub perform_rebase_style : Git → Work Unit
unfolding do_step run_merge_command
perform_rebase_style g = do_step g (checkout (codes "staging")) >>= λ _.
    make_call rebase (rebase_error g.rebase_head) (g.works rebase) >>= λ _.
    do_step g (checkout (codes "base")) >>= λ _. run_merge_command g merge_ff_only

unfoldable pub perform_squash_style : Git → PullRequest → Bytes → Work Unit
unfolding run_merge_command do_step
perform_squash_style g p message =
    run_merge_command g merge_squash >>= λ _. do_step g (commit_author p.creator message)

unfoldable pub perform_merge : Git → MergeStyle → PullRequest → Bytes → Work Unit
unfolding perform_merge_style perform_rebase_style perform_squash_style
perform_merge g merge_style p message = perform_merge_style g message
perform_merge g rebase_style p message = perform_rebase_style g
perform_merge g squash_style p message = perform_squash_style g p message
perform_merge g _ p message = ([], err invalid_merge_style)

unfoldable pub push_changes : Git → MergeStyle → PullRequest → Work Unit
unfolding do_step
push_changes g rebase_update_style p =
    do_step g (push (codes "head_repo") (codes "staging:refs/heads/" ++ p.head_branch))
push_changes g _ p = do_step g (push (codes "origin") (codes "base:refs/heads/" ++ p.base_branch))
