-- ===== src/Hooks.antt =====
-- hooks: hooks/utils/input.go, hooks/gitopia-pre-receive and hooks/gitopia-post-receive. Git's
-- merge-base and update-ref and the chain's queries are arguments. Only the first line of the
-- input is read; it is taken to fit the reader's buffer of 4096 bytes.
pub mod Protection
pub mod Branches
mod Tests
use gitopia_storage.Prelude.{
  ℕ, ◌≡◌, refl, Bool, true, false, not, ◌&&◌, ◌||◌, Option, none, some, List, [], ◌∷◌, ◌++◌, Result,
  ok, err, ◌>>=◌, or_err, ◌==◌, if◌then◌else◌,
}
use mathlib.Core.List.{reverse}
use gitopia_storage.Text.{Bytes, codes, bytes_eq, split, cut_at, parse_uint}
use gitopia_storage.Events.Paths.{base}
use gitopia_storage.Auth.{is_space}
use gitopia_storage.App.{Query, answered, failed, contains}

pub data Action : Type 0 where
  push_action : Action
  create_action : Action
  delete_action : Action

pub record Input : Type 0 where
  pub action : Action
  pub repo_id : ℕ
  pub repo_path : Bytes
  pub old_rev : Bytes
  pub new_rev : Bytes
  pub ref : Bytes
  pub ref_type : Bytes
  pub ref_name : Bytes

pub data HookError : Type 0 where
  no_line : HookError
  invalid_input : HookError
  bad_repository : HookError
  index_panics : HookError
  config_failed : HookError
  merge_base_failed : HookError
  non_fast_forward : HookError
  update_ref_failed : HookError

unfoldable pub zero_sha : Bytes
zero_sha = codes "0000000000000000000000000000000000000000"

abbrev drop_cr : Bytes → Bytes
drop_cr [] = []
drop_cr (c ∷ s) = if c == b'\r' then s else c ∷ s

abbrev up_to : Bytes → Option (Bytes × Bytes) → Bytes
up_to s none = s
up_to s (some (before, after)) = reverse (drop_cr (reverse before))

-- `reader.ReadLine()`: the first line without its end.
unfoldable pub read_line : Bytes → Option Bytes
unfolding cut_at
read_line [] = none
read_line (c ∷ s) = some (up_to (c ∷ s) (cut_at b'\n' (c ∷ s)))

-- `strings.Cut(filepath.Base(dir), ".")`, as a number.
abbrev before_dot : Bytes → Option (Bytes × Bytes) → Bytes
before_dot s none = s
before_dot s (some (before, after)) = before

unfoldable pub repository_of : Bytes → Option ℕ
unfolding base cut_at parse_uint
repository_of dir = parse_uint (before_dot (base dir) (cut_at b'.' (base dir)))

unfoldable pub parse_hook_action : Bytes → Bytes → Action
unfolding bytes_eq zero_sha
parse_hook_action old new =
    if bytes_eq old zero_sha && not (bytes_eq new zero_sha)
    then create_action
    else if not (bytes_eq old zero_sha) && bytes_eq new zero_sha
    then delete_action
    else push_action

-- `refchunks[1]` and `refchunks[2]`.
abbrev pub type_and_name : List Bytes → Result HookError (Bytes × Bytes)
type_and_name (first ∷ type ∷ name ∷ more) = ok (type, name)
type_and_name _ = err index_panics

abbrev pub three_chunks : List Bytes → Result HookError (Bytes × Bytes × Bytes)
three_chunks (old ∷ new ∷ ref ∷ []) = ok (old, new, ref)
three_chunks _ = err invalid_input

abbrev pub input_of : Bytes → Bytes × Bytes × Bytes → ℕ → Bytes × Bytes → Input
input_of dir (old, new, ref) id (type, name) = record {
  action = parse_hook_action old new;
  repo_id = id;
  repo_path = dir;
  old_rev = old;
  new_rev = new;
  ref = ref;
  ref_type = type;
  ref_name = name;
}

abbrev pub input_for : Bytes → Bytes × Bytes × Bytes → ℕ → Result HookError Input
input_for dir chunks id =
    type_and_name (split b'/' chunks.2) >>= λ names. ok (input_of dir chunks id names)

abbrev pub parse_chunks : Bytes → Bytes × Bytes × Bytes → Result HookError Input
parse_chunks dir chunks = or_err bad_repository (repository_of dir) >>= input_for dir chunks

unfoldable pub parse_line : Bytes → Bytes → Result HookError Input
unfolding split repository_of parse_hook_action
parse_line dir line = three_chunks (split b' ' line) >>= parse_chunks dir

-- The directory and the input of the hook.
unfoldable pub parse : Bytes → Bytes → Result HookError Input
unfolding read_line parse_line
parse dir stream = or_err no_line (read_line stream) >>= parse_line dir

unfoldable pub trim_left_space : Bytes → Bytes
unfolding is_space
trim_left_space [] = []
trim_left_space (c ∷ s) = let rest = trim_left_space s in if is_space c then rest else c ∷ s

unfoldable pub trim_space : Bytes → Bytes
unfolding trim_left_space
trim_space s = reverse (trim_left_space (reverse (trim_left_space s)))

abbrev pub forced : Bytes → Option Bytes → Result HookError Bool
forced old none = err merge_base_failed
forced old (some out) = ok (not (bytes_eq (trim_space out) old))

-- `merge_base` is the output of git merge-base, `none` where it fails.
unfoldable pub is_force_push : (Bytes → Bytes → Option Bytes) → Input → Result HookError Bool
unfolding bytes_eq zero_sha trim_space
is_force_push merge_base i =
    if bytes_eq i.old_rev zero_sha || bytes_eq i.new_rev zero_sha
    then ok false
    else forced i.old_rev (merge_base i.old_rev i.new_rev)

-- The chain: whether the connection works, the owner and name of a repository, and whether a branch
-- of one allows force pushes.
pub record Chain : Type 0 where
  pub connects : Option Bytes
  pub repository : ℕ → Query (Bytes × Bytes)
  pub branch : Bytes → Bytes → Bytes → Query Bool

abbrev pub wrap : Bytes → Bytes → Bytes
wrap what text = what ++ (codes ": " ++ text)

abbrev pub branch_answer : Query Bool → Query Bool
branch_answer (answered allow) = answered allow
branch_answer (failed text) = failed (wrap (codes "error querying repo branch") text)

abbrev pub repository_answer : Chain → Bytes → Query (Bytes × Bytes) → Query Bool
repository_answer c name (answered (owner, repo)) = branch_answer (c.branch owner repo name)
repository_answer c name (failed text) = failed (wrap (codes "error querying repo") text)

abbrev pub connected : Chain → ℕ → Bytes → Option Bytes → Query Bool
connected c id name (some text) = failed (wrap (codes "error connecting to gitopia") text)
connected c id name none = repository_answer c name (c.repository id)

unfoldable pub is_force_push_allowed_for_branch : Chain → ℕ → Bytes → Query Bool
is_force_push_allowed_for_branch c id name = connected c id name c.connects

abbrev pub reject_force : Result HookError Bool → Result HookError Unit
reject_force (err e) = err e
reject_force (ok true) = err non_fast_forward
reject_force (ok false) = ok tt

abbrev pub decide : Query Bool → Result HookError Bool → Result HookError Unit
decide (failed text) force =
    if contains text (codes "branch not found") then ok tt else err config_failed
decide (answered true) force = ok tt
decide (answered false) force = reject_force force

-- `receive` of the pre-receive hook; an error cancels the push.
unfoldable pub pre_receive :
    Chain → (Bytes → Bytes → Option Bytes) → Bytes → Bytes → Result HookError Unit
unfolding parse is_force_push is_force_push_allowed_for_branch contains
pre_receive c merge_base dir stream = parse dir stream >>= λ i.
    decide (is_force_push_allowed_for_branch c i.repo_id i.ref_name) (is_force_push merge_base i)

abbrev is_delete : Action → Bool
is_delete delete_action = true
is_delete _ = false

-- `receive` of the post-receive hook: the reference that keeps the old commit, if there is one.
-- `update_ref` is the success of git update-ref.
unfoldable pub post_receive :
    (Bytes → Bytes → Option Bytes)
    → (Bytes → Bytes → Bool)
    → Bytes
    → Bytes
    → Result HookError (Option (Bytes × Bytes))
unfolding parse is_force_push
post_receive merge_base update_ref dir stream = parse dir stream >>= λ i.
    is_force_push merge_base i >>= λ force.
    (let dangling = codes "refs/dangling/" ++ i.old_rev in
      if force || is_delete i.action
      then (if update_ref dangling i.old_rev
          then ok (some (dangling, i.old_rev))
          else err update_ref_failed)
      else ok none)
