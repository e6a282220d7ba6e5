-- ===== src/Sync.antt =====
-- utils/cache.go, SyncRepositoryRefs, syncRefsWithUpdateRef and syncRefsIndividually: the branches
-- and tags of the chain are written into the cached repository. The references of the repository
-- are a map from names to commits. Git is an argument: what it accepts, and how a process ends.
pub mod Single
pub mod Reported
mod Tests
use gitopia_storage.Prelude.{
  ℕ, ◌≡◌, refl, Bool, true, false, Option, none, some, List, [], ◌∷◌, ◌++◌, Result, ok, err, map,
  take, leb, if◌then◌else◌,
}
use gitopia_storage.Text.{Bytes, codes, bytes_eq}

pub data RefKind : Type 0 where
  branch : RefKind
  tag : RefKind

-- A branch or a tag of the chain.
pub record Ref : Type 0 where
  pub kind : RefKind
  pub name : Bytes
  pub sha : Bytes

abbrev pub Refs : Type 0
Refs = Bytes → Option Bytes

unfoldable pub ref_name : Ref → Bytes
ref_name r = elim r.kind [
  | branch ↦ codes "refs/heads/" ++ r.name
  | tag ↦ codes "refs/tags/" ++ r.name
]

-- The entry of a reference in the list of those that failed.
unfoldable pub failed_name : Ref → Bytes
failed_name r = elim r.kind [ branch ↦ codes "branch:" ++ r.name | tag ↦ codes "tag:" ++ r.name ]

unfoldable pub update_command : Ref → Bytes
unfolding ref_name
update_command r = codes "update " ++ (ref_name r ++ (codes " " ++ r.sha))

unfoldable pub set_ref : Refs → Ref → Refs
unfolding bytes_eq ref_name
set_ref refs r = λ name. if bytes_eq name (ref_name r) then some r.sha else refs name

unfoldable pub set_refs : Refs → List Ref → Refs
unfolding set_ref
set_refs refs [] = refs
set_refs refs (r ∷ rs) = set_refs (set_ref refs r) rs

-- How a process ends: it is not started, its output cannot be read and it is killed, with its work
-- done or not, or it is waited for.
pub data Process : Type 0 where
  not_started : Process
  killed : Bool → Process
  waited : Process

-- `git update-ref` of one reference and of a batch, which is atomic, the ends of these processes,
-- and how many commands reach the batch before a write fails.
pub record Git : Type 0 where
  pub accepts : Refs → Ref → Bool
  pub accepts_batch : Refs → List Ref → Bool
  pub update_process : Ref → Process
  pub batch_process : Process
  pub written : ℕ

-- One reference: the references afterwards, and whether it failed.
abbrev pub update_ref : Process → Bool → Refs → Ref → Refs × Bool
update_ref not_started accepted refs r = (refs, true)
update_ref (killed applied) accepted refs r = (if applied then set_ref refs r else refs, true)
update_ref waited true refs r = (set_ref refs r, false)
update_ref waited false refs r = (refs, true)

abbrev pub add_failed : Ref → Bool → Refs × List Bytes → Refs × List Bytes
add_failed r true (refs, failed) = (refs, failed_name r ∷ failed)
add_failed r false (refs, failed) = (refs, failed)

-- The loop over the branches, or over the tags.
unfoldable pub sync_each : Git → Refs → List Ref → Refs × List Bytes
unfolding set_ref failed_name
sync_each g refs [] = (refs, [])
sync_each g refs (r ∷ rs) =
    let updated = update_ref (g.update_process r) (g.accepts refs r) refs r in
    add_failed r updated.1 (sync_each g updated.0 rs)

unfoldable pub sync_refs_individually : Git → Refs → List Ref → List Ref → Refs × List Bytes
unfolding sync_each
sync_refs_individually g refs branches tags =
    let first = sync_each g refs branches in
    let second = sync_each g first.0 tags in (second.0, first.1 ++ second.1)

abbrev pub batch_result : Git → Refs → List Ref → List Ref → Process → Bool → Refs × List Bytes
batch_result g refs branches tags not_started accepted = sync_refs_individually g refs branches tags
batch_result g refs branches tags (killed applied) accepted =
    sync_refs_individually g (if applied then set_refs refs (branches ++ tags) else refs) branches
      tags
batch_result g refs branches tags waited true =
    (set_refs refs (take g.written (branches ++ tags)), [])
batch_result g refs branches tags waited false = sync_refs_individually g refs branches tags

abbrev pub is_empty : List Ref → Bool
is_empty [] = true
is_empty (r ∷ rs) = false

-- The batch, and one by one where it fails.
unfoldable pub sync_refs_with_update_ref : Git → Refs → List Ref → List Ref → Refs × List Bytes
unfolding sync_refs_individually set_refs
sync_refs_with_update_ref g refs branches tags =
    if is_empty (branches ++ tags)
    then (refs, [])
    else batch_result g refs branches tags g.batch_process
        (g.accepts_batch refs (take g.written (branches ++ tags)))

pub data SyncError : Type 0 where
  query_failed : SyncError

-- References that fail are logged; the call succeeds. The chain answers with the branches and tags,
-- `none` being an error.
unfoldable pub sync_repository_refs :
    Git → Option (List Ref) → Option (List Ref) → Refs → Result SyncError (Refs × List Bytes)
unfolding sync_refs_with_update_ref
sync_repository_refs g none tags refs = err query_failed
sync_repository_refs g (some branches) none refs = err query_failed
sync_repository_refs g (some branches) (some tags) refs =
    ok (sync_refs_with_update_ref g refs branches tags)
