-- ===== src/Auth/Permission.antt =====
-- HavePushPermission of utils/auth.go: the owner, a member of the DAO that owns the repository, and a
-- collaborator with enough permission may push.
use gitopia_storage.Prelude.{
  ℕ, Bool, true, false, ◌||◌, Option, none, some, List, [], ◌∷◌, Result, ok, err, get_elem?, leb,
  if◌then◌else◌,
}
use gitopia_storage.Text.{Bytes, bytes_eq}
use gitopia_storage.Auth.{AuthError, permission_check, index_panics}

pub data OwnerType : Type 0 where
  user_owner : OwnerType
  dao_owner : OwnerType
  other_owner : OwnerType

pub record Collaborator : Type 0 where
  pub collaborator_id : Bytes
  pub permission : ℕ

pub record Repository : Type 0 where
  pub owner_type : OwnerType
  pub owner_id : Bytes
  pub collaborators : List Collaborator

-- The chain's node as the code reaches it: whether it can be dialled, its two queries, and the
-- chain's own lookup of a collaborator and permission to push a branch.
pub record Chain : Type 0 where
  pub dials : Bool
  pub repository : ℕ → Option Repository
  pub dao_member_all : Bytes → Option (List Bytes)
  pub collaborator_exists : List Collaborator → Bytes → Option ℕ
  pub push_branch : ℕ

unfoldable pub is_member : Bytes → List Bytes → Bool
unfolding bytes_eq
is_member address [] = false
is_member address (member ∷ members) = bytes_eq member address || is_member address members

-- `repo.Collaborators[i].Permission`, at the index found.
unfoldable pub permission_at : ℕ → List Collaborator → Option ℕ → Result AuthError Bool
permission_at push_branch collaborators none = ok false
permission_at push_branch collaborators (some i) = elim (get_elem? collaborators i) [
  | none ↦ err index_panics
  | some collaborator ↦ ok (leb push_branch collaborator.permission)
]

unfoldable pub member_permission : Option (List Bytes) → Bytes → Result AuthError Bool
unfolding is_member
member_permission none address = err permission_check
member_permission (some members) address = ok (is_member address members)

unfoldable pub owner_permission : Chain → OwnerType → Bytes → Bytes → Result AuthError Bool
unfolding bytes_eq member_permission
owner_permission c user_owner owner address = ok (bytes_eq address owner)
owner_permission c dao_owner owner address = member_permission (c.dao_member_all owner) address
owner_permission c other_owner owner address = ok false

abbrev pub or_else_by : Result AuthError Bool → Result AuthError Bool → Result AuthError Bool
or_else_by (err e) other = err e
or_else_by (ok true) other = ok true
or_else_by (ok false) other = other

unfoldable pub repository_permission : Chain → Bytes → Option Repository → Result AuthError Bool
unfolding owner_permission permission_at
repository_permission c address none = err permission_check
repository_permission c address (some repo) =
    or_else_by (owner_permission c repo.owner_type repo.owner_id address) (
      permission_at c.push_branch repo.collaborators
        (c.collaborator_exists repo.collaborators address))

unfoldable pub have_push_permission : Chain → ℕ → Bytes → Result AuthError Bool
unfolding repository_permission
have_push_permission c id address =
    if c.dials then repository_permission c address (c.repository id) else err permission_check
