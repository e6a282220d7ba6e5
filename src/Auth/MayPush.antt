-- ===== src/Auth/MayPush.antt =====
-- Who may push, said without the code of HavePushPermission: the owner, the members of the DAO that
-- owns the repository, and the collaborators.
use gitopia_storage.Prelude.{
  ℕ, ◌≤◌, ◌≡◌, refl, arith, ◌↔◌, ◌⊎◌, inl, inr, Bool, true, false, Option, none, some, List, [],
  ◌∷◌, Result, ok, err, get_elem?, Option-cases, some-inj, sym, subst,
}
use gitopia_storage.Text.{Bytes}
use gitopia_storage.Text.Equality.{bytes_eq_iff}
use gitopia_storage.Auth.{AuthError}
use gitopia_storage.Auth.Permission.{
  Chain, Repository, Collaborator, OwnerType, user_owner, dao_owner, other_owner,
  have_push_permission, owner_permission, permission_at, member_permission, repository_permission,
  is_member, or_else_by,
}

abbrev pub Among : Bytes → List Bytes → Type 0
Among address [] = ⊥
Among address (member ∷ members) = (member ≡ address) ⊎ Among address members

abbrev pub Owns : Chain → OwnerType → Bytes → Bytes → Type 0
Owns c user_owner owner address = address ≡ owner
Owns c dao_owner owner address =
    (members : List Bytes) × (c.dao_member_all owner ≡ some members) × Among address members
Owns c other_owner owner address = ⊥

-- The members of the DAO can be read where a DAO owns the repository.
abbrev pub OwnerKnown : Chain → OwnerType → Bytes → Type 0
OwnerKnown c dao_owner owner = (members : List Bytes) × (c.dao_member_all owner ≡ some members)
OwnerKnown c _ owner = Unit

abbrev pub Collaborates : ℕ → List Collaborator → Option ℕ → Type 0
Collaborates push_branch collaborators found =
    (i : ℕ) × (collaborator : Collaborator) × (found ≡ some i)
    × (get_elem? collaborators i ≡ some collaborator)
    × (push_branch ≤ collaborator.permission)

abbrev pub MayPush : Chain → Repository → Bytes → Type 0
MayPush c repo address =
    Owns c repo.owner_type repo.owner_id address
    ⊎ (OwnerKnown c repo.owner_type repo.owner_id
        × Collaborates c.push_branch repo.collaborators
            (c.collaborator_exists repo.collaborators address))

member-Among :
    (address : Bytes) (members : List Bytes)
    → (is_member address members ≡ true) ↔ Among address members
unfolding is_member
member-Among address [] = ground arith
member-Among address (member ∷ members) =
    ground (arith, member-Among address members, bytes_eq_iff member address)

dao-Owns :
    (found : Option (List Bytes)) (address : Bytes)
    → (member_permission found address ≡ ok true)
      ↔ ((members : List Bytes) × (found ≡ some members) × Among address members)
unfolding member_permission
dao-Owns none address = ground arith
dao-Owns (some members) address = (
  λ h. (members, refl, ground (arith, member-Among address members)),
  λ (m, e, h). ground (arith, member-Among address m, e, h),
)

owner-Owns :
    (c : Chain) (t : OwnerType) (owner address : Bytes)
    → (owner_permission c t owner address ≡ ok true) ↔ Owns c t owner address
unfolding owner_permission
owner-Owns c user_owner owner address = ground (arith, bytes_eq_iff address owner)
owner-Owns c other_owner owner address = ground arith
owner-Owns c dao_owner owner address = dao-Owns (c.dao_member_all owner) address

dao-Known :
    (found : Option (List Bytes)) (address : Bytes)
    → ((b : Bool) × (member_permission found address ≡ ok b))
      ↔ ((members : List Bytes) × (found ≡ some members))
unfolding member_permission
dao-Known none address = ground arith
dao-Known (some members) address = (λ h. (members, refl), λ h. (_, refl))

owner-Known :
    (c : Chain) (t : OwnerType) (owner address : Bytes)
    → ((b : Bool) × (owner_permission c t owner address ≡ ok b)) ↔ OwnerKnown c t owner
unfolding owner_permission
owner-Known c user_owner owner address = (λ h. tt, λ h. (_, refl))
owner-Known c other_owner owner address = (λ h. tt, λ h. (_, refl))
owner-Known c dao_owner owner address = dao-Known (c.dao_member_all owner) address

collaborator-Collaborates :
    (push : ℕ) (collaborators : List Collaborator) (found : Option ℕ)
    → (permission_at push collaborators found ≡ ok true) ↔ Collaborates push collaborators found
unfolding permission_at
collaborator-Collaborates push collaborators none = ground arith
collaborator-Collaborates push collaborators (some i) = (
  λ h. elim (Option-cases (get_elem? collaborators i)) [
    | inl e ↦ ground (arith, e, h)
    | inr (found, e) ↦ (i, found, refl, e, ground (arith, e, h))
  ],
  λ (j, found, same, e, le).
      subst (λ z. permission_at push collaborators (some z) ≡ ok true) (sym (some-inj same))
        (ground (arith, e, le)),
)

or_else_iff :
    (first other : Result AuthError Bool)
    → (or_else_by first other ≡ ok true)
      ↔ ((first ≡ ok true) ⊎ (((b : Bool) × (first ≡ ok b)) × (other ≡ ok true)))
or_else_iff (err e) other = ground arith
or_else_iff (ok true) other = ground arith
or_else_iff (ok false) other = (λ h. inr ((false, refl), h), λ h. ground (arith, h))

repository-MayPush :
    (c : Chain) (repo : Repository) (address : Bytes)
    → (repository_permission c address (some repo) ≡ ok true) ↔ MayPush c repo address
unfolding repository_permission
repository-MayPush c repo address = ground (
  arith,
  or_else_iff (owner_permission c repo.owner_type repo.owner_id address) (
      permission_at c.push_branch repo.collaborators
        (c.collaborator_exists repo.collaborators address)),
  owner-Owns c repo.owner_type repo.owner_id address,
  owner-Known c repo.owner_type repo.owner_id address,
  collaborator-Collaborates c.push_branch repo.collaborators
      (c.collaborator_exists repo.collaborators address),
)

found-MayPush :
    (c : Chain) (address : Bytes) (found : Option Repository)
    → (repository_permission c address found ≡ ok true)
      ↔ ((repo : Repository) × (found ≡ some repo) × MayPush c repo address)
unfolding repository_permission
found-MayPush c address none = ground arith
found-MayPush c address (some repo) = (
  λ h. (repo, refl, (repository-MayPush c repo address).0 h),
  λ (r, e, h).
      subst (λ r. repository_permission c address (some r) ≡ ok true) (sym (some-inj e))
        ((repository-MayPush c r address).1 h),
)

-- HavePushPermission answers yes exactly where the node can be dialled, the chain has the
-- repository, and the address is the user or a member of the DAO that owns it, or, the members of
-- an owning DAO being known, a collaborator with the permission to push a branch.
pub have_push_permission-MayPush :
    (c : Chain) (id : ℕ) (address : Bytes)
    → (have_push_permission c id address ≡ ok true) ↔ (
        (c.dials ≡ true)
        × ((repo : Repository) × (c.repository id ≡ some repo) × MayPush c repo address))
unfolding have_push_permission
have_push_permission-MayPush c id address =
    ground (arith, found-MayPush c address (c.repository id))
