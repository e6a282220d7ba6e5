-- ===== src/Lfs/Announced.antt =====
-- What a stored object was pinned and announced as, and what its owner can pay.
use gitopia_storage.Prelude.{
  ℕ, ◌≤◌, ◌≡◌, refl, arith, ap, ◌∙◌, ◌⊎◌, inl, inr, Bool, true, false, Option, none, some, List, [],
  ◌∷◌, Result, ok, err, length, ◌==◌, Bool-cases,
}
use gitopia_storage.Text.{Bytes}
use gitopia_storage.Text.Equality.{bytes_eq_refl}
use gitopia_storage.Cost.{Params, Coin}
use gitopia_storage.Lfs.{Disk, Faults, LocalStorage, StorageError, valid_oid, storage_path, upload}
use gitopia_storage.Lfs.Refusals.{done, upload_error-not_done, internal_not_done}
use gitopia_storage.Lfs.Upload.{
  announce_pin, announce_root, proposal_of, proposal_result, Services, Effects, Proposal,
  charge_for, check_balance, check_charge, store,
}

-- The owner can pay what the object adds.
abbrev pub CanPay : Services → Params → ℕ → Bytes → Option ℕ → Type 0
CanPay v p used owner length =
    (p.storage_price_per_gb.amount ≡ 0)
    ⊎ (((charge_for v p used length).amount ≡ 0)
        ⊎ ((amount : ℕ) × (v.balance owner (charge_for v p used length).denom ≡ some amount)
            × ((charge_for v p used length).amount ≤ amount)))

abbrev pub Admitted : Services → ℕ → Option ℕ → Type 0
Admitted v id length =
    (owner : Bytes) × (used : ℕ) × (p : Params) × (v.owner_of id ≡ some owner)
    × (v.storage_used owner ≡ some used)
    × (v.storage_params ≡ some p)
    × CanPay v p used owner length

-- The chain knows the object, or a proposal of this user for it was confirmed.
abbrev pub Announced : Services → Bytes → ℕ → Bytes → List Proposal → Type 0
Announced v user id oid proposed =
    (v.object_known id oid ≡ true)
    ⊎ ((p : Proposal) × (proposed ≡ p ∷ [])
        × (p.user ≡ user)
        × (p.repository_id ≡ id)
        × (p.oid ≡ oid)
        × (v.confirmed p ≡ true))

check_balance_iff :
    (o : Option ℕ) (charge : Coin)
    → (check_balance o charge ≡ ok tt)
    → (amount : ℕ) × (o ≡ some amount) × (charge.amount ≤ amount)
unfolding check_balance
check_balance_iff none charge h = ground (arith, h)
check_balance_iff (some amount) charge h = (amount, refl, ground (arith, h))

pub check_charge-CanPay :
    (v : Services) (p : Params) (used : ℕ) (owner : Bytes) (length : Option ℕ)
    → check_charge v p used owner length ≡ ok tt
    → CanPay v p used owner length
unfolding check_charge
check_charge-CanPay v p used owner length h =
    elim (Bool-cases (p.storage_price_per_gb.amount == 0)) [
      | inl z ↦ inl (ground (arith, z))
      | inr z ↦ elim (Bool-cases ((charge_for v p used length).amount == 0)) [
        | inl y ↦ inr (inl (ground (arith, y)))
        | inr y ↦ inr (
            inr (
              check_balance_iff (v.balance owner (charge_for v p used length).denom)
                (charge_for v p used length) (ground (arith, z, y, h))))
      ]
    ]

pub upload-stored :
    (s : LocalStorage) (f : Faults) (oid content : Bytes) (d : Disk) (n : ℕ)
    → (upload s f oid content d).0 ≡ ok n
    → (valid_oid oid ≡ true) × ((upload s f oid content d).1 (storage_path s oid) ≡ some content)
unfolding upload
upload-stored s f oid content d n h =
    (ground (arith, h), ground (arith, h, bytes_eq_refl (storage_path s oid)))

-- What a finished upload did besides writing the file.
abbrev pub Pinned : Services → Bytes → ℕ → Bytes → Option Bytes → Effects → Type 0
Pinned v user id oid pinned e =
    (cid : Bytes) × (pinned ≡ some cid) × (e.pinned ≡ cid ∷ []) × Announced v user id oid e.proposed

-- The proposal is the one for this object.
abbrev ProposalFor : Bytes → ℕ → Bytes → Option Proposal → Type 0
ProposalFor user id oid none = Unit
ProposalFor user id oid (some p) = (p.user ≡ user) × (p.repository_id ≡ id) × (p.oid ≡ oid)

proposal-For :
    (user : Bytes) (id : ℕ) (oid : Bytes) (n : ℕ) (cid : Bytes) (root : Option Bytes)
    → ProposalFor user id oid (proposal_of user id oid n cid root)
proposal-For user id oid n cid none = tt
proposal-For user id oid n cid (some root) = (refl, refl, refl)

result-Announced :
    (v : Services) (d : Disk) (user : Bytes) (id : ℕ) (oid cid : Bytes) (p : Proposal)
    (proposes confirmed : Bool)
    → ProposalFor user id oid (some p)
    → v.confirmed p ≡ confirmed
    → (proposal_result d cid p proposes confirmed).0 ≡ done
    → let after = (proposal_result d cid p proposes confirmed).1 in
      (after.disk ≡ d) × (after.pinned ≡ cid ∷ []) × Announced v user id oid after.proposed
result-Announced v d user id oid cid p false confirmed k e h = absurd (internal_not_done h)
result-Announced v d user id oid cid p true false k e h = absurd (internal_not_done h)
result-Announced v d user id oid cid p true true k e h =
    (refl, refl, inr (p, refl, k.0, k.1, k.2, e))

root-Announced :
    (v : Services) (d : Disk) (user : Bytes) (id : ℕ) (oid cid : Bytes) (p : Option Proposal)
    (known : Bool)
    → ProposalFor user id oid p
    → v.object_known id oid ≡ known
    → (announce_root v d cid p known).0 ≡ done
    → let after = (announce_root v d cid p known).1 in
      (after.disk ≡ d) × (after.pinned ≡ cid ∷ []) × Announced v user id oid after.proposed
root-Announced v d user id oid cid none known k e h = absurd (internal_not_done h)
root-Announced v d user id oid cid (some p) true k e h = (refl, refl, inl e)
root-Announced v d user id oid cid (some p) false k e h =
    result-Announced v d user id oid cid p (v.proposes p) (v.confirmed p) k refl h

pin-Pinned :
    (v : Services) (s : LocalStorage) (user : Bytes) (id : ℕ) (oid : Bytes) (n : ℕ) (d : Disk)
    (pinned : Option Bytes)
    → (announce_pin v s user id oid n d pinned).0 ≡ done
    → let after = (announce_pin v s user id oid n d pinned).1 in
      (after.disk ≡ d) × Pinned v user id oid pinned after
pin-Pinned v s user id oid n d none h = absurd (internal_not_done h)
pin-Pinned v s user id oid n d (some cid) h =
    let root = v.root_of (d (storage_path s oid)) in
    let (e, k, l) =
      root-Announced v d user id oid cid (proposal_of user id oid n cid root)
        (v.object_known id oid) (proposal-For user id oid n cid root) refl h in
    (e, (cid, refl, k, l))

-- The upload's part: the file and what was made of it.
pub store-stored :
    (v : Services) (s : LocalStorage) (user : Bytes) (id : ℕ) (oid content : Bytes)
    (r : Result StorageError ℕ × Disk)
    → ((n : ℕ) → r.0 ≡ ok n → r.1 (storage_path s oid) ≡ some content)
    → (store v s user id oid r.0 r.1).0 ≡ done
    → let after = (store v s user id oid r.0 r.1).1 in
      (after.disk (storage_path s oid) ≡ some content)
      × Pinned v user id oid (v.pin_file (storage_path s oid)) after
unfolding store
store-stored v s user id oid content (err e, d) k h = absurd (upload_error-not_done e h)
store-stored v s user id oid content (ok n, d) k h =
    let (e, l) = pin-Pinned v s user id oid n d (v.pin_file (storage_path s oid)) h in
    (ap (λ z. z (storage_path s oid)) e ∙ k n refl, l)
