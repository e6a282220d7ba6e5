-- ===== src/Push/Checks.antt =====
-- What the checks, the retrieval and the announcement of a push have established where they succeed.
use gitopia_storage.Prelude.{
  ℕ, ◌≤◌, ◌≡◌, refl, arith, sym, ap, ◌∙◌, ◌⊎◌, inl, inr, true, not, Option, none, some, List, [],
  ◌∷◌, Result, ok, err, ltb, ◌==◌, ==_iff, some-inj, Bool-cases, if◌then◌else◌,
}
use gitopia_storage.Text.{Bytes, codes}
use gitopia_storage.App.{Query, answered, failed, contains}
use gitopia_storage.Cost.{Coin, Params}
use gitopia_storage.Merkle.{File, MerkleError, compute_merkle_root, default_chunk_size}
use gitopia_storage.Handlers.Challenge.{Node, file_node, other_node}
use gitopia_storage.Calls.{
  Gives, ask_for-then, check-then, make_call-then, make_call-Gives, ask_for-Gives, check-Gives,
}
use gitopia_storage.Push.{
  Call, Env, Proposal, announce, charge_for, check_charge, check_pending, file_of, pays, polled,
  proposals_unknown, proposed, retrieved_root, root_found, no_balance, insufficient_balance, no_api,
  bad_path, not_retrieved, invalid_format, no_root, proposal_failed, not_verified,
}

file_of-some : (n : Node) {f : File} → file_of n ≡ some f → n ≡ file_node f
file_of-some (file_node f) h = ap file_node (some-inj h)
file_of-some other_node h = ground (arith, h)

root_found-some :
    (o : Option (Result MerkleError Bytes)) {root : Bytes}
    → root_found o ≡ some root
    → o ≡ some (ok root)
root_found-some none h = ground (arith, h)
root_found-some (some (err x)) h = ground (arith, h)
root_found-some (some (ok root)) h = ap (λ z. some (ok z)) (some-inj h)

-- The chain knows of no proposal.
abbrev pub NotPending : Query Unit → Type 0
NotPending answer =
    (text : Bytes) × (answer ≡ failed text)
    × (contains text (codes "packfile update proposal not found") ≡ true)

pub check_pending-Gives :
    (q : Query Unit) (first : List Call) (u : Unit)
    → Gives (check_pending q) first u
    → NotPending q × (first ≡ [])
unfolding check_pending
check_pending-Gives (answered proposal) first u h = ground (arith, ap (λ r. r.1) h)
check_pending-Gives (failed text) first u h =
    let (t, made) =
      check-Gives (contains text (codes "packfile update proposal not found")) proposals_unknown
        h in
    ((text, refl, t), made)

-- the calls of a run, one after the other
pub joined :
    {calls first second last : List Call} {c d : Call}
    → calls ≡ c ∷ first
    → first ≡ d ∷ second
    → second ≡ last
    → calls ≡ c ∷ d ∷ last
joined {c = c} {d} h k l = h ∙ ap (λ z. c ∷ z) (k ∙ ap (λ z. d ∷ z) l)

module _ {T P : Type 0} (e : Env T P) where
  -- There is no price or no charge, or the owner can pay it.
  abbrev pub Covered : Params → Bytes → Coin → Type 0
  Covered p owner charge =
      (p.storage_price_per_gb.amount ≡ 0)
      ⊎ ((charge.amount ≡ 0)
          ⊎ ((amount : ℕ) × (e.balance owner charge.denom ≡ some amount)
              × (charge.amount ≤ amount)))

  pays-Gives :
      (owner : Bytes) (charge : Coin) (first : List Call) (u : Unit)
      → Gives (pays e owner charge) first u
      → ((amount : ℕ) × (e.balance owner charge.denom ≡ some amount) × (charge.amount ≤ amount))
        × (first ≡ [])
  pays-Gives owner charge first u h =
      let (amount, known, k) = ask_for-then no_balance (e.balance owner charge.denom) _ h in
      let (enough, made) = check-Gives (not (ltb amount charge.amount)) insufficient_balance k in
      ((amount, known, ground (arith, enough)), made)

  charged :
      (p : Params) (owner : Bytes) (charge : Coin) (first : List Call) (u : Unit)
      → Gives
          (if p.storage_price_per_gb.amount == 0
            then ([], ok tt)
            else if charge.amount == 0
            then ([], ok tt)
            else pays e owner charge)
          first
          u
      → Covered p owner charge × (first ≡ [])
  charged p owner charge first u h = elim (Bool-cases (p.storage_price_per_gb.amount == 0)) [
    | inl free ↦
        (inl ((==_iff p.storage_price_per_gb.amount 0).0 free), sym (ap (λ r. r.0) (rw free at h)))
    | inr priced ↦ elim (Bool-cases (charge.amount == 0)) [
      | inl nothing ↦ (
        inr (inl ((==_iff charge.amount 0).0 nothing)),
        sym (ap (λ r. r.0) (rw (priced, nothing) at h)),
      )
      | inr due ↦
          let (paid, made) = pays-Gives owner charge first u (rw (priced, due) at h) in
          (inr (inr paid), made)
    ]
  ]

  pub check_charge-Gives :
      (p : Params) (owner : Bytes) (used size current : ℕ) (first : List Call) (u : Unit)
      → Gives (check_charge e p owner used size current) first u
      → Covered p owner (charge_for e p used size current) × (first ≡ [])
  unfolding check_charge
  check_charge-Gives p owner used size current first u h =
      charged p owner (charge_for e p used size current) first u h

  -- IPFS has a file under the cid, and the root is that of the file.
  abbrev pub RootOf : Bytes → Bytes → Type 0
  RootOf cid root =
      (file : File) × (e.get cid ≡ some (file_node file))
      × (compute_merkle_root e.trees default_chunk_size file ≡ some (ok root))

  pub retrieved_root-Gives :
      (cid : Bytes) (first : List Call) (root : Bytes)
      → Gives (retrieved_root e cid) first root
      → RootOf cid root × (first ≡ [])
  unfolding retrieved_root
  retrieved_root-Gives cid first root h =
      let (api, h1) = check-then e.api_works no_api _ h in
      let (path, h2) = check-then (e.path_works cid) bad_path _ h1 in
      let (node, got, h3) = ask_for-then not_retrieved (e.get cid) _ h2 in
      let (file, is_file, h4) = ask_for-then invalid_format (file_of node) _ h3 in
      let (found, made) =
        ask_for-Gives no_root (root_found (compute_merkle_root e.trees default_chunk_size file))
          h4 in
      (
        (
          file,
          got ∙ ap some (file_of-some node is_file),
          root_found-some (compute_merkle_root e.trees default_chunk_size file) found,
        ),
        made,
      )

  pub announce-Gives :
      (p : Proposal) {calls : List Call} {u : Unit}
      → Gives (announce e p) calls u
      → (calls ≡ proposed p ∷ polled p.repository_id p.user ∷ [])
        × (e.confirmed p.repository_id p.user ≡ true)
  unfolding announce
  announce-Gives p h =
      let (rest, made, k, same) = make_call-then (proposed p) proposal_failed (e.proposes p) _ h in
      let (confirmed, polls) =
        make_call-Gives (polled p.repository_id p.user) not_verified
          (e.confirmed p.repository_id p.user) k in
      (same ∙ ap (λ c. proposed p ∷ c) polls, confirmed)
