-- ===== src/Sync/Single.antt =====
-- What the updates of single references do and report.
use gitopia_storage.Prelude.{
  ◌≡◌, refl, arith, ap, ◌∙◌, ◌⊎◌, inl, inr, Bool, true, false, some, List, [], ◌∷◌, All,
}
use gitopia_storage.Text.{Bytes, bytes_eq}
use gitopia_storage.Text.Equality.{bytes_eq_refl}
use gitopia_storage.Sync.{
  Git, Process, Ref, Refs, not_started, killed, waited, add_failed, failed_name, ref_name, set_ref,
  sync_each, update_ref,
}

abbrev pub Listed : Bytes → List Bytes → Type 0
Listed name [] = ⊥
Listed name (f ∷ failed) = (f ≡ name) ⊎ Listed name failed

-- The reference has the chain's commit, or its name is among those that failed.
abbrev pub SyncedOr : Refs × List Bytes → Ref → Type 0
SyncedOr after r = (after.0 (ref_name r) ≡ some r.sha) ⊎ Listed (failed_name r) after.1

-- None of the references has this name.
abbrev pub Fresh : Bytes → List Ref → Type 0
Fresh name rs = All (λ r. bytes_eq name (ref_name r) ≡ false) rs

abbrev pub DistinctRefs : List Ref → Type 0
DistinctRefs [] = Unit
DistinctRefs (r ∷ rs) = Fresh (ref_name r) rs × DistinctRefs rs

pub set_ref-other :
    (refs : Refs) (r : Ref) (name : Bytes)
    → bytes_eq name (ref_name r) ≡ false
    → set_ref refs r name ≡ refs name
unfolding set_ref
set_ref-other refs r name h = rw (h) refl

pub set_ref-same : (refs : Refs) (r : Ref) → set_ref refs r (ref_name r) ≡ some r.sha
unfolding set_ref
set_ref-same refs r = rw (bytes_eq_refl (ref_name r)) refl

update-other :
    (p : Process) (accepted : Bool) (refs : Refs) (r : Ref) (name : Bytes)
    → bytes_eq name (ref_name r) ≡ false
    → (update_ref p accepted refs r).0 name ≡ refs name
update-other not_started accepted refs r name h = refl
update-other (killed true) accepted refs r name h = set_ref-other refs r name h
update-other (killed false) accepted refs r name h = refl
update-other waited true refs r name h = set_ref-other refs r name h
update-other waited false refs r name h = refl

-- The update of one reference reports what it does not do.
update-done :
    (p : Process) (accepted : Bool) (refs : Refs) (r : Ref)
    → ((update_ref p accepted refs r).1 ≡ true)
      ⊎ (((update_ref p accepted refs r).1 ≡ false)
          × ((update_ref p accepted refs r).0 (ref_name r) ≡ some r.sha))
update-done not_started accepted refs r = inl refl
update-done (killed applied) accepted refs r = inl refl
update-done waited true refs r = inr (refl, set_ref-same refs r)
update-done waited false refs r = inl refl

add-refs : (r : Ref) (b : Bool) (after : Refs × List Bytes) → (add_failed r b after).0 ≡ after.0
add-refs r true after = refl
add-refs r false after = refl

add-SyncedOr :
    (r s : Ref) (b : Bool) (after : Refs × List Bytes)
    → SyncedOr after s
    → SyncedOr (add_failed r b after) s
add-SyncedOr r s true after (inl h) = inl h
add-SyncedOr r s true after (inr h) = inr (inr h)
add-SyncedOr r s false after h = h

pub each-other :
    (g : Git) (refs : Refs) (rs : List Ref) (name : Bytes)
    → Fresh name rs
    → (sync_each g refs rs).0 name ≡ refs name
unfolding sync_each
each-other g refs [] name h = refl
each-other g refs (r ∷ rs) name (h, k) =
    let updated = update_ref (g.update_process r) (g.accepts refs r) refs r in
    ap (λ f. f name) (add-refs r updated.1 (sync_each g updated.0 rs))
    ∙ each-other g updated.0 rs name k
    ∙ update-other (g.update_process r) (g.accepts refs r) refs r name h

All-map :
    {A : Type 0} {P Q : A → Type 0} (xs : List A) → ((x : A) → P x → Q x) → All P xs → All Q xs
All-map [] f h = tt
All-map (x ∷ xs) f (h, k) = (f x h, All-map xs f k)

failed-SyncedOr :
    (r : Ref) (b : Bool) (after : Refs × List Bytes) → b ≡ true → SyncedOr (add_failed r b after) r
failed-SyncedOr r true after h = inr (inl refl)
failed-SyncedOr r false after h = ground (arith, h)

head-SyncedOr :
    (g : Git) (refs : Refs) (r : Ref) (rs : List Ref)
    → Fresh (ref_name r) rs
    → SyncedOr (sync_each g refs (r ∷ rs)) r
unfolding sync_each
head-SyncedOr g refs r rs h =
    let updated = update_ref (g.update_process r) (g.accepts refs r) refs r in
    let after = sync_each g updated.0 rs in
    elim (update-done (g.update_process r) (g.accepts refs r) refs r) [
      | inl e ↦ failed-SyncedOr r updated.1 after e
      | inr (e, d) ↦ inl (
          ap (λ f. f (ref_name r)) (add-refs r updated.1 after)
          ∙ each-other g updated.0 rs (ref_name r) h
          ∙ d)
    ]

pub each-SyncedOr :
    (g : Git) (refs : Refs) (rs : List Ref)
    → DistinctRefs rs
    → All (SyncedOr (sync_each g refs rs)) rs
unfolding sync_each
each-SyncedOr g refs [] h = tt
each-SyncedOr g refs (r ∷ rs) (h, k) =
    let updated = update_ref (g.update_process r) (g.accepts refs r) refs r in
    let after = sync_each g updated.0 rs in
    (
      head-SyncedOr g refs r rs h,
      All-map rs (λ s. add-SyncedOr r s updated.1 after) (each-SyncedOr g updated.0 rs k),
    )
