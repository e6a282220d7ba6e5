-- ===== src/Sync/Reported.antt =====
-- After the references are synchronised, each branch and tag of the chain is there or reported.
use gitopia_storage.Prelude.{
  ℕ, zero, suc, ◌≤◌, ◌≡◌, refl, arith, sym, ap, subst, ◌∙◌, inl, inr, Bool, true, false, List, [],
  ◌∷◌, ◌++◌, All, length, take, Bool-cases,
}
use gitopia_storage.Text.{Bytes}
use gitopia_storage.Sync.{
  Git, Process, Ref, Refs, not_started, killed, waited, add_failed, batch_result, ref_name, set_ref,
  set_refs, sync_each, sync_refs_individually, sync_refs_with_update_ref, update_ref, is_empty,
}
use gitopia_storage.Sync.Single.{
  SyncedOr, Fresh, DistinctRefs, set_ref-other, set_ref-same, each-other, each-SyncedOr,
}

add-append :
    (g : Git) (ts : List Ref) (r : Ref) (b : Bool) (mid : Refs × List Bytes)
    → add_failed r b ((sync_each g mid.0 ts).0, mid.1 ++ (sync_each g mid.0 ts).1) ≡ (
      (sync_each g (add_failed r b mid).0 ts).0,
      (add_failed r b mid).1 ++ (sync_each g (add_failed r b mid).0 ts).1,
    )
add-append g ts r true mid = refl
add-append g ts r false mid = refl

each-append :
    (g : Git) (refs : Refs) (bs ts : List Ref)
    → sync_each g refs (bs ++ ts) ≡ sync_refs_individually g refs bs ts
unfolding sync_each sync_refs_individually
each-append g refs [] ts = refl
each-append g refs (b ∷ bs) ts =
    let updated = update_ref (g.update_process b) (g.accepts refs b) refs b in
    ap (add_failed b updated.1) (each-append g updated.0 bs ts)
    ∙ add-append g ts b updated.1 (sync_each g updated.0 bs)

individually-SyncedOr :
    (g : Git) (refs : Refs) (bs ts : List Ref)
    → DistinctRefs (bs ++ ts)
    → All (SyncedOr (sync_refs_individually g refs bs ts)) (bs ++ ts)
individually-SyncedOr g refs bs ts h =
    subst (λ after. All (SyncedOr after) (bs ++ ts)) (each-append g refs bs ts)
      (each-SyncedOr g refs (bs ++ ts) h)

set-other :
    (refs : Refs) (rs : List Ref) (name : Bytes) → Fresh name rs → set_refs refs rs name ≡ refs name
unfolding set_refs
set-other refs [] name h = refl
set-other refs (r ∷ rs) name (h, k) =
    set-other (set_ref refs r) rs name k ∙ set_ref-other refs r name h

set-SyncedOr :
    (refs : Refs) (rs : List Ref) (failed : List Bytes)
    → DistinctRefs rs
    → All (SyncedOr (set_refs refs rs, failed)) rs
unfolding set_refs
set-SyncedOr refs [] failed h = tt
set-SyncedOr refs (r ∷ rs) failed (h, k) = (
  inl (set-other (set_ref refs r) rs (ref_name r) h ∙ set_ref-same refs r),
  set-SyncedOr (set_ref refs r) rs failed k,
)

take-all : {A : Type 0} (n : ℕ) (xs : List A) → length xs ≤ n → take n xs ≡ xs
take-all zero [] h = refl
take-all zero (x ∷ xs) h = absurd (omega (arith, h))
take-all (suc n) [] h = refl
take-all (suc n) (x ∷ xs) h = ap (◌∷◌ x) (take-all n xs (omega (arith, h)))

batch-SyncedOr :
    (g : Git) (refs : Refs) (bs ts : List Ref) (p : Process) (accepted : Bool)
    → DistinctRefs (bs ++ ts)
    → length (bs ++ ts) ≤ g.written
    → All (SyncedOr (batch_result g refs bs ts p accepted)) (bs ++ ts)
batch-SyncedOr g refs bs ts not_started accepted h w = individually-SyncedOr g refs bs ts h
batch-SyncedOr g refs bs ts (killed applied) accepted h w = individually-SyncedOr g _ bs ts h
batch-SyncedOr g refs bs ts waited true h w =
    subst (λ rs. All (SyncedOr (set_refs refs rs, [])) (bs ++ ts))
      (sym (take-all g.written (bs ++ ts) w)) (set-SyncedOr refs (bs ++ ts) [] h)
batch-SyncedOr g refs bs ts waited false h w = individually-SyncedOr g refs bs ts h

nothing : (after : Refs × List Bytes) (rs : List Ref) → is_empty rs ≡ true → All (SyncedOr after) rs
nothing after [] h = tt
nothing after (r ∷ rs) h = ground (arith, h)

individually-other :
    (g : Git) (refs : Refs) (bs ts : List Ref) (name : Bytes)
    → Fresh name (bs ++ ts)
    → (sync_refs_individually g refs bs ts).0 name ≡ refs name
individually-other g refs bs ts name h =
    ap (λ after. after.0 name) (sym (each-append g refs bs ts))
    ∙ each-other g refs (bs ++ ts) name h

Fresh-take : (name : Bytes) (n : ℕ) (rs : List Ref) → Fresh name rs → Fresh name (take n rs)
Fresh-take name zero rs h = tt
Fresh-take name (suc n) [] h = tt
Fresh-take name (suc n) (r ∷ rs) (h, k) = (h, Fresh-take name n rs k)

batch-other :
    (g : Git) (refs : Refs) (bs ts : List Ref) (p : Process) (accepted : Bool) (name : Bytes)
    → Fresh name (bs ++ ts)
    → (batch_result g refs bs ts p accepted).0 name ≡ refs name
batch-other g refs bs ts not_started accepted name h = individually-other g refs bs ts name h
batch-other g refs bs ts (killed true) accepted name h =
    individually-other g (set_refs refs (bs ++ ts)) bs ts name h ∙ set-other refs (bs ++ ts) name h
batch-other g refs bs ts (killed false) accepted name h = individually-other g refs bs ts name h
batch-other g refs bs ts waited true name h =
    set-other refs (take g.written (bs ++ ts)) name (Fresh-take name g.written (bs ++ ts) h)
batch-other g refs bs ts waited false name h = individually-other g refs bs ts name h

sync-SyncedOr :
    (g : Git) (refs : Refs) (branches tags : List Ref)
    → DistinctRefs (branches ++ tags)
    → length (branches ++ tags) ≤ g.written
    → All (SyncedOr (sync_refs_with_update_ref g refs branches tags)) (branches ++ tags)
unfolding sync_refs_with_update_ref
sync-SyncedOr g refs branches tags h w = elim (Bool-cases (is_empty (branches ++ tags))) [
  | inl e ↦ nothing (sync_refs_with_update_ref g refs branches tags) (branches ++ tags) e
  | inr e ↦ rw (e) (
      batch-SyncedOr g refs branches tags g.batch_process
        (g.accepts_batch refs (take g.written (branches ++ tags))) h w)
]

sync-other :
    (g : Git) (refs : Refs) (branches tags : List Ref) (name : Bytes)
    → Fresh name (branches ++ tags)
    → (sync_refs_with_update_ref g refs branches tags).0 name ≡ refs name
unfolding sync_refs_with_update_ref
sync-other g refs branches tags name h = elim (Bool-cases (is_empty (branches ++ tags))) [
  | inl e ↦ rw (e) refl
  | inr e ↦ rw (e) (
      batch-other g refs branches tags g.batch_process
        (g.accepts_batch refs (take g.written (branches ++ tags))) name h)
]

-- However the processes end and whatever git accepts, each branch and tag of the chain has its
-- commit afterwards or is reported as failed, and no other reference changes. The full names are
-- distinct, and all commands of the batch are written.
pub sync_refs_with_update_ref-SyncedOr :
    (g : Git) (refs : Refs) (branches tags : List Ref) (other : Bytes)
    → DistinctRefs (branches ++ tags)
    → length (branches ++ tags) ≤ g.written
    → Fresh other (branches ++ tags)
    → All (SyncedOr (sync_refs_with_update_ref g refs branches tags)) (branches ++ tags)
      × ((sync_refs_with_update_ref g refs branches tags).0 other ≡ refs other)
sync_refs_with_update_ref-SyncedOr g refs branches tags other h w k =
    (sync-SyncedOr g refs branches tags h w, sync-other g refs branches tags other k)
