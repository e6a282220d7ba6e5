-- ===== src/Merge/Steps.antt =====
-- The steps and calls of the parts of a merge that end without an error.
use gitopia_storage.Prelude.{
  ◌≡◌, refl, arith, sym, ap, subst, ◌∙◌, ◌⊎◌, inl, inr, Bool, true, false, Option, some, List, [],
  ◌∷◌, ◌++◌, map, ok, err,
}
use gitopia_storage.Text.{Bytes, codes}
use gitopia_storage.Calls.{
  Gives, ◌>>=◌, call_for, on_error-ok, call-cons, call_last, call_for-then, bind-Gives,
}
use gitopia_storage.Push.{Call, Push, insufficient_balance, removed}
use gitopia_storage.Merge.Quarantine.{
  Git, PullRequest, Step, Work, add_alternates, commit, create_quarantine_repo, do_step,
  failed_step, fetch, fill_quarantine, init, make_directory, merge_error, merge_no_commit,
  merge_style, objects_path, perform_merge, push, push_changes, remote_add, remove_directory,
  repo_path, symbolic_ref,
}
use gitopia_storage.Merge.Process.{
  Merge, MergeCall, MergeError, afford, finally, known, of_push, of_work, stored, worked,
}

-- The steps of CreateQuarantineRepo.
abbrev pub quarantine_steps : Bytes → PullRequest → List Step
quarantine_steps dir p =
    make_directory
    ∷ init
    ∷ add_alternates (objects_path (repo_path dir p.base_id))
    ∷ remote_add (codes "origin") (repo_path dir p.base_id)
    ∷ fetch (codes "origin")
        ((p.base_branch ++ codes ":base") ∷ (p.base_branch ++ codes ":original_base") ∷ [])
    ∷ symbolic_ref
    ∷ add_alternates (objects_path (repo_path dir p.head_id))
    ∷ remote_add (codes "head_repo") (repo_path dir p.head_id)
    ∷ fetch (codes "head_repo") ((codes "refs/heads/" ++ p.head_branch ++ codes ":tracking") ∷ [])
    ∷ []

step-cons :
    (g : Git) (s : Step) (f : Unit → Work Unit) (want : List Step)
    → ((rest : List Step) → Gives (f tt) rest tt → rest ≡ want)
    → (steps : List Step) → Gives (do_step g s >>= f) steps tt
    → steps ≡ s ∷ want
unfolding do_step
step-cons g s f want others steps h = call-cons s (failed_step s) (g.works s) f want others steps h

pub step_last :
    (g : Git) (s : Step) (steps : List Step) → Gives (do_step g s) steps tt → steps ≡ s ∷ []
unfolding do_step
step_last g s steps h = call_last s (failed_step s) (g.works s) steps h

pub create_quarantine-steps :
    (g : Git) (dir : Bytes) (p : PullRequest) (steps : List Step)
    → Gives (create_quarantine_repo g dir p) steps tt
    → steps ≡ quarantine_steps dir p
unfolding create_quarantine_repo fill_quarantine
create_quarantine-steps g dir p steps h =
    step-cons g make_directory _ _
      (λ r0 h0.
        step-cons g init _ _
          (λ r1 h1.
            step-cons g (add_alternates (objects_path (repo_path dir p.base_id))) _ _
              (λ r2 h2.
                step-cons g (remote_add (codes "origin") (repo_path dir p.base_id)) _ _
                  (λ r3 h3.
                    step-cons g
                      (fetch (codes "origin") (
                        (p.base_branch ++ codes ":base")
                        ∷ (p.base_branch ++ codes ":original_base")
                        ∷ []))
                      _ _
                      (λ r4 h4.
                        step-cons g symbolic_ref _ _
                          (λ r5 h5.
                            step-cons g (add_alternates (objects_path (repo_path dir p.head_id))) _
                              _
                              (λ r6 h6.
                                step-cons g
                                  (remote_add (codes "head_repo") (repo_path dir p.head_id)) _ _
                                  (λ r7 h7.
                                    step_last g
                                      (fetch (codes "head_repo") (
                                        (codes "refs/heads/" ++ p.head_branch ++ codes ":tracking")
                                        ∷ []))
                                      r7 h7)
                                  r6 h6)
                              r5 h5)
                          r4 h4)
                      r3 h3)
                  r2 h2)
              r1 h1)
          r0 (on_error-ok (remove_directory ∷ []) (fill_quarantine g dir p) h0))
      steps h

pub perform_merge-steps :
    (g : Git) (p : PullRequest) (message : Bytes) (steps : List Step)
    → Gives (perform_merge g merge_style p message) steps tt
    → steps ≡ merge_no_commit ∷ commit message ∷ []
unfolding perform_merge
perform_merge-steps g p message steps h =
    call-cons merge_no_commit (merge_error g.merge_head g.unrelated) (g.works merge_no_commit) _ _
      (λ rest k. step_last g (commit message) rest k) steps h

pub push_changes-steps :
    (g : Git) (p : PullRequest) (steps : List Step)
    → Gives (push_changes g merge_style p) steps tt
    → steps ≡ push (codes "origin") (codes "base:refs/heads/" ++ p.base_branch) ∷ []
unfolding push_changes
push_changes-steps g p steps h =
    step_last g (push (codes "origin") (codes "base:refs/heads/" ++ p.base_branch)) steps h

of_work-Gives :
    (w : Work Unit) {calls : List MergeCall}
    → Gives (of_work w) calls tt
    → (steps : List Step) × Gives w steps tt × (calls ≡ map worked steps)
of_work-Gives (steps, ok tt) h = (steps, refl, sym (ap (λ r. r.0) h))
of_work-Gives (steps, err x) h = ground (arith, ap (λ r. r.1) h)

-- Work whose steps are known.
pub work_lem :
    (w : Work Unit) (want : List Step)
    → ((steps : List Step) → Gives w steps tt → steps ≡ want)
    → (calls : List MergeCall) → Gives (of_work w) calls tt
    → calls ≡ map worked want
work_lem w want h calls k =
    let (steps, g, same) = of_work-Gives w k in same ∙ ap (map worked) (h steps g)

pub of_push-Gives :
    (m : Push Unit) {calls : List MergeCall} {u : Unit}
    → Gives (of_push m) calls u
    → (made : List Call) × Gives m made tt × (calls ≡ map stored made)
of_push-Gives (made, ok tt) h = (made, refl, sym (ap (λ r. r.0) h))
of_push-Gives (made, err x) h = ground (arith, ap (λ r. r.1) h)

pub finally-Gives :
    {A : Type 0} (deferred : List MergeCall) (m : Merge A) {calls : List MergeCall} {a : A}
    → Gives (finally deferred m) calls a
    → (made : List MergeCall) × Gives m made a × (calls ≡ made ++ deferred)
finally-Gives deferred (made, r) h =
    (made, ap (λ z. (made, z)) (ap (λ r. r.1) h), sym (ap (λ r. r.0) h))

pub afford-Gives :
    (path : Bytes) (works : Bool) (m rest : Push Unit) {calls : List Call} {u : Unit}
    → Gives (afford path works m rest) calls u
    → ((first more : List Call) × Gives m first tt × Gives rest more u × (calls ≡ first ++ more))
      ⊎ ((first : List Call) × (m ≡ (first, err insufficient_balance))
          × (calls ≡ first ++ removed path ∷ []))
afford-Gives path works (first, ok tt) rest h =
    inl (first, rest.0, refl, ap (λ r. (rest.0, r)) (ap (λ r. r.1) h), sym (ap (λ r. r.0) h))
afford-Gives path true (first, err insufficient_balance) rest h =
    inr (first, refl, sym (ap (λ r. r.0) h))
afford-Gives path false (first, err insufficient_balance) rest h = ground (arith, ap (λ r. r.1) h)
afford-Gives path works (first, err x) rest h = ground (arith, ap (λ r. r.1) h)

-- To show a fact of the calls of a run, it is enough to show it of the calls behind work whose steps
-- are known, and behind a call for a value.
pub work-then :
    (w : Work Unit) (want : List Step)
    → ((steps : List Step) → Gives w steps tt → steps ≡ want)
    → (f : Unit → Merge Unit) (Q : List MergeCall → Type 0)
    → ((rest : List MergeCall) → Gives (f tt) rest tt → Q (map worked want ++ rest))
    → (calls : List MergeCall) → Gives (of_work w >>= f) calls tt
    → Q calls
work-then w want steps f Q next calls h =
    let (first, rest, _, g, k, same) = bind-Gives (of_work w) f h in
    subst Q (sym (same ∙ ap (λ z. z ++ rest) (work_lem w want steps first g))) (next rest k)

pub value-then :
    {A : Type 0} (c : MergeCall) (e : MergeError) (o : Option A) (f : A → Merge Unit)
    (Q : List MergeCall → Type 0)
    → ((a : A) → o ≡ some a → (rest : List MergeCall) → Gives (f a) rest tt → Q (c ∷ rest))
    → (calls : List MergeCall) → Gives (call_for c e o >>= f) calls tt
    → Q calls
value-then c e o f Q next calls h =
    let (a, rest, known, k, same) = call_for-then c e o f h in
    subst Q (sym same) (next a known rest k)

pub known-then :
    (m : Merge Unit) (want : List MergeCall)
    → ((calls : List MergeCall) → Gives m calls tt → calls ≡ want)
    → (f : Unit → Merge Unit) (Q : List MergeCall → Type 0)
    → ((rest : List MergeCall) → Gives (f tt) rest tt → Q (want ++ rest))
    → (calls : List MergeCall) → Gives (m >>= f) calls tt
    → Q calls
known-then m want made f Q next calls h =
    let (first, rest, _, g, k, same) = bind-Gives m f h in
    subst Q (sym (same ∙ ap (λ z. z ++ rest) (made first g))) (next rest k)
