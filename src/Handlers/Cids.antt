-- ===== src/Handlers/Cids.antt =====
-- What the handlers of deleted storage objects and of timed-out proposals unpin.
use gitopia_storage.Prelude.{
  ℕ, zero, suc, ◌≡◌, refl, arith, sym, subst, some-inj, ◌∙◌, ◌⊎◌, inl, inr, Bool, true, false,
  Option, none, some, List, [], ◌∷◌, All, Bool-cases, if◌then◌else◌,
}
use gitopia_storage.Text.{Bytes, bytes_eq}
use gitopia_storage.Text.Equality.{bytes_eq_iff}
use gitopia_storage.Handlers.{
  Call, CidsEvent, Env, HandlerError, Run, check_provider, counted, delete_cids,
  process_delete_storage_object, process_proposal_timeout, proposed_delete, polled_delete,
  timeout_cids, unpin_counted, unpinned,
}

abbrev pub Among : {A : Type 0} → A → List A → Type 0
Among a [] = ⊥
Among a (x ∷ xs) = (x ≡ a) ⊎ Among a xs

-- A call is about a cid of the event; content is unpinned where the chain counts no reference to it.
abbrev pub Justified : Env → List Bytes → Call → Type 0
Justified env cids (counted cid) = Among cid cids
Justified env cids (unpinned cid) = Among cid cids × (env.ref_count cid ≡ some 0)
Justified env cids (proposed_delete creator id) = ⊥
Justified env cids (polled_delete creator id) = ⊥

-- A cid that has to go is unpinned.
abbrev pub Unpinned : Env → List Call → Bytes → Type 0
Unpinned env calls [] = Unit
Unpinned env calls (c ∷ cid) = env.ref_count (c ∷ cid) ≡ some 0 → Among (unpinned (c ∷ cid)) calls

widen :
    (env : Env) (cid : Bytes) (cids : List Bytes) (calls : List Call)
    → All (Justified env cids) calls
    → All (Justified env (cid ∷ cids)) calls
widen env cid cids [] h = tt
widen env cid cids (counted x ∷ calls) (h, k) = (inr h, widen env cid cids calls k)
widen env cid cids (unpinned x ∷ calls) (h, k) = ((inr h.0, h.1), widen env cid cids calls k)
widen env cid cids (proposed_delete creator id ∷ calls) (h, k) = (h, widen env cid cids calls k)
widen env cid cids (polled_delete creator id ∷ calls) (h, k) = (h, widen env cid cids calls k)

step-Justified :
    (env : Env) (stop works : Bool) (cid : Bytes) (n : Option ℕ) (cids : List Bytes) (rest : Run)
    → env.ref_count cid ≡ n
    → All (Justified env cids) rest.0
    → All (Justified env (cid ∷ cids)) (unpin_counted stop works cid n rest).0
step-Justified env stop works cid none cids rest e h = (inl refl, tt)
step-Justified env stop works cid (some (suc n)) cids rest e h =
    (inl refl, widen env cid cids rest.0 h)
step-Justified env stop true cid (some zero) cids rest e h =
    (inl refl, ((inl refl, e), widen env cid cids rest.0 h))
step-Justified env true false cid (some zero) cids rest e h = (inl refl, ((inl refl, e), tt))
step-Justified env false false cid (some zero) cids rest e h =
    (inl refl, ((inl refl, e), widen env cid cids rest.0 h))

delete-Justified :
    (env : Env) (cids : List Bytes) → All (Justified env cids) (delete_cids env cids).0
unfolding delete_cids
delete-Justified env [] = tt
delete-Justified env ([] ∷ cids) =
    widen env [] cids (delete_cids env cids).0 (delete-Justified env cids)
delete-Justified env ((c ∷ cid) ∷ cids) =
    step-Justified env true (env.unpins (c ∷ cid)) (c ∷ cid) (env.ref_count (c ∷ cid)) cids
      (delete_cids env cids) refl (delete-Justified env cids)

timeout-Justified :
    (env : Env) (cids : List Bytes) → All (Justified env cids) (timeout_cids env cids).0
unfolding timeout_cids
timeout-Justified env [] = tt
timeout-Justified env (cid ∷ cids) =
    step-Justified env false (env.unpins cid) cid (env.ref_count cid) cids (timeout_cids env cids)
      refl (timeout-Justified env cids)

own_or_nothing :
    (env : Env) (provider : Bytes) (run : Run)
    → ((if check_provider env provider then run else ([], none)) ≡ ([], none))
      ⊎ (provider ≡ env.address)
unfolding check_provider
own_or_nothing env provider run = elim (Bool-cases (bytes_eq provider env.address)) [
  | inl e ↦ inr ((bytes_eq_iff provider env.address).0 e)
  | inr e ↦ inl (rw (e) refl)
]

if-Justified :
    (env : Env) (cids : List Bytes) (b : Bool) (run : Run)
    → All (Justified env cids) run.0
    → All (Justified env cids) (if b then run else ([], none)).0
if-Justified env cids true run h = h
if-Justified env cids false run h = tt

-- The handlers of deleted storage objects and of timed-out proposals do nothing for an event of
-- another provider. They ask for reference counts of cids of the event only, and unpin only cids of
-- the event whose count is zero.
pub process_cids-Justified :
    (env : Env) (e : CidsEvent)
    → All (Justified env e.cids) (process_delete_storage_object env e).0
      × All (Justified env e.cids) (process_proposal_timeout env e).0
      × ((process_delete_storage_object env e ≡ ([], none)) ⊎ (e.provider ≡ env.address))
      × ((process_proposal_timeout env e ≡ ([], none)) ⊎ (e.provider ≡ env.address))
unfolding process_delete_storage_object process_proposal_timeout
process_cids-Justified env e = (
  if-Justified env e.cids (check_provider env e.provider) (delete_cids env e.cids)
      (delete-Justified env e.cids),
  if-Justified env e.cids (check_provider env e.provider) (timeout_cids env e.cids)
      (timeout-Justified env e.cids),
  own_or_nothing env e.provider (delete_cids env e.cids),
  own_or_nothing env e.provider (timeout_cids env e.cids),
)

-- A step without an error passes the rest's calls on, and unpins its own cid if that has to go.
step-Unpinned :
    (env : Env) (stop works : Bool) (cid : Bytes) (n : Option ℕ) (rest : Run)
    → env.ref_count cid ≡ n
    → (unpin_counted stop works cid n rest).1 ≡ none
    → (rest.1 ≡ none)
      × Unpinned env (unpin_counted stop works cid n rest).0 cid
      × ((call : Call) → Among call rest.0 → Among call (unpin_counted stop works cid n rest).0)
step-Unpinned env stop works cid none rest e h = ground (arith, h)
step-Unpinned env stop works [] (some (suc n)) rest e h = (h, tt, λ call k. inr k)
step-Unpinned env stop works (c ∷ cid) (some (suc n)) rest e h =
    (h, (λ z. ground (arith, some-inj (sym e ∙ z))), λ call k. inr k)
step-Unpinned env stop true [] (some zero) rest e h = (h, tt, λ call k. inr (inr k))
step-Unpinned env stop true (c ∷ cid) (some zero) rest e h =
    (h, (λ z. inr (inl refl)), λ call k. inr (inr k))
step-Unpinned env true false cid (some zero) rest e h = ground (arith, h)
step-Unpinned env false false [] (some zero) rest e h = (h, tt, λ call k. inr (inr k))
step-Unpinned env false false (c ∷ cid) (some zero) rest e h =
    (h, (λ z. inr (inl refl)), λ call k. inr (inr k))

more-Unpinned :
    (env : Env) (calls more : List Call)
    → ((call : Call) → Among call calls → Among call more)
    → (cids : List Bytes) → All (Unpinned env calls) cids
    → All (Unpinned env more) cids
more-Unpinned env calls more f [] h = tt
more-Unpinned env calls more f ([] ∷ cids) (h, k) = (tt, more-Unpinned env calls more f cids k)
more-Unpinned env calls more f ((c ∷ cid) ∷ cids) (h, k) =
    ((λ z. f (unpinned (c ∷ cid)) (h z)), more-Unpinned env calls more f cids k)

delete-Unpinned :
    (env : Env) (cids : List Bytes)
    → (delete_cids env cids).1 ≡ none
    → All (Unpinned env (delete_cids env cids).0) cids
unfolding delete_cids
delete-Unpinned env [] h = tt
delete-Unpinned env ([] ∷ cids) h = (tt, delete-Unpinned env cids h)
delete-Unpinned env ((c ∷ cid) ∷ cids) h =
    let rest = delete_cids env cids in
    let (fine, own, keep) =
      step-Unpinned env true (env.unpins (c ∷ cid)) (c ∷ cid) (env.ref_count (c ∷ cid)) rest refl
        h in
    (own, more-Unpinned env rest.0 _ keep cids (delete-Unpinned env cids fine))

timeout-Unpinned :
    (env : Env) (cids : List Bytes)
    → (timeout_cids env cids).1 ≡ none
    → All (Unpinned env (timeout_cids env cids).0) cids
unfolding timeout_cids
timeout-Unpinned env [] h = tt
timeout-Unpinned env (cid ∷ cids) h =
    let rest = timeout_cids env cids in
    let (fine, own, keep) =
      step-Unpinned env false (env.unpins cid) cid (env.ref_count cid) rest refl h in
    (own, more-Unpinned env rest.0 _ keep cids (timeout-Unpinned env cids fine))

own_check :
    (env : Env) (provider : Bytes) → provider ≡ env.address → check_provider env provider ≡ true
unfolding check_provider
own_check env provider h = (bytes_eq_iff provider env.address).1 h

-- An unpin of a cid that has to go works.
abbrev pub Worked : Env → Bytes → Type 0
Worked env [] = Unit
Worked env (c ∷ cid) = env.ref_count (c ∷ cid) ≡ some 0 → env.unpins (c ∷ cid) ≡ true

step-Worked :
    (env : Env) (works : Bool) (c : ℕ) (cid : Bytes) (n : Option ℕ) (rest : Run)
    → env.ref_count (c ∷ cid) ≡ n
    → env.unpins (c ∷ cid) ≡ works
    → (unpin_counted true works (c ∷ cid) n rest).1 ≡ none
    → Worked env (c ∷ cid)
step-Worked env works c cid none rest e k h = ground (arith, h)
step-Worked env works c cid (some (suc n)) rest e k h = λ z. ground (arith, some-inj (sym e ∙ z))
step-Worked env true c cid (some zero) rest e k h = λ z. k
step-Worked env false c cid (some zero) rest e k h = ground (arith, h)

delete-Worked :
    (env : Env) (cids : List Bytes) → (delete_cids env cids).1 ≡ none → All (Worked env) cids
unfolding delete_cids
delete-Worked env [] h = tt
delete-Worked env ([] ∷ cids) h = (tt, delete-Worked env cids h)
delete-Worked env ((c ∷ cid) ∷ cids) h =
    let rest = delete_cids env cids in
    let (fine, _, _) =
      step-Unpinned env true (env.unpins (c ∷ cid)) (c ∷ cid) (env.ref_count (c ∷ cid)) rest refl
        h in
    (
      step-Worked env (env.unpins (c ∷ cid)) c cid (env.ref_count (c ∷ cid)) rest refl refl h,
      delete-Worked env cids fine,
    )

-- The run ends with an error, or what follows holds of it.
abbrev pub ErrorOr : Run → Type 0 → Type 0
ErrorOr run after = ((x : HandlerError) × (run.1 ≡ some x)) ⊎ after

error_or : (run : Run) (after : Type 0) → (run.1 ≡ none → after) → ErrorOr run after
error_or (calls, none) after h = inr (h refl)
error_or (calls, some x) after h = inl (x, refl)

own_run : (b : Bool) (run : Run) → b ≡ true → run ≡ (if b then run else ([], none))
own_run true run h = refl
own_run false run h = ground (arith, h)

-- For an event of this provider, the handler of deleted objects returns an error, or has unpinned,
-- without an error, every cid of the event that is not empty and has no reference left. The handler
-- of timed-out proposals returns an error, or has asked to unpin every such cid, where an unpin that
-- fails is passed over.
pub process_cids-Unpinned :
    (env : Env) (e : CidsEvent)
    → e.provider ≡ env.address
    → ErrorOr (process_delete_storage_object env e) (
        All (Unpinned env (process_delete_storage_object env e).0) e.cids × All (Worked env) e.cids)
      × ErrorOr
          (process_proposal_timeout env e)
          (All (Unpinned env (process_proposal_timeout env e).0) e.cids)
unfolding process_delete_storage_object process_proposal_timeout
process_cids-Unpinned env e own =
    let mine : check_provider env e.provider ≡ true = own_check env e.provider own in
    (
      subst (λ run. ErrorOr run (All (Unpinned env run.0) e.cids × All (Worked env) e.cids))
          (own_run (check_provider env e.provider) (delete_cids env e.cids) mine)
          (error_or (delete_cids env e.cids) _
            (λ h. (delete-Unpinned env e.cids h, delete-Worked env e.cids h))),
      subst (λ run. ErrorOr run (All (Unpinned env run.0) e.cids))
          (own_run (check_provider env e.provider) (timeout_cids env e.cids) mine)
          (error_or (timeout_cids env e.cids) _ (timeout-Unpinned env e.cids)),
    )
