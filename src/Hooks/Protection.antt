-- ===== src/Hooks/Protection.antt =====
-- Which pushes the pre-receive hook lets through.
use gitopia_storage.Prelude.{
  ℕ, ◌≡◌, ◌≢◌, ◌↔◌, ◌⊎◌, refl, arith, sym, ap, subst, ◌∙◌, Bool, true, false, not, Option, none,
  some, some-inj, [], ◌∷◌, ◌++◌, Result, ok, err, bind-ok, ◌>>=◌, or_err, All,
}
use gitopia_storage.Text.{Bytes, codes, split}
use gitopia_storage.Text.Equality.{bytes_eq_iff}
use gitopia_storage.Text.Split.{split-append, split_one}
use gitopia_storage.App.{Query, answered, failed, contains}
use gitopia_storage.Hooks.{
  Chain, HookError, Input, bad_repository, no_line, decide, forced, is_force_push,
  is_force_push_allowed_for_branch, input_for, input_of, parse_chunks, parse, parse_line,
  pre_receive, read_line, reject_force, repository_of, three_chunks, trim_space, type_and_name,
  zero_sha,
}

-- A new or a deleted reference, or one whose old commit is the merge base.
abbrev pub FastForward : (Bytes → Bytes → Option Bytes) → Input → Type 0
FastForward merge_base i =
    ((i.old_rev ≡ zero_sha) ⊎ (i.new_rev ≡ zero_sha))
    ⊎ ((out : Bytes) × (merge_base i.old_rev i.new_rev ≡ some out) × (trim_space out ≡ i.old_rev))

abbrev pub Allowed : Query Bool → (Bytes → Bytes → Option Bytes) → Input → Type 0
Allowed (failed text) merge_base i = contains text (codes "branch not found") ≡ true
Allowed (answered true) merge_base i = Unit
Allowed (answered false) merge_base i = FastForward merge_base i

forced_iff :
    (old : Bytes) (o : Option Bytes)
    → (forced old o ≡ ok false) ↔ ((out : Bytes) × (o ≡ some out) × (trim_space out ≡ old))
forced_iff old none = (λ h. ground (arith, h), λ (out, e, k). ground (arith, e))
forced_iff old (some out) = (
  λ h. (out, refl, (bytes_eq_iff (trim_space out) old).0 (ground (arith, h))),
  λ (x, e, k).
      ap (λ b. ok (not b)) ((bytes_eq_iff (trim_space out) old).1 (ap trim_space (some-inj e) ∙ k)),
)

is_force_push-FastForward :
    (merge_base : Bytes → Bytes → Option Bytes) (i : Input)
    → (is_force_push merge_base i ≡ ok false) ↔ FastForward merge_base i
unfolding is_force_push
is_force_push-FastForward merge_base i = ground (
  arith,
  bytes_eq_iff i.old_rev zero_sha,
  bytes_eq_iff i.new_rev zero_sha,
  forced_iff i.old_rev (merge_base i.old_rev i.new_rev),
)

reject_iff : (force : Result HookError Bool) → (reject_force force ≡ ok tt) ↔ (force ≡ ok false)
reject_iff (err e) = ground arith
reject_iff (ok true) = ground arith
reject_iff (ok false) = ground arith

decide-Allowed :
    (q : Query Bool) (merge_base : Bytes → Bytes → Option Bytes) (i : Input)
    → (decide q (is_force_push merge_base i) ≡ ok tt) ↔ Allowed q merge_base i
decide-Allowed (failed text) merge_base i = ground arith
decide-Allowed (answered true) merge_base i = ground arith
decide-Allowed (answered false) merge_base i =
    ground (arith, reject_iff (is_force_push merge_base i), is_force_push-FastForward merge_base i)

-- The hook in terms of what Parse and the lookup of the branch give.
pub pre_receive-Allowed :
    (c : Chain) (merge_base : Bytes → Bytes → Option Bytes) (dir stream : Bytes)
    → (pre_receive c merge_base dir stream ≡ ok tt) ↔ (
        (i : Input) × (parse dir stream ≡ ok i)
        × Allowed (is_force_push_allowed_for_branch c i.repo_id i.ref_name) merge_base i)
unfolding pre_receive
pre_receive-Allowed c merge_base dir stream = (
  λ h.
      let (i, e, k) = bind-ok (parse dir stream) _ h in
      (
        i,
        e,
        (decide-Allowed (is_force_push_allowed_for_branch c i.repo_id i.ref_name) merge_base i).0 k,
      ),
  λ (i, e, k).
      ap
        (λ r. r >>= λ i.
          decide (is_force_push_allowed_for_branch c i.repo_id i.ref_name)
            (is_force_push merge_base i))
        e
      ∙ (decide-Allowed (is_force_push_allowed_for_branch c i.repo_id i.ref_name) merge_base i).1 k,
)

abbrev pub NoneIs : ℕ → Bytes → Type 0
NoneIs c s = All (λ x. x ≢ c) s

-- The line of an update of the branch a/b.
abbrev pub branch_line : Bytes → Bytes → Bytes → Bytes → Bytes
branch_line old new a b =
    old ++ (b' ' ∷ (new ++ (b' ' ∷ (codes "refs/heads/" ++ (a ++ (b'/' ∷ b))))))

ref-chunk :
    (x : Bytes)
    → NoneIs b' ' x
    → split b' ' (codes "refs/heads/" ++ x) ≡ (codes "refs/heads/" ++ x) ∷ []
unfolding split
ref-chunk x h = rw (split_one b' ' x h) refl

pub line-chunks :
    (old new x : Bytes)
    → NoneIs b' ' old
    → NoneIs b' ' new
    → NoneIs b' ' x
    → split b' ' (old ++ (b' ' ∷ (new ++ (b' ' ∷ (codes "refs/heads/" ++ x)))))
      ≡ old ∷ new ∷ (codes "refs/heads/" ++ x) ∷ []
line-chunks old new x h k l =
    let ref : Bytes = codes "refs/heads/" ++ x in
    split-append b' ' old (new ++ (b' ' ∷ ref))
    ∙ ap (λ parts. parts ++ split b' ' (new ++ (b' ' ∷ ref))) (split_one b' ' old h)
    ∙ ap (◌∷◌ old) (split-append b' ' new ref)
    ∙ ap (λ parts. old ∷ (parts ++ split b' ' ref)) (split_one b' ' new k)
    ∙ ap (λ parts. old ∷ new ∷ parts) (ref-chunk x l)

ref-parts :
    (a b : Bytes)
    → NoneIs b'/' a
    → split b'/' (codes "refs/heads/" ++ (a ++ (b'/' ∷ b)))
      ≡ codes "refs" ∷ codes "heads" ∷ a ∷ split b'/' b
unfolding split
ref-parts a b h = rw (split-append b'/' a b, split_one b'/' a h) refl

-- what Parse makes of such a line
slash-parse :
    (dir old new a b : Bytes) (id : ℕ)
    → repository_of dir ≡ some id
    → NoneIs b' ' old
    → NoneIs b' ' new
    → NoneIs b' ' (a ++ (b'/' ∷ b))
    → NoneIs b'/' a
    → (i : Input) × (parse_line dir (branch_line old new a b) ≡ ok i)
      × (i.repo_id ≡ id)
      × (i.ref_name ≡ a)
unfolding parse_line
slash-parse dir old new a b id e h k l m =
    let ref : Bytes = codes "refs/heads/" ++ (a ++ (b'/' ∷ b)) in
    (
      input_of dir (old, new, ref) id (codes "heads", a),
      ap (λ chunks. three_chunks chunks >>= parse_chunks dir)
            (line-chunks old new (a ++ (b'/' ∷ b)) h k l)
          ∙ ap (λ o. or_err bad_repository o >>= input_for dir (old, new, ref)) e
          ∙ ap
              (λ parts. type_and_name parts >>= λ names. ok (input_of dir (old, new, ref) id names))
              (ref-parts a b m),
      refl,
      refl,
    )

-- A push to a branch a/b is let through wherever the chain knows no branch a, whatever the chain says
-- of a/b and whatever the merge base is.
pub slash_branch-unprotected :
    (c : Chain) (merge_base : Bytes → Bytes → Option Bytes) (dir stream old new a b text : Bytes)
    (id : ℕ)
    → read_line stream ≡ some (branch_line old new a b)
    → repository_of dir ≡ some id
    → NoneIs b' ' old
    → NoneIs b' ' new
    → NoneIs b' ' (a ++ (b'/' ∷ b))
    → NoneIs b'/' a
    → is_force_push_allowed_for_branch c id a ≡ failed text
    → contains text (codes "branch not found") ≡ true
    → pre_receive c merge_base dir stream ≡ ok tt
unfolding parse
slash_branch-unprotected c merge_base dir stream old new a b text id line e h k l m q t =
    let (i, parsed, same, name) = slash-parse dir old new a b id e h k l m in
    (pre_receive-Allowed c merge_base dir stream).1 (
      i,
      ap (λ o. or_err no_line o >>= parse_line dir) line ∙ parsed,
      subst (λ z. Allowed z merge_base i)
          (sym (
            ap (λ z. is_force_push_allowed_for_branch c z i.ref_name) same
            ∙ ap (is_force_push_allowed_for_branch c id) name
            ∙ q))
          t,
    )
