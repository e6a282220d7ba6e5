-- ===== src/Hooks/Branches.antt =====
-- Which pushes to a branch without a slash the pre-receive hook lets through.
use gitopia_storage.Prelude.{
  ℕ, ◌≡◌, ◌↔◌, ◌⊎◌, refl, sym, ap, subst, ◌∙◌, Bool, true, false, Option, none, some, [], ◌∷◌, ◌++◌,
  ok, ◌>>=◌, or_err, ok-inj,
}
use gitopia_storage.Text.{Bytes, codes, split}
use gitopia_storage.Text.Split.{split_one}
use gitopia_storage.App.{Query, answered, failed, contains}
use gitopia_storage.Hooks.{
  Chain, Input, bad_repository, no_line, input_for, input_of, is_force_push_allowed_for_branch,
  connected, repository_answer, branch_answer, parse, parse_chunks, parse_line, pre_receive,
  read_line, repository_of, three_chunks, trim_space, type_and_name, zero_sha,
}
use gitopia_storage.Hooks.Protection.{Allowed, NoneIs, line-chunks, pre_receive-Allowed}

-- The line of an update of a branch.
abbrev pub update_line : Bytes → Bytes → Bytes → Bytes
update_line old new name = old ++ (b' ' ∷ (new ++ (b' ' ∷ (codes "refs/heads/" ++ name))))

-- The chain's answer for the branch lets the update through: there is no such branch, force pushes are
-- allowed, or the update creates, deletes or fast-forwards it.
abbrev pub LetsThrough : Query Bool → (Bytes → Bytes → Option Bytes) → Bytes → Bytes → Type 0
LetsThrough (failed text) merge_base old new =
    contains (codes "error querying repo branch: " ++ text) (codes "branch not found") ≡ true
LetsThrough (answered true) merge_base old new = Unit
LetsThrough (answered false) merge_base old new =
    ((old ≡ zero_sha) ⊎ (new ≡ zero_sha))
    ⊎ ((out : Bytes) × (merge_base old new ≡ some out) × (trim_space out ≡ old))

name-parts :
    (name : Bytes)
    → NoneIs b'/' name
    → split b'/' (codes "refs/heads/" ++ name) ≡ codes "refs" ∷ codes "heads" ∷ name ∷ []
unfolding split
name-parts name h = rw (split_one b'/' name h) refl

-- what Parse makes of such a line
update_parse :
    (dir stream old new name : Bytes) (id : ℕ)
    → read_line stream ≡ some (update_line old new name)
    → repository_of dir ≡ some id
    → NoneIs b' ' old
    → NoneIs b' ' new
    → NoneIs b' ' name
    → NoneIs b'/' name
    → parse dir stream
      ≡ ok (input_of dir (old, new, codes "refs/heads/" ++ name) id (codes "heads", name))
unfolding parse parse_line
update_parse dir stream old new name id line e h k l m =
    let ref : Bytes = codes "refs/heads/" ++ name in
    ap (λ o. or_err no_line o >>= parse_line dir) line
    ∙ ap (λ chunks. three_chunks chunks >>= parse_chunks dir) (line-chunks old new name h k l)
    ∙ ap (λ o. or_err bad_repository o >>= input_for dir (old, new, ref)) e
    ∙ ap (λ parts. type_and_name parts >>= λ names. ok (input_of dir (old, new, ref) id names))
        (name-parts name m)

asked-branch :
    (c : Chain) (id : ℕ) (name owner repo : Bytes)
    → c.connects ≡ none
    → c.repository id ≡ answered (owner, repo)
    → is_force_push_allowed_for_branch c id name ≡ branch_answer (c.branch owner repo name)
unfolding is_force_push_allowed_for_branch
asked-branch c id name owner repo on found =
    ap (connected c id name) on ∙ ap (repository_answer c name) found

-- The two ways to say it.
answer_iff :
    (q : Query Bool) (merge_base : Bytes → Bytes → Option Bytes) (i : Input)
    → Allowed (branch_answer q) merge_base i ≡ LetsThrough q merge_base i.old_rev i.new_rev
answer_iff (answered true) merge_base i = refl
answer_iff (answered false) merge_base i = refl
answer_iff (failed text) merge_base i = refl

-- A push whose first line updates a branch, with no slash in its name, of a repository that the chain
-- can be asked for: the hook lets it through exactly where the chain does not know the branch of that name, allows
-- force pushes to it, or the line creates, deletes or fast-forwards the branch, as git's merge base says.
pub pre_receive-LetsThrough :
    (c : Chain) (merge_base : Bytes → Bytes → Option Bytes)
    (dir stream old new name owner repo : Bytes) (id : ℕ)
    → read_line stream ≡ some (update_line old new name)
    → repository_of dir ≡ some id
    → NoneIs b' ' old
    → NoneIs b' ' new
    → NoneIs b' ' name
    → NoneIs b'/' name
    → c.connects ≡ none
    → c.repository id ≡ answered (owner, repo)
    → (pre_receive c merge_base dir stream ≡ ok tt)
      ↔ LetsThrough (c.branch owner repo name) merge_base old new
pre_receive-LetsThrough c merge_base dir stream old new name owner repo id line e h k l m on found =
    let parsed = update_parse dir stream old new name id line e h k l m in
    let input : Input =
      input_of dir (old, new, codes "refs/heads/" ++ name) id (codes "heads", name) in
    let says : Allowed (is_force_push_allowed_for_branch c id name) merge_base input
        ≡ LetsThrough (c.branch owner repo name) merge_base old new =
      ap (λ q. Allowed q merge_base input) (asked-branch c id name owner repo on found)
      ∙ answer_iff (c.branch owner repo name) merge_base input in
    (
      λ accepted.
          let (i, parse_e, allowed) = (pre_receive-Allowed c merge_base dir stream).0 accepted in
          subst (λ z. z) says
            (subst
              (λ (z : Input).
                Allowed (is_force_push_allowed_for_branch c z.repo_id z.ref_name) merge_base z)
              (ok-inj (sym parse_e ∙ parsed)) allowed),
      λ lets.
          (pre_receive-Allowed c merge_base dir stream).1
            (input, parsed, subst (λ z. z) (sym says) lets),
    )
