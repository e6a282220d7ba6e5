-- ===== src/Hooks/Tests.antt =====
-- Runs of the hooks, and the properties at concrete inputs.
use gitopia_storage.Prelude.{
  ◌≡◌, ◌↔◌, refl, arith, inr, true, false, Option, none, some, ok, err, if◌then◌else◌,
}
use gitopia_storage.Text.{Bytes, codes, bytes_eq}
use gitopia_storage.App.{answered, failed, contains}
use gitopia_storage.Hooks.{
  Chain, index_panics, is_force_push_allowed_for_branch, non_fast_forward, parse, post_receive,
  pre_receive, read_line, trim_space, repository_of,
}
use gitopia_storage.Hooks.Branches.{LetsThrough, pre_receive-LetsThrough}
use gitopia_storage.Hooks.Protection.{slash_branch-unprotected}

-- The branches release/v1 and main do not allow force pushes; there is no other.
abbrev protected : Chain
protected = record {
  connects = none;
  repository = λ id. answered (codes "bob", codes "repo");
  branch = λ owner repo name.
      if bytes_eq name (codes "release/v1")
      then answered false
      else if bytes_eq name (codes "main")
      then answered false
      else failed (codes "branch not found");
}

-- The old commit is no ancestor.
abbrev elsewhere : Bytes → Bytes → Option Bytes
elsewhere old new = some (codes "00\n")

abbrev ahead : Bytes → Bytes → Option Bytes
ahead old new = some (codes "aa\n")

forced_main :
    pre_receive protected elsewhere (codes "/repos/7.git") (codes "aa bb refs/heads/main\n")
    ≡ err non_fast_forward
unfolding pre_receive bytes_eq
forced_main = refl

pre_receive-LetsThrough_example :
    (pre_receive protected ahead (codes "/repos/7.git") (codes "aa bb refs/heads/main\n") ≡ ok tt)
    ↔ LetsThrough (answered false) ahead (codes "aa") (codes "bb")
unfolding read_line repository_of bytes_eq
pre_receive-LetsThrough_example =
    pre_receive-LetsThrough protected ahead (codes "/repos/7.git") (codes "aa bb refs/heads/main\n")
      (codes "aa") (codes "bb") (codes "main") (codes "bob") (codes "repo") 7 refl refl
      ((λ e. ground (arith, e)), ((λ e. ground (arith, e)), tt))
      ((λ e. ground (arith, e)), ((λ e. ground (arith, e)), tt))
      (
        (λ e. ground (arith, e)),
        ((λ e. ground (arith, e)), ((λ e. ground (arith, e)), ((λ e. ground (arith, e)), tt))),
      )
      (
        (λ e. ground (arith, e)),
        ((λ e. ground (arith, e)), ((λ e. ground (arith, e)), ((λ e. ground (arith, e)), tt))),
      )
      refl refl

lets_through : LetsThrough (answered false) ahead (codes "aa") (codes "bb")
unfolding trim_space
lets_through = inr (codes "aa\n", refl, refl)

slash_branch-unprotected_example :
    pre_receive protected elsewhere (codes "/repos/7.git") (codes "aa bb refs/heads/release/v1\n")
    ≡ ok tt
unfolding read_line repository_of is_force_push_allowed_for_branch bytes_eq contains
slash_branch-unprotected_example =
    slash_branch-unprotected protected elsewhere (codes "/repos/7.git")
      (codes "aa bb refs/heads/release/v1\n") (codes "aa") (codes "bb") (codes "release")
      (codes "v1") (codes "error querying repo branch: branch not found") 7 refl refl
      ((λ e. ground (arith, e)), ((λ e. ground (arith, e)), tt))
      ((λ e. ground (arith, e)), ((λ e. ground (arith, e)), tt))
      (
        (λ e. ground (arith, e)),
        (
          (λ e. ground (arith, e)),
          (
            (λ e. ground (arith, e)),
            (
              (λ e. ground (arith, e)),
              (
                (λ e. ground (arith, e)),
                (
                  (λ e. ground (arith, e)),
                  (
                    (λ e. ground (arith, e)),
                    (
                      (λ e. ground (arith, e)),
                      ((λ e. ground (arith, e)), ((λ e. ground (arith, e)), tt)),
                    ),
                  ),
                ),
              ),
            ),
          ),
        ),
      )
      (
        (λ e. ground (arith, e)),
        (
          (λ e. ground (arith, e)),
          (
            (λ e. ground (arith, e)),
            (
              (λ e. ground (arith, e)),
              (
                (λ e. ground (arith, e)),
                ((λ e. ground (arith, e)), ((λ e. ground (arith, e)), tt)),
              ),
            ),
          ),
        ),
      )
      refl refl

-- The second line of the input is not looked at.
second_line :
    pre_receive protected elsewhere
      (codes "/repos/7.git")
      (codes "aa bb refs/heads/new\naa bb refs/heads/main\n")
    ≡ ok tt
unfolding pre_receive bytes_eq
second_line = refl

short_ref : parse (codes "/repos/7.git") (codes "aa bb HEAD\n") ≡ err index_panics
unfolding parse
short_ref = refl

kept :
    post_receive elsewhere
      (λ ref rev. true)
      (codes "/repos/7.git")
      (codes "aa bb refs/heads/main\n")
    ≡ ok (some (codes "refs/dangling/aa", codes "aa"))
unfolding post_receive bytes_eq
kept = refl
