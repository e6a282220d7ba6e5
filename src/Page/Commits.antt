-- ===== src/Page/Commits.antt =====
-- utils/commits.go and `CommitHistory` of utils/git.go: the history of a revision, in pages. What
-- the two git commands (`rev-list --count`, `log`) print and the object store are parameters, and
-- so are the scanner of the lines and the dates of go-git.
pub mod Reading
use mathlib.Core.List.{append_assoc, append-nil}
use gitopia_storage.Prelude.{
  ℕ, ◌+◌, ◌-◌, ◌^◌, ◌%◌, ◌<◌, ◌≡◌, refl, arith, String, Bool, true, false, ◌&&◌, Option, none, some,
  List, [], ◌∷◌, ◌++◌, map, Result, ok, err, or_err, ◌>>=◌, ltb, ◌==◌, if◌then◌else◌, length, take,
  drop, length-drop, zero, suc,
}
use gitopia_storage.Text.{Bytes, codes, cut_at, parse_uint}
use gitopia_storage.Events.Paths.{decimal}
use gitopia_storage.Page.{
  PageRequest, PageResponse, PageError, offset_and_key, grab_failed, result_failed, count_failed,
  panic, uint64_mod, uint64_to_bytes, bytes_to_uint64, bytes, is_set, or_default,
}

pub record Signature : Type 0 where
  pub name : String
  pub email : String
  pub date : String

-- A commit of go-git; `when` is the Unix time of the committer.
pub record CommitObject : Type 0 where
  pub hash : String
  pub author : Signature
  pub committer : Signature
  pub when : ℕ
  pub message : Bytes
  pub tree_hash : String
  pub parent_hashes : List String

pub record Commit : Type 0 where
  pub id : String
  pub title : Bytes
  pub author : Signature
  pub committer : Signature
  pub created_at : ℕ
  pub message : Bytes
  pub tree : String
  pub parent_ids : List String

-- The title and the message: what stands before the first newline, and behind it.
unfoldable pub title_and_message : Bytes → Bytes × Bytes
title_and_message message = elim (cut_at b'\n' message) [
  | none ↦ (message, [])
  | some (title, rest) ↦ (title, rest)
]

unfoldable pub grab_commit : CommitObject → Commit
unfolding title_and_message
grab_commit c =
    let (title, message) = title_and_message c.message in
    record {
      id = c.hash;
      title = title;
      author = c.author;
      committer = c.committer;
      created_at = c.when;
      message = message;
      tree = c.tree_hash;
      parent_ids = c.parent_hashes;
    }

-- What git answers in one repository, of one revision and path: `log` is the output of `git` with
-- the given arguments, `lines` the trimmed lines that the scanner finds in it.
pub record History : Type 0 where
  pub revision : Bytes
  pub path : Bytes
  pub count_commits : Option Bytes
  pub log : List Bytes → Option Bytes
  pub lines : Bytes → List String
  pub get_commit : String → Option CommitObject

-- Go's `int`, of 64 bits with a sign; `negative n` is -n.
pub data GoInt : Type 0 where
  nonneg negative : ℕ → GoInt

-- `int(n)` of a `uint64`.
unfoldable pub to_int : ℕ → GoInt
to_int n = if ltb n (2 ^ 63) then nonneg n else negative (2 ^ 64 - n)

-- `strconv.Itoa`.
unfoldable pub itoa : GoInt → Bytes
itoa (nonneg n) = decimal n
itoa (negative n) = b'-' ∷ decimal n

unfoldable pub log_args : Bytes → Bytes → GoInt → GoInt → List Bytes
unfolding itoa
log_args revision path offset limit =
    codes "log"
    ∷ codes "--pretty=%H"
    ∷ (codes "--max-count=" ++ itoa limit)
    ∷ (codes "--skip=" ++ itoa offset)
    ∷ revision
    ∷ elim path [ [] ↦ [] | c ∷ cs ↦ codes "--" ∷ (c ∷ cs) ∷ [] ]

abbrev pub scanned_lines : (Bytes → List String) → Option Bytes → Option (List String)
scanned_lines lines none = none
scanned_lines lines (some out) = some (lines out)

unfoldable pub commit_history : History → GoInt → GoInt → Option (List String)
commit_history git offset limit =
    scanned_lines git.lines (git.log (log_args git.revision git.path offset limit))

module _ {S : Type 0} (git : History) (on_result : Commit → S → Option S) where
  unfoldable pub show_commits : List String → S → Result PageError S
  show_commits [] s = ok s
  show_commits (hash ∷ hashes) s =
      let rest : S → Result PageError S = λ t. show_commits hashes t in
      do
        commit ← or_err grab_failed (git.get_commit hash)
        t ← or_err result_failed (on_result (grab_commit commit) s)
        rest t

  unfoldable pub history_page : ℕ → ℕ → ℕ → Bool → S → Result PageError (PageResponse × S)
  unfolding show_commits commit_history to_int
  history_page count start limit count_total s = do
    hashes ← or_err grab_failed (commit_history git (to_int start) (to_int limit))
    t ← show_commits hashes s
    let shown = (start + limit) % uint64_mod
    ok (
      record {
        next_key = if ltb shown count then some (uint64_to_bytes shown) else none;
        total = if count_total then count else 0;
      },
      t,
    )

  unfoldable pub paginate_commit_history_response :
      Option PageRequest → ℕ → S → Result PageError (PageResponse × S)
  unfolding history_page
  paginate_commit_history_response page_request default_limit s =
      let r = or_default page_request in
      let limit = if r.limit == 0 then default_limit else r.limit in
      if ltb 0 r.offset && is_set r.key then err offset_and_key else do
        text ← or_err count_failed git.count_commits
        count ← or_err count_failed (parse_uint text)
        if ltb 0 (length (bytes r.key))
            then (do
              start ← or_err panic (bytes_to_uint64 (bytes r.key))
              history_page count start limit r.count_total s)
            else history_page count r.offset limit r.count_total s
