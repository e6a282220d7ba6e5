-- ===== src/Page/Commits/Reading.antt =====
-- utils/commits.go: reading a whole history page by page.
use mathlib.Core.List.{append_assoc, append-nil, map-append}
use gitopia_storage.Prelude.{
  ℕ, ◌+◌, ◌<◌, ◌^◌, lt→ltb, ◌≡◌, refl, arith, String, none, some, List, [], ◌∷◌, ◌++◌, map, Result,
  ok, ◌>>=◌, ltb, if◌then◌else◌, length, take, drop, length-drop, ap, sym, take-append-drop, ◌==◌,
  ◌&&◌, Bool, true, ◌∙◌, false,
}
use gitopia_storage.Text.{Bytes, parse_uint}
use gitopia_storage.Page.{PageResponse, PageError, uint64_to_bytes}
use gitopia_storage.Page.Loops.{
  collect, next_at, bytes_to_uint64-uint64_to_bytes, length-uint64_to_bytes,
}
use gitopia_storage.Page.Walk.{by_key, by_offset, follow, follow_all, drop-drop}
use gitopia_storage.Page.Commits.{
  Commit, CommitObject, History, nonneg, to_int, log_args, scanned_lines, commit_history,
  grab_commit, show_commits, history_page, paginate_commit_history_response,
}

-- What git is relied on for: it counts and lists one fixed list of hashes, of which
-- `--skip` and `--max-count` take a slice, and has their commits.
pub record Serves (git : History) (log : List String) (object : String → CommitObject)
    : Type 0 where
  pub count_text : Bytes
  pub counted : git.count_commits ≡ some count_text
  pub parsed : parse_uint count_text ≡ some (length log)
  pub listed :
      (start limit : ℕ)
      → start < 2 ^ 63
      → limit < 2 ^ 63
      → (out : Bytes) × (git.log (log_args git.revision git.path (nonneg start) (nonneg limit))
          ≡ some out)
        × (git.lines out ≡ take limit (drop start log))
  pub stored : (hash : String) → git.get_commit hash ≡ some (object hash)

next_at_lem :
    {A : Type 0} (log : List A) (shown : ℕ) (xs : List A)
    → drop shown log ≡ xs
    → (if ltb shown (length log) then some (uint64_to_bytes shown) else none) ≡ next_at xs shown
next_at_lem log shown [] e = ground (arith, length-drop shown log, ap length e)
next_at_lem log shown (x ∷ xs) e = ground (arith, length-drop shown log, ap length e)

module _ (git : History) (log : List String) (object : String → CommitObject)
    (serves : Serves git log object) where
  abbrev pub shown_commit : String → Commit
  shown_commit hash = grab_commit (object hash)

  show_commits_lem :
      (hashes : List String) (s : List Commit)
      → show_commits git collect hashes s ≡ ok (s ++ map shown_commit hashes)
  unfolding show_commits collect
  show_commits_lem [] s = rw append-nil
  show_commits_lem (hash ∷ hashes) s = rw (
    serves.stored hash,
    show_commits_lem hashes (s ++ shown_commit hash ∷ []),
    append_assoc s (shown_commit hash ∷ []) (map shown_commit hashes),
  )

  listed-commit_history :
      (start limit : ℕ)
      → start + limit < 2 ^ 63
      → commit_history git (to_int start) (to_int limit) ≡ some (take limit (drop start log))
  unfolding commit_history to_int
  listed-commit_history start limit fits =
      let (out, e, l) = serves.listed start limit (omega arith) (omega arith) in
      rw (lt→ltb start (2 ^ 63) (omega arith), lt→ltb limit (2 ^ 63) (omega arith))
        (ap (scanned_lines git.lines) e ∙ ap some l)

  history_page_lem :
      (start limit : ℕ)
      → start + limit < 2 ^ 63
      → history_page git collect (length log) start limit false []
        ≡ ok (
          record { next_key = next_at (drop (start + limit) log) (start + limit); total = 0 },
          map shown_commit (take limit (drop start log)),
        )
  unfolding history_page
  history_page_lem start limit fits =
      rw (listed-commit_history start limit fits, show_commits_lem (take limit (drop start log)) [])
        (ground (arith, next_at_lem log (start + limit) (drop (start + limit) log) refl))

  limit_given : (limit : ℕ) → 0 < limit → (limit == 0) ≡ false
  limit_given limit h = ground arith

  and_false : (b : Bool) → (b && false) ≡ false
  and_false true = refl
  and_false false = refl

  module _ (default_limit limit : ℕ) (pos : 0 < limit) (fits : length log + limit < 2 ^ 63) where
    abbrev pub commits_page : List ℕ → Result PageError (PageResponse × List Commit)
    commits_page key =
        paginate_commit_history_response git collect (by_key limit key) default_limit []

    turns :
        (start : ℕ)
        → start < length log
        → commits_page (uint64_to_bytes start)
          ≡ ok (
            record { next_key = next_at (drop limit (drop start log)) (start + limit); total = 0 },
            map shown_commit (take limit (drop start log)),
          )
    unfolding paginate_commit_history_response
    turns start h =
        rw
          (
            serves.counted,
            serves.parsed,
            length-uint64_to_bytes start,
            bytes_to_uint64-uint64_to_bytes start (omega arith),
            limit_given limit pos,
            history_page_lem start limit (omega arith),
            drop-drop limit start log,
          )
          refl

    first_page :
        (offset : ℕ)
        → offset < length log
        → paginate_commit_history_response git collect (by_offset limit offset) default_limit []
          ≡ ok (
            record { next_key = next_at (drop (offset + limit) log) (offset + limit); total = 0 },
            map shown_commit (take limit (drop offset log)),
          )
    unfolding paginate_commit_history_response
    first_page offset h =
        rw
          (
            and_false (ltb 0 offset),
            serves.counted,
            serves.parsed,
            limit_given limit pos,
            history_page_lem offset limit (omega arith),
          )
          refl

    -- Reading by offset first and by `next_key` from then on shows the whole history from the
    -- offset on, once and in order. Git serves one fixed list, the limit is positive, and the length
    -- of the list and the limit together are below 2^63, so that `int` keeps what it converts.
    pub read_history_complete :
        (offset : ℕ)
        → offset < length log
        → (do
          (res, out) ←
              paginate_commit_history_response git collect (by_offset limit offset) default_limit []
          rest ← follow commits_page (length log) res.next_key
          ok (out ++ rest))
          ≡ ok (map shown_commit (drop offset log))
    read_history_complete offset h =
        rw
          (
            first_page offset h,
            follow_all shown_commit log limit pos commits_page turns (offset + limit),
          )
          (ap ok (
            ap (λ xs. map shown_commit (take limit (drop offset log)) ++ map shown_commit xs)
              (sym (drop-drop limit offset log))
            ∙ sym (map-append _ _ _)
            ∙ ap (map shown_commit) (take-append-drop limit (drop offset log))))
