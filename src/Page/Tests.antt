-- ===== src/Page/Tests.antt =====
-- The paging theorems applied to a small tree and a small history.
use gitopia_storage.Prelude.{
  ◌≡◌, ◌≢◌, ℕ, ◌<◌, ◌^◌, ◌∙◌, All, Option, none, refl, ap, arith, String, true, some, List, [], ◌∷◌,
  ◌++◌, map, length, take, drop, ok, ◌>>=◌,
}
use gitopia_storage.Text.{Bytes, codes, split, parse_uint}
use gitopia_storage.Text.Split.{split-append, split_one}
use gitopia_storage.Text.Decimal.{Digit, decimal-Digit, parse_uint-decimal}
use gitopia_storage.Events.Paths.{decimal}
use gitopia_storage.Page.{uint64_to_bytes}
use gitopia_storage.Page.Loops.{collect}
use gitopia_storage.Page.Walk.{follow, read_by_key_or_offset, read_from_offset, page, by_offset}
use gitopia_storage.Page.Tree.{TreeEntry, Content, tree_content, grab_tree_content}
use gitopia_storage.Page.Commits.{
  Signature, CommitObject, History, log_args, paginate_commit_history_response,
}
use gitopia_storage.Page.Commits.Reading.{Serves, shown_commit, commits_page, read_history_complete}

abbrev entry : String → TreeEntry
entry name = record { name = name; hash = "00"; is_file = true }

abbrev entries : List TreeEntry
entries = entry "a" ∷ entry "b" ∷ entry "c" ∷ entry "d" ∷ []

abbrev shown : TreeEntry → Content
shown = tree_content "src"

grabs : (e : TreeEntry) → grab_tree_content "src" e ≡ ok (shown e)
unfolding grab_tree_content
grabs e = refl

read_by_key_or_offset_example :
    (follow
        (page (grab_tree_content "src") shown grabs entries 1 100 (omega arith) (ground arith))
        4
        (some (uint64_to_bytes 1))
      ≡ ok (map shown (drop 1 entries)))
    × ((before after : List TreeEntry) × (skipped : TreeEntry) × (drop 1 entries
          ≡ before ++ skipped ∷ after)
        × (length before ≡ 1)
        × (read_from_offset
              (grab_tree_content "src")
              shown
              grabs
              entries
              1
              100
              (omega arith)
              (ground arith)
              1
            ≡ ok (map shown (before ++ after))))
read_by_key_or_offset_example =
    read_by_key_or_offset (grab_tree_content "src") shown grabs entries 1 100 (omega arith)
      (ground arith) 1 (ground arith) (ground arith)

abbrev someone : Signature
someone = record { name = "A"; email = "a@b.c"; date = "today" }

abbrev commit : String → CommitObject
commit hash = record {
  hash = hash;
  author = someone;
  committer = someone;
  when = 17;
  message = codes "title";
  tree_hash = "00";
  parent_hashes = [];
}

abbrev hashes : List String
hashes = "c3" ∷ "c2" ∷ "c1" ∷ []

abbrev joined : List Bytes → Bytes
joined [] = []
joined (most ∷ []) = []
joined (most ∷ skip ∷ rest) = drop 12 most ++ b'\n' ∷ drop 7 skip

-- The output of this git repeats what it was asked for: the limit and, behind a newline, the offset.
abbrev slice : List Bytes → Bytes
slice args = joined (drop 2 args)

abbrev or_zero : Option ℕ → ℕ
or_zero none = 0
or_zero (some n) = n

abbrev number : Bytes → ℕ
number text = or_zero (parse_uint text)

abbrev listed : List Bytes → List String
listed [] = []
listed (limit ∷ []) = []
listed (limit ∷ offset ∷ rest) = take (number limit) (drop (number offset) hashes)

abbrev listing : Bytes → List String
listing out = listed (split b'\n' out)

abbrev git : History
git = record {
  count_commits = some (codes "3");
  revision = codes "main";
  path = [];
  log = λ args. some (slice args);
  lines = λ out. listing out;
  get_commit = λ hash. some (commit hash);
}

counts : parse_uint (codes "3") ≡ some (length hashes)
unfolding parse_uint
counts = refl

unbroken : (s : Bytes) → All Digit s → All (λ c. c ≢ b'\n') s
unbroken [] h = tt
unbroken (c ∷ s) ((low, high), t) = (ground (arith, low), unbroken s t)

asked :
    (start limit : ℕ)
    → split b'\n' (decimal limit ++ b'\n' ∷ decimal start) ≡ decimal limit ∷ decimal start ∷ []
asked start limit =
    split-append b'\n' (decimal limit) (decimal start)
    ∙ rw
        (
          split_one b'\n' (decimal limit) (unbroken (decimal limit) (decimal-Digit limit)),
          split_one b'\n' (decimal start) (unbroken (decimal start) (decimal-Digit start)),
        )
        refl

sliced :
    (start limit : ℕ)
    → start < 2 ^ 63
    → limit < 2 ^ 63
    → listing (decimal limit ++ b'\n' ∷ decimal start) ≡ take limit (drop start hashes)
sliced start limit h k =
    ap listed (asked start limit)
    ∙ ap (λ r. take (or_zero r) (drop (number (decimal start)) hashes))
        (parse_uint-decimal limit (omega arith))
    ∙ ap (λ r. take limit (drop (or_zero r) hashes)) (parse_uint-decimal start (omega arith))

serves : Serves git hashes commit
unfolding log_args
serves = record {
  count_text = codes "3";
  counted = refl;
  parsed = counts;
  listed =
      λ start limit h k. (decimal limit ++ b'\n' ∷ decimal start, refl, sliced start limit h k);
  stored = λ hash. refl;
}

read_history_example :
    (do
      (res, out) ← paginate_commit_history_response git collect (by_offset 2 0) 100 []
      rest ←
          follow
            (commits_page git hashes commit serves 100 2 (omega arith) (ground arith))
            3
            res.next_key
      ok (out ++ rest))
    ≡ ok (map (shown_commit git hashes commit serves) hashes)
read_history_example =
    read_history_complete git hashes commit serves 100 2 (omega arith) (ground arith) 0
      (ground arith)
