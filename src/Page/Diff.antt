-- ===== src/Page/Diff.antt =====
-- utils/diff.go: the diff of two commits, in pages. What go-git computes of a change (its patch,
-- its two files, whether they are binary) is in the record of the change; a file that is not there
-- is a nil pointer.
use Prim.Native.String.{◌++◌ as concat}
use gitopia_storage.Prelude.{
  ℕ, ◌+◌, String, Bool, ◌&&◌, Option, none, some, List, [], ◌∷◌, Result, ok, err, or_err, ◌>>=◌,
  ◌==◌, str_eq, if◌then◌else◌,
}
use gitopia_storage.Page.{PageRequest, PageResponse, PageError, panic, grab_failed, paginate}

pub data DiffType : Type 0 where
  modify add delete rename binary empty : DiffType

pub record File : Type 0 where
  pub name : String
  pub is_binary : Bool
  pub size : ℕ

pub record FileStat : Type 0 where
  pub addition : ℕ
  pub deletion : ℕ

pub record Patch : Type 0 where
  pub stats : List FileStat
  pub text : String

pub record Change : Type 0 where
  pub patch : Option Patch
  pub from : Option File
  pub to : Option File
  pub from_name : String
  pub to_name : String

pub record Diff : Type 0 where
  pub file_name : String
  pub addition : ℕ
  pub deletion : ℕ
  pub patch : String
  pub types : List DiffType
  pub file_size : ℕ

unfoldable pub additions : List FileStat → ℕ
additions [] = 0
additions (l ∷ stats) = l.addition + additions stats

unfoldable pub deletions : List FileStat → ℕ
deletions [] = 0
deletions (l ∷ stats) = l.deletion + deletions stats

-- The types behind the first: binary, or empty where no line changed, or else `other`.
unfoldable pub detail : Bool → Bool → List DiffType → List DiffType
detail is_binary unchanged other =
    if is_binary then binary ∷ [] else if unchanged then empty ∷ [] else other

-- The name, the types and the size of the file. Where both files are nil, `to.IsBinary()` faults.
unfoldable pub describe :
    Change → Option File → Option File → Bool → Result PageError (String × List DiffType × ℕ)
unfolding detail
describe c none none unchanged = err panic
describe c none (some to) unchanged =
    ok (c.to_name, add ∷ detail to.is_binary unchanged [], to.size)
describe c (some from) none unchanged =
    ok (c.from_name, delete ∷ detail from.is_binary unchanged [], from.size)
describe c (some from) (some to) unchanged =
    if str_eq from.name to.name
    then ok (c.from_name, modify ∷ detail from.is_binary unchanged [], to.size)
    else ok (
      concat c.from_name (concat " -> " c.to_name),
      rename ∷ detail from.is_binary unchanged (modify ∷ []),
      to.size,
    )

unfoldable pub grab_diff : Change → Result PageError Diff
unfolding describe additions deletions
grab_diff c = do
  patch ← or_err grab_failed c.patch
  let addition = additions patch.stats
  let deletion = deletions patch.stats
  (name, types, size) ← describe c c.from c.to (addition == 0 && deletion == 0)
  ok (record {
    file_name = name;
    addition = addition;
    deletion = deletion;
    patch = patch.text;
    types = types;
    file_size = size;
  })

unfoldable pub paginate_diff_response :
    {S : Type 0}
    → List Change
    → Option PageRequest
    → ℕ
    → (Diff → S → Option S)
    → S
    → Result PageError (PageResponse × S)
unfolding paginate
paginate_diff_response changes page_request default_limit on_result s =
    paginate grab_diff on_result changes page_request default_limit s
