-- ===== src/Page/Tree.antt =====
-- utils/content.go: the listing of a tree, in pages. An entry's mode and hash are go-git's: the
-- entry carries whether its mode is a file's, and its hash as text. The fields of `Content` that a
-- listing leaves at their zero values are not in the record.
use Prim.Native.String.{◌++◌ as concat}
use gitopia_storage.Prelude.{String, Bool, ℕ, List, Option, Result, ok, str_eq, if◌then◌else◌}
use gitopia_storage.Page.{PageRequest, PageResponse, PageError, paginate}

pub data ContentType : Type 0 where
  tree blob : ContentType

unfoldable pub content_type_string : ContentType → String
content_type_string ContentType.tree = "TREE"
content_type_string ContentType.blob = "BLOB"

pub record TreeEntry : Type 0 where
  pub name : String
  pub hash : String
  pub is_file : Bool

pub record Content : Type 0 where
  pub name : String
  pub path : String
  pub sha : String
  pub content_type : String

unfoldable pub tree_content : String → TreeEntry → Content
tree_content path_prefix e = record {
  name = e.name;
  path = if str_eq path_prefix "" then e.name else concat path_prefix (concat "/" e.name);
  sha = e.hash;
  content_type =
      if e.is_file
      then content_type_string ContentType.blob
      else content_type_string ContentType.tree;
}

-- `GrabTreeContent` returns no error.
unfoldable pub grab_tree_content : String → TreeEntry → Result PageError Content
unfolding tree_content content_type_string
grab_tree_content path_prefix e = ok (tree_content path_prefix e)

unfoldable pub paginate_tree_content_response :
    {S : Type 0}
    → List TreeEntry
    → Option PageRequest
    → ℕ
    → String
    → (Content → S → Option S)
    → S
    → Result PageError (PageResponse × S)
unfolding paginate
paginate_tree_content_response entries page_request default_limit path_prefix on_result s =
    paginate (grab_tree_content path_prefix) on_result entries page_request default_limit s
