-- ===== src/Cache.antt =====
-- utils/cache_manager.go: the periodic clearing of the three caches by age and by size.
-- A cache directory is a list of nodes with distinct names. What the operating system answers is
-- in `Os`; modification times and ages are nanoseconds, and ages are not negative, so that a file
-- from the future is never older than the limit. Sizes are `int64`, as bit patterns.
pub mod Names
pub mod Lfs
pub mod Lifecycle
pub mod InUse
pub mod Size
mod Fits
pub mod Limits
mod Tests
use gitopia_storage.Prelude.{
  ℕ, ◌+◌, ◌-◌, ◌%◌, ◌^◌, String, Bool, true, false, not, ◌&&◌, Option, none, some, List, [], ◌∷◌,
  Result, ok, err, ◌>>=◌, ltb, str_eq, if◌then◌else◌,
}
use gitopia_storage.Text.{codes, trim_suffix, parse_uint}

pub record Node : Type 0 where
  pub name : String
  pub is_dir : Bool
  pub mod_time : ℕ
  pub size : ℕ

abbrev pub Dir : Type 0
Dir = List Node

-- What `filepath.Walk` hands to its callback for one path: an error, or a directory or a file.
pub record Visited : Type 0 where
  pub is_dir : Bool
  pub size : ℕ

pub record Os : Type 0 where
  pub now : ℕ
  pub readable : Bool
  pub readable_again : Bool
  pub info_ok : String → Bool
  pub remove_ok : String → Bool
  pub walk : String → List (Option Visited)

pub data CacheError : Type 0 where
  read_repository_dir read_asset_dir read_lfs_dir : CacheError

abbrev pub int64_mod : ℕ
int64_mod = 2 ^ 64

unfoldable pub add64 : ℕ → ℕ → ℕ
add64 a b = (a + b) % int64_mod

unfoldable pub sub64 : ℕ → ℕ → ℕ
sub64 a b = (a + int64_mod - b) % int64_mod

-- `a < b` for the signed numbers behind the bit patterns.
unfoldable pub lt64 : ℕ → ℕ → Bool
lt64 a b = ltb ((a + 2 ^ 63) % int64_mod) ((b + 2 ^ 63) % int64_mod)

sum_walk : ℕ → List (Option Visited) → Option ℕ
sum_walk size [] = some size
sum_walk size (none ∷ rest) = none
sum_walk size (some v ∷ rest) = sum_walk (if v.is_dir then size else add64 size v.size) rest

-- The sizes of the files below a path; the first error ends the walk.
unfoldable pub calculate_dir_size : Os → String → Option ℕ
unfolding sum_walk add64
calculate_dir_size os path = sum_walk 0 (os.walk path)

-- An entry is asked after twice: in the loop over the listing, and for the removal by size.
pub data Pass : Type 0 where
  by_age by_size : Pass

-- Where the three caches differ: which entries they hold, which of these are in use at each time they
-- are asked after, and how the size of one is found. What is taken into use behind the last question
-- is not seen by the clearing.
pub record Policy : Type 0 where
  pub admits : Node → Bool
  pub in_use : Pass → String → Bool
  pub entry_size : Node → Option ℕ
  pub max_age : ℕ
  pub max_size : ℕ

-- The id of a repository, from the name of its directory.
unfoldable pub repo_id : String → Option ℕ
unfolding trim_suffix parse_uint
repo_id name = parse_uint (trim_suffix (codes ".git") (codes name))

abbrev is_repository : Node → Bool
is_repository n =
    if n.is_dir then elim (repo_id n.name) [ none ↦ false | some id ↦ true ] else false

abbrev repo_in_use : (Pass → ℕ → Bool) → Pass → String → Bool
repo_in_use in_use pass name = elim (repo_id name) [ none ↦ false | some id ↦ in_use pass id ]

unfoldable pub repo_policy : Os → (Pass → ℕ → Bool) → ℕ → ℕ → Policy
repo_policy os in_use max_age max_size = record {
  admits = is_repository;
  in_use = repo_in_use in_use;
  entry_size = λ n. calculate_dir_size os n.name;
  max_age = max_age;
  max_size = max_size;
}

-- Release assets and LFS objects are files, under their digests.
unfoldable pub file_policy : (Pass → String → Bool) → ℕ → ℕ → Policy
file_policy in_use max_age max_size = record {
  admits = λ n. not n.is_dir;
  in_use = in_use;
  entry_size = λ n. some n.size;
  max_age = max_age;
  max_size = max_size;
}

-- `os.Remove` and `os.RemoveAll` of a path that is there.
unfoldable pub remove : String → Dir → Dir
remove name [] = []
remove name (n ∷ ns) = let rest = remove name ns in if str_eq n.name name then rest else n ∷ rest

unfoldable pub try_remove : Os → String → Dir → Dir
unfolding remove
try_remove os name dir = if os.remove_ok name then remove name dir else dir

-- `time.Since(info.ModTime()) > maxAge`.
unfoldable pub is_old : Os → Policy → Node → Bool
is_old os p n = ltb p.max_age (os.now - n.mod_time)

-- The entries that a pass looks at.
unfoldable pub is_free : Os → Policy → Pass → Node → Bool
is_free os p pass n = p.admits n && (not (p.in_use pass n.name) && os.info_ok n.name)

abbrev pub add_size : ℕ → Option ℕ → ℕ
add_size total none = total
add_size total (some size) = add64 total size

-- One round of the first loop: what is old goes, the size of what stays is added.
unfoldable pub visit : Os → Policy → Node → Dir × ℕ → Dir × ℕ
unfolding try_remove is_old is_free
visit os p n (dir, total) =
    if is_free os p by_age n
    then (if is_old os p n
        then (try_remove os n.name dir, total)
        else (dir, add_size total (p.entry_size n)))
    else (dir, total)

unfoldable pub scan : Os → Policy → List Node → Dir × ℕ → Dir × ℕ
unfolding visit
scan os p [] s = s
scan os p (n ∷ ns) s = scan os p ns (visit os p n s)

pub record EntryInfo : Type 0 where
  pub path : String
  pub mod_time : ℕ
  pub size : ℕ

abbrev pub keep_info : Node → Option ℕ → List EntryInfo → List EntryInfo
keep_info n none rest = rest
keep_info n (some size) rest = record { path = n.name; mod_time = n.mod_time; size = size } ∷ rest

-- The second listing, with the size of each entry that is not in use when it is asked after. The
-- removal that follows asks no more.
unfoldable pub candidates : Os → Policy → List Node → List EntryInfo
unfolding is_free
candidates os p [] = []
candidates os p (n ∷ ns) =
    let rest = candidates os p ns in
    if is_free os p by_size n then keep_info n (p.entry_size n) rest else rest

-- The last loop: oldest first, until the size is within the limit.
unfoldable pub evict : Os → Policy → List EntryInfo → Dir × ℕ → Dir × ℕ
unfolding remove
evict os p [] s = s
evict os p (e ∷ es) (dir, total) =
    let next =
      evict os p es
        (if os.remove_ok e.path then (remove e.path dir, sub64 total e.size) else (dir, total)) in
    if lt64 p.max_size total then next else (dir, total)

-- The error, if there is one, and what is left of the directory.
abbrev pub Cleared : Type 0
Cleared = Option CacheError × Dir

-- `sort.Slice` by modification time, of the infos and of the entries, is a parameter.
module _ (os : Os) (sort : List EntryInfo → List EntryInfo) where
  -- The directory is read again for the removal by size, which can fail.
  unfoldable pub clear_by_size : CacheError → Policy → Dir × ℕ → Cleared
  unfolding candidates evict
  clear_by_size e p (dir, total) =
      if lt64 p.max_size total
      then (if os.readable_again
          then (none, (evict os p (sort (candidates os p dir)) (dir, total)).0)
          else (some e, dir))
      else (none, dir)

  unfoldable pub clear_repository_cache : Policy → Dir → Cleared
  unfolding scan clear_by_size
  clear_repository_cache p dir =
      if os.readable
      then clear_by_size read_repository_dir p (scan os p dir (dir, 0))
      else (some read_repository_dir, dir)

  unfoldable pub clear_asset_cache : Policy → Dir → Cleared
  unfolding scan clear_by_size
  clear_asset_cache p dir =
      if os.readable
      then clear_by_size read_asset_dir p (scan os p dir (dir, 0))
      else (some read_asset_dir, dir)
