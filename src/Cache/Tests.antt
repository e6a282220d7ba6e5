-- ===== src/Cache/Tests.antt =====
-- Runs of the clearing, and the theorems applied to a small cache.
use mathlib.Core.List.{Permᴰ}
use mathlib.Core.List.Permᴰ.{cons, nil}
use gitopia_storage.Prelude.{
  ℕ, ◌≡◌, ◌≢◌, eq_iff, ◌<◌, ◌^◌, refl, none, some, arith, String, Bool, true, false, List, [], ◌∷◌,
  str_eq, inl, inr,
}
use gitopia_storage.Cache.{
  Pass, read_asset_dir, Node, Dir, Os, Policy, EntryInfo, file_policy, clear_repository_cache,
  clear_asset_cache, lt64, add64, is_free,
}
use gitopia_storage.Cache.Lfs.{clear_lfs_cache}
use gitopia_storage.Cache.InUse.{Justified, clear-Justified}
use gitopia_storage.Cache.Limits
use gitopia_storage.Cache.Limits.{clear-Fits}
use gitopia_storage.Cache.Fits.{Steady}
use gitopia_storage.Cache.Names.{Distinct}
use gitopia_storage.Cache.Size.{cached_size, Works}

abbrev node : String → ℕ → ℕ → Node
node name time size = record { name = name; is_dir = false; mod_time = time; size = size }

abbrev disk : Os
disk = record {
  now = 100;
  readable = true;
  readable_again = true;
  info_ok = λ _. true;
  remove_ok = λ _. true;
  walk = λ _. [];
}

-- the oldest is expired, one is locked
abbrev assets : Dir
assets = node "aa" 10 50 ∷ node "bb" 95 7 ∷ node "cc" 96 5 ∷ []

abbrev locked : Pass → String → Bool
locked pass name = str_eq name "bb"

abbrev limits : Policy
limits = file_policy locked 60 4

abbrev as_listed : List EntryInfo → List EntryInfo
as_listed es = es

abbrev nodes_as_listed : Dir → List Node → List Node
nodes_as_listed left es = es

cleared : clear_asset_cache disk as_listed limits assets ≡ (none, node "bb" 95 7 ∷ [])
unfolding clear_asset_cache lt64 file_policy add64
cleared = refl

-- the directory cannot be read again; what was too old is gone
reread :
    clear_asset_cache
      (record disk { readable_again = false })
      as_listed
      limits
      (node "aa" 10 50 ∷ node "cc" 96 5 ∷ [])
    ≡ (some read_asset_dir, node "cc" 96 5 ∷ [])
unfolding clear_asset_cache lt64 file_policy add64
reread = refl

works : Works disk
works = record {
  readable = refl;
  readable_again = refl;
  info = λ name. refl;
  removes = λ name. refl;
}

bb≢aa : ◌≢◌ {A = String} "bb" "aa"
bb≢aa = ground (arith, eq_iff "bb" "aa")

cc≢aa : ◌≢◌ {A = String} "cc" "aa"
cc≢aa = ground (arith, eq_iff "cc" "aa")

cc≢bb : ◌≢◌ {A = String} "cc" "bb"
cc≢bb = ground (arith, eq_iff "cc" "bb")

same : (es : List EntryInfo) → Permᴰ (as_listed es) es
same [] = nil
same (e ∷ es) = cons (λ i. e) (same es)

names-Distinct : Distinct assets
names-Distinct = ((bb≢aa, (cc≢aa, tt)), ((cc≢bb, tt), (tt, tt)))

clear-Justified_example :
    Justified disk limits
      (node "bb" 95 7)
      assets
      (clear_repository_cache disk as_listed limits assets).1
    × Justified disk limits
        (node "bb" 95 7)
        assets
        (clear_asset_cache disk as_listed limits assets).1
    × Justified disk limits
        (node "bb" 95 7)
        assets
        (clear_lfs_cache disk nodes_as_listed limits assets).1
clear-Justified_example =
    clear-Justified disk as_listed nodes_as_listed limits assets (node "bb" 95 7) same
      names-Distinct (inr (inl refl))

asked-Steady : Steady disk limits
unfolding file_policy
asked-Steady name = refl

small_enough : cached_size disk limits assets < 2 ^ 63
unfolding file_policy is_free
small_enough = ground arith

limit_small : limits.max_size < 2 ^ 63
unfolding file_policy
limit_small = ground arith

clear-Fits_example :
    Limits.Fits disk limits assets (clear_repository_cache disk as_listed limits assets)
    × Limits.Fits disk limits assets (clear_asset_cache disk as_listed limits assets)
clear-Fits_example =
    clear-Fits disk as_listed limits assets same works asked-Steady names-Distinct small_enough
      limit_small
