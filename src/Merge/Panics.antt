-- ===== src/Merge/Panics.antt =====
-- The loops of the Unmarshal functions for releases and merges index the creators, whose number is
-- not compared with that of the ids.
use gitopia_storage.Prelude.{
  ◌<◌, ◌≡◌, refl, arith, Bool, true, ◌&&◌, Option, some, List, [], ◌∷◌, err, All, length, ◌==◌,
  if◌then◌else◌,
}
use gitopia_storage.Text.{Bytes, parse_uint}
use gitopia_storage.Events.Extract.{index_panic, mismatched}
use gitopia_storage.Release.{Attachment}
use gitopia_storage.Release.Unmarshal.{checked_release_events, release_events}
use gitopia_storage.Merge.Unmarshal.{checked_merge_events, merge_events}

abbrev pub Parses : {A : Type 0} → (Bytes → Option A) → List Bytes → Type 0
Parses {A} parse texts = All (λ text. (a : A) × (parse text ≡ some a)) texts

release_events-panic :
    (parse : Bytes → Option (List Attachment))
    (creators ids owners tags texts providers : List Bytes)
    → length creators < length ids
    → length ids ≡ length owners
    → length ids ≡ length tags
    → length ids ≡ length texts
    → length ids ≡ length providers
    → Parses parse_uint ids
    → Parses parse texts
    → release_events parse creators ids owners tags texts providers ≡ err index_panic
unfolding release_events
release_events-panic parse creators [] owners tags texts providers h a b c d p q =
    absurd (omega (arith, h))
release_events-panic parse [] (id ∷ ids) (owner ∷ owners) (tag ∷ tags) (text ∷ texts)
      (provider ∷ providers) h a b c d ((n, e), p) ((l, f), q) =
    rw (e, f) refl
release_events-panic parse (creator ∷ creators) (id ∷ ids) (owner ∷ owners) (tag ∷ tags)
      (text ∷ texts) (provider ∷ providers) h a b c d ((n, e), p) ((l, f), q) =
    rw
      (
        e,
        f,
        release_events-panic parse creators ids owners tags texts providers (omega (arith, h))
            (omega (arith, a)) (omega (arith, b)) (omega (arith, c)) (omega (arith, d)) p q,
      )
      refl
release_events-panic parse _ (id ∷ ids) _ _ _ _ h a b c d p q =
    absurd (omega (arith, h, a, b, c, d))

merge_events-panic :
    (creators ids iids providers : List Bytes)
    → length creators < length ids
    → length ids ≡ length iids
    → length ids ≡ length providers
    → Parses parse_uint ids
    → Parses parse_uint iids
    → merge_events creators ids iids providers ≡ err index_panic
unfolding merge_events
merge_events-panic creators [] iids providers h a b p q = absurd (omega (arith, h))
merge_events-panic [] (id ∷ ids) (iid ∷ iids) (provider ∷ providers) h a b ((n, e), p) ((l, f), q) =
    rw (e, f) refl
merge_events-panic (creator ∷ creators) (id ∷ ids) (iid ∷ iids) (provider ∷ providers) h a b
      ((n, e), p) ((l, f), q) =
    rw
      (
        e,
        f,
        merge_events-panic creators ids iids providers (omega (arith, h)) (omega (arith, a))
            (omega (arith, b)) p q,
      )
      refl
merge_events-panic _ (id ∷ ids) _ _ h a b p q = absurd (omega (arith, h, a, b))

all_same :
    {A : Type 0} (a b c d : Bool) (x y : A) {z : A}
    → a ≡ true
    → b ≡ true
    → c ≡ true
    → d ≡ true
    → x ≡ z
    → (if a && (b && (c && d)) then x else y) ≡ z
all_same a b c d x y h k l m e = rw (h, k, l, m) e

both_same :
    {A : Type 0} (a b : Bool) (x y : A) {z : A}
    → a ≡ true
    → b ≡ true
    → x ≡ z
    → (if a && b then x else y) ≡ z
both_same a b x y h k e = rw (h, k) e

-- A buffer of releases, or of merges, that has a creator, but fewer creators than ids, makes the loop
-- panic. The other arrays have the length of the ids, and the ids and attachments can be parsed.
pub few_creators-panic :
    (parse : Bytes → Option (List Attachment)) (creator : Bytes)
    (creators ids owners tags texts providers iids : List Bytes)
    → length (creator ∷ creators) < length ids
    → length ids ≡ length owners
    → length ids ≡ length tags
    → length ids ≡ length texts
    → length ids ≡ length providers
    → length ids ≡ length iids
    → Parses parse_uint ids
    → Parses parse_uint iids
    → Parses parse texts
    → (checked_release_events parse (record {
      creators = creator ∷ creators;
      ids = ids;
      owners = owners;
      tags = tags;
      attachments = texts;
      providers = providers;
    })
        ≡ err index_panic)
      × (checked_merge_events (creator ∷ creators) ids iids providers ≡ err index_panic)
unfolding checked_release_events checked_merge_events
few_creators-panic parse creator creators ids owners tags texts providers iids h a b c d f p q r = (
  all_same (length ids == length owners) (length ids == length tags) (length ids == length texts)
      (length ids == length providers)
      (release_events parse (creator ∷ creators) ids owners tags texts providers) (err mismatched)
      (ground (arith, a)) (ground (arith, b)) (ground (arith, c)) (ground (arith, d))
      (release_events-panic parse (creator ∷ creators) ids owners tags texts providers h a b c d p
        r),
  both_same (length ids == length iids) (length ids == length providers)
      (merge_events (creator ∷ creators) ids iids providers) (err mismatched) (ground (arith, f))
      (ground (arith, d)) (merge_events-panic (creator ∷ creators) ids iids providers h f d p q),
)
