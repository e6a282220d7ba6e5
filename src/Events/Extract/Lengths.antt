-- ===== src/Events/Extract/Lengths.antt =====
-- handler: unmarshalling never indexes an array out of range, and gives one event per id.
use gitopia_storage.Prelude.{
  ℕ, suc, ◌≡◌, refl, ap, arith, Bool, true, false, ◌&&◌, Option, none, some, List, [], ◌∷◌, Result,
  ok, err, or_err, ◌>>=◌, length, ◌==◌, if◌then◌else◌,
}
use gitopia_storage.Text.{Bytes, codes, parse_uint}
use gitopia_storage.Events.{is_nil}
use gitopia_storage.Events.Extract.{
  Attribute, UnmarshalError, index_panic, extract_string_array, lfs_events, unmarshal,
  packfile_events, unmarshal_packfile_updated_event, parse_bool, bad_attribute, mismatched, bad_id,
  bad_flag, malformed, missing, strings, keep_strings,
}

-- A result that is no panic, and if it is a list, one of this length.
abbrev pub Sized : {A : Type 0} → ℕ → Result UnmarshalError (List A) → Type 0
Sized n (ok events) = length events ≡ n
Sized n (err index_panic) = ⊥
Sized n (err _) = Unit

module _ {A : Type 0} where
  pub with_array :
      (n : ℕ) (a : Attribute) (next : List Bytes → Result UnmarshalError (List A))
      → ((xs : List Bytes) → extract_string_array a ≡ ok xs → Sized n (next xs))
      → Sized n (extract_string_array a >>= next)
  unfolding extract_string_array
  with_array n malformed next h = tt
  with_array n missing next h = h [] refl
  with_array n (strings elements) next h = h (keep_strings elements) refl

  pub one_more :
      {B C : Type 0} (n : ℕ) (id : Option B) (flag : Option C) (make : B → C → A)
      (rest : Result UnmarshalError (List A))
      → Sized n rest
      → Sized
          (suc n)
          (do i ← or_err bad_id id; f ← or_err bad_flag flag; events ← rest; ok (make i f ∷ events))
  one_more n none flag make rest h = tt
  one_more n (some i) none make rest h = tt
  one_more n (some i) (some f) make (ok events) h = ap suc h
  one_more n (some i) (some f) make (err index_panic) h = h
  one_more n (some i) (some f) make (err bad_attribute) h = h
  one_more n (some i) (some f) make (err mismatched) h = h
  one_more n (some i) (some f) make (err bad_id) h = h
  one_more n (some i) (some f) make (err bad_flag) h = h

  pub checked :
      (ids : List Bytes) (same : Bool) (events : Result UnmarshalError (List A))
      → (same ≡ true → Sized (length ids) events)
      → Sized (length ids) (if is_nil ids then ok [] else if same then events else err mismatched)
  checked [] same events h = refl
  checked (id ∷ ids) true events h = h refl
  checked (id ∷ ids) false events h = tt

lfs_events-Sized :
    (ids oids cids deleteds : List Bytes)
    → length ids ≡ length oids
    → length ids ≡ length cids
    → length ids ≡ length deleteds
    → Sized (length ids) (lfs_events ids oids cids deleteds)
unfolding lfs_events
lfs_events-Sized [] oids cids deleteds a b c = refl
lfs_events-Sized (id ∷ ids) (oid ∷ oids) (cid ∷ cids) (flag ∷ deleteds) a b c =
    one_more (length ids) (parse_uint id) (parse_bool flag)
      (λ i f. record { repository_id = i; oid = oid; cid = cid; deleted = f })
      (lfs_events ids oids cids deleteds)
      (lfs_events-Sized ids oids cids deleteds (omega arith) (omega arith) (omega arith))
lfs_events-Sized _ _ _ _ a b c = absurd (omega arith)

packfile_events-Sized :
    (ids new_cids old_cids new_names old_names deleteds : List Bytes)
    → length ids ≡ length new_cids
    → length ids ≡ length old_cids
    → length ids ≡ length new_names
    → length ids ≡ length old_names
    → length ids ≡ length deleteds
    → Sized (length ids) (packfile_events ids new_cids old_cids new_names old_names deleteds)
unfolding packfile_events
packfile_events-Sized [] new_cids old_cids new_names old_names deleteds a b c d e = refl
packfile_events-Sized (id ∷ ids) (x ∷ new_cids) (y ∷ old_cids) (z ∷ new_names) (w ∷ old_names)
      (flag ∷ deleteds) a b c d e =
    one_more (length ids) (parse_uint id) (parse_bool flag)
      (λ i f. record {
        repository_id = i;
        new_cid = x;
        old_cid = y;
        new_name = z;
        old_name = w;
        deleted = f;
      })
      (packfile_events ids new_cids old_cids new_names old_names deleteds)
      (packfile_events-Sized ids new_cids old_cids new_names old_names deleteds (omega arith)
        (omega arith) (omega arith) (omega arith) (omega arith))
packfile_events-Sized _ _ _ _ _ _ a b c d e = absurd (omega arith)

-- Whatever the JSON parser answers, unmarshalling the events of LFS objects or of packfiles never
-- indexes an array out of range; and where it succeeds, it gives as many events as there are ids.
pub unmarshal-Sized :
    (attribute : Bytes → Attribute) (ids : List Bytes)
    → extract_string_array (attribute (codes "repository_id")) ≡ ok ids
    → Sized (length ids) (unmarshal attribute)
      × Sized (length ids) (unmarshal_packfile_updated_event attribute)
unfolding unmarshal unmarshal_packfile_updated_event
unmarshal-Sized attribute ids h = (
  rw h (
      with_array (length ids) (attribute (codes "oid")) _ (λ oids _.
        with_array (length ids) (attribute (codes "cid")) _ (λ cids _.
          with_array (length ids) (attribute (codes "deleted")) _ (λ deleteds _.
            checked ids
              (length ids == length oids
                && (length ids == length cids && length ids == length deleteds))
              (lfs_events ids oids cids deleteds)
              (λ e.
                lfs_events-Sized ids oids cids deleteds (ground arith) (ground arith)
                  (ground arith)))))),
  rw h (
      with_array (length ids) (attribute (codes "new_cid")) _ (λ new_cids _.
        with_array (length ids) (attribute (codes "old_cid")) _ (λ old_cids _.
          with_array (length ids) (attribute (codes "new_name")) _ (λ new_names _.
            with_array (length ids) (attribute (codes "old_name")) _ (λ old_names _.
              with_array (length ids) (attribute (codes "deleted")) _ (λ deleteds _.
                checked ids
                  (length ids == length new_cids
                    && (length ids == length old_cids
                        && (length ids == length new_names
                            && (length ids == length old_names && length ids == length deleteds))))
                  (packfile_events ids new_cids old_cids new_names old_names deleteds)
                  (λ e.
                    packfile_events-Sized ids new_cids old_cids new_names old_names deleteds
                      (ground arith) (ground arith) (ground arith) (ground arith)
                      (ground arith)))))))),
)
