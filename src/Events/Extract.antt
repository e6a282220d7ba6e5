-- ===== src/Events/Extract.antt =====
-- handler/util.go and the unmarshalling of two events: from the attributes of a JSON buffer, which
-- are parallel arrays of strings, to a list of events. The JSON parser is an argument: its answer for
-- a key is an error, a missing key, or an array whose elements are strings or fail to parse.
pub mod Lengths
use mathlib.Core.List.{reverse}
use gitopia_storage.Prelude.{
  ℕ, Bool, true, false, ◌&&◌, ◌||◌, Option, none, some, List, [], ◌∷◌, Result, ok, err, or_err,
  ◌>>=◌, length, ◌==◌, if◌then◌else◌,
}
use gitopia_storage.Text.{Bytes, codes, bytes_eq, parse_uint}
use gitopia_storage.Events.{is_nil}
use gitopia_storage.Events.Lfs.{LfsObjectUpdatedEvent}
use gitopia_storage.Events.Packfile.{PackfileUpdatedEvent}

pub data Attribute : Type 0 where
  malformed missing : Attribute
  strings : List (Option Bytes) → Attribute

pub data UnmarshalError : Type 0 where
  bad_attribute mismatched bad_id bad_flag index_panic : UnmarshalError

unfoldable pub trim_left : Bytes → Bytes
trim_left [] = []
trim_left (c ∷ s) = let rest = trim_left s in if c == b'"' then rest else c ∷ s

-- `strings.Trim(s, "\"")`.
unfoldable pub trim_quotes : Bytes → Bytes
unfolding trim_left
trim_quotes s = reverse (trim_left (reverse (trim_left s)))

-- Elements that fail to parse are left out.
unfoldable pub keep_strings : List (Option Bytes) → List Bytes
unfolding trim_quotes
keep_strings [] = []
keep_strings (none ∷ rest) = keep_strings rest
keep_strings (some s ∷ rest) = trim_quotes s ∷ keep_strings rest

unfoldable pub extract_string_array : Attribute → Result UnmarshalError (List Bytes)
unfolding keep_strings
extract_string_array malformed = err bad_attribute
extract_string_array missing = ok []
extract_string_array (strings elements) = ok (keep_strings elements)

abbrev any_of : Bytes → List Bytes → Bool
any_of s [] = false
any_of s (t ∷ rest) = bytes_eq s t || any_of s rest

-- `strconv.ParseBool`.
unfoldable pub parse_bool : Bytes → Option Bool
unfolding bytes_eq
parse_bool s =
    if any_of s
      (codes "1" ∷ codes "t" ∷ codes "T" ∷ codes "TRUE" ∷ codes "true" ∷ codes "True" ∷ [])
    then some true
    else if any_of s
        (codes "0" ∷ codes "f" ∷ codes "F" ∷ codes "FALSE" ∷ codes "false" ∷ codes "False" ∷ [])
    then some false
    else none

-- The loop over the arrays; an index out of range panics.
unfoldable pub lfs_events :
    List Bytes
    → List Bytes
    → List Bytes
    → List Bytes
    → Result UnmarshalError (List LfsObjectUpdatedEvent)
unfolding parse_uint parse_bool
lfs_events [] oids cids deleteds = ok []
lfs_events (id ∷ ids) (oid ∷ oids) (cid ∷ cids) (flag ∷ deleteds) =
    let rest = lfs_events ids oids cids deleteds in
    do
      repository_id ← or_err bad_id (parse_uint id)
      deleted ← or_err bad_flag (parse_bool flag)
      events ← rest
      ok (
          record { repository_id = repository_id; oid = oid; cid = cid; deleted = deleted }
          ∷ events)
lfs_events _ _ _ _ = err index_panic

-- `Unmarshal` of handler/lfsObjectUpdated.go.
unfoldable pub unmarshal : (Bytes → Attribute) → Result UnmarshalError (List LfsObjectUpdatedEvent)
unfolding lfs_events extract_string_array
unmarshal attribute = do
  ids ← extract_string_array (attribute (codes "repository_id"))
  oids ← extract_string_array (attribute (codes "oid"))
  cids ← extract_string_array (attribute (codes "cid"))
  deleteds ← extract_string_array (attribute (codes "deleted"))
  if is_nil ids
      then ok []
      else if length ids == length oids
          && (length ids == length cids && length ids == length deleteds)
      then lfs_events ids oids cids deleteds
      else err mismatched

unfoldable pub packfile_events :
    List Bytes
    → List Bytes
    → List Bytes
    → List Bytes
    → List Bytes
    → List Bytes
    → Result UnmarshalError (List PackfileUpdatedEvent)
unfolding parse_uint parse_bool
packfile_events [] new_cids old_cids new_names old_names deleteds = ok []
packfile_events (id ∷ ids) (new_cid ∷ new_cids) (old_cid ∷ old_cids) (new_name ∷ new_names)
      (old_name ∷ old_names) (flag ∷ deleteds) =
    let rest = packfile_events ids new_cids old_cids new_names old_names deleteds in
    do
      repository_id ← or_err bad_id (parse_uint id)
      deleted ← or_err bad_flag (parse_bool flag)
      events ← rest
      ok (
          record {
            repository_id = repository_id;
            new_cid = new_cid;
            old_cid = old_cid;
            new_name = new_name;
            old_name = old_name;
            deleted = deleted;
          }
          ∷ events)
packfile_events _ _ _ _ _ _ = err index_panic

unfoldable pub unmarshal_packfile_updated_event :
    (Bytes → Attribute) → Result UnmarshalError (List PackfileUpdatedEvent)
unfolding packfile_events extract_string_array
unmarshal_packfile_updated_event attribute = do
  ids ← extract_string_array (attribute (codes "repository_id"))
  new_cids ← extract_string_array (attribute (codes "new_cid"))
  old_cids ← extract_string_array (attribute (codes "old_cid"))
  new_names ← extract_string_array (attribute (codes "new_name"))
  old_names ← extract_string_array (attribute (codes "old_name"))
  deleteds ← extract_string_array (attribute (codes "deleted"))
  if is_nil ids
      then ok []
      else if length ids == length new_cids
          && (length ids == length old_cids
              && (length ids == length new_names
                  && (length ids == length old_names && length ids == length deleteds)))
      then packfile_events ids new_cids old_cids new_names old_names deleteds
      else err mismatched
