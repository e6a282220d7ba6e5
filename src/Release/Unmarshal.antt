-- ===== src/Release/Unmarshal.antt =====
-- UnmarshalReleaseEvent of handler/release.go. The keys of the attributes are the chain's constants;
-- the JSON parser's answers, also for the list of attachments, are arguments.
use gitopia_storage.Prelude.{
  ◌&&◌, Option, List, [], ◌∷◌, Result, ok, err, or_err, ◌>>=◌, length, ◌==◌, if◌then◌else◌,
}
use gitopia_storage.Text.{Bytes, parse_uint}
use gitopia_storage.Events.{is_nil}
use gitopia_storage.Events.Extract.{
  Attribute, UnmarshalError, bad_id, index_panic, mismatched, bad_flag, extract_string_array,
}
use gitopia_storage.Release.{
  Attachment, EventType, ReleaseEvent, create_release, dao_create_release, update_release,
  delete_release,
}

pub data Key : Type 0 where
  sender_key creator_key repo_id_key repo_owner_id_key tag_name_key attachments_key provider_key :
      Key

-- The arrays of one buffer.
pub record Arrays : Type 0 where
  pub creators : List Bytes
  pub ids : List Bytes
  pub owners : List Bytes
  pub tags : List Bytes
  pub attachments : List Bytes
  pub providers : List Bytes

abbrev pub first_of : List Bytes → Result UnmarshalError (Bytes × List Bytes)
first_of [] = err index_panic
first_of (x ∷ xs) = ok (x, xs)

-- The loop over the ids. An attachment list that cannot be read is the error `bad_flag`.
unfoldable pub release_events :
    (Bytes → Option (List Attachment))
    → List Bytes
    → List Bytes
    → List Bytes
    → List Bytes
    → List Bytes
    → List Bytes
    → Result UnmarshalError (List ReleaseEvent)
unfolding parse_uint
release_events parse creators [] owners tags attachments providers = ok []
release_events parse creators (id ∷ ids) (owner ∷ owners) (tag ∷ tags) (text ∷ attachments)
      (provider ∷ providers) =
    or_err bad_id (parse_uint id) >>= λ repository_id. or_err bad_flag (parse text) >>= λ listed.
    first_of creators >>= λ (creator, others).
    release_events parse others ids owners tags attachments providers >>= λ events. ok (
      record {
        creator = creator;
        repository_id = repository_id;
        repository_owner_id = owner;
        tag = tag;
        attachments = listed;
        provider = provider;
      }
      ∷ events)
release_events _ _ _ _ _ _ _ = err index_panic

-- The number of creators is compared with 0 only.
unfoldable pub checked_release_events :
    (Bytes → Option (List Attachment)) → Arrays → Result UnmarshalError (List ReleaseEvent)
unfolding release_events
checked_release_events parse a =
    if is_nil a.creators
    then ok []
    else if length a.ids == length a.owners
        && (length a.ids == length a.tags
            && (length a.ids == length a.attachments && length a.ids == length a.providers))
    then release_events parse a.creators a.ids a.owners a.tags a.attachments a.providers
    else err mismatched

abbrev pub creators_key : EventType → Key
creators_key dao_create_release = sender_key
creators_key create_release = creator_key
creators_key update_release = creator_key
creators_key delete_release = creator_key

unfoldable pub unmarshal_release_event :
    (Bytes → Option (List Attachment))
    → EventType
    → (Key → Attribute)
    → Result UnmarshalError (List ReleaseEvent)
unfolding checked_release_events extract_string_array
unmarshal_release_event parse type attribute =
    extract_string_array (attribute (creators_key type)) >>= λ creators.
    extract_string_array (attribute repo_id_key) >>= λ ids.
    extract_string_array (attribute repo_owner_id_key) >>= λ owners.
    extract_string_array (attribute tag_name_key) >>= λ tags.
    extract_string_array (attribute attachments_key) >>= λ texts.
    extract_string_array (attribute provider_key) >>= λ providers.
    checked_release_events parse (record {
      creators = creators;
      ids = ids;
      owners = owners;
      tags = tags;
      attachments = texts;
      providers = providers;
    })
