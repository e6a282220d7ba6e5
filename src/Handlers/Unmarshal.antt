-- ===== src/Handlers/Unmarshal.antt =====
-- The Unmarshal functions of handler/deleteStorageObject.go, proposalTimeout.go, deleteRepository.go
-- and challenge.go: parallel arrays of strings become a list of events. The JSON parser's answers are
-- arguments; `array_each` is its reading of the array inside an attribute.
use gitopia_storage.Prelude.{
  ℕ, ◌&&◌, Option, List, [], ◌∷◌, Result, ok, err, or_err, ◌>>=◌, length, ◌==◌, if◌then◌else◌,
}
use gitopia_storage.Text.{Bytes, codes, parse_uint}
use gitopia_storage.Events.{is_nil}
use gitopia_storage.Events.Extract.{
  Attribute, UnmarshalError, mismatched, bad_id, index_panic, extract_string_array,
}
use gitopia_storage.Handlers.{CidsEvent, DeleteRepositoryEvent}

-- An array of cids that cannot be read is the error `bad_id`.
unfoldable pub cids_events :
    (Bytes → Option (List Bytes)) → List Bytes → List Bytes → Result UnmarshalError (List CidsEvent)
cids_events array_each [] arrays = ok []
cids_events array_each (provider ∷ providers) (array ∷ arrays) =
    let rest = cids_events array_each providers arrays in
    or_err bad_id (array_each array) >>= λ cids.
    rest >>= λ events. ok (record { provider = provider; cids = cids } ∷ events)
cids_events array_each (provider ∷ providers) [] = err index_panic

unfoldable pub unmarshal_delete_storage_object_event :
    (Bytes → Option (List Bytes)) → (Bytes → Attribute) → Result UnmarshalError (List CidsEvent)
unfolding cids_events extract_string_array
unmarshal_delete_storage_object_event array_each attribute =
    extract_string_array (attribute (codes "provider")) >>= λ providers.
    extract_string_array (attribute (codes "cids")) >>= λ arrays.
    (if is_nil providers
      then ok []
      else if length providers == length arrays
      then cids_events array_each providers arrays
      else err mismatched)

unfoldable pub unmarshal_proposal_timeout_event :
    (Bytes → Option (List Bytes)) → (Bytes → Attribute) → Result UnmarshalError (List CidsEvent)
unfolding cids_events extract_string_array
unmarshal_proposal_timeout_event array_each attribute =
    extract_string_array (attribute (codes "provider")) >>= λ providers.
    extract_string_array (attribute (codes "cids")) >>= λ arrays.
    (if is_nil providers
      then ok []
      else if length providers == length arrays
      then cids_events array_each providers arrays
      else err mismatched)

unfoldable pub delete_repository_events :
    List Bytes → List Bytes → List Bytes → Result UnmarshalError (List DeleteRepositoryEvent)
unfolding parse_uint
delete_repository_events [] ids providers = ok []
delete_repository_events (creator ∷ creators) (id ∷ ids) (provider ∷ providers) =
    let rest = delete_repository_events creators ids providers in
    or_err bad_id (parse_uint id) >>= λ repository_id. rest >>= λ events.
    ok (record { creator = creator; repository_id = repository_id; provider = provider } ∷ events)
delete_repository_events _ _ _ = err index_panic

unfoldable pub unmarshal_delete_repository_event :
    (Bytes → Attribute) → Result UnmarshalError (List DeleteRepositoryEvent)
unfolding delete_repository_events extract_string_array
unmarshal_delete_repository_event attribute =
    extract_string_array (attribute (codes "Creator")) >>= λ creators.
    extract_string_array (attribute (codes "RepositoryId")) >>= λ ids.
    extract_string_array (attribute (codes "Provider")) >>= λ providers.
    (if is_nil creators
      then ok []
      else if length creators == length ids && length creators == length providers
      then delete_repository_events creators ids providers
      else err mismatched)

pub record ChallengeEvent : Type 0 where
  pub challenge_id : ℕ
  pub provider : Bytes

unfoldable pub challenge_events :
    List Bytes → List Bytes → Result UnmarshalError (List ChallengeEvent)
unfolding parse_uint
challenge_events [] providers = ok []
challenge_events (id ∷ ids) (provider ∷ providers) =
    let rest = challenge_events ids providers in
    or_err bad_id (parse_uint id) >>= λ challenge_id.
    rest >>= λ events. ok (record { challenge_id = challenge_id; provider = provider } ∷ events)
challenge_events (id ∷ ids) [] = err index_panic

unfoldable pub unmarshal_challenge_event :
    (Bytes → Attribute) → Result UnmarshalError (List ChallengeEvent)
unfolding challenge_events extract_string_array
unmarshal_challenge_event attribute =
    extract_string_array (attribute (codes "challenge_id")) >>= λ ids.
    extract_string_array (attribute (codes "provider")) >>= λ providers.
    (if is_nil ids
      then ok []
      else if length ids == length providers
      then challenge_events ids providers
      else err mismatched)
