-- ===== src/Merge/Unmarshal.antt =====
-- UnmarshalInvokeMergePullRequestEvent of handler/mergePullRequest.go. The JSON parser's answers are
-- arguments, and so is the chain's constant for the key of the provider.
use gitopia_storage.Prelude.{
  ℕ, Bool, ◌&&◌, List, [], ◌∷◌, Result, ok, err, or_err, ◌>>=◌, length, ◌==◌, if◌then◌else◌,
}
use gitopia_storage.Text.{Bytes, codes, parse_uint}
use gitopia_storage.Events.{is_nil}
use gitopia_storage.Events.Extract.{
  Attribute, UnmarshalError, bad_id, index_panic, mismatched, extract_string_array,
}
use gitopia_storage.Release.Unmarshal.{first_of}

pub record InvokeMergePullRequestEvent : Type 0 where
  pub creator : Bytes
  pub repository_id : ℕ
  pub pull_request_iid : ℕ
  pub provider : Bytes

unfoldable pub merge_events :
    List Bytes
    → List Bytes
    → List Bytes
    → List Bytes
    → Result UnmarshalError (List InvokeMergePullRequestEvent)
unfolding parse_uint
merge_events creators [] iids providers = ok []
merge_events creators (id ∷ ids) (number ∷ iids) (provider ∷ providers) =
    or_err bad_id (parse_uint id) >>= λ repository_id. or_err bad_id (parse_uint number) >>= λ iid.
    first_of creators >>= λ (creator, others). merge_events others ids iids providers >>= λ events.
    ok (
      record {
        creator = creator;
        repository_id = repository_id;
        pull_request_iid = iid;
        provider = provider;
      }
      ∷ events)
merge_events _ _ _ _ = err index_panic

-- The number of creators is compared with 0 only.
unfoldable pub checked_merge_events :
    List Bytes
    → List Bytes
    → List Bytes
    → List Bytes
    → Result UnmarshalError (List InvokeMergePullRequestEvent)
unfolding merge_events
checked_merge_events creators ids iids providers =
    if is_nil creators
    then ok []
    else if length ids == length iids && length ids == length providers
    then merge_events creators ids iids providers
    else err mismatched

-- The first flag says that the event is of a DAO.
unfoldable pub unmarshal_invoke_merge_pull_request_event :
    Bool → Bytes → (Bytes → Attribute) → Result UnmarshalError (List InvokeMergePullRequestEvent)
unfolding checked_merge_events extract_string_array
unmarshal_invoke_merge_pull_request_event dao provider_key attribute =
    extract_string_array (attribute (if dao then codes "sender" else codes "Creator"))
    >>= λ creators. extract_string_array (attribute (codes "RepositoryId")) >>= λ ids.
        extract_string_array (attribute (codes "PullRequestIid")) >>= λ iids.
        extract_string_array (attribute provider_key) >>= λ providers.
        checked_merge_events creators ids iids providers
