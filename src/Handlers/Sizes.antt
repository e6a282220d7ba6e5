-- ===== src/Handlers/Sizes.antt =====
-- The Unmarshal functions of the events that give up content, and of challenges, never index an
-- array out of range.
use gitopia_storage.Prelude.{
  ℕ, suc, ap, or_err, ◌≡◌, refl, arith, ◌&&◌, Option, none, some, List, [], ◌∷◌, Result, ok, err,
  ◌>>=◌, length, ◌==◌,
}
use gitopia_storage.Text.{Bytes, codes, parse_uint}
use gitopia_storage.Events.Extract.{
  Attribute, UnmarshalError, bad_attribute, mismatched, bad_id, bad_flag, index_panic,
  extract_string_array,
}
use gitopia_storage.Events.Extract.Lengths.{Sized, checked, with_array}
use gitopia_storage.Handlers.Unmarshal.{
  cids_events, challenge_events, delete_repository_events, unmarshal_challenge_event,
  unmarshal_delete_repository_event, unmarshal_delete_storage_object_event,
  unmarshal_proposal_timeout_event,
}

one_parsed :
    {A B : Type 0} (n : ℕ) (parsed : Option B) (make : B → A)
    (rest : Result UnmarshalError (List A))
    → Sized n rest
    → Sized (suc n) (or_err bad_id parsed >>= λ b. rest >>= λ events. ok (make b ∷ events))
one_parsed n none make rest h = tt
one_parsed n (some b) make (ok events) h = ap suc h
one_parsed n (some b) make (err index_panic) h = h
one_parsed n (some b) make (err bad_attribute) h = h
one_parsed n (some b) make (err mismatched) h = h
one_parsed n (some b) make (err bad_id) h = h
one_parsed n (some b) make (err bad_flag) h = h

cids_events-Sized :
    (array_each : Bytes → Option (List Bytes)) (providers arrays : List Bytes)
    → length providers ≡ length arrays
    → Sized (length providers) (cids_events array_each providers arrays)
unfolding cids_events
cids_events-Sized array_each [] arrays h = refl
cids_events-Sized array_each (provider ∷ providers) [] h = absurd (omega (arith, h))
cids_events-Sized array_each (provider ∷ providers) (array ∷ arrays) h =
    one_parsed (length providers) (array_each array)
      (λ cids. record { provider = provider; cids = cids })
      (cids_events array_each providers arrays)
      (cids_events-Sized array_each providers arrays (omega (arith, h)))

delete_repository_events-Sized :
    (creators ids providers : List Bytes)
    → length creators ≡ length ids
    → length creators ≡ length providers
    → Sized (length creators) (delete_repository_events creators ids providers)
unfolding delete_repository_events
delete_repository_events-Sized [] ids providers h k = refl
delete_repository_events-Sized (creator ∷ creators) (id ∷ ids) (provider ∷ providers) h k =
    one_parsed (length creators) (parse_uint id)
      (λ i. record { creator = creator; repository_id = i; provider = provider })
      (delete_repository_events creators ids providers)
      (delete_repository_events-Sized creators ids providers (omega (arith, h)) (omega (arith, k)))
delete_repository_events-Sized _ _ _ h k = absurd (omega (arith, h, k))

challenge_events-Sized :
    (ids providers : List Bytes)
    → length ids ≡ length providers
    → Sized (length ids) (challenge_events ids providers)
unfolding challenge_events
challenge_events-Sized [] providers h = refl
challenge_events-Sized (id ∷ ids) [] h = absurd (omega (arith, h))
challenge_events-Sized (id ∷ ids) (provider ∷ providers) h =
    one_parsed (length ids) (parse_uint id) (λ i. record { challenge_id = i; provider = provider })
      (challenge_events ids providers) (challenge_events-Sized ids providers (omega (arith, h)))

-- Whatever the JSON parser answers, none of the four indexes an array out of range; and where one
-- succeeds, it gives as many events as its first array has elements.
pub unmarshal_events-Sized :
    (array_each : Bytes → Option (List Bytes)) (attribute : Bytes → Attribute)
    (providers creators ids : List Bytes)
    → extract_string_array (attribute (codes "provider")) ≡ ok providers
    → extract_string_array (attribute (codes "Creator")) ≡ ok creators
    → extract_string_array (attribute (codes "challenge_id")) ≡ ok ids
    → Sized (length providers) (unmarshal_delete_storage_object_event array_each attribute)
      × Sized (length providers) (unmarshal_proposal_timeout_event array_each attribute)
      × Sized (length creators) (unmarshal_delete_repository_event attribute)
      × Sized (length ids) (unmarshal_challenge_event attribute)
unfolding unmarshal_delete_storage_object_event unmarshal_proposal_timeout_event
    unmarshal_delete_repository_event unmarshal_challenge_event
unmarshal_events-Sized array_each attribute providers creators ids h k l = (
  rw h (
      with_array (length providers) (attribute (codes "cids")) _ (λ arrays _.
        checked providers (length providers == length arrays)
          (cids_events array_each providers arrays)
          (λ e. cids_events-Sized array_each providers arrays (ground arith)))),
  rw h (
      with_array (length providers) (attribute (codes "cids")) _ (λ arrays _.
        checked providers (length providers == length arrays)
          (cids_events array_each providers arrays)
          (λ e. cids_events-Sized array_each providers arrays (ground arith)))),
  rw k (
      with_array (length creators) (attribute (codes "RepositoryId")) _ (λ repos _.
        with_array (length creators) (attribute (codes "Provider")) _ (λ owners _.
          checked creators (length creators == length repos && length creators == length owners)
            (delete_repository_events creators repos owners)
            (λ e.
              delete_repository_events-Sized creators repos owners (ground arith)
                (ground arith))))),
  rw l (
      with_array (length ids) (attribute (codes "provider")) _ (λ owners _.
        checked ids (length ids == length owners) (challenge_events ids owners)
          (λ e. challenge_events-Sized ids owners (ground arith)))),
)
