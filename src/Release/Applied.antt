-- ===== src/Release/Applied.antt =====
-- What the proposal for a release makes of the assets that the chain knows, where the chain applies
-- each update to the asset of its name.
use gitopia_storage.Prelude.{
  ◌≡◌, refl, sym, ap, subst, ◌∙◌, inl, inr, true, Option, none, some, ok-inj, List, [], ◌∷◌, ◌++◌,
  Result, ok, Bool-cases,
}
use gitopia_storage.Text.{Bytes, bytes_eq}
use gitopia_storage.App.{Query}
use gitopia_storage.Release.{
  Asset, Attachment, Call, Env, EventType, ReleaseError, ReleaseEvent, Update, add_updates, changed,
  changed_asset, create_release, created, dao_create_release, delete_release, existing_assets,
  find_asset, pin_attachment, pinned, polled, process_release, proposed, propose, release_updates,
  update_of, update_release,
}
use gitopia_storage.Release.View.{
  View, Distinct, apply_updates, attached, listed, over, view_of, all_named,
}
use gitopia_storage.Release.Changes.{Works, changed-Applied, update-Applied, delete-Applied}

over-none : (x : Option Bytes) → over x none ≡ x
over-none none = refl
over-none (some s) = refl

-- What a release is to have after an event.
abbrev pub wanted : EventType → List Attachment → View
wanted create_release attachments = attached attachments
wanted dao_create_release attachments = attached attachments
wanted update_release attachments = attached attachments
wanted delete_release attachments = λ n. none

-- The updates that a run proposes.
abbrev pub proposal_in : List Call → List Update
proposal_in [] = []
proposal_in (pinned path ∷ calls) = proposal_in calls
proposal_in (proposed creator id tag updates ∷ calls) = updates
proposal_in (polled id tag creator ∷ calls) = proposal_in calls

abbrev OnlyPins : List Call → Type 0
OnlyPins [] = Unit {0}
OnlyPins (pinned path ∷ calls) = OnlyPins calls
OnlyPins (proposed creator id tag updates ∷ calls) = ⊥
OnlyPins (polled id tag creator ∷ calls) = ⊥

OnlyPins-append : (xs ys : List Call) → OnlyPins xs → OnlyPins ys → OnlyPins (xs ++ ys)
OnlyPins-append [] ys h k = k
OnlyPins-append (pinned path ∷ xs) ys h k = OnlyPins-append xs ys h k
OnlyPins-append (proposed creator id tag updates ∷ xs) ys h k = absurd h
OnlyPins-append (polled id tag creator ∷ xs) ys h k = absurd h

proposal_in-append : (xs ys : List Call) → OnlyPins xs → proposal_in (xs ++ ys) ≡ proposal_in ys
proposal_in-append [] ys h = refl
proposal_in-append (pinned path ∷ xs) ys h = proposal_in-append xs ys h
proposal_in-append (proposed creator id tag updates ∷ xs) ys h = absurd h
proposal_in-append (polled id tag creator ∷ xs) ys h = absurd h

module _ {T P : Type 0} (e : Env T P) where
  created-changed :
      (attachments : List Attachment) → created e attachments ≡ changed e [] attachments
  unfolding created changed find_asset changed_asset
  created-changed [] = refl
  created-changed (a ∷ attachments) =
      ap (add_updates (pin_attachment e a (λ cid root. update_of e a [] [] cid root ∷ [])))
        (created-changed attachments)

  changed_asset-OnlyPins : (a : Attachment) (o : Option Asset) → OnlyPins (changed_asset e a o).0
  unfolding changed_asset pin_attachment
  changed_asset-OnlyPins a none = tt
  changed_asset-OnlyPins a (some old) = elim (Bool-cases (bytes_eq old.sha256 a.sha)) [
    | inl h ↦ rw h tt
    | inr h ↦ rw h tt
  ]

  changed-OnlyPins :
      (existing : List Asset) (attachments : List Attachment)
      → OnlyPins (changed e existing attachments).0
  unfolding changed
  changed-OnlyPins existing [] = tt
  changed-OnlyPins existing (a ∷ attachments) =
      OnlyPins-append (changed_asset e a (find_asset a.name existing)).0
        (changed e existing attachments).0 (changed_asset-OnlyPins a (find_asset a.name existing))
        (changed-OnlyPins existing attachments)

  created-OnlyPins : (attachments : List Attachment) → OnlyPins (created e attachments).0
  created-OnlyPins attachments =
      subst (λ u. OnlyPins u.0) (sym (created-changed attachments))
        (changed-OnlyPins [] attachments)

  release-OnlyPins :
      (type : EventType) (attachments : List Attachment) (existing : List Asset)
      → OnlyPins (release_updates e type attachments existing).0
  unfolding release_updates
  release-OnlyPins create_release attachments existing = created-OnlyPins attachments
  release-OnlyPins dao_create_release attachments existing = created-OnlyPins attachments
  release-OnlyPins update_release attachments existing = changed-OnlyPins existing attachments
  release-OnlyPins delete_release attachments existing = tt

  proposal_in-propose :
      (ev : ReleaseEvent) (updates : List Update) → proposal_in (propose e ev updates) ≡ updates
  unfolding propose
  proposal_in-propose ev [] = refl
  proposal_in-propose ev (u ∷ updates) =
      elim (Bool-cases (e.proposes ev.creator ev.repository_id ev.tag (u ∷ updates))) [
        | inl h ↦ rw h refl
        | inr h ↦ rw h refl
      ]

  -- a run that knows the assets proposes the updates of its event
  process-updates :
      (type : EventType) (ev : ReleaseEvent) (known : List Asset)
      → bytes_eq ev.provider e.address ≡ true
      → existing_assets e type (e.assets ev.repository_id ev.tag) ≡ ok known
      → proposal_in (process_release e type ev).0 ≡ (release_updates e type ev.attachments known).1
  unfolding process_release
  process-updates type ev known mine found =
      let (calls, updates) = release_updates e type ev.attachments known in
      rw (mine, found)
        (proposal_in-append calls (propose e ev updates)
            (release-OnlyPins type ev.attachments known)
          ∙ proposal_in-propose ev updates)

  creation-Applied :
      (attachments : List Attachment) (known : List Asset) (n : Bytes)
      → ◌≡◌ {A = Result ReleaseError (List Asset)} (ok []) (ok known)
      → Works e known
      → Distinct attachments
      → apply_updates (created e attachments).1 (view_of known) n ≡ attached attachments n
  unfolding find_asset
  creation-Applied attachments known n found works d =
      let none_known : [] ≡ known = ok-inj found in
      subst (λ z. apply_updates (created e attachments).1 (view_of z) n ≡ attached attachments n)
        none_known
        (ap (λ u. apply_updates u.1 (view_of []) n) (created-changed attachments)
          ∙ changed-Applied e [] (subst (λ z. Works e z) (sym none_known) works) attachments
              (view_of []) n d
              (all_named attachments (λ m. view_of [] m ≡ view_of [] m) (λ m h. refl) attachments
                (λ m h. h))
          ∙ over-none (attached attachments n))

  updates-Applied :
      (type : EventType) (attachments : List Attachment) (answer : Query (List Asset))
      (known : List Asset) (n : Bytes)
      → existing_assets e type answer ≡ ok known
      → Works e known
      → Distinct attachments
      → ((m : Bytes) → listed m (e.iterate known) ≡ listed m known)
      → apply_updates (release_updates e type attachments known).1 (view_of known) n
        ≡ wanted type attachments n
  unfolding release_updates existing_assets
  updates-Applied create_release attachments answer known n found works d walks =
      creation-Applied attachments known n found works d
  updates-Applied dao_create_release attachments answer known n found works d walks =
      creation-Applied attachments known n found works d
  updates-Applied update_release attachments answer known n found works d walks =
      update-Applied e known works attachments n d walks
  updates-Applied delete_release attachments answer known n found works d walks =
      delete-Applied e known works attachments n walks

  -- Where the chain gives a release its attachments by applying the proposed updates, the release has
  -- exactly the attachments of its event afterwards, and none if it is deleted. The event is for this
  -- provider, the chain's assets can be read, the attachments have distinct names, each can be pinned and read, the
  -- cids of different contents differ, and a walk over the map meets each of its names.
  pub process_release-Applied :
      (type : EventType) (ev : ReleaseEvent) (known : List Asset) (n : Bytes)
      → bytes_eq ev.provider e.address ≡ true
      → existing_assets e type (e.assets ev.repository_id ev.tag) ≡ ok known
      → Works e known
      → Distinct ev.attachments
      → ((m : Bytes) → listed m (e.iterate known) ≡ listed m known)
      → apply_updates (proposal_in (process_release e type ev).0) (view_of known) n
        ≡ wanted type ev.attachments n
  process_release-Applied type ev known n mine found works d walks =
      ap (λ u. apply_updates u (view_of known) n) (process-updates type ev known mine found)
      ∙ updates-Applied type ev.attachments (e.assets ev.repository_id ev.tag) known n found works d
          walks
