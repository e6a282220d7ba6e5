-- ===== src/Release/View.antt =====
-- The assets of a release as a map from names to digests, and what updates make of it.
use gitopia_storage.Prelude.{
  ◌≡◌, refl, arith, sym, ap, subst, ◌∙◌, inl, inr, Bool, true, false, not, ◌&&◌, ◌||◌, Option, none,
  some, List, [], ◌∷◌, ◌++◌, All, Bool-cases, if◌then◌else◌,
}
use gitopia_storage.Text.{Bytes, bytes_eq}
use gitopia_storage.Text.Equality.{bytes_eq_iff, bytes_eq_refl}
use gitopia_storage.Release.{Asset, Attachment, Update, deletion, deletions, find_asset, named}

-- The digest of each asset by its name.
abbrev pub View : Type 0
View = Bytes → Option Bytes

abbrev pub apply_update : Update → View → View
apply_update u v name =
    if bytes_eq name u.name then (if u.delete then none else some u.sha256) else v name

abbrev pub apply_updates : List Update → View → View
apply_updates [] v = v
apply_updates (u ∷ updates) v = apply_updates updates (apply_update u v)

abbrev pub digest : Option Asset → Option Bytes
digest none = none
digest (some a) = some a.sha256

abbrev pub view_of : List Asset → View
view_of assets name = digest (find_asset name assets)

abbrev pub attached : List Attachment → View
attached [] name = none
attached (a ∷ attachments) name =
    let rest = attached attachments name in if bytes_eq name a.name then some a.sha else rest

abbrev pub listed : Bytes → List Asset → Bool
listed name [] = false
listed name (a ∷ assets) = bytes_eq name a.name || listed name assets

abbrev pub Distinct : List Attachment → Type 0
Distinct [] = Unit {0}
Distinct (a ∷ attachments) = (named a.name attachments ≡ false) × Distinct attachments

abbrev pub over : Option Bytes → Option Bytes → Option Bytes
over none x = x
over (some s) x = some s

pub apply_updates-append :
    (us vs : List Update) (v : View) (n : Bytes)
    → apply_updates (us ++ vs) v n ≡ apply_updates vs (apply_updates us v) n
apply_updates-append [] vs v n = refl
apply_updates-append (u ∷ us) vs v n = apply_updates-append us vs (apply_update u v) n

pub same_name : (n m : Bytes) → bytes_eq n m ≡ true → n ≡ m
same_name n m h = (bytes_eq_iff n m).0 h

pub bytes_eq_comm : (n m : Bytes) → bytes_eq n m ≡ false → bytes_eq m n ≡ false
bytes_eq_comm n m h = elim (Bool-cases (bytes_eq m n)) [
  | inl e ↦
      ground (arith, h, subst (λ z. bytes_eq n z ≡ true) (sym (same_name m n e)) (bytes_eq_refl n))
  | inr e ↦ e
]

pub deletions-Applied :
    (attachments : List Attachment) (assets : List Asset) (v : View) (n : Bytes)
    → apply_updates (deletions attachments assets) v n
      ≡ (if listed n assets && not (named n attachments) then none else v n)
unfolding deletions
deletions-Applied attachments [] v n = refl
deletions-Applied attachments (a ∷ assets) v n = elim (Bool-cases (named a.name attachments)) [
  | inl kept ↦ elim (Bool-cases (bytes_eq n a.name)) [
    | inl e ↦
        let k : named n attachments ≡ true =
          subst (λ z. named z attachments ≡ true) (sym (same_name n a.name e)) kept in
        rw (kept) (deletions-Applied attachments assets v n ∙ rw (k, e) ground arith)
    | inr e ↦ rw (kept, e) (deletions-Applied attachments assets v n)
  ]
  | inr gone ↦ elim (Bool-cases (bytes_eq n a.name)) [
    | inl e ↦
        let k : named n attachments ≡ false =
          subst (λ z. named z attachments ≡ false) (sym (same_name n a.name e)) gone in
        rw (gone) (
          deletions-Applied attachments assets (apply_update (deletion a) v) n
          ∙ rw (k, e) ground arith)
    | inr e ↦
        rw (gone) (
          deletions-Applied attachments assets (apply_update (deletion a) v) n
          ∙ rw (e) ground arith)
  ]
]

pub attached_lem :
    (attachments : List Attachment) (n : Bytes)
    → named n attachments ≡ false
    → attached attachments n ≡ none
unfolding named
attached_lem [] n h = refl
attached_lem (a ∷ attachments) n h = ground (arith, h, attached_lem attachments n)

listed_lem : (assets : List Asset) (n : Bytes) → listed n assets ≡ false → view_of assets n ≡ none
unfolding find_asset
listed_lem [] n h = refl
listed_lem (a ∷ assets) n h = ground (arith, h, listed_lem assets n)

attached-some :
    (attachments : List Attachment) (n : Bytes)
    → named n attachments ≡ true
    → (s : Bytes) × (attached attachments n ≡ some s)
unfolding named
attached-some [] n h = ground (arith, h)
attached-some (a ∷ attachments) n h = elim (Bool-cases (bytes_eq n a.name)) [
  | inl e ↦ (a.sha, rw (e) refl)
  | inr e ↦ let (s, k) = attached-some attachments n (rw e at h) in (s, rw (e) k)
]

pub over-cons :
    (a : Attachment) (attachments : List Attachment) (n : Bytes) (x : Option Bytes)
    → named a.name attachments ≡ false
    → over (attached attachments n) (if bytes_eq n a.name then some a.sha else x)
      ≡ over (attached (a ∷ attachments) n) x
over-cons a attachments n x h = elim (Bool-cases (bytes_eq n a.name)) [
  | inl e ↦
      let k : attached attachments n ≡ none =
        attached_lem attachments n
          (subst (λ z. named z attachments ≡ false) (sym (same_name n a.name e)) h) in
      rw (e, k) refl
  | inr e ↦ rw (e) refl
]

pub unchanged :
    (a : Attachment) (old : Asset) (v : View) (n : Bytes)
    → bytes_eq old.sha256 a.sha ≡ true
    → v a.name ≡ some old.sha256
    → v n ≡ (if bytes_eq n a.name then some a.sha else v n)
unchanged a old v n same h = elim (Bool-cases (bytes_eq n a.name)) [
  | inl e ↦ rw (e) (ap v (same_name n a.name e) ∙ h ∙ ap some (same_name old.sha256 a.sha same))
  | inr e ↦ rw (e) refl
]

pub or-false : (a b : Bool) → (a || b) ≡ false → (a ≡ false) × (b ≡ false)
or-false true b h = ground (arith, h)
or-false false b h = (refl, h)

-- what stays of a name that no attachment has
pub rest :
    (attachments : List Attachment) (assets : List Asset) (n : Bytes)
    → over
        (attached attachments n)
        (if listed n assets && not (named n attachments) then none else view_of assets n)
      ≡ attached attachments n
rest attachments assets n = elim (Bool-cases (named n attachments)) [
  | inl e ↦ let (s, k) = attached-some attachments n e in rw (k) refl
  | inr e ↦ elim (Bool-cases (listed n assets)) [
    | inl l ↦ rw (e, l, attached_lem attachments n e) refl
    | inr l ↦ rw (e, l, attached_lem attachments n e) (listed_lem assets n l)
  ]
]

or_later : (a b : Bool) → b ≡ true → (a || b) ≡ true
or_later true b h = refl
or_later false b h = h

pub gone :
    (assets : List Asset) (n : Bytes)
    → (if listed n assets && true then none else view_of assets n) ≡ none
gone assets n = elim (Bool-cases (listed n assets)) [
  | inl l ↦ rw l refl
  | inr l ↦ rw l (listed_lem assets n l)
]

-- Each of the attachments is named.
pub all_named :
    (all : List Attachment) (Q : Bytes → Type 0)
    → ((m : Bytes) → named m all ≡ true → Q m)
    → (attachments : List Attachment)
    → ((m : Bytes) → named m attachments ≡ true → named m all ≡ true)
    → All (λ a. Q a.name) attachments
unfolding named
all_named all Q q [] h = tt
all_named all Q q (a ∷ attachments) h = (
  q a.name (h a.name (rw (bytes_eq_refl a.name) refl)),
  all_named all Q q attachments (λ m k. h m (or_later (bytes_eq m a.name) (named m attachments) k)),
)

pub kept_named : (a b : Bool) (x : Option Bytes) → b ≡ true → (if a && not b then none else x) ≡ x
kept_named true true x h = refl
kept_named a false x h = ground (arith, h)
kept_named false true x h = refl
