-- ===== src/Release/Tests.antt =====
-- A release at concrete answers, and its property there.
use gitopia_storage.Prelude.{
  ◌≡◌, refl, arith, sym, ap, ◌∙◌, some-inj, Bool-cases, inl, inr, drop, true, false, some, List, [],
  ◌∷◌, ◌++◌,
}
use gitopia_storage.Text.{Bytes, codes, bytes_eq}
use gitopia_storage.App.{answered}
use gitopia_storage.Release.{
  Asset, Attachment, Env, ReleaseEvent, calculate_merkle_root, existing_assets, file_path,
  find_asset, named, process_release, update_release,
}
use gitopia_storage.Release.View.{apply_updates, view_of}
use gitopia_storage.Release.Changes.{Works}
use gitopia_storage.Release.Applied.{process_release-Applied, proposal_in}

-- The cid of a file is its path.
abbrev env : Env (List Bytes) Bytes
env = record {
  address = codes "me";
  attachment_dir = codes "/a";
  assets = λ id tag. answered (
      record { name = codes "app"; cid = codes "/a/1"; sha256 = codes "1" }
      ∷ record { name = codes "doc"; cid = codes "/a/2"; sha256 = codes "2" }
      ∷ []);
  iterate = λ assets. assets;
  pin_file = λ path. some path;
  open_file =
      λ path. some (record { size = some 1; content = codes "x"; read_fails = λ at. false });
  trees = record {
    hash = λ s. s;
    new_tree = λ hs. some hs;
    root = λ t. codes "root";
    proof_of = λ t h. some h;
    verify_using = λ a b c. some true;
  };
  proposes = λ creator id tag updates. true;
}

-- The application changes, and the documentation goes.
abbrev event : ReleaseEvent
event = record {
  creator = codes "al";
  repository_id = 1;
  repository_owner_id = codes "al";
  tag = codes "v1";
  attachments = record { name = codes "app"; sha = codes "3"; size = 4 } ∷ [];
  provider = codes "me";
}

abbrev known : List Asset
known =
    record { name = codes "app"; cid = codes "/a/1"; sha256 = codes "1" }
    ∷ record { name = codes "doc"; cid = codes "/a/2"; sha256 = codes "2" }
    ∷ []

-- A cid determines its digest.
same_digest :
    (a old : Asset) (sha : Bytes)
    → a.cid ≡ codes "/a/" ++ a.sha256
    → a ≡ old
    → codes "/a/" ++ sha ≡ old.cid
    → old.sha256 ≡ sha
same_digest a old sha h e k =
    sym (ap (drop 3) (k ∙ ap (λ z. z.cid) (sym e) ∙ h ∙ ap (λ z. codes "/a/" ++ z.sha256) e))

same_path :
    (name sha : Bytes) (old : Asset)
    → find_asset name known ≡ some old
    → file_path env sha ≡ old.cid
    → old.sha256 ≡ sha
unfolding find_asset file_path
same_path name sha old h k = elim (Bool-cases (bytes_eq name (codes "app"))) [
  | inl e ↦
      same_digest (record { name = codes "app"; cid = codes "/a/1"; sha256 = codes "1" }) old sha
        refl (some-inj (rw e at h)) k
  | inr e ↦ elim (Bool-cases (bytes_eq name (codes "doc"))) [
    | inl f ↦
        same_digest (record { name = codes "doc"; cid = codes "/a/2"; sha256 = codes "2" }) old sha
          refl (some-inj (rw (e, f) at h)) k
    | inr f ↦ ground (arith, rw (e, f) at h)
  ]
]

root_lem : (a : Attachment) → calculate_merkle_root env a ≡ some (codes "root")
unfolding calculate_merkle_root
root_lem a = refl

pins_lem : (sha : Bytes) → env.pin_file (file_path env sha) ≡ some (file_path env sha)
pins_lem sha = refl

works : Works env known
works = record {
  cid_of = λ sha. file_path env sha;
  root_of = λ a. codes "root";
  pins = pins_lem;
  roots = root_lem;
  identifies = same_path;
}

process_release-Applied_example :
    apply_updates
      (proposal_in (process_release env update_release event).0)
      (view_of known)
      (codes "app")
    ≡ some (codes "3")
unfolding existing_assets named bytes_eq
process_release-Applied_example =
    process_release-Applied env update_release event known (codes "app") refl refl works (refl, tt)
      (λ m. refl)
