-- ===== src/Sync/Tests.antt =====
-- Runs of the synchronisation of references, and the property at a concrete input.
use gitopia_storage.Prelude.{◌≡◌, refl, arith, true, false, none, [], ◌∷◌, All}
use gitopia_storage.Text.{codes, bytes_eq}
use gitopia_storage.Sync.{Git, Ref, Refs, branch, tag, waited, sync_refs_with_update_ref, ref_name}
use gitopia_storage.Sync.Single.{SyncedOr, DistinctRefs}
use gitopia_storage.Sync.Reported.{sync_refs_with_update_ref-SyncedOr}

abbrev main : Ref
main = record { kind = branch; name = codes "main"; sha = codes "aa" }

abbrev v1 : Ref
v1 = record { kind = tag; name = codes "v1"; sha = codes "bb" }

-- Git refuses the tag, so the batch fails.
abbrev no_tag : Git
no_tag = record {
  accepts = λ refs r. bytes_eq r.name (codes "main");
  accepts_batch = λ refs rs. false;
  update_process = λ r. waited;
  batch_process = waited;
  written = 2;
}

abbrev no_refs : Refs
no_refs name = none

-- The pipe breaks after the first command.
abbrev cut_short : Git
cut_short = record {
  accepts = λ refs r. true;
  accepts_batch = λ refs rs. true;
  update_process = λ r. waited;
  batch_process = waited;
  written = 1;
}

distinct : DistinctRefs (main ∷ v1 ∷ [])
unfolding bytes_eq ref_name
distinct = ((refl, tt), (tt, tt))

sync_refs_with_update_ref-SyncedOr_example :
    All (SyncedOr (sync_refs_with_update_ref no_tag no_refs (main ∷ []) (v1 ∷ []))) (main ∷ v1 ∷ [])
    × ((sync_refs_with_update_ref no_tag no_refs (main ∷ []) (v1 ∷ [])).0 (codes "HEAD") ≡ none)
unfolding bytes_eq ref_name
sync_refs_with_update_ref-SyncedOr_example =
    sync_refs_with_update_ref-SyncedOr no_tag no_refs (main ∷ []) (v1 ∷ []) (codes "HEAD") distinct
      (omega arith) (refl, (refl, tt))

reported_tag :
    (sync_refs_with_update_ref no_tag no_refs (main ∷ []) (v1 ∷ [])).1 ≡ codes "tag:v1" ∷ []
unfolding sync_refs_with_update_ref bytes_eq
reported_tag = refl

-- The tag is neither there nor reported.
lost_tag :
    ((sync_refs_with_update_ref cut_short no_refs (main ∷ []) (v1 ∷ [])).0 (codes "refs/tags/v1")
      ≡ none)
    × ((sync_refs_with_update_ref cut_short no_refs (main ∷ []) (v1 ∷ [])).1 ≡ [])
unfolding sync_refs_with_update_ref bytes_eq
lost_tag = (refl, refl)
