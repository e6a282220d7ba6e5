-- ===== src/Handlers/Tests.antt =====
-- Runs of the handlers, and the properties at concrete inputs.
use gitopia_storage.Prelude.{
  ℕ, ◌≡◌, ◌⊎◌, refl, true, false, none, some, List, [], ◌∷◌, All, if◌then◌else◌,
}
use gitopia_storage.Text.{Bytes, codes, bytes_eq}
use gitopia_storage.Handlers.{
  CidsEvent, Env, process_delete_storage_object, process_proposal_timeout,
  process_delete_repository, counted, unpinned, proposed_delete, polled_delete, verification_failed,
}
use gitopia_storage.Handlers.Unmarshal.{ChallengeEvent}
use gitopia_storage.Handlers.Cids.{
  ErrorOr, Justified, Unpinned, Worked, process_cids-Justified, process_cids-Unpinned,
}
use gitopia_storage.Handlers.Challenge.{Network, Submission, packfile, file_node, process_challenge}
use gitopia_storage.Handlers.Proved.{ProvenFor, process_challenge-ProvenFor}

abbrev env : Env
env = record {
  address = codes "me";
  ref_count = λ cid. some (if bytes_eq cid (codes "used") then 1 else 0);
  unpins = λ cid. true;
  proposes = λ creator id. true;
  confirmed = λ creator id. false;
}

abbrev mine : CidsEvent
mine = record { provider = codes "me"; cids = codes "used" ∷ codes "old" ∷ [] ∷ [] }

abbrev foreign : CidsEvent
foreign = record { provider = codes "you"; cids = codes "old" ∷ [] }

process_cids-Justified_example :
    All (Justified env mine.cids) (process_delete_storage_object env mine).0
    × All (Justified env mine.cids) (process_proposal_timeout env mine).0
    × ((process_delete_storage_object env mine ≡ ([], none)) ⊎ (mine.provider ≡ env.address))
    × ((process_proposal_timeout env mine ≡ ([], none)) ⊎ (mine.provider ≡ env.address))
process_cids-Justified_example = process_cids-Justified env mine

deletes :
    process_delete_storage_object env mine
    ≡ (counted (codes "used") ∷ counted (codes "old") ∷ unpinned (codes "old") ∷ [], none)
unfolding process_delete_storage_object bytes_eq
deletes = refl

-- The empty cid is unpinned as well.
times_out : process_proposal_timeout env mine ≡ (
  counted (codes "used")
      ∷ counted (codes "old")
      ∷ unpinned (codes "old")
      ∷ counted []
      ∷ unpinned []
      ∷ [],
  none,
)
unfolding process_proposal_timeout bytes_eq
times_out = refl

ignored : process_delete_storage_object env foreign ≡ ([], none)
unfolding process_delete_storage_object bytes_eq
ignored = refl

process_cids-Unpinned_example :
    ErrorOr (process_delete_storage_object env mine) (
      All (Unpinned env (process_delete_storage_object env mine).0) mine.cids
      × All (Worked env) mine.cids)
    × ErrorOr
        (process_proposal_timeout env mine)
        (All (Unpinned env (process_proposal_timeout env mine).0) mine.cids)
process_cids-Unpinned_example = process_cids-Unpinned env mine refl

not_confirmed :
    process_delete_repository env
      (record { creator = codes "bob"; repository_id = 4; provider = codes "me" })
    ≡ (
      proposed_delete (codes "bob") 4 ∷ polled_delete (codes "bob") 4 ∷ [],
      some verification_failed,
    )
unfolding process_delete_repository bytes_eq
not_confirmed = refl

-- The hash of a chunk is the chunk, a tree its leaves, the root the first leaf.
abbrev head : List Bytes → Bytes
head [] = []
head (leaf ∷ leaves) = leaf

abbrev network : Network (List Bytes) ℕ
network = record {
  challenge_of = λ id. some (record {
    challenge_type = packfile;
    content_id = 5;
    chunk_index = 0;
    root_hash = codes "data";
  });
  api_works = true;
  cid_of = λ type id. some (codes "cid");
  path_works = λ cid. true;
  get = λ cid.
      some (file_node (record { size = some 4; content = codes "data"; read_fails = λ i. false }));
  trees = record {
    hash = λ chunk. chunk;
    new_tree = λ leaves. some leaves;
    root = head;
    proof_of = λ tree leaf. some 0;
    verify_using = λ leaf p root. some true;
  };
}

abbrev sent : Submission ℕ
sent = record { challenge_id = 9; data_hash = codes "data"; proof = 0 }

-- The event is one of another provider: the handler does not ask whose it is.
abbrev challenge_event : ChallengeEvent
challenge_event = record { challenge_id = 9; provider = codes "you" }

answers : process_challenge network (λ s. none) challenge_event ≡ some (sent ∷ [], none)
unfolding process_challenge bytes_eq
answers = refl

process_challenge-ProvenFor_example : ProvenFor network 9 sent
process_challenge-ProvenFor_example =
    process_challenge-ProvenFor network (λ s. none) challenge_event sent none answers
