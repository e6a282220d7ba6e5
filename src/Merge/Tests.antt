-- ===== src/Merge/Tests.antt =====
-- Merges at concrete answers, and the properties there.
use gitopia_storage.Prelude.{
  ℕ, ◌*◌, ◌≡◌, refl, arith, true, false, none, some, List, [], ◌∷◌, ok, ◌==◌, if◌then◌else◌,
}
use gitopia_storage.Text.{Bytes, codes, bytes_eq}
use gitopia_storage.App.{failed}
use gitopia_storage.Handlers.Challenge.{file_node}
use gitopia_storage.Push.{Env}
use gitopia_storage.Merge.Unmarshal.{InvokeMergePullRequestEvent}
use gitopia_storage.Merge.Quarantine.{PullRequest}
use gitopia_storage.Merge.Process.{Network, process_merge}
use gitopia_storage.Merge.Proposed.{Merged, process_merge-Merged}
use gitopia_storage.Merge.Crossed.{Deadlocked, Reach, Two, crossed_merges-Deadlocked, nothing_held}

abbrev storage : Env (List Bytes) Bytes
storage = record {
  pending = λ id address. failed [];
  gc_works = λ path. true;
  walk = λ path.
      some (record { path = codes "/r/a.pack"; name = codes "a.pack"; is_dir = false } ∷ []);
  file_size = λ path. some 9;
  owner_of = λ id. some (codes "al");
  packfile = λ id. some (5, codes "old");
  storage_used = λ owner. some 5;
  storage_params = some (record {
    free_storage_mb = 0;
    storage_price_per_gb = record { denom = "ulore"; amount = 0 };
  });
  balance = λ owner denom. none;
  dec_mul = λ a b. a * b;
  pin_file = λ path. some (codes "new");
  api_works = true;
  path_works = λ cid. true;
  get = λ cid.
      some (file_node (record { size = some 1; content = codes "x"; read_fails = λ at. false }));
  trees = record {
    hash = λ s. s;
    new_tree = λ hs. some hs;
    root = λ t. codes "root";
    proof_of = λ t h. some h;
    verify_using = λ a b c. some true;
  };
  proposes = λ p. true;
  confirmed = λ id address. true;
}

abbrev pull : ℕ → ℕ → PullRequest
pull base head = record {
  iid = 1;
  creator = codes "bo";
  base_id = base;
  base_branch = codes "main";
  head_id = head;
  head_branch = codes "fix";
}

-- The first pull request goes from 2 into 1, and the second one back.
abbrev network : Network (List Bytes) Bytes
network = record {
  address = codes "me";
  pull_request = λ id iid. some (if id == 1 then pull 1 2 else pull 2 1);
  cache_dir = codes "/c";
  caches = λ id. true;
  repository_name = λ id. some (codes "lib");
  git = record { works = λ s. true; merge_head = false; unrelated = false; rebase_head = false };
  commit_sha = some (codes "abc");
  storage = storage;
  rollback_works = true;
}

abbrev invoked : ℕ → InvokeMergePullRequestEvent
invoked id = record {
  creator = codes "al";
  repository_id = id;
  pull_request_iid = 1;
  provider = codes "me";
}

merged : process_merge network (invoked 1) ≡ ((process_merge network (invoked 1)).0, ok tt)
unfolding process_merge
merged = refl

process_merge-Merged_example : Merged network (invoked 1) (process_merge network (invoked 1)).0
unfolding bytes_eq
process_merge-Merged_example =
    process_merge-Merged network (invoked 1) (process_merge network (invoked 1)).0 refl merged

crossed_merges-Deadlocked_example :
    (t : Two) × Reach
      (record {
        left = (process_merge network (invoked 1)).0;
        right = (process_merge network (invoked 2)).0;
        held = nothing_held;
      })
      t
    × Deadlocked t
unfolding bytes_eq
crossed_merges-Deadlocked_example =
    crossed_merges-Deadlocked network (invoked 1) (invoked 2) (pull 1 2) (pull 2 1) refl refl refl
      refl refl refl (λ e. ground (arith, e))
