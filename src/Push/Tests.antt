-- ===== src/Push/Tests.antt =====
-- A push at concrete answers, and the properties there.
use gitopia_storage.Prelude.{ℕ, ◌≡◌, ◌*◌, refl, true, false, none, some, List, [], ◌∷◌, ok, err}
use gitopia_storage.Text.{Bytes, codes, bytes_eq}
use gitopia_storage.App.{failed}
use gitopia_storage.Cost.{whole_gb, float64, round_to, lost_bits}
use gitopia_storage.Handlers.Challenge.{file_node}
use gitopia_storage.Auth.{parse_repository_id_from_uri}
use gitopia_storage.Server.{GitRequest, receive_pack}
use gitopia_storage.Push.{Env, collected, handle_git_receive_pack, insufficient_balance, removed}
use gitopia_storage.Push.Proposed.{Settled, receive_pack-Settled}
use gitopia_storage.Push.Answers.{Outcome, post_rpc-Outcome}
use gitopia_storage.Push.Rpc.{Git, pack_line, post_rpc, run_service, finish, sub_command}

-- The owner has this much, and pays 5 for each GB.
abbrev env : ℕ → Env (List Bytes) Bytes
env amount = record {
  pending = λ id address. failed (codes "packfile update proposal not found");
  gc_works = λ path. true;
  walk = λ path. some (
      record { path = codes "/r/a.pack"; name = codes "a.pack"; is_dir = false }
      ∷ record { path = codes "/r/b.idx"; name = codes "b.idx"; is_dir = false }
      ∷ []);
  file_size = λ path. some (3 * 1024 * 1024 * 1024);
  owner_of = λ id. some (codes "al");
  packfile = λ id. some (1024, codes "old");
  storage_used = λ owner. some 1024;
  storage_params = some (record {
    free_storage_mb = 0;
    storage_price_per_gb = record { denom = "ulore"; amount = 5 };
  });
  balance = λ owner denom. some amount;
  dec_mul = λ a b. a * b;
  pin_file = λ path. some (codes "new");
  api_works = true;
  path_works = λ cid. true;
  get = λ cid.
      some (file_node (record { size = some 2; content = codes "xy"; read_fails = λ at. false }));
  trees = record {
    hash = λ s. s;
    new_tree = λ hs. some hs;
    root = λ t. codes "root";
    proof_of = λ t h. some h;
    verify_using = λ a b c. some true;
  };
  proposes = λ p. true;
  confirmed = λ id address. true;
}

rich : (handle_git_receive_pack (env 14) (codes "bo") 3 (codes "/r")).1 ≡ ok tt
unfolding handle_git_receive_pack whole_gb float64 round_to lost_bits
rich = refl

poor :
    handle_git_receive_pack (env 9) (codes "bo") 3 (codes "/r")
    ≡ (collected (codes "/r") ∷ removed (codes "/r") ∷ [], err insufficient_balance)
unfolding handle_git_receive_pack whole_gb float64 round_to lost_bits
poor = refl

receive_pack-Settled_example :
    Settled
      (env 14)
      (codes "bo")
      3
      (codes "/r")
      (handle_git_receive_pack (env 14) (codes "bo") 3 (codes "/r"))
receive_pack-Settled_example = receive_pack-Settled (env 14) (codes "bo") 3 (codes "/r")

abbrev git : Git
git = record {
  caches = λ id. true;
  advertises = λ command. record {
    created = true;
    started = true;
    output = [];
    copied = true;
    exits = true;
  };
  serves = λ command. record {
    created = true;
    started = true;
    output = codes "0000";
    copied = true;
    exits = true;
  };
  reads_body = true;
}

abbrev pushing : GitRequest
pushing = record { repo_name = codes "3.git"; repo_path = codes "/r"; address = codes "bo" }

-- The owner cannot pay, and the push is answered with 200.
unpaid :
    (post_rpc (env 9) git receive_pack pushing (codes "/3.git/git-receive-pack") none).1
    ≡ record { status = 200; body = codes "0000Internal server error\n" }
unfolding post_rpc run_service finish sub_command parse_repository_id_from_uri bytes_eq
    handle_git_receive_pack whole_gb float64 round_to lost_bits
unpaid = refl

post_rpc-Outcome_example :
    Outcome
      (env 9)
      git
      pushing
      (codes "/3.git/git-receive-pack")
      (post_rpc (env 9) git receive_pack pushing (codes "/3.git/git-receive-pack") none)
post_rpc-Outcome_example =
    post_rpc-Outcome (env 9) git pushing (codes "/3.git/git-receive-pack") none

pack_line_test :
    pack_line (codes "# service=git-upload-pack\n") ≡ codes "001e# service=git-upload-pack\n"
unfolding pack_line
pack_line_test = refl
