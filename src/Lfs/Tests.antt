-- ===== src/Lfs/Tests.antt =====
-- Runs of the LFS server, and the properties at concrete inputs.
use gitopia_storage.Prelude.{
  ◌*◌, arith, ℕ, ◌≡◌, refl, true, false, none, some, List, [], ◌∷◌, ◌++◌, Result, ok, err,
}
use gitopia_storage.Text.{Bytes, codes, bytes_eq}
use gitopia_storage.Lfs.{
  Disk, Faults, LocalStorage, StorageError, object_not_exist, valid_oid, download,
}
use gitopia_storage.Lfs.Http.{response, message_body}
use gitopia_storage.Lfs.Batch.{ObjectRequest, object_path}
use gitopia_storage.Lfs.Store.{Request, upload_all, upload_all-download}
use gitopia_storage.Lfs.Upload.{Services, Put, admit, put_object}
use gitopia_storage.Auth.{AuthError}
use gitopia_storage.Cost.{calculate_storage_cost, whole_gb, float64, round_to, lost_bits}
use gitopia_storage.Lfs.Basic.{parse_path}
use gitopia_storage.Lfs.Hrefs.{parse_path-object_path}
use gitopia_storage.Lfs.Refusals.{done}
use gitopia_storage.Lfs.Stored.{StoredFor, put_object-Stored}

abbrev oid_a : Bytes
oid_a = codes "aaaaaaaaaaaaaaaaaaaaaaaaaaaaaaaaaaaaaaaaaaaaaaaaaaaaaaaaaaaaaaaa"

abbrev local : LocalStorage
local = record { root = codes "/lfs" }

abbrev fine : Faults
fine = record {
  mkdir_fails = false;
  create_fails = false;
  copy_fails = false;
  remove_fails = false;
  stat_fails = false;
  open_fails = false;
}

abbrev full_disk : Faults
full_disk = record {
  mkdir_fails = false;
  create_fails = false;
  copy_fails = true;
  remove_fails = false;
  stat_fails = false;
  open_fails = false;
}

abbrev empty_disk : Disk
empty_disk = λ p. none

-- A good upload and a failed one: the object is gone.
abbrev two_uploads : List Request
two_uploads =
    record { oid = oid_a; content = codes "data"; faults = fine }
    ∷ record { oid = oid_a; content = codes "da"; faults = full_disk }
    ∷ []

valid_oid_a : valid_oid oid_a ≡ true
unfolding valid_oid
valid_oid_a = refl

upload_all-download_example :
    download local fine oid_a (upload_all local two_uploads empty_disk) ≡ err object_not_exist
unfolding bytes_eq
upload_all-download_example =
    upload_all-download local two_uploads oid_a empty_disk fine (refl, (refl, tt)) valid_oid_a refl
      refl refl

abbrev twice : List ObjectRequest
twice = record { oid = oid_a; size = 4 } ∷ record { oid = oid_a; size = 5 } ∷ []

abbrev four : Bytes → Result StorageError ℕ
four = λ oid. ok 4

abbrev services : Services
services = record {
  owner_of = λ id. some (codes "bob");
  storage_used = λ owner. some 10;
  storage_params = some (record {
    free_storage_mb = 1;
    storage_price_per_gb = record { denom = "ulore"; amount = 5 };
  });
  balance = λ owner denom. none;
  dec_mul = λ gb price. 0;
  pin_file = λ path. some (codes "cid");
  root_of = λ content. some (codes "root");
  object_known = λ id oid. false;
  proposes = λ p. true;
  confirmed = λ p. true;
}

abbrev put : Put
put = record {
  path = codes "/3.git/info/lfs/objects/basic/" ++ oid_a;
  header = some (codes "Basic Ong=");
  content_length = some 4;
  content = codes "data";
}

abbrev validated : Bytes → Result AuthError Bytes
validated user = ok user

accepted :
    (put_object (λ path password. ok (codes "bob")) services local fine put empty_disk).0 ≡ done
unfolding put_object calculate_storage_cost bytes_eq
accepted = refl

put_object-Stored_example :
    (user : Bytes) × (validated (codes "bob") ≡ ok user)
    × StoredFor services local put user
        (put_object (λ path password. ok (codes "bob")) services local fine put empty_disk)
put_object-Stored_example =
    put_object-Stored (λ path password. ok (codes "bob")) services local fine put empty_disk
      accepted

parse_path-object_path_example :
    parse_path (object_path 12 ++ (codes "/" ++ oid_a)) ≡ ok (12, oid_a)
parse_path-object_path_example = parse_path-object_path 12 oid_a (omega arith) valid_oid_a

-- An upload of unknown length asks for no charge of an owner within the free storage.
abbrev priced : Services
priced = record {
  owner_of = λ id. some (codes "bob");
  storage_used = λ owner. some 10;
  storage_params = some (record {
    free_storage_mb = 1;
    storage_price_per_gb = record { denom = "ulore"; amount = 5 };
  });
  balance = λ owner denom. some 0;
  dec_mul = λ gb price. gb * price;
  pin_file = λ path. none;
  root_of = λ content. none;
  object_known = λ id oid. false;
  proposes = λ p. true;
  confirmed = λ p. true;
}

unknown_length : admit priced 3 none ≡ ok tt
unfolding admit calculate_storage_cost whole_gb float64 round_to lost_bits
unknown_length = refl

known_length :
    admit priced 3 (some 5000000000)
    ≡ err (response 402 (message_body "insufficient balance for storage charge"))
unfolding admit calculate_storage_cost whole_gb float64 round_to lost_bits
known_length = refl
