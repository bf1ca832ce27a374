-- ===== src/Replication/Upload/Samples.antt =====
-- A toy environment for the tests of worker/replication.py: texts are sealed by their password in
-- front, and the remote side is one object.
use mathlib.Core.Option
use pfsense_backups.Prelude.{
  ◌≡◌, refl, ap, true, false, Option, none, some, [], ◌∷◌, ◌++◌, length, drop,
}
use pfsense_backups.Store.{Bytes, never, remote_missing, Row}
use pfsense_backups.Replication.{ok, raise, ReplicationConfig, s3, Codec, codes}
use pfsense_backups.Replication.Upload.{Target, Disk, Env}

pub drop-append : (front tail : Bytes) → drop (length front) (front ++ tail) ≡ tail
drop-append [] tail = refl
drop-append (c ∷ cs) tail = drop-append cs tail

abbrev pub toy_codec : Codec
toy_codec = record {
  gzip = λ b. 1 ∷ b;
  gunzip = λ b. elim b [ [] ↦ raise remote_missing | c ∷ cs ↦ ok cs ];
  encrypt = λ salt b password. password ++ b;
  decrypt = λ b password. ok (drop (length password) b);
  plausible = λ b. true;
  gunzip-gzip = λ b. refl;
  decrypt-encrypt = λ salt b password p. ap ok (drop-append password b);
}

abbrev pub object_store : Target (Option Bytes)
object_store = record {
  upload = λ key payload s. (ok tt, some payload);
  head_size = λ key s. ok (Option.map length s);
  download = λ key s. elim s [ none ↦ raise remote_missing | some b ↦ ok b ];
}

abbrev pub env : Env (Option Bytes)
env = record {
  codec = toy_codec;
  sha256 = λ b. b;
  salt = [];
  instance_name = λ i. codes "fw";
  target = ok object_store;
}

abbrev pub cfg : ReplicationConfig
cfg = record {
  kind = s3;
  base_path = codes "off";
  encrypt_plaintext = true;
  double_encrypt = false;
  replication_password = some (codes "pw");
  mirror_deletes = false;
}

abbrev pub row : Row
row = record {
  id = 7;
  instance_id = 1;
  path = codes "/d/a.xml.gz";
  filename = codes "a.xml.gz";
  started_at = 5;
  success = true;
  encrypted = false;
  compressed = true;
  size_bytes = 4;
  local_present = true;
  replica_status = never;
  replica_key = none;
  replica_at = none;
  replica_error = none;
  replica_attempts = 0;
  replica_sha256 = none;
}

abbrev pub full_disk : Disk
full_disk path = some (ok (1 ∷ codes "xml"))

abbrev pub no_disk : Disk
no_disk path = none
