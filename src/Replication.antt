-- ===== src/Replication.antt =====
-- worker/replication.py: the payload of an off-site copy and its name.
pub mod Suffix
pub mod Payload
pub mod Backoff
pub mod Upload
pub mod Sweep
pub mod Verify
pub mod Retrieve
use pfsense_backups.Prelude.{
  ℕ, ◌-◌, Bool, true, false, Option, none, some, List, [], ◌∷◌, ◌++◌, ◌≡◌, ◌&&◌, ◌==◌, length, take,
  drop, if◌then◌else◌, not, String,
}
use mathlib.Core.List.{reverse}
use Prim.Native.Char.{code}
use Prim.Native.String
use pfsense_backups.Store.{Text, Bytes, Problem, no_password, transport}

-- What replication raises.
pub data Outcome {ℓ} (A : Type ℓ) : Type ℓ where
  ok : A → Outcome A
  raise : Problem → Outcome A

infixl 5 ◌>>=◌
abbrev pub ◌>>=◌ {ℓ κ} : {A : Type ℓ} {B : Type κ} → Outcome A → (A → Outcome B) → Outcome B
ok a >>= f = f a
raise e >>= f = raise e

-- The code points of a literal.
abbrev pub codes : String → Text
codes String.[] = []
codes (String.◌∷◌ c s) = code c ∷ codes s

pub data Kind : Type 0 where
  s3 sftp : Kind

-- The fields of `ReplicationConfig` that the code outside the transports reads.
pub record ReplicationConfig : Type 0 where
  pub kind : Kind
  pub base_path : Text
  pub encrypt_plaintext : Bool
  pub double_encrypt : Bool
  pub replication_password : Option Text
  pub mirror_deletes : Bool

-- gzip of the standard library, and the two functions of pfsense_shared/pfsense_crypto.py with the
-- state of the random source as an argument; Crypto/Sealed.antt has an instance. `plausible` is what its decryption accepts as a plaintext.
pub record Codec : Type 0 where
  pub gzip : Bytes → Bytes
  pub gunzip : Bytes → Outcome Bytes
  pub encrypt : Bytes → Bytes → Text → Bytes
  pub decrypt : Bytes → Text → Outcome Bytes
  pub plausible : Bytes → Bool
  pub gunzip-gzip : (b : Bytes) → gunzip (gzip b) ≡ ok b
  pub decrypt-encrypt :
      (salt b : Bytes) (password : Text)
      → plausible b ≡ true
      → decrypt (encrypt salt b password) password ≡ ok b

-- `if not cfg.replication_password: raise`
unfoldable pub need_password : ReplicationConfig → Outcome Text
need_password cfg = elim cfg.replication_password [
  | none ↦ raise no_password
  | some [] ↦ raise no_password
  | some (c ∷ cs) ↦ ok (c ∷ cs)
]

abbrev pub starts_with : Text → Text → Bool
starts_with [] text = true
starts_with (c ∷ cs) [] = false
starts_with (c ∷ cs) (d ∷ ds) = c == d && starts_with cs ds

-- `text.endswith(suffix)`
unfoldable pub ends_with : Text → Text → Bool
ends_with suffix text = starts_with (reverse suffix) (reverse text)

-- `if base.endswith(ext): base = base[: -len(ext)]`
unfoldable pub strip_suffix : Text → Text → Text
unfolding ends_with
strip_suffix ext base = if ends_with ext base then take (length base - length ext) base else base

abbrev pub xml : Text
xml = codes ".xml"

abbrev pub enc : Text
enc = codes ".xml.enc"

abbrev pub double : Text
double = codes ".2x.xml.enc"

module _ (codec : Codec) where
  open codec use {gzip, gunzip, encrypt, decrypt}

  abbrev pub unwrapped : Bool → Bytes → Outcome Bytes
  unwrapped compressed raw = if compressed then gunzip raw else ok raw

  -- The payload and the suffix that describes it.
  unfoldable pub prepare_payload :
      Bytes → Bytes → Bool → Bool → ReplicationConfig → Outcome (Bytes × Text)
  unfolding need_password
  prepare_payload salt raw true compressed cfg = unwrapped compressed raw >>= λ blob.
      if cfg.double_encrypt
      then (need_password cfg >>= λ password. ok (encrypt salt blob password, double))
      else ok (blob, enc)
  prepare_payload salt raw false compressed cfg = unwrapped compressed raw >>= λ xml_bytes.
      if cfg.encrypt_plaintext
      then (need_password cfg >>= λ password. ok (encrypt salt xml_bytes password, enc))
      else ok (xml_bytes, xml)

  -- Bytes to write back to the row's local path.
  unfoldable pub undo_payload : Bytes → Text → Bool → Bool → ReplicationConfig → Outcome Bytes
  unfolding need_password ends_with
  undo_payload payload key row_encrypted row_compressed cfg =
      let stripped = need_password cfg >>= λ password. decrypt payload password in
      (if ends_with double key
        then stripped
        else if ends_with enc key && not row_encrypted
        then stripped
        else ok payload)
      >>= λ blob. ok (if row_compressed then gzip blob else blob)

-- `f"{cfg.base_path}/{instance_name}/{base}{suffix}"`
unfoldable pub object_key : ReplicationConfig → Text → Text → Text → Text
unfolding strip_suffix
object_key cfg instance_name filename suffix =
    let base = strip_suffix xml (strip_suffix (codes ".gz") filename) in
    cfg.base_path ++ (codes "/" ++ (instance_name ++ (codes "/" ++ (base ++ suffix))))
