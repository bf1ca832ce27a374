-- ===== src/Replication/Payload.antt =====
-- worker/replication.py: what leaves the host, and that it comes back.
use pfsense_backups.Prelude.{
  ◌≡◌, refl, ◌∙◌, ◌≢◌, inl, inr, Bool, true, false, some, [], ◌++◌, arith, Bool-cases,
  if◌then◌else◌,
}
use pfsense_backups.Store.{Text, Bytes}
use pfsense_backups.Replication.{
  Outcome, ok, raise, ◌>>=◌, ReplicationConfig, Codec, codes, ends_with, xml, enc, double,
  object_key, need_password, unwrapped, prepare_payload, undo_payload,
}
use pfsense_backups.Replication.Suffix.{
  stem, object_key-stem, double-double, enc-enc, double-xml, enc-xml, double-enc,
}

-- A password that is set, and not empty.
pub record HasPassword (cfg : ReplicationConfig) (password : Text) : Type 0 where
  pub configured : cfg.replication_password ≡ some password
  pub filled : password ≢ []

need_password-HasPassword :
    (cfg : ReplicationConfig) (password : Text)
    → need_password cfg ≡ ok password
    → HasPassword cfg password
unfolding need_password
need_password-HasPassword cfg password e = record {
  configured = ground arith;
  filled = ground arith;
}

module _ (codec : Codec) where
  open codec use {gzip, gunzip, encrypt, decrypt, plausible}

  abbrev seal : Bytes → Bytes → Outcome Text → Text → Outcome (Bytes × Text)
  seal salt blob n suffix = n >>= λ password. ok (encrypt salt blob password, suffix)

  seal-eq-ok :
      (salt blob : Bytes) (n : Outcome Text) (layout : Text) (payload : Bytes) (suffix : Text)
      → seal salt blob n layout ≡ ok (payload, suffix)
      → (password : Text) × (n ≡ ok password)
        × (payload ≡ encrypt salt blob password)
        × (suffix ≡ layout)
  seal-eq-ok salt blob (ok password) layout payload suffix e = (password, refl, cc, cc)
  seal-eq-ok salt blob (raise p) layout payload suffix e = cc

  -- A plaintext backup leaves the host only under the replication password: with
  -- `encrypt_plaintext` on, the payload is the encryption of the unwrapped file under a password
  -- that is configured and not empty, and the suffix says so.
  pub prepare_payload-IsSealed :
      (salt raw : Bytes) (compressed : Bool) (cfg : ReplicationConfig) (payload : Bytes)
      (suffix : Text)
      → cfg.encrypt_plaintext ≡ true
      → prepare_payload codec salt raw false compressed cfg ≡ ok (payload, suffix)
      → (blob : Bytes) × (password : Text) × (unwrapped codec compressed raw ≡ ok blob)
        × HasPassword cfg password
        × (payload ≡ encrypt salt blob password)
        × (suffix ≡ enc)
  unfolding prepare_payload
  prepare_payload-IsSealed salt raw compressed cfg payload suffix on e =
      sealed (unwrapped codec compressed raw) refl (need_password cfg) refl (rw on at e)
    where
      sealed :
          (u : Outcome Bytes)
          → unwrapped codec compressed raw ≡ u
          → (n : Outcome Text) → need_password cfg ≡ n
          → (u >>= λ blob. seal salt blob n enc) ≡ ok (payload, suffix)
          → (blob : Bytes) × (password : Text) × (unwrapped codec compressed raw ≡ ok blob)
            × HasPassword cfg password
            × (payload ≡ encrypt salt blob password)
            × (suffix ≡ enc)
      sealed (ok blob) eu (ok password) en r =
          (blob, password, eu, need_password-HasPassword cfg password en, cc, cc)
      sealed (ok blob) eu (raise p) en r = cc
      sealed (raise p) eu n en r = cc

  wrap-unwrapped :
      (compressed : Bool) (blob : Bytes)
      → unwrapped codec compressed (if compressed then gzip blob else blob) ≡ ok blob
  wrap-unwrapped true blob = codec.gunzip-gzip blob
  wrap-unwrapped false blob = refl

  -- Undoing under a name that ends in one of the three suffixes.
  undo-double :
      (front blob salt password : Text) (encrypted compressed : Bool) (cfg : ReplicationConfig)
      → need_password cfg ≡ ok password
      → plausible blob ≡ true
      → undo_payload codec (encrypt salt blob password) (front ++ double) encrypted compressed cfg
        ≡ ok (if compressed then gzip blob else blob)
  unfolding undo_payload
  undo-double front blob salt password encrypted compressed cfg n p =
      rw (double-double front) (rw n (rw (codec.decrypt-encrypt salt blob password p)))

  undo-enc_sealed :
      (front blob salt password : Text) (compressed : Bool) (cfg : ReplicationConfig)
      → need_password cfg ≡ ok password
      → plausible blob ≡ true
      → undo_payload codec (encrypt salt blob password) (front ++ enc) false compressed cfg
        ≡ ok (if compressed then gzip blob else blob)
  unfolding undo_payload
  undo-enc_sealed front blob salt password compressed cfg n p =
      rw (enc-enc front) (elim (Bool-cases (ends_with double (front ++ enc))) [
        | inl e ↦ rw e (rw n (rw (codec.decrypt-encrypt salt blob password p)))
        | inr e ↦ rw e (rw n (rw (codec.decrypt-encrypt salt blob password p)))
      ])

  undo-enc_as_is :
      (front blob : Text) (compressed : Bool) (cfg : ReplicationConfig)
      → ends_with (codes ".2x") front ≡ false
      → undo_payload codec blob (front ++ enc) true compressed cfg
        ≡ ok (if compressed then gzip blob else blob)
  unfolding undo_payload
  undo-enc_as_is front blob compressed cfg single =
      rw (double-enc front ∙ single) (rw (enc-enc front))

  undo-xml :
      (front blob : Text) (encrypted compressed : Bool) (cfg : ReplicationConfig)
      → undo_payload codec blob (front ++ xml) encrypted compressed cfg
        ≡ ok (if compressed then gzip blob else blob)
  unfolding undo_payload
  undo-xml front blob encrypted compressed cfg = rw (double-xml front) (rw (enc-xml front))

  -- What `undo_payload` makes of a prepared payload, whose contents are `blob`.
  undo-prepared :
      (front salt raw blob : Text) (encrypted compressed : Bool) (cfg : ReplicationConfig)
      (payload : Bytes) (suffix : Text)
      → prepare_payload codec salt raw encrypted compressed cfg ≡ ok (payload, suffix)
      → unwrapped codec compressed raw ≡ ok blob
      → plausible blob ≡ true
      → ends_with (codes ".2x") front ≡ false
      → undo_payload codec payload (front ++ suffix) encrypted compressed cfg
        ≡ ok (if compressed then gzip blob else blob)
  unfolding prepare_payload
  undo-prepared front salt raw blob true compressed cfg payload suffix e u p single =
      elim (Bool-cases cfg.double_encrypt) [
        | inl on ↦
            let (password, n, pe, se) =
              seal-eq-ok salt blob (need_password cfg) double payload suffix (rw (u, on) at e) in
            rw (pe, se) (undo-double front blob salt password true compressed cfg n p)
        | inr off ↦
            let r : ok (blob, enc) ≡ ok (payload, suffix) = rw (u, off) at e in
            let pe : payload ≡ blob = cc in
            let se : suffix ≡ enc = cc in
            rw (pe, se) (undo-enc_as_is front blob compressed cfg single)
      ]
  undo-prepared front salt raw blob false compressed cfg payload suffix e u p single =
      elim (Bool-cases cfg.encrypt_plaintext) [
        | inl on ↦
            let (password, n, pe, se) =
              seal-eq-ok salt blob (need_password cfg) enc payload suffix (rw (u, on) at e) in
            rw (pe, se) (undo-enc_sealed front blob salt password compressed cfg n p)
        | inr off ↦
            let r : ok (blob, xml) ≡ ok (payload, suffix) = rw (u, off) at e in
            let pe : payload ≡ blob = cc in
            let se : suffix ≡ xml = cc in rw (pe, se) (undo-xml front blob false compressed cfg)
      ]

  -- A replica comes back: from a prepared payload, under its object key, the undoing returns a file
  -- in the row's on-disk shape with the same contents. The contents are plausible as a pfSense
  -- configuration, and the stem of the key does not itself end in `.2x`.
  pub undo_payload-prepare_payload :
      (salt raw blob : Bytes) (encrypted compressed : Bool) (cfg : ReplicationConfig)
      (instance_name filename payload suffix : Text)
      → prepare_payload codec salt raw encrypted compressed cfg ≡ ok (payload, suffix)
      → unwrapped codec compressed raw ≡ ok blob
      → plausible blob ≡ true
      → ends_with (codes ".2x") (stem cfg instance_name filename) ≡ false
      → (out : Bytes) × (undo_payload codec payload
            (object_key cfg instance_name filename suffix)
            encrypted
            compressed
            cfg
          ≡ ok out)
        × (unwrapped codec compressed out ≡ ok blob)
  undo_payload-prepare_payload salt raw blob encrypted compressed cfg instance_name filename payload
        suffix e u p single =
      let front = stem cfg instance_name filename in
      (
        if compressed then gzip blob else blob,
        rw (object_key-stem cfg instance_name filename suffix) (
            undo-prepared front salt raw blob encrypted compressed cfg payload suffix e u p single),
        wrap-unwrapped compressed blob,
      )
