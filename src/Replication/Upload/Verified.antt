-- ===== src/Replication/Upload/Verified.antt =====
-- What one upload attempt of worker/replication.py leaves behind.
use pfsense_backups.Prelude.{
  ℕ, ◌≡◌, refl, ap, ◌∙◌, inl, inr, true, Option, none, some, arith, ==_iff, length, Bool-cases,
}
use pfsense_backups.Store.{Text, Bytes, pruned, Row}
use pfsense_backups.Store.Laws.{KeepsId}
use pfsense_backups.Replication.{Outcome, ok, raise, ReplicationConfig, prepare_payload, object_key}
use pfsense_backups.Replication.Upload.{
  Target, Disk, Env, Attempt, skip, fail, uploaded, check_size, after_upload, send, ship,
  read_and_ship, attempt, mark,
}

pub mark-KeepsId : (now : ℕ) (a : Attempt) → KeepsId (mark now a)
unfolding mark
mark-KeepsId now skip r = refl
mark-KeepsId now (fail p) r = refl
mark-KeepsId now (uploaded key sha) r = refl

-- An object that was verified: the object's name is the one that the row's data make, its digest is
-- the payload's, and the remote size is the payload's.
pub record IsVerified {S : Type 0} (env : Env S) (cfg : ReplicationConfig) (disk : Disk) (row : Row)
    (key sha : Text) (s : S) : Type 0 where
  pub raw : Bytes
  pub payload : Bytes
  pub suffix : Text
  pub present : row.local_present ≡ true
  pub on_disk : disk row.path ≡ some (ok raw)
  pub prepared :
      prepare_payload env.codec env.salt raw row.encrypted row.compressed cfg ≡ ok (payload, suffix)
  pub named : key ≡ object_key cfg (env.instance_name row.instance_id) row.filename suffix
  pub digest : sha ≡ env.sha256 payload
  pub target : Target S
  pub reached : env.target ≡ ok target
  pub sized : target.head_size key s ≡ ok (some (length payload))

-- The upload itself: the call of `upload` with that payload and that name took the remote side from
-- `s` to `s'` and returned.
pub record IsUploaded {S : Type 0} (env : Env S) (cfg : ReplicationConfig) (disk : Disk) (row : Row)
    (key sha : Text) (s s' : S) : Type 0 where
  pub verified : IsVerified env cfg disk row key sha s'
  pub sent : verified.target.upload key verified.payload s ≡ (ok tt, s')

-- `check_size` passes only what has the size that was sent.
check_size-uploaded :
    (key sha : Text) (n : ℕ) (o : Outcome (Option ℕ)) (k h : Text)
    → check_size key sha n o ≡ uploaded k h
    → (k ≡ key) × (h ≡ sha) × (o ≡ ok (some n))
unfolding check_size
check_size-uploaded key sha n (raise p) k h e = cc
check_size-uploaded key sha n (ok none) k h e = cc
check_size-uploaded key sha n (ok (some size)) k h e = ground (arith, ==_iff size n)

module _ {S : Type 0} (env : Env S) where
  -- What a successful call of `send` shows of the target.
  abbrev Sent : Outcome (Target S) → Text → Bytes → Text → Text → S → S → Type 0
  Sent target key payload k sha s s' =
      (t : Target S) × (target ≡ ok t)
      × (k ≡ key)
      × (sha ≡ env.sha256 payload)
      × (t.upload key payload s ≡ (ok tt, s'))
      × (t.head_size key s' ≡ ok (some (length payload)))

  after_upload-Sent :
      (t : Target S) (key payload : Bytes) (r : Outcome (Unit {0}) × S) (before s' : S)
      (k sha : Text)
      → t.upload key payload before ≡ r
      → after_upload env t key payload r ≡ (uploaded k sha, s')
      → Sent (ok t) key payload k sha before s'
  unfolding after_upload
  after_upload-Sent t key payload (raise p, s) before s' k sha u e = cc
  after_upload-Sent t key payload (ok tt, s) before s' k sha u e =
      let same : s ≡ s' = cc in
      let (ek, eh, eo) =
        check_size-uploaded key (env.sha256 payload) (length payload) (t.head_size key s) k sha
          cc in
      (t, refl, ek, eh, u ∙ ap (λ x. (ok tt, x)) same, rw same at eo)

  send-Sent :
      (target : Outcome (Target S)) (key payload : Bytes) (s s' : S) (k sha : Text)
      → send env target key payload s ≡ (uploaded k sha, s')
      → Sent target key payload k sha s s'
  unfolding send
  send-Sent (raise p) key payload s s' k sha e = cc
  send-Sent (ok t) key payload s s' k sha e =
      after_upload-Sent t key payload (t.upload key payload s) s s' k sha refl e

  module _ (cfg : ReplicationConfig) (disk : Disk) (row : Row) where
    ship-IsUploaded :
        (raw : Bytes) (o : Outcome (Bytes × Text)) (s s' : S) (key sha : Text)
        → row.local_present ≡ true
        → disk row.path ≡ some (ok raw)
        → prepare_payload env.codec env.salt raw row.encrypted row.compressed cfg ≡ o
        → ship env cfg row o s ≡ (uploaded key sha, s')
        → IsUploaded env cfg disk row key sha s s'
    unfolding ship
    ship-IsUploaded raw (raise p) s s' key sha here_ file prep e = cc
    ship-IsUploaded raw (ok (payload, suffix)) s s' key sha here_ file prep e =
        let name = object_key cfg (env.instance_name row.instance_id) row.filename suffix in
        let (t, reached, named, digest, sent, sized) =
          send-Sent env.target name payload s s' key sha e in
        record {
          verified = record {
            raw = raw;
            payload = payload;
            suffix = suffix;
            present = here_;
            on_disk = file;
            prepared = prep;
            named = named;
            digest = digest;
            target = t;
            reached = reached;
            sized = rw named sized;
          };
          sent = rw named sent;
        }

    read_and_ship-IsUploaded :
        (f : Option (Outcome Bytes)) (s s' : S) (key sha : Text)
        → row.local_present ≡ true
        → disk row.path ≡ f
        → read_and_ship env cfg row f s ≡ (uploaded key sha, s')
        → IsUploaded env cfg disk row key sha s s'
    unfolding read_and_ship
    read_and_ship-IsUploaded none s s' key sha here_ file e = cc
    read_and_ship-IsUploaded (some (raise p)) s s' key sha here_ file e = cc
    read_and_ship-IsUploaded (some (ok raw)) s s' key sha here_ file e =
        ship-IsUploaded raw
          (prepare_payload env.codec env.salt raw row.encrypted row.compressed cfg) s s' key sha
          here_ file refl e

    pub attempt-IsUploaded :
        (s s' : S) (key sha : Text)
        → attempt env cfg disk row s ≡ (uploaded key sha, s')
        → IsUploaded env cfg disk row key sha s s'
    unfolding attempt
    attempt-IsUploaded s s' key sha e = elim (Bool-cases row.local_present) [
      | inl yes_ ↦ read_and_ship-IsUploaded (disk row.path) s s' key sha yes_ refl (rw yes_ at e)
      | inr no_ ↦ absurd (refuse (rw no_ at e))
    ]
      where
        refuse : ◌≡◌ {A = Attempt × S} (fail pruned, s) (uploaded key sha, s') → ⊥
        refuse q = cc
