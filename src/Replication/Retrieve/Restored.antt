-- ===== src/Replication/Retrieve/Restored.antt =====
-- A backup that was replicated, worker/replication.py, comes back with its contents.
use pfsense_backups.Prelude.{
  ℕ, ◌≡◌, refl, ap, ◌∙◌, ◌≢◌, true, false, none, some, [], ◌∷◌, length, if◌then◌else◌,
}
use pfsense_backups.Store.{Text, Bytes, done, Row, Table, find, update}
use pfsense_backups.Store.Laws.{find-update_self}
use pfsense_backups.Replication.{
  Outcome, ok, ◌>>=◌, ReplicationConfig, codes, ends_with, unwrapped, undo_payload, object_key,
}
use pfsense_backups.Replication.Suffix.{stem}
use pfsense_backups.Replication.Payload.{undo_payload-prepare_payload}
use pfsense_backups.Replication.Upload.{Target, Env, Disk}
use pfsense_backups.Replication.Upload.Verified.{IsVerified}
use pfsense_backups.Replication.Upload.Effect.{IsDone}
use pfsense_backups.Prelude.{text_eq_refl}
use pfsense_backups.Replication.Retrieve.{
  Retrieval, check_sha, recorded_key, restored, fetch, retrieve_row, retrieve_found,
  retrieve_replica,
}

-- The digest of what was uploaded passes the check.
check_sha_self :
    (sha256 : Bytes → Text) (payload : Bytes)
    → check_sha sha256 (some (sha256 payload)) payload ≡ ok payload
unfolding check_sha
check_sha_self sha256 payload = go (sha256 payload) refl
  where
    go : (h : Text) → sha256 payload ≡ h → check_sha sha256 (some h) payload ≡ ok payload
    go [] e = refl
    go (c ∷ cs) e = rw e (rw (text_eq_refl (c ∷ cs)))

recorded_key-done :
    (row : Row) (key : Text)
    → row.replica_key ≡ some key
    → row.replica_status ≡ done
    → key ≢ []
    → recorded_key row ≡ ok key
unfolding recorded_key
recorded_key-done row [] e st ne = absurd (ne refl)
recorded_key-done row (c ∷ cs) e st ne = rw (e, st)

-- A step that succeeds, in a chain.
bind_ok :
    {A B : Type 0} (m : Outcome A) (f : A → Outcome B) (a : A) {r : Outcome B}
    → m ≡ ok a
    → f a ≡ r
    → (m >>= f) ≡ r
bind_ok m f a e h = ap (λ x. x >>= f) e ∙ h

fetch-eq :
    {S : Type 0} (env : Env S) (cfg : ReplicationConfig) (s : S) (row : Row)
    (key payload out : Bytes) (target : Target S)
    → row.replica_key ≡ some key
    → row.replica_status ≡ done
    → key ≢ []
    → env.target ≡ ok target
    → target.download key s ≡ ok payload
    → row.replica_sha256 ≡ some (env.sha256 payload)
    → undo_payload env.codec payload key row.encrypted row.compressed cfg ≡ ok out
    → fetch env cfg s row ≡ ok out
unfolding fetch
fetch-eq env cfg s row key payload out target named st ne reached sent digest undone =
    bind_ok (recorded_key row) _ key (recorded_key-done row key named st ne) (
      bind_ok env.target _ target reached (
        bind_ok (target.download key s) _ payload sent (
          bind_ok (check_sha env.sha256 row.replica_sha256 payload) _ payload
            (ap (λ h. check_sha env.sha256 h payload) digest ∙ check_sha_self env.sha256 payload)
            undone)))

-- A row that is not local is retrieved by what `fetch` gives.
retrieve_row-eq :
    {S : Type 0} (env : Env S) (cfg : ReplicationConfig) (s : S) (bid : ℕ) (t : Table) (row : Row)
    (out : Bytes)
    → row.local_present ≡ false
    → fetch env cfg s row ≡ ok out
    → retrieve_row env cfg s bid t row
      ≡ ok (record { table = update bid (restored (length out)) t; written = some (row.path, out) })
unfolding retrieve_row
retrieve_row-eq env cfg s bid t row out gone got =
    ap
      (λ b.
        if b
        then ok (record { table = t; written = none })
        else (fetch env cfg s row >>= λ local_bytes. ok (record {
          table = update bid (restored (length local_bytes)) t;
          written = some (row.path, local_bytes);
        })))
      gone
    ∙ bind_ok (fetch env cfg s row) _ out got refl

restored-id : (n : ℕ) (r : Row) → (restored n r).id ≡ r.id
unfolding restored
restored-id n r = refl

module _ {S : Type 0} (env : Env S) (cfg : ReplicationConfig) where
  -- A row that was uploaded and verified, and whose local file is gone since, is retrieved, if the
  -- remote side still gives back what was sent: the file written at the row's path has the row's
  -- on-disk shape and the contents of the file that was uploaded, and the row is local again, with
  -- the size that was written. The contents are plausible as a configuration, the stem of the
  -- object's name does not end in `.2x`, and the transport is configured as it was.
  pub retrieve_replica-IsVerified :
      (disk : Disk) (row row' : Row) (key sha blob : Text) (now bid : ℕ) (s s' : S) (t : Table)
      (v : IsVerified env cfg disk row key sha s)
      → IsDone row' now key sha
      → find bid t ≡ some row'
      → row'.local_present ≡ false
      → row'.encrypted ≡ row.encrypted
      → row'.compressed ≡ row.compressed
      → unwrapped env.codec row.compressed v.raw ≡ ok blob
      → env.codec.plausible blob ≡ true
      → ends_with (codes ".2x") (stem cfg (env.instance_name row.instance_id) row.filename) ≡ false
      → key ≢ []
      → v.target.download key s' ≡ ok v.payload
      → (out : Bytes) × (back : Row) × (r : Retrieval) × (retrieve_replica env (some cfg) bid t s'
          ≡ ok r)
        × (r.written ≡ some (row'.path, out))
        × (unwrapped env.codec row.compressed out ≡ ok blob)
        × (find bid r.table ≡ some back)
        × (back.local_present ≡ true)
        × (back.size_bytes ≡ length out)
  unfolding retrieve_replica retrieve_found retrieve_row fetch restored
  retrieve_replica-IsVerified disk row row' key sha blob now bid s s' t v d found gone enc_same
        comp_same u p single ne same_object =
      let (out, undone, contents) =
        undo_payload-prepare_payload env.codec env.salt v.raw blob row.encrypted row.compressed cfg
          (env.instance_name row.instance_id) row.filename v.payload v.suffix v.prepared u p
          single in
      let undone' : undo_payload env.codec v.payload key row'.encrypted row'.compressed cfg
          ≡ ok out =
        ap (λ k. undo_payload env.codec v.payload k row'.encrypted row'.compressed cfg) v.named
        ∙ (ap
              (λ b.
                undo_payload env.codec v.payload
                  (object_key cfg (env.instance_name row.instance_id) row.filename v.suffix) b
                  row'.compressed cfg)
              enc_same
            ∙ (ap
                  (λ b.
                    undo_payload env.codec v.payload
                      (object_key cfg (env.instance_name row.instance_id) row.filename v.suffix)
                      row.encrypted b cfg)
                  comp_same
                ∙ undone)) in
      (
        out,
        record row' { local_present = true; size_bytes = length out },
        record { table = update bid (restored (length out)) t; written = some (row'.path, out) },
        ap (λ o. retrieve_found env cfg bid t o s') found
            ∙ retrieve_row-eq env cfg s' bid t row' out gone (
                fetch-eq env cfg s' row' key v.payload out v.target d.key_set d.status ne v.reached
                  same_object (d.sha_set ∙ ap some v.digest) undone'),
        refl,
        contents,
        find-update_self bid (restored (length out)) t (restored-id (length out)) found,
        refl,
        refl,
      )
