-- ===== src/Lib.antt =====
-- pfSense backups: the parts of the worker, of the web service and of their shared library that
-- decide what is kept, copied, compared and reported.
--
-- Prelude.antt, Prelude/*: the names and list lemmas that the other files share.
--
-- Retention.antt, Retention/*: pfsense_shared/retention.py. `compute_keep_ids` is the function of that
-- name; its sort, its tiers, the loop of `newest_per_bucket`, the cap and the case without tiers are
-- `newest_first`, `tier_union`, `newest_per_bucket`, `apply_cap` and `legacy_keep`. An instant is a
-- number of microseconds since 0001-01-01; Calendar computes the buckets from it.
-- Retention/Total.antt takes the limits of the tiers from pfsense_shared/schemas.py.
--
-- Store.antt, Store/Laws.antt: the `backups` table of pfsense_shared/models.py, a list of rows, with
-- the access of a row by id, a write to it and its deletion.
--
-- Replication.antt, Replication/*: worker/replication.py. The payload and its name (`prepare_payload`,
-- `_undo_payload`, `object_key`) stand in Replication.antt; Upload is `replicate_backup`, Backoff is
-- `_attempt_due`, Sweep is `sweep_pending`, Verify is `verify_replicas` and Retrieve is
-- `retrieve_replica`. gzip, the digest and the transport are parameters: the
-- record `Codec` has gzip and the two functions of the pfSense encryption, with the two laws that the
-- code relies on (a decompression undoes a compression, a decryption undoes an encryption under the
-- same password), which Crypto/Sealed.antt fills; and the record `Target`. An
-- upload and a check are each one step; what another process does to the table meanwhile is not
-- modelled.
--
-- Cleanup.antt, Cleanup/*: `_cleanup_old_backups` of worker/backup_manager.py, over the same table and
-- with `compute_keep_ids`. How an unlink ends is a function of the path.
--
-- Diff.antt, Diff/*: pfsense_shared/pfsense_diff.py. Diff/Data.antt has the dumped values and Python's
-- equality; `value_changes`, `groups` and `new_keys` are `_field_changes`, by recursion on the first
-- value; Diff/Rows.antt is `_diff_list`, Diff/Labels.antt the label helpers and Diff/Configs.antt
-- `diff_configs`, whose calls are the list `plan`.
--
-- Fanout.antt, Fanout/*: web/services/event_bus.py (Bus) and web/services/log_ring.py (Ring), and the
-- loop over the subscribers that the two share (`fan_out`).
--
-- Staleness.antt, Staleness/Quiet.antt: worker/staleness.py. `check_stale_instances` goes over the
-- instances and the table; croniter is a parameter.
--
-- Redact.antt, Redact/*: pfsense_shared/pfsense_redact.py; Redact/Tags.antt has its two tables.
--
-- Scheduler.antt, Scheduler/*: the part of worker/scheduler.py that keeps one APScheduler job for each
-- instance (`_add_or_update`, `_remove`, `load_all_jobs`, `reload_all`, `reload_instance`).
--
-- Summary.antt, Summary/*: the roll-up of a diff in pfsense_shared/backup_diff_storage.py
-- (`summarise_diff`, `change_labels`, `build_change_summary`).
--
-- Crypto.antt, Crypto/*: pfsense_shared/pfsense_crypto.py. Crypto/Wrapper.antt has the text wrapper
-- (`_parse_wrapper` and the end of `encrypt_pfsense_backup`), Crypto.antt the key derivations, the
-- decryption and the encryption, Crypto/Sealed.antt the codec that Replication.antt takes. The library
-- functions are the record `Primitives`, their documented behaviour the record `IsLawful`. The loop over
-- MD5 digests runs on fuel: 48 rounds, and each adds 16 of 48 bytes.
--
-- Anchors.antt, Anchors/*: pfsense_shared/anchor_events.py. Anchors/Spec.antt has the tables and
-- `section_for_anchor`, Anchors.antt the events of rows and of single fields, Anchors/Packages.antt those
-- of packages, Anchors/Project.antt `diff_to_anchor_events` and `enumerate_anchors`; Anchors/Resolve.antt is
-- pfsense_shared/pfsense_anchor_values.py, with `resolve_anchor_value`. A ConfigDiff is its
-- sections by name, and a row is its dump.
--
-- Jobs.antt, Jobs/*: the `jobs` table and what the worker writes to it. Jobs.antt has `_mark_job`,
-- `_fail_job` (worker/backup_manager.py), `_fail_orphaned_job` (worker/ipc_listener.py) and
-- `_mark_stale_jobs` (worker/__main__.py) over a monad of state and exceptions; Jobs/Backup.antt is
-- `backup_instance` and `test_connection`, Jobs/Dispatch.antt `_dispatch` with its handlers and
-- `backup_all`. Which call raises, and what a call outside returns, is a record that the functions take;
-- Jobs/Rules.antt has the rules by which the proofs go through a body.
--
-- Reencrypt.antt, Reencrypt/*: the re-encryption of stored backups in worker/backup_manager.py:
-- `_reencrypt_one_subprocess`, `_reencrypt_rows` and `_finalize_reencrypt_job`, over the rows and the
-- files by their paths. Fernet is a record, and the steps that can fail are another.
--
-- Tokens.antt, Tokens/*: web/services/token_auth.py, with `authenticate_bearer` and its cache; a step
-- relation puts requests, changes of the table, `clear_cache` and time in any order. A request is one
-- step: the wait between its query and its write to the cache is not modelled.
--
-- Notifier.antt, Notifier/*: `send`, `_resolve_scope` and `_should_send` of worker/notifier.py, as the
-- dispatches that are called, the exceptions that are logged, and whether one leaves the loop. How a
-- dispatch ends, return or raise, is a parameter.
--
-- Every loop is recursion on the list that it runs over, so no fuel is needed for these. Not modelled: the
-- XML parsers, the HTTP handlers, the transports, the channels of notifications, metrics and the database
-- engine, which
-- are input, output or calls of libraries.
pub mod Prelude
pub mod Retention
pub mod Store
pub mod Replication
pub mod Cleanup
pub mod Fanout
pub mod Diff
pub mod Staleness
pub mod Redact
pub mod Scheduler
pub mod Summary
pub mod Crypto
pub mod Anchors
pub mod Jobs
pub mod Reencrypt
pub mod Tokens
pub mod Notifier
