-- ===== src/Migrate/Gate.antt =====
-- The startup gate and the operator's commands: pkg/migrate/gate.go, migrator.go, apply.go,
-- meta.go and state.go, on the database of the parent.
pub mod Keeping
pub mod Applied
use xqua_go.Prelude.{
  ℕ, zero, suc, ◌+◌, Bytes, bytes, bytes_eq, Bool, true, false, not, List, [], ◌∷◌, ◌++◌, Option,
  none, some, ltb, ◌==◌, if◌then◌else◌, drop, take,
}
use xqua_go.Migrate.Run.{
  Result, ok, err, External, no_rows, pg_error, other, Migration, Error, Run, pure, fail, ◌>>=◌,
  ◌>>◌, lift, wrap_err, done, external, ensure_schema_failed, ensure_meta_failed, read_meta_failed,
  meta_step_failed, record_meta_failed, lock_failed, lock_held, refusing_to_start, acquire_failed,
  apply_failed, apply_unrecorded, no_down_file, roll_back_failed, after,
}
use xqua_go.Migrate.Discover.{Files}
use xqua_go.Migrate.Database.{
  Statement, create_schema, create_meta, create_tables, record_meta, insert_applied, delete_applied,
  set_running, set_idle, set_failed, unlock, migration_sql, Rows, Database, Migrator, discover,
  read_up, read_down, trim_space, is_missing_object,
}

-- The result of a statement, an error wrapped by the place that ran it.
abbrev pub outcome :
    {D : Type 0} → (External → Error) → Option External × D → Result Error (Unit {0}) × D
outcome w (none, d) = (ok done, d)
outcome w (some e, d) = (err (w e), d)

abbrev pub state_of : {A D : Type 0} → A × D → D
state_of (a, d) = d

-- `metaSteps`, of which the index is the version that the step upgrades.
abbrev pub meta_steps : List (Bytes → Statement)
meta_steps = create_tables ∷ []

abbrev pub current_meta_version : ℕ
current_meta_version = 1

abbrev pub add_row : ℕ → Result Error (List ℕ) → Result Error (List ℕ)
add_row v (ok vs) = ok (v ∷ vs)
add_row v (err e) = err e

-- The versions of the scanned rows, or the first error.
abbrev pub scan_rows : Option External → List (Result External ℕ) → Result Error (List ℕ)
scan_rows none [] = ok []
scan_rows (some e) [] = err (external e)
scan_rows last (ok v ∷ rows) = add_row v (scan_rows last rows)
scan_rows last (err e ∷ rows) = err (external e)

abbrev pub versions_of : Result External Rows → Result Error (List ℕ)
versions_of (ok rows) = scan_rows rows.last rows.scans
versions_of (err e) = if is_missing_object e then ok [] else err (external e)

abbrev status_of : Result External Bytes → Result Error Bytes
status_of (ok status) = ok status
status_of (err no_rows) = ok (bytes "idle")
status_of (err (pg_error c)) =
    if is_missing_object (pg_error c) then ok (bytes "idle") else err (external (pg_error c))
status_of (err (other n)) = err (external (other n))

abbrev meta_version_of : Result External ℕ → Result Error ℕ
meta_version_of (ok v) = ok v
meta_version_of (err no_rows) = ok 0
meta_version_of (err (pg_error c)) = err (read_meta_failed (pg_error c))
meta_version_of (err (other n)) = err (read_meta_failed (other n))

-- Whether the set of versions, a map into booleans, has the version.
unfoldable pub is_applied : List ℕ → ℕ → Bool
is_applied [] v = false
is_applied (w ∷ ws) v = let rest = is_applied ws v in if w == v then true else rest

unfoldable pub pending_migrations : List Migration → List ℕ → List Migration
pending_migrations [] applied = []
pending_migrations (mig ∷ all) applied =
    let rest = pending_migrations all applied in
    if is_applied applied mig.version then rest else mig ∷ rest

abbrev pub applied_migrations : List Migration → List ℕ → List Migration
applied_migrations [] applied = []
applied_migrations (mig ∷ all) applied =
    let rest = applied_migrations all applied in
    if is_applied applied mig.version then mig ∷ rest else rest

-- The version of the last migration of a list that is not empty.
abbrev last_version : Migration → List Migration → ℕ
last_version mig [] = mig.version
last_version mig (next ∷ rest) = last_version next rest

module _ {D : Type 0} (db : Database D) (os_files : Bytes → Files) (m : Migrator) where
  abbrev pub exec : (External → Error) → Statement → Run D (Unit {0})
  exec w s d = outcome w (db.exec s d)

  abbrev pub begin_tx : Run D (Unit {0})
  begin_tx d = outcome external (db.begin d)

  abbrev pub commit_tx : Run D (Unit {0})
  commit_tx d = outcome external (db.commit d)

  -- `defer tx.Rollback`
  abbrev pub rolled_back : Result Error (Unit {0}) × D → Result Error (Unit {0}) × D
  rolled_back (r, d) = (r, db.rollback d)

  -- The steps of `metaSteps` from a version on, which numbers the first of them.
  unfoldable pub meta_loop : ℕ → List (Bytes → Statement) → Run D (Unit {0})
  meta_loop v [] = pure done
  meta_loop v (step ∷ steps) =
      exec (meta_step_failed v) (step m.q_schema) >> meta_loop (suc v) steps

  abbrev pub record_version : ℕ → Run D (Unit {0})
  record_version version =
      if ltb version current_meta_version
      then exec record_meta_failed (record_meta m.tbl_meta current_meta_version)
      else pure done

  abbrev pub read_meta : Run D ℕ
  read_meta d = (meta_version_of (db.query_meta m.tbl_meta d), d)

  unfoldable pub ensure_meta : Run D (Unit {0})
  unfolding meta_loop
  ensure_meta = do
    exec ensure_schema_failed (create_schema m.q_schema)
    exec ensure_meta_failed (create_meta m.tbl_meta)
    version ← read_meta
    meta_loop version (drop version meta_steps)
    record_version version

  unfoldable pub applied_versions : Run D (List ℕ)
  applied_versions d = (versions_of (db.query_versions m.tbl_applied d), d)

  unfoldable pub read_status : Run D Bytes
  read_status d = (status_of (db.query_status m.tbl_state d), d)

  abbrev pub set_state_idle : Run D (Unit {0})
  set_state_idle = exec external (set_idle m.tbl_state)

  abbrev pub set_state_running : Bytes → ℕ → Run D (Unit {0})
  set_state_running holder target = exec external (set_running m.tbl_state holder target)

  abbrev pub set_state_failed : Error → Run D (Unit {0})
  set_state_failed e = exec external (set_failed m.tbl_state e)

  abbrev pub insert_row : Migration → Run D (Unit {0})
  insert_row mig = exec external (insert_applied m.tbl_applied mig.version mig.name)

  abbrev pub in_transaction : Run D (Unit {0}) → Run D (Unit {0})
  in_transaction body = begin_tx >> (λ d. rolled_back (after (body d) (λ _. commit_tx)))

  abbrev pub apply_sql : Migration → Bytes → Run D (Unit {0})
  apply_sql mig [] = insert_row mig
  apply_sql mig (c ∷ sql) =
      in_transaction (exec external (migration_sql (c ∷ sql)) >> insert_row mig)

  -- `applyUp`
  unfoldable pub apply_up : Migration → Run D (Unit {0})
  apply_up mig = do
    content ← lift (read_up os_files m.cfg.source mig)
    apply_sql mig (trim_space content)

  abbrev pub run_sql : Bytes → Run D (Unit {0})
  run_sql [] = pure done
  run_sql (c ∷ sql) = exec external (migration_sql (c ∷ sql))

  -- `applyDown`
  unfoldable pub apply_down : Migration → Run D (Unit {0})
  apply_down mig = do
    content ← lift (read_down os_files m.cfg.source mig)
    in_transaction
        (run_sql (trim_space content) >> exec external (delete_applied m.tbl_applied mig.version))

  -- What `runLeader` returns when an up migration has failed, once the failure is recorded or not.
  abbrev pub after_failure : Error → Result Error (Unit {0}) × D → Result Error (Unit {0}) × D
  after_failure e (ok _, d) = (err e, d)
  after_failure e (err e', d) = (err (apply_unrecorded e e'), d)

  abbrev pub recorded_failure :
      Migration → Result Error (Unit {0}) × D → Result Error (Unit {0}) × D
  recorded_failure mig (ok u, d) = (ok u, d)
  recorded_failure mig (err e, d) =
      after_failure (apply_failed mig e) (set_state_failed (apply_failed mig e) d)

  unfoldable pub apply_all : List Migration → Run D (Unit {0})
  unfolding apply_up
  apply_all [] = pure done
  apply_all (mig ∷ migs) = (λ d. recorded_failure mig (apply_up mig d)) >> apply_all migs

  abbrev pub run_pending : List Migration → Run D (Unit {0})
  unfolding apply_all
  run_pending [] = set_state_idle
  run_pending (mig ∷ migs) = do
    set_state_running m.cfg.instance_id (last_version mig migs)
    apply_all (mig ∷ migs)
    set_state_idle

  -- `runLeader`
  unfoldable pub run_leader : Run D (Unit {0})
  unfolding ensure_meta applied_versions pending_migrations apply_all
  run_leader = do
    ensure_meta
    migrations ← lift (discover os_files m.cfg.source)
    applied ← applied_versions
    run_pending (pending_migrations migrations applied)

  abbrev pub lock_of : Result External Bool × D → Result Error Bool × D
  lock_of (r, d) = (wrap_err lock_failed r, d)

  abbrev pub try_advisory_lock : Run D Bool
  try_advisory_lock d = lock_of (db.try_lock m.cfg.advisory_lock_key d)

  -- `defer advisoryUnlock`, whose result is dropped.
  abbrev pub unlocked : {A : Type 0} → Result Error A × D → Result Error A × D
  unlocked (r, d) = (r, state_of (db.exec (unlock m.cfg.advisory_lock_key) d))

  -- `defer conn.Release`
  abbrev pub released : {A : Type 0} → Result Error A × D → Result Error A × D
  released (r, d) = (r, db.release d)

  abbrev pub acquire_conn : Run D (Unit {0})
  acquire_conn d = outcome acquire_failed (db.acquire d)

  abbrev pub lead : Bool → Run D Bool
  lead false = pure false
  lead true = λ d. unlocked ((run_leader >> pure true) d)

  abbrev pub unless_failed : Bytes → Run D Bool
  unless_failed status =
      if bytes_eq status (bytes "failed")
      then fail refusing_to_start
      else try_advisory_lock >>= lead

  -- `attemptGate`
  unfoldable pub attempt_gate : Run D Bool
  unfolding run_leader read_status
  attempt_gate = acquire_conn >> (λ d. released ((read_status >>= unless_failed) d))
