-- ===== src/Migrate/Examples.antt =====
-- The theorems about migrations at a concrete directory and a database that is the list of its
-- applied versions.
use xqua_go.Prelude.{
  ℕ, Bytes, bytes, bytes_eq, true, false, List, [], ◌∷◌, ◌++◌, Option, none, some, ◌≡◌, ◌≢◌, refl,
  Bool-cases, inl, inr, sym, ap, ◌∙◌, arith, if◌then◌else◌, ◌==◌, subst,
}
use xqua_go.Migrate.Run.{Result, ok, err, External, Migration, ok_injective}
use xqua_go.Migrate.Discover.{DirEntry, Files, discover_fs, scan_entry, parse_filename, put_file}
use xqua_go.Migrate.Discover.Ascending.{IsAscending, discover_fs-IsAscending}
use xqua_go.Migrate.Database.{
  Statement, delete_applied, Database, Migrator, discover, read_up, trim_space,
}
use xqua_go.Migrate.Gate.{
  acquire_conn, versions_of, applied_versions, pending_migrations, add_row, scan_rows, is_applied,
  attempt_gate,
}
use xqua_go.Migrate.Gate.Keeping.{Keeping}
use xqua_go.Migrate.Gate.Applied.{AllRecorded}
use xqua_go.Migrate.Commands.{
  status, IsShuffle, status-IsShuffle, run_startup_gate, run_startup_gate-applies_all,
}

abbrev file : Bytes → DirEntry
file name = record { is_dir = false; name = name }

-- The files come in an order that is not that of their versions.
abbrev files : Files
files = record {
  read_dir = λ dir. ok (
      file (bytes "000002_more.up.sql")
      ∷ file (bytes "README.md")
      ∷ file (bytes "000001_first.down.sql")
      ∷ file (bytes "000001_first.up.sql")
      ∷ []);
  read_file = λ path. ok (bytes " SELECT 1 ");
  join = λ dir name. dir ++ bytes "/" ++ name;
}

abbrev first : Migration
first = record {
  version = 1;
  name = bytes "first";
  up_path = bytes "000001_first.up.sql";
  down_path = bytes "000001_first.down.sql";
}

abbrev more : Migration
more = record {
  version = 2;
  name = bytes "more";
  up_path = bytes "000002_more.up.sql";
  down_path = [];
}

found : discover_fs files (bytes ".") ≡ ok (first ∷ more ∷ [])
unfolding discover_fs scan_entry parse_filename bytes_eq put_file
found = refl

discover_fs-IsAscending_example : IsAscending (first ∷ more ∷ [])
discover_fs-IsAscending_example =
    discover_fs-IsAscending files (bytes ".") (first ∷ more ∷ []) found

abbrev without : ℕ → List ℕ → List ℕ
without v [] = []
without v (w ∷ ws) = let rest = without v ws in if w == v then rest else w ∷ rest

-- Tables as lists of versions; every statement of the bookkeeping succeeds.
abbrev run_statement : Statement → List ℕ → List ℕ
run_statement (Statement.insert_applied t v name) d = v ∷ d
run_statement (Statement.delete_applied t v) d = without v d
run_statement (Statement.create_schema s) d = d
run_statement (Statement.create_meta s) d = d
run_statement (Statement.create_tables s) d = d
run_statement (Statement.record_meta s v) d = d
run_statement (Statement.set_running s h v) d = d
run_statement (Statement.set_idle s) d = d
run_statement (Statement.set_failed s e) d = d
run_statement (Statement.unlock k) d = d
run_statement (Statement.migration_sql s) d = d

abbrev rows_of : List ℕ → List (Result External ℕ)
rows_of [] = []
rows_of (v ∷ vs) = ok v ∷ rows_of vs

abbrev db : Database (List ℕ)
db = record {
  acquire = λ d. (none, d);
  release = λ d. d;
  exec = λ s d. (none, run_statement s d);
  query_versions = λ t d. ok (record { scans = rows_of d; last = none });
  query_status = λ t d. ok (bytes "idle");
  query_meta = λ t d. err External.no_rows;
  try_lock = λ k d. (ok true, d);
  begin = λ d. (none, d);
  commit = λ d. (none, d);
  rollback = λ d. d;
}

abbrev migrator : Migrator
migrator = record {
  cfg = record {
    source = record { dir = bytes "."; fs = some files };
    instance_id = bytes "one";
    advisory_lock_key = 7;
    poll_interval = 1;
    schema = bytes "s";
  };
  q_schema = bytes "s";
  tbl_applied = bytes "s.applied";
  tbl_state = bytes "s.state";
  tbl_meta = bytes "s.meta";
}

statement_keeps :
    (s : Statement) (d : List ℕ) (v : ℕ)
    → ((t : Bytes) (w : ℕ) → s ≢ delete_applied t w)
    → is_applied d v ≡ true
    → is_applied (run_statement s d) v ≡ true
unfolding is_applied
statement_keeps (Statement.insert_applied t w name) d v ne r = elim (Bool-cases (w == v)) [
  | inl same ↦ rw same refl
  | inr diff ↦ rw diff r
]
statement_keeps (Statement.delete_applied t w) d v ne r = absurd (ne t w refl)
statement_keeps (Statement.create_schema s) d v ne r = r
statement_keeps (Statement.create_meta s) d v ne r = r
statement_keeps (Statement.create_tables s) d v ne r = r
statement_keeps (Statement.record_meta s w) d v ne r = r
statement_keeps (Statement.set_running s h w) d v ne r = r
statement_keeps (Statement.set_idle s) d v ne r = r
statement_keeps (Statement.set_failed s e) d v ne r = r
statement_keeps (Statement.unlock k) d v ne r = r
statement_keeps (Statement.migration_sql s) d v ne r = r

insert_recorded : (v : ℕ) (d : List ℕ) → is_applied (v ∷ d) v ≡ true
unfolding is_applied
insert_recorded v d = ground arith

rows-back : (d : List ℕ) → scan_rows none (rows_of d) ≡ ok d
rows-back [] = refl
rows-back (v ∷ d) = ap (add_row v) (rows-back d)

abbrev after_step : List ℕ → Option External × List ℕ
after_step d = (none, d)

step_same : (d d' : List ℕ) → after_step d ≡ (none, d') → d ≡ d'
step_same d d' h = cc

keeping : Keeping db is_applied
keeping = record {
  exec_keeps = λ s d d' v ne h r.
      subst (λ x. is_applied x v ≡ true) (step_same (run_statement s d) d' h)
        (statement_keeps s d v ne r);
  insert_records = λ t name d d' v h.
      subst (λ x. is_applied x v ≡ true) (step_same (v ∷ d) d' h) (insert_recorded v d);
  begin_keeps = λ d d' v h r. subst (λ x. is_applied x v ≡ true) (step_same d d' h) r;
  commit_keeps = λ d d' v h r. subst (λ x. is_applied x v ≡ true) (step_same d d' h) r;
  release_keeps = λ d v r. r;
  unlock_keeps = λ k d v r. r;
  rows_recorded = λ t d ws v h r.
      subst (λ x. is_applied x v ≡ true) (sym (ok_injective (sym (rows-back d) ∙ h))) r;
}

os_files : Bytes → Files
os_files dir = files

found_here : discover os_files migrator.cfg.source ≡ ok (first ∷ more ∷ [])
unfolding discover bytes_eq
found_here = found

opened : run_startup_gate db os_files migrator [] (1 ∷ []) ≡ (ok true, 2 ∷ 1 ∷ [])
unfolding run_startup_gate attempt_gate bytes_eq discover discover_fs scan_entry parse_filename
    put_file is_applied read_up trim_space
opened = refl

reported : status db os_files migrator (1 ∷ []) ≡ (ok (first ∷ [], more ∷ []), 1 ∷ [])
unfolding status discover discover_fs scan_entry parse_filename bytes_eq put_file applied_versions
    is_applied pending_migrations
reported = refl

-- The first version is applied already, the second is not.
run_startup_gate-applies_all_example :
    AllRecorded db os_files migrator is_applied keeping (2 ∷ 1 ∷ []) (first ∷ more ∷ [])
run_startup_gate-applies_all_example =
    run_startup_gate-applies_all db os_files migrator is_applied keeping [] (1 ∷ []) (2 ∷ 1 ∷ [])
      (first ∷ more ∷ []) found_here opened

status-IsShuffle_example :
    (connected : List ℕ) × (acquire_conn db os_files migrator (1 ∷ []) ≡ (ok tt, connected))
    × (ws : List ℕ) × (versions_of (db.query_versions migrator.tbl_applied connected) ≡ ok ws)
    × IsShuffle ws (first ∷ []) (more ∷ []) (first ∷ more ∷ [])
status-IsShuffle_example =
    status-IsShuffle db os_files migrator (1 ∷ []) (1 ∷ []) (first ∷ more ∷ []) (first ∷ [])
      (more ∷ []) found_here reported
