-- ===== src/Migrate/Database.antt =====
-- Bookkeeping in the database: pkg/migrate/meta.go, state.go, apply.go and pgerrors.go, and the
-- configuration and construction of a migrator, config.go and migrator.go.
--
-- pgx and Postgres are the record `Database`: a statement is a constructor of `Statement` in place
-- of its text, with the text's parameters. The context that every call passes on is left out.
unfoldable pub use xqua_go.Prelude.{trim_space}
use xqua_go.Prelude.{
  ℕ, Bytes, bytes, bytes_eq, Bool, true, false, ◌&&◌, ◌||◌, List, [], ◌∷◌, ◌++◌, Option, none, some,
  ltb, leb, ◌==◌, if◌then◌else◌, length,
}
use xqua_go.Migrate.Run.{
  Result, ok, err, External, no_rows, pg_error, other, Migration, Error, wrap_err, pool_required,
  instance_id_required, dir_required, schema_too_long, schema_shape, read_failed, missing_down,
  bind,
}
use xqua_go.Migrate.Discover.{Files, discover_fs, is_name_byte}

pub data Statement : Type 0 where
  create_schema : Bytes → Statement
  create_meta : Bytes → Statement
  create_tables : Bytes → Statement
  record_meta : Bytes → ℕ → Statement
  insert_applied : Bytes → ℕ → Bytes → Statement
  delete_applied : Bytes → ℕ → Statement
  set_running : Bytes → Bytes → ℕ → Statement
  set_idle : Bytes → Statement
  set_failed : Bytes → Error → Statement
  unlock : ℕ → Statement
  migration_sql : Bytes → Statement

-- What `rows` yields: each row scanned, or why it was not, and then `rows.Err`.
pub record Rows : Type 0 where
  pub scans : List (Result External ℕ)
  pub last : Option External

pub record Database (D : Type 0) : Type 0 where
  pub acquire : D → Option External × D
  pub release : D → D
  pub exec : Statement → D → Option External × D
  pub query_versions : Bytes → D → Result External Rows
  pub query_status : Bytes → D → Result External Bytes
  pub query_meta : Bytes → D → Result External ℕ
  pub try_lock : ℕ → D → Result External Bool × D
  pub begin : D → Option External × D
  pub commit : D → Option External × D
  pub rollback : D → D

-- `fs` is nil where the source reads the operating system's files, which `os_files` gives.
pub record Source : Type 0 where
  pub dir : Bytes
  pub fs : Option Files

pub record Config : Type 0 where
  pub source : Source
  pub instance_id : Bytes
  pub advisory_lock_key : ℕ
  pub poll_interval : ℕ
  pub schema : Bytes

pub record Migrator : Type 0 where
  pub cfg : Config
  pub q_schema : Bytes
  pub tbl_applied : Bytes
  pub tbl_state : Bytes
  pub tbl_meta : Bytes

abbrev default_advisory_lock_key : ℕ
default_advisory_lock_key = 839274928374

abbrev default_poll_interval : ℕ
default_poll_interval = 500000000

abbrev default_schema : Bytes
default_schema = bytes "_xqua_"

abbrev dir_given : Config → Option Files → Result Error Config
dir_given cfg none = if bytes_eq cfg.source.dir [] then err dir_required else ok cfg
dir_given cfg (some files) = ok cfg

-- `Config.validate`
unfoldable pub validate : Config → Result Error Config
validate cfg =
    if bytes_eq cfg.instance_id [] then err instance_id_required else dir_given cfg cfg.source.fs

-- A zero value takes the default; a negative poll interval, which the model does not have, would
-- take it too.
unfoldable pub apply_defaults : Config → Config
apply_defaults cfg = record cfg {
  advisory_lock_key =
      if cfg.advisory_lock_key == 0 then default_advisory_lock_key else cfg.advisory_lock_key;
  poll_interval = if cfg.poll_interval == 0 then default_poll_interval else cfg.poll_interval;
  schema = if bytes_eq cfg.schema [] then default_schema else cfg.schema;
}

abbrev all_name_bytes : Bytes → Bool
all_name_bytes [] = true
all_name_bytes (c ∷ s) = is_name_byte c && all_name_bytes s

-- `schemaNameRegex`
abbrev pub is_schema_name : Bytes → Bool
is_schema_name [] = false
is_schema_name (c ∷ s) = ((leb 97 c && leb c 122) || (c == 95)) && all_name_bytes s

unfoldable pub validate_schema_name : Bytes → Result Error Bytes
validate_schema_name schema =
    if ltb 63 (length schema)
    then err (schema_too_long schema)
    else if is_schema_name schema
    then ok schema
    else err (schema_shape schema)

abbrev quoted : Bytes → Bytes
quoted s = 34 ∷ s ++ 34 ∷ []

abbrev make_migrator : Config → Migrator
make_migrator cfg = record {
  cfg = cfg;
  q_schema = quoted cfg.schema;
  tbl_applied = quoted cfg.schema ++ bytes ".schema_migrations";
  tbl_state = quoted cfg.schema ++ bytes ".migration_state";
  tbl_meta = quoted cfg.schema ++ bytes ".meta";
}

-- `Postgres`; `pool` says whether the pool is there.
unfoldable pub postgres : Bool → Config → Result Error Migrator
unfolding validate apply_defaults validate_schema_name
postgres false cfg = err pool_required
postgres true cfg = bind (validate cfg) (λ c.
    bind (validate_schema_name (apply_defaults c).schema)
      (λ _. ok (make_migrator (apply_defaults c))))

-- `Source.resolve`
abbrev resolve : (Bytes → Files) → Source → Files × Bytes
resolve os_files src = elim src.fs [
  | some files ↦ (files, if bytes_eq src.dir [] then bytes "." else src.dir)
  | none ↦ (os_files src.dir, bytes ".")
]

abbrev files_of : (Bytes → Files) → Source → Files
files_of os_files src = let (files, dir) = resolve os_files src in files

unfoldable pub discover : (Bytes → Files) → Source → Result Error (List Migration)
discover os_files src = let (files, dir) = resolve os_files src in discover_fs files dir

abbrev read : (Bytes → Files) → Source → Bytes → Result Error Bytes
read os_files src path = wrap_err (read_failed path) ((files_of os_files src).read_file path)

unfoldable pub read_up : (Bytes → Files) → Source → Migration → Result Error Bytes
read_up os_files src mig = read os_files src mig.up_path

unfoldable pub read_down : (Bytes → Files) → Source → Migration → Result Error Bytes
read_down os_files src mig =
    if bytes_eq mig.down_path []
    then err (missing_down mig.version)
    else read os_files src mig.down_path

-- `isMissingObject`
unfoldable pub is_missing_object : External → Bool
is_missing_object no_rows = false
is_missing_object (other n) = false
is_missing_object (pg_error code) = bytes_eq code (bytes "42P01") || bytes_eq code (bytes "3F000")
