-- ===== src/Migrate/Discover.antt =====
-- `DiscoverFS` of pkg/migrate/discover.go. The regular expression is a parser; the map
-- `byVersion` with the slice `order` is one list of `Pending`, in the order of first appearance.
pub mod Ascending
use xqua_go.Prelude.{
  ℕ, zero, suc, ◌+◌, ◌-◌, ◌*◌, Bytes, bytes, bytes_eq, Bool, true, false, ◌&&◌, ◌||◌, not, List, [],
  ◌∷◌, ◌++◌, Option, none, some, ltb, leb, ◌==◌, if◌then◌else◌,
}
use xqua_go.Migrate.Run.{
  Result, ok, err, External, Migration, Error, bind, conflicting_names, missing_up, read_dir_failed,
}

pub record DirEntry : Type 0 where
  pub is_dir : Bool
  pub name : Bytes

-- What the package asks of `io/fs` and `path`.
pub record Files : Type 0 where
  pub read_dir : Bytes → Result External (List DirEntry)
  pub read_file : Bytes → Result External Bytes
  pub join : Bytes → Bytes → Bytes

abbrev pub is_digit : ℕ → Bool
is_digit c = leb 48 c && leb c 57

-- `[a-z0-9_]`
abbrev pub is_name_byte : ℕ → Bool
is_name_byte c = is_digit c || (leb 97 c && leb c 122) || (c == 95)

-- `\d{n}`, with the number read so far; `strconv.ParseInt` does not fail on six digits.
unfoldable pub digits : ℕ → ℕ → Bytes → Option (ℕ × Bytes)
digits zero acc s = some (acc, s)
digits (suc n) acc [] = none
digits (suc n) acc (c ∷ s) = if is_digit c then digits n (acc * 10 + (c - 48)) s else none

-- The longest prefix of name bytes, and the rest.
unfoldable pub span_name : Bytes → Bytes × Bytes
span_name [] = ([], [])
span_name (c ∷ s) =
    let (name, rest) = span_name s in if is_name_byte c then (c ∷ name, rest) else ([], c ∷ s)

-- The version, the name and whether the direction is up.
abbrev pub FileName : Type 0
FileName = ℕ × Bytes × Bool

abbrev direction : ℕ → Bytes × Bytes → Option FileName
direction v ([], rest) = none
direction v (c ∷ name, rest) =
    if bytes_eq rest (bytes ".up.sql")
    then some (v, c ∷ name, true)
    else if bytes_eq rest (bytes ".down.sql")
    then some (v, c ∷ name, false)
    else none

abbrev after_version : Option (ℕ × Bytes) → Option FileName
after_version none = none
after_version (some (v, [])) = none
after_version (some (v, c ∷ s)) = if c == 95 then direction v (span_name s) else none

-- `filenameRegex.FindStringSubmatch`
unfoldable pub parse_filename : Bytes → Option FileName
unfolding digits span_name
parse_filename s = after_version (digits 6 0 s)

pub record Pending : Type 0 where
  pub version : ℕ
  pub name : Bytes
  pub up : Bytes
  pub down : Bytes

abbrev with_path : Bool → Bytes → Pending → Pending
with_path true path p = record p { up = path }
with_path false path p = record p { down = path }

abbrev pub keep_first : Pending → Result Error (List Pending) → Result Error (List Pending)
keep_first p (ok ps) = ok (p ∷ ps)
keep_first p (err e) = err e

abbrev pub path_put : Bool → Bytes → Bytes → Pending → List Pending → Result Error (List Pending)
path_put up path name p ps =
    if bytes_eq p.name name
    then ok (with_path up path p ∷ ps)
    else err (conflicting_names p.version p.name name)

abbrev pub new_pending : ℕ → Bytes → Pending
new_pending v name = record { version = v; name = name; up = []; down = [] }

-- The entry of a version, made where it is missing, checked for its name and given the path.
unfoldable pub put_file : ℕ → Bytes → Bool → Bytes → List Pending → Result Error (List Pending)
put_file v name up path [] = ok (with_path up path (new_pending v name) ∷ [])
put_file v name up path (p ∷ ps) =
    let rest = keep_first p (put_file v name up path ps) in
    if p.version == v then path_put up path name p ps else rest

abbrev file_path : Files → Bytes → Bytes → Bytes
file_path files dir name =
    if not (bytes_eq dir []) && not (bytes_eq dir (bytes ".")) then files.join dir name else name

abbrev pub scan_named :
    Files → Bytes → Bytes → Option FileName → List Pending → Result Error (List Pending)
scan_named files dir file none ps = ok ps
scan_named files dir file (some (v, name, up)) ps = put_file v name up (file_path files dir file) ps

-- One turn of the loop over the directory's entries.
unfoldable pub scan_entry : Files → Bytes → DirEntry → List Pending → Result Error (List Pending)
scan_entry files dir entry ps =
    if entry.is_dir then ok ps else scan_named files dir entry.name (parse_filename entry.name) ps

unfoldable pub scan : Files → Bytes → List DirEntry → List Pending → Result Error (List Pending)
scan files dir [] ps = ok ps
scan files dir (e ∷ es) ps = bind (scan_entry files dir e ps) (scan files dir es)

-- `sort.Slice` by version, as an insertion sort; no version stands twice.
unfoldable pub insert : Pending → List Pending → List Pending
insert p [] = p ∷ []
insert p (q ∷ qs) =
    let rest = insert p qs in if ltb p.version q.version then p ∷ q ∷ qs else q ∷ rest

unfoldable pub sort : List Pending → List Pending
unfolding insert
sort [] = []
sort (p ∷ ps) = insert p (sort ps)

abbrev pub to_migration : Pending → Migration
to_migration p = record { version = p.version; name = p.name; up_path = p.up; down_path = p.down }

abbrev pub add_migration : Pending → Result Error (List Migration) → Result Error (List Migration)
add_migration p (err e) = err e
add_migration p (ok ms) = ok (to_migration p ∷ ms)

unfoldable pub build : List Pending → Result Error (List Migration)
build [] = ok []
build (p ∷ ps) =
    let rest = build ps in
    if bytes_eq p.up [] then err (missing_up p.version) else add_migration p rest

abbrev pub build_sorted : Result Error (List Pending) → Result Error (List Migration)
build_sorted (ok ps) = build (sort ps)
build_sorted (err e) = err e

abbrev pub discover_entries :
    Files → Bytes → Result External (List DirEntry) → Result Error (List Migration)
discover_entries files dir (err e) = err (read_dir_failed dir e)
discover_entries files dir (ok entries) = build_sorted (scan files dir entries [])

-- `DiscoverFS`
unfoldable pub discover_fs : Files → Bytes → Result Error (List Migration)
unfolding scan sort build
discover_fs files dir = discover_entries files dir (files.read_dir dir)
