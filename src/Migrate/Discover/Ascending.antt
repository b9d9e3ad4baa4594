-- ===== src/Migrate/Discover/Ascending.antt =====
-- What `DiscoverFS` returns is ordered by version, without repetition, and every migration has an
-- up file.
use xqua_go.Prelude.{
  ℕ, ◌<◌, Bytes, bytes_eq, bytes_eq_cases, Bool, true, false, Bool-cases, List, [], ◌∷◌, Option,
  none, some, ◌≡◌, ◌≢◌, inl, inr, refl, arith, ltb, ◌==◌, ◌∙◌, subst, sym,
}
use xqua_go.Migrate.Run.{Result, ok, err, Error, External, Migration, bind-ok, ok_injective}
use xqua_go.Migrate.Discover.{
  Files, DirEntry, FileName, Pending, put_file, scan_entry, scan_named, scan, insert, sort, build,
  discover_fs, discover_entries, keep_first, path_put, add_migration, to_migration, build_sorted,
  parse_filename,
}

-- No entry of the list has the version.
abbrev Fresh : ℕ → List Pending → Type 0
Fresh v [] = Unit {0}
Fresh v (p ∷ ps) = (v ≢ p.version) × Fresh v ps

abbrev AllDistinct : List Pending → Type 0
AllDistinct [] = Unit {0}
AllDistinct (p ∷ ps) = Fresh p.version ps × AllDistinct ps

abbrev pub AllAbove : ℕ → List Migration → Type 0
AllAbove v [] = Unit {0}
AllAbove v (m ∷ ms) = (v < m.version) × AllAbove v ms

-- Every migration has an up file and a version below all that follow it.
abbrev pub IsAscending : List Migration → Type 0
IsAscending [] = Unit {0}
IsAscending (m ∷ ms) = (m.up_path ≢ []) × AllAbove m.version ms × IsAscending ms

abbrev After : ℕ → List Pending → Type 0
After v [] = Unit {0}
After v (p ∷ ps) = (v < p.version) × After v ps

abbrev IsSorted : List Pending → Type 0
IsSorted [] = Unit {0}
IsSorted (p ∷ ps) = After p.version ps × IsSorted ps

path_put-cases :
    (up : Bool) (path name : Bytes) (p : Pending) (ps qs : List Pending)
    → path_put up path name p ps ≡ ok qs
    → (q : Pending) × (q.version ≡ p.version) × (qs ≡ q ∷ ps)
path_put-cases true path name p ps qs h = elim (Bool-cases (bytes_eq p.name name)) [
  | inl same ↦ (record p { up = path }, refl, ground arith)
  | inr clash ↦ ground arith
]
path_put-cases false path name p ps qs h = elim (Bool-cases (bytes_eq p.name name)) [
  | inl same ↦ (record p { down = path }, refl, ground arith)
  | inr clash ↦ ground arith
]

keep_first-cases :
    (p : Pending) (r : Result Error (List Pending)) (qs : List Pending)
    → keep_first p r ≡ ok qs
    → (ps : List Pending) × (r ≡ ok ps) × (p ∷ ps ≡ qs)
keep_first-cases p (ok ps) qs h = (ps, refl, cc)
keep_first-cases p (err e) qs h = cc

put_file-Fresh :
    (w v : ℕ) (name : Bytes) (up : Bool) (path : Bytes) (ps qs : List Pending)
    → put_file v name up path ps ≡ ok qs
    → w ≢ v
    → Fresh w ps
    → Fresh w qs
unfolding put_file
put_file-Fresh w v name true path [] qs h ne f = subst (Fresh w) (ok_injective h) (ne, tt)
put_file-Fresh w v name false path [] qs h ne f = subst (Fresh w) (ok_injective h) (ne, tt)
put_file-Fresh w v name up path (p ∷ ps) qs h ne (f, fs) = elim (Bool-cases (p.version == v)) [
  | inl here ↦
      let (q, same, e) = path_put-cases up path name p ps qs (rw here at h) in
      subst (Fresh w) (sym e) ((λ x. f (x ∙ same)), fs)
  | inr there ↦
      let (rest, r, e) = keep_first-cases p (put_file v name up path ps) qs (rw there at h) in
      subst (Fresh w) e (f, put_file-Fresh w v name up path ps rest r ne fs)
]

put_file-AllDistinct :
    (v : ℕ) (name : Bytes) (up : Bool) (path : Bytes) (ps qs : List Pending)
    → put_file v name up path ps ≡ ok qs
    → AllDistinct ps
    → AllDistinct qs
unfolding put_file
put_file-AllDistinct v name true path [] qs h d = subst AllDistinct (ok_injective h) (tt, tt)
put_file-AllDistinct v name false path [] qs h d = subst AllDistinct (ok_injective h) (tt, tt)
put_file-AllDistinct v name up path (p ∷ ps) qs h (f, d) = elim (Bool-cases (p.version == v)) [
  | inl here ↦
      let (q, same, e) = path_put-cases up path name p ps qs (rw here at h) in
      subst AllDistinct (sym e) (subst (λ n. Fresh n ps) (sym same) f, d)
  | inr there ↦
      let (rest, r, e) = keep_first-cases p (put_file v name up path ps) qs (rw there at h) in
      subst AllDistinct e (
        put_file-Fresh p.version v name up path ps rest r (λ x. ground arith) f,
        put_file-AllDistinct v name up path ps rest r d,
      )
]

scan_named-AllDistinct :
    (files : Files) (dir file : Bytes) (o : Option FileName) (ps qs : List Pending)
    → scan_named files dir file o ps ≡ ok qs
    → AllDistinct ps
    → AllDistinct qs
scan_named-AllDistinct files dir file none ps qs h d = subst AllDistinct (ok_injective h) d
scan_named-AllDistinct files dir file (some (v, name, up)) ps qs h d =
    put_file-AllDistinct v name up _ ps qs h d

scan-AllDistinct :
    (files : Files) (dir : Bytes) (es : List DirEntry) (ps qs : List Pending)
    → scan files dir es ps ≡ ok qs
    → AllDistinct ps
    → AllDistinct qs
unfolding scan scan_entry
scan-AllDistinct files dir [] ps qs h d = subst AllDistinct (ok_injective h) d
scan-AllDistinct files dir (e ∷ es) ps qs h d =
    let (rs, r, k) = bind-ok (scan_entry files dir e ps) (scan files dir es) h in
    scan-AllDistinct files dir es rs qs k (entry rs r)
  where
    entry : (rs : List Pending) → scan_entry files dir e ps ≡ ok rs → AllDistinct rs
    entry rs r = elim (Bool-cases e.is_dir) [
      | inl skipped ↦ subst AllDistinct (ok_injective (rw skipped at r)) d
      | inr file ↦
          scan_named-AllDistinct files dir e.name (parse_filename e.name) ps rs (rw file at r) d
    ]

insert-Fresh :
    (w : ℕ) (p : Pending) (ps : List Pending) → w ≢ p.version → Fresh w ps → Fresh w (insert p ps)
unfolding insert
insert-Fresh w p [] ne f = (ne, tt)
insert-Fresh w p (q ∷ qs) ne (f, fs) = elim (Bool-cases (ltb p.version q.version)) [
  | inl below ↦ rw below (ne, (f, fs))
  | inr above ↦ rw above (f, insert-Fresh w p qs ne fs)
]

sort-Fresh : (w : ℕ) (ps : List Pending) → Fresh w ps → Fresh w (sort ps)
unfolding sort
sort-Fresh w [] f = tt
sort-Fresh w (p ∷ ps) (f, fs) = insert-Fresh w p (sort ps) f (sort-Fresh w ps fs)

After-trans : (v w : ℕ) (ps : List Pending) → v < w → After w ps → After v ps
After-trans v w [] h a = tt
After-trans v w (p ∷ ps) h (a, as_) = (omega arith, After-trans v w ps h as_)

insert-After :
    (v : ℕ) (p : Pending) (ps : List Pending) → v < p.version → After v ps → After v (insert p ps)
unfolding insert
insert-After v p [] h a = (h, tt)
insert-After v p (q ∷ qs) h (a, rest) = elim (Bool-cases (ltb p.version q.version)) [
  | inl below ↦ rw below (h, (a, rest))
  | inr above ↦ rw above (a, insert-After v p qs h rest)
]

insert-IsSorted :
    (p : Pending) (ps : List Pending) → Fresh p.version ps → IsSorted ps → IsSorted (insert p ps)
unfolding insert
insert-IsSorted p [] f s = (tt, tt)
insert-IsSorted p (q ∷ qs) (f, fs) (a, s) = elim (Bool-cases (ltb p.version q.version)) [
  | inl below ↦
      let lt : p.version < q.version = ground arith in
      rw below ((lt, After-trans p.version q.version qs lt a), (a, s))
  | inr above ↦ rw above (insert-After q.version p qs (ground arith) a, insert-IsSorted p qs fs s)
]

sort-IsSorted : (ps : List Pending) → AllDistinct ps → IsSorted (sort ps)
unfolding sort
sort-IsSorted [] d = tt
sort-IsSorted (p ∷ ps) (f, d) =
    insert-IsSorted p (sort ps) (sort-Fresh p.version ps f) (sort-IsSorted ps d)

add_migration-cases :
    (p : Pending) (r : Result Error (List Migration)) (ms : List Migration)
    → add_migration p r ≡ ok ms
    → (rest : List Migration) × (r ≡ ok rest) × (to_migration p ∷ rest ≡ ms)
add_migration-cases p (ok rest) ms h = (rest, refl, cc)
add_migration-cases p (err e) ms h = cc

build-step :
    (p : Pending) (ps : List Pending) (ms : List Migration)
    → build (p ∷ ps) ≡ ok ms
    → (p.up ≢ []) × (rest : List Migration) × (build ps ≡ ok rest) × (to_migration p ∷ rest ≡ ms)
unfolding build
build-step p ps ms h = elim (bytes_eq_cases p.up []) [
  | inl (missing, _) ↦ ground arith
  | inr (found, ne) ↦
      let (rest, b, e) = add_migration-cases p (build ps) ms (rw found at h) in (ne, rest, b, e)
]

build-AllAbove :
    (v : ℕ) (ps : List Pending) (ms : List Migration)
    → build ps ≡ ok ms
    → After v ps
    → AllAbove v ms
unfolding build
build-AllAbove v [] ms h a = subst (AllAbove v) (ok_injective (h)) tt
build-AllAbove v (p ∷ ps) ms h (a, rest) =
    let (ne, ns, b, e) = build-step p ps ms h in
    subst (AllAbove v) e (a, build-AllAbove v ps ns b rest)

build-IsAscending :
    (ps : List Pending) (ms : List Migration) → build ps ≡ ok ms → IsSorted ps → IsAscending ms
unfolding build
build-IsAscending [] ms h s = subst IsAscending (ok_injective (h)) tt
build-IsAscending (p ∷ ps) ms h (a, s) =
    let (ne, ns, b, e) = build-step p ps ms h in
    subst IsAscending e (ne, build-AllAbove p.version ps ns b a, build-IsAscending ps ns b s)

-- Where discovery succeeds, the migrations stand in the order of their versions, no version stands
-- twice, and every one of them has an up file.
pub discover_fs-IsAscending :
    (files : Files) (dir : Bytes) (ms : List Migration)
    → discover_fs files dir ≡ ok ms
    → IsAscending ms
unfolding discover_fs
discover_fs-IsAscending files dir ms h = read (files.read_dir dir) h
  where
    scanned :
        (es : List DirEntry) (q : Result Error (List Pending))
        → scan files dir es [] ≡ q
        → build_sorted q ≡ ok ms
        → IsAscending ms
    scanned es (err e) q b = cc
    scanned es (ok ps) q b =
        build-IsAscending (sort ps) ms b
          (sort-IsSorted ps (scan-AllDistinct files dir es [] ps q tt))

    read :
        (r : Result External (List DirEntry))
        → discover_entries files dir r ≡ ok ms
        → IsAscending ms
    read (err e) b = cc
    read (ok es) b = scanned es (scan files dir es []) refl b
