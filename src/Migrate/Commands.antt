-- ===== src/Migrate/Commands.antt =====
-- `RunStartupGate` of pkg/migrate/gate.go, and `Status` and `Down` of pkg/migrate/migrator.go.
--
-- The gate's loop takes the list of its waits: what other replicas do to the database during one,
-- and whether the context ended it. `false` says that the waits are used up.
use mathlib.Core.List.{Memᴰ}
use mathlib.Core.List.Memᴰ
use xqua_go.Prelude.{
  ℕ, zero, suc, Bytes, bytes_eq, Bool, true, false, Bool-cases, List, [], ◌∷◌, Option, ◌≡◌, refl,
  inl, inr, sym, subst, ap, ◌∙◌, if◌then◌else◌, take, arith, ◌==◌,
}
use xqua_go.Migrate.Run.{
  Result, ok, err, External, Migration, Error, Run, ok_injective, same_result, pair, pure, fail,
  lift, after, after-ok, ◌>>=◌, ◌>>◌, done, external, lock_held, no_down_file, roll_back_failed,
}
use xqua_go.Migrate.Discover.{Files}
use xqua_go.Migrate.Database.{Database, Migrator, discover}
use xqua_go.Migrate.Gate.Keeping.{Keeping}
use xqua_go.Migrate.Gate.Applied.{AllRecorded, attempt_gate-applies_all}
use xqua_go.Migrate.Gate.{
  outcome, acquire_conn, released, unlocked, try_advisory_lock, ensure_meta, applied_versions,
  versions_of, is_applied, pending_migrations, applied_migrations, apply_down, attempt_gate,
}

abbrev pub reversed : List Migration → List Migration → List Migration
reversed [] acc = acc
reversed (mig ∷ migs) acc = reversed migs (mig ∷ acc)

module _ {D : Type 0} (db : Database D) (os_files : Bytes → Files) (m : Migrator) where
  abbrev pub unless_done : Run D (Unit {0}) → Run D Bool → Bool → Run D Bool
  unless_done pause again true = pure true
  unless_done pause again false = pause >> again

  -- `RunStartupGate`
  unfoldable pub run_startup_gate : List (D → Option External × D) → Run D Bool
  run_startup_gate [] = attempt_gate db os_files m
  run_startup_gate (wait ∷ waits) =
      attempt_gate db os_files m
      >>= unless_done (λ d. outcome external (wait d)) (run_startup_gate waits)

  abbrev pub split_applied : List Migration → Run D (List Migration × List Migration)
  split_applied migs = do
    ws ← applied_versions db os_files m
    pure (applied_migrations migs ws, pending_migrations migs ws)

  -- `Status`
  unfoldable pub status : Run D (List Migration × List Migration)
  status = do
    migs ← lift (discover os_files m.cfg.source)
    acquire_conn db os_files m
    λ d. released db os_files m (split_applied migs d)

  abbrev pub rolled_back_one : Migration → Result Error (Unit {0}) × D → Result Error (Unit {0}) × D
  rolled_back_one mig (ok u, d) = (ok u, d)
  rolled_back_one mig (err e, d) = (err (roll_back_failed mig e), d)

  abbrev pub roll_back : Migration → Run D (Unit {0})
  roll_back mig = if bytes_eq mig.down_path [] then fail (no_down_file mig) else λ d.
      rolled_back_one mig (apply_down db os_files m mig d)

  unfoldable pub roll_back_all : List Migration → Run D (Unit {0})
  roll_back_all [] = pure done
  roll_back_all (mig ∷ migs) = roll_back mig >> roll_back_all migs

  -- Highest applied versions first, at most `steps` of them.
  abbrev pub roll_back_steps : ℕ → Run D (Unit {0})
  unfolding roll_back_all
  roll_back_steps steps = do
    ensure_meta db os_files m
    migs ← lift (discover os_files m.cfg.source)
    ws ← applied_versions db os_files m
    roll_back_all (take steps (applied_migrations (reversed migs []) ws))

  abbrev pub down_locked : ℕ → Bool → Run D (Unit {0})
  down_locked steps false = fail lock_held
  down_locked steps true = λ d. unlocked db os_files m (roll_back_steps steps d)

  -- `Down`
  unfoldable pub down : ℕ → Run D (Unit {0})
  down zero = pure done
  down (suc steps) = acquire_conn db os_files m >> (λ d.
      released db os_files m (after (try_advisory_lock db os_files m d) (down_locked (suc steps))))

-- The list `all` is a shuffle of two lists, each in the order that it has there: of the migrations
-- whose version is among `ws`, and of those whose version is not.
pub data IsShuffle (ws : List ℕ) : (applied pending all : List Migration) → Type 0 where
  end : IsShuffle ws [] [] []
  left :
      {mig : Migration} {as_ ps all : List Migration}
      → Memᴰ mig.version ws
      → IsShuffle ws as_ ps all
      → IsShuffle ws (mig ∷ as_) ps (mig ∷ all)
  right :
      {mig : Migration} {as_ ps all : List Migration}
      → ¬ Memᴰ mig.version ws
      → IsShuffle ws as_ ps all
      → IsShuffle ws as_ (mig ∷ ps) (mig ∷ all)

is_applied-sound : (ws : List ℕ) (v : ℕ) → is_applied ws v ≡ true → Memᴰ v ws
unfolding is_applied
is_applied-sound [] v h = cc
is_applied-sound (w ∷ ws) v h = elim (Bool-cases (w == v)) [
  | inl here_ ↦ Memᴰ.head (ground arith)
  | inr there_ ↦ Memᴰ.tail (is_applied-sound ws v (rw there_ at h))
]

is_applied_complete : (ws : List ℕ) (v : ℕ) → Memᴰ v ws → is_applied ws v ≡ true
unfolding is_applied
is_applied_complete [] v m = absurd (Memᴰ.not-nil m)
is_applied_complete (w ∷ ws) v m = elim (Memᴰ.cases_cons m) [
  | inl e ↦ ground arith
  | inr later ↦ let rest = is_applied_complete ws v later in ground arith
]

split-IsShuffle :
    (all : List Migration) (ws : List ℕ)
    → IsShuffle ws (applied_migrations all ws) (pending_migrations all ws) all
unfolding pending_migrations
split-IsShuffle [] ws = end
split-IsShuffle (mig ∷ all) ws = elim (Bool-cases (is_applied ws mig.version)) [
  | inl applied ↦
      rw applied (left (is_applied-sound ws mig.version applied) (split-IsShuffle all ws))
  | inr pending ↦
      let unlisted : ¬ Memᴰ mig.version ws =
        λ m. let listed = is_applied_complete ws mig.version m in cc in
      rw pending (right unlisted (split-IsShuffle all ws))
]

-- Where `Status` succeeds, it has read a list of versions from the table of the applied ones, and
-- what discovery finds is a shuffle of the two lists that it reports: the first has the migrations
-- with a version of that list, the second the others, each in the order of discovery.
pub status-IsShuffle :
    {D : Type 0} (db : Database D) (os_files : Bytes → Files) (m : Migrator) (d d' : D)
    (migs as_ ps : List Migration)
    → discover os_files m.cfg.source ≡ ok migs
    → status db os_files m d ≡ (ok (as_, ps), d')
    → (connected : D) × (acquire_conn db os_files m d ≡ (ok done, connected))
      × (ws : List ℕ) × (versions_of (db.query_versions m.tbl_applied connected) ≡ ok ws)
      × IsShuffle ws as_ ps migs
unfolding status applied_versions
status-IsShuffle {D = D} db os_files m d d' migs as_ ps found h =
    let (all, d1, p, q) =
      after-ok (discover os_files m.cfg.source, d)
        (λ migs.
          acquire_conn db os_files m
          >> (λ c. released db os_files m (split_applied db os_files m migs c)))
        h in
    let (u, d2, x, y) =
      after-ok (acquire_conn db os_files m d1)
        (λ _ c. released db os_files m (split_applied db os_files m all c)) q in
    let (ws, read, shuffle) =
      reported all d2 (versions_of (db.query_versions m.tbl_applied d2)) y in
    (
      d2,
      ap (λ (x : Result Error (List Migration) × D). acquire_conn db os_files m x.1) p ∙ x,
      ws,
      read,
      subst (IsShuffle ws as_ ps)
          (ok_injective (sym (same_result (discover os_files m.cfg.source) p) ∙ found)) shuffle,
    )
  where
    report :
        List Migration
        → D
        → Result Error (List ℕ)
        → Result Error (List Migration × List Migration) × D
    report all d2 r = released db os_files m (
        after (pair r d2)
          (λ ws. pure (pair (applied_migrations all ws) (pending_migrations all ws))))

    reported :
        (all : List Migration) (d2 : D) (r : Result Error (List ℕ))
        → report all d2 r ≡ (ok (as_, ps), d')
        → (ws : List ℕ) × (r ≡ ok ws) × IsShuffle ws as_ ps all
    reported all d2 (ok ws) y =
        let first : applied_migrations all ws ≡ as_ = cc in
        let second : pending_migrations all ws ≡ ps = cc in
        (
          ws,
          refl,
          subst (λ l. IsShuffle ws l ps all) first
              (subst (λ l. IsShuffle ws (applied_migrations all ws) l all) second
                (split-IsShuffle all ws)),
        )
    reported all d2 (err e) y = cc

-- Where the startup gate opens, after whatever other replicas did in the waits, every version that
-- discovery finds is recorded in the database, for a database that keeps its rows.
pub run_startup_gate-applies_all :
    {D : Type 0} (db : Database D) (os_files : Bytes → Files) (m : Migrator)
    (recorded : D → ℕ → Bool) (keeping : Keeping db recorded)
    (waits : List (D → Option External × D)) (d d' : D) (migs : List Migration)
    → discover os_files m.cfg.source ≡ ok migs
    → run_startup_gate db os_files m waits d ≡ (ok true, d')
    → AllRecorded db os_files m recorded keeping d' migs
unfolding run_startup_gate
run_startup_gate-applies_all db os_files m recorded keeping [] d d' migs found h =
    attempt_gate-applies_all db os_files m recorded keeping d d' migs found h
run_startup_gate-applies_all {D = D} db os_files m recorded keeping (wait ∷ waits) d d' migs found
      h =
    attempted
      (λ c. run_startup_gate-applies_all db os_files m recorded keeping waits c d' migs found)
      (attempt_gate db os_files m d) refl h
  where
    attempted :
        ((c : D)
          → run_startup_gate db os_files m waits c ≡ (ok true, d')
          → AllRecorded db os_files m recorded keeping d' migs)
        → (r : Result Error Bool × D) → attempt_gate db os_files m d ≡ r
        → after r (
            unless_done db os_files m
              (λ c. outcome external (wait c))
              (run_startup_gate db os_files m waits))
          ≡ (ok true, d')
        → AllRecorded db os_files m recorded keeping d' migs
    attempted rec (ok true, c) a z =
        attempt_gate-applies_all db os_files m recorded keeping d d' migs found (a ∙ z)
    attempted rec (ok false, c) a z =
        let (u, c', x, y) =
          after-ok (outcome external (wait c)) (λ _. run_startup_gate db os_files m waits) z in
        rec c' y
    attempted rec (err e, c) a z = cc
