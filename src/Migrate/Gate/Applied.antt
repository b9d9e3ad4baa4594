-- ===== src/Migrate/Gate/Applied.antt =====
-- A gate that opens has applied every discovered migration, for a database that keeps its rows.
use xqua_go.Prelude.{
  ℕ, Bytes, Bool, true, false, Bool-cases, List, [], ◌∷◌, ◌≡◌, ◌≢◌, inl, inr, refl, subst, sym, ◌∙◌,
  bytes, bytes_eq,
}
use xqua_go.Migrate.Run.{
  Result, ok, err, Migration, Error, ok_injective, same_state, same_result, after, after-ok, ◌>>=◌,
  ◌>>◌, pure, fail, lift, refusing_to_start, apply_failed,
}
use xqua_go.Migrate.Discover.{Files}
use xqua_go.Migrate.Database.{Database, Migrator, discover, read_up, trim_space}
use xqua_go.Migrate.Gate.{
  ensure_meta, applied_versions, versions_of, is_applied, pending_migrations, apply_sql, apply_up,
  apply_all, recorded_failure, after_failure, run_pending, set_state_idle, set_state_running,
  set_state_failed, last_version, run_leader, attempt_gate, unlocked, released, acquire_conn, lead,
  unless_failed, try_advisory_lock, read_status,
}
use xqua_go.Migrate.Gate.Keeping.{
  Keeping, Keeps, pure-Keeps, >>=-Keeps, set_state_idle-Keeps, set_state_running-Keeps,
  apply_sql-records, apply_sql-Keeps,
}

module _ {D : Type 0} (db : Database D) (os_files : Bytes → Files) (m : Migrator)
    (recorded : D → ℕ → Bool) (keeping : Keeping db recorded) where
  apply_up-records :
      (mig : Migration) (d d' : D) (u : Unit {0})
      → apply_up db os_files m mig d ≡ (ok u, d')
      → recorded d' mig.version ≡ true
  unfolding apply_up
  apply_up-records mig d d' u h =
      let (content, d1, x, y) =
        after-ok (read_up os_files m.cfg.source mig, d)
          (λ c. apply_sql db os_files m mig (trim_space c)) h in
      apply_sql-records db os_files m recorded keeping mig (trim_space content) d1 d' u y

  apply_up-Keeps :
      (mig : Migration) → Keeps db os_files m recorded keeping (apply_up db os_files m mig)
  unfolding apply_up
  apply_up-Keeps mig =
      >>=-Keeps db os_files m recorded keeping (lift (read_up os_files m.cfg.source mig))
        (λ c. apply_sql db os_files m mig (trim_space c))
        (λ d d' a v h r.
          subst (λ s. recorded s v ≡ true) (same_state (read_up os_files m.cfg.source mig) h) r)
        (λ c. apply_sql-Keeps db os_files m recorded keeping mig (trim_space c))

  after_failure-err :
      (e : Error) (q : Result Error (Unit {0}) × D) (d' : D) (u : Unit {0})
      → after_failure db os_files m e q ≢ (ok u, d')
  after_failure-err e (ok x, d) d' u z = cc
  after_failure-err e (err x, d) d' u z = cc

  recorded_failure-ok :
      (mig : Migration) (r : Result Error (Unit {0}) × D) (d' : D) (u : Unit {0})
      → recorded_failure db os_files m mig r ≡ (ok u, d')
      → r ≡ (ok u, d')
  recorded_failure-ok mig (ok x, d) d' u h = h
  recorded_failure-ok mig (err e, d) d' u h = absurd (
      after_failure-err (apply_failed mig e) (set_state_failed db os_files m (apply_failed mig e) d)
        d' u h)

  -- Every version of the list is recorded.
  abbrev pub AllRecorded : D → List Migration → Type 0
  AllRecorded d [] = Unit {0}
  AllRecorded d (mig ∷ migs) = (recorded d mig.version ≡ true) × AllRecorded d migs

  AllRecorded-later :
      (migs : List Migration) (d d' : D)
      → ((v : ℕ) → recorded d v ≡ true → recorded d' v ≡ true)
      → AllRecorded d migs
      → AllRecorded d' migs
  AllRecorded-later [] d d' k all = tt
  AllRecorded-later (mig ∷ migs) d d' k (r, all) =
      (k mig.version r, AllRecorded-later migs d d' k all)

  apply_all-Keeps :
      (migs : List Migration) → Keeps db os_files m recorded keeping (apply_all db os_files m migs)
  unfolding apply_all
  apply_all-Keeps [] = pure-Keeps db os_files m recorded keeping tt
  apply_all-Keeps (mig ∷ migs) =
      >>=-Keeps db os_files m recorded keeping
        (λ d. recorded_failure db os_files m mig (apply_up db os_files m mig d))
        (λ _. apply_all db os_files m migs)
        (λ d d' u v h r.
          apply_up-Keeps mig d d' u v
            (recorded_failure-ok mig (apply_up db os_files m mig d) d' u h) r)
        (λ _. apply_all-Keeps migs)

  apply_all-records :
      (migs : List Migration) (d d' : D) (u : Unit {0})
      → apply_all db os_files m migs d ≡ (ok u, d')
      → AllRecorded d' migs
  unfolding apply_all
  apply_all-records [] d d' u h = tt
  apply_all-records (mig ∷ migs) d d' u h =
      let (a, mid, x, y) =
        after-ok (recorded_failure db os_files m mig (apply_up db os_files m mig d))
          (λ _. apply_all db os_files m migs) h in
      (
        apply_all-Keeps migs mid d' u mig.version y (
            apply_up-records mig d mid a
              (recorded_failure-ok mig (apply_up db os_files m mig d) mid a x)),
        apply_all-records migs mid d' u y,
      )

  run_pending-ok :
      (migs : List Migration) (d d' : D) (u : Unit {0})
      → run_pending db os_files m migs d ≡ (ok u, d')
      → AllRecorded d' migs × ((v : ℕ) → recorded d v ≡ true → recorded d' v ≡ true)
  unfolding run_pending
  run_pending-ok [] d d' u h =
      (tt, λ v. set_state_idle-Keeps db os_files m recorded keeping d d' u v h)
  run_pending-ok (mig ∷ migs) d d' u h =
      let (a, d1, x, y) =
        after-ok (set_state_running db os_files m m.cfg.instance_id (last_version mig migs) d)
          (λ _. apply_all db os_files m (mig ∷ migs) >> set_state_idle db os_files m) h in
      let (b, d2, z, w) =
        after-ok (apply_all db os_files m (mig ∷ migs) d1) (λ _. set_state_idle db os_files m) y in
      (
        AllRecorded-later (mig ∷ migs) d2 d'
            (λ v. set_state_idle-Keeps db os_files m recorded keeping d2 d' u v w)
            (apply_all-records (mig ∷ migs) d1 d2 b z),
        λ v r. set_state_idle-Keeps db os_files m recorded keeping d2 d' u v w (
            apply_all-Keeps (mig ∷ migs) d1 d2 b v z (
              set_state_running-Keeps db os_files m recorded keeping m.cfg.instance_id
                (last_version mig migs) d d1 a v x r)),
      )

  -- Pending migrations are recorded by the leader, and the others already are.
  all_recorded :
      (all : List Migration) (ws : List ℕ) (d : D)
      → ((v : ℕ) → is_applied ws v ≡ true → recorded d v ≡ true)
      → AllRecorded d (pending_migrations all ws)
      → AllRecorded d all
  unfolding pending_migrations
  all_recorded [] ws d old new = tt
  all_recorded (mig ∷ all) ws d old new = elim (Bool-cases (is_applied ws mig.version)) [
    | inl applied ↦ (old mig.version applied, all_recorded all ws d old (rw applied at new))
    | inr pending ↦
        let (first, rest) : AllRecorded d (mig ∷ pending_migrations all ws) = rw pending at new in
        (first, all_recorded all ws d old rest)
  ]

  run_leader-records :
      (d d' : D) (u : Unit {0}) (migs : List Migration)
      → run_leader db os_files m d ≡ (ok u, d')
      → discover os_files m.cfg.source ≡ ok migs
      → AllRecorded d' migs
  unfolding run_leader applied_versions
  run_leader-records d d' u migs h found =
      let (a, d1, x, y) =
        after-ok (ensure_meta db os_files m d)
          (λ _. lift (discover os_files m.cfg.source) >>= (λ all.
            applied_versions db os_files m
            >>= (λ ws. run_pending db os_files m (pending_migrations all ws))))
          h in
      let (all, d2, p, q) =
        after-ok (discover os_files m.cfg.source, d1)
          (λ all.
            applied_versions db os_files m
            >>= (λ ws. run_pending db os_files m (pending_migrations all ws)))
          y in
      let (ws, d3, r, s) =
        after-ok (versions_of (db.query_versions m.tbl_applied d2), d2)
          (λ ws. run_pending db os_files m (pending_migrations all ws)) q in
      let (new, kept) = run_pending-ok (pending_migrations all ws) d3 d' u s in
      let old : (v : ℕ) → is_applied ws v ≡ true → recorded d' v ≡ true = λ v i. kept v (
        subst (λ c. recorded c v ≡ true)
          (same_state (versions_of (db.query_versions m.tbl_applied d2)) r)
          (keeping.rows_recorded m.tbl_applied d2 ws v
            (same_result (versions_of (db.query_versions m.tbl_applied d2)) r) i)) in
      subst (AllRecorded d')
        (ok_injective (sym (same_result (discover os_files m.cfg.source) p) ∙ found))
        (all_recorded all ws d' old new)

  lead-records :
      (b : Bool) (d d' : D) (migs : List Migration)
      → lead db os_files m b d ≡ (ok true, d')
      → discover os_files m.cfg.source ≡ ok migs
      → AllRecorded d' migs
  lead-records false d d' migs h found = cc
  lead-records true d d' migs h found = led (run_leader db os_files m d) refl h
    where
      led :
          (q : Result Error (Unit {0}) × D)
          → run_leader db os_files m d ≡ q
          → unlocked db os_files m (after q (λ _. pure true)) ≡ (ok true, d')
          → AllRecorded d' migs
      led (ok u, d1) r z =
          AllRecorded-later migs d1 d'
            (λ v x.
              subst (λ c. recorded c v ≡ true) (same_state (ok true) z)
                (keeping.unlock_keeps m.cfg.advisory_lock_key d1 v x))
            (run_leader-records d d1 u migs r found)
      led (err e, d1) r z = cc

  unless_failed-records :
      (status : Bytes) (d d' : D) (migs : List Migration)
      → unless_failed db os_files m status d ≡ (ok true, d')
      → discover os_files m.cfg.source ≡ ok migs
      → AllRecorded d' migs
  unless_failed-records status d d' migs h found =
      elim (Bool-cases (bytes_eq status (bytes "failed"))) [
        | inl failed ↦ absurd (refused (rw failed at h))
        | inr fine ↦
            let (b, d1, x, y) =
              after-ok (try_advisory_lock db os_files m d) (lead db os_files m) (rw fine at h) in
            lead-records b d1 d' migs y found
      ]
    where
      refused : (fail refusing_to_start d) ≢ (ok true, d')
      refused z = cc

  -- Where one attempt at the gate reports that it is done, every version that discovery finds is
  -- recorded in the database, for a database that keeps its rows.
  pub attempt_gate-applies_all :
      (d d' : D) (migs : List Migration)
      → discover os_files m.cfg.source ≡ ok migs
      → attempt_gate db os_files m d ≡ (ok true, d')
      → AllRecorded d' migs
  unfolding attempt_gate
  attempt_gate-applies_all d d' migs found h =
      let (a, d1, x, y) =
        after-ok (acquire_conn db os_files m d)
          (λ _ c.
            released db os_files m
              (after (read_status db os_files m c) (unless_failed db os_files m)))
          h in
      inside d1 (after (read_status db os_files m d1) (unless_failed db os_files m)) refl y
    where
      inside :
          (d1 : D) (q : Result Error Bool × D)
          → after (read_status db os_files m d1) (unless_failed db os_files m) ≡ q
          → released db os_files m q ≡ (ok true, d')
          → AllRecorded d' migs
      inside d1 (ok true, d2) r z =
          let (status, d3, x, y) =
            after-ok (read_status db os_files m d1) (unless_failed db os_files m) r in
          AllRecorded-later migs d2 d'
            (λ v p.
              subst (λ c. recorded c v ≡ true) (same_state (ok true) z)
                (keeping.release_keeps d2 v p))
            (unless_failed-records status d3 d2 migs y found)
      inside d1 (ok false, d2) r z = cc
      inside d1 (err e, d2) r z = cc
