-- ===== src/Migrate/Gate/Keeping.antt =====
-- What a database must keep for the rows of applied versions to stay, and the steps of the gate
-- that keep them: statements, transactions and the application of one file.
use xqua_go.Prelude.{ℕ, Bytes, Bool, true, List, [], ◌∷◌, Option, none, some, ◌≡◌, ◌≢◌, refl, subst}
use xqua_go.Migrate.Run.{
  Result, ok, err, External, Migration, Error, Run, same_state, after, after-ok, ◌>>=◌, ◌>>◌, pure,
  external,
}
use xqua_go.Migrate.Discover.{Files}
use xqua_go.Migrate.Database.{
  Statement, set_idle, set_running, unlock, migration_sql, insert_applied, delete_applied, Database,
  Migrator,
}
use xqua_go.Migrate.Gate.{
  outcome, exec, state_of, commit_tx, rolled_back, versions_of, is_applied, insert_row, apply_sql,
  set_state_idle, set_state_running, in_transaction,
}

-- What keeps the rows of applied versions, seen by the connection that holds the state: only a
-- `DELETE` of the package takes one away, and the deferred rollback does nothing once the
-- transaction is committed. `recorded d v` says that `d` has the row of the version `v`.
pub record Keeping {D : Type 0} (db : Database D) (recorded : D → ℕ → Bool) : Type 0 where
  pub exec_keeps :
      (s : Statement) (d d' : D) (v : ℕ)
      → ((t : Bytes) (w : ℕ) → s ≢ delete_applied t w)
      → db.exec s d ≡ (none, d')
      → recorded d v ≡ true
      → recorded d' v ≡ true
  pub insert_records :
      (t name : Bytes) (d d' : D) (v : ℕ)
      → db.exec (insert_applied t v name) d ≡ (none, d')
      → recorded d' v ≡ true
  pub begin_keeps :
      (d d' : D) (v : ℕ) → db.begin d ≡ (none, d') → recorded d v ≡ true → recorded d' v ≡ true
  pub commit_keeps :
      (d d' : D) (v : ℕ)
      → db.commit d ≡ (none, d')
      → recorded d v ≡ true
      → recorded (db.rollback d') v ≡ true
  pub release_keeps : (d : D) (v : ℕ) → recorded d v ≡ true → recorded (db.release d) v ≡ true
  pub unlock_keeps :
      (k : ℕ) (d : D) (v : ℕ)
      → recorded d v ≡ true
      → recorded (state_of (db.exec (unlock k) d)) v ≡ true
  pub rows_recorded :
      (t : Bytes) (d : D) (ws : List ℕ) (v : ℕ)
      → versions_of (db.query_versions t d) ≡ ok ws
      → is_applied ws v ≡ true
      → recorded d v ≡ true

outcome-ok :
    {D : Type 0} (w : External → Error) (r : Option External × D) {u : Unit {0}} {d' : D}
    → outcome w r ≡ (ok u, d')
    → r ≡ (none, d')
outcome-ok w (none, d) h = cc
outcome-ok w (some e, d) h = cc

module _ {D : Type 0} (db : Database D) (os_files : Bytes → Files) (m : Migrator)
    (recorded : D → ℕ → Bool) (keeping : Keeping db recorded) where
  -- A success of the run loses no recorded version.
  abbrev pub Keeps : {A : Type 0} → Run D A → Type 0
  Keeps {A = A} r =
      (d d' : D) (a : A) (v : ℕ) → r d ≡ (ok a, d') → recorded d v ≡ true → recorded d' v ≡ true

  pub pure-Keeps : {A : Type 0} (a : A) → Keeps (pure {D = D} a)
  pure-Keeps a d d' b v h r = subst (λ x. recorded x v ≡ true) (same_state (ok a) h) r

  pub >>=-Keeps :
      {A B : Type 0} (r : Run D A) (k : A → Run D B)
      → Keeps r
      → ((a : A) → Keeps (k a))
      → Keeps (r >>= k)
  >>=-Keeps r k first next d d' b v h rec =
      let (a, mid, x, y) = after-ok (r d) k h in next a mid d' b v y (first d mid a v x rec)

  exec-Keeps :
      (w : External → Error) (s : Statement)
      → ((t : Bytes) (n : ℕ) → s ≢ delete_applied t n)
      → Keeps (exec db os_files m w s)
  exec-Keeps w s ne d d' u v h rec =
      keeping.exec_keeps s d d' v ne (outcome-ok w (db.exec s d) h) rec

  pub set_state_idle-Keeps : Keeps (set_state_idle db os_files m)
  set_state_idle-Keeps = exec-Keeps external (set_idle m.tbl_state) (λ t n. cc)

  pub set_state_running-Keeps :
      (holder : Bytes) (target : ℕ) → Keeps (set_state_running db os_files m holder target)
  set_state_running-Keeps holder target =
      exec-Keeps external (set_running m.tbl_state holder target) (λ t n. λ e. cc)

  insert_row-records :
      (mig : Migration) (d d' : D) (u : Unit {0})
      → insert_row db os_files m mig d ≡ (ok u, d')
      → recorded d' mig.version ≡ true
  insert_row-records mig d d' u h =
      keeping.insert_records m.tbl_applied mig.name d d' mig.version
        (outcome-ok external (db.exec (insert_applied m.tbl_applied mig.version mig.name) d) h)

  -- What a transaction leaves is what its body left, committed.
  in_transaction-ok :
      (body : Run D (Unit {0})) (d d' : D) (u : Unit {0})
      → in_transaction db os_files m body d ≡ (ok u, d')
      → (d1 : D) × (d2 : D) × (d3 : D) × (db.begin d ≡ (none, d1))
        × (body d1 ≡ (ok tt, d2))
        × (db.commit d2 ≡ (none, d3))
        × (db.rollback d3 ≡ d')
  in_transaction-ok body d d' u h = committed (db.begin d) refl h
    where
      end :
          (r : Option External × D) (d2 : D)
          → db.commit d2 ≡ r
          → rolled_back db os_files m (outcome external r) ≡ (ok u, d')
          → (d3 : D) × (db.commit d2 ≡ (none, d3)) × (db.rollback d3 ≡ d')
      end (none, d3) d2 c e = (d3, c, cc)
      end (some x, d3) d2 c e = cc

      inside :
          (d1 : D) (b : Result Error (Unit {0}) × D)
          → db.begin d ≡ (none, d1)
          → body d1 ≡ b
          → rolled_back db os_files m (after b (λ _. commit_tx db os_files m)) ≡ (ok u, d')
          → (d1 : D) × (d2 : D) × (d3 : D) × (db.begin d ≡ (none, d1))
            × (body d1 ≡ (ok tt, d2))
            × (db.commit d2 ≡ (none, d3))
            × (db.rollback d3 ≡ d')
      inside d1 (ok tt, d2) b x e =
          let (d3, c, q) = end (db.commit d2) d2 refl e in (d1, d2, d3, b, x, c, q)
      inside d1 (err x, d2) b y e = cc

      committed :
          (r : Option External × D)
          → db.begin d ≡ r
          → after
              (outcome external r)
              (λ _ s. rolled_back db os_files m (after (body s) (λ _. commit_tx db os_files m)))
            ≡ (ok u, d')
          → (d1 : D) × (d2 : D) × (d3 : D) × (db.begin d ≡ (none, d1))
            × (body d1 ≡ (ok tt, d2))
            × (db.commit d2 ≡ (none, d3))
            × (db.rollback d3 ≡ d')
      committed (none, d1) b e = inside d1 (body d1) b refl e
      committed (some x, d1) b e = cc

  pub apply_sql-records :
      (mig : Migration) (sql : Bytes) (d d' : D) (u : Unit {0})
      → apply_sql db os_files m mig sql d ≡ (ok u, d')
      → recorded d' mig.version ≡ true
  apply_sql-records mig [] d d' u h = insert_row-records mig d d' u h
  apply_sql-records mig (c ∷ sql) d d' u h =
      let (d1, d2, d3, b, x, k, e) =
        in_transaction-ok
          (exec db os_files m external (migration_sql (c ∷ sql)) >> insert_row db os_files m mig) d
          d' u h in
      let (u', d4, y, z) =
        after-ok (exec db os_files m external (migration_sql (c ∷ sql)) d1)
          (λ _. insert_row db os_files m mig) x in
      subst (λ s. recorded s mig.version ≡ true) e
        (keeping.commit_keeps d2 d3 mig.version k (insert_row-records mig d4 d2 tt z))

  insert_row-Keeps : (mig : Migration) → Keeps (insert_row db os_files m mig)
  insert_row-Keeps mig =
      exec-Keeps external (insert_applied m.tbl_applied mig.version mig.name) (λ t n. λ e. cc)

  pub apply_sql-Keeps : (mig : Migration) (sql : Bytes) → Keeps (apply_sql db os_files m mig sql)
  apply_sql-Keeps mig [] d d' u v h rec = insert_row-Keeps mig d d' u v h rec
  apply_sql-Keeps mig (c ∷ sql) d d' u v h rec =
      let (d1, d2, d3, b, x, k, e) =
        in_transaction-ok
          (exec db os_files m external (migration_sql (c ∷ sql)) >> insert_row db os_files m mig) d
          d' u h in
      subst (λ s. recorded s v ≡ true) e
        (keeping.commit_keeps d2 d3 v k (
          >>=-Keeps (exec db os_files m external (migration_sql (c ∷ sql)))
            (λ _. insert_row db os_files m mig)
            (exec-Keeps external (migration_sql (c ∷ sql)) (λ t n. λ e. cc))
            (λ _. insert_row-Keeps mig) d1 d2 tt v x (keeping.begin_keeps d d1 v b rec)))
