-- ===== src/Migrate/Run.antt =====
-- Fallible steps on the database, for pkg/migrate: results, the errors of the package by the
-- place that makes them, and runs, which thread the database and stop at the first error.
use xqua_go.Prelude.{ℕ, Bytes, ◌≡◌, refl}

pub data Result {ℓ} (E : Type ℓ) (A : Type ℓ) : Type ℓ where
  ok : A → Result E A
  err : E → Result E A

-- An error of pgx or of a file system, by what the package asks of it: whether it is
-- `pgx.ErrNoRows`, and the SQLSTATE code where it is a `PgError`.
pub data External : Type 0 where
  no_rows : External
  pg_error : Bytes → External
  other : ℕ → External

pub record Migration : Type 0 where
  pub version : ℕ
  pub name : Bytes
  pub up_path : Bytes
  pub down_path : Bytes

-- One constructor for each `fmt.Errorf` of the package, with what it formats; `external` is an
-- error returned as it came.
pub data Error : Type 0 where
  external : External → Error
  pool_required : Error
  instance_id_required : Error
  dir_required : Error
  schema_too_long : Bytes → Error
  schema_shape : Bytes → Error
  read_dir_failed : Bytes → External → Error
  conflicting_names : ℕ → Bytes → Bytes → Error
  missing_up : ℕ → Error
  missing_down : ℕ → Error
  read_failed : Bytes → External → Error
  acquire_failed : External → Error
  lock_failed : External → Error
  lock_held : Error
  refusing_to_start : Error
  ensure_schema_failed : External → Error
  ensure_meta_failed : External → Error
  read_meta_failed : External → Error
  meta_step_failed : ℕ → External → Error
  record_meta_failed : External → Error
  apply_failed : Migration → Error → Error
  apply_unrecorded : Error → Error → Error
  no_down_file : Migration → Error
  roll_back_failed : Migration → Error → Error

abbrev pub Run : Type 0 → Type 0 → Type 0
Run D A = D → Result Error A × D

module _ {D : Type 0} where
  abbrev pub pure : {A : Type 0} → A → Run D A
  pure a d = (ok a, d)

  abbrev pub fail : {A : Type 0} → Error → Run D A
  fail e d = (err e, d)

  -- A result with its state, carried on by `k` unless it is an error.
  abbrev pub after : {A B : Type 0} → Result Error A × D → (A → Run D B) → Result Error B × D
  after (ok a, d) k = k a d
  after (err e, d) k = (err e, d)

  infixl 5 ◌>>=◌ ◌>>◌
  abbrev pub ◌>>=◌ : {A B : Type 0} → Run D A → (A → Run D B) → Run D B
  (m >>= k) d = after (m d) k

  abbrev pub ◌>>◌ : {A B : Type 0} → Run D A → Run D B → Run D B
  (m >> n) d = after (m d) (λ _. n)

  -- A computation that does not touch the database.
  abbrev pub lift : {A : Type 0} → Result Error A → Run D A
  lift r d = (r, d)

  pub after-ok :
      {A B : Type 0} (r : Result Error A × D) (k : A → Run D B) {b : B} {d' : D}
      → after r k ≡ (ok b, d')
      → (a : A) × (d : D) × (r ≡ (ok a, d)) × (k a d ≡ (ok b, d'))
  after-ok (ok a, d) k h = (a, d, refl, h)
  after-ok (err e, d) k h = cc

abbrev pub wrap_err : {A : Type 0} → (External → Error) → Result External A → Result Error A
wrap_err w (ok a) = ok a
wrap_err w (err e) = err (w e)

abbrev pub done : Unit {0}
done = tt

abbrev pub bind : {A B : Type 0} → Result Error A → (A → Result Error B) → Result Error B
bind (ok a) k = k a
bind (err e) k = err e

pub bind-ok :
    {A B : Type 0} (r : Result Error A) (k : A → Result Error B) {b : B}
    → bind r k ≡ ok b
    → (a : A) × (r ≡ ok a) × (k a ≡ ok b)
bind-ok (ok a) k h = (a, refl, h)
bind-ok (err e) k h = cc

abbrev pub the_ok : {A : Type 0} → A → Result Error A
the_ok a = ok a

pub ok_injective : {A : Type 0} {a b : A} → the_ok a ≡ the_ok b → a ≡ b
ok_injective h = cc

abbrev pub pair : {A D : Type 0} → A → D → A × D
pair a d = (a, d)

-- A computation that does not touch the database leaves it and its result as they were.
pub same_state :
    {D A : Type 0} (r : Result Error A) {d d' : D} {a : A} → pair r d ≡ (ok a, d') → d ≡ d'
same_state r h = cc

pub same_result :
    {D A : Type 0} (r : Result Error A) {d d' : D} {a : A} → pair r d ≡ (ok a, d') → r ≡ ok a
same_result r h = cc
