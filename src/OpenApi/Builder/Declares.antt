-- ===== src/OpenApi/Builder/Declares.antt =====
-- An operation that is built declares the parameters of its path, as the validation wants it.
use mathlib.Core.List.{Memᴰ}
use mathlib.Core.List.Memᴰ
use xqua_go.Prelude.{
  ℕ, suc, Bytes, bytes, bytes_eq, bytes_eq_cases, bytes_eq_refl, Bool, true, false, Bool-cases, not,
  ◌&&◌, ◌||◌, List, [], ◌∷◌, ◌++◌, Option, none, some, has_prefix, ◌≡◌, ◌≢◌, ◌⊎◌, inl, inr, refl,
  sym, ap, ◌∙◌, subst, arith,
}
use xqua_go.OpenApi.Spec.Paths.{Parameter}
use xqua_go.OpenApi.Validate.Extras.{is_given, contains_text}
use xqua_go.OpenApi.Validate.PathParams.{is_direct_in}
use xqua_go.OpenApi.Validate.PathParams.Declared.{IsDeclared, IsDeclared-later, AllDeclared}
use xqua_go.OpenApi.Validate.Templates.{param_names}
use xqua_go.OpenApi.Builder.{
  existing_names, has_component_ref, path_parameter, inject_one, inject, ensure_path_parameters,
}

-- The path parameters are required.
abbrev pub AllRequired : List (Option Parameter) → Type 0
AllRequired [] = Unit {0}
AllRequired (none ∷ ps) = AllRequired ps
AllRequired (some p ∷ ps) =
    (not (is_direct_in (bytes "path") (some p)) || p.required) ≡ true × AllRequired ps

IsDeclared-left :
    (ps qs : List (Option Parameter)) (name : Bytes)
    → IsDeclared ps name
    → IsDeclared (ps ++ qs) name
IsDeclared-left ps qs name d = record {
  parameter = d.parameter;
  listed = Memᴰ.append_left qs d.listed;
  direct = d.direct;
  named = d.named;
  required = d.required;
}

IsDeclared-right :
    (ps qs : List (Option Parameter)) (name : Bytes)
    → IsDeclared qs name
    → IsDeclared (ps ++ qs) name
IsDeclared-right ps qs name d = record {
  parameter = d.parameter;
  listed = Memᴰ.append_right ps d.listed;
  direct = d.direct;
  named = d.named;
  required = d.required;
}

existing-IsDeclared :
    (ps : List (Option Parameter)) (name : Bytes)
    → AllRequired ps
    → contains_text (existing_names ps) name ≡ true
    → IsDeclared ps name
unfolding contains_text
existing-IsDeclared [] name r h = absurd (ground arith)
existing-IsDeclared (none ∷ ps) name r h =
    IsDeclared-later none ps name (existing-IsDeclared ps name r h)
existing-IsDeclared (some p ∷ ps) name (own, r) h =
    elim (Bool-cases (is_direct_in (bytes "path") (some p) && is_given p.name)) [
      | inr other ↦
          IsDeclared-later (some p) ps name (existing-IsDeclared ps name r (rw other at h))
      | inl direct ↦ elim (bytes_eq_cases p.name name) [
        | inr (diff, ne) ↦
            IsDeclared-later (some p) ps name
              (existing-IsDeclared ps name r (rw diff at (rw direct at h)))
        | inl (eq, same) ↦ record {
          parameter = p;
          listed = Memᴰ.head refl;
          direct = ground arith;
          named = same;
          required = ground arith;
        }
      ]
    ]

-- A parameter that is injected
path_parameter-IsDeclared :
    (name : Bytes) (fresh : ℕ) (ps : List (Option Parameter))
    → IsDeclared (some (path_parameter name fresh) ∷ ps) name
unfolding bytes_eq
path_parameter-IsDeclared name fresh ps = record {
  parameter = path_parameter name fresh;
  listed = Memᴰ.head refl;
  direct = refl;
  named = refl;
  required = refl;
}

inject-IsDeclared :
    (names : List Bytes) (fresh : ℕ) (existing : List Bytes) (name : Bytes)
    → contains_text names name ≡ true
    → (contains_text existing name ≡ true) ⊎ IsDeclared (inject names fresh existing) name
unfolding inject contains_text
inject-IsDeclared [] fresh existing name h = absurd (ground arith)
inject-IsDeclared (n ∷ names) fresh existing name h =
    turn (contains_text existing n) refl (bytes_eq_cases n name)
      (λ f e k. inject-IsDeclared names f e name k)
  where
    turn :
        (b : Bool)
        → contains_text existing n ≡ b
        → ((bytes_eq n name ≡ true) × (n ≡ name)) ⊎ ((bytes_eq n name ≡ false) × (n ≢ name))
        → ((f : ℕ) (e : List Bytes)
            → contains_text names name ≡ true
            → (contains_text e name ≡ true) ⊎ IsDeclared (inject names f e) name)
        → (contains_text existing name ≡ true)
          ⊎ IsDeclared (inject_one b n fresh existing (λ f e. inject names f e)) name
    turn true e (inl (eq, same)) rest = inl (ap (contains_text existing) (sym same) ∙ e)
    turn true e (inr (diff, ne)) rest = rest fresh existing (rw diff at h)
    turn false e (inl (eq, same)) rest = inr (
        subst (IsDeclared (some (path_parameter n fresh) ∷ inject names (suc fresh) (n ∷ existing)))
          same (path_parameter-IsDeclared n fresh (inject names (suc fresh) (n ∷ existing))))
    turn false e (inr (diff, ne)) rest = elim (rest (suc fresh) (n ∷ existing) (rw diff at h)) [
      | inl before ↦ inl (rw diff at before)
      | inr later ↦ inr (
          IsDeclared-later (some (path_parameter n fresh)) (inject names (suc fresh) (n ∷ existing))
            name later)
    ]

AllDeclared-each :
    (params : List (Option Parameter)) (names : List Bytes)
    → ((name : Bytes) → contains_text names name ≡ true → IsDeclared params name)
    → AllDeclared params names
unfolding contains_text
AllDeclared-each params [] h = tt
AllDeclared-each params (n ∷ names) h = (
  h n (rw (bytes_eq_refl n) refl),
  AllDeclared-each params names (λ name e. h name (ground arith)),
)

-- When the builder has ensured the path parameters of an operation at a path that begins with a
-- slash, every template of the path is declared by a required path parameter, which is what the
-- validation of the path wants, and the parameters that were there stand first. The parameters that
-- were there have no reference to the components, and their path parameters are required.
pub ensure_path_parameters-AllDeclared :
    (target : Bytes) (fresh : ℕ) (params : List (Option Parameter))
    → has_prefix target (bytes "/") ≡ true
    → has_component_ref params ≡ false
    → AllRequired params
    → AllDeclared (ensure_path_parameters target fresh params) (param_names target)
      × (added : List (Option Parameter)) × (ensure_path_parameters target fresh params
          ≡ params ++ added)
unfolding ensure_path_parameters
ensure_path_parameters-AllDeclared target fresh params slash direct required =
    let added = inject (param_names target) fresh (existing_names params) in
    let same : ensure_path_parameters target fresh params ≡ params ++ added =
      rw slash (rw direct refl) in
    (
      subst (λ ps. AllDeclared ps (param_names target)) (sym same)
          (AllDeclared-each (params ++ added) (param_names target) (λ name e.
            elim (inject-IsDeclared (param_names target) fresh (existing_names params) name e) [
              | inl before ↦
                  IsDeclared-left params added name
                    (existing-IsDeclared params name required before)
              | inr injected ↦ IsDeclared-right params added name injected
            ])),
      added,
      same,
    )
