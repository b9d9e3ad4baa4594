-- ===== src/Runtime/Shutdown.antt =====
-- Shutdown: every hook and then every unit is called, each kind in the reverse of its order of
-- registration, whatever the calls return.
use xqua_go.Prelude.{
  ℕ, zero, suc, List, [], ◌∷◌, ◌++◌, Option, none, some, ◌≡◌, refl, ap, ◌∙◌, arith, length,
  get_elem?, append-nil, take, ◌≤◌, ◌<◌,
}
use xqua_go.Runtime.{
  Runtime, RuntimeUnit, LifecycleHook, Event, shutdown_hook, unit_shutdown, shutdown_completed,
  shutdown, shutdown_hooks, shutdown_units, hook_events, unit_events,
}

-- The calls among the events, without what is logged.
abbrev pub calls : List Event → List Event
calls [] = []
calls (Event.shutdown_hook i ∷ es) = Event.shutdown_hook i ∷ calls es
calls (Event.unit_shutdown n ∷ es) = Event.unit_shutdown n ∷ calls es
calls (Event.startup_hook i ∷ es) = Event.startup_hook i ∷ calls es
calls (Event.units_started n ∷ es) = Event.units_started n ∷ calls es
calls (Event.signal_before_ready ∷ es) = calls es
calls (Event.unit_stopped e ∷ es) = calls es
calls (Event.shutdown_started ∷ es) = calls es
calls (Event.hook_failed i e ∷ es) = calls es
calls (Event.unit_shutdown_failed n e ∷ es) = calls es
calls (Event.shutdown_completed ∷ es) = calls es

-- The hooks with the indices below `n`, the highest first.
abbrev pub hooks_below : ℕ → List Event
hooks_below zero = []
hooks_below (suc n) = Event.shutdown_hook n ∷ hooks_below n

-- The shutdowns of the units, the last one first.
abbrev pub units_reversed : List RuntimeUnit → List Event
units_reversed [] = []
units_reversed (u ∷ us) = units_reversed us ++ Event.unit_shutdown u.name ∷ []

calls-append : (xs ys : List Event) → calls (xs ++ ys) ≡ calls xs ++ calls ys
calls-append [] ys = refl
calls-append (Event.shutdown_hook i ∷ es) ys =
    ap (λ l. Event.shutdown_hook i ∷ l) (calls-append es ys)
calls-append (Event.unit_shutdown n ∷ es) ys =
    ap (λ l. Event.unit_shutdown n ∷ l) (calls-append es ys)
calls-append (Event.startup_hook i ∷ es) ys =
    ap (λ l. Event.startup_hook i ∷ l) (calls-append es ys)
calls-append (Event.units_started n ∷ es) ys =
    ap (λ l. Event.units_started n ∷ l) (calls-append es ys)
calls-append (Event.signal_before_ready ∷ es) ys = calls-append es ys
calls-append (Event.unit_stopped e ∷ es) ys = calls-append es ys
calls-append (Event.shutdown_started ∷ es) ys = calls-append es ys
calls-append (Event.hook_failed i e ∷ es) ys = calls-append es ys
calls-append (Event.unit_shutdown_failed n e ∷ es) ys = calls-append es ys
calls-append (Event.shutdown_completed ∷ es) ys = calls-append es ys

get_elem?-below {ℓ} :
    {A : Type ℓ} (xs : List A) (i : ℕ) → i < length xs → (a : A) × (get_elem? xs i ≡ some a)
get_elem?-below [] i h = ground arith
get_elem?-below (x ∷ xs) zero h = (x, refl)
get_elem?-below (x ∷ xs) (suc i) h = get_elem?-below xs i (omega arith)

hook_events-calls : (i : ℕ) (o : Option ℕ) → calls (hook_events i o) ≡ shutdown_hook i ∷ []
hook_events-calls i none = refl
hook_events-calls i (some e) = refl

shutdown_hooks-calls :
    (timeout : ℕ) (fns : List LifecycleHook) (n : ℕ)
    → n ≤ length fns
    → calls (shutdown_hooks timeout fns n) ≡ hooks_below n
unfolding shutdown_hooks
shutdown_hooks-calls timeout fns zero h = refl
shutdown_hooks-calls timeout fns (suc n) h =
    let (fn, e) = get_elem?-below fns n (omega arith) in
    rw e (
      calls-append (hook_events n (fn timeout)) (shutdown_hooks timeout fns n)
      ∙ rw (hook_events-calls n (fn timeout))
          (ap (λ l. shutdown_hook n ∷ l) (shutdown_hooks-calls timeout fns n (omega arith))))

unit_events-calls :
    (u : RuntimeUnit) (o : Option ℕ) → calls (unit_events u o) ≡ unit_shutdown u.name ∷ []
unit_events-calls u none = refl
unit_events-calls u (some e) = refl

units_reversed-snoc :
    (us : List RuntimeUnit) (u : RuntimeUnit)
    → units_reversed (us ++ u ∷ []) ≡ unit_shutdown u.name ∷ units_reversed us
units_reversed-snoc [] u = refl
units_reversed-snoc (v ∷ us) u = ap (λ l. l ++ unit_shutdown v.name ∷ []) (units_reversed-snoc us u)

take-suc :
    (us : List RuntimeUnit) (n : ℕ) (u : RuntimeUnit)
    → get_elem? us n ≡ some u
    → take (suc n) us ≡ take n us ++ u ∷ []
take-suc [] n u e = cc
take-suc (v ∷ us) zero u e = ap (λ w. w ∷ []) cc
take-suc (v ∷ us) (suc n) u e = ap (λ l. v ∷ l) (take-suc us n u e)

take-length : (us : List RuntimeUnit) → take (length us) us ≡ us
take-length [] = refl
take-length (u ∷ us) = ap (λ l. u ∷ l) (take-length us)

shutdown_units-calls :
    (timeout : ℕ) (us : List RuntimeUnit) (n : ℕ)
    → n ≤ length us
    → calls (shutdown_units timeout us n) ≡ units_reversed (take n us)
unfolding shutdown_units
shutdown_units-calls timeout us zero h = refl
shutdown_units-calls timeout us (suc n) h =
    let (u, e) = get_elem?-below us n (omega arith) in
    rw (take-suc us n u e) (
      rw (units_reversed-snoc (take n us) u) (
        rw e (
          calls-append (unit_events u (u.shutdown timeout)) (shutdown_units timeout us n)
          ∙ rw (unit_events-calls u (u.shutdown timeout)) (
              ap (λ l. unit_shutdown u.name ∷ l)
                (shutdown_units-calls timeout us n (omega arith))))))

-- A shutdown calls every hook, the one registered last first, and then every unit, the one
-- registered last first, whatever they return.
pub shutdown-calls :
    {T : Type 0} (r : Runtime T) (timeout : ℕ)
    → calls (shutdown r timeout) ≡ hooks_below (length r.on_shutdown) ++ units_reversed r.units
unfolding shutdown
shutdown-calls r timeout =
    calls-append (shutdown_hooks timeout r.on_shutdown (length r.on_shutdown))
      (shutdown_units timeout r.units (length r.units) ++ shutdown_completed ∷ [])
    ∙ rw (shutdown_hooks-calls timeout r.on_shutdown (length r.on_shutdown) (omega arith)) (
        ap (λ l. hooks_below (length r.on_shutdown) ++ l)
          (calls-append (shutdown_units timeout r.units (length r.units)) (shutdown_completed ∷ [])
            ∙ append-nil (calls (shutdown_units timeout r.units (length r.units)))
            ∙ shutdown_units-calls timeout r.units (length r.units) (omega arith)
            ∙ ap units_reversed (take-length r.units)))
