-- ===== src/Runtime/Startup.antt =====
-- Startup: the hooks run in order up to the first that fails, nothing else happens then, and the
-- call of `OnReady` that makes as many as there are units closes the channel, once.
use xqua_go.Prelude.{
  ℕ, zero, suc, ◌+◌, ◌<◌, ◌%◌, ◌^◌, false, Bool-cases, List, [], ◌∷◌, Option, none, some, ◌≡◌, ◌≢◌,
  inl, inr, refl, sym, subst, ap, ◌∙◌, arith, ◌==◌, leb, if◌then◌else◌, length, get_elem?,
}
use xqua_go.Runtime.{
  Runtime, RuntimeUnit, LifecycleHook, Event, startup_hook, startup_hook_failed, run_startup, Ready,
  on_ready, Wake, run_with_shutdown_timeout,
}

-- What `startUnits` has after `n` calls of `OnReady`, by whichever units.
abbrev pub ready_times : ℕ → ℕ → Ready
ready_times expected zero = record { count = 0; closes = 0 }
ready_times expected (suc k) = on_ready expected (ready_times expected k)

ready_times-count : (expected k : ℕ) → k < 2 ^ 32 → (ready_times expected k).count ≡ k
unfolding on_ready
ready_times-count expected zero h = refl
ready_times-count expected (suc k) h =
    let before : (ready_times expected k).count ≡ k = ready_times-count expected k (omega arith) in
    elim (Bool-cases (((ready_times expected k).count + 1) % 2 ^ 32 == expected)) [
      | inl last ↦ rw last (omega (arith, before))
      | inr early ↦ rw early (omega (arith, before))
    ]

-- With at least one unit and as long as the calls of `OnReady`, of all units together, are fewer than
-- the 32-bit counter holds, `ready` is open until there are as many calls as units, and is closed
-- exactly once from then on, however often it is called again.
pub ready_times-closes :
    (expected k : ℕ)
    → 0 < expected
    → k < 2 ^ 32
    → (ready_times expected k).closes ≡ (if leb expected k then 1 else 0)
unfolding on_ready
ready_times-closes expected zero pos h = ground arith
ready_times-closes expected (suc k) pos h =
    let before : (ready_times expected k).closes ≡ (if leb expected k then 1 else 0) =
      ready_times-closes expected k pos (omega arith) in
    let counted : (ready_times expected k).count ≡ k = ready_times-count expected k (omega arith) in
    let small : (k + 1) % 2 ^ 32 ≡ suc k = omega arith in
    rw counted (
      rw small (elim (Bool-cases (suc k == expected)) [
        | inl last ↦ rw last (ground (arith, before))
        | inr early ↦ rw early (before ∙ ground arith)
      ]))

-- The events of the first `n` hooks.
abbrev pub hooks_from : ℕ → ℕ → List Event
hooks_from i zero = []
hooks_from i (suc n) = startup_hook i ∷ hooks_from (suc i) n

-- The first `n` hooks succeed.
abbrev pub AllSucceed : ℕ → List LifecycleHook → Type 0
AllSucceed zero fns = Unit {0}
AllSucceed (suc n) [] = Unit {0}
AllSucceed (suc n) (fn ∷ fns) = (fn 0 ≡ none) × AllSucceed n fns

run_startup-fails :
    (i n e : ℕ) (fns : List LifecycleHook) (fn : LifecycleHook)
    → AllSucceed n fns
    → get_elem? fns n ≡ some fn
    → fn 0 ≡ some e
    → run_startup i fns ≡ (hooks_from i (suc n), some (startup_hook_failed (n + i) e))
unfolding run_startup
run_startup-fails i n e [] fn s g f = cc
run_startup-fails i zero e (fn' ∷ fns) fn s g f =
    let same : fn' ≡ fn = cc in
    let failed : fn' 0 ≡ some e = subst (λ h. h 0 ≡ some e) (sym same) f in
    rw failed (ap (λ k. (startup_hook i ∷ [], some (startup_hook_failed k e))) (omega arith))
run_startup-fails i (suc n) e (fn' ∷ fns) fn (ok, s) g f = rw ok (
    rw (run_startup-fails (suc i) n e fns fn s g f)
      (ap (λ k. (hooks_from i (suc (suc n)), some (startup_hook_failed k e))) (omega arith)))

-- With at least one unit, where the hook at the index `n` is the first that fails, the run calls the hooks up to it and
-- does nothing more: it starts no unit, does not shut down, and returns the error of that hook.
pub run-startup_failure :
    {T : Type 0} (r : Runtime T) (timeout n e : ℕ) (first : Wake) (next : Option ℕ)
    (fn : LifecycleHook)
    → r.units ≢ []
    → AllSucceed n r.on_startup
    → get_elem? r.on_startup n ≡ some fn
    → fn 0 ≡ some e
    → run_with_shutdown_timeout r timeout first next
      ≡ (hooks_from 0 (suc n), some (startup_hook_failed n e))
unfolding run_with_shutdown_timeout
run-startup_failure r timeout n e first next fn ne s g f = rw (has_units r.units ne) (
    rw (run_startup-fails 0 n e r.on_startup fn s g f)
      (ap (λ k. (hooks_from 0 (suc n), some (startup_hook_failed k e))) (omega arith)))
  where
    has_units : (us : List RuntimeUnit) → us ≢ [] → (length us == 0) ≡ false
    has_units [] k = absurd (k refl)
    has_units (v ∷ vs) k = ground arith
