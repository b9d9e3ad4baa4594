-- ===== src/Runtime/Examples.antt =====
-- The theorems about the runtime at a runtime with two hooks of each kind and two units.
use xqua_go.Prelude.{ℕ, ◌≡◌, ◌++◌, refl, arith, [], ◌∷◌, none, some, if◌then◌else◌, leb, length}
use xqua_go.Runtime.{
  Runtime, LifecycleHook, signal, startup_hook_failed, run_with_shutdown_timeout, shutdown,
}
use xqua_go.Runtime.Startup.{hooks_from, ready_times, ready_times-closes, run-startup_failure}
use xqua_go.Runtime.Shutdown.{calls, hooks_below, units_reversed, shutdown-calls}

abbrev succeeds : LifecycleHook
succeeds timeout = none

abbrev fails : LifecycleHook
fails timeout = some 5

abbrev two : Runtime ℕ
two = record {
  ctx = 0;
  units = record { name = 1; shutdown = fails } ∷ record { name = 2; shutdown = succeeds } ∷ [];
  on_startup = succeeds ∷ fails ∷ [];
  on_shutdown = fails ∷ succeeds ∷ [];
}

shutdown-calls_example :
    calls (shutdown two 9) ≡ hooks_below (length two.on_shutdown) ++ units_reversed two.units
shutdown-calls_example = shutdown-calls two 9

run-startup_failure_example :
    run_with_shutdown_timeout two 9 signal none ≡ (hooks_from 0 2, some (startup_hook_failed 1 5))
run-startup_failure_example =
    run-startup_failure two 9 1 5 signal none fails (λ e. cc) (refl, tt) refl refl

ready_times-closes_example : (ready_times 2 3).closes ≡ (if leb 2 3 then 1 else 0)
ready_times-closes_example = ready_times-closes 2 3 (omega arith) (omega arith)
