-- ===== src/Runtime.antt =====
-- The runtime of pkg/runtime/runtime.go and unit.go: lifecycle hooks and units.
--
-- A hook and a unit are what they do to the world `W`; what the runtime does is a trace of events.
pub mod Startup
pub mod Shutdown
mod Examples
use xqua_go.Prelude.{
  ℕ, zero, suc, ◌+◌, ◌-◌, Bool, true, false, List, [], ◌∷◌, ◌++◌, Option, none, some, ◌==◌,
  if◌then◌else◌, length, get_elem?, ◌%◌, ◌^◌,
}

-- A unit: its name, whether its shutdown fails, as the answer that `Shutdown` gives in a context
-- with this timeout.
pub record RuntimeUnit : Type 0 where
  pub name : ℕ
  pub shutdown : ℕ → Option ℕ

-- A hook by the error that it returns in a context with this timeout; 0 is the background.
abbrev pub LifecycleHook : Type 0
LifecycleHook = ℕ → Option ℕ

pub record Runtime (T : Type 0) : Type 0 where
  pub ctx : T
  pub units : List RuntimeUnit
  pub on_startup : List LifecycleHook
  pub on_shutdown : List LifecycleHook

-- What can be observed, in the order in which it happens.
pub data Event : Type 0 where
  startup_hook : ℕ → Event
  units_started : ℕ → Event
  signal_before_ready : Event
  unit_stopped : ℕ → Event
  shutdown_started : Event
  shutdown_hook : ℕ → Event
  hook_failed : ℕ → ℕ → Event
  unit_shutdown : ℕ → Event
  unit_shutdown_failed : ℕ → ℕ → Event
  shutdown_completed : Event

pub data Error : Type 0 where
  logger_required : Error
  unit_required : Error
  startup_hook_failed : ℕ → ℕ → Error
  unit_serve_failed : ℕ → Error

-- `New`; `log` says whether a logger is given.
abbrev pub make : {T : Type 0} → T → Bool → Option (Runtime T)
make ctx false = none
make ctx true = some (record { ctx = ctx; units = []; on_startup = []; on_shutdown = [] })

-- `Unit`; a factory that is nil is passed over.
unfoldable pub add_unit : {T : Type 0} → Runtime T → Option (T → RuntimeUnit) → Runtime T
add_unit r none = r
add_unit r (some fn) = record r { units = r.units ++ fn r.ctx ∷ [] }

unfoldable pub add_startup : {T : Type 0} → Runtime T → LifecycleHook → Runtime T
add_startup r fn = record r { on_startup = r.on_startup ++ fn ∷ [] }

unfoldable pub add_shutdown : {T : Type 0} → Runtime T → LifecycleHook → Runtime T
add_shutdown r fn = record r { on_shutdown = r.on_shutdown ++ fn ∷ [] }

abbrev pub first_startup : ℕ → Option ℕ → List Event × Option Error → List Event × Option Error
first_startup i none (events, e) = (startup_hook i ∷ events, e)
first_startup i (some x) rest = (startup_hook i ∷ [], some (startup_hook_failed i x))

-- The startup hooks from an index on, up to the first that fails.
unfoldable pub run_startup : ℕ → List LifecycleHook → List Event × Option Error
run_startup i [] = ([], none)
run_startup i (fn ∷ fns) = first_startup i (fn 0) (run_startup (suc i) fns)

abbrev pub hook_events : ℕ → Option ℕ → List Event
hook_events i none = shutdown_hook i ∷ []
hook_events i (some e) = shutdown_hook i ∷ hook_failed i e ∷ []

abbrev pub unit_events : RuntimeUnit → Option ℕ → List Event
unit_events u none = unit_shutdown u.name ∷ []
unit_events u (some e) = unit_shutdown u.name ∷ unit_shutdown_failed u.name e ∷ []

-- An index out of range, which the loops below do not reach, adds nothing.
abbrev pub hook_at : ℕ → ℕ → Option LifecycleHook → List Event
hook_at timeout i none = []
hook_at timeout i (some fn) = hook_events i (fn timeout)

abbrev pub unit_at : ℕ → Option RuntimeUnit → List Event
unit_at timeout none = []
unit_at timeout (some u) = unit_events u (u.shutdown timeout)

-- `for i := len(r.onShutdown) - 1; i >= 0; i--`, with `suc i` for the turns that are left.
unfoldable pub shutdown_hooks : ℕ → List LifecycleHook → ℕ → List Event
shutdown_hooks timeout fns zero = []
shutdown_hooks timeout fns (suc i) =
    hook_at timeout i (get_elem? fns i) ++ shutdown_hooks timeout fns i

unfoldable pub shutdown_units : ℕ → List RuntimeUnit → ℕ → List Event
shutdown_units timeout us zero = []
shutdown_units timeout us (suc i) = unit_at timeout (get_elem? us i) ++ shutdown_units timeout us i

-- `shutdown`, which always returns nil
unfoldable pub shutdown : {T : Type 0} → Runtime T → ℕ → List Event
shutdown r timeout =
    shutdown_started
    ∷ (shutdown_hooks timeout r.on_shutdown (length r.on_shutdown)
        ++ (shutdown_units timeout r.units (length r.units) ++ (shutdown_completed ∷ [])))

-- The counter that the units share, an `int32`, and how often `ready` has been closed.
pub record Ready : Type 0 where
  pub count : ℕ
  pub closes : ℕ

-- One call of `OnReady`
unfoldable pub on_ready : ℕ → Ready → Ready
on_ready expected s =
    let count = (s.count + 1) % 2 ^ 32 in
    if count == expected
    then record { count = count; closes = suc s.closes }
    else record { count = count; closes = s.closes }

-- What a `select` of the run takes first.
pub data Wake : Type 0 where
  stopped : ℕ → Wake
  ready : Wake
  signal : Wake

abbrev default_shutdown_timeout : ℕ
default_shutdown_timeout = 30000000000

-- The second `select`, in which `ready` is not waited for any more.
abbrev pub serving : {T : Type 0} → Runtime T → ℕ → Option ℕ → List Event × Option Error
serving r timeout (some e) = (unit_stopped e ∷ shutdown r timeout, none)
serving r timeout none = (shutdown r timeout, none)

abbrev pub starting : {T : Type 0} → Runtime T → ℕ → Wake → Option ℕ → List Event × Option Error
starting r timeout (stopped e) next = ([], some (unit_serve_failed e))
starting r timeout ready next = serving r timeout next
starting r timeout signal next = (signal_before_ready ∷ shutdown r timeout, none)

abbrev pub append_events : List Event → List Event × Option Error → List Event × Option Error
append_events events (more, e) = (events ++ more, e)

abbrev pub after_startup :
    {T : Type 0}
    → Runtime T
    → ℕ
    → Wake
    → Option ℕ
    → List Event × Option Error
    → List Event × Option Error
after_startup r timeout first next (events, some e) = (events, some e)
after_startup r timeout first next (events, none) =
    append_events (events ++ units_started (length r.units) ∷ []) (starting r timeout first next)

abbrev pub effective_timeout : ℕ → ℕ
effective_timeout timeout = if timeout == 0 then default_shutdown_timeout else timeout

-- `RunWithShutdownTimeout`, with what the first `select` takes and, where there is a second, the
-- error of the unit that stopped or none for a signal.
unfoldable pub run_with_shutdown_timeout :
    {T : Type 0} → Runtime T → ℕ → Wake → Option ℕ → List Event × Option Error
run_with_shutdown_timeout r timeout first next =
    if length r.units == 0
    then ([], some unit_required)
    else after_startup r (effective_timeout timeout) first next (run_startup 0 r.on_startup)
