-- ===== src/Bus/Local.antt =====
-- The bus itself, pkg/bus/local.go: `Local`, `subscription`, `NewLocal`, `addSub`, `unsubscribe`,
-- `closeStop`, `getSub`, `recycleSub`, `Drain`, `Close`.
--
-- A subscription is named by its address in the heap `sub_at`. Where the source reads shared state
-- twice or waits, what other goroutines do in between is the argument `meanwhile`.
pub mod Worker
pub mod Publish
pub mod Lifecycle
pub mod Subscribe
pub mod Stopping
use xqua_go.Prelude.{
  ℕ, zero, suc, ◌+◌, ◌-◌, ◌%◌, ◌^◌, Bytes, Bool, true, false, ◌&&◌, ◌||◌, not, List, [], ◌∷◌, ◌++◌,
  Option, none, some, ◌==◌, if◌then◌else◌,
}
use xqua_go.Bus.Subject.{is_wildcard, split}
use xqua_go.Bus.Snapshot.{SubRef, is_empty}
use xqua_go.Bus.Registry.{Registry, no_registry, register, deregister, without}
use xqua_go.Bus.Message.{
  Message, Delivery, Handler, Error, closed, subject_required, queue_required, handler_required,
}
use xqua_go.Bus.Waiter.{Waiter}

-- A field of type `time.Duration` is a number of nanoseconds; `on_error` says whether it is set.
pub record LocalConfig : Type 0 where
  pub buffer_size : ℕ
  pub default_request_timeout : ℕ
  pub on_error : Bool

pub record Subscription : Type 0 where
  pub gen : ℕ
  pub pattern : Bytes
  pub tokens : List Bytes
  pub is_wild : Bool
  pub queue : Bytes
  pub handler : Option Handler
  pub mailbox : List Delivery
  pub stop : ℕ
  pub stop_closed : Bool
  pub once : Bool

-- `sub_at`, `waiter_at` are the heap; `stop_done` says which stop channels are closed; `active` is
-- the set of subscriptions with a worker, `reports` what went to `OnError`, newest first.
pub record Local : Type 0 where
  pub cfg : LocalConfig
  pub is_closed : Bool
  pub draining : Bool
  pub closed_ch : Bool
  pub inbox_seq : ℕ
  pub registry : Registry
  pub active : List ℕ
  pub wg : ℕ
  pub sub_pool : List ℕ
  pub waiter_pool : List ℕ
  pub sub_at : ℕ → Option Subscription
  pub waiter_at : ℕ → Option Waiter
  pub stop_done : ℕ → Bool
  pub fresh_sub : ℕ
  pub fresh_waiter : ℕ
  pub fresh_stop : ℕ
  pub reports : List (Message × Error)

abbrev pub default_buffer_size : ℕ
default_buffer_size = 64

unfoldable pub new_local : LocalConfig → Local
new_local cfg = record {
  cfg = if cfg.buffer_size == 0 then record cfg { buffer_size = default_buffer_size } else cfg;
  is_closed = false;
  draining = false;
  closed_ch = false;
  inbox_seq = 0;
  registry = no_registry;
  active = [];
  wg = 0;
  sub_pool = [];
  waiter_pool = [];
  sub_at = λ _. none;
  waiter_at = λ _. none;
  stop_done = λ _. false;
  fresh_sub = 0;
  fresh_waiter = 0;
  fresh_stop = 0;
  reports = [];
}

abbrev pub put_sub : Local → ℕ → Subscription → Local
put_sub b id s = record b { sub_at = λ j. if j == id then some s else b.sub_at j }

abbrev pub put_waiter : Local → ℕ → Waiter → Local
put_waiter b id w = record b { waiter_at = λ j. if j == id then some w else b.waiter_at j }

abbrev blank_subscription : Subscription
blank_subscription = record {
  gen = 0;
  pattern = [];
  tokens = [];
  is_wild = false;
  queue = [];
  handler = none;
  mailbox = [];
  stop = 0;
  stop_closed = false;
  once = false;
}

-- From the pool if it has one, else a new one. What the pool let go of is not in the list.
get_sub_from : Local → List ℕ → ℕ × Local
get_sub_from b [] =
    (b.fresh_sub, put_sub (record b { fresh_sub = suc b.fresh_sub }) b.fresh_sub blank_subscription)
get_sub_from b (id ∷ pool) = (id, record b { sub_pool = pool })

unfoldable pub get_sub : Local → ℕ × Local
unfolding get_sub_from
get_sub b = get_sub_from b b.sub_pool

unfoldable pub recycle_sub : Local → ℕ → Local
recycle_sub b id = elim (b.sub_at id) [
  | none ↦ b
  | some s ↦ record (put_sub b id (record s { handler = none })) { sub_pool = id ∷ b.sub_pool }
]

unfoldable pub close_stop : Local → ℕ → Local
close_stop b id = elim (b.sub_at id) [
  | none ↦ b
  | some s ↦ if s.stop_closed then b else record (put_sub b id (record s { stop_closed = true })) {
    stop_done = λ j. if j == s.stop then true else b.stop_done j;
  }
]

unfoldable pub close_stops : Local → List ℕ → Local
unfolding close_stop
close_stops b [] = b
close_stops b (id ∷ ids) = close_stops (close_stop b id) ids

pub data Reply {ℓ} (A : Type ℓ) : Type ℓ where
  ok : A → Reply A
  err : Error → Reply A

pub record SubHandle : Type 0 where
  pub sub : ℕ
  pub gen : ℕ

-- The subscription of a new activation.
pub activated : Local → Subscription → Bytes → Bytes → Handler → Subscription
activated b s pattern queue h = record s {
  pattern = pattern;
  queue = queue;
  handler = some h;
  is_wild = is_wildcard pattern;
  tokens = if is_wildcard pattern then split pattern else [];
  gen = (s.gen + 1) % 2 ^ 32;
  stop = b.fresh_stop;
  stop_closed = false;
  once = false;
}

abbrev pub ref_of : ℕ → Subscription → SubRef
ref_of id s = record { sub = id; gen = s.gen; stop = s.stop }

-- After the registration: the check again, and the worker's start.
join_bus : Local → ℕ → Subscription → Reply SubHandle × Local
join_bus b id s =
    if b.is_closed || b.draining
    then (
      err closed,
      recycle_sub
          (record b {
            active = without id b.active;
            registry = deregister b.registry s.pattern s.is_wild s.queue (ref_of id s);
          })
          id,
    )
    else (ok (record { sub = id; gen = s.gen }), record b { wg = suc b.wg })

activate :
    (Local → Local)
    → ℕ × Local
    → Subscription
    → Bytes
    → Bytes
    → Handler
    → Option (Reply SubHandle × Local)
unfolding activated join_bus
activate meanwhile (id, b) old pattern queue h =
    let s = activated b old pattern queue h in
    elim (register b.registry pattern s.is_wild s.tokens queue (ref_of id s)) [
      | none ↦ none
      | some r ↦ some (
          join_bus
            (meanwhile (record (put_sub b id s) {
              registry = r;
              fresh_stop = suc b.fresh_stop;
              active = b.active ++ id ∷ [];
            }))
            id s)
    ]

-- `none`: the registration would not end, or the pool gave no subscription.
unfoldable pub add_sub :
    (Local → Local) → Local → Bytes → Bytes → Option Handler → Option (Reply SubHandle × Local)
unfolding activate
add_sub meanwhile b [] queue h = some (err subject_required, b)
add_sub meanwhile b (c ∷ pattern) queue none = some (err handler_required, b)
add_sub meanwhile b (c ∷ pattern) queue (some h) =
    if b.is_closed || b.draining
    then some (err closed, b)
    else elim ((get_sub b).1.sub_at (get_sub b).0) [
      | none ↦ none
      | some s ↦ activate meanwhile (get_sub b) s (c ∷ pattern) queue h
    ]

abbrev pub subscribe :
    (Local → Local) → Local → Bytes → Option Handler → Option (Reply SubHandle × Local)
subscribe meanwhile b subject h = add_sub meanwhile b subject [] h

unfoldable pub queue_subscribe :
    (Local → Local) → Local → Bytes → Bytes → Option Handler → Option (Reply SubHandle × Local)
queue_subscribe meanwhile b subject [] h = some (err queue_required, b)
queue_subscribe meanwhile b subject (c ∷ queue) h = add_sub meanwhile b subject (c ∷ queue) h

unfoldable pub unsubscribe : Local → SubHandle → Local
unsubscribe b h = elim (b.sub_at h.sub) [
  | none ↦ b
  | some s ↦
      if not (s.gen == h.gen)
      then b
      else if s.once
      then b
      else let ref : SubRef = record { sub = h.sub; gen = h.gen; stop = s.stop } in
        let b' = put_sub b h.sub (record s { once = true }) in
        close_stop
          (record b' {
            registry = deregister b'.registry s.pattern s.is_wild s.queue ref;
            active = without h.sub b'.active;
          })
          h.sub
]

-- The wait for the workers ends with `meanwhile`.
unfoldable pub close : (Local → Local) → Local → Local
close meanwhile b =
    if b.is_closed
    then b
    else let b' = close_stops (record b { is_closed = true; closed_ch = true }) b.active in
      let b'' = meanwhile b' in record b'' { registry = record b''.registry { wild = [] } }

-- `expired`: the context ends before the workers do, with the error that is returned.
unfoldable pub drain : (Local → Local) → Local → Option Error → Option Error × Local
drain meanwhile b expired = if b.is_closed then (none, b) else (
  expired,
  close meanwhile (meanwhile (close_stops (record b { draining = true }) b.active)),
)
