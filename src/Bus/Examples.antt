-- ===== src/Bus/Examples.antt =====
-- The theorems about the bus at concrete registries, waiters and messages.
use mathlib.Core.List.{Memᴰ}
use xqua_go.Prelude.{
  decimal, ℕ, ◌<◌, Bytes, bytes, bytes_eq, true, false, ◌&&◌, [], ◌∷◌, ◌++◌, none, some, ◌≡◌, ◌↔◌,
  ◌⊎◌, ◌==◌, ◌∙◌, inl, inr, Bool-cases, ap, refl, sym, subst, arith, if◌then◌else◌,
}
use xqua_go.Bus.Subject.{split, is_wildcard, match_pattern}
use xqua_go.Bus.Subject.Matching.{Matches, match_pattern_iff}
use xqua_go.Bus.Subject.Literal.{match_pattern-literal}
use xqua_go.Bus.Snapshot.{SubRef, QueueGroup, pick}
use xqua_go.Bus.Snapshot.Pick.{after, pick-round_robin}
use xqua_go.Bus.Registry.{Registry, no_registry, deregister, collect}
use xqua_go.Bus.Registry.Consistent.{IsConsistent, subs_at}
use xqua_go.Bus.Registry.Register.{register-refines}
use xqua_go.Bus.Registry.Deregister.{Removes, deregister-refines}
use xqua_go.Bus.Registry.Route.{Wants, collect-routes}
use xqua_go.Bus.Message.{
  Message, Delivery, Handler, returned, no_responders, closed, timeout, ReqResult,
}
use xqua_go.Bus.Waiter.{Waiter, finish_req, new_waiter, send, claim, next_inbox}
use xqua_go.Bus.Waiter.Protocol.{Sys, start, won, issue, swap, push, Reach, here, next}
use xqua_go.Bus.Waiter.Replies.{waiter-reply_is_own, waiter-send_room, finish_req-no_deadlock}
use xqua_go.Bus.Local.{
  Local, LocalConfig, Subscription, SubHandle, Reply, err, close, new_local, activated, ref_of,
  get_sub, add_sub, unsubscribe,
}
use xqua_go.Bus.Local.Subscribe.{Settles, has_ref, add_sub-subscribes}
use xqua_go.Bus.Local.Stopping.{IsMarked, close-stops_all}
use xqua_go.Bus.Local.Worker.{drain_process}
use xqua_go.Bus.Local.Lifecycle.{unsubscribe_idempotent, dispatch_all, drain_process-dispatch_all}
use xqua_go.Bus.Local.Publish.{Wake, stopped, publish, get_waiter, put_back}
use xqua_go.Bus.Local.Publish.Request.{
  Awaited, bus_stopped, failure, request, request-no_responders,
}

match_pattern_iff_example :
    (match_pattern (split (bytes "a.>.z")) (bytes "a.b") ≡ true)
    ↔ Matches (split (bytes "a.>")) (split (bytes "a.b"))
unfolding split bytes_eq
match_pattern_iff_example = match_pattern_iff (split (bytes "a.>.z")) (bytes "a.b")

match_pattern_rest : match_pattern (split (bytes "a.>")) (bytes "a.b.c") ≡ true
unfolding match_pattern split bytes_eq
match_pattern_rest = refl

match_pattern_short : match_pattern (split (bytes "a.>")) (bytes "a") ≡ false
unfolding match_pattern split bytes_eq
match_pattern_short = refl

match_pattern-literal_example :
    (match_pattern (split (bytes "a.b")) (bytes "a.c") ≡ true) ↔ (bytes "a.b" ≡ bytes "a.c")
unfolding is_wildcard bytes_eq
match_pattern-literal_example = match_pattern-literal (bytes "a.b") (bytes "a.c") refl

abbrev first_ref : SubRef
first_ref = record { sub = 0; gen = 1; stop = 0 }

abbrev second_ref : SubRef
second_ref = record { sub = 1; gen = 1; stop = 1 }

abbrev pair : QueueGroup
pair = record { subs = first_ref ∷ second_ref ∷ []; next = 5 }

pick-round_robin_example : (k : ℕ) × (k < 2) × ((pick (after k pair)).0 ≡ some second_ref)
pick-round_robin_example = pick-round_robin pair 1 (omega arith) (omega arith)

no_registry-IsConsistent : IsConsistent no_registry
no_registry-IsConsistent = record {
  indexed = λ p id x. absurd (cc x);
  listed = λ id x. absurd (cc x);
  unused = λ id x. refl;
}

abbrev orders : Bytes
orders = bytes "orders.*"

abbrev created : Bytes
created = bytes "orders.new"

-- One fan-out subscriber of `orders.*`.
abbrev one_sub : Registry
one_sub = (register-refines no_registry orders [] first_ref no_registry-IsConsistent).0

one_sub-IsConsistent : IsConsistent one_sub
one_sub-IsConsistent = (register-refines no_registry orders [] first_ref no_registry-IsConsistent).2

register-refines_example : subs_at one_sub orders [] ≡ (
    if bytes_eq orders orders && bytes_eq [] []
    then subs_at no_registry orders [] ++ first_ref ∷ []
    else subs_at no_registry orders [])
register-refines_example =
    (register-refines no_registry orders [] first_ref no_registry-IsConsistent).3 orders []

one_sub-subs : subs_at one_sub orders [] ≡ first_ref ∷ []
unfolding bytes_eq subs_at
one_sub-subs = register-refines_example

deregister-refines_example :
    Removes one_sub orders [] first_ref
      (deregister one_sub orders (is_wildcard orders) [] first_ref)
deregister-refines_example = deregister-refines one_sub orders [] first_ref one_sub-IsConsistent

collect-routes_example : Memᴰ first_ref (collect one_sub created []).0
unfolding match_pattern split bytes_eq
collect-routes_example =
    (collect-routes one_sub created one_sub-IsConsistent).0 orders first_ref refl
      (subst (Memᴰ first_ref) (sym one_sub-subs) (Memᴰ.head refl))

abbrev hello : Message
hello = record { subject = created; payload = bytes "hi"; headers = []; reply = [] }

abbrev answer_hi : ReqResult
answer_hi = record { msg = hello; err = none }

-- A request is issued, a responder wins the swap, and sends.
abbrev issued : Sys
issued = record (start (bytes "_INBOX.1")) { issued = true }

abbrev claimed : Sys
claimed = won issued 1 answer_hi

issued-Reach : Reach (start (bytes "_INBOX.1")) issued
unfolding start
issued-Reach = next here (issue refl refl)

claimed-Reach : Reach (start (bytes "_INBOX.1")) claimed
unfolding start new_waiter
claimed-Reach = next issued-Reach (swap 1 answer_hi (inr (refl, refl)) refl)

claimed_sending : claimed.sending ≡ some (1, answer_hi)
unfolding won start new_waiter claim
claimed_sending = refl

waiter-send_room_example : claimed.w.ch ≡ []
waiter-send_room_example =
    waiter-send_room (bytes "_INBOX.1") claimed (1, answer_hi) claimed-Reach claimed_sending

abbrev answered_sys : Sys
answered_sys = record claimed { w = send claimed.w answer_hi; sending = none; sent_by = 1 }

answered-Reach : Reach (start (bytes "_INBOX.1")) answered_sys
answered-Reach = next claimed-Reach (push 1 answer_hi claimed_sending refl)

waiter-reply_is_own_example :
    (answered_sys.sent_by ≡ answered_sys.w.gen)
    × ((res : ReqResult) × (answered_sys.w.ch ≡ res ∷ []))
unfolding won start new_waiter claim send
waiter-reply_is_own_example =
    waiter-reply_is_own (bytes "_INBOX.1") answered_sys answered-Reach refl (λ e. cc e)

finish_req-no_deadlock_example :
    ((r : ReqResult) × (w' : Waiter) × (finish_req claimed.w claimed.w.gen hello timeout
        ≡ some (r, w')))
    ⊎ ((r : ReqResult) × (claimed.sending ≡ some (claimed.w.gen, r)))
unfolding won start
finish_req-no_deadlock_example =
    finish_req-no_deadlock (bytes "_INBOX.1") claimed hello timeout claimed-Reach refl

abbrev small_config : LocalConfig
small_config = record { buffer_size = 2; default_request_timeout = 0; on_error = true }

abbrev new_bus : Local
new_bus = new_local small_config

abbrev echo : Handler
echo ctx msg = returned msg none

abbrev handle : SubHandle
handle = record { sub = 0; gen = 1 }

new_bus-registry : new_bus.registry ≡ no_registry
unfolding new_local
new_bus-registry = refl

new_bus-IsConsistent : IsConsistent new_bus.registry
new_bus-IsConsistent = subst IsConsistent (sym new_bus-registry) no_registry-IsConsistent

abbrev fresh_sub : Subscription
fresh_sub = record {
  gen = 0;
  pattern = [];
  tokens = [];
  is_wild = false;
  queue = [];
  handler = none;
  mailbox = [];
  stop = 0;
  stop_closed = false;
  once = false;
}

-- The bus is closed between the two checks.
abbrev closes : Local → Local
closes b = record b { is_closed = true }

abbrev new_orders : Subscription
new_orders = activated (get_sub new_bus).1 fresh_sub orders [] echo

orders-is_new :
    has_ref (ref_of (get_sub new_bus).0 new_orders) (subs_at new_bus.registry orders []) ≡ false
unfolding new_local subs_at
orders-is_new = refl

add_sub-subscribes_example :
    (r : Registry) × ((out : Reply SubHandle × Local) × (add_sub closes new_bus orders []
          (some echo)
        ≡ some out)
      × Settles new_bus.registry orders [] (ref_of (get_sub new_bus).0 new_orders) true out)
unfolding new_local get_sub
add_sub-subscribes_example =
    add_sub-subscribes closes new_bus b'o' (bytes "rders.*") [] echo fresh_sub (λ d. refl) refl refl
      new_bus-IsConsistent orders-is_new

add_sub-open :
    (r : Registry) × ((out : Reply SubHandle × Local) × (add_sub
          (λ x. x)
          new_bus
          orders
          []
          (some echo)
        ≡ some out)
      × Settles new_bus.registry orders [] (ref_of (get_sub new_bus).0 new_orders) false out)
unfolding new_local get_sub
add_sub-open =
    add_sub-subscribes (λ x. x) new_bus b'o' (bytes "rders.*") [] echo fresh_sub (λ d. refl) refl
      refl new_bus-IsConsistent orders-is_new

abbrev bus_with_sub : Local
bus_with_sub = add_sub-open.1.0.1

unsubscribe_idempotent_example :
    unsubscribe (unsubscribe bus_with_sub handle) handle ≡ unsubscribe bus_with_sub handle
unsubscribe_idempotent_example = unsubscribe_idempotent bus_with_sub handle

abbrev queued : ℕ → Delivery
queued gen = record { ctx = 0; msg = hello; waiter = none; gen = gen; req_gen = 0 }

drain_process-dispatch_all_example :
    drain_process new_bus (some echo) 2 (queued 1 ∷ queued 2 ∷ [])
    ≡ dispatch_all new_bus (some echo) (queued 2 ∷ [])
drain_process-dispatch_all_example =
    drain_process-dispatch_all new_bus (some echo) 2 (queued 1 ∷ queued 2 ∷ [])

abbrev stop_wins : Local → SubRef → Wake × Local
stop_wins b ref = (stopped, b)

abbrev live_sub : Subscription
live_sub = record fresh_sub { gen = 1; pattern = orders; handler = some echo }

abbrev busy : Local
busy = record new_bus { active = 0 ∷ []; sub_at = λ id. if id == 0 then some live_sub else none }

busy-IsMarked : IsMarked busy
busy-IsMarked id s x o = elim (Bool-cases (id == 0)) [
  | inl own ↦
      let same : live_sub ≡ s = only (rw own at x) in
      absurd (cc (ap (λ (v : Subscription). v.stop_closed) same ∙ o))
  | inr other ↦ absurd (cc (rw other at x))
]
  where
    only : some live_sub ≡ some s → live_sub ≡ s
    only e = cc

close-stops_all_example :
    ((close (λ x. x) busy).stop_done 0 ≡ true)
    × (publish stop_wins (λ c. c) (close (λ x. x) busy) 0 hello
        ≡ (some closed, close (λ x. x) busy))
    × (add_sub (λ x. x) (close (λ x. x) busy) orders [] (some echo)
        ≡ some (err closed, close (λ x. x) busy))
    × (close (λ x. x) (close (λ x. x) busy) ≡ close (λ x. x) busy)
unfolding new_local
close-stops_all_example =
    close-stops_all (λ x. x) (λ x. x) stop_wins (λ c. c) busy 0 live_sub 0 hello b'o'
      (bytes "rders.*") [] echo refl busy-IsMarked (λ d h. h) (λ d n h. h) (Memᴰ.head refl) refl
      (λ e. cc e)

abbrev first_waiter : Waiter
first_waiter = new_waiter (bytes "_INBOX.1")

no-Wants : (ref : SubRef) → ¬ Wants new_bus.registry hello.subject ref
unfolding new_local
no-Wants ref w = cc (w.at_index)

abbrev never : Local → Awaited × Local
never b = (bus_stopped, b)

request-no_responders_example :
    request stop_wins never (λ c. false) (λ c t. c) new_bus 0 hello
    ≡ some (
      failure no_responders,
      put_back
          (record (get_waiter new_bus).1 {
            registry = (collect (get_waiter new_bus).1.registry created []).1;
          })
          (get_waiter new_bus).0,
    )
unfolding new_local get_waiter next_inbox decimal
request-no_responders_example =
    request-no_responders stop_wins never (λ c. false) (λ c t. c) new_bus 0 hello first_waiter
      (λ e. cc e) refl refl new_bus-IsConsistent no-Wants
