-- ===== src/Bus/Local/Worker.antt =====
-- A subscription's worker, pkg/bus/local.go: `runWorker`, `drainProcess`, `drainDiscard`,
-- `dispatch`.
use xqua_go.Prelude.{
  ℕ, ◌-◌, Bool, true, false, ◌&&◌, ◌||◌, not, List, [], ◌∷◌, Option, none, some, ◌==◌,
  if◌then◌else◌,
}
use xqua_go.Bus.Message.{
  Message, Delivery, Handler, Error, handler_panic, Outcome, returned, panicked, ReqResult,
}
use xqua_go.Bus.Waiter.{deliver}
use xqua_go.Bus.Local.{Local, Subscription, put_sub, put_waiter, recycle_sub}

abbrev no_message : Message
no_message = record { subject = []; payload = []; headers = []; reply = [] }

-- A panic counts as an error with no reply.
abbrev pub outcome_result : Outcome → ReqResult
outcome_result (returned reply e) = record { msg = reply; err = e }
outcome_result (panicked n) = record { msg = no_message; err = some (handler_panic n) }

report : Local → Message → Option Error → Local
report b msg none = b
report b msg (some e) = if b.cfg.on_error then record b { reports = (msg, e) ∷ b.reports } else b

answer : Local → Delivery → ReqResult → Option ℕ → Local
unfolding report
answer b d res none = report b d.msg res.err
answer b d res (some w) = elim (b.waiter_at w) [
  | none ↦ b
  | some wt ↦ put_waiter b w (deliver wt d.req_gen res)
]

-- The handler is called, and its result goes to the requester or to `OnError`. A subscription in
-- use has a handler.
unfoldable pub dispatch : Local → Option Handler → Delivery → Local
unfolding answer
dispatch b none d = b
dispatch b (some h) d = answer b d (outcome_result (h d.ctx d.msg)) d.waiter

-- `case d := <-mailbox` with its test of the generation.
unfoldable pub handle_one : Local → Option Handler → ℕ → Delivery → Local
handle_one b h g d = if d.gen == g then dispatch b h d else b

abbrev pub set_mailbox : Local → ℕ → List Delivery → Local
set_mailbox b id ds = elim (b.sub_at id) [
  | none ↦ b
  | some s ↦ put_sub b id (record s { mailbox = ds })
]

-- All that is queued, in order, where handlers add nothing to this mailbox.
unfoldable pub drain_process : Local → Option Handler → ℕ → List Delivery → Local
drain_process b h g [] = b
drain_process b h g (d ∷ ds) = drain_process (handle_one b h g d) h g ds

-- The branch `case <-stop`.
unfoldable pub stop_worker : Local → ℕ → Subscription → ℕ → Local
unfolding drain_process
stop_worker b id s g =
    let b1 = set_mailbox b id [] in
    let b2 = if b.draining then drain_process b1 s.handler g s.mailbox else b1 in
    let b3 = if not b2.is_closed && not b2.draining then recycle_sub b2 id else b2 in
    record b3 { wg = b3.wg - 1 }

-- One round of `runWorker` for the activation `g` with the channel `stop`: `choice` is which ready
-- case the `select` takes, the mailbox if it is true. `none` for the round that waits; the Bool
-- says whether the worker goes on.
run_worker_at : Local → ℕ → Subscription → ℕ → ℕ → List Delivery → Bool → Option (Bool × Local)
run_worker_at b id s g stop [] choice =
    if b.stop_done stop then some (false, stop_worker b id s g) else none
run_worker_at b id s g stop (d ∷ ds) choice =
    if choice || not (b.stop_done stop)
    then some (true, handle_one (set_mailbox b id ds) s.handler g d)
    else some (false, stop_worker b id s g)

unfoldable pub run_worker : Local → ℕ → ℕ → ℕ → Bool → Option (Bool × Local)
unfolding run_worker_at
run_worker b id g stop choice = elim (b.sub_at id) [
  | none ↦ none
  | some s ↦ run_worker_at b id s g stop s.mailbox choice
]
