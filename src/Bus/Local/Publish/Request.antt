-- ===== src/Bus/Local/Publish/Request.antt =====
-- `Request` of pkg/bus/local.go: four rounds of collecting and enqueuing, then the wait for a reply.
use mathlib.Core.List.{Memᴰ}
use xqua_go.Prelude.{
  ℕ, zero, suc, Bytes, Bool, true, false, ◌&&◌, ◌||◌, not, List, [], ◌∷◌, Option, none, some,
  if◌then◌else◌, bytes_eq, bytes_eq_iff, ltb, ◌≡◌, ◌≢◌, refl, arith, ap, ◌∙◌,
}
use xqua_go.Bus.Snapshot.{SubRef, is_empty}
use xqua_go.Bus.Registry.{collect}
use xqua_go.Bus.Registry.Consistent.{IsConsistent}
use xqua_go.Bus.Registry.Route.{Wants, collect-routes}
use xqua_go.Bus.Message.{
  Message, Delivery, Error, closed, no_responders, subject_required, timeout, deadline_exceeded,
  ReqResult,
}
use xqua_go.Bus.Waiter.{Waiter, finish_req}
use xqua_go.Bus.Local.{Local, put_waiter}
use xqua_go.Bus.Local.Publish.{
  Wake, accepted, refused, failed, enqueue, get_waiter, get_waiter_from, put_back,
}

abbrev no_message : Message
no_message = record { subject = []; payload = []; headers = []; reply = [] }

-- What the final `select` of a request takes: the reply in the waiter's channel (with the error of
-- the wait context by then), the closed bus, or the context with its error.
pub data Awaited : Type 0 where
  replied : Option Error → Awaited
  bus_stopped : Awaited
  ctx_ended : Error → Awaited

-- `if errors.Is(err, context.DeadlineExceeded) { err = ErrTimeout }`.
pub bus_error : Error → Error
bus_error deadline_exceeded = timeout
bus_error e = e

abbrev pub failure : Error → ReqResult
failure e = record { msg = no_message; err = some e }

-- Where the responder and the context both ended, the context's error is returned.
pub prefer_ctx : ReqResult → Option Error → ReqResult
unfolding bus_error
prefer_ctx res ctx_err = elim res.err [
  | none ↦ res
  | some e ↦ elim ctx_err [ none ↦ res | some c ↦ failure (bus_error c) ]
]

-- The waiter goes back to the pool with the result that `finishReq` gives. `none`: it blocks.
pub finish : Local → ℕ → ℕ → Error → Option (ReqResult × Local)
finish b w g e = elim (b.waiter_at w) [
  | none ↦ none
  | some wt ↦ elim (finish_req wt g no_message e) [
    | none ↦ none
    | some (res, wt') ↦ some (res, put_back (put_waiter b w wt') w)
  ]
]

take_reply : Local → ℕ → Option Error → List ReqResult → Waiter → Option (ReqResult × Local)
take_reply b w ctx_err [] wt = none
take_reply b w ctx_err (res ∷ rest) wt =
    some (prefer_ctx res ctx_err, put_back (put_waiter b w (record wt { ch = rest })) w)

-- The final `select`.
pub await_reply : Local → ℕ → ℕ → Awaited → Option (ReqResult × Local)
unfolding finish take_reply prefer_ctx bus_error
await_reply b w g (replied ctx_err) = elim (b.waiter_at w) [
  | none ↦ none
  | some wt ↦ take_reply b w ctx_err wt.ch wt
]
await_reply b w g bus_stopped = finish b w g closed
await_reply b w g (ctx_ended e) = finish b w g (bus_error e)

not_empty : (s : Bytes) → s ≢ [] → bytes_eq s [] ≡ false
not_empty s ne = ground (arith, bytes_eq_iff s [])

get_waiter-registry : (b : Local) → (get_waiter b).1.registry ≡ b.registry
unfolding get_waiter
get_waiter-registry b = go b.waiter_pool
  where
    go : (pool : List ℕ) → (get_waiter_from b pool).1.registry ≡ b.registry
    go [] = refl
    go (id ∷ pool) = ground arith

all_out : (refs : List SubRef) → ((ref : SubRef) → ¬ Memᴰ ref refs) → refs ≡ []
all_out [] f = refl
all_out (r ∷ refs) f = absurd (f r (Memᴰ.head refl))

module _ (wait : Local → SubRef → Wake × Local) (ends : Local → Awaited × Local) where
  -- One pass over the targets: whether one accepted, or the error that ended it.
  offer : List SubRef → Delivery → Bool → Local → (Bool × Option Error) × Local
  offer [] d got b = ((got, none), b)
  offer (ref ∷ refs) d got b =
      let (sent, b') = enqueue wait b ref (record d { gen = ref.gen }) in
      elim sent [
        | accepted ↦ offer refs d true b'
        | refused ↦ offer refs d got b'
        | failed e ↦ ((got, some e), b')
      ]

  -- `rounds` attempts are left. An empty target list or no attempt left: no responders.
  attempts : ℕ → Bytes → Delivery → ℕ → ℕ → Local → Option (ReqResult × Local)
  unfolding offer
  attempts zero subject d w g b = some (failure no_responders, put_back b w)
  attempts (suc rounds) subject d w g b =
      let (refs, r) = collect b.registry subject [] in
      let b1 = record b { registry = r } in
      let ((got, e), b2) = offer refs d false b1 in
      let (a, b3) = ends b2 in
      elim (is_empty refs) [
        | true ↦ some (failure no_responders, put_back b1 w)
        | false ↦ elim e [
          | some x ↦ finish b2 w g (bus_error x)
          | none ↦ elim got [
            | true ↦ await_reply b3 w g a
            | false ↦ attempts rounds subject d w g b2
          ]
        ]
      ]

  with_waiter : ℕ × Local → ℕ → Message → Option (ReqResult × Local)
  unfolding attempts
  with_waiter (w, b) wait_ctx msg = elim (b.waiter_at w) [
    | none ↦ none
    | some wt ↦
        attempts 4 msg.subject
          (record {
            ctx = wait_ctx;
            msg = record msg { reply = wt.inbox };
            waiter = some w;
            gen = 0;
            req_gen = wt.gen;
          })
          w wt.gen b
  ]

  -- `has_deadline` and `with_timeout` are the context's. `none`: the requester blocks for ever.
  unfoldable pub request :
      (ℕ → Bool) → (ℕ → ℕ → ℕ) → Local → ℕ → Message → Option (ReqResult × Local)
  unfolding with_waiter
  request has_deadline with_timeout b ctx msg =
      let capped = ltb 0 b.cfg.default_request_timeout && not (has_deadline ctx) in
      let wait_ctx = if capped then with_timeout ctx b.cfg.default_request_timeout else ctx in
      if bytes_eq msg.subject []
      then some (failure subject_required, b)
      else if b.is_closed || b.draining
      then some (failure closed, b)
      else with_waiter (get_waiter b) wait_ctx msg

  attempts_no_target :
      (rounds : ℕ) (subject : Bytes) (d : Delivery) (w g : ℕ) (b : Local)
      → (collect b.registry subject []).0 ≡ []
      → attempts (suc rounds) subject d w g b
        ≡ some (
          failure no_responders,
          put_back (record b { registry = (collect b.registry subject []).1 }) w,
        )
  unfolding attempts
  attempts_no_target rounds subject d w g b e = rw (e, attempts)

  with_waiter_found :
      (w : ℕ) (b : Local) (wait_ctx : ℕ) (msg : Message) (wt : Waiter)
      → b.waiter_at w ≡ some wt
      → (collect b.registry msg.subject []).0 ≡ []
      → with_waiter (w, b) wait_ctx msg
        ≡ some (
          failure no_responders,
          put_back (record b { registry = (collect b.registry msg.subject []).1 }) w,
        )
  with_waiter_found w b wait_ctx msg wt x e =
      unfold with_waiter in rw (x, with_waiter) (attempts_no_target 3 msg.subject _ w wt.gen b e)

  -- On a bus that is neither closed nor draining, with a consistent registry and a waiter at hand, a
  -- request whose subject is not empty and that no registered pattern matches is answered with
  -- `no_responders`, and its waiter goes to the pool.
  pub request-no_responders :
      (has_deadline : ℕ → Bool) (with_timeout : ℕ → ℕ → ℕ) (b : Local) (ctx : ℕ) (msg : Message)
      (wt : Waiter)
      → msg.subject ≢ []
      → (b.is_closed || b.draining) ≡ false
      → (get_waiter b).1.waiter_at (get_waiter b).0 ≡ some wt
      → IsConsistent b.registry
      → ((ref : SubRef) → ¬ Wants b.registry msg.subject ref)
      → request has_deadline with_timeout b ctx msg
        ≡ some (
          failure no_responders,
          put_back
              (record (get_waiter b).1 {
                registry = (collect (get_waiter b).1.registry msg.subject []).1;
              })
              (get_waiter b).0,
        )
  unfolding request
  request-no_responders has_deadline with_timeout b ctx msg wt s o x h nobody =
      rw (not_empty msg.subject s, o)
        (with_waiter_found (get_waiter b).0 (get_waiter b).1 _ msg wt x (
          ap (λ r. (collect r msg.subject []).0) (get_waiter-registry b)
          ∙ all_out _ (λ ref m. nobody ref ((collect-routes b.registry msg.subject h).1 ref m))))
