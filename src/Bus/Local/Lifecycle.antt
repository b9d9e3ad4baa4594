-- ===== src/Bus/Local/Lifecycle.antt =====
-- What the life of the bus promises: closing is idempotent, a stale handle does nothing, and a worker that drains handles what is queued for its activation.
use xqua_go.Prelude.{
  ℕ, true, false, List, [], ◌∷◌, Option, none, some, ◌≡◌, inl, inr, refl, arith, ◌==◌,
  if◌then◌else◌, Bool-cases, ap, ◌∙◌,
}
use xqua_go.Bus.Registry.{deregister, without}
use xqua_go.Bus.Message.{Delivery, Handler, Error}
use xqua_go.Bus.Local.{
  Local, Subscription, SubHandle, unsubscribe, close, close_stop, close_stops, drain, put_sub,
}
use xqua_go.Bus.Local.Worker.{drain_process, dispatch, handle_one}

-- The subscription at an address that `close_stop` has seen.
stopped_sub : Subscription → Subscription
stopped_sub s = if s.stop_closed then s else record s { stop_closed = true }

sub_at-close_stop :
    (b : Local) (id : ℕ) (s : Subscription)
    → b.sub_at id ≡ some s
    → (close_stop b id).sub_at id ≡ some (stopped_sub s)
unfolding close_stop stopped_sub
sub_at-close_stop b id s x = rw (x, close_stop) (ground arith)

unsubscribe_once :
    (b : Local) (h : SubHandle) (s : Subscription)
    → b.sub_at h.sub ≡ some s
    → s.once ≡ true
    → unsubscribe b h ≡ b
unfolding unsubscribe
unsubscribe_once b h s x o = rw (x, unsubscribe) (ground arith)

unsubscribe_stale :
    (b : Local) (h : SubHandle) (s : Subscription)
    → b.sub_at h.sub ≡ some s
    → (s.gen == h.gen) ≡ false
    → unsubscribe b h ≡ b
unfolding unsubscribe
unsubscribe_stale b h s x o = rw (x, unsubscribe) (rw o)

unsubscribe_missing : (b : Local) (h : SubHandle) → b.sub_at h.sub ≡ none → unsubscribe b h ≡ b
unfolding unsubscribe
unsubscribe_missing b h x = rw (x, unsubscribe)

-- The bus as the first effective call has it before the stop channel is closed.
abbrev taken_out : Local → SubHandle → Subscription → Local
taken_out b h s = record (put_sub b h.sub (record s { once = true })) {
  registry =
      deregister b.registry s.pattern s.is_wild s.queue
        (record { sub = h.sub; gen = h.gen; stop = s.stop });
  active = without h.sub b.active;
}

unsubscribe_first :
    (b : Local) (h : SubHandle) (s : Subscription)
    → b.sub_at h.sub ≡ some s
    → (s.gen == h.gen) ≡ true
    → s.once ≡ false
    → unsubscribe b h ≡ close_stop (taken_out b h s) h.sub
unfolding unsubscribe
unsubscribe_first b h s x g o = rw (x, unsubscribe) (rw g (rw o))

unsubscribe_marks :
    (b : Local) (h : SubHandle) (s : Subscription)
    → b.sub_at h.sub ≡ some s
    → (s.gen == h.gen) ≡ true
    → s.once ≡ false
    → (t : Subscription) × ((unsubscribe b h).sub_at h.sub ≡ some t) × (t.once ≡ true)
unfolding stopped_sub
unsubscribe_marks b h s x g o = (
  stopped_sub (record s { once = true }),
  ap (λ c. c.sub_at h.sub) (unsubscribe_first b h s x g o)
      ∙ sub_at-close_stop (taken_out b h s) h.sub (record s { once = true }) (ground arith),
  ground arith,
)

-- Unsubscribing twice with one handle is unsubscribing once.
pub unsubscribe_idempotent :
    (b : Local) (h : SubHandle) → unsubscribe (unsubscribe b h) h ≡ unsubscribe b h
unsubscribe_idempotent b h = go (b.sub_at h.sub) refl
  where
    go :
        (o : Option Subscription)
        → b.sub_at h.sub ≡ o
        → unsubscribe (unsubscribe b h) h ≡ unsubscribe b h
    go none x = ap (λ c. unsubscribe c h) (unsubscribe_missing b h x)
    go (some s) x = elim (Bool-cases (s.gen == h.gen)) [
      | inr stale ↦ ap (λ c. unsubscribe c h) (unsubscribe_stale b h s x stale)
      | inl current ↦ elim (Bool-cases s.once) [
        | inl again ↦ ap (λ c. unsubscribe c h) (unsubscribe_once b h s x again)
        | inr first ↦
            let (t, y, marked) = unsubscribe_marks b h s x current first in
            unsubscribe_once (unsubscribe b h) h t y marked
      ]
    ]

close_stop-is_closed : (b : Local) (id : ℕ) → (close_stop b id).is_closed ≡ b.is_closed
unfolding close_stop
close_stop-is_closed b id = ground arith

close_stops-is_closed : (b : Local) (ids : List ℕ) → (close_stops b ids).is_closed ≡ b.is_closed
unfolding close_stops
close_stops-is_closed b [] = refl
close_stops-is_closed b (id ∷ ids) =
    close_stops-is_closed (close_stop b id) ids ∙ close_stop-is_closed b id

pub close_closed :
    (meanwhile : Local → Local) (b : Local) → b.is_closed ≡ true → close meanwhile b ≡ b
unfolding close
close_closed meanwhile b c = rw c

pub close-is_closed :
    (meanwhile : Local → Local) (b : Local)
    → ((c : Local) → c.is_closed ≡ true → (meanwhile c).is_closed ≡ true)
    → (close meanwhile b).is_closed ≡ true
unfolding close
close-is_closed meanwhile b keeps = elim (Bool-cases b.is_closed) [
  | inl already ↦ ap (λ c. c.is_closed) (close_closed meanwhile b already) ∙ already
  | inr open_yet ↦ rw open_yet (keeps _ (close_stops-is_closed _ b.active))
]

drain_closed :
    (meanwhile : Local → Local) (b : Local) (expired : Option Error)
    → b.is_closed ≡ true
    → drain meanwhile b expired ≡ (none, b)
unfolding drain
drain_closed meanwhile b expired c = rw c

-- Where the workers that are waited for do not reopen the bus, closing twice is closing once, and
-- draining after it changes nothing and reports no error.
pub close_idempotent :
    (meanwhile later : Local → Local) (b : Local) (expired : Option Error)
    → ((c : Local) → c.is_closed ≡ true → (meanwhile c).is_closed ≡ true)
    → (close later (close meanwhile b) ≡ close meanwhile b)
      × (drain later (close meanwhile b) expired ≡ (none, close meanwhile b))
close_idempotent meanwhile later b expired keeps = (
  close_closed later (close meanwhile b) (close-is_closed meanwhile b keeps),
  drain_closed later (close meanwhile b) expired (close-is_closed meanwhile b keeps),
)

-- The queued deliveries of one activation.
abbrev pub of_gen : ℕ → List Delivery → List Delivery
of_gen g [] = []
of_gen g (d ∷ ds) = if d.gen == g then d ∷ of_gen g ds else of_gen g ds

abbrev pub dispatch_all : Local → Option Handler → List Delivery → Local
dispatch_all b h [] = b
dispatch_all b h (d ∷ ds) = dispatch_all (dispatch b h d) h ds

-- A worker that drains runs its handler on every queued delivery of its own activation, in the
-- order of the queue, and on no other.
pub drain_process-dispatch_all :
    (b : Local) (h : Option Handler) (g : ℕ) (ds : List Delivery)
    → drain_process b h g ds ≡ dispatch_all b h (of_gen g ds)
unfolding drain_process handle_one
drain_process-dispatch_all b h g [] = refl
drain_process-dispatch_all b h g (d ∷ ds) = elim (Bool-cases (d.gen == g)) [
  | inl own ↦ rw own (drain_process-dispatch_all (dispatch b h d) h g ds)
  | inr other ↦ rw other (drain_process-dispatch_all b h g ds)
]
