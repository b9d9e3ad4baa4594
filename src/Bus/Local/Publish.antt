-- ===== src/Bus/Local/Publish.antt =====
-- Sending, pkg/bus/local.go: `enqueue`, `deliverState`, `Publish`, `getWaiter`, `Request`.
--
-- A blocked operation is resumed by the argument `wait`: which case of the `select` became ready,
-- and the bus by then. A context is a handle; `without_cancel` derives one that has no end.
pub mod Request
use xqua_go.Prelude.{
  ℕ, zero, suc, ◌+◌, ◌%◌, ◌^◌, Bytes, Bool, true, false, ◌&&◌, ◌||◌, not, List, [], ◌∷◌, ◌++◌,
  Option, none, some, ◌==◌, ltb, if◌then◌else◌, length, bytes_eq,
}
use xqua_go.Bus.Subject.{match_pattern}
use xqua_go.Bus.Snapshot.{SubRef, QueueGroup, SubState, pick, is_empty, find_key, set_key, u64}
use xqua_go.Bus.Registry.{Entry, Registry, put_entry, collect}
use xqua_go.Bus.Message.{
  Message, Delivery, Error, closed, no_responders, subject_required, timeout, ReqResult,
}
use xqua_go.Bus.Waiter.{Waiter, new_waiter, rearm, next_inbox, finish_req}
use xqua_go.Bus.Local.{Local, Subscription, put_sub, put_waiter}

-- Why a blocked `enqueue` goes on.
pub data Wake : Type 0 where
  room stopped bus_closed : Wake
  ctx_done : Error → Wake

-- Whether the delivery was accepted, or the error.
pub data Sent : Type 0 where
  accepted refused : Sent
  failed : Error → Sent

abbrev pub mailbox_of : Local → ℕ → List Delivery
mailbox_of b id = elim (b.sub_at id) [ none ↦ [] | some s ↦ s.mailbox ]

abbrev pub push_mailbox : Local → ℕ → Delivery → Local
push_mailbox b id d = elim (b.sub_at id) [
  | none ↦ b
  | some s ↦ put_sub b id (record s { mailbox = s.mailbox ++ d ∷ [] })
]

abbrev pub has_room : Local → ℕ → Bool
has_room b id = ltb (length (mailbox_of b id)) b.cfg.buffer_size

resume : SubRef → Delivery → Wake × Local → Sent × Local
resume ref d (room, b) = (accepted, push_mailbox b ref.sub d)
resume ref d (stopped, b) = (refused, b)
resume ref d (bus_closed, b) = (failed closed, b)
resume ref d (ctx_done e, b) = (failed e, b)

module _ (wait : Local → SubRef → Wake × Local) where
  unfoldable pub enqueue : Local → SubRef → Delivery → Sent × Local
  unfolding resume
  enqueue b ref d =
      if b.stop_done ref.stop
      then (refused, b)
      else if has_room b ref.sub
      then (accepted, push_mailbox b ref.sub d)
      else resume ref d (wait b ref)

  abbrev pub_delivery : ℕ → Message → SubRef → Delivery
  pub_delivery dctx msg ref = record {
    ctx = dctx;
    msg = msg;
    waiter = none;
    gen = ref.gen;
    req_gen = 0;
  }

  -- Go on to `next` unless the delivery failed.
  abbrev or_fail : (Local → Option Error × Local) → Sent × Local → Option Error × Local
  or_fail next (accepted, b) = next b
  or_fail next (refused, b) = next b
  or_fail next (failed e, b) = (some e, b)

  deliver_fanout : ℕ → Message → List SubRef → Local → Option Error × Local
  deliver_fanout dctx msg [] b = (none, b)
  deliver_fanout dctx msg (ref ∷ refs) b =
      or_fail (deliver_fanout dctx msg refs) (enqueue b ref (pub_delivery dctx msg ref))

  -- `qg.next.Add(1)` on the group as the registry holds it now.
  bump_group : ℕ → Entry → Bytes → Local → Option SubState → Local
  bump_group id e k b none = b
  bump_group id e k b (some st) = elim (find_key k st.queues) [
    | none ↦ b
    | some g ↦ record b {
      registry = put_entry b.registry id (record e {
        state =
            some
              (record st { queues = set_key k (record g { next = u64 (g.next + 1) }) st.queues });
      });
    }
  ]

  bump : ℕ → Bytes → Local → Local
  unfolding bump_group
  bump id k b = elim (b.registry.entries id) [ none ↦ b | some e ↦ bump_group id e k b e.state ]

  deliver_queues : ℕ → Message → ℕ → List (Bytes × QueueGroup) → Local → Option Error × Local
  unfolding bump
  deliver_queues dctx msg id [] b = (none, b)
  deliver_queues dctx msg id ((k, g) ∷ m) b = elim (pick g).0 [
    | none ↦ deliver_queues dctx msg id m b
    | some ref ↦
        or_fail (deliver_queues dctx msg id m)
          (enqueue (bump id k b) ref (pub_delivery dctx msg ref))
  ]

  -- `deliverState` of the snapshot that the entry at `id` had.
  pub deliver_state : ℕ → Message → ℕ → Option SubState → Local → Option Error × Local
  unfolding deliver_fanout deliver_queues
  deliver_state dctx msg id none b = (none, b)
  deliver_state dctx msg id (some st) b =
      let (e, b') = deliver_fanout dctx msg st.fanout b in
      elim e [ none ↦ deliver_queues dctx msg id st.queues b' | some x ↦ (some x, b') ]

  publish_exact : ℕ → Message → Local → Option Error × Local
  unfolding deliver_state
  publish_exact dctx msg b = elim (b.registry.index msg.subject) [
    | none ↦ (none, b)
    | some id ↦ elim (b.registry.entries id) [
      | none ↦ (none, b)
      | some e ↦ if not e.is_wild then deliver_state dctx msg id e.state b else (none, b)
    ]
  ]

  publish_wild : ℕ → Message → List ℕ → Local → Option Error × Local
  unfolding deliver_state
  publish_wild dctx msg [] b = (none, b)
  publish_wild dctx msg (id ∷ ids) b = elim (b.registry.entries id) [
    | none ↦ publish_wild dctx msg ids b
    | some e ↦
        let (r, b') = deliver_state dctx msg id e.state b in
        elim (match_pattern e.tokens msg.subject) [
          | false ↦ publish_wild dctx msg ids b
          | true ↦ elim r [ none ↦ publish_wild dctx msg ids b' | some x ↦ (some x, b') ]
        ]
  ]

  unfoldable pub publish : (ℕ → ℕ) → Local → ℕ → Message → Option Error × Local
  unfolding publish_exact publish_wild
  publish without_cancel b ctx msg =
      if bytes_eq msg.subject []
      then (some subject_required, b)
      else if b.is_closed || b.draining
      then (some closed, b)
      else let (r, b') = publish_exact (without_cancel ctx) msg b in
        elim r [
          | none ↦ publish_wild (without_cancel ctx) msg b'.registry.wild b'
          | some x ↦ (some x, b')
        ]

-- A waiter from the pool, or a new one with its inbox.
get_waiter_from : Local → List ℕ → ℕ × Local
get_waiter_from b [] =
    let (inbox, seq) = next_inbox b.inbox_seq in
    (
      b.fresh_waiter,
      put_waiter (record b { inbox_seq = seq; fresh_waiter = suc b.fresh_waiter }) b.fresh_waiter
          (new_waiter inbox),
    )
get_waiter_from b (id ∷ pool) = elim (b.waiter_at id) [
  | none ↦ (id, record b { waiter_pool = pool })
  | some w ↦ (id, put_waiter (record b { waiter_pool = pool }) id (rearm w))
]

unfoldable pub get_waiter : Local → ℕ × Local
unfolding get_waiter_from
get_waiter b = get_waiter_from b b.waiter_pool

abbrev pub put_back : Local → ℕ → Local
put_back b id = record b { waiter_pool = id ∷ b.waiter_pool }
