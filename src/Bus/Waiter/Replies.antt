-- ===== src/Bus/Waiter/Replies.antt =====
-- What holds of a waiter in every order of steps: replies go to their own request, nobody blocks
-- on the channel for good, and a stale responder changes nothing.
use xqua_go.Prelude.{
  ℕ, ◌+◌, ◌/◌, ◌^◌, ◌<◌, true, false, List, [], ◌∷◌, none, some, ◌≡◌, ◌≢◌, ◌⊎◌, inl, inr, refl, ap,
  sym, subst, ◌∙◌, arith, Bytes,
}
use xqua_go.Bus.Message.{Message, Error, ReqResult}
use xqua_go.Bus.Waiter.{
  Waiter, armed, done, new_waiter, rearm, claim, send, finish_req, late_reply, settle, drop_one,
}
use xqua_go.Bus.Waiter.Protocol.{
  pooled, waiting, Sys, start, won, IsOut, Step, checkout, issue, swap, push, receive, no_taker,
  give_up, Reach, here, next,
}

-- The five situations of a waiter.
pub data Situation (s : Sys) : Type 0 where
  open_request :
      s.phase ≡ waiting → s.w.state ≡ armed s.w.gen → s.w.ch ≡ [] → s.sending ≡ none → Situation s
  answering :
      (res : ReqResult)
      → s.phase ≡ waiting
      → s.w.state ≡ done s.w.gen
      → s.w.ch ≡ []
      → s.sending ≡ some (s.w.gen, res)
      → s.issued ≡ true
      → Situation s
  answered :
      (res : ReqResult)
      → s.phase ≡ waiting
      → s.w.state ≡ done s.w.gen
      → s.w.ch ≡ res ∷ []
      → s.sending ≡ none
      → s.sent_by ≡ s.w.gen
      → s.issued ≡ true
      → Situation s
  idle : s.phase ≡ pooled → s.w.state ≡ done s.w.gen → s.w.ch ≡ [] → s.sending ≡ none → Situation s
  unused :
      s.phase ≡ pooled
      → s.w.state ≡ armed s.w.gen
      → s.w.ch ≡ []
      → s.sending ≡ none
      → s.issued ≡ false
      → Situation s

pub record Inv (s : Sys) : Type 0 where
  pub small : s.w.gen < 2 ^ 62
  pub situation : Situation s

armed-ne-done : (a b : ℕ) → armed a ≢ done b
armed-ne-done a b e = omega arith

armed-injective : (a b : ℕ) → a < 2 ^ 62 → b < 2 ^ 62 → armed a ≡ armed b → a ≡ b
armed-injective a b ha hb e = omega arith

done_gen : (g : ℕ) → g < 2 ^ 62 → done g / 4 ≡ g
done_gen g h = omega arith

armed_gen : (g : ℕ) → g < 2 ^ 62 → armed g / 4 ≡ g
armed_gen g h = omega arith

-- What a swap does in a situation where the state is done: nothing.
claim-done : (w : Waiter) (rg g : ℕ) → w.state ≡ done g → claim w rg ≡ (false, w)
unfolding claim
claim-done w rg g e = ground (arith, armed-ne-done rg g)

claim_other :
    (w : Waiter) (rg g : ℕ) → w.state ≡ armed g → rg < g → g < 2 ^ 62 → claim w rg ≡ (false, w)
unfolding claim
claim_other w rg g e h b = ground (arith, armed-injective rg g)

claim_own :
    (w : Waiter) (g : ℕ) → w.state ≡ armed g → claim w g ≡ (true, record w { state = done g })
unfolding claim
claim_own w g e = ground arith

won_lost : (s : Sys) (rg : ℕ) (res : ReqResult) → claim s.w rg ≡ (false, s.w) → won s rg res ≡ s
unfolding won
won_lost s rg res e = rw e

won_own :
    (s : Sys) (g : ℕ) (res : ReqResult)
    → s.w.state ≡ armed g
    → won s g res ≡ record s { w = record s.w { state = done g }; sending = some (g, res) }
unfolding won
won_own s g res e = rw (claim_own s.w g e)

swap-Inv : (s : Sys) (rg : ℕ) (res : ReqResult) → IsOut s rg → Inv s → Inv (won s rg res)
swap-Inv s rg res out v = at v.situation
  where
    keep : claim s.w rg ≡ (false, s.w) → Inv (won s rg res)
    keep e = rw (won_lost s rg res e) v

    at : Situation s → Inv (won s rg res)
    at (open_request p st ch n) = elim out [
      | inl old ↦ keep (claim_other s.w rg s.w.gen st old v.small)
      | inr (same, j) ↦
          rw (same, won_own s s.w.gen res st)
            (record { small = v.small; situation = answering res p refl ch refl j })
    ]
    at (answering r p st ch n j) = keep (claim-done s.w rg s.w.gen st)
    at (answered r p st ch n b j) = keep (claim-done s.w rg s.w.gen st)
    at (idle p st ch n) = keep (claim-done s.w rg s.w.gen st)
    at (unused p st ch n i) = elim out [
      | inl old ↦ keep (claim_other s.w rg s.w.gen st old v.small)
      | inr (same, j) ↦ absurd (cc (i, j))
    ]

pooled_empty : (s : Sys) → Situation s → s.phase ≡ pooled → (s.w.ch ≡ []) × (s.sending ≡ none)
pooled_empty s (open_request p st ch n) q = (ch, n)
pooled_empty s (answering r p st ch n j) q = absurd (cc (p, q))
pooled_empty s (answered r p st ch n b j) q = absurd (cc (p, q))
pooled_empty s (idle p st ch n) q = (ch, n)
pooled_empty s (unused p st ch n i) q = (ch, n)

checkout-Inv :
    (s : Sys)
    → s.phase ≡ pooled
    → s.w.state / 4 + 1 < 2 ^ 62
    → Inv s
    → Inv (record s { w = rearm s.w; phase = waiting; issued = false })
unfolding rearm
checkout-Inv s p b v =
    let (empty, quiet) = pooled_empty s v.situation p in
    record { small = omega arith; situation = open_request refl refl (ap drop_one empty) quiet }

issue-Inv : (s : Sys) → s.phase ≡ waiting → Inv s → Inv (record s { issued = true })
issue-Inv s q v = record { small = v.small; situation = at v.situation }
  where
    at : Situation s → Situation (record s { issued = true })
    at (open_request p st ch n) = open_request p st ch n
    at (answering r p st ch n j) = answering r p st ch n refl
    at (answered r p st ch n b j) = answered r p st ch n b refl
    at (idle p st ch n) = absurd (cc (p, q))
    at (unused p st ch n i) = absurd (cc (p, q))

push-Inv :
    (s : Sys) (rg : ℕ) (res : ReqResult)
    → s.sending ≡ some (rg, res)
    → Inv s
    → Inv (record s { w = send s.w res; sending = none; sent_by = rg })
unfolding send
push-Inv s rg res q v = record { small = v.small; situation = at v.situation }
  where
    at : Situation s → Situation (record s { w = send s.w res; sending = none; sent_by = rg })
    at (open_request p st ch n) = absurd (cc (n, q))
    at (answering r p st ch n j) = answered res p st (rw ch) refl (cc (n, q)) j
    at (answered r p st ch n b j) = absurd (cc (n, q))
    at (idle p st ch n) = absurd (cc (n, q))
    at (unused p st ch n i) = absurd (cc (n, q))

receive-Inv :
    (s : Sys) (res : ReqResult) (rest : List ReqResult)
    → s.phase ≡ waiting
    → s.w.ch ≡ res ∷ rest
    → Inv s
    → Inv (record s { w = record s.w { ch = rest }; phase = pooled })
receive-Inv s res rest q c v = record { small = v.small; situation = at v.situation }
  where
    at : Situation s → Situation (record s { w = record s.w { ch = rest }; phase = pooled })
    at (open_request p st ch n) = absurd (cc (ch, c))
    at (answering r p st ch n j) = absurd (cc (ch, c))
    at (answered r p st ch n b j) = idle refl st (cc (ch, c)) n
    at (idle p st ch n) = absurd (cc (ch, c))
    at (unused p st ch n i) = absurd (cc (ch, c))

no_taker-Inv :
    (s : Sys) → s.phase ≡ waiting → s.issued ≡ false → Inv s → Inv (record s { phase = pooled })
no_taker-Inv s q i v = record { small = v.small; situation = at v.situation }
  where
    at : Situation s → Situation (record s { phase = pooled })
    at (open_request p st ch n) = unused refl st ch n i
    at (answering r p st ch n j) = absurd (cc (i, j))
    at (answered r p st ch n b j) = absurd (cc (i, j))
    at (idle p st ch n) = absurd (cc (p, q))
    at (unused p st ch n i) = absurd (cc (p, q))

finish_open :
    (w : Waiter) (m : Message) (e : Error)
    → w.state ≡ armed w.gen
    → finish_req w w.gen m e
      ≡ some (record { msg = m; err = some e }, record w { state = done w.gen })
unfolding finish_req
finish_open w m e st = rw (claim_own w w.gen st)

finish_done :
    (w : Waiter) (m : Message) (e : Error)
    → w.state ≡ done w.gen
    → finish_req w w.gen m e ≡ late_reply m e w w.ch
unfolding finish_req
finish_done w m e st = rw (claim-done w w.gen w.gen st)

late_none : (w : Waiter) (m : Message) (e : Error) → late_reply m e w [] ≡ none
unfolding late_reply
late_none w m e = refl

late_some :
    (w : Waiter) (m : Message) (e : Error) (res r : ReqResult) (w' : Waiter)
    → late_reply m e w (res ∷ []) ≡ some (r, w')
    → w' ≡ record w { ch = [] }
unfolding late_reply
late_some w m e res r w' h = cc

give_up-Inv :
    (s : Sys) (m : Message) (e : Error) (res : ReqResult) (w' : Waiter)
    → s.phase ≡ waiting
    → finish_req s.w s.w.gen m e ≡ some (res, w')
    → Inv s
    → Inv (record s { w = w'; phase = pooled })
give_up-Inv s m e res w' q f v = at v.situation
  where
    leaves : Waiter → Sys
    leaves u = record s { w = u; phase = pooled }

    at : Situation s → Inv (record s { w = w'; phase = pooled })
    at (open_request p st ch n) =
        let same : w' ≡ record s.w { state = done s.w.gen } = cc (finish_open s.w m e st, f) in
        subst (λ u. Inv (leaves u)) (sym same)
          (record { small = v.small; situation = idle refl refl ch n })
    at (answering r p st ch n j) =
        absurd (cc (finish_done s.w m e st, f, ap (late_reply m e s.w) ch, late_none s.w m e))
    at (answered r p st ch n b j) =
        let same : w' ≡ record s.w { ch = [] } =
          late_some s.w m e r res w'
            (ap (late_reply m e s.w) (sym ch) ∙ sym (finish_done s.w m e st) ∙ f) in
        subst (λ u. Inv (leaves u)) (sym same)
          (record { small = v.small; situation = idle refl st refl n })
    at (idle p st ch n) = absurd (cc (p, q))
    at (unused p st ch n i) = absurd (cc (p, q))

Step-Inv : {s t : Sys} → Step s t → Inv s → Inv t
Step-Inv {s} (checkout p b e) v = rw e (checkout-Inv s p b v)
Step-Inv {s} (issue p e) v = rw e (issue-Inv s p v)
Step-Inv {s} (swap rg res out e) v = rw e (swap-Inv s rg res out v)
Step-Inv {s} (push rg res q e) v = rw e (push-Inv s rg res q v)
Step-Inv {s} (receive res rest p c e) v = rw e (receive-Inv s res rest p c v)
Step-Inv {s} (no_taker p i e) v = rw e (no_taker-Inv s p i v)
Step-Inv {s} (give_up m x res w' p f e) v = rw e (give_up-Inv s m x res w' p f v)

start-Inv : (inbox : Bytes) → Inv (start inbox)
unfolding start new_waiter
start-Inv inbox = record { small = omega arith; situation = open_request refl refl refl refl }

Reach-Inv : {s t : Sys} → Inv s → Reach s t → Inv t
Reach-Inv h here = h
Reach-Inv h (next r st) = Step-Inv st (Reach-Inv h r)

-- What a requester may read: at most one result, and only one for the request that it waits for.
reply_is_own :
    (s : Sys)
    → Situation s
    → s.phase ≡ waiting
    → s.w.ch ≢ []
    → (s.sent_by ≡ s.w.gen) × ((res : ReqResult) × (s.w.ch ≡ res ∷ []))
reply_is_own s (open_request p st ch n) q ne = absurd (ne ch)
reply_is_own s (answering r p st ch n j) q ne = absurd (ne ch)
reply_is_own s (answered r p st ch n b j) q ne = (b, (r, ch))
reply_is_own s (idle p st ch n) q ne = absurd (ne ch)
reply_is_own s (unused p st ch n i) q ne = absurd (ne ch)

-- In every order of steps from a new waiter with generations below 2 ^ 62, the channel of a requester
-- that waits holds nothing, or one result, and then one that a responder of its own request has sent.
pub waiter-reply_is_own :
    (inbox : Bytes) (s : Sys)
    → Reach (start inbox) s
    → s.phase ≡ waiting
    → s.w.ch ≢ []
    → (s.sent_by ≡ s.w.gen) × ((res : ReqResult) × (s.w.ch ≡ res ∷ []))
waiter-reply_is_own inbox s r = reply_is_own s (Reach-Inv (start-Inv inbox) r).situation

room_to_send : (s : Sys) (x : ℕ × ReqResult) → Situation s → s.sending ≡ some x → s.w.ch ≡ []
room_to_send s x (open_request p st ch n) q = ch
room_to_send s x (answering r p st ch n j) q = ch
room_to_send s x (answered r p st ch n b j) q = absurd (cc (n, q))
room_to_send s x (idle p st ch n) q = ch
room_to_send s x (unused p st ch n i) q = ch

-- In every order of steps with generations below 2 ^ 62, a responder that has won the swap finds the
-- channel empty, so its send does not block.
pub waiter-send_room :
    (inbox : Bytes) (s : Sys) (x : ℕ × ReqResult)
    → Reach (start inbox) s
    → s.sending ≡ some x
    → s.w.ch ≡ []
waiter-send_room inbox s x r = room_to_send s x (Reach-Inv (start-Inv inbox) r).situation

late_one :
    (w : Waiter) (m : Message) (e : Error) (r : ReqResult)
    → late_reply m e w (r ∷ []) ≡ some (settle m e r, record w { ch = [] })
unfolding late_reply
late_one w m e r = refl

no_deadlock :
    (s : Sys) (m : Message) (e : Error)
    → Situation s
    → s.phase ≡ waiting
    → ((r : ReqResult) × (w' : Waiter) × (finish_req s.w s.w.gen m e ≡ some (r, w')))
      ⊎ ((r : ReqResult) × (s.sending ≡ some (s.w.gen, r)))
no_deadlock s m e (open_request p st ch n) q =
    inl (
      record { msg = m; err = some e },
      record s.w { state = done s.w.gen },
      finish_open s.w m e st,
    )
no_deadlock s m e (answering r p st ch n j) q = inr (r, n)
no_deadlock s m e (answered r p st ch n b j) q = inl (
  settle m e r,
  record s.w { ch = [] },
  finish_done s.w m e st ∙ ap (late_reply m e s.w) ch ∙ late_one s.w m e r,
)
no_deadlock s m e (idle p st ch n) q = absurd (cc (p, q))
no_deadlock s m e (unused p st ch n i) q = absurd (cc (p, q))

-- In every order of steps with generations below 2 ^ 62, a requester that gives up returns at once,
-- or a responder of its own request has won the swap and is about to send what it reads.
pub finish_req-no_deadlock :
    (inbox : Bytes) (s : Sys) (m : Message) (e : Error)
    → Reach (start inbox) s
    → s.phase ≡ waiting
    → ((r : ReqResult) × (w' : Waiter) × (finish_req s.w s.w.gen m e ≡ some (r, w')))
      ⊎ ((r : ReqResult) × (s.sending ≡ some (s.w.gen, r)))
finish_req-no_deadlock inbox s m e r = no_deadlock s m e (Reach-Inv (start-Inv inbox) r).situation
