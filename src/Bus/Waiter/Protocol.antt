-- ===== src/Bus/Waiter/Protocol.antt =====
-- One waiter, its requests one after another, and any number of responders, in every order in
-- which their atomic steps can run. A responder's `deliver` is two steps, the compare-and-swap and
-- the send, so that a requester may give up between them.
use xqua_go.Prelude.{
  ℕ, ◌+◌, ◌/◌, ◌^◌, ◌<◌, Bool, true, false, List, ◌∷◌, Option, none, some, ◌≡◌, ◌⊎◌, if◌then◌else◌,
  Bytes,
}
use xqua_go.Bus.Message.{Message, Error, ReqResult}
use xqua_go.Bus.Waiter.{Waiter, new_waiter, rearm, claim, send, finish_req}

pub data Phase : Type 0 where
  pooled waiting : Phase

-- `issued`: some mailbox has accepted a delivery of the current request. `sending`: a responder
-- has won the swap and has yet to send; `sent_by` is the generation of the result in the channel.
pub record Sys : Type 0 where
  pub w : Waiter
  pub phase : Phase
  pub issued : Bool
  pub sending : Option (ℕ × ReqResult)
  pub sent_by : ℕ

unfoldable pub start : Bytes → Sys
start inbox = record {
  w = new_waiter inbox;
  phase = waiting;
  issued = false;
  sending = none;
  sent_by = 0;
}

-- The responder's step at the swap: a winner goes on to send.
unfoldable pub won : Sys → ℕ → ReqResult → Sys
won s rg res =
    let (b, w') = claim s.w rg in
    record s { w = w'; sending = if b then some (rg, res) else s.sending }

-- A delivery of an earlier request may still be handled; one of this request only once issued.
abbrev pub IsOut : Sys → ℕ → Type 0
IsOut s rg = (rg < s.w.gen) ⊎ ((rg ≡ s.w.gen) × (s.issued ≡ true))

pub data Step (s : Sys) : Sys → Type 0 where
  checkout :
      s.phase ≡ pooled
      → s.w.state / 4 + 1 < 2 ^ 62
      → {t : Sys} → t ≡ record s { w = rearm s.w; phase = waiting; issued = false }
      → Step s t
  issue : s.phase ≡ waiting → {t : Sys} → t ≡ record s { issued = true } → Step s t
  swap : (rg : ℕ) (res : ReqResult) → IsOut s rg → {t : Sys} → t ≡ won s rg res → Step s t
  push :
      (rg : ℕ) (res : ReqResult)
      → s.sending ≡ some (rg, res)
      → {t : Sys} → t ≡ record s { w = send s.w res; sending = none; sent_by = rg }
      → Step s t
  receive :
      (res : ReqResult) (rest : List ReqResult)
      → s.phase ≡ waiting
      → s.w.ch ≡ res ∷ rest
      → {t : Sys} → t ≡ record s { w = record s.w { ch = rest }; phase = pooled }
      → Step s t
  no_taker :
      s.phase ≡ waiting → s.issued ≡ false → {t : Sys} → t ≡ record s { phase = pooled } → Step s t
  give_up :
      (m : Message) (e : Error) (res : ReqResult) (w' : Waiter)
      → s.phase ≡ waiting
      → finish_req s.w s.w.gen m e ≡ some (res, w')
      → {t : Sys} → t ≡ record s { w = w'; phase = pooled }
      → Step s t

pub data Reach (s : Sys) : Sys → Type 0 where
  here : Reach s s
  next : {t u : Sys} → Reach s t → Step t u → Reach s u
