-- ===== src/Bus/Waiter.antt =====
-- The request rendezvous of pkg/bus/local.go: `waiter`, `getWaiter`, `deliver`, `finishReq`,
-- `nextInbox`. The state packs a generation above two bits, `armed` or `done`, in a uint64.
pub mod Protocol
pub mod Replies
use xqua_go.Prelude.{
  ℕ, zero, suc, ◌+◌, ◌*◌, ◌/◌, ◌%◌, ◌^◌, Bytes, bytes, Bool, List, [], ◌∷◌, ◌++◌, Option, none,
  some, ◌==◌, ltb, if◌then◌else◌, decimal,
}
use xqua_go.Bus.Message.{Message, Error, ReqResult}

pub record Waiter : Type 0 where
  pub ch : List ReqResult
  pub inbox : Bytes
  pub gen : ℕ
  pub state : ℕ

-- `g<<2 | stArmed` and `g<<2 | stDone`.
abbrev pub armed : ℕ → ℕ
armed g = (g * 4 + 1) % 2 ^ 64

abbrev pub done : ℕ → ℕ
done g = (g * 4 + 2) % 2 ^ 64

-- The inbox and the counter after `b.inboxSeq.Add(1)`.
unfoldable pub next_inbox : ℕ → Bytes × ℕ
next_inbox seq = let n = (seq + 1) % 2 ^ 64 in (bytes "_INBOX." ++ decimal n, n)

unfoldable pub new_waiter : Bytes → Waiter
new_waiter inbox = record { ch = []; inbox = inbox; gen = 1; state = armed 1 }

-- `select { case <-w.ch: default: }`.
abbrev pub drop_one : List ReqResult → List ReqResult
drop_one [] = []
drop_one (_ ∷ rest) = rest

-- A waiter from the pool gets the next generation.
unfoldable pub rearm : Waiter → Waiter
rearm w =
    let g = (w.state / 4 + 1) % 2 ^ 64 in record w { ch = drop_one w.ch; gen = g; state = armed g }

-- `CompareAndSwap(g<<2|stArmed, g<<2|stDone)`.
unfoldable pub claim : Waiter → ℕ → Bool × Waiter
claim w g = let b = w.state == armed g in (b, if b then record w { state = done g } else w)

-- `w.ch <- res`, where the channel has room for one.
unfoldable pub send : Waiter → ReqResult → Waiter
send w res = record w { ch = w.ch ++ res ∷ [] }

unfoldable pub deliver : Waiter → ℕ → ReqResult → Waiter
unfolding claim send
deliver w req_gen res = let (won, w') = claim w req_gen in if won then send w' res else w'

-- A reply that raced in with the terminal error `e`: an answer wins, an errored one yields.
settle : Message → Error → ReqResult → ReqResult
settle m e res = elim res.err [ none ↦ res | some _ ↦ record { msg = m; err = some e } ]

pub late_reply : Message → Error → Waiter → List ReqResult → Option (ReqResult × Waiter)
unfolding settle
late_reply m e w [] = none
late_reply m e w (res ∷ rest) = some (settle m e res, record w { ch = rest })

-- What the requester returns with the terminal error `e`, and the waiter as it goes to the pool.
-- `none` while the channel that it reads from is empty: there it blocks.
unfoldable pub finish_req : Waiter → ℕ → Message → Error → Option (ReqResult × Waiter)
unfolding late_reply
finish_req w g m e =
    let (won, w') = claim w g in
    if won then some (record { msg = m; err = some e }, w') else late_reply m e w' w'.ch
