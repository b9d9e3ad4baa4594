-- ===== src/Bus/Message.antt =====
-- The values of pkg/bus/bus.go and of pkg/bus/local.go that pass between publishers, subscribers
-- and requesters. A context is an opaque handle; what it says is an argument where it is read.
use xqua_go.Prelude.{ℕ, Bytes, List, Option}

pub record Message : Type 0 where
  pub subject : Bytes
  pub payload : Bytes
  pub headers : List (Bytes × Bytes)
  pub reply : Bytes

-- The sentinel errors, those of a context, and those of a handler (the number names the value).
pub data Error : Type 0 where
  closed no_responders timeout : Error
  deadline_exceeded canceled : Error
  subject_required queue_required handler_required : Error
  from_handler : ℕ → Error
  handler_panic : ℕ → Error

-- A handler returns a message and maybe an error, or panics.
pub data Outcome : Type 0 where
  returned : Message → Option Error → Outcome
  panicked : ℕ → Outcome

abbrev pub Handler : Type 0
Handler = ℕ → Message → Outcome

pub record ReqResult : Type 0 where
  pub msg : Message
  pub err : Option Error

-- `waiter` is set for a request and names the waiter.
pub record Delivery : Type 0 where
  pub ctx : ℕ
  pub msg : Message
  pub waiter : Option ℕ
  pub gen : ℕ
  pub req_gen : ℕ
