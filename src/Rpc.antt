-- ===== src/Rpc.antt =====
-- ai/pi/extensions/lsp/json-rpc.ts: the connection to a language server. A connection is the state of
-- its object and the log of its effects: what it wrote to the output, the requests whose callback it
-- has called (`settled`; the first call of a callback counts), the notifications and the requests
-- that it passed on, and the cause of its end. A caller is named by the number of its request.
pub mod Messages
pub mod Frames
pub mod Run
pub mod Stable
pub mod Queue
pub mod Pending
pub mod Ledger
pub mod Sent
pub mod Account
mod Tests
use dotconfig.Base.{
  ℕ, ◌+◌, ◌-◌, Bool, true, false, ◌||◌, Option, none, some, List, [], ◌∷◌, ◌++◌, length, ltb, ◌==◌,
  Text, codes, decimal, ℤ, Value, if◌then◌else◌,
}

abbrev pub Bytes : Type 0
Bytes = List ℕ

abbrev pub max_header_bytes : ℕ
max_header_bytes = 8192

abbrev pub max_outbound_queue_bytes : ℕ
max_outbound_queue_bytes = 4194304

pub data LspRpcErrorCode : Type 0 where
  closed invalid_frame message_too_large invalid_message : LspRpcErrorCode
  pending_limit timeout server_error write_failed : LspRpcErrorCode

-- An error with its code, and `serverCode` and `serverDiagnostic` where the server reported it.
pub record LspRpcError : Type 0 where
  pub code : LspRpcErrorCode
  pub server : Option (ℤ × Text)

abbrev pub rpc_error : LspRpcErrorCode → LspRpcError
rpc_error code = record { code = code; server = none }

pub data Settlement : Type 0 where
  succeeded : (result : Value) → Settlement
  failed : (error : LspRpcError) → Settlement
  interrupted : Settlement

-- A request by its id; `call` stands for its callback `resume`.
pub record PendingRequest : Type 0 where
  pub id : ℕ
  pub method : Text
  pub call : ℕ

pub record Connection : Type 0 where
  pub pending : List PendingRequest
  pub outbound : List Bytes
  pub outbound_bytes : ℕ
  pub waiting_for_drain : Bool
  pub buffer : Bytes
  pub next_id : ℕ
  pub is_closed : Bool
  pub calls : ℕ
  pub settled : List (ℕ × Settlement)
  pub written : List Bytes
  pub notified : List (Text × Value)
  pub asked : List (Value × Text × Value)
  pub close_cause : Option LspRpcErrorCode

-- What a connection is created with, and the runtime: `JSON.stringify` and `JSON.parse` on UTF-8 bytes
-- (`none` where they throw), and whether the stream takes the n-th write without a pause.
pub record Peer : Type 0 where
  pub max_message_bytes : ℕ
  pub max_pending : ℕ
  pub has_request_handler : Bool
  pub encode : Value → Option Bytes
  pub parse : Bytes → Option Value
  pub accepts : ℕ → Bool

abbrev pub empty_connection : Connection
empty_connection = record {
  pending = [];
  outbound = [];
  outbound_bytes = 0;
  waiting_for_drain = false;
  buffer = [];
  next_id = 1;
  is_closed = false;
  calls = 0;
  settled = [];
  written = [];
  notified = [];
  asked = [];
  close_cause = none;
}

unfoldable pub is_settled : ℕ → List (ℕ × Settlement) → Bool
is_settled call [] = false
is_settled call ((other, outcome) ∷ log) = other == call || is_settled call log

-- `resume(outcome)`: only the first call of a callback counts.
unfoldable pub settle : ℕ → Settlement → List (ℕ × Settlement) → List (ℕ × Settlement)
unfolding is_settled
settle call outcome log = if is_settled call log then log else (call, outcome) ∷ log

unfoldable pub settle_all :
    LspRpcError → List PendingRequest → List (ℕ × Settlement) → List (ℕ × Settlement)
unfolding settle
settle_all error [] log = log
settle_all error (request ∷ requests) log =
    settle_all error requests (settle request.call (failed error) log)

-- `this.#pending.get(id)`
unfoldable pub get_pending : ℕ → List PendingRequest → Option PendingRequest
get_pending id [] = none
get_pending id (request ∷ requests) =
    if request.id == id then some request else get_pending id requests

-- `this.#pending.delete(id)`
unfoldable pub delete_pending : ℕ → List PendingRequest → List PendingRequest
delete_pending id [] = []
delete_pending id (request ∷ requests) =
    if request.id == id then requests else request ∷ delete_pending id requests

unfoldable pub fail_all : LspRpcErrorCode → Connection → Connection
unfolding settle_all
fail_all code c = if c.is_closed then c else record c {
  is_closed = true;
  pending = [];
  outbound = [];
  outbound_bytes = 0;
  waiting_for_drain = false;
  buffer = [];
  settled = settle_all (rpc_error code) c.pending c.settled;
  close_cause = some code;
}

-- The header and the body.
unfoldable pub frame : Bytes → Bytes
unfolding decimal
frame body = codes "Content-Length: " ++ decimal (length body) ++ (13 ∷ 10 ∷ 13 ∷ 10 ∷ []) ++ body

module _ (P : Peer) where
  -- The loop of `#flushWrites`, over `outbound`.
  unfoldable pub flush_from : List Bytes → Connection → Connection
  flush_from [] c = record c { outbound = [] }
  flush_from (framed ∷ rest) c =
      let next = record c {
        outbound = rest;
        outbound_bytes = c.outbound_bytes - length framed;
        written = c.written ++ framed ∷ [];
      } in
      if P.accepts (length c.written)
      then flush_from rest next
      else record next { waiting_for_drain = true }

  unfoldable pub flush_writes : Connection → Connection
  unfolding flush_from
  flush_writes c = if c.is_closed || c.waiting_for_drain then c else flush_from c.outbound c

  unfoldable pub enqueue_frame : Bytes → Connection → Connection × Bool
  unfolding flush_writes fail_all
  enqueue_frame framed c =
      if ltb max_outbound_queue_bytes (c.outbound_bytes + length framed)
      then (fail_all write_failed c, false)
      else (
        flush_writes (record c {
          outbound = c.outbound ++ framed ∷ [];
          outbound_bytes = c.outbound_bytes + length framed;
        }),
        true,
      )

  abbrev pub send_body : Option Bytes → Connection → Connection × Bool
  send_body none c = (fail_all write_failed c, false)
  send_body (some body) c =
      if ltb P.max_message_bytes (length body) then (c, false) else enqueue_frame (frame body) c

  unfoldable pub send : Value → Connection → Connection × Bool
  unfolding fail_all enqueue_frame frame
  send message c = if c.is_closed then (c, false) else send_body (P.encode message) c
