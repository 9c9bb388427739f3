-- ===== src/Rpc/Run.antt =====
-- The events of a connection, in the order in which they come.
pub mod Queued
pub mod Accounted
use dotconfig.Base.{ℕ, false, ◌&&◌, not, List, [], ◌∷◌, Text, Value, Result, if◌then◌else◌}
use dotconfig.Rpc.{Bytes, closed, write_failed, Connection, Peer, fail_all, flush_writes}
use dotconfig.Rpc.Messages.{answer_server_request, request, expire, interrupt, notify}
use dotconfig.Rpc.Frames.{handle_data}

pub data Event : Type 0 where
  requested : (method : Text) (params : Value) → Event
  expired : (id : ℕ) → Event
  cancelled : (id : ℕ) → Event
  told : (method : Text) (params : Value) → Event
  received : (chunk : Bytes) → Event
  answered : (id : Value) (outcome : Result Text Value) → Event
  input_failed input_ended output_failed drained disposed : Event

module _ (P : Peer) where
  -- `#handleDrain`, which is registered while the output is full.
  unfoldable pub handle_drain : Connection → Connection
  unfolding flush_writes
  handle_drain c =
      if c.waiting_for_drain && not c.is_closed
      then flush_writes P (record c { waiting_for_drain = false })
      else c

  unfoldable pub handle_event : Event → Connection → Connection
  unfolding request expire interrupt notify handle_data answer_server_request fail_all handle_drain
  handle_event (requested method params) c = request P method params c
  handle_event (expired id) c = expire P id c
  handle_event (cancelled id) c = interrupt P id c
  handle_event (told method params) c = (notify P method params c).0
  handle_event (received chunk) c = handle_data P chunk c
  handle_event (answered id outcome) c = answer_server_request P id outcome c
  handle_event input_failed c = fail_all closed c
  handle_event input_ended c = fail_all closed c
  handle_event output_failed c = fail_all write_failed c
  handle_event drained c = handle_drain c
  handle_event disposed c = fail_all closed c

  unfoldable pub run : List Event → Connection → Connection
  unfolding handle_event
  run [] c = c
  run (event ∷ events) c = run events (handle_event event c)
