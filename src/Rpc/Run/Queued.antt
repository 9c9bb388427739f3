-- ===== src/Rpc/Run/Queued.antt =====
-- What waits for the output, in every run.
use dotconfig.Base.{
  ◌≡◌, refl, sym, subst, inl, inr, false, not, ◌&&◌, List, [], ◌∷◌, arith, if_true, if_false,
  Bool-cases, Text, Value, Result, ok, err,
}
use dotconfig.Rpc.{
  LspRpcErrorCode, closed, write_failed, Connection, Peer, empty_connection, get_pending,
}
use dotconfig.Rpc.Messages.{answer_server_request, expire, interrupt, notify}
use dotconfig.Rpc.Run.{
  Event, requested, expired, cancelled, told, received, answered, input_failed, input_ended,
  output_failed, drained, disposed, handle_drain, handle_event, run,
}
use dotconfig.Rpc.Stable.{handle_data-stable}
use dotconfig.Rpc.Queue.{
  IsQueued, request-IsQueued, cancel_request-IsQueued, fail_all-IsQueued, send-IsQueued,
  flush_writes-IsQueued, IsQueued-IsStable,
}

module _ (P : Peer) where
  notify-IsQueued :
      (method : Text) (params : Value) (c : Connection)
      → IsQueued c
      → IsQueued (notify P method params c).0
  unfolding notify
  notify-IsQueued method params c q = elim (Bool-cases c.is_closed) [
    | inl over ↦
        subst (λ (r : Connection × Result LspRpcErrorCode (Unit {0})). IsQueued r.0)
          (sym (if_true _ c.is_closed over)) q
    | inr live ↦
        subst (λ (r : Connection × Result LspRpcErrorCode (Unit {0})). IsQueued r.0)
          (sym (if_false _ c.is_closed live)) (send-IsQueued P _ c q)
  ]

  answer_server_request-IsQueued :
      (id : Value) (outcome : Result Text Value) (c : Connection)
      → IsQueued c
      → IsQueued (answer_server_request P id outcome c)
  unfolding answer_server_request
  answer_server_request-IsQueued id (ok result) c q = send-IsQueued P _ c q
  answer_server_request-IsQueued id (err cause) c q = send-IsQueued P _ c q

  handle_drain-IsQueued : (c : Connection) → IsQueued c → IsQueued (handle_drain P c)
  unfolding handle_drain
  handle_drain-IsQueued c q = elim (Bool-cases (c.waiting_for_drain && not c.is_closed)) [
    | inl waits ↦
        let live : c.is_closed ≡ false = ground arith in
        rw waits (flush_writes-IsQueued P _ q.measured q.bounded live)
    | inr other ↦ rw other q
  ]

  handle_event-IsQueued :
      (event : Event) (c : Connection) → IsQueued c → IsQueued (handle_event P event c)
  unfolding handle_event expire interrupt
  handle_event-IsQueued (requested method params) c q = request-IsQueued P method params c q
  handle_event-IsQueued (expired id) c q =
      cancel_request-IsQueued P _ (get_pending id c.pending) c q
  handle_event-IsQueued (cancelled id) c q =
      cancel_request-IsQueued P _ (get_pending id c.pending) c q
  handle_event-IsQueued (told method params) c q = notify-IsQueued method params c q
  handle_event-IsQueued (received chunk) c q =
      handle_data-stable P IsQueued (IsQueued-IsStable P) chunk c q
  handle_event-IsQueued (answered id outcome) c q = answer_server_request-IsQueued id outcome c q
  handle_event-IsQueued input_failed c q = fail_all-IsQueued closed c q
  handle_event-IsQueued input_ended c q = fail_all-IsQueued closed c q
  handle_event-IsQueued output_failed c q = fail_all-IsQueued write_failed c q
  handle_event-IsQueued drained c q = handle_drain-IsQueued c q
  handle_event-IsQueued disposed c q = fail_all-IsQueued closed c q

  run_from-IsQueued :
      (events : List Event) (c : Connection) → IsQueued c → IsQueued (run P events c)
  unfolding run
  run_from-IsQueued [] c q = q
  run_from-IsQueued (event ∷ events) c q =
      run_from-IsQueued events (handle_event P event c) (handle_event-IsQueued event c q)

  -- Whatever happens to a new connection, in whatever order: `outboundBytes` is the size of the queue and
  -- at most `MAX_OUTBOUND_QUEUE_BYTES`, bytes wait in the queue only while the output is full, and a
  -- connection that has ended holds neither bytes to write nor bytes that it has read.
  pub run-IsQueued : (events : List Event) → IsQueued (run P events empty_connection)
  run-IsQueued events =
      run_from-IsQueued events empty_connection
        (record { measured = refl; bounded = omega arith; flushed = λ e. refl; ended = λ over. cc })
