-- ===== src/Rpc/Run/Accounted.antt =====
-- What has become of the requests, in every run.
use dotconfig.Base.{
  refl, sym, subst, inl, inr, false, not, ◌&&◌, List, [], ◌∷◌, arith, if_true, if_false, Bool-cases,
  Text, Value, Result, ok, err,
}
use dotconfig.Rpc.{
  LspRpcErrorCode, closed, timeout, write_failed, rpc_error, failed, interrupted, Connection, Peer,
  empty_connection, is_settled,
}
use dotconfig.Rpc.Messages.{answer_server_request, expire, interrupt, notify}
use dotconfig.Rpc.Run.{
  Event, requested, expired, cancelled, told, received, answered, input_failed, input_ended,
  output_failed, drained, disposed, handle_drain, handle_event, run,
}
use dotconfig.Rpc.Stable.{handle_data-stable}
use dotconfig.Rpc.Sent.{fail_all-Sent, flush_writes-Sent, send-Sent}
use dotconfig.Rpc.Account.{
  Account, request-Account, cancel_request-Account, Account-IsStable, Account-Sent,
}

module _ (P : Peer) where
  notify-Account :
      (method : Text) (params : Value) (c : Connection)
      → Account P c
      → Account P (notify P method params c).0
  unfolding notify
  notify-Account method params c a = elim (Bool-cases c.is_closed) [
    | inl ended ↦
        subst (λ (r : Connection × Result LspRpcErrorCode (Unit {0})). Account P r.0)
          (sym (if_true _ c.is_closed ended)) a
    | inr live ↦
        subst (λ (r : Connection × Result LspRpcErrorCode (Unit {0})). Account P r.0)
          (sym (if_false _ c.is_closed live)) (Account-Sent P (send-Sent P _ c) a)
  ]

  answer_server_request-Account :
      (id : Value) (outcome : Result Text Value) (c : Connection)
      → Account P c
      → Account P (answer_server_request P id outcome c)
  unfolding answer_server_request
  answer_server_request-Account id (ok result) c a = Account-Sent P (send-Sent P _ c) a
  answer_server_request-Account id (err cause) c a = Account-Sent P (send-Sent P _ c) a

  handle_drain-Account : (c : Connection) → Account P c → Account P (handle_drain P c)
  unfolding handle_drain
  handle_drain-Account c a = elim (Bool-cases (c.waiting_for_drain && not c.is_closed)) [
    | inl waits ↦
        rw waits (Account-Sent P (flush_writes-Sent P (record c { waiting_for_drain = false })) a)
    | inr other ↦ rw other a
  ]

  handle_event-Account :
      (event : Event) (c : Connection) → Account P c → Account P (handle_event P event c)
  unfolding handle_event expire interrupt
  handle_event-Account (requested method params) c a = request-Account P method params c a
  handle_event-Account (expired id) c a =
      cancel_request-Account P id (failed (rpc_error timeout)) c a
  handle_event-Account (cancelled id) c a = cancel_request-Account P id interrupted c a
  handle_event-Account (told method params) c a = notify-Account method params c a
  handle_event-Account (received chunk) c a =
      handle_data-stable P (Account P) (Account-IsStable P) chunk c a
  handle_event-Account (answered id outcome) c a = answer_server_request-Account id outcome c a
  handle_event-Account input_failed c a = Account-Sent P (fail_all-Sent closed c) a
  handle_event-Account input_ended c a = Account-Sent P (fail_all-Sent closed c) a
  handle_event-Account output_failed c a = Account-Sent P (fail_all-Sent write_failed c) a
  handle_event-Account drained c a = handle_drain-Account c a
  handle_event-Account disposed c a = Account-Sent P (fail_all-Sent closed c) a

  run_from-Account :
      (events : List Event) (c : Connection) → Account P c → Account P (run P events c)
  unfolding run
  run_from-Account [] c a = a
  run_from-Account (event ∷ events) c a =
      run_from-Account events (handle_event P event c) (handle_event-Account event c a)

  -- Whatever happens to a new connection, in whatever order: at most `maxPending` requests are pending,
  -- with ids that differ, every request made so far is either pending or settled, and not both, and
  -- when the connection has ended none is pending.
  pub run-Account : (events : List Event) → Account P (run P events empty_connection)
  unfolding is_settled
  run-Account events = run_from-Account events empty_connection (
    record {
      few = omega arith;
      fresh = tt;
      distinct = tt;
      known = λ call h. cc;
      answered = λ call h. absurd (omega arith);
      once = λ call h. refl;
    },
    λ ended. refl,
  )
