-- ===== src/Rpc/Tests.antt =====
-- Runs of json-rpc.ts, and its theorems at concrete events.
use dotconfig.Base.{
  ◌<◌, ◌≡◌, refl, true, false, none, some, List, [], ◌∷◌, ◌++◌, arith, length, take, codes, decimal,
  decimal_on, text_eq, trim, is_space, replace_runs, starts_with, starts_with_ci, trim_start,
  span_digits, number_from, lookup_field, has_key, pos, Value, str, num, int, field, end,
}
use dotconfig.Rpc.{
  timeout, rpc_error, succeeded, failed, Peer, empty_connection, is_settled, settle, settle_all,
  get_pending, delete_pending, fail_all, flush_from, flush_writes, frame, enqueue_frame, send,
  LspRpcErrorCode,
}
use dotconfig.Rpc.Messages.{
  bounded_server_diagnostic, is_json_rpc_id, json_rpc, decode_error, handle_response,
  handle_server_request, answer_server_request, dispatch, request, expire, interrupt, notify,
}
use dotconfig.Rpc.Frames.{
  header_end, blank_to_line_end, length_here, length_digits, with_length, drain_frames, handle_data,
}
use dotconfig.Rpc.Frames.Whole.{stream, cut}
use dotconfig.Rpc.Frames.Stream.{deliver_all, handle_data-stream}
use dotconfig.Rpc.Run.{
  Event, requested, expired, received, disposed, drained, handle_drain, handle_event, run,
}
use dotconfig.Rpc.Queue.{IsQueued}
use dotconfig.Rpc.Run.Queued.{run-IsQueued}
use dotconfig.Rpc.Account.{Account}
use dotconfig.Rpc.Run.Accounted.{run-Account}

connections : Unit {0}
unfolding decimal decimal_on text_eq trim is_space replace_runs starts_with starts_with_ci
    trim_start span_digits number_from lookup_field has_key is_settled settle settle_all get_pending
    delete_pending fail_all flush_from flush_writes frame enqueue_frame send
    bounded_server_diagnostic is_json_rpc_id decode_error handle_response handle_server_request
    answer_server_request dispatch request expire interrupt notify header_end blank_to_line_end
    length_here length_digits with_length drain_frames handle_data handle_drain handle_event run
connections = tt

-- A response to the request with id 1.
abbrev response : Value
response =
    json_rpc
      (field (codes "id") (num (int (pos 1))) (field (codes "result") (str (codes "yes")) end))

-- Two requests at a time and ten bytes a message; the output is full after the first write.
abbrev peer : Peer
peer = record {
  max_message_bytes = 10;
  max_pending = 2;
  has_request_handler = false;
  encode = λ message. some (codes "{}");
  parse = λ bytes. some response;
  accepts = λ n. false;
}

abbrev ask : Event
ask = requested (codes "m") (str [])

abbrev some_events : List Event
some_events =
    ask
    ∷ ask
    ∷ ask
    ∷ received (take 9 (frame (codes "{}")))
    ∷ received (codes "ength: 2" ++ 13 ∷ 10 ∷ 13 ∷ 10 ∷ codes "{}")
    ∷ expired 2
    ∷ drained
    ∷ disposed
    ∷ []

run_tests :
    ((run peer some_events empty_connection).settled
      ≡ (1, failed (rpc_error timeout))
        ∷ (0, succeeded (str (codes "yes")))
        ∷ (2, failed (record { code = LspRpcErrorCode.pending_limit; server = none }))
        ∷ [])
    × (length_digits true (codes "a: b" ++ 13 ∷ 10 ∷ codes "CONTENT-LENGTH: 12 ")
        ≡ some (codes "12"))
    × (length_digits true (codes "Content-Length: 12x") ≡ none)
    × ((handle_data peer (codes "x" ++ 13 ∷ 10 ∷ 13 ∷ 10 ∷ []) empty_connection).close_cause
        ≡ some LspRpcErrorCode.invalid_frame)
    × (bounded_server_diagnostic (10 ∷ 32 ∷ codes "no" ++ 9 ∷ codes "way") ≡ codes "no way")
unfolding connections
run_tests = (refl, refl, refl, refl, refl)

three : 3 < length (frame (codes "{}"))
unfolding connections
three = omega arith

handle_data-stream_example :
    handle_data peer
      (stream (codes "{}" ∷ codes "[]" ∷ []) (take 3 (frame (codes "{}"))))
      empty_connection
    ≡ deliver_all peer
        (codes "{}" ∷ codes "[]" ∷ [])
        (take 3 (frame (codes "{}")))
        (record empty_connection {
          buffer = stream (codes "{}" ∷ codes "[]" ∷ []) (take 3 (frame (codes "{}")));
        })
handle_data-stream_example =
    handle_data-stream peer (codes "{}" ∷ codes "[]" ∷ []) (take 3 (frame (codes "{}")))
      (stream (codes "{}" ∷ codes "[]" ∷ []) (take 3 (frame (codes "{}")))) empty_connection refl
      refl ((omega arith, omega arith), ((omega arith, omega arith), tt))
      (cut 3 (codes "{}") (omega arith, omega arith) three refl)

run-IsQueued_example : IsQueued (run peer some_events empty_connection)
run-IsQueued_example = run-IsQueued peer some_events

run-Account_example : Account peer (run peer some_events empty_connection)
run-Account_example = run-Account peer some_events
