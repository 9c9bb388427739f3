-- ===== src/Rpc/Messages.antt =====
-- #dispatch, #handleServerRequest, request, notify and the timer and the cleanup of a request.
use dotconfig.Base.{
  ℕ, suc, Bool, true, false, not, ◌&&◌, ◌||◌, Option, none, some, is_some, List, [], ◌∷◌, ◌++◌,
  length, take, any, leb, ◌==◌, Text, codes, text_eq, trim, is_space, replace_runs, lookup_field,
  has_key, ℤ, pos, negsuc, Value, Fields, str, bool, num, int, obj, arr, nil, field, end, as_record,
  as_text, as_safe_integer, is_text, is_undefined, Result, ok, err, if◌then◌else◌,
}
use dotconfig.Rpc.{
  LspRpcErrorCode, closed, invalid_message, pending_limit, timeout, server_error, write_failed,
  rpc_error, Settlement, succeeded, failed, interrupted, PendingRequest, Connection, Peer, settle,
  get_pending, delete_pending, fail_all, send,
}

-- `/[\u0000-\u001f\u007f]/`
abbrev pub is_control : ℕ → Bool
is_control unit = leb unit 31 || unit == 127

abbrev pub diagnostic_or_default : Text → Text
diagnostic_or_default [] = codes "Language server rejected the request without a diagnostic"
diagnostic_or_default (unit ∷ text) = unit ∷ text

unfoldable pub bounded_server_diagnostic : Text → Text
unfolding trim is_space replace_runs
bounded_server_diagnostic value =
    diagnostic_or_default
      (take 500 (trim (replace_runs is_space false (replace_runs is_control false value))))

unfoldable pub is_json_rpc_id : Value → Bool
is_json_rpc_id (str id) = leb 1 (length id) && leb (length id) 128 && not (any is_control id)
is_json_rpc_id id = is_some (as_safe_integer id)

-- `{ jsonrpc: "2.0", …fields }`
abbrev pub json_rpc : Fields → Value
json_rpc fields = obj (field (codes "jsonrpc") (str (codes "2.0")) fields)

abbrev pub request_message : ℕ → Text → Value → Value
request_message id method params = json_rpc (
    field (codes "id") (num (int (pos id)))
      (field (codes "method") (str method) (field (codes "params") params end)))

abbrev pub notification_message : Text → Value → Value
notification_message method params =
    json_rpc (field (codes "method") (str method) (field (codes "params") params end))

abbrev pub cancel_message : ℕ → Value
cancel_message id =
    notification_message (codes "$/cancelRequest")
      (obj (field (codes "id") (num (int (pos id))) end))

abbrev pub result_message : Value → Value → Value
result_message id result = json_rpc (field (codes "id") id (field (codes "result") result end))

abbrev pub error_message : Value → ℤ → Text → Value
error_message id code text = json_rpc (
    field (codes "id") id (
      field (codes "error")
        (obj (field (codes "code") (num (int code)) (field (codes "message") (str text) end))) end))

-- `pending.get(message.id)` for a safe integer.
abbrev pub get_response : ℤ → List PendingRequest → Option PendingRequest
get_response (pos id) requests = get_pending id requests
get_response (negsuc n) requests = none

-- The code and the message of a well-formed `message.error`.
abbrev pub error_parts : Option ℤ → Option Text → Option (ℤ × Text)
error_parts (some code) (some text) = some (code, text)
error_parts none text = none
error_parts (some code) none = none

unfoldable pub decode_error : Option Fields → Option (ℤ × Text)
unfolding lookup_field
decode_error none = none
decode_error (some fields) =
    error_parts (as_safe_integer (lookup_field (codes "code") fields))
      (as_text (lookup_field (codes "message") fields))

abbrev pub complete : PendingRequest → Settlement → Connection → Connection
complete request outcome c = record c {
  pending = delete_pending request.id c.pending;
  settled = settle request.call outcome c.settled;
}

abbrev pub reported : ℤ × Text → Settlement
reported (code, text) =
    failed (record { code = server_error; server = some (code, bounded_server_diagnostic text) })

abbrev pub fail_response : PendingRequest → Option (ℤ × Text) → Connection → Connection
fail_response request none c = fail_all invalid_message c
fail_response request (some error) c = complete request (reported error) c

-- A response to a request that is pending.
unfoldable pub handle_response : Fields → PendingRequest → Connection → Connection
unfolding has_key lookup_field fail_all settle delete_pending decode_error bounded_server_diagnostic
handle_response fields request c =
    if has_key (codes "result") fields
    then (if has_key (codes "error") fields
        then fail_all invalid_message c
        else complete request (succeeded (lookup_field (codes "result") fields)) c)
    else (if has_key (codes "error") fields
        then fail_response request (decode_error (as_record (lookup_field (codes "error") fields)))
            c
        else fail_all invalid_message c)

abbrev pub response_to : Fields → Option PendingRequest → Connection → Connection
response_to fields none c = c
response_to fields (some request) c = handle_response fields request c

abbrev pub dispatch_response : Fields → Option ℤ → Connection → Connection
dispatch_response fields none c = fail_all invalid_message c
dispatch_response fields (some id) c = response_to fields (get_response id c.pending) c

abbrev pub new_request : Text → Connection → PendingRequest
new_request method c = record { id = c.next_id; method = method; call = c.calls }

abbrev pub listed : PendingRequest → Connection → Connection
listed entry c = record c {
  calls = suc c.calls;
  next_id = suc c.next_id;
  pending = c.pending ++ entry ∷ [];
}

-- What follows the write of a request.
abbrev pub after_send : PendingRequest → Connection → Bool → Connection
after_send request c true = c
after_send request c false = complete request (failed (rpc_error write_failed)) c

module _ (P : Peer) where
  -- `#handleServerRequest` up to the call of `onRequest`, whose result comes later.
  unfoldable pub handle_server_request : Value → Text → Value → Connection → Connection
  unfolding send text_eq
  handle_server_request id method params c =
      if text_eq method (codes "workspace/applyEdit")
      then (send P
          (result_message id (
            obj (
              field (codes "applied") (bool false) (
                field (codes "failureReason")
                  (str (codes "LSP edits require a digest-bound tool preview")) end))))
          c).0
      else if text_eq method (codes "workspace/configuration")
      then (send P (result_message id (arr nil)) c).0
      else if P.has_request_handler
      then record c { asked = c.asked ++ (id, method, params) ∷ [] }
      else (send P
          (error_message id (negsuc 32600) (codes "Unsupported server request: " ++ method)) c).0

  -- `await this.#onRequest(method, params)` has ended.
  unfoldable pub answer_server_request : Value → Result Text Value → Connection → Connection
  unfolding send
  answer_server_request id (ok result) c = (send P (result_message id result) c).0
  answer_server_request id (err cause) c =
      (send P (error_message id (negsuc 32602) (take 500 cause)) c).0

  abbrev pub dispatch_method : Fields → Text → Connection → Connection
  dispatch_method fields method c =
      let id = lookup_field (codes "id") fields in
      let params = lookup_field (codes "params") fields in
      if is_json_rpc_id id
      then handle_server_request id method params c
      else if is_undefined id
      then record c { notified = c.notified ++ (method, params) ∷ [] }
      else fail_all invalid_message c

  abbrev pub dispatch_by : Fields → Option Text → Connection → Connection
  dispatch_by fields none c =
      dispatch_response fields (as_safe_integer (lookup_field (codes "id") fields)) c
  dispatch_by fields (some method) c = dispatch_method fields method c

  abbrev pub dispatch_record : Option Fields → Connection → Connection
  dispatch_record none c = fail_all invalid_message c
  dispatch_record (some fields) c =
      if is_text (lookup_field (codes "jsonrpc") fields) (codes "2.0")
      then dispatch_by fields (as_text (lookup_field (codes "method") fields)) c
      else fail_all invalid_message c

  unfoldable pub dispatch : Value → Connection → Connection
  unfolding fail_all handle_response get_pending handle_server_request is_json_rpc_id lookup_field
      text_eq
  dispatch message c = dispatch_record (as_record message) c

  -- A request that is admitted.
  abbrev pub open_request : Text → Value → Connection → Connection
  open_request method params c =
      let entry = new_request method c in
      let sent = send P (request_message c.next_id method params) (listed entry c) in
      after_send entry sent.0 sent.1

  unfoldable pub request : Text → Value → Connection → Connection
  unfolding send settle delete_pending
  request method params c =
      let call = c.calls in
      let made = record c { calls = suc call } in
      if c.is_closed
      then record made { settled = settle call (failed (rpc_error closed)) c.settled }
      else if leb P.max_pending (length c.pending)
      then record made { settled = settle call (failed (rpc_error pending_limit)) c.settled }
      else open_request method params c

  -- The request leaves the list and the server is told.
  abbrev pub cancel_request : Settlement → Option PendingRequest → Connection → Connection
  cancel_request outcome none c = c
  cancel_request outcome (some entry) c =
      let sent =
        (send P (cancel_message entry.id)
          (record c { pending = delete_pending entry.id c.pending })).0 in
      record sent { settled = settle entry.call outcome sent.settled }

  -- The timer of the request with this id fires.
  unfoldable pub expire : ℕ → Connection → Connection
  unfolding send settle get_pending delete_pending
  expire id c = cancel_request (failed (rpc_error timeout)) (get_pending id c.pending) c

  -- The caller of the request with this id is interrupted.
  unfoldable pub interrupt : ℕ → Connection → Connection
  unfolding send settle get_pending delete_pending
  interrupt id c = cancel_request interrupted (get_pending id c.pending) c

  unfoldable pub notify : Text → Value → Connection → Connection × Result LspRpcErrorCode (Unit {0})
  unfolding send
  notify method params c =
      if c.is_closed
      then (c, err closed)
      else let sent = send P (notification_message method params) c in
        (sent.0, if sent.1 then ok tt else err write_failed)
