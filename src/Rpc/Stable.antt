-- ===== src/Rpc/Stable.antt =====
-- A property of connections that holds through the steps that handling a message is made of holds
-- through #dispatch, #drainFrames and #handleData.
use dotconfig.Base.{
  ℕ, zero, suc, ◌+◌, ◌≡◌, sym, subst, if_true, if_false, inl, inr, false, Option, none, some, List,
  ◌++◌, length, leb, ltb, Bool-cases, Option-cases, Text, codes, text_eq, ℤ, pos, negsuc, Value,
  Fields, lookup_field, has_key, as_record, is_text, is_undefined, max_safe_integer, number_from,
}
use dotconfig.Rpc.{
  Bytes, max_header_bytes, LspRpcErrorCode, invalid_message, invalid_frame, message_too_large,
  Settlement, PendingRequest, Connection, Peer, get_pending, fail_all, send,
}
use dotconfig.Rpc.Messages.{
  is_json_rpc_id, complete, reported, fail_response, handle_response, dispatch_response,
  handle_server_request, dispatch_method, dispatch_by, dispatch_record, dispatch,
}
use dotconfig.Rpc.Frames.{
  header_end, with_message, with_length, with_digits, with_header, drain_frames, handle_data,
}

pub record IsStable (P : Peer) (Q : Connection → Type 0) : Type 0 where
  pub fails : (code : LspRpcErrorCode) (c : Connection) → Q c → Q (fail_all code c)
  pub sends : (message : Value) (c : Connection) → Q c → Q (send P message c).0
  pub logs :
      (notified : List (Text × Value)) (asked : List (Value × Text × Value)) (c : Connection)
      → Q c
      → Q (record c { notified = notified; asked = asked })
  pub reads :
      (buffer : Bytes) (c : Connection)
      → c.is_closed ≡ false
      → Q c
      → Q (record c { buffer = buffer })
  pub completes :
      (id : ℕ) (request : PendingRequest) (outcome : Settlement) (c : Connection)
      → get_pending id c.pending ≡ some request
      → Q c
      → Q (complete request outcome c)

module _ (P : Peer) (Q : Connection → Type 0) (S : IsStable P Q) where
  fail_response-stable :
      (id : ℕ) (request : PendingRequest) (error : Option (ℤ × Text)) (c : Connection)
      → get_pending id c.pending ≡ some request
      → Q c
      → Q (fail_response request error c)
  fail_response-stable id request none c e q = S.fails invalid_message c q
  fail_response-stable id request (some error) c e q = S.completes id request (reported error) c e q

  handle_response-stable :
      (fields : Fields) (id : ℕ) (request : PendingRequest) (c : Connection)
      → get_pending id c.pending ≡ some request
      → Q c
      → Q (handle_response fields request c)
  unfolding handle_response
  handle_response-stable fields id request c e q =
      elim (Bool-cases (has_key (codes "result") fields)) [
        | inl result ↦ elim (Bool-cases (has_key (codes "error") fields)) [
          | inl both ↦ rw (result, both) (S.fails invalid_message c q)
          | inr one ↦ rw (result, one) (S.completes id request _ c e q)
        ]
        | inr without ↦ elim (Bool-cases (has_key (codes "error") fields)) [
          | inl error ↦ rw (without, error) (fail_response-stable id request _ c e q)
          | inr neither ↦ rw (without, neither) (S.fails invalid_message c q)
        ]
      ]

  dispatch_response-stable :
      (fields : Fields) (id : Option ℤ) (c : Connection) → Q c → Q (dispatch_response fields id c)
  dispatch_response-stable fields none c q = S.fails invalid_message c q
  dispatch_response-stable fields (some (negsuc n)) c q = q
  dispatch_response-stable fields (some (pos id)) c q =
      elim (Option-cases (get_pending id c.pending)) [
        | inl absent ↦ rw absent q
        | inr (request, e) ↦ rw e (handle_response-stable fields id request c e q)
      ]

  handle_server_request-stable :
      (id : Value) (method : Text) (params : Value) (c : Connection)
      → Q c
      → Q (handle_server_request P id method params c)
  unfolding handle_server_request
  handle_server_request-stable id method params c q =
      elim (Bool-cases (text_eq method (codes "workspace/applyEdit"))) [
        | inl edit ↦ rw edit (S.sends _ c q)
        | inr other ↦ elim (Bool-cases (text_eq method (codes "workspace/configuration"))) [
          | inl configuration ↦ rw (other, configuration) (S.sends _ c q)
          | inr another ↦ elim (Bool-cases P.has_request_handler) [
            | inl handler ↦ rw (other, another, handler) (S.logs _ _ c q)
            | inr without ↦ rw (other, another, without) (S.sends _ c q)
          ]
        ]
      ]

  dispatch_method-stable :
      (fields : Fields) (method : Text) (c : Connection)
      → Q c
      → Q (dispatch_method P fields method c)
  dispatch_method-stable fields method c q =
      let id = lookup_field (codes "id") fields in
      elim (Bool-cases (is_json_rpc_id id)) [
        | inl request ↦ rw request (handle_server_request-stable id method _ c q)
        | inr other ↦ elim (Bool-cases (is_undefined id)) [
          | inl notification ↦ rw (other, notification) (S.logs _ _ c q)
          | inr invalid ↦ rw (other, invalid) (S.fails invalid_message c q)
        ]
      ]

  dispatch_by-stable :
      (fields : Fields) (method : Option Text) (c : Connection)
      → Q c
      → Q (dispatch_by P fields method c)
  dispatch_by-stable fields none c q = dispatch_response-stable fields _ c q
  dispatch_by-stable fields (some method) c q = dispatch_method-stable fields method c q

  dispatch_record-stable :
      (fields : Option Fields) (c : Connection) → Q c → Q (dispatch_record P fields c)
  dispatch_record-stable none c q = S.fails invalid_message c q
  dispatch_record-stable (some fields) c q =
      elim (Bool-cases (is_text (lookup_field (codes "jsonrpc") fields) (codes "2.0"))) [
        | inl rpc ↦ rw rpc (dispatch_by-stable fields _ c q)
        | inr other ↦ rw other (S.fails invalid_message c q)
      ]

  pub dispatch-stable : (message : Value) (c : Connection) → Q c → Q (dispatch P message c)
  unfolding dispatch
  dispatch-stable message c q = dispatch_record-stable (as_record message) c q

  abbrev Through : (Connection → Connection) → Type 0
  Through next = (c : Connection) → Q c → Q (next c)

  with_message-stable :
      (next : Connection → Connection) (message : Option Value)
      → Through next
      → Through (with_message P next message)
  with_message-stable next none t c q = S.fails invalid_message c q
  with_message-stable next (some message) t c q =
      t (dispatch P message c) (dispatch-stable message c q)

  with_length-stable :
      (next : Connection → Connection) (start size : ℕ) (c : Connection)
      → Through next
      → c.is_closed ≡ false
      → Q c
      → Q (with_length P next start size c)
  unfolding with_length
  with_length-stable next start size c t live q = elim (Bool-cases (leb size max_safe_integer)) [
    | inr unsafe ↦ rw unsafe (S.fails invalid_frame c q)
    | inl safe ↦ elim (Bool-cases (ltb P.max_message_bytes size)) [
      | inl large ↦ rw (safe, large) (S.fails message_too_large c q)
      | inr fits ↦ elim (Bool-cases (ltb (length c.buffer) (start + size))) [
        | inl half ↦ rw (safe, fits, half) q
        | inr whole ↦ rw (safe, fits, whole) (with_message-stable next _ t _ (S.reads _ c live q))
      ]
    ]
  ]

  with_digits-stable :
      (next : Connection → Connection) (start : ℕ) (digits : Option Text) (c : Connection)
      → Through next
      → c.is_closed ≡ false
      → Q c
      → Q (with_digits P next start digits c)
  with_digits-stable next start none c t live q = S.fails invalid_frame c q
  with_digits-stable next start (some digits) c t live q =
      with_length-stable next start (number_from 0 digits) c t live q

  with_header-stable :
      (next : Connection → Connection) (size : Option ℕ) (c : Connection)
      → Through next
      → c.is_closed ≡ false
      → Q c
      → Q (with_header P next size c)
  with_header-stable next none c t live q =
      elim (Bool-cases (ltb max_header_bytes (length c.buffer))) [
        | inl long ↦ rw long (S.fails invalid_frame c q)
        | inr short ↦ rw short q
      ]
  with_header-stable next (some size) c t live q = elim (Bool-cases (ltb max_header_bytes size)) [
    | inl long ↦ rw long (S.fails invalid_frame c q)
    | inr short ↦ rw short (with_digits-stable next (size + 4) _ c t live q)
  ]

  drain_frames-stable : (fuel : ℕ) → Through (drain_frames P fuel)
  unfolding drain_frames
  drain_frames-stable zero c q = q
  drain_frames-stable (suc fuel) c q = elim (Bool-cases c.is_closed) [
    | inl over ↦ subst Q (sym (if_true _ c.is_closed over)) q
    | inr live ↦ subst Q (sym (if_false _ c.is_closed live)) (
        with_header-stable (drain_frames P fuel) (header_end c.buffer) c (drain_frames-stable fuel)
          live q)
  ]

  pub handle_data-stable : (chunk : Bytes) → Through (handle_data P chunk)
  unfolding handle_data
  handle_data-stable chunk c q = elim (Bool-cases c.is_closed) [
    | inl over ↦ subst Q (sym (if_true _ c.is_closed over)) q
    | inr live ↦ subst Q (sym (if_false _ c.is_closed live)) (
        drain_frames-stable (suc (length (c.buffer ++ chunk))) _
          (S.reads (c.buffer ++ chunk) c live q))
  ]
