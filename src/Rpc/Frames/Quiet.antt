-- ===== src/Rpc/Frames/Quiet.antt =====
-- The buffer of a connection while a message is handled: it stays as it is until the connection ends.
use dotconfig.Base.{
  ◌+◌, ◌-◌, ◌≡◌, refl, ◌∙◌, inl, inr, true, ◌||◌, Option, none, some, List, [], ◌∷◌, ◌++◌, length,
  ltb, Bool-cases, Text, codes, text_eq, ℤ, Value, Fields, lookup_field, has_key, as_record,
  is_text, is_undefined,
}
use dotconfig.Rpc.{
  Bytes, max_outbound_queue_bytes, LspRpcErrorCode, invalid_message, write_failed, PendingRequest,
  Connection, Peer, fail_all, flush_from, flush_writes, frame, enqueue_frame, send_body, send,
}
use dotconfig.Rpc.Messages.{
  is_json_rpc_id, get_response, decode_error, fail_response, handle_response, response_to,
  dispatch_response, handle_server_request, dispatch_method, dispatch_by, dispatch_record, dispatch,
}

-- Either nothing about the input has changed, or the connection has ended.
pub data Quiet (c d : Connection) : Type 0 where
  kept : d.is_closed ≡ c.is_closed → d.buffer ≡ c.buffer → Quiet c d
  ended : d.is_closed ≡ true → d.buffer ≡ [] → Quiet c d

Quiet-trans : {c d e : Connection} → Quiet c d → Quiet d e → Quiet c e
Quiet-trans (kept p q) (kept r s) = kept (r ∙ p) (s ∙ q)
Quiet-trans (ended p q) (kept r s) = ended (r ∙ p) (s ∙ q)
Quiet-trans p (ended r s) = ended r s

pub fail_all-Quiet : (code : LspRpcErrorCode) (c : Connection) → Quiet c (fail_all code c)
unfolding fail_all
fail_all-Quiet code c = elim (Bool-cases (c.is_closed)) [
  | inl over ↦ rw over (kept refl refl)
  | inr live ↦ rw live (ended refl refl)
]

pub fail_all_closes : (code : LspRpcErrorCode) (c : Connection) → (fail_all code c).is_closed ≡ true
unfolding fail_all
fail_all_closes code c = elim (Bool-cases c.is_closed) [
  | inl over ↦ simp over refl
  | inr live ↦ simp live refl
]

module _ (P : Peer) where
  flush_from-Quiet : (frames : List Bytes) (c : Connection) → Quiet c (flush_from P frames c)
  unfolding flush_from
  flush_from-Quiet [] c = kept refl refl
  flush_from-Quiet (framed ∷ rest) c = elim (Bool-cases (P.accepts (length c.written))) [
    | inl free ↦
        let next = record c {
          outbound = rest;
          outbound_bytes = c.outbound_bytes - length framed;
          written = c.written ++ framed ∷ [];
        } in
        let first : Quiet c next = kept refl refl in
        rw free (Quiet-trans first (flush_from-Quiet rest next))
    | inr full ↦ rw full (kept refl refl)
  ]

  flush_writes-Quiet : (c : Connection) → Quiet c (flush_writes P c)
  unfolding flush_writes
  flush_writes-Quiet c = elim (Bool-cases (c.is_closed || c.waiting_for_drain)) [
    | inl idle ↦ rw idle (kept refl refl)
    | inr busy ↦ rw busy (flush_from-Quiet c.outbound c)
  ]

  enqueue_frame-Quiet : (framed : Bytes) (c : Connection) → Quiet c (enqueue_frame P framed c).0
  unfolding enqueue_frame
  enqueue_frame-Quiet framed c =
      elim (Bool-cases (ltb max_outbound_queue_bytes (c.outbound_bytes + length framed))) [
        | inl long ↦ rw long (fail_all-Quiet write_failed c)
        | inr fits ↦
            let next = record c {
              outbound = c.outbound ++ framed ∷ [];
              outbound_bytes = c.outbound_bytes + length framed;
            } in
            let first : Quiet c next = kept refl refl in
            rw fits (Quiet-trans first (flush_writes-Quiet next))
      ]

  send_body-Quiet : (body : Option Bytes) (c : Connection) → Quiet c (send_body P body c).0
  send_body-Quiet none c = fail_all-Quiet write_failed c
  send_body-Quiet (some body) c = elim (Bool-cases (ltb P.max_message_bytes (length body))) [
    | inl long ↦ rw long (kept refl refl)
    | inr fits ↦ rw fits (enqueue_frame-Quiet (frame body) c)
  ]

  send-Quiet : (message : Value) (c : Connection) → Quiet c (send P message c).0
  unfolding send
  send-Quiet message c = elim (Bool-cases c.is_closed) [
    | inl over ↦ rw over (kept refl refl)
    | inr live ↦ simp live (send_body-Quiet (P.encode message) c)
  ]

  handle_response-Quiet :
      (fields : Fields) (request : PendingRequest) (c : Connection)
      → Quiet c (handle_response fields request c)
  unfolding handle_response
  handle_response-Quiet fields request c = elim (Bool-cases (has_key (codes "result") fields)) [
    | inl result ↦ elim (Bool-cases (has_key (codes "error") fields)) [
      | inl both ↦ rw (result, both) (fail_all-Quiet invalid_message c)
      | inr one ↦ rw (result, one) (kept refl refl)
    ]
    | inr without ↦ elim (Bool-cases (has_key (codes "error") fields)) [
      | inl error ↦
          rw (without, error)
            (reported_or_failed (decode_error (as_record (lookup_field (codes "error") fields))))
      | inr neither ↦ rw (without, neither) (fail_all-Quiet invalid_message c)
    ]
  ]
    where
      reported_or_failed : (error : Option (ℤ × Text)) → Quiet c (fail_response request error c)
      reported_or_failed none = fail_all-Quiet invalid_message c
      reported_or_failed (some (code, text)) = kept refl refl

  dispatch_response-Quiet :
      (fields : Fields) (id : Option ℤ) (c : Connection) → Quiet c (dispatch_response fields id c)
  dispatch_response-Quiet fields none c = fail_all-Quiet invalid_message c
  dispatch_response-Quiet fields (some id) c = answer (get_response id c.pending)
    where
      answer : (request : Option PendingRequest) → Quiet c (response_to fields request c)
      answer none = kept refl refl
      answer (some request) = handle_response-Quiet fields request c

  handle_server_request-Quiet :
      (id : Value) (method : Text) (params : Value) (c : Connection)
      → Quiet c (handle_server_request P id method params c)
  unfolding handle_server_request
  handle_server_request-Quiet id method params c =
      elim (Bool-cases (text_eq method (codes "workspace/applyEdit"))) [
        | inl edit ↦ rw edit (send-Quiet _ c)
        | inr other ↦ elim (Bool-cases (text_eq method (codes "workspace/configuration"))) [
          | inl configuration ↦ rw (other, configuration) (send-Quiet _ c)
          | inr another ↦ elim (Bool-cases P.has_request_handler) [
            | inl handler ↦ rw (other, another, handler) (kept refl refl)
            | inr none' ↦ rw (other, another, none') (send-Quiet _ c)
          ]
        ]
      ]

  dispatch_method-Quiet :
      (fields : Fields) (method : Text) (c : Connection)
      → Quiet c (dispatch_method P fields method c)
  dispatch_method-Quiet fields method c =
      let id = lookup_field (codes "id") fields in
      elim (Bool-cases (is_json_rpc_id id)) [
        | inl request ↦ rw request (handle_server_request-Quiet id method _ c)
        | inr other ↦ elim (Bool-cases (is_undefined id)) [
          | inl notification ↦ rw (other, notification) (kept refl refl)
          | inr invalid ↦ rw (other, invalid) (fail_all-Quiet invalid_message c)
        ]
      ]

  dispatch_by-Quiet :
      (fields : Fields) (method : Option Text) (c : Connection)
      → Quiet c (dispatch_by P fields method c)
  dispatch_by-Quiet fields none c = dispatch_response-Quiet fields _ c
  dispatch_by-Quiet fields (some method) c = dispatch_method-Quiet fields method c

  dispatch_record-Quiet :
      (fields : Option Fields) (c : Connection) → Quiet c (dispatch_record P fields c)
  dispatch_record-Quiet none c = fail_all-Quiet invalid_message c
  dispatch_record-Quiet (some fields) c =
      elim (Bool-cases (is_text (lookup_field (codes "jsonrpc") fields) (codes "2.0"))) [
        | inl rpc ↦ rw rpc (dispatch_by-Quiet fields _ c)
        | inr other ↦ rw other (fail_all-Quiet invalid_message c)
      ]

  pub dispatch-Quiet : (message : Value) (c : Connection) → Quiet c (dispatch P message c)
  unfolding dispatch
  dispatch-Quiet message c = dispatch_record-Quiet (as_record message) c
