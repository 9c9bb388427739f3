-- ===== src/Rpc/Queue.antt =====
-- The outbound queue of a connection: its bytes are counted, bounded, and wait only for the output.
use dotconfig.Base.{
  ℕ, ◌+◌, ◌-◌, ◌≤◌, ◌≡◌, refl, sym, subst, ap, ◌∙◌, inl, inr, Bool, true, false, ◌||◌, Option, none,
  some, List, [], ◌∷◌, ◌++◌, arith, length, leb, ltb, if_true, if_false, Bool-cases, Text, Value,
}
use dotconfig.Rpc.{
  Bytes, max_outbound_queue_bytes, LspRpcErrorCode, write_failed, Settlement, PendingRequest,
  Connection, Peer, fail_all, flush_from, flush_writes, frame, enqueue_frame, send_body, send,
}
use dotconfig.Rpc.Messages.{
  request_message, cancel_message, new_request, listed, after_send, open_request, request,
  cancel_request,
}
use dotconfig.Rpc.Stable.{IsStable}

abbrev pub total_bytes : List Bytes → ℕ
total_bytes [] = 0
total_bytes (framed ∷ frames) = length framed + total_bytes frames

-- `outboundBytes` is the size of the queue, which is bounded, and is empty while the output takes bytes.
-- A connection that has ended holds nothing.
pub record IsQueued (c : Connection) : Type 0 where
  pub measured : c.outbound_bytes ≡ total_bytes c.outbound
  pub bounded : c.outbound_bytes ≤ max_outbound_queue_bytes
  pub flushed : c.waiting_for_drain ≡ false → c.outbound ≡ []
  pub ended :
      c.is_closed ≡ true → (c.outbound ≡ []) × (c.buffer ≡ []) × (c.waiting_for_drain ≡ false)

total_bytes-append : (xs ys : List Bytes) → total_bytes (xs ++ ys) ≡ total_bytes xs + total_bytes ys
total_bytes-append [] ys = omega arith
total_bytes-append (x ∷ xs) ys = omega (arith, total_bytes-append xs ys)

pub fail_all-IsQueued :
    (code : LspRpcErrorCode) (c : Connection) → IsQueued c → IsQueued (fail_all code c)
unfolding fail_all
fail_all-IsQueued code c q = elim (Bool-cases c.is_closed) [
  | inl over ↦ subst IsQueued (sym (if_true _ c.is_closed over)) q
  | inr live ↦ subst IsQueued (sym (if_false _ c.is_closed live)) (record {
    measured = refl;
    bounded = omega arith;
    flushed = λ e. refl;
    ended = λ e. (refl, refl, refl);
  })
]

module _ (P : Peer) where
  -- What the loop needs: the frames that it has left are the ones that are counted.
  flush_from-IsQueued :
      (frames : List Bytes) (c : Connection)
      → c.outbound_bytes ≡ total_bytes frames
      → c.outbound_bytes ≤ max_outbound_queue_bytes
      → c.is_closed ≡ false
      → IsQueued (flush_from P frames c)
  unfolding flush_from
  flush_from-IsQueued [] c m b live = record {
    measured = m;
    bounded = b;
    flushed = λ e. refl;
    ended = λ over. cc;
  }
  flush_from-IsQueued (framed ∷ rest) c m b live =
      let left : c.outbound_bytes - length framed ≡ total_bytes rest = omega arith in
      elim (Bool-cases (P.accepts (length c.written))) [
        | inl free ↦
            subst IsQueued (sym (if_true _ (P.accepts (length c.written)) free))
              (flush_from-IsQueued rest _ left (omega arith) live)
        | inr full ↦ subst IsQueued (sym (if_false _ (P.accepts (length c.written)) full)) (record {
          measured = left;
          bounded = omega arith;
          flushed = λ e. cc;
          ended = λ over. cc;
        })
      ]

  pub flush_writes-IsQueued :
      (c : Connection)
      → c.outbound_bytes ≡ total_bytes c.outbound
      → c.outbound_bytes ≤ max_outbound_queue_bytes
      → c.is_closed ≡ false
      → IsQueued (flush_writes P c)
  unfolding flush_writes
  flush_writes-IsQueued c m b live = elim (Bool-cases c.waiting_for_drain) [
    | inl full ↦
        let stop : (c.is_closed || c.waiting_for_drain) ≡ true = ground arith in
        subst IsQueued (sym (if_true _ _ stop))
          (record { measured = m; bounded = b; flushed = λ e. cc; ended = λ over. cc })
    | inr free ↦
        let go : (c.is_closed || c.waiting_for_drain) ≡ false = ground arith in
        subst IsQueued (sym (if_false _ _ go)) (flush_from-IsQueued c.outbound c m b live)
  ]

  enqueue_frame-IsQueued :
      (framed : Bytes) (c : Connection)
      → c.is_closed ≡ false
      → IsQueued c
      → IsQueued (enqueue_frame P framed c).0
  unfolding enqueue_frame
  enqueue_frame-IsQueued framed c live q =
      elim (Bool-cases (ltb max_outbound_queue_bytes (c.outbound_bytes + length framed))) [
        | inl long ↦ rw long (fail_all-IsQueued write_failed c q)
        | inr fits ↦ rw fits (
            flush_writes-IsQueued _
              (omega (arith, total_bytes-append c.outbound (framed ∷ []), q.measured))
              (ground arith) live)
      ]

  send_body-IsQueued :
      (body : Option Bytes) (c : Connection)
      → c.is_closed ≡ false
      → IsQueued c
      → IsQueued (send_body P body c).0
  send_body-IsQueued none c live q = fail_all-IsQueued write_failed c q
  send_body-IsQueued (some body) c live q =
      elim (Bool-cases (ltb P.max_message_bytes (length body))) [
        | inl long ↦ rw long q
        | inr fits ↦ rw fits (enqueue_frame-IsQueued (frame body) c live q)
      ]

  pub send-IsQueued :
      (message : Value) (c : Connection) → IsQueued c → IsQueued (send P message c).0
  unfolding send
  send-IsQueued message c q = elim (Bool-cases c.is_closed) [
    | inl over ↦
        subst (λ (r : Connection × Bool). IsQueued r.0) (sym (if_true _ c.is_closed over)) q
    | inr live ↦
        subst (λ (r : Connection × Bool). IsQueued r.0) (sym (if_false _ c.is_closed live))
          (send_body-IsQueued (P.encode message) c live q)
  ]

  -- The queue does not look at the other fields.
  with_others :
      {c : Connection} (d : Connection)
      → d.outbound ≡ c.outbound
      → d.outbound_bytes ≡ c.outbound_bytes
      → d.waiting_for_drain ≡ c.waiting_for_drain
      → d.is_closed ≡ c.is_closed
      → d.buffer ≡ c.buffer
      → IsQueued c
      → IsQueued d
  with_others d o n w z b q = record {
    measured = n ∙ q.measured ∙ ap total_bytes (sym o);
    bounded = omega (arith, n, q.bounded);
    flushed = λ e. o ∙ q.flushed (sym w ∙ e);
    ended = λ over. let (x, y, v) = q.ended (sym z ∙ over) in (o ∙ x, b ∙ y, w ∙ v);
  }

  pub IsQueued-IsStable : IsStable P IsQueued
  IsQueued-IsStable = record {
    fails = fail_all-IsQueued;
    sends = send-IsQueued;
    logs = λ notified asked c q. with_others _ refl refl refl refl refl q;
    reads = λ buffer c live q. record {
      measured = q.measured;
      bounded = q.bounded;
      flushed = q.flushed;
      ended = λ over. cc;
    };
    completes = λ id request outcome c e q. with_others _ refl refl refl refl refl q;
  }

  after_send-IsQueued :
      (entry : PendingRequest) (c : Connection) (sent : Bool)
      → IsQueued c
      → IsQueued (after_send entry c sent)
  after_send-IsQueued entry c true q = q
  after_send-IsQueued entry c false q = with_others _ refl refl refl refl refl q

  open_request-IsQueued :
      (method : Text) (params : Value) (c : Connection)
      → IsQueued c
      → IsQueued (open_request P method params c)
  open_request-IsQueued method params c q =
      let entry = new_request method c in
      let sent = send P (request_message c.next_id method params) (listed entry c) in
      after_send-IsQueued entry sent.0 sent.1 (
        send-IsQueued (request_message c.next_id method params) (listed entry c)
          (with_others _ refl refl refl refl refl q))

  pub request-IsQueued :
      (method : Text) (params : Value) (c : Connection)
      → IsQueued c
      → IsQueued (request P method params c)
  unfolding request
  request-IsQueued method params c q = elim (Bool-cases c.is_closed) [
    | inl over ↦
        subst IsQueued (sym (if_true _ c.is_closed over)) (with_others _ refl refl refl refl refl q)
    | inr live ↦
        subst IsQueued (sym (if_false _ c.is_closed live))
          (elim (Bool-cases (leb P.max_pending (length c.pending))) [
            | inl full ↦ rw full (with_others _ refl refl refl refl refl q)
            | inr free ↦ rw free (open_request-IsQueued method params c q)
          ])
  ]

  pub cancel_request-IsQueued :
      (outcome : Settlement) (entry : Option PendingRequest) (c : Connection)
      → IsQueued c
      → IsQueued (cancel_request P outcome entry c)
  cancel_request-IsQueued outcome none c q = q
  cancel_request-IsQueued outcome (some entry) c q =
      with_others _ refl refl refl refl refl
        (send-IsQueued (cancel_message entry.id) _ (with_others _ refl refl refl refl refl q))
