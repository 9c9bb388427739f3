-- ===== src/Rpc/Sent.antt =====
-- What a message that is sent does to the requests: nothing, unless the connection fails.
use dotconfig.Base.{
  ◌+◌, ◌≡◌, refl, sym, subst, ◌∙◌, inl, inr, Bool, ◌||◌, Option, none, some, List, [], ◌∷◌, length,
  ltb, if_true, if_false, Bool-cases, Value,
}
use dotconfig.Rpc.{
  Bytes, max_outbound_queue_bytes, LspRpcErrorCode, write_failed, rpc_error, Connection, Peer,
  settle_all, fail_all, flush_from, flush_writes, frame, enqueue_frame, send_body, send,
}

-- The requests are the same, or all that were pending are settled with one error and it is over.
pub data Sent (c d : Connection) : Type 0 where
  same :
      d.pending ≡ c.pending
      → d.settled ≡ c.settled
      → d.calls ≡ c.calls
      → d.next_id ≡ c.next_id
      → d.is_closed ≡ c.is_closed
      → Sent c d
  over :
      (code : LspRpcErrorCode)
      → d.pending ≡ []
      → d.settled ≡ settle_all (rpc_error code) c.pending c.settled
      → d.calls ≡ c.calls
      → d.next_id ≡ c.next_id
      → Sent c d

pub Sent-calls : {c d : Connection} → Sent c d → d.calls ≡ c.calls
Sent-calls (same p s n i z) = n
Sent-calls (over code p s n i) = n

pub fail_all-Sent : (code : LspRpcErrorCode) (c : Connection) → Sent c (fail_all code c)
unfolding fail_all
fail_all-Sent code c = elim (Bool-cases c.is_closed) [
  | inl closed ↦ subst (Sent c) (sym (if_true _ c.is_closed closed)) (same refl refl refl refl refl)
  | inr live ↦ subst (Sent c) (sym (if_false _ c.is_closed live)) (over code refl refl refl refl)
]

-- A change of the queue alone comes before.
Sent-same :
    {c d e : Connection}
    → d.pending ≡ c.pending
    → d.settled ≡ c.settled
    → d.calls ≡ c.calls
    → d.next_id ≡ c.next_id
    → d.is_closed ≡ c.is_closed
    → Sent d e
    → Sent c e
Sent-same p s n i z (same p' s' n' i' z') = same (p' ∙ p) (s' ∙ s) (n' ∙ n) (i' ∙ i) (z' ∙ z)
Sent-same p s n i z (over code p' s' n' i') = over code p' (s' ∙ rw (p, s) refl) (n' ∙ n) (i' ∙ i)

module _ (P : Peer) where
  flush_from-Sent : (frames : List Bytes) (c : Connection) → Sent c (flush_from P frames c)
  unfolding flush_from
  flush_from-Sent [] c = same refl refl refl refl refl
  flush_from-Sent (framed ∷ rest) c = elim (Bool-cases (P.accepts (length c.written))) [
    | inl free ↦
        subst (Sent c) (sym (if_true _ (P.accepts (length c.written)) free))
          (Sent-same refl refl refl refl refl (flush_from-Sent rest _))
    | inr full ↦
        subst (Sent c) (sym (if_false _ (P.accepts (length c.written)) full))
          (same refl refl refl refl refl)
  ]

  pub flush_writes-Sent : (c : Connection) → Sent c (flush_writes P c)
  unfolding flush_writes
  flush_writes-Sent c = elim (Bool-cases (c.is_closed || c.waiting_for_drain)) [
    | inl idle ↦ rw idle (same refl refl refl refl refl)
    | inr busy ↦ rw busy (flush_from-Sent c.outbound c)
  ]

  enqueue_frame-Sent : (framed : Bytes) (c : Connection) → Sent c (enqueue_frame P framed c).0
  unfolding enqueue_frame
  enqueue_frame-Sent framed c =
      elim (Bool-cases (ltb max_outbound_queue_bytes (c.outbound_bytes + length framed))) [
        | inl long ↦ rw long (fail_all-Sent write_failed c)
        | inr fits ↦ rw fits (Sent-same refl refl refl refl refl (flush_writes-Sent _))
      ]

  send_body-Sent : (body : Option Bytes) (c : Connection) → Sent c (send_body P body c).0
  send_body-Sent none c = fail_all-Sent write_failed c
  send_body-Sent (some body) c = elim (Bool-cases (ltb P.max_message_bytes (length body))) [
    | inl long ↦ rw long (same refl refl refl refl refl)
    | inr fits ↦ rw fits (enqueue_frame-Sent (frame body) c)
  ]

  pub send-Sent : (message : Value) (c : Connection) → Sent c (send P message c).0
  unfolding send
  send-Sent message c = elim (Bool-cases c.is_closed) [
    | inl closed ↦
        subst (λ (r : Connection × Bool). Sent c r.0) (sym (if_true _ c.is_closed closed))
          (same refl refl refl refl refl)
    | inr live ↦
        subst (λ (r : Connection × Bool). Sent c r.0) (sym (if_false _ c.is_closed live))
          (send_body-Sent (P.encode message) c)
  ]
