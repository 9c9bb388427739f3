-- ===== src/Rpc/Account.antt =====
-- Every request of a connection is pending or settled, and not both.
use dotconfig.Base.{
  ℕ, suc, ◌<◌, ◌≡◌, refl, sym, subst, ap, ◌∙◌, inl, inr, Bool, true, false, ◌||◌, some, [], arith,
  length, leb, ◌==◌, ==_iff, if_true, if_false, Bool-cases, Option-cases, Text, Value,
}
use dotconfig.Rpc.{
  LspRpcErrorCode, closed, pending_limit, write_failed, rpc_error, Settlement, failed,
  PendingRequest, Connection, Peer, is_settled, settle, get_pending, delete_pending, send,
}
use dotconfig.Rpc.Messages.{
  request_message, cancel_message, complete, new_request, listed, after_send, open_request, request,
  cancel_request,
}
use dotconfig.Rpc.Stable.{IsStable}
use dotconfig.Rpc.Pending.{
  has_call, is_settled-settle, is_settled-settle_all, get_pending-id, get_pending-snoc,
  has_call-delete_pending, or_assoc,
}
use dotconfig.Rpc.Ledger.{
  IsAccounted, IsAccounted-none, IsAccounted-delete, IsAccounted-refuse, IsAccounted-snoc,
}
use dotconfig.Rpc.Sent.{Sent, same, over, Sent-calls, fail_all-Sent, send-Sent}

module _ (P : Peer) where
  -- The account of a connection; one that has ended has no pending request.
  abbrev pub Account : Connection → Type 0
  Account c =
      IsAccounted P.max_pending c.pending (λ call. is_settled call c.settled) c.calls c.next_id
      × (c.is_closed ≡ true → c.pending ≡ [])

  pub Account-Sent : {c d : Connection} → Sent c d → Account c → Account d
  Account-Sent (same p s n i z) (a, e) = (rw (p, s, n, i) a, λ closed. p ∙ e (sym z ∙ closed))
  Account-Sent {c = c} {d = d} (over code p s n i) (a, e) = (
    rw (p, n, i)
        (IsAccounted-none (λ call. is_settled call d.settled) a
          (λ call. rw s (is_settled-settle_all call (rpc_error code) c.pending c.settled))),
    λ closed. p,
  )

  complete-Account :
      (id : ℕ) (e : PendingRequest) (outcome : Settlement) (c : Connection)
      → get_pending id c.pending ≡ some e
      → Account c
      → Account (complete e outcome c)
  unfolding delete_pending
  complete-Account id e outcome c g (a, z) =
      let i : e.id ≡ id = get_pending-id id c.pending g in
      (
        rw i (
            IsAccounted-delete id e (λ call. is_settled call (settle e.call outcome c.settled)) g a
              (λ call. is_settled-settle call e.call outcome c.settled)),
        λ closed. ap (delete_pending e.id) (z closed),
      )

  pub Account-IsStable : IsStable P Account
  Account-IsStable = record {
    fails = λ code c a. Account-Sent (fail_all-Sent code c) a;
    sends = λ message c a. Account-Sent (send-Sent P message c) a;
    logs = λ notified asked c a. a;
    reads = λ buffer c live a. a;
    completes = complete-Account;
  }

  refused-Account :
      (error : LspRpcErrorCode) (c : Connection)
      → Account c
      → Account (record c {
        calls = suc c.calls;
        settled = settle c.calls (failed (rpc_error error)) c.settled;
      })
  refused-Account error c (a, z) = (
    IsAccounted-refuse _ a
        (λ call. is_settled-settle call c.calls (failed (rpc_error error)) c.settled),
    z,
  )

  -- A request that could not be written is settled, also when it ended the connection.
  unsent-Account :
      (entry : PendingRequest) (b c : Connection)
      → Sent b c
      → get_pending entry.id b.pending ≡ some entry
      → entry.call < c.calls
      → Account c
      → Account (complete entry (failed (rpc_error write_failed)) c)
  unfolding delete_pending
  unsent-Account entry b c (same p s n i z) g k a =
      complete-Account entry.id entry (failed (rpc_error write_failed)) c
        (ap (get_pending entry.id) p ∙ g) a
  unsent-Account entry b c (over code p s n i) g k (a, z) =
      let gone : delete_pending entry.id c.pending ≡ [] = ap (delete_pending entry.id) p in
      (rw gone (IsAccounted-none _ a (λ call. settled_already call)), λ closed. gone)
    where
      settled_already :
          (call : ℕ)
          → is_settled call (settle entry.call (failed (rpc_error write_failed)) c.settled)
            ≡ (is_settled call c.settled || has_call call c.pending)
      settled_already call =
          let empty : has_call call c.pending ≡ false = ap (has_call call) p in
          is_settled-settle call entry.call (failed (rpc_error write_failed)) c.settled
          ∙ elim (Bool-cases (entry.call == call)) [
            | inl equal ↦
                let e = (==_iff entry.call call).0 equal in
                let known : is_settled call c.settled ≡ true =
                  ground (arith, empty, a.answered call (omega (arith, e, k))) in
                rw known refl
            | inr differs ↦ rw (differs, empty) refl
          ]

  after_send-Account :
      (entry : PendingRequest) (b c : Connection) (sent : Bool)
      → Sent b c
      → get_pending entry.id b.pending ≡ some entry
      → entry.call < b.calls
      → Account c
      → Account (after_send entry c sent)
  after_send-Account entry b c true how g k a = a
  after_send-Account entry b c false how g k a =
      unsent-Account entry b c how g (omega (arith, k, Sent-calls how)) a

  open_request-Account :
      (method : Text) (params : Value) (c : Connection)
      → c.is_closed ≡ false
      → length c.pending < P.max_pending
      → Account c
      → Account (open_request P method params c)
  open_request-Account method params c live few (a, z) =
      let entry = new_request method c in
      let message = request_message c.next_id method params in
      let sent = send P message (listed entry c) in
      let b : Account (listed entry c) = (IsAccounted-snoc entry refl refl few a, λ closed. cc) in
      let how = send-Sent P message (listed entry c) in
      after_send-Account entry (listed entry c) sent.0 sent.1 how
        (get_pending-snoc entry c.pending a.fresh) (omega arith) (Account-Sent how b)

  pub request-Account :
      (method : Text) (params : Value) (c : Connection)
      → Account c
      → Account (request P method params c)
  unfolding request
  request-Account method params c a = elim (Bool-cases c.is_closed) [
    | inl ended ↦ subst Account (sym (if_true _ c.is_closed ended)) (refused-Account closed c a)
    | inr live ↦
        subst Account (sym (if_false _ c.is_closed live))
          (elim (Bool-cases (leb P.max_pending (length c.pending))) [
            | inl full ↦
                subst Account (sym (if_true _ (leb P.max_pending (length c.pending)) full))
                  (refused-Account pending_limit c a)
            | inr free ↦
                subst Account (sym (if_false _ (leb P.max_pending (length c.pending)) free))
                  (open_request-Account method params c live (ground arith) a)
          ])
  ]

  -- The request is settled after the message that cancels it.
  cancelled-Account :
      (id : ℕ) (e : PendingRequest) (outcome : Settlement) (c d : Connection)
      → get_pending id c.pending ≡ some e
      → Sent (record c { pending = delete_pending e.id c.pending }) d
      → Account c
      → Account (record d { settled = settle e.call outcome d.settled })
  unfolding delete_pending
  cancelled-Account id e outcome c d g (same p s n i z) (a, w) =
      let q : d.pending ≡ delete_pending id c.pending = rw (get_pending-id id c.pending g) at p in
      (
        rw (q, n, i)
            (IsAccounted-delete id e (λ call. is_settled call (settle e.call outcome d.settled)) g a
              (λ call. is_settled-settle call e.call outcome d.settled ∙ rw s refl)),
        λ closed. p ∙ ap (delete_pending e.id) (w (sym z ∙ closed)),
      )
  cancelled-Account id e outcome c d g (over code p s n i) (a, w) = (
    rw (p, n, i)
        (IsAccounted-none (λ call. is_settled call (settle e.call outcome d.settled)) a
          (λ call. all_settled call)),
    λ closed. p,
  )
    where
      all_settled :
          (call : ℕ)
          → is_settled call (settle e.call outcome d.settled)
            ≡ (is_settled call c.settled || has_call call c.pending)
      all_settled call =
          let split = has_call-delete_pending id call c.pending g in
          is_settled-settle call e.call outcome d.settled
          ∙ rw s (
              rw (is_settled-settle_all, get_pending-id id c.pending g, split)
                (or_assoc (is_settled call c.settled) (has_call call (delete_pending id c.pending))
                  (e.call == call)))

  pub cancel_request-Account :
      (id : ℕ) (outcome : Settlement) (c : Connection)
      → Account c
      → Account (cancel_request P outcome (get_pending id c.pending) c)
  cancel_request-Account id outcome c a = elim (Option-cases (get_pending id c.pending)) [
    | inl absent ↦ rw absent a
    | inr (e, g) ↦ rw g (
        cancelled-Account id e outcome c _ g
          (send-Sent P (cancel_message e.id) (record c { pending = delete_pending e.id c.pending }))
          a)
  ]
