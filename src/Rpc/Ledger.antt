-- ===== src/Rpc/Ledger.antt =====
-- The account of the requests of a connection, and what keeps it.
use dotconfig.Base.{
  ℕ, suc, ◌≤◌, ◌<◌, ◌≡◌, refl, inl, inr, Bool, true, false, ◌||◌, some, List, [], ◌∷◌, ◌++◌, arith,
  length, length-append, any-append, All, All-append, All-mono, ◌==◌, ==_iff, Bool-cases,
}
use dotconfig.Rpc.{PendingRequest, get_pending, delete_pending}
use dotconfig.Rpc.Pending.{
  has_call, Distinct, has_call-delete_pending, has_call-delete_pending_self,
  delete_pending-Distinct, All-delete_pending, length-delete_pending, Distinct-snoc,
}

-- `max` bounds the pending requests, `s` tells the settled ones, `calls` and `next` number the next ones:
-- every request made so far is pending or settled, and no pending one is settled.
pub record IsAccounted (max : ℕ) (ps : List PendingRequest) (s : ℕ → Bool) (calls next : ℕ)
    : Type 0 where
  pub few : length ps ≤ max
  pub fresh : All (λ request. request.id < next) ps
  pub distinct : Distinct ps
  pub known : (call : ℕ) → (s call || has_call call ps) ≡ true → call < calls
  pub answered : (call : ℕ) → call < calls → (s call || has_call call ps) ≡ true
  pub once : (call : ℕ) → has_call call ps ≡ true → s call ≡ false

module _ {max calls next : ℕ} {ps : List PendingRequest} {s : ℕ → Bool} where
  -- All pending requests are settled, and perhaps others that were already.
  pub IsAccounted-none :
      (t : ℕ → Bool)
      → IsAccounted max ps s calls next
      → ((call : ℕ) → t call ≡ (s call || has_call call ps))
      → IsAccounted max [] t calls next
  IsAccounted-none t a h = record {
    few = omega arith;
    fresh = tt;
    distinct = tt;
    known = λ call k. a.known call (ground (arith, h call));
    answered = λ call k. ground (arith, h call, a.answered call);
    once = λ call k. cc;
  }

  -- One pending request is settled.
  pub IsAccounted-delete :
      (id : ℕ) (e : PendingRequest) (t : ℕ → Bool)
      → get_pending id ps ≡ some e
      → IsAccounted max ps s calls next
      → ((call : ℕ) → t call ≡ (s call || e.call == call))
      → IsAccounted max (delete_pending id ps) t calls next
  IsAccounted-delete id e t g a h = record {
    few = omega (arith, length-delete_pending id ps, a.few);
    fresh = All-delete_pending id (λ request. request.id < next) ps a.fresh;
    distinct = delete_pending-Distinct id ps a.distinct;
    known = λ call k. a.known call (ground (arith, h call, has_call-delete_pending id call ps g));
    answered =
        λ call k. ground (arith, h call, has_call-delete_pending id call ps g, a.answered call);
    once = λ call k.
        let unequal : (e.call == call) ≡ false = elim (Bool-cases (e.call == call)) [
          | inl equal ↦
              let gone = has_call-delete_pending_self id ps g a.distinct in
              let z : has_call call (delete_pending id ps) ≡ false =
                rw ((==_iff e.call call).0 equal) at gone in
              cc
          | inr unequal ↦ unequal
        ] in
        let held : has_call call ps ≡ true = rw (has_call-delete_pending id call ps g, k) refl in
        rw (h call, a.once call held, unequal) refl;
  }

  -- A request that is refused is settled at once.
  pub IsAccounted-refuse :
      (t : ℕ → Bool)
      → IsAccounted max ps s calls next
      → ((call : ℕ) → t call ≡ (s call || calls == call))
      → IsAccounted max ps t (suc calls) next
  IsAccounted-refuse t a h = record {
    few = a.few;
    fresh = a.fresh;
    distinct = a.distinct;
    known = λ call k. ground (arith, h call, a.known call);
    answered = λ call k. ground (arith, h call, a.answered call);
    once = λ call k. ground (arith, h call, a.once call, a.known call);
  }

  -- A request that is admitted is pending.
  pub IsAccounted-snoc :
      (e : PendingRequest)
      → e.id ≡ next
      → e.call ≡ calls
      → length ps < max
      → IsAccounted max ps s calls next
      → IsAccounted max (ps ++ e ∷ []) s (suc calls) (suc next)
  IsAccounted-snoc e i c few a =
      let fresh : All (λ request. request.id < e.id) ps = rw i a.fresh in
      let absent : has_call e.call ps ≡ false = elim (Bool-cases (has_call e.call ps)) [
        | inl held ↦ let k : e.call < calls = a.known e.call (ground arith) in absurd (omega arith)
        | inr absent ↦ absent
      ] in
      record {
        few = omega (arith, length-append ps (e ∷ []));
        fresh =
            All-append (λ request. request.id < suc next) ps (e ∷ [])
              (All-mono (λ p k. omega arith) ps a.fresh) (omega arith, tt);
        distinct = Distinct-snoc e ps fresh absent a.distinct;
        known = λ call k.
            ground (arith, any-append (λ request. request.call == call) ps (e ∷ []), a.known call);
        answered = λ call k.
            ground
              (arith, any-append (λ request. request.call == call) ps (e ∷ []), a.answered call);
        once = λ call k. ground (
          arith,
          any-append (λ request. request.call == call) ps (e ∷ []),
          a.once call,
          a.known call,
        );
      }
