-- ===== src/Rpc/Pending.antt =====
-- The requests of a connection: those that are pending and those that are settled.
use dotconfig.Base.{
  ℕ, ◌≤◌, ◌<◌, ◌≡◌, refl, sym, subst, ap, ◌∙◌, inl, inr, Bool, true, false, ◌||◌, some, List, [],
  ◌∷◌, ◌++◌, arith, length, any, any-append, All, ◌==◌, ==_iff, Bool-cases,
}
use dotconfig.Rpc.{
  LspRpcError, Settlement, failed, PendingRequest, is_settled, settle, settle_all, get_pending,
  delete_pending,
}

abbrev pub has_call : ℕ → List PendingRequest → Bool
has_call call = any (λ request. request.call == call)

abbrev pub has_id : ℕ → List PendingRequest → Bool
has_id id = any (λ request. request.id == id)

-- No id and no call stands twice.
abbrev pub Distinct : List PendingRequest → Type 0
Distinct [] = Unit
Distinct (request ∷ requests) =
    (has_id request.id requests ≡ false)
    × (has_call request.call requests ≡ false)
    × Distinct requests

pub is_settled-settle :
    (call other : ℕ) (outcome : Settlement) (log : List (ℕ × Settlement))
    → is_settled call (settle other outcome log) ≡ (is_settled call log || other == call)
unfolding settle is_settled
is_settled-settle call other outcome log = elim (Bool-cases (is_settled other log)) [
  | inl done ↦ rw done (elim (Bool-cases (other == call)) [
    | inl same ↦
        let e : other ≡ call = (==_iff other call).0 same in
        let settled_too : is_settled call log ≡ true = rw e at done in rw settled_too refl
    | inr differs ↦ rw differs (ground arith)
  ])
  | inr new ↦ rw new (ground arith)
]

pub is_settled-settle_all :
    (call : ℕ) (error : LspRpcError) (ps : List PendingRequest) (log : List (ℕ × Settlement))
    → is_settled call (settle_all error ps log) ≡ (is_settled call log || has_call call ps)
unfolding settle_all
is_settled-settle_all call error [] log = ground arith
is_settled-settle_all call error (p ∷ ps) log =
    is_settled-settle_all call error ps (settle p.call (failed error) log)
    ∙ rw is_settled-settle (ground arith)

or_comm : (a b : Bool) → (a || b) ≡ (b || a)
or_comm true b = ground arith
or_comm false b = ground arith

pub or_assoc : (a b c : Bool) → ((a || b) || c) ≡ (a || (b || c))
or_assoc true b c = refl
or_assoc false b c = refl

module _ (id : ℕ) where
  pub get_pending-id :
      (ps : List PendingRequest) {e : PendingRequest} → get_pending id ps ≡ some e → e.id ≡ id
  unfolding get_pending
  get_pending-id [] h = cc
  get_pending-id (p ∷ ps) {e = e} h = elim (Bool-cases (p.id == id)) [
    | inl same ↦
        let k : some p ≡ some e = rw (same, get_pending) at h in
        let q : p ≡ e = cc in ap (λ r. r.id) (sym q) ∙ (==_iff p.id id).0 same
    | inr other ↦ get_pending-id ps (rw (other, get_pending) at h)
  ]

  pub has_call-delete_pending :
      (call : ℕ) (ps : List PendingRequest) {e : PendingRequest}
      → get_pending id ps ≡ some e
      → has_call call ps ≡ (has_call call (delete_pending id ps) || e.call == call)
  unfolding get_pending delete_pending
  has_call-delete_pending call [] h = cc
  has_call-delete_pending call (p ∷ ps) {e = e} h = elim (Bool-cases (p.id == id)) [
    | inl same ↦
        let k : some p ≡ some e = rw (same, get_pending) at h in
        let q : p ≡ e = cc in
        let c : (p.call == call) ≡ (e.call == call) = ap (λ r. r.call == call) q in
        rw (same, c) (or_comm (e.call == call) (has_call call ps))
    | inr other ↦
        rw (other, has_call-delete_pending call ps {e = e} (rw (other, get_pending) at h))
          (ground arith)
  ]

  has_id-delete_pending :
      (other : ℕ) (ps : List PendingRequest)
      → has_id other ps ≡ false
      → has_id other (delete_pending id ps) ≡ false
  unfolding delete_pending
  has_id-delete_pending other [] h = refl
  has_id-delete_pending other (p ∷ ps) h = elim (Bool-cases (p.id == id)) [
    | inl same ↦ rw same (ground arith)
    | inr differs ↦ rw differs (ground (arith, has_id-delete_pending other ps))
  ]

  has_call-delete_pending_absent :
      (call : ℕ) (ps : List PendingRequest)
      → has_call call ps ≡ false
      → has_call call (delete_pending id ps) ≡ false
  unfolding delete_pending
  has_call-delete_pending_absent call [] h = refl
  has_call-delete_pending_absent call (p ∷ ps) h = elim (Bool-cases (p.id == id)) [
    | inl same ↦ rw same (ground arith)
    | inr differs ↦ rw differs (ground (arith, has_call-delete_pending_absent call ps))
  ]

  pub delete_pending-Distinct :
      (ps : List PendingRequest) → Distinct ps → Distinct (delete_pending id ps)
  unfolding delete_pending
  delete_pending-Distinct [] d = tt
  delete_pending-Distinct (p ∷ ps) d = elim (Bool-cases (p.id == id)) [
    | inl same ↦ rw same d.2
    | inr differs ↦ rw differs (
      has_id-delete_pending p.id ps d.0,
      has_call-delete_pending_absent p.call ps d.1,
      delete_pending-Distinct ps d.2,
    )
  ]

  pub All-delete_pending :
      (Q : PendingRequest → Type 0) (ps : List PendingRequest)
      → All Q ps
      → All Q (delete_pending id ps)
  unfolding delete_pending
  All-delete_pending Q [] q = tt
  All-delete_pending Q (p ∷ ps) q = elim (Bool-cases (p.id == id)) [
    | inl same ↦ rw same q.1
    | inr differs ↦ rw differs (q.0, All-delete_pending Q ps q.1)
  ]

  pub length-delete_pending : (ps : List PendingRequest) → length (delete_pending id ps) ≤ length ps
  unfolding delete_pending
  length-delete_pending [] = omega arith
  length-delete_pending (p ∷ ps) = elim (Bool-cases (p.id == id)) [
    | inl same ↦ rw same (omega arith)
    | inr differs ↦ rw differs (omega (arith, length-delete_pending ps))
  ]

  -- The call of the request that is deleted is gone.
  pub has_call-delete_pending_self :
      (ps : List PendingRequest) {e : PendingRequest}
      → get_pending id ps ≡ some e
      → Distinct ps
      → has_call e.call (delete_pending id ps) ≡ false
  unfolding get_pending delete_pending
  has_call-delete_pending_self [] h d = cc
  has_call-delete_pending_self (p ∷ ps) {e = e} h d = elim (Bool-cases (p.id == id)) [
    | inl same ↦
        let k : some p ≡ some e = rw (same, get_pending) at h in
        let q : p ≡ e = cc in rw same (subst (λ r. has_call r.call ps ≡ false) q d.1)
    | inr differs ↦
        let k : get_pending id ps ≡ some e = rw (differs, get_pending) at h in
        let held : has_call e.call ps ≡ true =
          rw (has_call-delete_pending e.call ps {e = e} k) (ground arith) in
        let other : (p.call == e.call) ≡ false = elim (Bool-cases (p.call == e.call)) [
          | inl equal ↦
              let z : has_call e.call ps ≡ false = rw ((==_iff p.call e.call).0 equal) at d.1 in cc
          | inr unequal ↦ unequal
        ] in
        rw (differs, other) (has_call-delete_pending_self ps {e = e} k d.2)
  ]

-- The request of a fresh id is found at the end of the list.
pub get_pending-snoc :
    (e : PendingRequest) (ps : List PendingRequest)
    → All (λ p. p.id < e.id) ps
    → get_pending e.id (ps ++ e ∷ []) ≡ some e
unfolding get_pending
get_pending-snoc e [] f = let same : (e.id == e.id) ≡ true = ground arith in rw same refl
get_pending-snoc e (p ∷ ps) f =
    let differs : (p.id == e.id) ≡ false = ground arith in rw differs (get_pending-snoc e ps f.1)

has_id_fresh :
    (next : ℕ) (ps : List PendingRequest) → All (λ p. p.id < next) ps → has_id next ps ≡ false
has_id_fresh next [] f = refl
has_id_fresh next (p ∷ ps) f =
    let differs : (p.id == next) ≡ false = ground arith in
    rw (differs, has_id_fresh next ps f.1) refl

pub Distinct-snoc :
    (e : PendingRequest) (ps : List PendingRequest)
    → All (λ p. p.id < e.id) ps
    → has_call e.call ps ≡ false
    → Distinct ps
    → Distinct (ps ++ e ∷ [])
Distinct-snoc e [] f c d = (refl, refl, tt)
Distinct-snoc e (p ∷ ps) f c d = (
  (let differs : (e.id == p.id) ≡ false = ground arith in rw (any-append, d.0, differs) refl),
  (let differs : (e.call == p.call) ≡ false = ground arith in rw (any-append, d.1, differs) refl),
  Distinct-snoc e ps f.1 (ground arith) d.2,
)
