-- ===== src/Rpc/Frames/Stream.antt =====
-- The loop over the bytes of the buffer hands over the messages that the peer has framed, however the
-- stream was cut into chunks.
use dotconfig.Base.{
  ℕ, zero, suc, ◌+◌, ◌≤◌, ◌<◌, ◌≡◌, refl, sym, subst, ap, ◌∙◌, inl, inr, true, false, Option, none,
  some, List, [], ◌∷◌, ◌++◌, arith, length, length-append, if_false, All, Bool-cases, Value,
  if◌then◌else◌,
}
use dotconfig.Rpc.{Bytes, invalid_message, Connection, Peer, frame}
use dotconfig.Rpc.Messages.{dispatch}
use dotconfig.Rpc.Frames.{terminator, with_message, drain_frames, handle_data}
use dotconfig.Rpc.Frames.Header.{header}
use dotconfig.Rpc.Frames.Quiet.{Quiet, kept, ended, fail_all_closes, dispatch-Quiet}
use dotconfig.Rpc.Frames.Whole.{
  stream, IsShort, IsPartial, Cut, frame-eq, with_header-frame, IsPartial-Cut, with_header-Cut,
}

module _ (P : Peer) where
  -- What a whole message does, once the bytes behind it are what the buffer holds.
  abbrev pub deliver : Bytes → Bytes → Connection → Connection
  deliver body rest c = with_message P (λ d. d) (P.parse body) (record c { buffer = rest })

  -- The messages one after the other, until one of them ends the connection.
  abbrev pub deliver_all : List Bytes → Bytes → Connection → Connection
  deliver_all [] rest c = c
  deliver_all (body ∷ bodies) rest c =
      if c.is_closed then c else deliver_all bodies rest (deliver body (stream bodies rest) c)

  deliver_all_closed :
      (bodies : List Bytes) (rest : Bytes) (c : Connection)
      → c.is_closed ≡ true
      → deliver_all bodies rest c ≡ c
  deliver_all_closed [] rest c over = refl
  deliver_all_closed (body ∷ bodies) rest c over = simp over refl

  drain_frames_closed : (fuel : ℕ) (c : Connection) → c.is_closed ≡ true → drain_frames P fuel c ≡ c
  unfolding drain_frames
  drain_frames_closed zero c over = refl
  drain_frames_closed (suc fuel) c over = simp over refl

  abbrev Follows : ℕ → List Bytes → Bytes → Type 0
  Follows fuel bodies rest =
      (c : Connection)
      → c.buffer ≡ stream bodies rest
      → drain_frames P fuel c ≡ deliver_all bodies rest c

  -- A message, and then what the induction says of the others.
  with_message-Follows :
      (fuel : ℕ) (bodies : List Bytes) (rest : Bytes) (message : Option Value) (c : Connection)
      → c.buffer ≡ stream bodies rest
      → Follows fuel bodies rest
      → with_message P (drain_frames P fuel) message c
        ≡ deliver_all bodies rest (with_message P (λ d. d) message c)
  with_message-Follows fuel bodies rest none c e f =
      sym (deliver_all_closed bodies rest _ (fail_all_closes invalid_message c))
  with_message-Follows fuel bodies rest (some message) c e f = handled (dispatch-Quiet P message c)
    where
      handled :
          Quiet c (dispatch P message c)
          → drain_frames P fuel (dispatch P message c)
            ≡ deliver_all bodies rest (dispatch P message c)
      handled (kept same buffer) = f (dispatch P message c) (buffer ∙ e)
      handled (ended over empty) =
          drain_frames_closed fuel _ over ∙ sym (deliver_all_closed bodies rest _ over)

  drain_frames-stream :
      (fuel : ℕ) (bodies : List Bytes) (rest : Bytes)
      → length bodies < fuel
      → All (IsShort P) bodies
      → IsPartial P rest
      → Follows fuel bodies rest
  unfolding drain_frames
  drain_frames-stream zero bodies rest few short partial c e = absurd (omega arith)
  drain_frames-stream (suc fuel) [] rest few short partial c e = elim (Bool-cases c.is_closed) [
    | inl over ↦ simp over refl
    | inr live ↦
        let cut : Cut P c.buffer = subst (Cut P) (sym e) (IsPartial-Cut P rest partial) in
        if_false _ c.is_closed live ∙ with_header-Cut P (drain_frames P fuel) c cut
  ]
  drain_frames-stream (suc fuel) (body ∷ bodies) rest few short partial c e =
      let follows = drain_frames-stream fuel bodies rest (omega arith) short.1 partial in
      elim (Bool-cases c.is_closed) [
        | inl over ↦ simp over refl
        | inr live ↦
            if_false _ c.is_closed live
            ∙ with_header-frame P (drain_frames P fuel) body (stream bodies rest) c short.0 e
            ∙ with_message-Follows fuel bodies rest (P.parse body) _ refl follows
            ∙ sym (if_false _ c.is_closed live)
      ]

  length-stream : (bodies : List Bytes) (rest : Bytes) → length bodies ≤ length (stream bodies rest)
  length-stream [] rest = omega arith
  length-stream (body ∷ bodies) rest =
      let e : length (frame body) ≡ length (header (length body)) + (4 + length body) =
        ap length (frame-eq P body)
        ∙ omega (
          arith,
          length-append (header (length body)) (terminator ++ body),
          length-append terminator body,
        ) in
      omega (arith, e, length-append (frame body) (stream bodies rest), length-stream bodies rest)

  -- When the bytes in the buffer and a chunk behind them are frames and less than a frame after them, the
  -- open connection handles exactly the messages of the frames, in their order and until one of them
  -- ends it, each with the bytes behind its frame in the buffer; it keeps what is less than a frame.
  -- The bodies are within the limits of the connection and of safe integers.
  pub handle_data-stream :
      (bodies : List Bytes) (rest chunk : Bytes) (c : Connection)
      → c.is_closed ≡ false
      → c.buffer ++ chunk ≡ stream bodies rest
      → All (IsShort P) bodies
      → IsPartial P rest
      → handle_data P chunk c ≡ deliver_all bodies rest (record c { buffer = c.buffer ++ chunk })
  unfolding handle_data
  handle_data-stream bodies rest chunk c live e short partial =
      let few : length bodies < suc (length (c.buffer ++ chunk)) =
        omega (arith, ap length e, length-stream bodies rest) in
      if_false _ c.is_closed live
      ∙ (drain_frames-stream (suc (length (c.buffer ++ chunk))) bodies rest few short partial
          (record c { buffer = c.buffer ++ chunk }) e)
