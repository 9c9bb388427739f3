-- ===== src/Rpc/Frames/Whole.antt =====
-- A whole frame at the front of the buffer, and less than a frame.
use mathlib.Core.List.{append_assoc, append-nil}
use dotconfig.Base.{
  ℕ, zero, suc, ◌+◌, ◌-◌, ◌≤◌, ◌<◌, ◌≡◌, refl, sym, ap, ◌∙◌, inl, inr, Bool, true, false, none,
  some, List, [], ◌∷◌, ◌++◌, arith, length, length-append, length-take, length-take_le, leb→le,
  ltb→lt, take, drop, take-append_length, drop-append_length, drop-drop, take-append,
  take-append_more, every, leb, ltb, ◌==◌, Bool-cases, codes, decimal, number_from-decimal,
  starts_with, max_safe_integer,
}
use dotconfig.Rpc.{Bytes, max_header_bytes, Connection, Peer, frame}
use dotconfig.Rpc.Frames.{terminator, header_end, with_message, with_length, with_header}
use dotconfig.Rpc.Frames.Header.{
  header, has_no_return, header-has_no_return, length-header, header_end-append,
  length_digits-header,
}

-- Frames, and the bytes that follow them.
abbrev pub stream : List Bytes → Bytes → Bytes
stream [] rest = rest
stream (body ∷ bodies) rest = frame body ++ stream bodies rest

module _ (P : Peer) where
  abbrev pub IsShort : Bytes → Type 0
  IsShort body = (length body ≤ P.max_message_bytes) × (length body ≤ max_safe_integer)

  -- Less than a whole frame.
  pub data IsPartial (bytes : Bytes) : Type 0 where
    cut :
        (n : ℕ) (body : Bytes)
        → IsShort body
        → n < length (frame body)
        → bytes ≡ take n (frame body)
        → IsPartial bytes

  pub frame-eq : (body : Bytes) → frame body ≡ header (length body) ++ (terminator ++ body)
  unfolding frame header
  frame-eq body = append_assoc (codes "Content-Length: " ++ decimal (length body)) terminator body

  frame-split :
      (body rest : Bytes)
      → frame body ++ rest ≡ header (length body) ++ (terminator ++ (body ++ rest))
  frame-split body rest =
      ap (λ t. t ++ rest) (frame-eq body)
      ∙ append_assoc (header (length body)) (terminator ++ body) rest

  module _ (next : Connection → Connection) (body rest : Bytes) (c : Connection) where
    pub with_header-frame :
        IsShort body
        → c.buffer ≡ frame body ++ rest
        → with_header P next (header_end c.buffer) c
          ≡ with_message P next (P.parse body) (record c { buffer = rest })
    unfolding with_length
    with_header-frame short e =
        let h = header (length body) in
        let split : c.buffer ≡ h ++ (terminator ++ (body ++ rest)) = e ∙ frame-split body rest in
        let found : header_end c.buffer ≡ some (length h) =
          ap header_end split
          ∙ header_end-append h (body ++ rest) (header-has_no_return (length body)) in
        let front : take (length h) c.buffer ≡ h =
          ap (take (length h)) split ∙ take-append_length h _ in
        let behind : drop (length h + 4) c.buffer ≡ body ++ rest =
          ap (drop (length h + 4)) split
          ∙ sym (drop-drop (length h) 4 _)
          ∙ ap (drop 4) (drop-append_length h (terminator ++ (body ++ rest))) in
        let inside : take (length body) (drop (length h + 4) c.buffer) ≡ body =
          ap (take (length body)) behind ∙ take-append_length body rest in
        let after : drop (length h + 4 + length body) c.buffer ≡ rest =
          sym (drop-drop (length h + 4) (length body) c.buffer)
          ∙ ap (drop (length body)) behind
          ∙ drop-append_length body rest in
        let size : length c.buffer ≡ length h + (4 + (length body + length rest)) =
          ap length split
          ∙ omega (
            arith,
            length-append h (terminator ++ (body ++ rest)),
            length-append terminator (body ++ rest),
            length-append body rest,
          ) in
        let small : ltb max_header_bytes (length h) ≡ false =
          ground (arith, length-header (length body) short.1) in
        let safe : leb (length body) max_safe_integer ≡ true = ground arith in
        let few : ltb P.max_message_bytes (length body) ≡ false = ground arith in
        let whole : ltb (length c.buffer) (length h + 4 + length body) ≡ false =
          ground (arith, size) in
        rw
          (
            found,
            small,
            front,
            length_digits-header (length body),
            number_from-decimal (length body),
            safe,
            few,
            whole,
            inside,
            after,
          )
          refl

  every-take : (p : ℕ → Bool) (n : ℕ) (xs : Bytes) → every p xs ≡ true → every p (take n xs) ≡ true
  every-take p zero xs h = refl
  every-take p (suc n) [] h = refl
  every-take p (suc n) (x ∷ xs) h = ground (arith, every-take p n xs)

  header_end_cut :
      (bytes : Bytes) (k : ℕ)
      → has_no_return bytes ≡ true
      → k < 4
      → header_end (bytes ++ take k terminator) ≡ none
  unfolding header_end starts_with
  header_end_cut [] zero h k = refl
  header_end_cut [] (suc zero) h k = refl
  header_end_cut [] (suc (suc zero)) h k = refl
  header_end_cut [] (suc (suc (suc zero))) h k = refl
  header_end_cut [] (suc (suc (suc (suc n)))) h k = absurd (omega arith)
  header_end_cut (byte ∷ bytes) n h k =
      let miss : (13 == byte) ≡ false = ground arith in
      rw (miss, header_end_cut bytes n (ground arith) k) refl

  -- A frame that is not whole has no header, or a header and less than the body.
  pub data Cut (bytes : Bytes) : Type 0 where
    headless : header_end bytes ≡ none → length bytes ≤ max_header_bytes → Cut bytes
    bodiless :
        (body front : Bytes)
        → IsShort body
        → length front < length body
        → bytes ≡ header (length body) ++ (terminator ++ front)
        → Cut bytes

  pub IsPartial-Cut : (bytes : Bytes) → IsPartial bytes → Cut bytes
  IsPartial-Cut bytes (cut n body short few e) =
      let h = header (length body) in
      let split : bytes ≡ take n (h ++ (terminator ++ body)) = e ∙ ap (take n) (frame-eq body) in
      let clear = header-has_no_return (length body) in
      let low = length-header (length body) short.1 in
      let long : length (frame body) ≡ length h + (4 + length body) =
        ap length (frame-eq body)
        ∙ omega (arith, length-append h (terminator ++ body), length-append terminator body) in
      let k = n - length h in
      elim (Bool-cases (leb n (length h))) [
        | inl inside ↦
            let f : bytes ≡ take n h =
              split ∙ take-append n h (terminator ++ body) (ground arith) in
            let g : bytes ≡ take n h ++ take 0 terminator = f ∙ sym (append-nil (take n h)) in
            headless
              (ap header_end g ∙ header_end_cut (take n h) 0 (every-take _ n h clear) (omega arith))
              (omega (
                arith,
                ap length f,
                length-take_le n h,
                length-take n h (ground arith),
                leb→le n (length h) inside,
              ))
        | inr beyond ↦
            let f : bytes ≡ h ++ take k (terminator ++ body) =
              split ∙ take-append_more n h (terminator ++ body) (ground arith) in
            elim (Bool-cases (ltb k 4)) [
              | inl early ↦
                  let g : bytes ≡ h ++ take k terminator =
                    f ∙ ap (λ t. h ++ t) (take-append k terminator body (ground arith)) in
                  headless (ap header_end g ∙ header_end_cut h k clear (ground arith)) (
                    omega (
                      arith,
                      ap length g,
                      length-append h (take k terminator),
                      length-take k terminator (ground arith),
                      ltb→lt k 4 early,
                    ))
              | inr late ↦
                  let g : bytes ≡ h ++ (terminator ++ take (k - 4) body) =
                    f ∙ ap (λ t. h ++ t) (take-append_more k terminator body (ground arith)) in
                  let m : 4 ≤ k = ground arith in
                  bodiless body (take (k - 4) body) short
                    (omega (arith, length-take (k - 4) body (omega arith))) g
            ]
      ]

  -- Less than a frame waits in the buffer.
  pub with_header-Cut :
      (next : Connection → Connection) (c : Connection)
      → Cut c.buffer
      → with_header P next (header_end c.buffer) c ≡ c
  unfolding with_length
  with_header-Cut next c (headless none_found few) =
      let fits : ltb max_header_bytes (length c.buffer) ≡ false = ground arith in
      rw (none_found, fits) refl
  with_header-Cut next c (bodiless body front short few split) =
      let h = header (length body) in
      let found : header_end c.buffer ≡ some (length h) =
        ap header_end split ∙ header_end-append h front (header-has_no_return (length body)) in
      let head : take (length h) c.buffer ≡ h =
        ap (take (length h)) split ∙ take-append_length h _ in
      let size : length c.buffer ≡ length h + (4 + length front) =
        ap length split
        ∙ omega (arith, length-append h (terminator ++ front), length-append terminator front) in
      let small : ltb max_header_bytes (length h) ≡ false =
        ground (arith, length-header (length body) short.1) in
      let safe : leb (length body) max_safe_integer ≡ true = ground arith in
      let low : ltb P.max_message_bytes (length body) ≡ false = ground arith in
      let half : ltb (length c.buffer) (length h + 4 + length body) ≡ true = ground (arith, size) in
      rw
        (
          found,
          small,
          head,
          length_digits-header (length body),
          number_from-decimal (length body),
          safe,
          low,
          half,
        )
        refl
