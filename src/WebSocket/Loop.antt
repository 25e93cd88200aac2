-- ===== src/WebSocket/Loop.antt =====
-- Lemmas on `parse`: its fuel, and what more bytes after the buffer change.
use opentunnel.Prelude.{
  ℕ, zero, suc, ◌<◌, ◌≡◌, inl, inr, Bool-cases, refl, ◌∙◌, Bool, true, false, Option, none, some,
  ◌++◌, leb, Bytes, length, arith, length-append, ap,
}
use opentunnel.WebSocket.Reader.{
  Reader, Frame, Message, Result, ok, err, close_code, assembled, frame, found, joined, round,
  parse_loop, completed, control,
}
use opentunnel.WebSocket.Stable.{more, IsStable, short, bad, whole, frame-IsStable}

by_suc : (P : ℕ → Type 0) (n : ℕ) → ((j : ℕ) → n < suc j → P (suc j)) → (k : ℕ) → n < k → P k
by_suc P n step zero h = absurd (omega arith)
by_suc P n step (suc j) h = step j h

module _ (from_utf8 : Bytes → Bool) where
  abbrev Rest : Type 0
  Rest = Reader → Reader × Result (Option Message)

  joined-agree :
      (go_on go_on' : Rest) (r : Reader) (fin : Bool) (data_ : Result (Bool × Bytes))
      → ((p : Option (Bool × Bytes))
          → go_on (record r { partial = p }) ≡ go_on' (record r { partial = p }))
      → joined from_utf8 go_on r fin data_ ≡ joined from_utf8 go_on' r fin data_
  unfolding joined
  joined-agree go_on go_on' r fin (err e) same = refl
  joined-agree go_on go_on' r true (ok (is_text, data_)) same = refl
  joined-agree go_on go_on' r false (ok (is_text, data_)) same = same (some (is_text, data_))

  round-agree :
      (go_on go_on' : Rest) (r : Reader) (answer : Reader × Result (Option Frame))
      → IsStable r answer
      → ((r' : Reader) → length r'.buffer < length r.buffer → go_on r' ≡ go_on' r')
      → round from_utf8 go_on answer ≡ round from_utf8 go_on' answer
  unfolding round
  round-agree go_on go_on' r _ (short n) same = refl
  round-agree go_on go_on' r _ (bad e stays) same = refl
  round-agree go_on go_on' r _ (whole rest f shorter stays) same =
      elim (Bool-cases (leb close_code f.opcode)) [
        | inl e ↦ rw (e, round) refl
        | inr e ↦
            rw (e, round)
              (joined-agree go_on go_on' (record r { buffer = rest; wanted = 0 }) f.fin
                (assembled r.max_message f r.partial)
                (λ p. same (record r { buffer = rest; wanted = 0; partial = p }) shorter))
      ]

  -- The fuel of the loop is enough: any more, from one more than the bytes in the buffer on, gives the same.
  pub parse_loop_enough :
      (f g : ℕ) (r : Reader)
      → length r.buffer < f
      → length r.buffer < g
      → parse_loop from_utf8 f r ≡ parse_loop from_utf8 g r
  unfolding parse_loop
  parse_loop_enough zero g r hf hg = absurd (omega arith)
  parse_loop_enough (suc f) zero r hf hg = absurd (omega arith)
  parse_loop_enough (suc f) (suc g) r hf hg =
      round-agree _ _ r (frame r) (frame-IsStable r)
        (λ r' h. parse_loop_enough f g r' (omega arith) (omega arith))

  wanted_unread :
      (f n : ℕ) (r : Reader)
      → parse_loop from_utf8 (suc f) r ≡ parse_loop from_utf8 (suc f) (record r { wanted = n })
  unfolding parse_loop frame
  wanted_unread f n r = refl

  -- What the loop answers when more bytes have come.
  abbrev pub Later : Reader → Bytes → Reader × Result (Option Message) → Type 0
  Later r b (r', ok none) =
      (g h : ℕ)
      → length (r.buffer ++ b) < g
      → length (r'.buffer ++ b) < h
      → parse_loop from_utf8 g (more r b) ≡ parse_loop from_utf8 h (more r' b)
  Later r b (r', ok (some message)) =
      (g : ℕ)
      → length (r.buffer ++ b) < g
      → parse_loop from_utf8 g (more r b) ≡ (more r' b, ok (some message))
  Later r b (r', err e) =
      (g : ℕ) → length (r.buffer ++ b) < g → parse_loop from_utf8 g (more r b) ≡ (more r' b, err e)

  found-Later :
      (r r' : Reader) (b : Bytes) (result : Result Message)
      → ((g : ℕ)
          → length (r.buffer ++ b) < g
          → parse_loop from_utf8 g (more r b) ≡ (more r' b, found from_utf8 result))
      → Later r b (r', found from_utf8 result)
  unfolding found
  found-Later r r' b (ok message) same = same
  found-Later r r' b (err e) same = same

  -- A round that goes on with a shorter buffer.
  step-Later :
      (r r2 : Reader) (b : Bytes) (answer : Reader × Result (Option Message))
      → length r2.buffer < length r.buffer
      → ((g : ℕ) → parse_loop from_utf8 (suc g) (more r b) ≡ parse_loop from_utf8 g (more r2 b))
      → Later r2 b answer
      → Later r b answer
  step-Later r r2 b (r', ok none) shorter same later = λ g h hg hh.
      by_suc (λ g. parse_loop from_utf8 g (more r b) ≡ parse_loop from_utf8 h (more r' b))
        (length (r.buffer ++ b))
        (λ j hj.
          same j
          ∙ later j h (omega (arith, length-append r.buffer b, length-append r2.buffer b)) hh)
        g hg
  step-Later r r2 b (r', ok (some message)) shorter same later =
      by_suc (λ g. parse_loop from_utf8 g (more r b) ≡ (more r' b, ok (some message)))
        (length (r.buffer ++ b))
        (λ j hj.
          same j ∙ later j (omega (arith, length-append r.buffer b, length-append r2.buffer b)))
  step-Later r r2 b (r', err e) shorter same later =
      by_suc (λ g. parse_loop from_utf8 g (more r b) ≡ (more r' b, err e)) (length (r.buffer ++ b))
        (λ j hj.
          same j ∙ later j (omega (arith, length-append r.buffer b, length-append r2.buffer b)))

  joined-Later :
      (f : ℕ) (r r1 : Reader) (b : Bytes) (fin : Bool) (data_ : Result (Bool × Bytes))
      → length r1.buffer < length r.buffer
      → ((r' : Reader)
          → length r'.buffer < length r.buffer
          → Later r' b (parse_loop from_utf8 f r'))
      → ((j : ℕ)
          → parse_loop from_utf8 (suc j) (more r b)
            ≡ joined from_utf8 (λ r'. parse_loop from_utf8 j r') (more r1 b) fin data_)
      → Later r b (joined from_utf8 (λ r'. parse_loop from_utf8 f r') r1 fin data_)
  unfolding joined
  joined-Later f r r1 b fin (err e) shorter later same =
      by_suc
        (λ g. parse_loop from_utf8 g (more r b) ≡ (more (record r1 { partial = none }) b, err e)) _
        (λ j hj. same j)
  joined-Later f r r1 b true (ok (is_text, data_)) shorter later same =
      found-Later r (record r1 { partial = none }) b (completed from_utf8 is_text data_)
        (by_suc
          (λ g. parse_loop from_utf8 g (more r b) ≡ (
            more (record r1 { partial = none }) b,
            found from_utf8 (completed from_utf8 is_text data_),
          ))
          _ (λ j hj. same j))
  joined-Later f r r1 b false (ok (is_text, data_)) shorter later same =
      step-Later r (record r1 { partial = some (is_text, data_) }) b _ shorter same
        (later _ shorter)

  -- A frame that was split off, and how the loop goes on.
  whole-Later :
      (f : ℕ) (r : Reader) (b rest : Bytes) (fr : Frame)
      → length rest < length r.buffer
      → frame (more r b) ≡ (more (record r { buffer = rest; wanted = 0 }) b, ok (some fr))
      → ((r' : Reader)
          → length r'.buffer < length r.buffer
          → Later r' b (parse_loop from_utf8 f r'))
      → Later r b (
          round from_utf8
            (λ r'. parse_loop from_utf8 f r')
            (record r { buffer = rest; wanted = 0 }, ok (some fr)))
  unfolding round
  whole-Later f r b rest fr shorter stays later = elim (Bool-cases (leb close_code fr.opcode)) [
    | inl e ↦
        rw (e, round)
          (found-Later r r1 b (control from_utf8 fr) (
            by_suc
              (λ g.
                parse_loop from_utf8 g (more r b)
                ≡ (more r1 b, found from_utf8 (control from_utf8 fr)))
              _ (λ j hj. step j ∙ rw (e, round) refl)))
    | inr e ↦
        rw (e, round)
          (joined-Later f r (record r { buffer = rest; wanted = 0 }) b fr.fin
            (assembled r.max_message fr r.partial) shorter later (λ j. step j ∙ rw (e, round) refl))
  ]
    where
      r1 : Reader
      r1 = record r { buffer = rest; wanted = 0 }

      step :
          (j : ℕ)
          → parse_loop from_utf8 (suc j) (more r b)
            ≡ round from_utf8 (λ r'. parse_loop from_utf8 j r') (more r1 b, ok (some fr))
      step j =
          unfold parse_loop in
          ap (λ answer. round from_utf8 (λ r'. parse_loop from_utf8 j r') answer) stays

  round-Later :
      (f : ℕ) (r : Reader) (b : Bytes) (answer : Reader × Result (Option Frame))
      → IsStable r answer
      → ((r' : Reader)
          → length r'.buffer < length r.buffer
          → Later r' b (parse_loop from_utf8 f r'))
      → Later r b (round from_utf8 (λ r'. parse_loop from_utf8 f r') answer)
  unfolding round
  round-Later f r b _ (short n) later = λ g h hg hh.
      parse_loop_enough g h (more r b) hg hh
      ∙ by_suc
          (λ h.
            parse_loop from_utf8 h (more r b)
            ≡ parse_loop from_utf8 h (more (record r { wanted = n }) b))
          (length (r.buffer ++ b)) (λ j hj. wanted_unread j n (more r b)) h hh
  round-Later f r b _ (bad e stays) later =
      by_suc (λ g. parse_loop from_utf8 g (more r b) ≡ (more (record r { wanted = 2 }) b, err e)) _
        (λ j hj.
          unfold parse_loop in
          ap (λ answer. round from_utf8 (λ r'. parse_loop from_utf8 j r') answer) (stays b))
  round-Later f r b _ (whole rest fr shorter stays) later =
      whole-Later f r b rest fr shorter (stays b) later

  pub parse_loop-Later :
      (f : ℕ) (r : Reader) (b : Bytes) → length r.buffer < f → Later r b (parse_loop from_utf8 f r)
  unfolding parse_loop
  parse_loop-Later zero r b h = absurd (omega arith)
  parse_loop-Later (suc f) r b h =
      round-Later f r b (frame r) (frame-IsStable r)
        (λ r' shorter. parse_loop-Later f r' b (omega arith))
