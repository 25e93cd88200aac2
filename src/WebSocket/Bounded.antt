-- ===== src/WebSocket/Bounded.antt =====
-- Lemmas on the sizes of the messages that are read.
use opentunnel.Prelude.{
  ℕ, zero, suc, ◌≤◌, ◌≡◌, inl, inr, Bool-cases, Bool, true, false, not, ◌||◌, Option, none, some,
  List, [], ◌∷◌, ◌++◌, Bytes, length, arith, ltb, leb, ◌==◌, subst, sym,
}
use opentunnel.WebSocket.Reader.{
  Reader, Frame, Message, Result, ok, err, close_code, ping_code, pong_code, frame, assembled,
  close_message, control, completed, found, joined, round, parse_loop, parse,
}
use opentunnel.WebSocket.Connection.{
  Read, received, failed, Next, arrived, answered, next, io_failed, waiting, ended,
}
use opentunnel.WebSocket.Sizes.{
  IsSmall, IsPartial, IsWithin, Framed, frame-Framed, Joined, assembled-Joined,
}

abbrev pub Small : ℕ → Reader × Result (Option Message) → Type 0
Small limit (r, err e) = IsWithin limit r
Small limit (r, ok none) = IsWithin limit r
Small limit (r, ok (some message)) = IsWithin limit r × IsSmall limit message

-- The reader after `next` keeps the limit, and so does a message that arrived.
unfoldable pub NextSmall : ℕ → Reader × (List Read × Next) → Type 0
unfolding IsSmall
NextSmall limit (r, (left, arrived message)) = IsWithin limit r × IsSmall limit message
NextSmall limit (r, (left, _)) = IsWithin limit r

module _ (from_utf8 : Bytes → Bool) (limit : ℕ) where
  abbrev Fits : Result Message → Type 0
  Fits (ok message) = IsSmall limit message
  Fits (err e) = Unit {0}

  close_message-Fits : (payload : Bytes) → Fits (close_message from_utf8 payload)
  unfolding close_message IsSmall
  close_message-Fits [] = tt
  close_message-Fits (byte ∷ []) = tt
  close_message-Fits (high ∷ low ∷ reason) = elim (Bool-cases (from_utf8 reason)) [
    | inl e ↦ rw (e) tt
    | inr e ↦ rw (e) tt
  ]

  control-Fits : (f : Frame) → Fits (control from_utf8 f)
  unfolding control IsSmall
  control-Fits f = elim (Bool-cases (not f.fin || ltb 125 (length f.payload))) [
    | inl e ↦ rw (e) tt
    | inr e ↦ elim (Bool-cases (f.opcode == close_code)) [
      | inl c ↦ rw (e, c) (close_message-Fits f.payload)
      | inr c ↦ elim (Bool-cases (f.opcode == ping_code)) [
        | inl p ↦ rw (e, c, p) (short f.fin (length f.payload) e)
        | inr p ↦ elim (Bool-cases (f.opcode == pong_code)) [
          | inl q ↦ rw (e, c, p, q) (short f.fin (length f.payload) e)
          | inr q ↦ rw (e, c, p, q) tt
        ]
      ]
    ]
  ]
    where
      short : (fin : Bool) (n : ℕ) → (not fin || ltb 125 n) ≡ false → n ≤ 125
      short fin n e = ground arith

  completed-Fits :
      (is_text : Bool) (data_ : Bytes)
      → length data_ ≤ limit
      → Fits (completed from_utf8 is_text data_)
  unfolding completed IsSmall
  completed-Fits true data_ h = elim (Bool-cases (from_utf8 data_)) [
    | inl e ↦ rw (e) h
    | inr e ↦ rw (e) tt
  ]
  completed-Fits false data_ h = h

  found-Small :
      (r : Reader) (result : Result Message)
      → IsWithin limit r
      → Fits result
      → Small limit (r, found from_utf8 result)
  unfolding found
  found-Small r (ok message) within fits = (within, fits)
  found-Small r (err e) within fits = within

  joined-Small :
      (go_on : Reader → Reader × Result (Option Message)) (r : Reader) (fin : Bool)
      (data_ : Result (Bool × Bytes))
      → r.max_message ≡ limit
      → Joined limit data_
      → ((r' : Reader) → IsWithin limit r' → Small limit (go_on r'))
      → Small limit (joined from_utf8 go_on r fin data_)
  unfolding joined IsPartial
  joined-Small go_on r fin (err e) m h on = (m, tt)
  joined-Small go_on r true (ok (is_text, data_)) m h on =
      found-Small (record r { partial = none }) _ (m, tt) (completed-Fits is_text data_ h)
  joined-Small go_on r false (ok (is_text, data_)) m h on =
      on (record r { partial = some (is_text, data_) }) (m, h)

  round-Small :
      (go_on : Reader → Reader × Result (Option Message)) (answer : Reader × Result (Option Frame))
      → Framed limit answer
      → ((r' : Reader) → IsWithin limit r' → Small limit (go_on r'))
      → Small limit (round from_utf8 go_on answer)
  unfolding round
  round-Small go_on (r, err e) framed on = framed
  round-Small go_on (r, ok none) framed on = framed
  round-Small go_on (r, ok (some f)) (within, h) on = elim (Bool-cases (leb close_code f.opcode)) [
    | inl e ↦ rw (e, round) (found-Small r _ within (control-Fits f))
    | inr e ↦
        rw (e, round)
          (joined-Small go_on r f.fin _ within.0
            (subst (λ n. Joined limit (assembled n f r.partial)) (sym within.0)
              (assembled-Joined limit f r.partial h))
            on)
  ]

  parse_loop-Small :
      (fuel : ℕ) (r : Reader) → IsWithin limit r → Small limit (parse_loop from_utf8 fuel r)
  unfolding parse_loop
  parse_loop-Small zero r within = within
  parse_loop-Small (suc fuel) r within =
      round-Small (λ r'. parse_loop from_utf8 fuel r') (frame r) (frame-Framed limit r within)
        (λ r' h. parse_loop-Small fuel r' h)

  answered-NextSmall :
      (reads : List Read) (go_on : Reader → Reader × (List Read × Next))
      (answer : Reader × Result (Option Message))
      → Small limit answer
      → ((r' : Reader) → IsWithin limit r' → NextSmall limit (go_on r'))
      → NextSmall limit (answered reads go_on answer)
  unfolding answered NextSmall
  answered-NextSmall reads go_on (r, err e) small on = small
  answered-NextSmall reads go_on (r, ok none) small on = on r small
  answered-NextSmall reads go_on (r, ok (some message)) small on = small

  -- Where the incomplete message that a reader holds is within its limit, so is the one that it holds after `next`,
  -- and a message that arrives holds at most the limit of bytes, or 125 if it is a ping or a pong.
  pub next-NextSmall :
      (reads : List Read) (r : Reader) → IsWithin limit r → NextSmall limit (next from_utf8 reads r)
  unfolding next parse
  next-NextSmall [] r within =
      answered-NextSmall [] (λ r'. (r', ([], waiting))) (parse from_utf8 r)
        (parse_loop-Small _ r within) (λ r' h. unfold NextSmall in h)
  next-NextSmall (failed ∷ reads) r within =
      answered-NextSmall (failed ∷ reads) (λ r'. (r', (reads, io_failed))) (parse from_utf8 r)
        (parse_loop-Small _ r within) (λ r' h. unfold NextSmall in h)
  next-NextSmall (received [] ∷ reads) r within =
      answered-NextSmall (received [] ∷ reads) (λ r'. (r', (reads, ended))) (parse from_utf8 r)
        (parse_loop-Small _ r within) (λ r' h. unfold NextSmall in h)
  next-NextSmall (received (byte ∷ bytes) ∷ reads) r within =
      answered-NextSmall (received (byte ∷ bytes) ∷ reads) _ (parse from_utf8 r)
        (parse_loop-Small _ r within)
        (λ r' h. next-NextSmall reads (record r' { buffer = r'.buffer ++ byte ∷ bytes }) h)
