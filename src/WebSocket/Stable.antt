-- ===== src/WebSocket/Stable.antt =====
-- Lemmas on `frame`: what more bytes after the buffer change.
use opentunnel.Prelude.{
  ℕ, zero, suc, inl, inr, ◌+◌, ◌/◌, ◌%◌, ◌<◌, ◌≤◌, ◌≡◌, refl, ap, ◌∙◌, true, false, none, some, [],
  ◌∷◌, ◌++◌, ltb, ◌==◌, Bool-cases, arith, Bytes, length, drop, length-append, length-drop,
  take-append_le, Option, codes,
}
use opentunnel.Proxy.Parse.{at, slice}
use opentunnel.WebSocket.Reader.{
  Reader, Frame, Error, Result, ok, err, Length, need, sized, payload_length, split_frame,
  sized_frame, frame, too_large,
}

-- The reader after more bytes were read.
abbrev pub more : Reader → Bytes → Reader
more r b = record r { buffer = r.buffer ++ b }

-- An answer of `frame` and what it is when more bytes have come.
pub data IsStable (r : Reader) : Reader × Result (Option Frame) → Type 0 where
  short : (n : ℕ) → IsStable r (record r { wanted = n }, ok none)
  bad :
      (e : Error)
      → ((b : Bytes) → frame (more r b) ≡ (more (record r { wanted = 2 }) b, err e))
      → IsStable r (record r { wanted = 2 }, err e)
  whole :
      (rest : Bytes) (f : Frame)
      → length rest < length r.buffer
      → ((b : Bytes)
          → frame (more r b) ≡ (more (record r { buffer = rest; wanted = 0 }) b, ok (some f)))
      → IsStable r (record r { buffer = rest; wanted = 0 }, ok (some f))

drop-append_le : (n : ℕ) (xs ys : Bytes) → n ≤ length xs → drop n (xs ++ ys) ≡ drop n xs ++ ys
drop-append_le zero xs ys h = refl
drop-append_le (suc n) [] ys h = absurd (omega arith)
drop-append_le (suc n) (x ∷ xs) ys h = drop-append_le n xs ys (omega arith)

at-append_lt : (i : ℕ) (xs ys : Bytes) → i < length xs → at i (xs ++ ys) ≡ at i xs
at-append_lt i [] ys h = absurd (omega arith)
at-append_lt zero (x ∷ xs) ys h = refl
at-append_lt (suc i) (x ∷ xs) ys h = at-append_lt i xs ys (omega arith)

slice-append_le :
    (from to : ℕ) (xs ys : Bytes) → to ≤ length xs → slice from to (xs ++ ys) ≡ slice from to xs
slice-append_le from to xs ys h = ap (λ bytes. drop from bytes) (take-append_le to xs ys h)

not_ltb : (a b : ℕ) → ltb a b ≡ false → b ≤ a
not_ltb a b e = ground arith

pub not_short : (a b : ℕ) → b ≤ a → ltb a b ≡ false
not_short a b h = ground arith

payload_length-append :
    (size offset : ℕ) (buffer b : Bytes)
    → 2 ≤ length buffer
    → payload_length buffer ≡ sized size offset
    → payload_length (buffer ++ b) ≡ sized size offset
unfolding payload_length
payload_length-append size offset buffer b long e =
    let all = length-append buffer b in
    let code = at-append_lt 1 buffer b (omega arith) in
    elim (Bool-cases (at 1 buffer % 128 == 126)) [
      | inl c ↦ elim (Bool-cases (ltb (length buffer) 4)) [
        | inl l ↦ let never : need 4 ≡ sized size offset = rw (c, l) at e in absurd (cc never)
        | inr l ↦
            let at_least = not_ltb (length buffer) 4 l in
            let longer : ltb (length (buffer ++ b)) 4 ≡ false = not_short _ _ (omega arith) in
            let two = at-append_lt 2 buffer b (omega arith) in
            let three = at-append_lt 3 buffer b (omega arith) in
            rw (code, c, longer, two, three) (rw (c, l) at e)
      ]
      | inr c ↦ elim (Bool-cases (at 1 buffer % 128 == 127)) [
        | inl d ↦ elim (Bool-cases (ltb (length buffer) 10)) [
          | inl l ↦ let never : need 10 ≡ sized size offset = rw (c, d, l) at e in absurd (cc never)
          | inr l ↦
              let at_least = not_ltb (length buffer) 10 l in
              let longer : ltb (length (buffer ++ b)) 10 ≡ false = not_short _ _ (omega arith) in
              let eight = slice-append_le 2 10 buffer b (omega arith) in
              rw (code, c, d, longer, eight) (rw (c, d, l) at e)
        ]
        | inr d ↦ rw (code, c, d) (rw (c, d) at e)
      ]
    ]

split_frame-more :
    (r : Reader) (size offset : ℕ) (b : Bytes)
    → offset + 4 + size ≤ length r.buffer
    → split_frame (more r b) size offset
      ≡ (more (split_frame r size offset).0 b, (split_frame r size offset).1)
unfolding split_frame
split_frame-more r size offset b h =
    let mask = slice-append_le offset (offset + 4) r.buffer b (omega arith) in
    let rest = drop-append_le (offset + 4) r.buffer b (omega arith) in
    let left = length-drop (offset + 4) r.buffer in
    let payload = take-append_le size (drop (offset + 4) r.buffer) b (omega arith) in
    let after = drop-append_le size (drop (offset + 4) r.buffer) b (omega arith) in
    let high = at-append_lt 0 r.buffer b (omega arith) in rw (mask, rest, payload, after, high) refl

sized_frame-IsStable :
    (r : Reader) (size offset : ℕ)
    → 2 ≤ length r.buffer
    → ((b : Bytes) → frame (more r b) ≡ sized_frame (more r b) (sized size offset))
    → IsStable r (sized_frame r (sized size offset))
unfolding sized_frame split_frame
sized_frame-IsStable r size offset long same = elim (Bool-cases (ltb r.max_message size)) [
  | inl e ↦ rw (e) (bad (too_large (codes "frame too large")) (λ b. same b ∙ rw (e) refl))
  | inr e ↦ elim (Bool-cases (ltb (length r.buffer) (offset + 4 + size))) [
    | inl l ↦ rw (e, l) (short (offset + 4 + size))
    | inr l ↦
        rw (e, l)
          (whole (drop size (drop (offset + 4) r.buffer)) _ (shorter (not_ltb _ _ l)) (λ b.
            same b
            ∙ rw (e, longer b (not_ltb _ _ l)) (split_frame-more r size offset b (not_ltb _ _ l))))
  ]
]
  where
    shorter :
        offset + 4 + size ≤ length r.buffer
        → length (drop size (drop (offset + 4) r.buffer)) < length r.buffer
    shorter h =
        let outer = length-drop size (drop (offset + 4) r.buffer) in
        let inner = length-drop (offset + 4) r.buffer in omega (arith, outer, inner)

    longer :
        (b : Bytes)
        → offset + 4 + size ≤ length r.buffer
        → ltb (length (r.buffer ++ b)) (offset + 4 + size) ≡ false
    longer b h = not_short _ _ (omega (arith, length-append r.buffer b))

pub frame_headed :
    (r : Reader)
    → ltb (length r.buffer) 2 ≡ false
    → (at 0 r.buffer / 16 % 8 == 0) ≡ true
    → (at 1 r.buffer / 128 % 2 == 0) ≡ false
    → frame r ≡ sized_frame r (payload_length r.buffer)
unfolding frame
frame_headed r long plain masked = rw (long, plain, masked) refl

-- A frame with a good header.
headed-IsStable :
    (r : Reader) (l : Length)
    → 2 ≤ length r.buffer
    → (at 0 r.buffer / 16 % 8 == 0) ≡ true
    → (at 1 r.buffer / 128 % 2 == 0) ≡ false
    → payload_length r.buffer ≡ l
    → IsStable r (sized_frame r l)
unfolding sized_frame
headed-IsStable r (need n) long plain masked e = short n
headed-IsStable r (sized size offset) long plain masked e =
    sized_frame-IsStable r size offset long (λ b.
      let first = at-append_lt 0 r.buffer b (omega arith) in
      let second = at-append_lt 1 r.buffer b (omega arith) in
      frame_headed (more r b) (not_short _ _ (omega (arith, length-append r.buffer b)))
        (rw (first) plain) (rw (second) masked)
      ∙ ap (λ l. sized_frame (more r b) l) (payload_length-append size offset r.buffer b long e))

pub frame-IsStable : (r : Reader) → IsStable r (frame r)
unfolding frame
frame-IsStable r = elim (Bool-cases (ltb (length r.buffer) 2)) [
  | inl l ↦ rw (l) (short 2)
  | inr l ↦ elim (Bool-cases (at 0 r.buffer / 16 % 8 == 0)) [
    | inr e ↦
        rw (l, e) (bad _ (λ b. rw (longer b (not_ltb _ _ l), first b (not_ltb _ _ l), e) refl))
    | inl e ↦ elim (Bool-cases (at 1 r.buffer / 128 % 2 == 0)) [
      | inl m ↦
          rw (l, e, m)
            (bad _ (λ b.
              rw (longer b (not_ltb _ _ l), first b (not_ltb _ _ l), second b (not_ltb _ _ l), e, m)
                refl))
      | inr m ↦ rw (l, e, m) (headed-IsStable r _ (not_ltb _ _ l) e m refl)
    ]
  ]
]
  where
    longer : (b : Bytes) → 2 ≤ length r.buffer → ltb (length (r.buffer ++ b)) 2 ≡ false
    longer b h = not_short _ _ (omega (arith, length-append r.buffer b))

    first : (b : Bytes) → 2 ≤ length r.buffer → at 0 (r.buffer ++ b) ≡ at 0 r.buffer
    first b h = at-append_lt 0 r.buffer b (omega arith)

    second : (b : Bytes) → 2 ≤ length r.buffer → at 1 (r.buffer ++ b) ≡ at 1 r.buffer
    second b h = at-append_lt 1 r.buffer b (omega arith)
