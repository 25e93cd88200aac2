-- ===== src/WebSocket/Sizes.antt =====
-- Lemmas on how much a reader assembles.
use opentunnel.Prelude.{
  ℕ, ◌+◌, ◌≤◌, ◌≡◌, inl, inr, refl, Bool-cases, Bool, false, ◌||◌, Option, none, some, [], ◌∷◌,
  Bytes, length, take, drop, arith, length-append, length-take, ltb, ◌==◌, ◌%◌, ◌/◌,
}
use opentunnel.Proxy.Parse.{at, slice}
use opentunnel.WebSocket.Unmask.{to_le, unmask_chunk, unmask}
use opentunnel.WebSocket.Unmask.Bytewise.{length-unmask_rest}
use opentunnel.WebSocket.Reader.{
  Reader, Frame, Message, text, binary, ping, pong, close, Result, ok, err, text_code, binary_code,
  continuation, Length, need, sized, payload_length, split_frame, sized_frame, frame, assembled,
}

-- Data within the limit, and 125 bytes for what is not data.
unfoldable pub IsSmall : ℕ → Message → Type 0
IsSmall limit (text data_) = length data_ ≤ limit
IsSmall limit (binary data_) = length data_ ≤ limit
IsSmall limit (ping data_) = length data_ ≤ 125
IsSmall limit (pong data_) = length data_ ≤ 125
IsSmall limit (close code) = Unit {0}

unfoldable pub IsPartial : ℕ → Option (Bool × Bytes) → Type 0
IsPartial limit none = Unit {0}
IsPartial limit (some (is_text, data_)) = length data_ ≤ limit

-- The incomplete message of a reader is within its limit.
abbrev pub IsWithin : ℕ → Reader → Type 0
IsWithin limit r = (r.max_message ≡ limit) × IsPartial limit r.partial

length-unmask : (mask payload : Bytes) → length (unmask mask payload) ≡ length payload
unfolding unmask unmask_chunk to_le
length-unmask mask [] = refl
length-unmask mask (a ∷ []) = length-unmask_rest 0 mask (a ∷ [])
length-unmask mask (a ∷ b ∷ []) = length-unmask_rest 0 mask (a ∷ b ∷ [])
length-unmask mask (a ∷ b ∷ c ∷ []) = length-unmask_rest 0 mask (a ∷ b ∷ c ∷ [])
length-unmask mask (a ∷ b ∷ c ∷ d ∷ []) = length-unmask_rest 0 mask (a ∷ b ∷ c ∷ d ∷ [])
length-unmask mask (a ∷ b ∷ c ∷ d ∷ e ∷ []) = length-unmask_rest 0 mask (a ∷ b ∷ c ∷ d ∷ e ∷ [])
length-unmask mask (a ∷ b ∷ c ∷ d ∷ e ∷ f ∷ []) =
    length-unmask_rest 0 mask (a ∷ b ∷ c ∷ d ∷ e ∷ f ∷ [])
length-unmask mask (a ∷ b ∷ c ∷ d ∷ e ∷ f ∷ g ∷ []) =
    length-unmask_rest 0 mask (a ∷ b ∷ c ∷ d ∷ e ∷ f ∷ g ∷ [])
length-unmask mask (a ∷ b ∷ c ∷ d ∷ e ∷ f ∷ g ∷ h ∷ rest) = omega (arith, length-unmask mask rest)

-- A frame's payload is within the limit.
abbrev pub Framed : ℕ → Reader × Result (Option Frame) → Type 0
Framed limit (r, err e) = IsWithin limit r
Framed limit (r, ok none) = IsWithin limit r
Framed limit (r, ok (some f)) = IsWithin limit r × (length f.payload ≤ limit)

sized_frame-Framed :
    (limit : ℕ) (r : Reader) (l : Length) → IsWithin limit r → Framed limit (sized_frame r l)
unfolding sized_frame split_frame
sized_frame-Framed limit r (need n) (m, p) = (m, p)
sized_frame-Framed limit r (sized size offset) (m, p) = elim (Bool-cases (ltb r.max_message size)) [
  | inl e ↦ rw (e) (m, p)
  | inr e ↦ elim (Bool-cases (ltb (length r.buffer) (offset + 4 + size))) [
    | inl l ↦ rw (e, l) (m, p)
    | inr l ↦ rw (e, l) ((m, p), within e)
  ]
]
  where
    within :
        ltb r.max_message size ≡ false
        → length
            (unmask (slice offset (offset + 4) r.buffer) (take size (drop (offset + 4) r.buffer)))
          ≤ limit
    within e =
        let masked =
          length-unmask (slice offset (offset + 4) r.buffer)
            (take size (drop (offset + 4) r.buffer)) in
        let taken = length-take size (drop (offset + 4) r.buffer) in
        let fits : size ≤ r.max_message = ground arith in omega (arith, masked, taken, fits, m)

pub frame-Framed : (limit : ℕ) (r : Reader) → IsWithin limit r → Framed limit (frame r)
unfolding frame
frame-Framed limit r (m, p) = elim (Bool-cases (ltb (length r.buffer) 2)) [
  | inl l ↦ rw (l) (m, p)
  | inr l ↦ elim (Bool-cases (at 0 r.buffer / 16 % 8 == 0)) [
    | inr e ↦ rw (l, e) (m, p)
    | inl e ↦ elim (Bool-cases (at 1 r.buffer / 128 % 2 == 0)) [
      | inl c ↦ rw (l, e, c) (m, p)
      | inr c ↦ rw (l, e, c) (sized_frame-Framed limit r (payload_length r.buffer) (m, p))
    ]
  ]
]

-- Data that is put together.
abbrev pub Joined : ℕ → Result (Bool × Bytes) → Type 0
Joined limit (err e) = Unit {0}
Joined limit (ok (is_text, data_)) = length data_ ≤ limit

pub assembled-Joined :
    (limit : ℕ) (f : Frame) (p : Option (Bool × Bytes))
    → length f.payload ≤ limit
    → Joined limit (assembled limit f p)
unfolding assembled
assembled-Joined limit f none h =
    elim (Bool-cases (f.opcode == text_code || f.opcode == binary_code)) [
      | inl e ↦ rw (e) h
      | inr e ↦ elim (Bool-cases (f.opcode == continuation)) [
        | inl c ↦ rw (e, c) tt
        | inr c ↦ rw (e, c) tt
      ]
    ]
assembled-Joined limit f (some (is_text, data_)) h = elim (Bool-cases (f.opcode == continuation)) [
  | inl c ↦ elim (Bool-cases (ltb limit (length data_ + length f.payload))) [
    | inl e ↦ rw (c, e) tt
    | inr e ↦
        rw (c, e)
          (let fits : length data_ + length f.payload ≤ limit = ground arith in
            omega (arith, length-append data_ f.payload, fits))
  ]
  | inr c ↦ elim (Bool-cases (f.opcode == text_code || f.opcode == binary_code)) [
    | inl e ↦ rw (c, e) tt
    | inr e ↦ rw (c, e) tt
  ]
]
