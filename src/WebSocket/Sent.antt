-- ===== src/WebSocket/Sent.antt =====
-- Lemmas on what a client gets of a frame that is written.
use opentunnel.Prelude.{
  ℕ, zero, suc, ◌+◌, ◌-◌, ◌%◌, ◌^◌, ◌<◌, ◌≤◌, ◌≡◌, refl, sym, ap, ◌∙◌, inl, inr, Bool-cases, false,
  List, [], ◌∷◌, ◌++◌, Bytes, length, take, drop, ltb, leb, ltb→lt, arith, append_assoc, append-nil,
  length-append, take-append-drop, ◌*◌, ◌/◌, ◌==◌, subst,
}
use opentunnel.WebSocket.Reader.{payload_length, sized}
use opentunnel.WebSocket.Masked.{from_be-be64, long_enough}
use opentunnel.WebSocket.Writer.{
  be64, header, Write, wrote, write_failed, Outcome, done, concat, advance_slices, write_loop,
  write_frame,
}

-- What was taken and what is left are the whole, and nothing is left when it is done.
unfoldable pub IsSent : Bytes → Bytes × Outcome → Type 0
IsSent whole (taken, outcome) =
    (left : Bytes) × (taken ++ left ≡ whole) × (outcome ≡ done → left ≡ [])

drop_beyond : (n : ℕ) (xs ys : Bytes) → length xs ≤ n → drop n (xs ++ ys) ≡ drop (n - length xs) ys
drop_beyond n [] ys h = let same : n - 0 ≡ n = omega arith in rw (same) refl
drop_beyond zero (x ∷ xs) ys h = absurd (omega arith)
drop_beyond (suc n) (x ∷ xs) ys h =
    let same : suc n - suc (length xs) ≡ n - length xs = omega arith in
    rw (same) (drop_beyond n xs ys (omega arith))

drop_within : (n : ℕ) (xs ys : Bytes) → n < length xs → drop n (xs ++ ys) ≡ drop n xs ++ ys
drop_within n [] ys h = absurd (omega arith)
drop_within zero (x ∷ xs) ys h = refl
drop_within (suc n) (x ∷ xs) ys h = drop_within n xs ys (omega arith)

concat-advance_slices :
    (n : ℕ) (slices : List Bytes) → concat (advance_slices n slices) ≡ drop n (concat slices)
unfolding advance_slices
concat-advance_slices zero [] = refl
concat-advance_slices (suc n) [] = refl
concat-advance_slices n (slice ∷ slices) = elim (Bool-cases (leb (length slice) n)) [
  | inl e ↦ rw (e) (
      concat-advance_slices (n - length slice) slices
      ∙ sym (drop_beyond n slice (concat slices) (ground arith)))
  | inr e ↦ rw (e) (sym (drop_within n slice (concat slices) (ground arith)))
]

write_loop-IsSent :
    (writes : List Write) (slices : List Bytes) → IsSent (concat slices) (write_loop writes slices)
unfolding IsSent write_loop
write_loop-IsSent writes [] = ([], refl, λ e. refl)
write_loop-IsSent [] (slice ∷ slices) = (concat (slice ∷ slices), refl, λ e. absurd (cc e))
write_loop-IsSent (write_failed ∷ writes) (slice ∷ slices) =
    (concat (slice ∷ slices), refl, λ e. absurd (cc e))
write_loop-IsSent (wrote zero ∷ writes) (slice ∷ slices) =
    (concat (slice ∷ slices), refl, λ e. absurd (cc e))
write_loop-IsSent (wrote (suc n) ∷ writes) (slice ∷ slices) =
    let all : List Bytes = slice ∷ slices in
    let (left, whole, last) = write_loop-IsSent writes (advance_slices (suc n) all) in
    (
      left,
      append_assoc (take (suc n) (concat all)) _ left
          ∙ ap (λ rest. take (suc n) (concat all) ++ rest)
              (whole ∙ concat-advance_slices (suc n) all)
          ∙ take-append-drop (suc n) (concat all),
      last,
    )

header-payload_length :
    (opcode size : ℕ) (tail : Bytes)
    → size < 2 ^ 64
    → payload_length (header opcode size ++ tail) ≡ sized size (length (header opcode size))
unfolding header payload_length
header-payload_length opcode size tail h = elim (Bool-cases (ltb size 126)) [
  | inl e ↦ rw (e) (short (ltb→lt size 126 e))
  | inr e ↦ elim (Bool-cases (ltb size 65536)) [
    | inl m ↦ rw (e, m) (medium (ltb→lt size 65536 m))
    | inr m ↦ rw (e, m) long
  ]
]
  where
    short : size < 126 → payload_length ((128 + opcode) ∷ size ∷ tail) ≡ sized size 2
    short less =
        let code : size % 128 ≡ size = omega arith in
        let no_two : (size == 126) ≡ false = ground arith in
        let no_eight : (size == 127) ≡ false = ground arith in
        unfold payload_length in rw (code, no_two, no_eight) refl

    medium :
        size < 65536
        → payload_length ((128 + opcode) ∷ 126 ∷ size / 256 % 256 ∷ size % 256 ∷ tail)
          ≡ sized size 4
    medium less =
        let value : size / 256 % 256 * 256 + size % 256 ≡ size = omega arith in
        let enough =
          long_enough ((128 + opcode) ∷ 126 ∷ size / 256 % 256 ∷ size % 256 ∷ []) tail 4
            (omega arith) in
        unfold payload_length in rw (enough, value) refl

    long : payload_length ((128 + opcode) ∷ 127 ∷ be64 size ++ tail) ≡ sized size 10
    long =
        let enough = long_enough ((128 + opcode) ∷ 127 ∷ be64 size) tail 10 (omega arith) in
        unfold payload_length in rw (enough, from_be-be64 size h) refl

-- However the connection takes a frame that is written, what it took and something more are the header, the
-- prefix and the payload, with nothing more when the write is done; and the length in the header is that of the
-- prefix and the payload, where that is below 2 ^ 64.
pub write_frame-IsSent :
    (writes : List Write) (opcode : ℕ) (prefix payload : Bytes)
    → length prefix + length payload < 2 ^ 64
    → IsSent
        (header opcode (length prefix + length payload) ++ (prefix ++ payload))
        (write_frame writes opcode prefix payload)
      × payload_length (header opcode (length prefix + length payload) ++ (prefix ++ payload))
        ≡ sized
            (length (prefix ++ payload))
            (length (header opcode (length prefix + length payload)))
unfolding write_frame
write_frame-IsSent writes opcode prefix payload h = (
  subst (λ whole. IsSent whole (write_frame writes opcode prefix payload))
      (concat-advance_slices 0 slices ∙ ap (λ rest. head ++ (prefix ++ rest)) (append-nil payload))
      (write_loop-IsSent writes (advance_slices 0 slices)),
  rw (length-append prefix payload)
      (header-payload_length opcode (length prefix + length payload) (prefix ++ payload) h),
)
  where
    head : Bytes
    head = header opcode (length prefix + length payload)

    slices : List Bytes
    slices = head ∷ prefix ∷ payload ∷ []
