-- ===== src/WebSocket/Masked.antt =====
-- Lemmas on `frame`: the frames that a client sends, as RFC 6455 has them.
use opentunnel.WebSocket.Writer.{be64}
use opentunnel.Prelude.{
  ℕ, ◌+◌, ◌/◌, ◌%◌, ◌^◌, ◌<◌, ◌≡◌, refl, Bool, true, false, some, [], ◌∷◌, ◌++◌, Bytes, All, length,
  take, drop, ltb, ◌==◌, if◌then◌else◌, arith, length-append, take-append_length,
  drop-append_length, append_assoc, Bool-cases, inl, inr, ltb→lt, ◌∙◌, ◌≤◌, ◌*◌, ap,
}
use opentunnel.Proxy.Parse.{at, slice}
use opentunnel.WebSocket.Unmask.{unmask_rest}
use opentunnel.WebSocket.Stable.{frame_headed, not_short}
use opentunnel.WebSocket.Unmask.Words.{IsByte, IsMask}
use opentunnel.WebSocket.Unmask.Bytewise.{length-unmask_rest, unmask_masked}
use opentunnel.WebSocket.Reader.{
  Reader, Frame, ok, from_be, split_frame, payload_length, sized_frame, frame, sized,
}

abbrev pub first_byte : Bool → ℕ → ℕ
first_byte true opcode = 128 + opcode
first_byte false opcode = opcode

-- The length of a payload, in the shortest form.
abbrev pub length_bytes : ℕ → Bytes
length_bytes n =
    if ltb n 126
    then (128 + n) ∷ []
    else if ltb n 65536
    then (254 ∷ n / 256 % 256 ∷ n % 256 ∷ [])
    else (255 ∷ be64 n)

-- A frame as a client sends it, with its payload masked byte by byte.
unfoldable pub client_frame : Bytes → Frame → Bytes
unfolding unmask_rest
client_frame mask f =
    (first_byte f.fin f.opcode ∷ length_bytes (length f.payload))
    ++ mask
    ++ unmask_rest 0 mask f.payload

pub from_be-be64 : (n : ℕ) → n < 2 ^ 64 → from_be 0 (be64 n) ≡ n
unfolding from_be
from_be-be64 n h = omega arith

-- A frame in the buffer, of which the length was read.
split_masked :
    (r : Reader) (head mask payload rest : Bytes)
    → r.buffer ≡ (head ++ mask) ++ (unmask_rest 0 mask payload ++ rest)
    → IsMask mask
    → All IsByte payload
    → split_frame r (length payload) (length head) ≡ (
      record r { buffer = rest; wanted = 0 },
      ok (
          some (record {
            fin = at 0 r.buffer / 128 % 2 == 1;
            opcode = at 0 r.buffer % 16;
            payload = payload;
          })),
    )
unfolding split_frame
split_masked r head mask payload rest e m v =
    let size : length (head ++ mask) ≡ length head + 4 =
      omega (arith, length-append head mask, m.four) in
    let all = length-unmask_rest 0 mask payload in
    let body = unmask_rest 0 mask payload ++ rest in
    let masks : slice (length head) (length head + 4) r.buffer ≡ mask =
      rw (e, ← size, take-append_length (head ++ mask) body) (drop-append_length head mask) in
    let bodies : drop (length head + 4) r.buffer ≡ body =
      rw (e, ← size) (drop-append_length (head ++ mask) body) in
    let payloads : take (length payload) body ≡ unmask_rest 0 mask payload =
      rw (← all) (take-append_length (unmask_rest 0 mask payload) rest) in
    let rests : drop (length payload) body ≡ rest =
      rw (← all) (drop-append_length (unmask_rest 0 mask payload) rest) in
    rw (masks, bodies, payloads, rests, unmask_masked mask payload m v) refl

-- The head of a frame with its length.
IsHead : ℕ → Bytes → Type 0
IsHead n head =
    (tail : Bytes)
    → ltb (length (head ++ tail)) 2 ≡ false
      × (at 1 (head ++ tail) / 128 % 2 == 0) ≡ false
      × payload_length (head ++ tail) ≡ sized n (length head)

pub long_enough :
    (head tail : Bytes) (k : ℕ) → k ≤ length head → ltb (length (head ++ tail)) k ≡ false
long_enough head tail k h = not_short _ _ (omega (arith, length-append head tail))

short-IsHead : (first n : ℕ) → n < 126 → IsHead n (first ∷ (128 + n) ∷ [])
unfolding IsHead payload_length
short-IsHead first n h tail =
    let masked : ((128 + n) / 128 % 2 == 0) ≡ false = ground arith in
    let code : (128 + n) % 128 ≡ n = omega arith in
    let no_two : (n == 126) ≡ false = ground arith in
    let no_eight : (n == 127) ≡ false = ground arith in
    (
      long_enough (first ∷ (128 + n) ∷ []) tail 2 (omega arith),
      masked,
      rw (code, no_two, no_eight) refl,
    )

medium-IsHead : (first n : ℕ) → n < 65536 → IsHead n (first ∷ 254 ∷ n / 256 % 256 ∷ n % 256 ∷ [])
unfolding IsHead payload_length
medium-IsHead first n h tail =
    let head : Bytes = first ∷ 254 ∷ n / 256 % 256 ∷ n % 256 ∷ [] in
    let value : n / 256 % 256 * 256 + n % 256 ≡ n = omega arith in
    (
      long_enough head tail 2 (omega arith),
      refl,
      rw (long_enough head tail 4 (omega arith), value) refl,
    )

long-IsHead : (first n : ℕ) → n < 2 ^ 64 → IsHead n (first ∷ 255 ∷ be64 n)
unfolding IsHead payload_length
long-IsHead first n h tail =
    let head : Bytes = first ∷ 255 ∷ be64 n in
    (
      long_enough head tail 2 (omega arith),
      refl,
      rw (long_enough head tail 10 (omega arith), from_be-be64 n h) refl,
    )

length_bytes-IsHead : (first n : ℕ) → n < 2 ^ 64 → IsHead n (first ∷ length_bytes n)
length_bytes-IsHead first n h = elim (Bool-cases (ltb n 126)) [
  | inl e ↦ rw (e) (short-IsHead first n (ltb→lt n 126 e))
  | inr e ↦ elim (Bool-cases (ltb n 65536)) [
    | inl m ↦ rw (e, m) (medium-IsHead first n (ltb→lt n 65536 m))
    | inr m ↦ rw (e, m) (long-IsHead first n h)
  ]
]

first-bits :
    (fin : Bool) (opcode : ℕ)
    → opcode < 16
    → ((first_byte fin opcode / 16 % 8 == 0) ≡ true)
      × ((first_byte fin opcode / 128 % 2 == 1) ≡ fin)
      × (first_byte fin opcode % 16 ≡ opcode)
first-bits true opcode h = (ground arith, ground arith, omega arith)
first-bits false opcode h = (ground arith, ground arith, omega arith)

-- A client's frame at the front of the buffer, masked with four bytes, is read as it was sent and leaves what
-- follows it, where its opcode is below 16 and its payload holds bytes, at most as many as the limit and fewer
-- than 2 ^ 64.
pub frame-client_frame :
    (r : Reader) (mask rest : Bytes) (f : Frame)
    → r.buffer ≡ client_frame mask f ++ rest
    → IsMask mask
    → All IsByte f.payload
    → f.opcode < 16
    → length f.payload ≤ r.max_message
    → length f.payload < 2 ^ 64
    → frame r ≡ (record r { buffer = rest; wanted = 0 }, ok (some f))
unfolding client_frame sized_frame IsHead
frame-client_frame r mask rest f e m v code fits short =
    let head : Bytes = first_byte f.fin f.opcode ∷ length_bytes (length f.payload) in
    let body : Bytes = unmask_rest 0 mask f.payload in
    let tail : Bytes = mask ++ (body ++ rest) in
    let divided : r.buffer ≡ (head ++ mask) ++ (body ++ rest) =
      e ∙ append_assoc (head ++ mask) body rest in
    let headed : r.buffer ≡ head ++ tail = divided ∙ append_assoc head mask (body ++ rest) in
    let (bits, fin, opcode) = first-bits f.fin f.opcode code in
    let (long, masked, size) =
      length_bytes-IsHead (first_byte f.fin f.opcode) (length f.payload) short tail in
    let within : ltb r.max_message (length f.payload) ≡ false = ground arith in
    let whole : ltb (length r.buffer) (length head + 4 + length f.payload) ≡ false = not_short _ _ (
      omega (
        arith,
        ap (λ b. length b) divided,
        length-append (head ++ mask) (body ++ rest),
        length-append head mask,
        length-append body rest,
        length-unmask_rest 0 mask f.payload,
        m.four,
      )) in
    let sizes : payload_length r.buffer ≡ sized (length f.payload) (length head) =
      rw (headed) size in
    frame_headed r (rw (headed) long) (rw (headed) bits) (rw (headed) masked)
    ∙ ap (λ l. sized_frame r l) sizes
    ∙ rw (within, whole)
        (split_masked r head mask f.payload rest divided m v ∙ rw (headed, fin, opcode) refl)
