-- ===== src/WebSocket/Tests.antt =====
-- Runs and instances of the statements about a bridge's WebSocket.
use opentunnel.WebSocket.Writer.{header, wrote, done, cut, write_pong, write_frame}
use opentunnel.WebSocket.Sent.{IsSent, write_frame-IsSent}
use opentunnel.Prelude.{
  ◌≡◌, refl, Bool, true, none, some, List, [], ◌∷◌, ◌++◌, Bytes, codes, arith, All, ltb, ltb→lt,
  &&_true, ◌&&◌, zero, suc, length, ℕ,
}
use opentunnel.WebSocket.Unmask.{unmask, unmask_rest}
use opentunnel.WebSocket.Unmask.Words.{IsMask, IsByte}
use opentunnel.WebSocket.Unmask.Bytewise.{unmask-unmask_rest}
use opentunnel.WebSocket.Reader.{
  Reader, Frame, text, ok, frame, parse, protocol, payload_length, sized,
}
use opentunnel.WebSocket.Connection.{Read, received, arrived, broken, waiting, next}
use opentunnel.WebSocket.Stable.{more}
use opentunnel.WebSocket.Divided.{arrived_bytes, Answers, next-Answers}
use opentunnel.WebSocket.Sizes.{IsPartial}
use opentunnel.WebSocket.Bounded.{NextSmall, next-NextSmall}
use opentunnel.WebSocket.Masked.{client_frame, frame-client_frame}

abbrev all_bytes : Bytes → Bool
all_bytes [] = true
all_bytes (byte ∷ rest) = ltb byte 256 && all_bytes rest

all_bytes-IsByte : (bytes : Bytes) → all_bytes bytes ≡ true → All IsByte bytes
all_bytes-IsByte [] e = tt
all_bytes-IsByte (byte ∷ rest) e =
    let (first, others) = &&_true (ltb byte 256) (all_bytes rest) e in
    (ltb→lt byte 256 first, all_bytes-IsByte rest others)

abbrev repeat : ℕ → ℕ → Bytes
repeat zero byte = []
repeat (suc n) byte = byte ∷ repeat n byte

abbrev mask : Bytes
mask = 55 ∷ 250 ∷ 33 ∷ 61 ∷ []

mask-IsMask : IsMask mask
mask-IsMask = record { four = refl; bytes = all_bytes-IsByte mask refl }

abbrev greeting : Frame
greeting = record { fin = true; opcode = 1; payload = codes "hi" }

abbrev start : Reader
start = record { buffer = []; wanted = 0; max_message = 20; partial = none }

abbrev is_text : Bytes → Bool
is_text bytes = true

abbrev half : Bytes
half = 129 ∷ 130 ∷ 55 ∷ []

abbrev other_half : Bytes
other_half = 250 ∷ 33 ∷ 61 ∷ 95 ∷ 147 ∷ 137 ∷ []

abbrev reads : List Read
reads = received half ∷ received other_half ∷ []

greeting_sent : client_frame mask greeting ≡ 129 ∷ 130 ∷ 55 ∷ 250 ∷ 33 ∷ 61 ∷ 95 ∷ 147 ∷ []
unfolding client_frame
greeting_sent = refl

-- A message in two reads, of which the second has one byte more.
greeting_arrives :
    next is_text reads start
    ≡ (record start { buffer = 137 ∷ [] }, ([], arrived (text (codes "hi"))))
unfolding next
greeting_arrives = refl

half_waits : (next is_text (received half ∷ []) start).1 ≡ ([], waiting)
unfolding next
half_waits = refl

unmasked_refused :
    (next is_text (received (129 ∷ 2 ∷ 104 ∷ 105 ∷ []) ∷ []) start).1
    ≡ ([], broken (protocol (codes "unmasked client frame")))
unfolding next
unmasked_refused = refl

unmask-unmask_rest_example :
    unmask mask (codes "opentunnel") ≡ unmask_rest 0 mask (codes "opentunnel")
unmask-unmask_rest_example =
    unmask-unmask_rest mask (codes "opentunnel") mask-IsMask
      (all_bytes-IsByte (codes "opentunnel") refl)

frame-client_frame_example :
    frame (more start (client_frame mask greeting ++ 137 ∷ []))
    ≡ (record start { buffer = 137 ∷ [] }, ok (some greeting))
frame-client_frame_example =
    frame-client_frame (more start (client_frame mask greeting ++ 137 ∷ [])) mask (137 ∷ [])
      greeting refl mask-IsMask (all_bytes-IsByte (codes "hi") refl) (omega arith) (omega arith)
      (omega arith)

next-Answers_example :
    Answers (parse is_text (more start (arrived_bytes reads))) (next is_text reads start)
next-Answers_example = next-Answers is_text reads start

next-NextSmall_example : NextSmall 20 (next is_text reads start)
unfolding IsPartial
next-NextSmall_example = next-NextSmall is_text 20 reads start (refl, tt)

-- A pong that the connection takes in two parts.
pong_written : write_pong (wrote 3 ∷ wrote 1 ∷ []) (codes "hi") ≡ (138 ∷ 2 ∷ 104 ∷ 105 ∷ [], done)
unfolding write_pong
pong_written = refl

-- A reason of 124 bytes, of which the last two are one character.
reason_cut : cut (repeat 122 97 ++ 195 ∷ 169 ∷ []) 123 ≡ 122
unfolding cut
reason_cut = refl

write_frame-IsSent_example :
    IsSent (header 1 2 ++ ([] ++ codes "hi")) (write_frame (wrote 3 ∷ []) 1 [] (codes "hi"))
    × payload_length (header 1 2 ++ ([] ++ codes "hi")) ≡ sized 2 (length (header 1 2))
write_frame-IsSent_example = write_frame-IsSent (wrote 3 ∷ []) 1 [] (codes "hi") (omega arith)
