-- ===== src/WebSocket/Reader.antt =====
-- Reading messages: `Reader` of crates/opentunnel-server/src/websocket.rs.
--
-- `from_utf8` tells whether bytes are a text. A connection is the list of what its reads return; numbers of 64
-- bits are not shortened, as `usize` has as many.
use opentunnel.Prelude.{
  ℕ, zero, suc, ◌+◌, ◌*◌, ◌/◌, ◌%◌, Bool, true, false, not, ◌&&◌, ◌||◌, Option, none, some, [], ◌∷◌,
  ◌++◌, ltb, leb, ◌==◌, if◌then◌else◌, Bytes, codes, length, take, drop,
}
use opentunnel.Proxy.Parse.{at, slice, from_be16}
use opentunnel.WebSocket.Unmask.{unmask}

abbrev pub continuation : ℕ
continuation = 0

abbrev pub text_code : ℕ
text_code = 1

abbrev pub binary_code : ℕ
binary_code = 2

abbrev pub close_code : ℕ
close_code = 8

abbrev pub ping_code : ℕ
ping_code = 9

abbrev pub pong_code : ℕ
pong_code = 10

pub data Message : Type 0 where
  text binary ping pong : Bytes → Message
  close : ℕ → Message

-- Without the errors of the connection, which `Next` has.
pub data Error : Type 0 where
  protocol too_large : Bytes → Error

pub data Result (A : Type 0) : Type 0 where
  ok : A → Result A
  err : Error → Result A

pub record Frame : Type 0 where
  pub fin : Bool
  pub opcode : ℕ
  pub payload : Bytes

pub record Reader : Type 0 where
  pub buffer : Bytes
  pub wanted : ℕ
  pub max_message : ℕ
  pub partial : Option (Bool × Bytes)

-- `u64::from_be_bytes`, from what is read so far.
unfoldable pub from_be : ℕ → Bytes → ℕ
from_be n [] = n
from_be n (byte ∷ bytes) = from_be (n * 256 + byte) bytes

-- The payload's length and where the mask is, or how many bytes that takes.
pub data Length : Type 0 where
  need : ℕ → Length
  sized : ℕ → ℕ → Length

unfoldable pub payload_length : Bytes → Length
unfolding from_be
payload_length buffer =
    let short = at 1 buffer % 128 in
    if short == 126 && ltb (length buffer) 4
    then need 4
    else if short == 126
    then sized (from_be16 (at 2 buffer) (at 3 buffer)) 4
    else if short == 127 && ltb (length buffer) 10
    then need 10
    else if short == 127
    then sized (from_be 0 (slice 2 10 buffer)) 10
    else sized short 2

-- The frame that is complete, split off.
unfoldable pub split_frame : Reader → ℕ → ℕ → Reader × Result (Option Frame)
unfolding unmask
split_frame r size offset =
    let mask = slice offset (offset + 4) r.buffer in
    let rest = drop (offset + 4) r.buffer in
    (
      record r { buffer = drop size rest; wanted = 0 },
      ok (
          some (record {
            fin = at 0 r.buffer / 128 % 2 == 1;
            opcode = at 0 r.buffer % 16;
            payload = unmask mask (take size rest);
          })),
    )

unfoldable pub sized_frame : Reader → Length → Reader × Result (Option Frame)
unfolding split_frame
sized_frame r (need n) = (record r { wanted = n }, ok none)
sized_frame r (sized size offset) =
    if ltb r.max_message size
    then (record r { wanted = 2 }, err (too_large (codes "frame too large")))
    else if ltb (length r.buffer) (offset + 4 + size)
    then (record r { wanted = offset + 4 + size }, ok none)
    else split_frame r size offset

unfoldable pub frame : Reader → Reader × Result (Option Frame)
unfolding payload_length sized_frame
frame r =
    if ltb (length r.buffer) 2
    then (record r { wanted = 2 }, ok none)
    else if not (at 0 r.buffer / 16 % 8 == 0)
    then (record r { wanted = 2 }, err (protocol (codes "reserved bits set")))
    else if at 1 r.buffer / 128 % 2 == 0
    then (record r { wanted = 2 }, err (protocol (codes "unmasked client frame")))
    else sized_frame r (payload_length r.buffer)

-- A data frame with what came before it: whether it is a text, and its data.
unfoldable pub assembled : ℕ → Frame → Option (Bool × Bytes) → Result (Bool × Bytes)
assembled max_message f none =
    if f.opcode == text_code || f.opcode == binary_code
    then ok (f.opcode == text_code, f.payload)
    else if f.opcode == continuation
    then err (protocol (codes "unexpected continuation"))
    else err (protocol (codes "unknown opcode"))
assembled max_message f (some (is_text, data_)) =
    if f.opcode == continuation
    then (if ltb max_message (length data_ + length f.payload)
        then err (too_large (codes "message too large"))
        else ok (is_text, data_ ++ f.payload))
    else if f.opcode == text_code || f.opcode == binary_code
    then err (protocol (codes "expected a continuation"))
    else err (protocol (codes "unknown opcode"))

module _ (from_utf8 : Bytes → Bool) where
  unfoldable pub close_message : Bytes → Result Message
  close_message [] = ok (close 1005)
  close_message (byte ∷ []) = err (protocol (codes "invalid close frame"))
  close_message (high ∷ low ∷ reason) =
      if not (from_utf8 reason)
      then err (protocol (codes "invalid close reason"))
      else ok (close (from_be16 high low))

  unfoldable pub control : Frame → Result Message
  unfolding close_message
  control f =
      if not f.fin || ltb 125 (length f.payload)
      then err (protocol (codes "invalid control frame"))
      else if f.opcode == close_code
      then close_message f.payload
      else if f.opcode == ping_code
      then ok (ping f.payload)
      else if f.opcode == pong_code
      then ok (pong f.payload)
      else err (protocol (codes "unknown opcode"))

  unfoldable pub completed : Bool → Bytes → Result Message
  completed true data_ =
      if from_utf8 data_ then ok (text data_) else err (protocol (codes "text is not UTF-8"))
  completed false data_ = ok (binary data_)

  unfoldable pub found : Result Message → Result (Option Message)
  found (ok message) = ok (some message)
  found (err e) = err e

  unfoldable pub joined :
      (Reader → Reader × Result (Option Message))
      → Reader
      → Bool
      → Result (Bool × Bytes)
      → Reader × Result (Option Message)
  unfolding completed found
  joined go_on r fin (err e) = (record r { partial = none }, err e)
  joined go_on r true (ok (is_text, data_)) =
      (record r { partial = none }, found (completed is_text data_))
  joined go_on r false (ok (is_text, data_)) = go_on (record r { partial = some (is_text, data_) })

  -- One round of the loop, which goes on after a frame that a message continues.
  unfoldable pub round :
      (Reader → Reader × Result (Option Message))
      → Reader × Result (Option Frame)
      → Reader × Result (Option Message)
  unfolding control found joined assembled
  round go_on (r, err e) = (r, err e)
  round go_on (r, ok none) = (r, ok none)
  round go_on (r, ok (some f)) = elim (leb close_code f.opcode) [
    | true ↦ (r, found (control f))
    | false ↦ joined go_on r f.fin (assembled r.max_message f r.partial)
  ]

  -- On fuel: each round takes a frame off the buffer.
  unfoldable pub parse_loop : ℕ → Reader → Reader × Result (Option Message)
  unfolding round frame
  parse_loop zero r = (r, ok none)
  parse_loop (suc fuel) r = round (λ r'. parse_loop fuel r') (frame r)

  unfoldable pub parse : Reader → Reader × Result (Option Message)
  unfolding parse_loop
  parse r = parse_loop (length r.buffer + 1) r
