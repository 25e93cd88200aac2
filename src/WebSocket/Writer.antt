-- ===== src/WebSocket/Writer.antt =====
-- Writing frames: `Writer` of crates/opentunnel-server/src/websocket.rs.
--
-- A connection is the list of what its writes return; a write that returns `n` took the first `n` bytes.
-- The flush after the last write is not modelled.
use opentunnel.Prelude.{
  ℕ, zero, suc, ◌+◌, ◌-◌, ◌/◌, ◌%◌, Bool, ◌||◌, ◌&&◌, not, Option, none, some, List, [], ◌∷◌, ◌++◌,
  ltb, leb, ◌==◌, min, if◌then◌else◌, Bytes, length, take, drop,
}
use opentunnel.Proxy.Parse.{at}
use opentunnel.Proxy.Write.{be16}
use opentunnel.WebSocket.Reader.{text_code, binary_code, close_code, pong_code}

-- `u64::to_be_bytes`.
abbrev pub be64 : ℕ → Bytes
be64 n =
    n / 72057594037927936 % 256
    ∷ n / 281474976710656 % 256
    ∷ n / 1099511627776 % 256
    ∷ n / 4294967296 % 256
    ∷ n / 16777216 % 256
    ∷ n / 65536 % 256
    ∷ n / 256 % 256
    ∷ n % 256
    ∷ []

-- `opcode` has four bits.
unfoldable pub header : ℕ → ℕ → Bytes
header opcode size =
    if ltb size 126
    then (128 + opcode) ∷ size ∷ []
    else if ltb size 65536
    then (128 + opcode) ∷ 126 ∷ be16 size
    else (128 + opcode) ∷ 127 ∷ be64 size

pub data Write : Type 0 where
  wrote : ℕ → Write
  write_failed : Write

pub data Outcome : Type 0 where
  done write_zero io_failed waiting : Outcome

abbrev pub concat : List Bytes → Bytes
concat [] = []
concat (slice ∷ slices) = slice ++ concat slices

-- `IoSlice::advance_slices`.
unfoldable pub advance_slices : ℕ → List Bytes → List Bytes
advance_slices n [] = []
advance_slices n (slice ∷ slices) =
    let rest = advance_slices (n - length slice) slices in
    if leb (length slice) n then rest else drop n slice ∷ slices

-- The bytes that were taken, and how it ended.
unfoldable pub write_loop : List Write → List Bytes → Bytes × Outcome
unfolding advance_slices
write_loop writes [] = ([], done)
write_loop [] (slice ∷ slices) = ([], waiting)
write_loop (write_failed ∷ writes) (slice ∷ slices) = ([], io_failed)
write_loop (wrote zero ∷ writes) (slice ∷ slices) = ([], write_zero)
write_loop (wrote (suc n) ∷ writes) (slice ∷ slices) =
    let (taken, outcome) = write_loop writes (advance_slices (suc n) (slice ∷ slices)) in
    (take (suc n) (concat (slice ∷ slices)) ++ taken, outcome)

unfoldable pub write_frame : List Write → ℕ → Bytes → Bytes → Bytes × Outcome
unfolding header write_loop advance_slices
write_frame writes opcode prefix payload =
    write_loop writes
      (advance_slices 0 (header opcode (length prefix + length payload) ∷ prefix ∷ payload ∷ []))

unfoldable pub write_text : List Write → Bytes → Bytes × Outcome
unfolding write_frame
write_text writes text = write_frame writes text_code [] text

unfoldable pub write_binary : List Write → Bytes → Bytes × Outcome
unfolding write_frame
write_binary writes data_ = write_frame writes binary_code [] data_

unfoldable pub write_pong : List Write → Bytes → Bytes × Outcome
unfolding write_frame
write_pong writes data_ = write_frame writes pong_code [] data_

-- `str::is_char_boundary`.
unfoldable pub is_char_boundary : Bytes → ℕ → Bool
is_char_boundary text i =
    i == 0 || i == length text || (ltb i (length text) && not (at i text / 64 == 2))

-- The end of a reason that is cut.
unfoldable pub cut : Bytes → ℕ → ℕ
unfolding is_char_boundary
cut reason zero = 0
cut reason (suc end) =
    let earlier = cut reason end in if is_char_boundary reason (suc end) then suc end else earlier

unfoldable pub close_payload : Option (ℕ × Bytes) → Bytes × Bytes
unfolding cut
close_payload none = ([], [])
close_payload (some (code, reason)) =
    (be16 code, take (cut reason (min (length reason) 123)) reason)

unfoldable pub write_close : List Write → Option (ℕ × Bytes) → Bytes × Outcome
unfolding close_payload write_frame
write_close writes closing =
    write_frame writes close_code (close_payload closing).0 (close_payload closing).1
