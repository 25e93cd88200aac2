-- ===== src/WebSocket/Connection.antt =====
-- The next message of a connection: `Reader::next` of crates/opentunnel-server/src/websocket.rs.
use opentunnel.Prelude.{Option, none, some, List, [], ◌∷◌, ◌++◌, Bytes, Bool}
use opentunnel.WebSocket.Reader.{Reader, Message, Error, Result, ok, err, parse}

-- What a read returns: bytes, none at the end of the connection, or an error.
pub data Read : Type 0 where
  received : Bytes → Read
  failed : Read

pub data Next : Type 0 where
  arrived : Message → Next
  broken : Error → Next
  ended io_failed waiting : Next

-- The answer of `parse`, or what a read brings.
unfoldable pub answered :
    List Read
    → (Reader → Reader × (List Read × Next))
    → Reader × Result (Option Message)
    → Reader × (List Read × Next)
answered reads go_on (r, err e) = (r, (reads, broken e))
answered reads go_on (r, ok (some message)) = (r, (reads, arrived message))
answered reads go_on (r, ok none) = go_on r

module _ (from_utf8 : Bytes → Bool) where
  -- With the reads that are left; `waiting` where none is left yet.
  unfoldable pub next : List Read → Reader → Reader × (List Read × Next)
  unfolding answered parse
  next [] r = answered [] (λ r'. (r', ([], waiting))) (parse from_utf8 r)
  next (failed ∷ reads) r =
      answered (failed ∷ reads) (λ r'. (r', (reads, io_failed))) (parse from_utf8 r)
  next (received [] ∷ reads) r =
      answered (received [] ∷ reads) (λ r'. (r', (reads, ended))) (parse from_utf8 r)
  next (received (byte ∷ bytes) ∷ reads) r =
      answered (received (byte ∷ bytes) ∷ reads)
        (λ r'. next reads (record r' { buffer = r'.buffer ++ byte ∷ bytes })) (parse from_utf8 r)
