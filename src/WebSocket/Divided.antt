-- ===== src/WebSocket/Divided.antt =====
-- Lemmas on `next`: how the bytes are divided into reads.
use opentunnel.Prelude.{
  ◌+◌, ◌≡◌, refl, sym, ap, subst, ◌∙◌, Bool, Option, none, some, List, [], ◌∷◌, ◌++◌, Bytes, length,
  arith, append-nil, append_assoc,
}
use opentunnel.WebSocket.Reader.{Reader, Message, Result, ok, err, parse}
use opentunnel.WebSocket.Connection.{
  Read, received, failed, Next, arrived, broken, ended, io_failed, waiting, answered, next,
}
use opentunnel.WebSocket.Stable.{more}
use opentunnel.WebSocket.Loop.{Later, parse_loop-Later}

-- All bytes that arrive before the connection ends or fails.
unfoldable pub arrived_bytes : List Read → Bytes
arrived_bytes [] = []
arrived_bytes (failed ∷ reads) = []
arrived_bytes (received [] ∷ reads) = []
arrived_bytes (received (byte ∷ bytes) ∷ reads) = byte ∷ bytes ++ arrived_bytes reads

-- What is read at once gives the message or the error, and the rest; or there is no message in it.
unfoldable pub Answers : Reader × Result (Option Message) → Reader × (List Read × Next) → Type 0
unfolding arrived_bytes
Answers whole (r, (left, arrived message)) =
    whole ≡ (more r (arrived_bytes left), ok (some message))
Answers whole (r, (left, broken e)) = whole ≡ (more r (arrived_bytes left), err e)
Answers whole (r, (left, _)) = whole.1 ≡ ok none

module _ (from_utf8 : Bytes → Bool) where
  stopped-Answers :
      (reads left : List Read) (r : Reader) (answer : Next)
      (found : Reader × Result (Option Message))
      → arrived_bytes reads ≡ []
      → ((whole : Reader × Result (Option Message)) (r' : Reader)
          → whole.1 ≡ ok none
          → Answers whole (r', (left, answer)))
      → Answers found (answered reads (λ r'. (r', (left, answer))) found)
  unfolding Answers answered
  stopped-Answers reads left r answer (r', err e) empty last = rw (empty, append-nil r'.buffer) refl
  stopped-Answers reads left r answer (r', ok (some message)) empty last =
      rw (empty, append-nil r'.buffer) refl
  stopped-Answers reads left r answer (r', ok none) empty last = last _ r' refl

  go_on-Answers :
      (reads : List Read) (r : Reader) (go_on : Reader → Reader × (List Read × Next))
      (found : Reader × Result (Option Message))
      → Later from_utf8 r (arrived_bytes reads) found
      → ((r' : Reader)
          → parse from_utf8 (more r (arrived_bytes reads))
            ≡ parse from_utf8 (more r' (arrived_bytes reads))
          → Answers (parse from_utf8 (more r (arrived_bytes reads))) (go_on r'))
      → Answers (parse from_utf8 (more r (arrived_bytes reads))) (answered reads go_on found)
  unfolding Answers answered parse
  go_on-Answers reads r go_on (r', err e) later on = later _ (omega arith)
  go_on-Answers reads r go_on (r', ok (some message)) later on = later _ (omega arith)
  go_on-Answers reads r go_on (r', ok none) later on = on r' (later _ _ (omega arith) (omega arith))

  -- However the bytes that arrive are divided into reads, the next message or error is the one that they give
  -- when read at once, and what was read after it is left in the buffer or in the reads to come; where there is
  -- none, the bytes hold no complete message.
  pub next-Answers :
      (reads : List Read) (r : Reader)
      → Answers (parse from_utf8 (more r (arrived_bytes reads))) (next from_utf8 reads r)
  unfolding next arrived_bytes
  next-Answers [] r =
      rw (append-nil r.buffer)
        (stopped-Answers [] [] r waiting _ refl (λ whole r' e. unfold Answers in e))
  next-Answers (failed ∷ reads) r = rw (append-nil r.buffer) (
      stopped-Answers (failed ∷ reads) reads r io_failed _ refl (λ whole r' e. unfold Answers in e))
  next-Answers (received [] ∷ reads) r = rw (append-nil r.buffer) (
      stopped-Answers (received [] ∷ reads) reads r ended _ refl
        (λ whole r' e. unfold Answers in e))
  next-Answers (received (byte ∷ bytes) ∷ reads) r =
      go_on-Answers (received (byte ∷ bytes) ∷ reads) r _ (parse from_utf8 r)
        (unfold parse in parse_loop-Later from_utf8 (length r.buffer + 1) r _ (omega arith))
        (λ r' e.
          subst (λ whole. Answers whole (next from_utf8 reads (more r' (byte ∷ bytes))))
            (ap (λ b. parse from_utf8 (record r' { buffer = b }))
                (append_assoc r'.buffer (byte ∷ bytes) (arrived_bytes reads))
              ∙ sym e)
            (next-Answers reads (more r' (byte ∷ bytes))))
