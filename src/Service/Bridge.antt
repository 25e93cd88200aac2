-- ===== src/Service/Bridge.antt =====
-- A bridge (one client's WebSocket session) and the public connections that it carries: `Finish`,
-- `Outbound`, `ChannelHandle`, `Bridge` and its methods.
--
-- A `Finish` is shared by a connection's channel and by the task that carries it, so the cells lie in
-- a heap (a list, newest last) and channels hold their index. The queue to the bridge's socket is
-- bounded, and a message that does not fit is dropped, as `try_send` does. Not modelled: the byte
-- budgets, the client's description, and the task that ends a closing session after its grace period.
use opentunnel.Prelude.{
  ◌+◌, ◌-◌, ◌%◌, ◌^◌, codes, ℕ, zero, suc, Bool, true, false, not, ◌&&◌, ◌||◌, Option, none, some,
  List, [], ◌∷◌, ◌++◌, ltb, ◌==◌, min, max, if◌then◌else◌, Bytes, beq, length,
}
use opentunnel.Record.{is_some}

pub data Outcome : Type 0 where
  closed reset bridge_disconnected deleted backpressure client_error : Outcome

pub record Finish : Type 0 where
  pub outcome : Option Outcome
  pub abort : Bool

abbrev pub new_finish : Finish
new_finish = record { outcome = none; abort = false }

-- `Finish::finish` on the cell itself.
unfoldable pub finish_cell : Outcome → Bool → Finish → Finish
finish_cell outcome abort cell = elim cell.outcome [
  | some set ↦ cell
  | none ↦ record { outcome = some outcome; abort = abort || cell.abort }
]

-- `finish.finish(outcome, abort)` through a handle.
unfoldable pub finish : ℕ → Outcome → Bool → List Finish → List Finish
finish handle outcome abort [] = []
finish zero outcome abort (cell ∷ cells) = finish_cell outcome abort cell ∷ cells
finish (suc handle) outcome abort (cell ∷ cells) = cell ∷ finish handle outcome abort cells

-- Control messages (`ServerControl` of crates/opentunnel-server/src/bridge.rs, and `drain`). Their
-- JSON text is not modelled.
pub data ServerControl : Type 0 where
  attached : Bytes → List Bytes → ℕ → ℕ → ServerControl
  attach_error : Bytes → ServerControl
  open_conn : ℕ → Bytes → Bytes → Bytes → ServerControl
  ping pong : ℕ → ServerControl
  end_conn : ℕ → ServerControl
  reset_conn : ℕ → Bytes → ServerControl
  drain : Bytes → ServerControl

pub data Outbound : Type 0 where
  text : ServerControl → Outbound
  binary : Bytes → Outbound
  visitor_data : Bytes → Outbound
  ws_pong : Bytes → Outbound
  close_frame : ℕ → Bytes → Outbound

-- A public connection on its bridge: the handle of its `Finish`, and the bytes carried to the
-- visitor.
pub record Channel : Type 0 where
  pub cell : ℕ
  pub bytes_out : ℕ

pub record Bridge : Type 0 where
  pub id : ℕ
  pub seen_at : ℕ
  pub attached : Bool
  pub detached : Bool
  pub session : Option Bytes
  pub routes : List Bytes
  pub max_conns : Option ℕ
  pub attached_at : ℕ
  pub active_at : ℕ
  pub server_close : Option ℕ
  pub channels : List (ℕ × Channel)
  pub visitors : ℕ
  pub queue : List Outbound

abbrev pub outbound_queue : ℕ
outbound_queue = 256

-- `tx.try_send(message)`.
unfoldable pub try_send : Outbound → List Outbound → List Outbound
try_send message queue = if ltb (length queue) outbound_queue then queue ++ message ∷ [] else queue

abbrev pub drain_reason : Bytes
drain_reason = codes "server restarting"

unfoldable pub is_attached : Bridge → Bool
is_attached b = b.attached && not b.detached

unfoldable pub any_route : Bytes → List Bytes → Bool
any_route route [] = false
any_route route (claimed ∷ rest) = beq claimed route || any_route route rest

unfoldable pub claims : Bridge → Bytes → Bool
unfolding is_attached
claims b route = is_attached b && any_route route b.routes

unfoldable pub is_closing : Bridge → Bool
unfolding is_some
is_closing b = is_some b.server_close

unfoldable pub touch : ℕ → Bridge → Bridge
touch now b = record b { seen_at = now }

unfoldable pub close : ℕ → Bytes → Bridge → Bridge
unfolding try_send
close code reason b = record b {
  server_close = some code;
  queue = try_send (close_frame code reason) b.queue;
}

-- `send_drain`.
unfoldable pub send_drain : Bytes → Bridge → Bridge
unfolding close
send_drain reason b =
    close 1012 reason (record b { queue = try_send (text (drain reason)) b.queue })

-- `Bridge::conn_limit`, with `clamp(1, limit)`.
unfoldable pub conn_limit : ℕ → Bridge → ℕ
conn_limit limit b = elim b.max_conns [ none ↦ limit | some n ↦ min (max n 1) limit ]

unfoldable pub finish_all : Outcome → List (ℕ × Channel) → List Finish → List Finish
finish_all outcome [] cells = cells
finish_all outcome ((conn, channel) ∷ rest) cells =
    finish_all outcome rest (finish channel.cell outcome true cells)

-- `Bridge::finish_channels`: the channels are drained and each connection is ended.
unfoldable pub finish_channels : Outcome → Bridge → List Finish → Bridge × List Finish
unfolding finish_all
finish_channels outcome b cells = (record b { channels = [] }, finish_all outcome b.channels cells)

unfoldable pub has_channel : ℕ → List (ℕ × Channel) → Bool
has_channel conn [] = false
has_channel conn ((c, channel) ∷ rest) = c == conn || has_channel conn rest

unfoldable pub get_channel : ℕ → List (ℕ × Channel) → Option Channel
get_channel conn [] = none
get_channel conn ((c, channel) ∷ rest) = if c == conn then some channel else get_channel conn rest

-- The `Drop` of a `VisitorSlot` and its counterpart in `route`, on an `AtomicUsize`.
unfoldable pub add_visitor : Bridge → Bridge
add_visitor b = record b { visitors = (b.visitors + 1) % 2 ^ 64 }

unfoldable pub drop_visitor : Bridge → Bridge
drop_visitor b = record b { visitors = (b.visitors + 2 ^ 64 - 1) % 2 ^ 64 }

unfoldable pub remove_channel : ℕ → List (ℕ × Channel) → List (ℕ × Channel)
remove_channel conn [] = []
remove_channel conn ((c, channel) ∷ rest) =
    let others = remove_channel conn rest in if c == conn then others else (c, channel) ∷ others
