-- ===== src/Terminal/Socket.antt =====
-- The connections of frontend/components/terminal-client.tsx. The terminal on the screen is a library: what it is
-- given to write is left out, and its events `onData` and `onResize` are events of the model.
use ventopanel.Base.{ℕ, if◌then◌else◌, Option, none, some, List, [], ◌∷◌, ◌++◌, Text, text, text_eq}
use ventopanel.Api.Session.{present}
use ventopanel.Api.Uri.{encode_uri_component}
use ventopanel.Files.Paths.{strip_last}
use ventopanel.Logs.Address.{Window, setting}

pub data ReadyState : Type 0 where
  connecting open_ closing closed : ReadyState

-- `JSON.stringify({ cols, rows })`, or the keys as they are.
pub data Message : Type 0 where
  size : ℕ → ℕ → Message
  keys : Text → Message

-- A web socket with what was sent over it, in order.
pub record Socket : Type 0 where
  pub state : ReadyState
  pub sent : List Message

-- The socket of `wsRef`, the sockets it held before, and the size of the terminal.
pub record Terminal : Type 0 where
  pub socket : Socket
  pub past : List Socket
  pub cols : ℕ
  pub rows : ℕ

abbrev pub fresh_socket : Socket
fresh_socket = record { state = connecting; sent = [] }

-- `ws.close()`, also of a socket that is closed already.
abbrev pub closing_of : ReadyState → ReadyState
closing_of closed = closed
closing_of _ = closing

abbrev pub close : Socket → Socket
close s = record s { state = closing_of s.state }

-- The terminal as it is mounted, with the size that it was fitted to.
unfoldable pub mounted : ℕ → ℕ → Terminal
mounted cols rows = record { socket = fresh_socket; past = []; cols = cols; rows = rows }

-- `connect`, which makes a terminal of this size.
unfoldable pub connect : ℕ → ℕ → Terminal → Terminal
connect cols rows t = record {
  socket = fresh_socket;
  past = close t.socket ∷ t.past;
  cols = cols;
  rows = rows;
}

-- `ws.send`
unfoldable pub send : Message → Terminal → Terminal
send m t = record t { socket = record { state = t.socket.state; sent = t.socket.sent ++ m ∷ [] } }

abbrev set_state : ReadyState → Terminal → Terminal
set_state state t = record t { socket = record { state = state; sent = t.socket.sent } }

-- `ws.onopen`
unfoldable pub on_open : Terminal → Terminal
unfolding send
on_open t = send (size t.cols t.rows) (set_state open_ t)

-- `term.onData`, by the state of the socket; a terminal that is made anew has this size.
unfoldable pub on_data : ReadyState → ℕ → ℕ → Text → Terminal → Terminal
on_data open_ cols rows typed t = send (keys typed) t
on_data closed cols rows typed t = connect cols rows t
on_data connecting cols rows typed t = t
on_data closing cols rows typed t = t

-- `term.onResize`
unfoldable pub on_resize : ReadyState → ℕ → ℕ → Terminal → Terminal
on_resize open_ cols rows t = send (size cols rows) (record t { cols = cols; rows = rows })
on_resize _ cols rows t = record t { cols = cols; rows = rows }

pub data Event : Type 0 where
  socket_opened socket_closing socket_closed : Event
  typed : ℕ → ℕ → Text → Event
  resized : ℕ → ℕ → Event
  server_changed : ℕ → ℕ → Event

abbrev open_event : ReadyState → Terminal → Terminal
open_event connecting t = on_open t
open_event _ t = t

abbrev closing_event : ReadyState → Terminal → Terminal
closing_event open_ t = set_state closing t
closing_event _ t = t

unfoldable pub step : Terminal → Event → Terminal
step t socket_opened = open_event t.socket.state t
step t socket_closing = closing_event t.socket.state t
step t socket_closed = set_state closed t
step t (typed cols rows data_typed) = on_data t.socket.state cols rows data_typed t
step t (resized cols rows) = on_resize t.socket.state cols rows t
step t (server_changed cols rows) = connect cols rows t

unfoldable pub run : Terminal → List Event → Terminal
run t [] = t
run t (e ∷ es) = run (step t e) es

-- `url` of `connect`: `NEXT_PUBLIC_API_WS_URL`, or the window's address.
abbrev pub ws_base : Window → Option Text → Text
ws_base w env = elim (setting env) [
  | none ↦
      (if text_eq w.protocol (text "https:") then text "wss:" else text "ws:")
      ++ text "//"
      ++ w.host
  | some base ↦ strip_last base
]

abbrev pub token_query : Option Text → Text
token_query token = elim (present token) [
  | none ↦ []
  | some t ↦ text "?token=" ++ encode_uri_component t
]

-- The address without the base and `/api/v1`.
abbrev pub terminal_path : Text → Option Text → Text
terminal_path server_id token =
    text "/servers/" ++ (server_id ++ (text "/terminal" ++ token_query token))

unfoldable pub terminal_url : Window → Option Text → Text → Option Text → Text
terminal_url w env server_id token =
    ws_base w env ++ (text "/api/v1" ++ terminal_path server_id token)
