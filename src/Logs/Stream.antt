-- ===== src/Logs/Stream.antt =====
-- The connection of frontend/app/(dashboard)/logs/page.tsx: `startStream`, `openEs`, the listeners and
-- `stopStream`, as steps on what their refs and states hold.
use ventopanel.Base.{
  ℕ, suc, ◌*◌, ◌^◌, min, ltb, if◌then◌else◌, Bool, true, false, Option, none, some, List, [], ◌∷◌,
  Text, text, truthy, ◌==◌, ◌-◌,
}
use ventopanel.Logs.Buffer.{Buffer, receive_line}

abbrev pub max_retries : ℕ
max_retries = 5

-- `connected` says that the event source of `esRef` is open, `timer` is the delay of the timeout that
-- `retryTimer` holds and that has not fired, `lost` counts timeouts that it no longer holds, and
-- `preflights` the requests of `startStream` that wait for their reply.
pub record Stream : Type 0 where
  pub connected : Bool
  pub retries : ℕ
  pub timer : Option ℕ
  pub lost : ℕ
  pub preflights : ℕ
  pub streaming : Bool
  pub error : Text
  pub buffer : Buffer

abbrev pub initial : Stream
initial = record {
  connected = false;
  retries = 0;
  timer = none;
  lost = 0;
  preflights = 0;
  streaming = false;
  error = [];
  buffer = record { lines = []; next_id = 0 };
}

-- `stopStream`
unfoldable pub stop_stream : Stream → Stream
stop_stream s = record s { connected = false; retries = 0; timer = none; streaming = false }

-- `openEs`
unfoldable pub open_es : Stream → Stream
open_es s = record s { connected = true }

-- The `log` listener.
unfoldable pub on_log : Text → ℕ → Stream → Stream
on_log payload ts s = record s { buffer = receive_line s.buffer (payload, ts); retries = 0 }

-- The `error` listener, for the data of an event that the server sent.
unfoldable pub on_server_error : Text → Stream → Stream
on_server_error payload s =
    if truthy payload then record s { error = payload; connected = false; streaming = false } else s

unfoldable pub delay : ℕ → ℕ
delay retries = min (2 ^ retries * 1000) 30000

abbrev pub lose_timer : Option ℕ → ℕ → ℕ
lose_timer none lost = lost
lose_timer (some wait) lost = suc lost

-- `es.onerror`
unfoldable pub on_error : Stream → Stream
on_error s =
    if ltb s.retries max_retries
    then record s {
      connected = false;
      retries = suc s.retries;
      timer = some (delay (suc s.retries));
      lost = lose_timer s.timer s.lost;
    }
    else record s {
      connected = false;
      error = text "Connection lost after 5 reconnect attempts.";
      streaming = false;
    }

-- `startStream` up to its request, for a server that was chosen; without one it does nothing, and the
-- buttons that call it are disabled.
unfoldable pub start_stream : Stream → Stream
start_stream s = record s {
  connected = false;
  retries = 0;
  timer = none;
  preflights = suc s.preflights;
  streaming = true;
  error = [];
  buffer = record { lines = []; next_id = s.buffer.next_id };
}

-- The rest of `startStream`: the error of a reply that is not ok, or none for one that is ok and for
-- a network error.
unfoldable pub preflight_done : Option Text → Stream → Stream
preflight_done (some message) s = record s {
  preflights = s.preflights - 1;
  error = message;
  streaming = false;
}
preflight_done none s = open_es (record s { preflights = s.preflights - 1 })

-- What can happen: clicks, replies, timeouts, and events of the open connection.
pub data Event : Type 0 where
  clicked_start clicked_stop : Event
  replied : Option Text → Event
  log_arrived : Text → ℕ → Event
  server_failed : Text → Event
  connection_failed : Event
  timer_fired lost_timer_fired : Event

-- An event named `error` that the server sends reaches the listener and then `onerror`, since both are
-- for events of that type; an event of a closed connection does not come.
unfoldable pub step : Stream → Event → Stream
step s clicked_start = start_stream s
step s clicked_stop = stop_stream s
step s (replied refusal) = if s.preflights == 0 then s else preflight_done refusal s
step s (log_arrived payload ts) = if s.connected then on_log payload ts s else s
step s (server_failed payload) = if s.connected then on_error (on_server_error payload s) else s
step s connection_failed = if s.connected then on_error s else s
step s timer_fired = elim s.timer [ none ↦ s | some wait ↦ open_es (record s { timer = none }) ]
step s lost_timer_fired = if s.lost == 0 then s else open_es (record s { lost = s.lost - 1 })

unfoldable pub run : Stream → List Event → Stream
run s [] = s
run s (e ∷ es) = run (step s e) es
