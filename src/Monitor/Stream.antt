-- ===== src/Monitor/Stream.antt =====
-- The connection of frontend/app/(dashboard)/monitor/page.tsx: `start`, `openStream`, its listeners, `stop`, and
-- the effect that follows the choice of a server.
use ventopanel.Base.{
  ℕ, suc, ◌*◌, ◌^◌, ◌-◌, min, ltb, ◌==◌, ◌&&◌, Bool, true, false, if◌then◌else◌, Option, none, some,
  List, [], ◌∷◌, ◌++◌, Text, text, text_eq, truthy, get_elem?, remove_at,
}
use ventopanel.Monitor.Points.{Snapshot, ChartPoint, to_point, add_point}

abbrev pub max_retries : ℕ
max_retries = 5

pub data Status : Type 0 where
  idle connecting live error : Status

-- `server_id` is the state that the effect follows, `server_ref` the ref that the timeout reads. `source`
-- is the server whose metrics the open event source brings. `timer` is the delay of the timeout that
-- `retryTimer` holds and that has not fired, `lost` counts timeouts that it no longer holds, and
-- `preflights` has the servers whose first requests wait for their replies, the oldest first.
pub record Stream (R : Type 0) : Type 0 where
  pub server_id : Text
  pub server_ref : Text
  pub source : Option Text
  pub retries : ℕ
  pub timer : Option ℕ
  pub lost : ℕ
  pub preflights : List Text
  pub status : Status
  pub err_msg : Text
  pub latest : Option (ChartPoint R)
  pub history : List (ChartPoint R)

unfoldable pub reconnect_delay : ℕ → ℕ
reconnect_delay retries = min (2 ^ retries * 1000) 30000

-- What can happen: a choice in the list of servers, a click on Retry, the reply to one of the first requests with the
-- error of one that is not ok, timeouts, and events of the open connection.
pub data Event : Type 0 where
  chose : Text → Event
  retried : Event
  replied : ℕ → Option Text → Event
  metrics_arrived : Text → Event
  server_failed : Text → Event
  connection_failed : Event
  timer_fired lost_timer_fired : Event

abbrev pub lose_timer : Option ℕ → ℕ → ℕ
lose_timer none lost = lost
lose_timer (some wait) lost = suc lost

-- `status === "error"`
abbrev pub is_error : Status → Bool
is_error error = true
is_error _ = false

-- The event of a connection that is open.
abbrev pub if_open : {S : Type 0} → Option Text → S → S → S
if_open none next s = s
if_open (some sid) next s = next

module _ {R : Type 0} where
  abbrev pub first : Stream R
  first = record {
    server_id = [];
    server_ref = [];
    source = none;
    retries = 0;
    timer = none;
    lost = 0;
    preflights = [];
    status = idle;
    err_msg = [];
    latest = none;
    history = [];
  }

  unfoldable pub stop : Stream R → Stream R
  stop s = record s { timer = none; source = none; retries = 0; server_ref = []; status = idle }

  -- `openStream`
  unfoldable pub open_stream : Text → Stream R → Stream R
  open_stream sid s = record s { source = some sid }

  -- `start` up to its request.
  unfoldable pub start : Text → Stream R → Stream R
  start sid s = record s {
    timer = none;
    source = none;
    retries = 0;
    server_ref = sid;
    history = [];
    latest = none;
    err_msg = [];
    status = connecting;
    preflights = s.preflights ++ sid ∷ [];
  }

  -- The rest of `start`: the error of a reply that is not ok, or none for one that is ok and for a network
  -- error.
  unfoldable pub preflight_done : Text → Option Text → Stream R → Stream R
  preflight_done sid (some message) s = record s { err_msg = message; status = error }
  preflight_done sid none s = open_stream sid s

  -- The effect on `serverId`, whose cleanup is `stop`; it runs when the state changes.
  unfoldable pub choose : Text → Stream R → Stream R
  choose sid s =
      if text_eq sid s.server_id
      then s
      else (let stopped = stop (record s { server_id = sid }) in
          if truthy sid then start sid stopped else stop stopped)

  -- `es.onerror`
  unfoldable pub on_error : Stream R → Stream R
  on_error s =
      if ltb s.retries max_retries
      then record s {
        source = none;
        retries = suc s.retries;
        timer = some (reconnect_delay (suc s.retries));
        lost = lose_timer s.timer s.lost;
        status = connecting;
      }
      else record s {
        source = none;
        err_msg = text "Stream disconnected after 5 reconnect attempts.";
        status = error;
      }

  -- The listener for `error`, for the data of an event that the server sent.
  unfoldable pub on_server_error : Text → Stream R → Stream R
  on_server_error payload s =
      if truthy payload then record s { err_msg = payload; status = error; source = none } else s

  -- What the timeout runs.
  unfoldable pub on_timer : Stream R → Stream R
  on_timer s = if truthy s.server_ref then open_stream s.server_ref s else s

  module _ (parse : Text → Option (Snapshot R)) (show_time : ℕ → Text) where
    -- The listener for `metrics`.
    unfoldable pub on_metrics : Text → Stream R → Stream R
    on_metrics payload s = elim (parse payload) [
      | none ↦ s
      | some snapshot ↦ record s {
        latest = some (to_point show_time snapshot);
        history = add_point s.history (to_point show_time snapshot);
        status = live;
        retries = 0;
      }
    ]

    -- An event named `error` that the server sends reaches the listener and then `onerror`, since both are
    -- for events of that type; an event of a closed connection does not come.
    unfoldable pub step : Stream R → Event → Stream R
    step s (chose sid) = choose sid s
    step s retried = if truthy s.server_id && is_error s.status then start s.server_id s else s
    step s (replied i refusal) = elim (get_elem? s.preflights i) [
      | none ↦ s
      | some sid ↦ preflight_done sid refusal (record s { preflights = remove_at i s.preflights })
    ]
    step s (metrics_arrived payload) = if_open s.source (on_metrics payload s) s
    step s (server_failed payload) = if_open s.source (on_error (on_server_error payload s)) s
    step s connection_failed = if_open s.source (on_error s) s
    step s timer_fired = elim s.timer [
      | none ↦ s
      | some wait ↦ on_timer (record s { timer = none })
    ]
    step s lost_timer_fired = if s.lost == 0 then s else on_timer (record s { lost = s.lost - 1 })

    unfoldable pub run : Stream R → List Event → Stream R
    run s [] = s
    run s (e ∷ es) = run (step s e) es
