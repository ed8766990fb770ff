-- ===== src/Logs/Retries.antt =====
-- How the stream of Logs/Stream.antt retries, stops and stays within its bounds.
use ventopanel.Base.{
  ℕ, zero, suc, ◌+◌, ◌≤◌, ◌<◌, ◌≡◌, ◌==◌, Bool, if◌then◌else◌, true, false, Option, none, some,
  List, [], ◌∷◌, ◌++◌, Text, text, refl, All, truthy, length, arith, ◌-◌, length-drop,
}
use ventopanel.Logs.Buffer.{LogLine, keep_last, max_lines, Buffer, receive_line}
use ventopanel.Logs.Stream.{
  stop_stream, open_es, on_log, on_server_error, delay, on_error, start_stream, preflight_done,
  max_retries, Event, clicked_start, clicked_stop, replied, log_arrived, server_failed,
  connection_failed, timer_fired, lost_timer_fired, step, run,
}
use ventopanel.Logs.Stream.{Stream}

abbrev pub IsDelay : Option ℕ → Type 0
IsDelay none = Unit
IsDelay (some wait) = (2000 ≤ wait) × (wait ≤ 30000)

-- The bounds of the page's constants.
abbrev pub Bounded : Stream → Type 0
Bounded s = (s.retries ≤ max_retries) × IsDelay s.timer × (length s.buffer.lines ≤ max_lines)

length-keep_last : (prev : List LogLine) (line : LogLine) → length (keep_last prev line) ≤ max_lines
unfolding keep_last
length-keep_last prev line =
    ground (arith, length-drop (length (prev ++ line ∷ []) - max_lines) (prev ++ line ∷ []))

length-receive_line :
    (b : Buffer) (message : Text × ℕ) → length (receive_line b message).lines ≤ max_lines
unfolding receive_line
length-receive_line b (payload, ts) = length-keep_last b.lines _

pub delay-IsDelay : (n : ℕ) → 1 ≤ n → n ≤ 5 → IsDelay (some (delay n))
unfolding delay
delay-IsDelay zero h k = absurd (omega arith)
delay-IsDelay (suc zero) h k = (omega arith, omega arith)
delay-IsDelay (suc (suc zero)) h k = (omega arith, omega arith)
delay-IsDelay (suc (suc (suc zero))) h k = (omega arith, omega arith)
delay-IsDelay (suc (suc (suc (suc zero)))) h k = (omega arith, omega arith)
delay-IsDelay (suc (suc (suc (suc (suc zero))))) h k = (omega arith, omega arith)
delay-IsDelay (suc (suc (suc (suc (suc (suc n)))))) h k = absurd (omega arith)

on_error-Bounded : (s : Stream) → Bounded s → Bounded (on_error s)
unfolding on_error
on_error-Bounded s h = ground (arith, delay-IsDelay (suc s.retries))

step-Bounded : (s : Stream) (e : Event) → Bounded s → Bounded (step s e)
unfolding step start_stream stop_stream preflight_done open_es on_log on_server_error
step-Bounded s clicked_start h = ground arith
step-Bounded s clicked_stop h = ground arith
step-Bounded s (replied (some refusal)) h = ground arith
step-Bounded s (replied none) h = ground arith
step-Bounded s (log_arrived payload ts) h =
    ground (arith, length-receive_line s.buffer (payload, ts))
step-Bounded s (server_failed payload) h =
    ground (arith, on_error-Bounded (on_server_error payload s))
step-Bounded s connection_failed h = ground (arith, on_error-Bounded s h)
step-Bounded s timer_fired h = ground arith
step-Bounded s lost_timer_fired h = ground arith

-- Whatever happens, at most 5 retries are counted, a timeout waits from 2 to 30 seconds, and at most
-- 2000 lines are kept.
run-Bounded : (s : Stream) (es : List Event) → Bounded s → Bounded (run s es)
unfolding run
run-Bounded s [] h = h
run-Bounded s (e ∷ es) h = run-Bounded (step s e) es (step-Bounded s e h)

-- The connection breaks and is opened again, `n` times.
abbrev pub reconnects : ℕ → List Event
reconnects zero = []
reconnects (suc n) = connection_failed ∷ timer_fired ∷ reconnects n

-- Streaming over an open connection, with no timeout to come, not even one that was lost, and no reply.
abbrev pub Live : Stream → Type 0
Live s =
    (s.connected ≡ true)
    × (s.streaming ≡ true)
    × (s.timer ≡ none)
    × (s.lost ≡ 0)
    × (s.preflights ≡ 0)

-- The stream has ended with its message, and nothing is to come that could open it again.
abbrev pub IsOver : Stream → Type 0
IsOver s =
    (s.connected ≡ false)
    × (s.streaming ≡ false)
    × (s.timer ≡ none)
    × (s.lost ≡ 0)
    × (s.preflights ≡ 0)
    × (s.error ≡ text "Connection lost after 5 reconnect attempts.")

abbrev pub IsNoStart : Event → Type 0
IsNoStart clicked_start = ⊥
IsNoStart _ = Unit {0}

if-IsOver : (b : Bool) (s next : Stream) → b ≡ true → IsOver s → IsOver (if b then s else next)
if-IsOver true s next e h = h
if-IsOver false s next e h = cc

unless-IsOver : (b : Bool) (s next : Stream) → b ≡ false → IsOver s → IsOver (if b then next else s)
unless-IsOver true s next e h = cc
unless-IsOver false s next e h = h

step-IsOver : (e : Event) (s : Stream) → IsNoStart e → IsOver s → IsOver (step s e)
unfolding step stop_stream
step-IsOver clicked_start s n h = absurd n
step-IsOver clicked_stop s n (c, w, t, l, p, e) = (refl, refl, refl, l, p, e)
step-IsOver (replied refusal) s n h = if-IsOver (s.preflights == 0) s _ (ground arith) h
step-IsOver (log_arrived payload ts) s n h = unless-IsOver s.connected s _ h.0 h
step-IsOver (server_failed payload) s n h = unless-IsOver s.connected s _ h.0 h
step-IsOver connection_failed s n h = unless-IsOver s.connected s _ h.0 h
step-IsOver timer_fired s n h = rw (h.2, step) h
step-IsOver lost_timer_fired s n h = if-IsOver (s.lost == 0) s _ (ground arith) h

run-IsOver : (es : List Event) (s : Stream) → All IsNoStart es → IsOver s → IsOver (run s es)
unfolding run
run-IsOver [] s ns h = h
run-IsOver (e ∷ es) s (n, ns) h = run-IsOver es (step s e) ns (step-IsOver e s n h)

reconnect_once :
    (s : Stream)
    → Live s
    → s.retries < max_retries
    → Live (run s (reconnects 1)) × ((run s (reconnects 1)).retries ≡ suc s.retries)
unfolding run step on_error open_es
reconnect_once s h k = ground arith

pub run-reconnects :
    (n : ℕ) (s : Stream)
    → Live s
    → n + s.retries ≤ max_retries
    → Live (run s (reconnects n)) × ((run s (reconnects n)).retries ≡ n + s.retries)
unfolding run
run-reconnects zero s h k = (h, omega arith)
run-reconnects (suc n) s h k =
    let (live, counted) = reconnect_once s h (omega arith) in
    let (rest, total) = run-reconnects n (run s (reconnects 1)) live (omega (arith, counted)) in
    (rest, omega (arith, counted, total))

-- With no data, and with no timeout and no first request left over, the stream reconnects as long as less than 5
-- retries are counted, and the next break of the connection after that ends it with a message: it does not connect
-- again, whatever happens then but a click that starts it.
pub run-gives_up :
    (n : ℕ) (s : Stream) (es : List Event)
    → Live s
    → n + s.retries ≡ max_retries
    → All IsNoStart es
    → Live (run s (reconnects n)) × IsOver (run (step (run s (reconnects n)) connection_failed) es)
unfolding step on_error
run-gives_up n s es h k ns =
    let (live, total) = run-reconnects n s h (omega arith) in
    let over : IsOver (step (run s (reconnects n)) connection_failed) = ground arith in
    (live, run-IsOver es _ ns over)

-- Stopping while the first request waits for its reply does not stop the stream: the reply opens the
-- connection, and the page does not show that it streams.
stop_stream-start_stream :
    (s : Stream)
    → (run s (clicked_start ∷ clicked_stop ∷ replied none ∷ [])).connected ≡ true
      × ((run s (clicked_start ∷ clicked_stop ∷ replied none ∷ [])).streaming ≡ false)
unfolding run step start_stream stop_stream preflight_done open_es
stop_stream-start_stream s = ground arith

-- An error that the server reports does not end the stream while retries are left: the connection is
-- opened again after the delay, and the page does not show that it streams.
on_error-on_server_error :
    (s : Stream) (payload : Text)
    → s.connected ≡ true
    → truthy payload ≡ true
    → s.retries < max_retries
    → (run s (server_failed payload ∷ timer_fired ∷ [])).connected ≡ true
      × ((run s (server_failed payload ∷ timer_fired ∷ [])).streaming ≡ false)
unfolding run step on_error on_server_error open_es
on_error-on_server_error s payload h k l = ground arith
