-- ===== src/Logs/Tests.antt =====
-- Runs of the definitions for frontend/app/(dashboard)/logs/page.tsx, and the theorems at concrete
-- inputs.
use ventopanel.Base.{◌≡◌, refl, ℕ, true, some, none, List, [], ◌∷◌, ◌++◌, Text, text, take_last}
use ventopanel.Logs.Ansi.{strip_from, strip_ansi, colour}
use ventopanel.Logs.Buffer.{
  max_lines, keep_last, receive_line, receive_all, numbered, receive_all-lines,
}
use ventopanel.Logs.Stream.{
  Stream, initial, start_stream, stop_stream, open_es, on_log, on_server_error, delay, on_error,
  preflight_done, Event, clicked_start, replied, log_arrived, connection_failed, timer_fired,
  lost_timer_fired, step, run,
}
use ventopanel.Logs.Address.{Window, get_api_base, preflight_base}
use ventopanel.Logs.Retries.{Live, IsOver, reconnects, run-gives_up}

stream : Unit {0}
unfolding run step start_stream stop_stream preflight_done open_es on_log on_server_error delay
    on_error receive_line receive_all keep_last strip_ansi strip_from
stream = tt

coloured : strip_ansi (text "ok " ++ colour (text "1;31") b'm' ++ text "red") ≡ text "ok red"
unfolding stream
coloured = refl

abbrev messages : List (Text × ℕ)
messages = (text "one", 5) ∷ (text "two", 6) ∷ []

receive_all-lines_example :
    (receive_all (record { lines = []; next_id = 0 }) messages).lines
    ≡ take_last max_lines (numbered 0 messages)
receive_all-lines_example = receive_all-lines messages

-- A session: a start, its reply, a line and a break of the connection.
abbrev session : List Event
session = clicked_start ∷ replied none ∷ log_arrived (text "one") 5 ∷ connection_failed ∷ []

second_try_waits : (run initial session).timer ≡ some 2000
unfolding stream
second_try_waits = refl

abbrev live : Stream
live = record initial { connected = true; streaming = true }

run-gives_up_example :
    Live (run live (reconnects 5))
    × IsOver (
        run
          (step (run live (reconnects 5)) connection_failed)
          (timer_fired ∷ lost_timer_fired ∷ replied none ∷ []))
run-gives_up_example =
    run-gives_up 5 live (timer_fired ∷ lost_timer_fired ∷ replied none ∷ [])
      (refl, refl, refl, refl, refl) refl (tt, (tt, (tt, tt)))

abbrev window : Window
window = record { protocol = text "https:"; host = text "panel"; hostname = text "panel" }

-- The stream goes through the window's origin, and the request that is made first does not.
stream_by_origin : get_api_base window none none ≡ text "https://panel"
unfolding get_api_base
stream_by_origin = refl

preflight_by_port : preflight_base window none none ≡ text "https://panel:8080"
unfolding preflight_base
preflight_by_port = refl

stream_base_of_setting : get_api_base window (some (text " wss://api/ ")) none ≡ text "https://api"
unfolding get_api_base
stream_base_of_setting = refl
