-- ===== src/Terminal/Sizes.antt =====
-- What the server learns of the size of Terminal/Socket.antt, and how many sockets are open.
use ventopanel.Base.{
  ℕ, ◌≡◌, refl, sym, ◌∙◌, subst, Option, none, some, List, [], ◌∷◌, ◌++◌, Text, All,
}
use ventopanel.Terminal.Socket.{
  ReadyState, connecting, open_, closing, closed, Message, size, keys, Socket, Terminal, closing_of,
  mounted, connect, send, on_open, on_data, on_resize, Event, socket_opened, socket_closing,
  socket_closed, typed, resized, server_changed, step, run,
}

-- The size that was sent last.
abbrev pub last_size_from : Option (ℕ × ℕ) → List Message → Option (ℕ × ℕ)
last_size_from found [] = found
last_size_from found (size cols rows ∷ ms) = last_size_from (some (cols, rows)) ms
last_size_from found (keys typed_keys ∷ ms) = last_size_from found ms

abbrev pub last_size : List Message → Option (ℕ × ℕ)
last_size ms = last_size_from none ms

-- If anything was sent, a size was sent first.
abbrev pub BeginsWithSize : List Message → Type 0
BeginsWithSize [] = Unit {0}
BeginsWithSize (size cols rows ∷ ms) = Unit {0}
BeginsWithSize (keys typed_keys ∷ ms) = ⊥

-- What was sent over a socket in this state, for a terminal of this size.
abbrev pub Agrees : ReadyState → ℕ → ℕ → List Message → Type 0
Agrees connecting cols rows sent = sent ≡ []
Agrees open_ cols rows sent = last_size sent ≡ some (cols, rows)
Agrees closing cols rows sent = Unit {0}
Agrees closed cols rows sent = Unit {0}

abbrev pub IsOver : ReadyState → Type 0
IsOver connecting = ⊥
IsOver open_ = ⊥
IsOver closing = Unit {0}
IsOver closed = Unit {0}

abbrev pub IsPast : Socket → Type 0
IsPast s = IsOver s.state × BeginsWithSize s.sent

abbrev pub IsSized : Terminal → Type 0
IsSized t =
    Agrees t.socket.state t.cols t.rows t.socket.sent
    × BeginsWithSize t.socket.sent
    × All IsPast t.past

last_size-append_size :
    (found : Option (ℕ × ℕ)) (ms : List Message) (cols rows : ℕ)
    → last_size_from found (ms ++ size cols rows ∷ []) ≡ some (cols, rows)
last_size-append_size found [] cols rows = refl
last_size-append_size found (size c r ∷ ms) cols rows = last_size-append_size _ ms cols rows
last_size-append_size found (keys k ∷ ms) cols rows = last_size-append_size found ms cols rows

last_size-append_keys :
    (found : Option (ℕ × ℕ)) (ms : List Message) (k : Text)
    → last_size_from found (ms ++ keys k ∷ []) ≡ last_size_from found ms
last_size-append_keys found [] k = refl
last_size-append_keys found (size c r ∷ ms) k = last_size-append_keys _ ms k
last_size-append_keys found (keys j ∷ ms) k = last_size-append_keys found ms k

BeginsWithSize-append :
    (ms : List Message) (m : Message) {sized : ℕ × ℕ}
    → BeginsWithSize ms
    → last_size ms ≡ some sized
    → BeginsWithSize (ms ++ m ∷ [])
BeginsWithSize-append [] m h e = cc
BeginsWithSize-append (size c r ∷ ms) m h e = tt
BeginsWithSize-append (keys k ∷ ms) m h e = h

BeginsWithSize-size :
    (ms : List Message) (cols rows : ℕ) → ms ≡ [] → BeginsWithSize (ms ++ size cols rows ∷ [])
BeginsWithSize-size ms cols rows e =
    subst (λ sent. BeginsWithSize (sent ++ size cols rows ∷ [])) (sym e) tt

closing_of-IsOver : (s : ReadyState) → IsOver (closing_of s)
closing_of-IsOver connecting = tt
closing_of-IsOver open_ = tt
closing_of-IsOver closing = tt
closing_of-IsOver closed = tt

-- A socket in a state that is written out, in a terminal of this size.
abbrev at : ReadyState → List Message → ℕ → ℕ → List Socket → Terminal
at state sent cols rows past = record {
  socket = record { state = state; sent = sent };
  past = past;
  cols = cols;
  rows = rows;
}

connect-IsSized : (cols rows : ℕ) (t : Terminal) → IsSized t → IsSized (connect cols rows t)
unfolding connect
connect-IsSized cols rows t (a, b, p) = (refl, tt, ((closing_of-IsOver t.socket.state, b), p))

step_at-IsSized :
    (state : ReadyState) (sent : List Message) (cols rows : ℕ) (past : List Socket) (e : Event)
    → IsSized (at state sent cols rows past)
    → IsSized (step (at state sent cols rows past) e)
unfolding step on_open send on_data on_resize
step_at-IsSized connecting sent cols rows past socket_opened (a, b, p) =
    (last_size-append_size none sent cols rows, BeginsWithSize-size sent cols rows a, p)
step_at-IsSized open_ sent cols rows past (typed c r k) (a, b, p) =
    (last_size-append_keys none sent k ∙ a, BeginsWithSize-append sent (keys k) b a, p)
step_at-IsSized open_ sent cols rows past (resized c r) (a, b, p) =
    (last_size-append_size none sent c r, BeginsWithSize-append sent (size c r) b a, p)
step_at-IsSized closed sent cols rows past (typed c r k) h =
    connect-IsSized c r (at closed sent cols rows past) h
step_at-IsSized state sent cols rows past (server_changed c r) h =
    connect-IsSized c r (at state sent cols rows past) h
step_at-IsSized state sent cols rows past socket_closed (a, b, p) = (tt, b, p)
step_at-IsSized connecting sent cols rows past e h = h
step_at-IsSized open_ sent cols rows past socket_opened h = h
step_at-IsSized open_ sent cols rows past socket_closing (a, b, p) = (tt, b, p)
step_at-IsSized closing sent cols rows past e h = h
step_at-IsSized closed sent cols rows past e h = h

step-IsSized : (t : Terminal) (e : Event) → IsSized t → IsSized (step t e)
step-IsSized t e h = step_at-IsSized t.socket.state t.socket.sent t.cols t.rows t.past e h

run_from-IsSized : (t : Terminal) (es : List Event) → IsSized t → IsSized (run t es)
unfolding run
run_from-IsSized t [] h = h
run_from-IsSized t (e ∷ es) h = run_from-IsSized (step t e) es (step-IsSized t e h)

-- Whatever happens, what is sent over each socket begins with the size of the terminal, the last size that was sent
-- over an open socket is the one the terminal has, and of all sockets only the last one can be open.
pub run-IsSized : (cols rows : ℕ) (es : List Event) → IsSized (run (mounted cols rows) es)
unfolding mounted
run-IsSized cols rows es = run_from-IsSized (mounted cols rows) es (refl, tt, tt)
