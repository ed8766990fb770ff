-- ===== src/Sites/Live.antt =====
-- The requests of the live log in frontend/app/(dashboard)/sites/[id]/page.tsx: `startStream`, `stopStream` and the
-- buttons that call them, with the responses in any order. Sites/LogStream.antt reads the chunks.
-- An effect that runs after a click is part of its step.
mod Tests
use ventopanel.Base.{
  ℕ, zero, suc, ◌≡◌, Bool, true, false, Option, none, some, List, [], ◌∷◌, ◌++◌, Text,
}
use ventopanel.Sites.LogStream.{Shown, Reader, receive_chunk}

-- A request waits for its response, reads it with the buffer of its loop, or has ended.
pub data Fetching : Type 0 where
  waiting over : Fetching
  reading : Text → Fetching

-- `current` is the request whose controller `abortRef` holds, and `aborted` counts the requests that were
-- aborted and whose promise is not rejected yet.
pub record Live : Type 0 where
  pub current : Option Fetching
  pub aborted : ℕ
  pub show_logs : Bool
  pub shown : Shown

abbrev pub first : Live
first = record {
  current = none;
  aborted = 0;
  show_logs = false;
  shown = record { lines = []; connected = false };
}

-- `abort()`, which does nothing to a request that has ended.
abbrev pub abort : Option Fetching → ℕ → ℕ
abort none n = n
abort (some over) n = n
abort (some waiting) n = suc n
abort (some (reading pending)) n = suc n

-- `setStreamConnected(false)`
abbrev pub idle : Live → Live
idle l = record l { shown = record { lines = l.shown.lines; connected = false } }

unfoldable pub start_stream : Live → Live
start_stream l = record {
  current = some waiting;
  aborted = abort l.current l.aborted;
  show_logs = l.show_logs;
  shown = record { lines = []; connected = true };
}

unfoldable pub stop_stream : Live → Live
stop_stream l = idle (record l { current = none; aborted = abort l.current l.aborted })

-- The button that shows the log and hides it; once it is hidden, an effect stops the stream.
unfoldable pub open_logs : Live → Live
open_logs l = start_stream (record l { show_logs = true })

unfoldable pub hide_logs : Live → Live
hide_logs l = stop_stream (record l { show_logs = false })

-- The button to reconnect.
unfoldable pub reconnect : Live → Live
reconnect l =
    start_stream (record l { shown = record { lines = []; connected = l.shown.connected } })

-- The response came, and it is read.
unfoldable pub answer : Live → Live
answer l = record l { current = some (reading []) }

-- The response is not ok or has no body, it has ended, or the promise was rejected.
unfoldable pub end : Live → Live
end l = idle (record l { current = some over })

-- A chunk, read after what was pending.
unfoldable pub receive : Text → Text → Live → Live
receive pending chunk l =
    let reader = receive_chunk (record { pending = pending; shown = l.shown }) chunk in
    record l { current = some (reading reader.pending); shown = reader.shown }

-- The promise of an aborted request is rejected.
unfoldable pub reject : ℕ → Live → Live
reject n l = idle (record l { aborted = n })

-- The page can be in this state, and these chunks came over the request that was started last.
pub data Reach : List Text → Live → Type 0 where
  mounted : Reach [] first
  opened :
      {chunks : List Text} {l : Live}
      → Reach chunks l
      → l.show_logs ≡ false
      → Reach [] (open_logs l)
  hidden :
      {chunks : List Text} {l : Live}
      → Reach chunks l
      → l.show_logs ≡ true
      → Reach chunks (hide_logs l)
  reconnected :
      {chunks : List Text} {l : Live} → Reach chunks l → l.show_logs ≡ true → Reach [] (reconnect l)
  answered :
      {chunks : List Text} {l : Live}
      → Reach chunks l
      → l.current ≡ some waiting
      → Reach chunks (answer l)
  refused :
      {chunks : List Text} {l : Live}
      → Reach chunks l
      → l.current ≡ some waiting
      → Reach chunks (end l)
  came :
      {chunks : List Text} {l : Live} {pending : Text} (chunk : Text)
      → Reach chunks l
      → l.current ≡ some (reading pending)
      → Reach (chunks ++ chunk ∷ []) (receive pending chunk l)
  ended :
      {chunks : List Text} {l : Live} {pending : Text}
      → Reach chunks l
      → l.current ≡ some (reading pending)
      → Reach chunks (end l)
  rejected :
      {chunks : List Text} {l : Live} {n : ℕ}
      → Reach chunks l
      → l.aborted ≡ suc n
      → Reach chunks (reject n l)
