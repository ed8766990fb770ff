-- ===== src/Sites/LogStream.antt =====
-- `startStream` of frontend/app/(dashboard)/sites/[id]/page.tsx: how the chunks of the response become
-- lines. A chunk is the text that the `TextDecoder` gives for it.
use ventopanel.Base.{
  lengthen, ◌==◌, if◌then◌else◌, Bool, true, false, ◌&&◌, List, [], ◌∷◌, ◌++◌, Text, text, text_eq,
  split_on, take, drop, take_last,
}

abbrev pub newline : Text
newline = 10 ∷ []

-- `buffer.split("\n\n")`
unfoldable pub split_blank : Text → List Text
split_blank [] = [] ∷ []
split_blank (c ∷ []) = (c ∷ []) ∷ []
split_blank (c ∷ d ∷ s) = elim ((c == 10) && (d == 10)) [
  | true ↦ [] ∷ split_blank s
  | false ↦ lengthen c (split_blank (d ∷ s))
]

-- What `parts.pop()` leaves of the parts, and what it gives.
abbrev pub all_but_last : List Text → List Text
all_but_last [] = []
all_but_last (p ∷ []) = []
all_but_last (p ∷ q ∷ ps) = p ∷ all_but_last (q ∷ ps)

abbrev pub last_part : List Text → Text
last_part [] = []
last_part (p ∷ []) = p
last_part (p ∷ q ∷ ps) = last_part (q ∷ ps)

-- `line.startsWith("data: ")`
abbrev pub is_data : Text → Bool
is_data line = text_eq (take 6 line) (text "data: ")

-- What the page shows: `streamLines` and `streamConnected`.
pub record Shown : Type 0 where
  pub lines : List Text
  pub connected : Bool

-- `[...prev.slice(-999), text]`
unfoldable pub add_line : List Text → Text → List Text
add_line prev line = take_last 999 prev ++ line ∷ []

unfoldable pub read_line : Shown → Text → Shown
read_line shown line =
    if is_data line
    then (if text_eq (drop 6 line) (text "stream ended")
        then shown
        else record shown { lines = add_line shown.lines (drop 6 line) })
    else (if text_eq line (text "event: close") then record shown { connected = false } else shown)

unfoldable pub read_lines : Shown → List Text → Shown
read_lines shown [] = shown
read_lines shown (line ∷ lines) = read_lines (read_line shown line) lines

unfoldable pub read_parts : Shown → List Text → Shown
read_parts shown [] = shown
read_parts shown (part ∷ parts) = read_parts (read_lines shown (split_on 10 part)) parts

-- The buffer of the loop, and what the page shows.
pub record Reader : Type 0 where
  pub pending : Text
  pub shown : Shown

abbrev pub initial : Reader
initial = record { pending = []; shown = record { lines = []; connected = true } }

-- One round of the loop, for a chunk.
unfoldable pub receive_chunk : Reader → Text → Reader
receive_chunk reader chunk =
    let parts = split_blank (reader.pending ++ chunk) in
    record { pending = last_part parts; shown = read_parts reader.shown (all_but_last parts) }

unfoldable pub receive_chunks : Reader → List Text → Reader
receive_chunks reader [] = reader
receive_chunks reader (chunk ∷ chunks) = receive_chunks (receive_chunk reader chunk) chunks

-- What is shown when the response has ended.
unfoldable pub finish : Reader → Shown
finish reader = record { lines = reader.shown.lines; connected = false }
