-- ===== src/Logs/Buffer.antt =====
-- The lines that frontend/app/(dashboard)/logs/page.tsx keeps.
use ventopanel.Base.{
  ℕ, suc, ◌-◌, ◌≡◌, refl, ap, ◌∙◌, ltb, if◌then◌else◌, List, [], ◌∷◌, ◌++◌, append_assoc,
  append-nil, Text, length, drop, take_last, take_last-append, push_last-take_last,
}
use ventopanel.Logs.Ansi.{strip_ansi}

pub record LogLine : Type 0 where
  pub id : ℕ
  pub line : Text
  pub ts : ℕ

abbrev pub max_lines : ℕ
max_lines = 2000

-- The function that a `log` event gives to `setLogLines`.
unfoldable pub keep_last : List LogLine → LogLine → List LogLine
keep_last prev line =
    let next = prev ++ line ∷ [] in
    if ltb max_lines (length next) then drop (length next - max_lines) next else next

-- The lines and `lineIdRef`.
pub record Buffer : Type 0 where
  pub lines : List LogLine
  pub next_id : ℕ

-- A `log` event, for its data and the time.
unfoldable pub receive_line : Buffer → Text × ℕ → Buffer
receive_line b (payload, ts) = record {
  lines = keep_last b.lines (record { id = b.next_id; line = strip_ansi payload; ts = ts });
  next_id = suc b.next_id;
}

unfoldable pub receive_all : Buffer → List (Text × ℕ) → Buffer
receive_all b [] = b
receive_all b (message ∷ messages) = receive_all (receive_line b message) messages

-- Every message as a line, numbered from `id` on.
abbrev pub numbered : ℕ → List (Text × ℕ) → List LogLine
numbered id [] = []
numbered id ((payload, ts) ∷ messages) =
    record { id = id; line = strip_ansi payload; ts = ts } ∷ numbered (suc id) messages

keep_last-take_last :
    (prev : List LogLine) (line : LogLine)
    → keep_last prev line ≡ take_last max_lines (prev ++ line ∷ [])
unfolding keep_last
keep_last-take_last prev line = push_last-take_last max_lines prev line

receive_all-take_last :
    (id : ℕ) (kept : List LogLine) (messages : List (Text × ℕ))
    → (receive_all (record { lines = take_last max_lines kept; next_id = id }) messages).lines
      ≡ take_last max_lines (kept ++ numbered id messages)
unfolding receive_all receive_line
receive_all-take_last id kept [] = rw (append-nil kept) refl
receive_all-take_last id kept ((payload, ts) ∷ messages) =
    let line : LogLine = record { id = id; line = strip_ansi payload; ts = ts } in
    let same : keep_last (take_last max_lines kept) line ≡ take_last max_lines (kept ++ line ∷ []) =
      keep_last-take_last (take_last max_lines kept) line
      ∙ take_last-append max_lines kept (line ∷ []) in
    ap
      (λ kept_lines. (receive_all (record { lines = kept_lines; next_id = suc id }) messages).lines)
      same
    ∙ receive_all-take_last (suc id) (kept ++ line ∷ []) messages
    ∙ ap (take_last max_lines) (append_assoc kept (line ∷ []) (numbered (suc id) messages))

-- After any messages the viewer holds the last 2000 of them, cleaned, and numbered from 0 in
-- the order they came.
pub receive_all-lines :
    (messages : List (Text × ℕ))
    → (receive_all (record { lines = []; next_id = 0 }) messages).lines
      ≡ take_last max_lines (numbered 0 messages)
receive_all-lines messages = receive_all-take_last 0 [] messages
