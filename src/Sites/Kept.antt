-- ===== src/Sites/Kept.antt =====
-- The lines that Sites/LogStream.antt keeps, against the messages of the response.
use ventopanel.Base.{
  ◌-◌, ◌≡◌, refl, ap, sym, ◌∙◌, subst, if◌then◌else◌, not, ◌&&◌, List, [], ◌∷◌, ◌++◌, append_assoc,
  append-nil, Text, text, text_eq, split_on, length, take_last, drop, take_last-append,
  length-append, drop-append_le, arith,
}
use ventopanel.Sites.LogStream.{
  split_blank, all_but_last, is_data, Shown, add_line, read_line, read_lines, read_parts, initial,
  receive_chunk, receive_chunks,
}
use ventopanel.Sites.Chunks.{concat, receive_chunks-concat}

-- The texts of the `data` lines, less the one that says that the stream has ended.
abbrev pub messages_of_lines : List Text → List Text
messages_of_lines [] = []
messages_of_lines (line ∷ lines) =
    if is_data line && not (text_eq (drop 6 line) (text "stream ended"))
    then drop 6 line ∷ messages_of_lines lines
    else messages_of_lines lines

abbrev pub messages : List Text → List Text
messages [] = []
messages (part ∷ parts) = messages_of_lines (split_on 10 part) ++ messages parts

add_line-take_last : (xs : List Text) (x : Text) → add_line xs x ≡ take_last 1000 (xs ++ x ∷ [])
unfolding add_line
add_line-take_last xs x =
    let same : length (xs ++ x ∷ []) - 1000 ≡ length xs - 999 =
      omega (arith, length-append xs (x ∷ [])) in
    rw same (sym (drop-append_le (length xs - 999) xs (x ∷ []) (omega arith)))

keep_one :
    (xs : List Text) (x : Text) → add_line (take_last 1000 xs) x ≡ take_last 1000 (xs ++ x ∷ [])
keep_one xs x = add_line-take_last (take_last 1000 xs) x ∙ take_last-append 1000 xs (x ∷ [])

-- What is shown are the last 1000 of some messages.
Keeps : List Text → Shown → Type 0
Keeps xs shown = shown.lines ≡ take_last 1000 xs

read_line-Keeps :
    (xs : List Text) (shown : Shown) (line : Text)
    → Keeps xs shown
    → Keeps (xs ++ messages_of_lines (line ∷ [])) (read_line shown line)
unfolding Keeps read_line
read_line-Keeps xs shown line h = ground (arith, keep_one xs (drop 6 line), append-nil xs, h)

messages_of_lines-cons :
    (line : Text) (lines : List Text)
    → messages_of_lines (line ∷ []) ++ messages_of_lines lines ≡ messages_of_lines (line ∷ lines)
messages_of_lines-cons line lines = ground arith

read_lines-Keeps :
    (lines : List Text) (xs : List Text) (shown : Shown)
    → Keeps xs shown
    → Keeps (xs ++ messages_of_lines lines) (read_lines shown lines)
unfolding read_lines
read_lines-Keeps [] xs shown h = rw (append-nil xs) h
read_lines-Keeps (line ∷ lines) xs shown h =
    subst (λ ys. Keeps ys (read_lines (read_line shown line) lines))
      (append_assoc xs (messages_of_lines (line ∷ [])) (messages_of_lines lines)
        ∙ ap (λ ys. xs ++ ys) (messages_of_lines-cons line lines))
      (read_lines-Keeps lines (xs ++ messages_of_lines (line ∷ [])) (read_line shown line)
        (read_line-Keeps xs shown line h))

read_parts-Keeps :
    (parts : List Text) (xs : List Text) (shown : Shown)
    → Keeps xs shown
    → Keeps (xs ++ messages parts) (read_parts shown parts)
unfolding read_parts
read_parts-Keeps [] xs shown h = rw (append-nil xs) h
read_parts-Keeps (part ∷ parts) xs shown h =
    let lines : List Text = split_on 10 part in
    subst (λ ys. Keeps ys (read_parts (read_lines shown lines) parts))
      (append_assoc xs (messages_of_lines lines) (messages parts))
      (read_parts-Keeps parts (xs ++ messages_of_lines lines) (read_lines shown lines)
        (read_lines-Keeps lines xs shown h))

-- The page shows the last 1000 messages of the parts that were complete, however the response was cut
-- into chunks.
pub receive_chunks-messages :
    (chunks : List Text)
    → (receive_chunks initial chunks).shown.lines
      ≡ take_last 1000 (messages (all_but_last (split_blank (concat chunks))))
unfolding Keeps receive_chunk
receive_chunks-messages chunks =
    ap (λ reader. reader.shown.lines) (receive_chunks-concat chunks)
    ∙ read_parts-Keeps (all_but_last (split_blank (concat chunks))) [] initial.shown refl
