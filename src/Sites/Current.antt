-- ===== src/Sites/Current.antt =====
-- What the page of Sites/Live.antt shows of its requests, and of which one.
use ventopanel.Base.{
  suc, ◌≡◌, refl, sym, ap, ◌∙◌, subst, Bool, true, false, Option, none, some, List, [], ◌∷◌, ◌++◌,
  append_assoc, append-nil, Text, split_on, take_last, arith,
}
use ventopanel.Sites.LogStream.{
  split_blank, all_but_last, last_part, Shown, Reader, initial, read_line, read_lines, read_parts,
  receive_chunk, receive_chunks,
}
use ventopanel.Sites.Chunks.{concat}
use ventopanel.Sites.Kept.{messages, receive_chunks-messages}
use ventopanel.Sites.Live.{
  Fetching, waiting, over, reading, Live, abort, start_stream, stop_stream, open_logs, hide_logs,
  reconnect, answer, end, receive, reject, Reach, mounted, opened, hidden, reconnected, answered,
  refused, came, ended, rejected,
}

-- The lines that are read do not depend on `streamConnected`.
read_line-lines :
    (s t : Shown) (line : Text)
    → s.lines ≡ t.lines
    → (read_line s line).lines ≡ (read_line t line).lines
unfolding read_line
read_line-lines s t line h = ground arith

read_lines-lines :
    (lines : List Text) (s t : Shown)
    → s.lines ≡ t.lines
    → (read_lines s lines).lines ≡ (read_lines t lines).lines
unfolding read_lines
read_lines-lines [] s t h = h
read_lines-lines (line ∷ lines) s t h =
    read_lines-lines lines (read_line s line) (read_line t line) (read_line-lines s t line h)

read_parts-lines :
    (parts : List Text) (s t : Shown)
    → s.lines ≡ t.lines
    → (read_parts s parts).lines ≡ (read_parts t parts).lines
unfolding read_parts
read_parts-lines [] s t h = h
read_parts-lines (part ∷ parts) s t h =
    read_parts-lines parts (read_lines s (split_on 10 part)) (read_lines t (split_on 10 part))
      (read_lines-lines (split_on 10 part) s t h)

receive_chunks-append :
    (reader : Reader) (chunks : List Text) (chunk : Text)
    → receive_chunks reader (chunks ++ chunk ∷ [])
      ≡ receive_chunk (receive_chunks reader chunks) chunk
unfolding receive_chunks
receive_chunks-append reader [] chunk = refl
receive_chunks-append reader (c ∷ chunks) chunk =
    receive_chunks-append (receive_chunk reader c) chunks chunk

-- The buffer of a request that is read.
abbrev HasPending : Text → Option Fetching → Type 0
HasPending p (some (reading pending)) = pending ≡ p
HasPending p (some waiting) = p ≡ []
HasPending p (some over) = Unit {0}
HasPending p none = Unit {0}

-- What is shown, and what is pending, is what these chunks give.
record IsRead (chunks : List Text) (l : Live) : Type 0 where
  same_lines : l.shown.lines ≡ (receive_chunks initial chunks).shown.lines
  same_pending : HasPending (receive_chunks initial chunks).pending l.current

receive-IsRead :
    (chunks : List Text) (l : Live) (pending chunk : Text)
    → l.current ≡ some (reading pending)
    → IsRead chunks l
    → IsRead (chunks ++ chunk ∷ []) (receive pending chunk l)
unfolding receive receive_chunk
receive-IsRead chunks l pending chunk e h =
    let read : Reader = receive_chunks initial chunks in
    let same : pending ≡ read.pending = subst (HasPending read.pending) e h.same_pending in
    let more = receive_chunks-append initial chunks chunk in
    record {
      same_lines =
          read_parts-lines (all_but_last (split_blank (pending ++ chunk))) l.shown read.shown
            h.same_lines
          ∙ ap (λ p. (read_parts read.shown (all_but_last (split_blank (p ++ chunk)))).lines) same
          ∙ sym (ap (λ r. r.shown.lines) more);
      same_pending =
          ap (λ p. last_part (split_blank (p ++ chunk))) same ∙ sym (ap (λ r. r.pending) more);
    }

Reach-IsRead : {chunks : List Text} {l : Live} → Reach chunks l → IsRead chunks l
unfolding open_logs hide_logs reconnect answer end reject start_stream stop_stream receive_chunks
Reach-IsRead mounted = record { same_lines = refl; same_pending = tt }
Reach-IsRead (opened r s) = record { same_lines = refl; same_pending = refl }
Reach-IsRead (hidden r s) = record { same_lines = (Reach-IsRead r).same_lines; same_pending = tt }
Reach-IsRead (reconnected r s) = record { same_lines = refl; same_pending = refl }
Reach-IsRead (answered r s) = record {
  same_lines = (Reach-IsRead r).same_lines;
  same_pending = sym (subst (HasPending _) s (Reach-IsRead r).same_pending);
}
Reach-IsRead (refused r s) = record { same_lines = (Reach-IsRead r).same_lines; same_pending = tt }
Reach-IsRead (came chunk r s) = receive-IsRead _ _ _ chunk s (Reach-IsRead r)
Reach-IsRead (ended r s) = record { same_lines = (Reach-IsRead r).same_lines; same_pending = tt }
Reach-IsRead (rejected r s) = record {
  same_lines = (Reach-IsRead r).same_lines;
  same_pending = (Reach-IsRead r).same_pending;
}

-- A request that has not ended.
abbrev pub IsUnderWay : Option Fetching → Type 0
IsUnderWay none = ⊥
IsUnderWay (some over) = ⊥
IsUnderWay (some waiting) = Unit {0}
IsUnderWay (some (reading pending)) = Unit {0}

-- That the page says it is connected is true.
abbrev pub ShowsTruth : Bool → Option Fetching → Type 0
ShowsTruth true current = IsUnderWay current
ShowsTruth false current = Unit {0}

connected-ShowsTruth :
    (b : Bool) (current : Option Fetching) → (b ≡ true → IsUnderWay current) → ShowsTruth b current
connected-ShowsTruth true current h = h refl
connected-ShowsTruth false current h = tt

read_line-connected :
    (s : Shown) (line : Text) → s.connected ≡ false → (read_line s line).connected ≡ false
unfolding read_line
read_line-connected s line h = ground arith

read_lines-connected :
    (lines : List Text) (s : Shown) → s.connected ≡ false → (read_lines s lines).connected ≡ false
unfolding read_lines
read_lines-connected [] s h = h
read_lines-connected (line ∷ lines) s h =
    read_lines-connected lines (read_line s line) (read_line-connected s line h)

read_parts-connected :
    (parts : List Text) (s : Shown) → s.connected ≡ false → (read_parts s parts).connected ≡ false
unfolding read_parts
read_parts-connected [] s h = h
read_parts-connected (part ∷ parts) s h =
    read_parts-connected parts (read_lines s (split_on 10 part))
      (read_lines-connected (split_on 10 part) s h)

-- The page says that it is connected only while the request that was started last is under way.
Reach-IsUnderWay :
    {chunks : List Text} {l : Live}
    → Reach chunks l
    → l.shown.connected ≡ true
    → IsUnderWay l.current
unfolding open_logs hide_logs reconnect answer end reject start_stream stop_stream receive
Reach-IsUnderWay mounted h = cc
Reach-IsUnderWay (opened r s) h = tt
Reach-IsUnderWay (hidden r s) h = cc
Reach-IsUnderWay (reconnected r s) h = tt
Reach-IsUnderWay (answered r s) h = tt
Reach-IsUnderWay (refused r s) h = cc
Reach-IsUnderWay (came chunk r s) h = tt
Reach-IsUnderWay (ended r s) h = cc
Reach-IsUnderWay (rejected r s) h = cc

-- However the log is shown, hidden and reconnected, and in whatever order responses come, end and fail, the page shows
-- the last 1000 messages of the parts that came complete over the request that was started last, and says that it is
-- connected only while that request is under way.
pub Reach-lines :
    {chunks : List Text} {l : Live}
    → Reach chunks l
    → (l.shown.lines ≡ take_last 1000 (messages (all_but_last (split_blank (concat chunks)))))
      × ShowsTruth l.shown.connected l.current
Reach-lines {chunks} r = (
  (Reach-IsRead r).same_lines ∙ receive_chunks-messages chunks,
  connected-ShowsTruth _ _ (Reach-IsUnderWay r),
)

-- Chunks that come over the request that is read.
abbrev pub receive_all : Text → List Text → Live → Live
receive_all pending [] l = l
receive_all pending (chunk ∷ chunks) l =
    let l' = receive pending chunk l in
    receive_all (last_part (split_blank (pending ++ chunk))) chunks l'

receive_all-connected :
    (chunks : List Text) (pending : Text) (l : Live)
    → l.shown.connected ≡ false
    → (receive_all pending chunks l).shown.connected ≡ false
unfolding receive receive_chunk
receive_all-connected [] pending l h = h
receive_all-connected (chunk ∷ chunks) pending l h =
    receive_all-connected chunks (last_part (split_blank (pending ++ chunk)))
      (receive pending chunk l)
      (read_parts-connected (all_but_last (split_blank (pending ++ chunk))) l.shown h)

receive_all-Reach :
    (chunks : List Text) (pending : Text) (before : List Text) (l : Live)
    → Reach before l
    → l.current ≡ some (reading pending)
    → Reach (before ++ chunks) (receive_all pending chunks l)
      × IsUnderWay (receive_all pending chunks l).current
unfolding receive receive_chunk
receive_all-Reach [] pending before l r e =
    (subst (λ cs. Reach cs l) (sym (append-nil before)) r, subst IsUnderWay (sym e) tt)
receive_all-Reach (chunk ∷ chunks) pending before l r e =
    let (there, going) =
      receive_all-Reach chunks (last_part (split_blank (pending ++ chunk))) (before ++ chunk ∷ [])
        (receive pending chunk l) (came chunk r e) refl in
    (
      subst (λ cs. Reach cs (receive_all pending (chunk ∷ chunks) l))
          (append_assoc before (chunk ∷ []) chunks) there,
      going,
    )

-- If the log is reconnected while its stream is read, the promise of the stream that this aborts is rejected, and then
-- the new response comes, the page says that it is not connected, whatever comes over the new stream, which is under
-- way and whose lines the page shows.
pub reconnect-idle :
    {before : List Text} {l : Live} {pending : Text} (chunks : List Text)
    → Reach before l
    → l.show_logs ≡ true
    → l.current ≡ some (reading pending)
    → Reach chunks (receive_all [] chunks (answer (reject l.aborted (reconnect l))))
      × IsUnderWay (receive_all [] chunks (answer (reject l.aborted (reconnect l)))).current
      × ((receive_all [] chunks (answer (reject l.aborted (reconnect l)))).shown.connected ≡ false)
unfolding reconnect start_stream answer reject
reconnect-idle {l} chunks r s e =
    let again : Reach [] (reconnect l) = reconnected r s in
    let left : (reconnect l).aborted ≡ suc l.aborted = ap (λ c. abort c l.aborted) e in
    let new = answered (rejected again left) refl in
    let (there, going) =
      receive_all-Reach chunks [] [] (answer (reject l.aborted (reconnect l))) new refl in
    (there, going, receive_all-connected chunks [] (answer (reject l.aborted (reconnect l))) refl)
