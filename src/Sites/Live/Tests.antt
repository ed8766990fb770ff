-- ===== src/Sites/Live/Tests.antt =====
-- Runs of the definitions for the live log of frontend/app/(dashboard)/sites/[id]/page.tsx, and the theorems at them.
use ventopanel.Base.{◌≡◌, refl, true, false, [], ◌∷◌, ◌++◌, Text, text, take_last}
use ventopanel.Sites.LogStream.{
  split_blank, all_but_last, newline, receive_chunk, read_parts, read_lines, read_line, add_line,
}
use ventopanel.Sites.Chunks.{concat}
use ventopanel.Sites.Kept.{messages}
use ventopanel.Sites.Live.{
  Live, first, open_logs, start_stream, reconnect, answer, receive, reject, Reach, mounted, opened,
  answered, came,
}
use ventopanel.Sites.Current.{IsUnderWay, ShowsTruth, Reach-lines, receive_all, reconnect-idle}

abbrev hello : Text
hello = text "data: hello" ++ newline ++ newline

abbrev reading_log : Live
reading_log = receive [] hello (answer (open_logs first))

shows_hello : reading_log.shown.lines ≡ text "hello" ∷ []
unfolding receive receive_chunk answer open_logs start_stream split_blank read_parts read_lines
    read_line add_line
shows_hello = refl

reading_log-Reach : Reach (hello ∷ []) reading_log
unfolding answer open_logs start_stream
reading_log-Reach = came hello (answered (opened mounted refl) refl) refl

Reach-lines_example :
    (reading_log.shown.lines
      ≡ take_last 1000 (messages (all_but_last (split_blank (concat (hello ∷ []))))))
    × ShowsTruth reading_log.shown.connected reading_log.current
Reach-lines_example = Reach-lines reading_log-Reach

reading_log-show : reading_log.show_logs ≡ true
unfolding receive answer open_logs start_stream
reading_log-show = refl

abbrev again : Live
again = receive_all [] (hello ∷ []) (answer (reject reading_log.aborted (reconnect reading_log)))

shows_idle : again.shown.connected ≡ false
unfolding receive receive_chunk answer open_logs start_stream reject reconnect split_blank
    read_parts read_lines read_line add_line
shows_idle = refl

reconnect-idle_example :
    Reach (hello ∷ []) again × IsUnderWay again.current × (again.shown.connected ≡ false)
unfolding receive receive_chunk split_blank answer open_logs start_stream
reconnect-idle_example = reconnect-idle (hello ∷ []) reading_log-Reach reading_log-show refl
