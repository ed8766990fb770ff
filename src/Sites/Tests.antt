-- ===== src/Sites/Tests.antt =====
-- Runs of the definitions for frontend/app/(dashboard)/sites/[id]/page.tsx, and the theorems at concrete
-- inputs.
use ventopanel.Base.{◌≡◌, refl, true, List, [], ◌∷◌, ◌++◌, Text, text, contains}
use ventopanel.Sites.Guide.{gha_yaml, gitlab_yaml}
use mathlib.Core.Quot
use ventopanel.Sites.KeySets.{KeySet, is_shown, toggle, toggle-toggle}
use ventopanel.Sites.LogStream.{
  split_blank, newline, add_line, read_line, read_lines, read_parts, initial, receive_chunk,
  receive_chunks,
}
use ventopanel.Sites.Chunks.{concat, receive_chunks-concat}

-- A message whose end is cut between its two newlines, and one that never ends.
abbrev response : List Text
response =
    (text "data: st"
      ∷ (text "arted" ++ newline)
      ∷ (newline ++ text "data: stream ended")
      ∷ (newline ++ newline ++ text "data: lo")
      ∷ [])

shows_started : (receive_chunks initial response).shown.lines ≡ text "started" ∷ []
unfolding receive_chunks receive_chunk split_blank read_parts read_lines read_line add_line
shows_started = refl

receive_chunks-concat_example :
    receive_chunks initial response ≡ receive_chunk initial (concat response)
receive_chunks-concat_example = receive_chunks-concat response

-- Both files of the guide say which branch is deployed, and where.
gha_yaml_example :
    contains
      (gha_yaml (text "https://h/w?t=1") (text "main"))
      (text "-d '{\"ref\":\"refs/heads/main\"}' \\\n            \"https://h/w?t=1\"")
    ≡ true
unfolding gha_yaml
gha_yaml_example = refl

gitlab_yaml_example :
    contains
      (gitlab_yaml (text "https://h/w?t=1") (text "main"))
      (text "-d '{\"ref\":\"refs/heads/main\"}' \\\n        \"https://h/w?t=1\"")
    ≡ true
unfolding gitlab_yaml
gitlab_yaml_example = refl

-- The set with one key.
abbrev shown_keys : KeySet
shown_keys = Quot.mk (text "A" ∷ [])

toggle-toggle_example :
    (is_shown (text "A") (toggle (text "B") shown_keys) ≡ is_shown (text "A") shown_keys)
    × (toggle (text "B") (toggle (text "B") shown_keys) ≡ shown_keys)
    × (toggle (text "A") (toggle (text "B") shown_keys)
        ≡ toggle (text "B") (toggle (text "A") shown_keys))
toggle-toggle_example = toggle-toggle (text "A") (text "B") (text "A") shown_keys
