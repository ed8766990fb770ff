-- ===== src/Logs/Controls.antt =====
-- The choices and the filter of frontend/app/(dashboard)/logs/page.tsx. That a choice of the server or of the source
-- stops the stream is in Logs/Stream.antt.
mod Tests
use ventopanel.Base.{
  ℕ, ◌≡◌, refl, ap, ◌∙◌, if◌then◌else◌, Bool, true, false, not, List, [], ◌∷◌, ◌++◌, Text, text,
  truthy, to_lower, contains, keep_if, show, All, arith,
}
use ventopanel.Logs.Address.{Source, file, source_text, LogQuery}
use ventopanel.Logs.Buffer.{LogLine}

-- `containers` is what the query holds for the server, nothing before it holds any.
pub record Controls : Type 0 where
  pub server_id : Text
  pub source : Source
  pub unit : Text
  pub container : Text
  pub file_path : Text
  pub lines : Text
  pub containers : List Text

abbrev pub untouched : Controls
untouched = record {
  server_id = [];
  source = file;
  unit = text "_all";
  container = [];
  file_path = text "/var/log/syslog";
  lines = text "200";
  containers = [];
}

-- The effect that selects the first container.
abbrev pub container_of : List Text → Text → Text
container_of [] container = container
container_of (first ∷ containers) container = if truthy container then container else first

abbrev pub select_container : Controls → Controls
select_container c = record c { container = container_of c.containers c.container }

-- `chose_server` comes with the containers that the query holds for that server, `loaded` with those of a fetch.
pub data Event : Type 0 where
  chose_server : Text → List Text → Event
  loaded : List Text → Event
  chose_source : Source → Event
  chose_unit chose_container typed_path chose_lines : Text → Event

unfoldable pub step : Controls → Event → Controls
step c (chose_server sid containers) =
    select_container (record c { server_id = sid; containers = containers })
step c (loaded containers) = select_container (record c { containers = containers })
step c (chose_source source) = record c { source = source }
step c (chose_unit unit) = record c { unit = unit }
step c (chose_container container) = select_container (record c { container = container })
step c (typed_path path) = record c { file_path = path }
step c (chose_lines lines) = record c { lines = lines }

unfoldable pub run : Controls → List Event → Controls
run c [] = c
run c (e ∷ es) = run (step c e) es

-- What the stream asks for.
abbrev pub query_of : Controls → LogQuery
query_of c = record {
  source = c.source;
  lines = c.lines;
  unit = c.unit;
  container = c.container;
  file_path = c.file_path;
}

-- `visible`
unfoldable pub visible : Text → List LogLine → List LogLine
visible filter lines =
    if truthy filter
    then keep_if (λ l. contains (to_lower l.line) (to_lower filter)) lines
    else lines

-- `downloadLogs`: the name of the file, at a time in milliseconds. It has all lines, also those that are filtered out.
unfoldable pub download_name : Text → Source → ℕ → Text
download_name server_id source now =
    text "logs-"
    ++ server_id
    ++ text "-"
    ++ source_text source
    ++ text "-"
    ++ show now
    ++ text ".txt"

abbrev pub IsNoContainer : Event → Type 0
IsNoContainer (chose_container container) = ⊥
IsNoContainer _ = Unit {0}

container_of-truthy :
    (containers : List Text) (container : Text)
    → truthy container ≡ true
    → container_of containers container ≡ container
container_of-truthy [] container h = refl
container_of-truthy (first ∷ containers) container h = rw h refl

step-container :
    (e : Event) (c : Controls)
    → IsNoContainer e
    → truthy c.container ≡ true
    → (step c e).container ≡ c.container
unfolding step
step-container (chose_server sid containers) c n h = container_of-truthy containers c.container h
step-container (loaded containers) c n h = container_of-truthy containers c.container h
step-container (chose_container container) c n h = absurd n
step-container e c n h = refl

-- Once a container is selected, the stream asks for that one until another is chosen by hand, whatever servers are chosen
-- and whatever containers those have.
run-container :
    (es : List Event) (c : Controls)
    → All IsNoContainer es
    → truthy c.container ≡ true
    → (query_of (run c es)).container ≡ c.container
unfolding run
run-container [] c n h = refl
run-container (e ∷ es) c (n, ns) h =
    let same = step-container e c n h in run-container es (step c e) ns (ap truthy same ∙ h) ∙ same
