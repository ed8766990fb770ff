-- ===== src/Monitor/Kept.antt =====
-- What the page of Monitor/Stream.antt keeps of the metrics, in which order.
use ventopanel.Base.{
  ℕ, ◌≡◌, refl, ap, ◌∙◌, sym, inl, inr, Option, none, some, Option-cases, List, [], ◌∷◌, ◌++◌,
  append-nil, append_assoc, map, Text, take_last,
}
use ventopanel.Monitor.Points.{
  Snapshot, ChartPoint, max_points, to_point, add_point, add_point-take_last,
}
use ventopanel.Monitor.Stream.{Stream, metrics_arrived, on_metrics, if_open, step, run}

module _ {R : Type 0} (parse : Text → Option (Snapshot R)) (show_time : ℕ → Text) where
  -- The points of the payloads that can be read.
  abbrev pub points_of : List Text → List (ChartPoint R)
  points_of [] = []
  points_of (payload ∷ payloads) = elim (parse payload) [
    | none ↦ points_of payloads
    | some snapshot ↦ to_point show_time snapshot ∷ points_of payloads
  ]

  metrics_read :
      (s : Stream R) (payload sid : Text) (snapshot : Snapshot R)
      → s.source ≡ some sid
      → parse payload ≡ some snapshot
      → ((step parse show_time s (metrics_arrived payload)).history
          ≡ add_point s.history (to_point show_time snapshot))
        × ((step parse show_time s (metrics_arrived payload)).source ≡ some sid)
  unfolding step on_metrics
  metrics_read s payload sid snapshot h e =
      (rw (h, e, step, on_metrics) refl, rw (h, e, step, on_metrics) h)

  on_metrics_unread :
      (s : Stream R) (payload : Text)
      → parse payload ≡ none
      → on_metrics parse show_time payload s ≡ s
  unfolding on_metrics
  on_metrics_unread s payload e = rw (e, on_metrics) refl

  if_open_same : (o : Option Text) (s : Stream R) → if_open o s s ≡ s
  if_open_same none s = refl
  if_open_same (some sid) s = refl

  metrics_unread :
      (s : Stream R) (payload : Text)
      → parse payload ≡ none
      → step parse show_time s (metrics_arrived payload) ≡ s
  unfolding step
  metrics_unread s payload e =
      ap (λ next. if_open s.source next s) (on_metrics_unread s payload e) ∙ if_open_same s.source s

  run-metrics :
      (payloads : List Text) (s : Stream R) (sid : Text) (before : List (ChartPoint R))
      → s.source ≡ some sid
      → s.history ≡ take_last max_points before
      → (run parse show_time s (map metrics_arrived payloads)).history
        ≡ take_last max_points (before ++ points_of payloads)
  unfolding run
  run-metrics [] s sid before h k = k ∙ ap (take_last max_points) (sym (append-nil before))
  run-metrics (payload ∷ payloads) s sid before h k = elim (Option-cases (parse payload)) [
    | inl e ↦
        rw (e, points_of)
          (ap (λ next. (run parse show_time next (map metrics_arrived payloads)).history)
              (metrics_unread s payload e)
            ∙ run-metrics payloads s sid before h k)
    | inr (snapshot, e) ↦
        let point : ChartPoint R = to_point show_time snapshot in
        let (kept, still) = metrics_read s payload sid snapshot h e in
        rw (e, points_of)
          (run-metrics payloads (step parse show_time s (metrics_arrived payload)) sid
              (before ++ point ∷ []) still
              (kept
                ∙ ap (λ history. add_point history point) k
                ∙ add_point-take_last show_time before point)
            ∙ ap (take_last max_points) (append_assoc before (point ∷ []) (points_of payloads)))
  ]

  -- Once a connection is open and no point is kept yet, the charts show the last 40 points of the metrics that can be read,
  -- in the order they came.
  pub run-history :
      (payloads : List Text) (s : Stream R) (sid : Text)
      → s.source ≡ some sid
      → s.history ≡ []
      → (run parse show_time s (map metrics_arrived payloads)).history
        ≡ take_last 40 (points_of payloads)
  run-history payloads s sid h k = run-metrics payloads s sid [] h k
