-- ===== src/Monitor/Bounds.antt =====
-- The bounds within which the state of Monitor/Stream.antt stays.
use ventopanel.Base.{
  ℕ, suc, ◌≤◌, ◌≡◌, inl, inr, true, false, Bool-cases, Option, none, some, Option-cases, List, [],
  ◌∷◌, Text, truthy, get_elem?, ltb, if◌then◌else◌, length, length-push_last, All, All-push_last,
  text_eq, ltb→lt, Bool, ◌&&◌, ◌==◌, ◌-◌, arith,
}
use ventopanel.Logs.Retries.{IsDelay, delay-IsDelay}
use ventopanel.Logs.Stream.{delay}
use ventopanel.Monitor.Points.{Snapshot, ChartPoint, max_points, to_point, add_point, to_point-pct}
use ventopanel.Monitor.Stream.{
  Stream, Event, chose, retried, replied, metrics_arrived, server_failed, connection_failed,
  timer_fired, lost_timer_fired, is_error, max_retries, reconnect_delay, stop, open_stream, start,
  preflight_done, choose, on_error, on_server_error, on_timer, on_metrics, if_open, step, run,
}

module _ {R : Type 0} (parse : Text → Option (Snapshot R)) (show_time : ℕ → Text) where
  -- The bounds of the page's constants, and percentages of memory that are percentages.
  abbrev pub IsBounded : Stream R → Type 0
  IsBounded s =
      (s.retries ≤ max_retries)
      × IsDelay s.timer
      × (length s.history ≤ max_points)
      × All (λ point. point.ram_pct ≤ 100) s.history

  -- Metrics that use no more memory than there is.
  abbrev pub IsSound : Type 0
  IsSound =
      (payload : Text) (snapshot : Snapshot R)
      → parse payload ≡ some snapshot
      → snapshot.ram_used_mb ≤ snapshot.ram_total_mb

  on_metrics-IsBounded :
      (payload : Text) (s : Stream R)
      → IsSound
      → IsBounded s
      → IsBounded (on_metrics parse show_time payload s)
  unfolding on_metrics add_point
  on_metrics-IsBounded payload s sound (r, t, l, a) = elim (Option-cases (parse payload)) [
    | inl e ↦ rw (e, on_metrics) (r, t, l, a)
    | inr (snapshot, e) ↦
        let point : ChartPoint R = to_point show_time snapshot in
        rw (e, on_metrics)
          (
            omega arith,
            t,
            length-push_last max_points s.history point,
            All-push_last (λ p. p.ram_pct ≤ 100) max_points s.history point a
                (to_point-pct show_time snapshot (sound payload snapshot e)),
          )
  ]

  reconnect_delay-IsDelay : (n : ℕ) → 1 ≤ n → n ≤ 5 → IsDelay (some (reconnect_delay n))
  unfolding reconnect_delay delay
  reconnect_delay-IsDelay n h k = delay-IsDelay n h k

  on_error-IsBounded : (s : Stream R) → IsBounded s → IsBounded (on_error s)
  unfolding on_error
  on_error-IsBounded s (r, t, l, a) = elim (Bool-cases (ltb s.retries max_retries)) [
    | inl e ↦
        rw (e, on_error)
          (
            ltb→lt s.retries 5 e,
            reconnect_delay-IsDelay (suc s.retries) (omega arith)
                (omega (arith, ltb→lt s.retries 5 e)),
            l,
            a,
          )
    | inr e ↦ rw (e, on_error) (r, t, l, a)
  ]

  if-IsBounded :
      (b : Bool) (s u : Stream R) → IsBounded s → IsBounded u → IsBounded (if b then s else u)
  if-IsBounded true s u h k = h
  if-IsBounded false s u h k = k

  if_open-IsBounded :
      (o : Option Text) (next s : Stream R)
      → IsBounded next
      → IsBounded s
      → IsBounded (if_open o next s)
  if_open-IsBounded none next s h k = k
  if_open-IsBounded (some sid) next s h k = h

  on_timer-IsBounded : (s : Stream R) → IsBounded s → IsBounded (on_timer s)
  unfolding on_timer open_stream
  on_timer-IsBounded s h = if-IsBounded (truthy s.server_ref) _ s h h

  choose-IsBounded : (sid : Text) (s : Stream R) → IsBounded s → IsBounded (choose sid s)
  unfolding choose start stop
  choose-IsBounded sid s (r, t, l, a) =
      if-IsBounded (text_eq sid s.server_id) s _ (r, t, l, a)
        (if-IsBounded (truthy sid) _ _ (omega arith, tt, omega arith, tt) (omega arith, tt, l, a))

  on_server_error-IsBounded :
      (payload : Text) (s : Stream R) → IsBounded s → IsBounded (on_server_error payload s)
  unfolding on_server_error
  on_server_error-IsBounded payload s h = if-IsBounded (truthy payload) _ s h h

  preflight_done-IsBounded :
      (sid : Text) (refusal : Option Text) (s : Stream R)
      → IsBounded s
      → IsBounded (preflight_done sid refusal s)
  unfolding preflight_done open_stream
  preflight_done-IsBounded sid none s h = h
  preflight_done-IsBounded sid (some message) s h = h

  step-IsBounded :
      (e : Event) (s : Stream R) → IsSound → IsBounded s → IsBounded (step parse show_time s e)
  unfolding step start
  step-IsBounded (chose sid) s sound h = choose-IsBounded sid s h
  step-IsBounded retried s sound (r, t, l, a) =
      if-IsBounded (truthy s.server_id && is_error s.status) _ s (omega arith, tt, omega arith, tt)
        (r, t, l, a)
  step-IsBounded (replied i refusal) s sound h = elim (Option-cases (get_elem? s.preflights i)) [
    | inl e ↦ rw (e, step) h
    | inr (sid, e) ↦ rw (e, step) (preflight_done-IsBounded sid refusal _ h)
  ]
  step-IsBounded (metrics_arrived payload) s sound h =
      if_open-IsBounded s.source _ s (on_metrics-IsBounded payload s sound h) h
  step-IsBounded (server_failed payload) s sound h =
      if_open-IsBounded s.source _ s
        (on_error-IsBounded (on_server_error payload s) (on_server_error-IsBounded payload s h)) h
  step-IsBounded connection_failed s sound h =
      if_open-IsBounded s.source _ s (on_error-IsBounded s h) h
  step-IsBounded timer_fired s sound (r, t, l, a) = elim (Option-cases s.timer) [
    | inl e ↦ rw (e, step) (r, t, l, a)
    | inr (wait, e) ↦ rw (e, step) (on_timer-IsBounded (record s { timer = none }) (r, tt, l, a))
  ]
  step-IsBounded lost_timer_fired s sound h =
      if-IsBounded (s.lost == 0) s _ h (on_timer-IsBounded (record s { lost = s.lost - 1 }) h)

  -- If the metrics never use more memory than there is, then whatever is chosen, clicked and received, at most 5 retries
  -- are counted, a timeout waits from 2 to 30 seconds, at most 40 points are kept, and none has a percentage of memory in
  -- use above 100.
  pub run-IsBounded :
      (es : List Event) (s : Stream R)
      → IsSound
      → IsBounded s
      → IsBounded (run parse show_time s es)
  unfolding run
  run-IsBounded [] s sound h = h
  run-IsBounded (e ∷ es) s sound h =
      run-IsBounded es (step parse show_time s e) sound (step-IsBounded e s sound h)
