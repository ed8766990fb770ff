-- ===== src/Monitor/Selected.antt =====
-- From which server the metrics of Monitor/Stream.antt come.
use ventopanel.Base.{
  ℕ, ◌≡◌, refl, sym, subst, inl, inr, true, false, Bool, ◌&&◌, refl, All-append, Option, none, some,
  Option-cases, List, [], ◌∷◌, ◌++◌, Text, truthy, get_elem?, remove_at, All-get_elem?, ltb,
  if◌then◌else◌, All, text_eq, ◌==◌, ◌-◌,
}
use ventopanel.Monitor.Points.{Snapshot}
use ventopanel.Monitor.Stream.{
  Stream, Event, chose, retried, replied, metrics_arrived, server_failed, connection_failed,
  timer_fired, lost_timer_fired, is_error, max_retries, stop, open_stream, start, preflight_done,
  choose, on_error, on_server_error, on_timer, on_metrics, if_open, step, run,
}

-- This is the server that is chosen, if one is.
abbrev pub IsChosen : Text → Text → Type 0
IsChosen chosen sid = (sid ≡ chosen) × (truthy chosen ≡ true)

abbrev pub IsSourceOf : Text → Option Text → Type 0
IsSourceOf chosen none = Unit {0}
IsSourceOf chosen (some sid) = IsChosen chosen sid

both_true : (a b : Bool) → (a && b) ≡ true → a ≡ true
both_true true b h = refl
both_true false b h = cc

empty_of : (sid : Text) → truthy sid ≡ false → [] ≡ sid
empty_of [] h = refl
empty_of (c ∷ sid) h = cc

module _ {R : Type 0} where
  -- The connection, the timeout and the requests are about the server that is chosen.
  abbrev pub FollowsChoice : Stream R → Type 0
  FollowsChoice s =
      (s.server_ref ≡ s.server_id)
      × IsSourceOf s.server_id s.source
      × All (IsChosen s.server_id) s.preflights

  if-FollowsChoice :
      (b : Bool) (s u : Stream R)
      → (b ≡ true → FollowsChoice s)
      → (b ≡ false → FollowsChoice u)
      → FollowsChoice (if b then s else u)
  if-FollowsChoice true s u h k = h refl
  if-FollowsChoice false s u h k = k refl

  if_open-FollowsChoice :
      (o : Option Text) (next s : Stream R)
      → FollowsChoice next
      → FollowsChoice s
      → FollowsChoice (if_open o next s)
  if_open-FollowsChoice none next s h k = k
  if_open-FollowsChoice (some sid) next s h k = h

  on_timer-FollowsChoice : (s : Stream R) → FollowsChoice s → FollowsChoice (on_timer s)
  unfolding on_timer open_stream
  on_timer-FollowsChoice s (same, source, asked) =
      if-FollowsChoice (truthy s.server_ref) _ s
        (λ t. (same, (same, subst (λ sid. truthy sid ≡ true) same t), asked))
        (λ t. (same, source, asked))

  on_error-FollowsChoice : (s : Stream R) → FollowsChoice s → FollowsChoice (on_error s)
  unfolding on_error
  on_error-FollowsChoice s (same, source, asked) =
      if-FollowsChoice (ltb s.retries max_retries) _ _ (λ t. (same, tt, asked))
        (λ t. (same, tt, asked))

  on_server_error-FollowsChoice :
      (payload : Text) (s : Stream R) → FollowsChoice s → FollowsChoice (on_server_error payload s)
  unfolding on_server_error
  on_server_error-FollowsChoice payload s (same, source, asked) =
      if-FollowsChoice (truthy payload) _ s (λ t. (same, tt, asked)) (λ t. (same, source, asked))

  preflight_done-FollowsChoice :
      (sid : Text) (refusal : Option Text) (s : Stream R)
      → IsChosen s.server_id sid
      → FollowsChoice s
      → FollowsChoice (preflight_done sid refusal s)
  unfolding preflight_done open_stream
  preflight_done-FollowsChoice sid (some message) s c h = h
  preflight_done-FollowsChoice sid none s c (same, source, asked) = (same, c, asked)

  choose-FollowsChoice :
      (sid : Text) (s : Stream R)
      → FollowsChoice s
      → s.preflights ≡ []
      → FollowsChoice (choose sid s)
  unfolding choose start stop
  choose-FollowsChoice sid s h none_waits =
      if-FollowsChoice (text_eq sid s.server_id) s _ (λ t. h)
        (λ t.
          if-FollowsChoice (truthy sid) _ _
            (λ chosen. (
              refl,
              tt,
              subst (λ asked. All (IsChosen sid) (asked ++ sid ∷ [])) (sym none_waits)
                  ((refl, chosen), tt),
            ))
            (λ blank. (empty_of sid blank, tt, subst (All (IsChosen sid)) (sym none_waits) tt)))

  module _ (parse : Text → Option (Snapshot R)) (show_time : ℕ → Text) where
    on_metrics-FollowsChoice :
        (payload : Text) (s : Stream R)
        → FollowsChoice s
        → FollowsChoice (on_metrics parse show_time payload s)
    unfolding on_metrics
    on_metrics-FollowsChoice payload s h = elim (Option-cases (parse payload)) [
      | inl e ↦ rw (e, on_metrics) h
      | inr (snapshot, e) ↦ rw (e, on_metrics) h
    ]

    -- Another server is chosen only when no first request waits for its reply.
    abbrev pub IsPatient : Stream R → List Event → Type 0
    IsPatient s [] = Unit {0}
    IsPatient s (chose sid ∷ es) =
        (s.preflights ≡ []) × IsPatient (step parse show_time s (chose sid)) es
    IsPatient s (e ∷ es) = IsPatient (step parse show_time s e) es

    -- What an event has to meet.
    abbrev pub IsTimely : Stream R → Event → Type 0
    IsTimely s (chose sid) = s.preflights ≡ []
    IsTimely s _ = Unit {0}

    IsPatient-head :
        (e : Event) (es : List Event) (s : Stream R)
        → IsPatient s (e ∷ es)
        → IsTimely s e × IsPatient (step parse show_time s e) es
    IsPatient-head (chose sid) es s p = p
    IsPatient-head retried es s p = (tt, p)
    IsPatient-head (replied i refusal) es s p = (tt, p)
    IsPatient-head (metrics_arrived payload) es s p = (tt, p)
    IsPatient-head (server_failed payload) es s p = (tt, p)
    IsPatient-head connection_failed es s p = (tt, p)
    IsPatient-head timer_fired es s p = (tt, p)
    IsPatient-head lost_timer_fired es s p = (tt, p)

    step-FollowsChoice :
        (e : Event) (s : Stream R)
        → IsTimely s e
        → FollowsChoice s
        → FollowsChoice (step parse show_time s e)
    unfolding step start
    step-FollowsChoice (chose sid) s p h = choose-FollowsChoice sid s h p
    step-FollowsChoice retried s p (same, source, asked) =
        if-FollowsChoice (truthy s.server_id && is_error s.status) _ s
          (λ t.
            let chosen : truthy s.server_id ≡ true = both_true _ _ t in
            (
              refl,
              tt,
              All-append (IsChosen s.server_id) s.preflights (s.server_id ∷ []) asked
                  ((refl, chosen), tt),
            ))
          (λ t. (same, source, asked))
    step-FollowsChoice (replied i refusal) s p (same, source, asked) =
        elim (Option-cases (get_elem? s.preflights i)) [
          | inl e ↦ rw (e, step) (same, source, asked)
          | inr (sid, e) ↦
              let (this, others) =
                All-get_elem? (IsChosen s.server_id) s.preflights i sid asked e in
              rw (e, step)
                (preflight_done-FollowsChoice sid refusal
                  (record s { preflights = remove_at i s.preflights }) this (same, source, others))
        ]
    step-FollowsChoice (metrics_arrived payload) s p h =
        if_open-FollowsChoice s.source _ s (on_metrics-FollowsChoice payload s h) h
    step-FollowsChoice (server_failed payload) s p h =
        if_open-FollowsChoice s.source _ s
          (on_error-FollowsChoice (on_server_error payload s)
            (on_server_error-FollowsChoice payload s h))
          h
    step-FollowsChoice connection_failed s p h =
        if_open-FollowsChoice s.source _ s (on_error-FollowsChoice s h) h
    step-FollowsChoice timer_fired s p h = elim (Option-cases s.timer) [
      | inl e ↦ rw (e, step) h
      | inr (wait, e) ↦ rw (e, step) (on_timer-FollowsChoice (record s { timer = none }) h)
    ]
    step-FollowsChoice lost_timer_fired s p h =
        if-FollowsChoice (s.lost == 0) s _ (λ t. h)
          (λ t. on_timer-FollowsChoice (record s { lost = s.lost - 1 }) h)

    -- If another server is chosen only when no first request waits for its reply, then the connection is to the
    -- server that is chosen, and there is none where none is chosen.
    pub run-FollowsChoice :
        (es : List Event) (s : Stream R)
        → IsPatient s es
        → FollowsChoice s
        → FollowsChoice (run parse show_time s es)
    unfolding run
    run-FollowsChoice [] s p h = h
    run-FollowsChoice (e ∷ es) s p h =
        let (now, later) = IsPatient-head e es s p in
        run-FollowsChoice es (step parse show_time s e) later (step-FollowsChoice e s now h)

    choose-start :
        (sid : Text) (s : Stream R)
        → text_eq sid s.server_id ≡ false
        → truthy sid ≡ true
        → choose sid s ≡ start sid (stop (record s { server_id = sid }))
    unfolding choose
    choose-start sid s h k = rw (h, k, choose) refl

    -- No first request waits for its reply.
    abbrev pub settled : Stream R → Stream R
    settled s = record s { preflights = [] }

    -- If a server is chosen while the first request for another one waits, and the reply to that comes last, the page
    -- is connected to the server that was left.
    run-overtaken :
        (a b : Text) (s : Stream R)
        → truthy a ≡ true
        → truthy b ≡ true
        → text_eq a s.server_id ≡ false
        → text_eq b a ≡ false
        → let left =
            run parse show_time
              (settled s)
              (chose a ∷ chose b ∷ replied 1 none ∷ replied 0 none ∷ []) in
          (left.server_id ≡ b) × (left.source ≡ some a)
    unfolding run step start stop preflight_done open_stream
    run-overtaken a b s k l m n =
        rw
          (
            choose-start a (settled s) m k,
            choose-start b (start a (stop (record (settled s) { server_id = a }))) n l,
          )
          (refl, refl)
