-- ===== src/Sites/Requests.antt =====
-- What the handlers of Sites/Settings.antt send.
use ventopanel.Base.{
  ◌≡◌, refl, sym, subst, inl, inr, Bool, true, false, if◌then◌else◌, Option, some, Option-cases,
  List, [], ◌∷◌, Text, truthy, trim, to_upper, to_lower, IsTrimmed, IsUpper, IsLower,
  to_upper-trim-IsTrimmed, to_lower-trim-IsTrimmed, to_upper-IsUpper, to_lower-IsLower, get_elem?,
  remove_at, All, All-append,
}
use ventopanel.Api.Fetch.{Reply, Outcome, ok, threw}
use ventopanel.Api.Calls.Sites.{WebhookResponse}
use ventopanel.Sites.Settings.{
  SiteCall, upsert, delete_env, add_domain, remove_domain, rollback, regenerate, restart, Settings,
  send, handle_upsert_env, handle_add_alias, handle_rollback, is_rolling, upsert_done, alias_done,
  rollback_done, regenerate_done, Event, submitted_env, submitted_alias, clicked_delete_env,
  clicked_remove_alias, clicked_rollback, clicked_regenerate, clicked_restart, replied, finish,
  step, run,
}

-- The form of what the page asks the server to store.
abbrev pub IsNormal : SiteCall → Type 0
IsNormal (upsert key value) = (truthy key ≡ true) × IsTrimmed key × IsUpper key
IsNormal (add_domain domain) = (truthy domain ≡ true) × IsTrimmed domain × IsLower domain
IsNormal _ = Unit {0}

AllNormal : Settings → Type 0
AllNormal s = All IsNormal s.sent

send-AllNormal :
    (call : SiteCall) (s : Settings) → IsNormal call → AllNormal s → AllNormal (send call s)
unfolding AllNormal
send-AllNormal call s n h = All-append IsNormal s.sent (call ∷ []) h (n, tt)

if-AllNormal :
    (b : Bool) (s t : Settings)
    → (b ≡ true → AllNormal s)
    → (b ≡ false → AllNormal t)
    → AllNormal (if b then s else t)
if-AllNormal true s t h k = h refl
if-AllNormal false s t h k = k refl

handle_upsert_env-AllNormal : (s : Settings) → AllNormal s → AllNormal (handle_upsert_env s)
unfolding handle_upsert_env
handle_upsert_env-AllNormal s h =
    let key : Text = to_upper (trim s.new_key) in
    if-AllNormal (truthy key) (send (upsert key s.new_value) s) s
      (λ t.
        send-AllNormal (upsert key s.new_value) s
          (t, to_upper-trim-IsTrimmed s.new_key, to_upper-IsUpper (trim s.new_key)) h)
      (λ t. h)

handle_add_alias-AllNormal : (s : Settings) → AllNormal s → AllNormal (handle_add_alias s)
unfolding handle_add_alias
handle_add_alias-AllNormal s h =
    let domain : Text = to_lower (trim s.new_alias) in
    if-AllNormal (truthy domain) (send (add_domain domain) s) s
      (λ t.
        send-AllNormal (add_domain domain) s
          (t, to_lower-trim-IsTrimmed s.new_alias, to_lower-IsLower (trim s.new_alias)) h)
      (λ t. h)

handle_rollback-AllNormal :
    (hash : Text) (s : Settings) → AllNormal s → AllNormal (handle_rollback hash s)
unfolding handle_rollback AllNormal
handle_rollback-AllNormal hash s h =
    if-AllNormal (is_rolling s.rolling_back) s _ (λ t. h)
      (λ t. send-AllNormal (rollback hash) (record s { rolling_back = some hash }) tt h)

upsert_done-sent : (o : Outcome (Unit {0})) (s : Settings) → (upsert_done o s).sent ≡ s.sent
upsert_done-sent (ok done) s = refl
upsert_done-sent (threw e) s = refl

alias_done-sent : (o : Outcome (Unit {0})) (s : Settings) → (alias_done o s).sent ≡ s.sent
alias_done-sent (ok done) s = refl
alias_done-sent (threw e) s = refl

rollback_done-sent : (o : Outcome (Unit {0})) (s : Settings) → (rollback_done o s).sent ≡ s.sent
rollback_done-sent (ok done) s = refl
rollback_done-sent (threw e) s = refl

regenerate_done-sent : (o : Outcome Text) (s : Settings) → (regenerate_done o s).sent ≡ s.sent
regenerate_done-sent (ok token) s = refl
regenerate_done-sent (threw e) s = refl

module _ {R : Type 0} (parse : Text → Option R) (parse_webhook : Text → Option WebhookResponse)
    (id : Text) where
  finish-sent :
      (call : SiteCall) (reply : Option Reply) (s : Settings)
      → (finish parse parse_webhook id call reply s).sent ≡ s.sent
  unfolding finish
  finish-sent (upsert key value) reply s = upsert_done-sent _ _
  finish-sent (delete_env key) reply s = refl
  finish-sent (add_domain domain) reply s = alias_done-sent _ _
  finish-sent (remove_domain domain) reply s = refl
  finish-sent (rollback hash) reply s = rollback_done-sent _ _
  finish-sent regenerate reply s = regenerate_done-sent _ _
  finish-sent restart reply s = refl

  step-AllNormal :
      (e : Event) (s : Settings) → AllNormal s → AllNormal (step parse parse_webhook id s e)
  unfolding step AllNormal
  step-AllNormal submitted_env s h = handle_upsert_env-AllNormal s h
  step-AllNormal submitted_alias s h = handle_add_alias-AllNormal s h
  step-AllNormal (clicked_delete_env key) s h = send-AllNormal (delete_env key) s tt h
  step-AllNormal (clicked_remove_alias domain) s h = send-AllNormal (remove_domain domain) s tt h
  step-AllNormal (clicked_rollback hash) s h = handle_rollback-AllNormal hash s h
  step-AllNormal clicked_regenerate s h = send-AllNormal regenerate s tt h
  step-AllNormal clicked_restart s h =
      if-AllNormal s.restarting s (send restart (record s { restarting = true })) (λ t. h)
        (λ t. send-AllNormal restart s tt h)
  step-AllNormal (replied i reply) s h = elim (Option-cases (get_elem? s.waiting i)) [
    | inl e ↦ rw (e, step) h
    | inr (call, e) ↦
        rw (e, step)
          (subst (All IsNormal)
            (sym (finish-sent call reply (record s { waiting = remove_at i s.waiting }))) h)
  ]
  step-AllNormal e s h = h

  run_from-AllNormal :
      (es : List Event) (s : Settings) → AllNormal s → AllNormal (run parse parse_webhook id s es)
  unfolding run
  run_from-AllNormal [] s h = h
  run_from-AllNormal (e ∷ es) s h =
      run_from-AllNormal es (step parse parse_webhook id s e) (step-AllNormal e s h)

  -- Whatever is typed, clicked and replied, each variable that is saved has a key in capitals, and each domain that is
  -- added is in small letters, of the letters of ASCII; neither is empty or has spaces at its ends.
  pub run-IsNormal :
      (es : List Event) (s : Settings)
      → All IsNormal s.sent
      → All IsNormal (run parse parse_webhook id s es).sent
  unfolding AllNormal
  run-IsNormal es s h = run_from-AllNormal es s h
