-- ===== src/Security/Replies.antt =====
-- What a failed setup leaves of the section of Security/TwoFactor.antt, and what the section shows when it is
-- opened again.
use ventopanel.Base.{
  ℕ, ◌≡◌, refl, ap, sym, ◌∙◌, subst, true, false, Option, none, some, List, [], ◌∷◌, ◌++◌, Text,
  text, get_elem?, remove_at, truthy, arith,
}
use ventopanel.Api.Session.{Browser, TokenPayload, set_token, get_token_payload}
use ventopanel.Api.Fetch.{Reply, ok, perform}
use ventopanel.Api.Fetch.Outcomes.{Gives}
use ventopanel.Api.Fetch.Performed.{Fails, replying, perform_of_Fails, perform_of_Gives}
use ventopanel.Api.Calls.Account.{setup_totp}
use ventopanel.Api.Raw.{TokenResponse, enable_totp, disable_totp, totp_call, stored, store_token}
use ventopanel.Security.TwoFactor.{
  TotpSetup, Call, setup_call, enable_call, disable_call, Section, opened, enabled_of, start_setup,
  enable_done, disable_done, Event, clicked_setup, replied, finish, step, run, idle, setup,
}

module _ (parse_setup : Text → Option TotpSetup) (parse_token : Text → Option TokenResponse) where
  nothing_waits : (i : ℕ) (s : Section) → s.waiting ≡ [] → get_elem? s.waiting i ≡ none
  nothing_waits i s k = subst (λ calls. get_elem? calls i ≡ none) (sym k) refl

  step_stuck :
      (e : Event) (s : Section)
      → s.step ≡ setup
      → s.waiting ≡ []
      → step parse_setup parse_token s e ≡ s
  unfolding step
  step_stuck (replied i reply) s h k = rw (nothing_waits i s k, step) refl
  step_stuck e s h k = ground arith

  run_stuck :
      (es : List Event) (s : Section)
      → s.step ≡ setup
      → s.waiting ≡ []
      → run parse_setup parse_token s es ≡ s
  unfolding run
  run_stuck [] s h k = refl
  run_stuck (e ∷ es) s h k =
      ap (λ next. run parse_setup parse_token next es) (step_stuck e s h k) ∙ run_stuck es s h k

  finish_failed :
      (reply : Option Reply) (s : Section)
      → Fails reply
      → ((finish parse_setup parse_token setup_call reply s).step ≡ s.step)
        × ((finish parse_setup parse_token setup_call reply s).waiting ≡ s.waiting)
  unfolding finish
  finish_failed reply s f =
      let (e, thrown) = perform_of_Fails parse_setup setup_totp s.browser reply f in
      (rw (thrown, finish) refl, rw (thrown, finish) refl)

  step-clicked_setup :
      (s : Section)
      → s.step ≡ idle
      → s.enabled ≡ false
      → s.waiting ≡ []
      → step parse_setup parse_token s clicked_setup ≡ start_setup s
  unfolding step
  step-clicked_setup s h k l = ground arith

  step-replied :
      (i : ℕ) (call : Call) (reply : Option Reply) (s : Section)
      → get_elem? s.waiting i ≡ some call
      → step parse_setup parse_token s (replied i reply)
        ≡ finish parse_setup parse_token call reply (record s { waiting = remove_at i s.waiting })
  unfolding step
  step-replied i call reply s e = rw (e, step) refl

  replied_failed :
      (s : Section) (reply : Option Reply)
      → s.waiting ≡ setup_call ∷ []
      → Fails reply
      → ((step parse_setup parse_token s (replied 0 reply)).step ≡ s.step)
        × ((step parse_setup parse_token s (replied 0 reply)).waiting ≡ [])
  replied_failed s reply h f =
      let answered : get_elem? s.waiting 0 ≡ some setup_call = ap (λ calls. get_elem? calls 0) h in
      let (same, rest) = finish_failed reply (record s { waiting = remove_at 0 s.waiting }) f in
      (
        ap (λ t. t.step) (step-replied 0 setup_call reply s answered) ∙ same,
        ap (λ t. t.waiting) (step-replied 0 setup_call reply s answered)
            ∙ rest
            ∙ ap (remove_at 0) h,
      )

  start_failed :
      (s : Section) (reply : Option Reply)
      → s.step ≡ idle
      → s.enabled ≡ false
      → s.waiting ≡ []
      → Fails reply
      → let dead = run parse_setup parse_token s (clicked_setup ∷ replied 0 reply ∷ []) in
        (dead.step ≡ setup) × (dead.waiting ≡ [])
  unfolding run start_setup
  start_failed s reply h k l f =
      subst
        (λ t.
          ((step parse_setup parse_token t (replied 0 reply)).step ≡ setup)
          × ((step parse_setup parse_token t (replied 0 reply)).waiting ≡ []))
        (sym (step-clicked_setup s h k l))
        (replied_failed (start_setup s) reply (ap (λ calls. calls ++ setup_call ∷ []) l) f)

  -- If the request for a secret fails, the section stays where it shows neither a field nor a button, whatever
  -- is clicked, typed or replied after that.
  pub run-setup_failed :
      (s : Section) (reply : Option Reply) (es : List Event)
      → s.step ≡ idle
      → s.enabled ≡ false
      → s.waiting ≡ []
      → Fails reply
      → let dead = run parse_setup parse_token s (clicked_setup ∷ replied 0 reply ∷ []) in
        (dead.step ≡ setup) × (run parse_setup parse_token dead es ≡ dead)
  run-setup_failed s reply es h k l f =
      let (stays, nothing) = start_failed s reply h k l f in (stays, run_stuck es _ stays nothing)

  module _ (reply : Reply) (code t : Text) (truth : truthy t ≡ true)
      (gives : Gives parse_token reply (record { token = some t })) where
    store_token-truthy : (b : Browser) → store_token (some t) b ≡ set_token t b
    store_token-truthy b = rw (truth, store_token) refl

    totp_call-Gives :
        (path : Text) (b : Browser)
        → stored parse_token (perform parse_token (replying (some reply)) (totp_call path code) b)
          ≡ (ok tt, set_token t b)
    totp_call-Gives path b =
        ap (stored parse_token) (
          perform_of_Gives parse_token (totp_call path code) b reply (record { token = some t })
            gives)
        ∙ ap (λ c. (ok tt, c)) (store_token-truthy b)

    finish-enable :
        (s : Section)
        → finish parse_setup parse_token (enable_call code) (some reply) s
          ≡ enable_done (ok tt) (record s { browser = set_token t s.browser })
    unfolding finish enable_totp
    finish-enable s =
        ap (λ r. enable_done r.0 (record s { browser = r.1 }))
          (totp_call-Gives (text "/auth/totp/enable") s.browser)

    finish-disable :
        (s : Section)
        → finish parse_setup parse_token (disable_call code) (some reply) s
          ≡ disable_done (ok tt) (record s { browser = set_token t s.browser })
    unfolding finish disable_totp
    finish-disable s =
        ap (λ r. disable_done r.0 (record s { browser = r.1 }))
          (totp_call-Gives (text "/auth/totp/disable") s.browser)

    -- When a code is accepted with a new token, the section shows at once that the second factor is enabled,
    -- or disabled, and when it is opened again it shows what the payload of that token says.
    opened-finish :
        (decode : Text → Option TokenPayload) (s : Section)
        → ((finish parse_setup parse_token (enable_call code) (some reply) s).enabled ≡ true)
          × ((opened decode
                (finish parse_setup parse_token (enable_call code) (some reply) s).browser).enabled
              ≡ enabled_of (get_token_payload decode (set_token t s.browser)))
          × ((finish parse_setup parse_token (disable_call code) (some reply) s).enabled ≡ false)
          × ((opened decode
                (finish parse_setup parse_token (disable_call code) (some reply) s).browser).enabled
              ≡ enabled_of (get_token_payload decode (set_token t s.browser)))
    unfolding opened
    opened-finish decode s = (
      ap (λ u. u.enabled) (finish-enable s),
      ap (λ u. (opened decode u.browser).enabled) (finish-enable s),
      ap (λ u. u.enabled) (finish-disable s),
      ap (λ u. (opened decode u.browser).enabled) (finish-disable s),
    )
