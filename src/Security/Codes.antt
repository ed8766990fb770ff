-- ===== src/Security/Codes.antt =====
-- Which codes the section of Security/TwoFactor.antt sends.
use ventopanel.Base.{
  ◌≡◌, refl, inl, inr, if◌then◌else◌, Bool, true, false, ◌&&◌, Option, Option-cases, List, [], ◌∷◌,
  ◌++◌, Text, keep_if, length, get_elem?, remove_at, take, All, All-append, IsDigit, ==_iff, arith,
}
use ventopanel.Api.Fetch.{Reply, Outcome, ok, threw}
use ventopanel.Api.Raw.{TokenResponse}
use ventopanel.Security.TwoFactor.{
  TotpSetup, Call, setup_call, enable_call, disable_call, Section, start_setup, send_enable,
  send_disable, setup_done, enable_done, disable_done, is_digit, type_code, cancel_verify,
  cancel_disable, is_complete, Event, clicked_setup, clicked_disable_setup, toggled_secret, typed,
  clicked_enable, pressed_enable, clicked_disable, pressed_disable, cancelled_verify,
  cancelled_disable, replied, finish, step, run,
}

abbrev pub IsCode : Text → Type 0
IsCode code = (length code ≡ 6) × All IsDigit code

abbrev pub CodesHold : Section → Type 0
CodesHold s = All IsDigit s.code × All IsCode s.sent

keep_if-IsDigit : (t : Text) → All IsDigit (keep_if is_digit t)
keep_if-IsDigit [] = tt
keep_if-IsDigit (c ∷ t) = ground (arith, keep_if-IsDigit t)

type_code-CodesHold : (t : Text) (s : Section) → CodesHold s → CodesHold (type_code t s)
unfolding type_code
type_code-CodesHold t s h = (keep_if-IsDigit (take 6 t), h.1)

send_code :
    (s : Section) → is_complete s.code ≡ true → CodesHold s → All IsCode (s.sent ++ s.code ∷ [])
send_code s c h =
    All-append IsCode s.sent (s.code ∷ []) h.1 (((==_iff (length s.code) 6).0 c, h.0), tt)

setup_done-CodesHold :
    (o : Outcome (Option TotpSetup)) (s : Section) → CodesHold s → CodesHold (setup_done o s)
setup_done-CodesHold (ok shown) s h = h
setup_done-CodesHold (threw e) s h = h

enable_done-CodesHold :
    (o : Outcome (Unit {0})) (s : Section) → CodesHold s → CodesHold (enable_done o s)
enable_done-CodesHold (ok done) s h = (tt, h.1)
enable_done-CodesHold (threw e) s h = h

disable_done-CodesHold :
    (o : Outcome (Unit {0})) (s : Section) → CodesHold s → CodesHold (disable_done o s)
disable_done-CodesHold (ok done) s h = (tt, h.1)
disable_done-CodesHold (threw e) s h = h

if-CodesHold :
    (b : Bool) (s t : Section)
    → (b ≡ true → CodesHold s)
    → CodesHold t
    → CodesHold (if b then s else t)
if-CodesHold true s t h k = h refl
if-CodesHold false s t h k = k

-- A code that may be sent is complete.
last_of : (a b : Bool) → (a && b) ≡ true → b ≡ true
last_of true b h = h
last_of false b h = cc

middle_of : (a b c : Bool) → (a && b && c) ≡ true → b ≡ true
middle_of true true c h = refl
middle_of true false c h = cc
middle_of false b c h = cc

module _ (parse_setup : Text → Option TotpSetup) (parse_token : Text → Option TokenResponse) where
  finish-CodesHold :
      (call : Call) (reply : Option Reply) (s : Section)
      → CodesHold s
      → CodesHold (finish parse_setup parse_token call reply s)
  unfolding finish
  finish-CodesHold setup_call reply s h = setup_done-CodesHold _ _ h
  finish-CodesHold (enable_call code) reply s h = enable_done-CodesHold _ _ h
  finish-CodesHold (disable_call code) reply s h = disable_done-CodesHold _ _ h

  step-CodesHold :
      (e : Event) (s : Section) → CodesHold s → CodesHold (step parse_setup parse_token s e)
  unfolding step start_setup send_enable send_disable cancel_verify cancel_disable
  step-CodesHold clicked_setup s h = if-CodesHold _ _ s (λ c. h) h
  step-CodesHold clicked_disable_setup s h = if-CodesHold _ _ s (λ c. h) h
  step-CodesHold toggled_secret s h = if-CodesHold _ _ s (λ c. h) h
  step-CodesHold (typed t) s h = if-CodesHold _ _ s (λ c. type_code-CodesHold t s h) h
  step-CodesHold clicked_enable s h =
      if-CodesHold _ _ s (λ c. (h.0, send_code s (middle_of _ _ _ c) h)) h
  step-CodesHold pressed_enable s h =
      if-CodesHold _ _ s (λ c. (h.0, send_code s (last_of _ _ c) h)) h
  step-CodesHold clicked_disable s h =
      if-CodesHold _ _ s (λ c. (h.0, send_code s (middle_of _ _ _ c) h)) h
  step-CodesHold pressed_disable s h =
      if-CodesHold _ _ s (λ c. (h.0, send_code s (last_of _ _ c) h)) h
  step-CodesHold cancelled_verify s h = if-CodesHold _ _ s (λ c. (tt, h.1)) h
  step-CodesHold cancelled_disable s h = if-CodesHold _ _ s (λ c. (tt, h.1)) h
  step-CodesHold (replied i reply) s h = elim (Option-cases (get_elem? s.waiting i)) [
    | inl e ↦ rw (e, step) h
    | inr (call, e) ↦
        rw (e, step) (finish-CodesHold call reply (record s { waiting = remove_at i s.waiting }) h)
  ]

  -- Whatever is clicked, typed and replied, every code that is sent has six digits.
  pub run-CodesHold :
      (es : List Event) (s : Section) → CodesHold s → CodesHold (run parse_setup parse_token s es)
  unfolding run
  run-CodesHold [] s h = h
  run-CodesHold (e ∷ es) s h =
      run-CodesHold es (step parse_setup parse_token s e) (step-CodesHold e s h)
