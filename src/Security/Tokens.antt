-- ===== src/Security/Tokens.antt =====
-- `APITokensSection` of frontend/app/(dashboard)/security/page.tsx.
use ventopanel.Base.{
  ℕ, ◌≡◌, refl, inl, inr, if◌then◌else◌, Bool, true, false, not, ◌&&◌, ◌||◌, Option, none, some,
  Option-cases, List, [], ◌∷◌, ◌++◌, Text, truthy, trim, trim-IsTrimmed, IsTrimmed, get_elem?,
  remove_at, All, All-append, arith,
}
use ventopanel.Api.Session.{Browser}
use ventopanel.Api.Fetch.{Reply, Outcome, ok, threw, perform}
use ventopanel.Api.Fetch.Performed.{replying}
use ventopanel.Api.Calls.Account.{create_api_token, revoke_api_token}

pub record CreatedToken : Type 0 where
  pub id : Text
  pub name : Text
  pub token : Text

pub data TokenCall : Type 0 where
  create revoke : Text → TokenCall

-- The states of the section, the requests that wait, every request that was sent, and the browser.
pub record Tokens : Type 0 where
  pub new_name : Text
  pub created : Option Text
  pub copied : Option Text
  pub revoke_target : Option Text
  pub waiting : List TokenCall
  pub sent : List TokenCall
  pub browser : Browser

abbrev pub is_create : TokenCall → Bool
is_create (create name) = true
is_create (revoke id) = false

abbrev pub creating : List TokenCall → Bool
creating [] = false
creating (call ∷ calls) = is_create call || creating calls

abbrev pub revoking : List TokenCall → Bool
revoking [] = false
revoking (call ∷ calls) = not (is_create call) || revoking calls

abbrev send : TokenCall → Tokens → Tokens
send call s = record s { waiting = s.waiting ++ call ∷ []; sent = s.sent ++ call ∷ [] }

-- `createMutation.mutate()`
unfoldable pub create_token : Tokens → Tokens
create_token s = send (create (trim s.new_name)) s

-- `onSuccess` and `onError` of the two mutations; a reply that is `undefined` throws in `onSuccess`, after
-- the query was refreshed.
abbrev pub create_done : Outcome (Option CreatedToken) → Tokens → Tokens
create_done (ok none) s = s
create_done (ok (some created)) s = record s { created = some created.token; new_name = [] }
create_done (threw e) s = s

abbrev pub revoke_done : Outcome (Unit {0}) → Tokens → Tokens
revoke_done outcome s = record s { revoke_target = none }

-- `copyToken`; `copied` is what the clipboard was given.
unfoldable pub copy_token : Tokens → Tokens
copy_token s = elim s.created [
  | none ↦ s
  | some token ↦ if truthy token then record s { copied = some token } else s
]

pub data TokenEvent : Type 0 where
  typed_name : Text → TokenEvent
  clicked_create pressed_enter clicked_copy dismissed : TokenEvent
  chose_revoke : Text → TokenEvent
  confirmed cancelled : TokenEvent
  replied : ℕ → Option Reply → TokenEvent

module _ (parse : Text → Option CreatedToken) where
  unfoldable pub finish_call : TokenCall → Option Reply → Tokens → Tokens
  finish_call (create name) reply s =
      let (outcome, browser) = perform parse (replying reply) (create_api_token name) s.browser in
      create_done outcome (record s { browser = browser })
  finish_call (revoke id) reply s =
      let (outcome, browser) = perform parse (replying reply) (revoke_api_token id) s.browser in
      revoke_done outcome (record s { browser = browser })

  -- Enter is not stopped by a creation that is pending, the button is.
  unfoldable pub step : Tokens → TokenEvent → Tokens
  step s (typed_name name) = record s { new_name = name }
  step s clicked_create =
      if truthy (trim s.new_name) && not (creating s.waiting) then create_token s else s
  step s pressed_enter = if truthy (trim s.new_name) then create_token s else s
  step s clicked_copy = copy_token s
  step s dismissed = record s { created = none }
  step s (chose_revoke id) = record s { revoke_target = some id }
  step s confirmed = elim s.revoke_target [
    | none ↦ s
    | some id ↦ if not (revoking s.waiting) then send (revoke id) s else s
  ]
  step s cancelled = record s { revoke_target = none }
  step s (replied i reply) = elim (get_elem? s.waiting i) [
    | none ↦ s
    | some call ↦ finish_call call reply (record s { waiting = remove_at i s.waiting })
  ]

  unfoldable pub run : Tokens → List TokenEvent → Tokens
  run s [] = s
  run s (e ∷ es) = run (step s e) es

-- What a request may ask for: a token with a name that is not blank, or the end of one that was chosen.
abbrev pub IsProper : TokenCall → Type 0
IsProper (create name) = (truthy name ≡ true) × IsTrimmed name
IsProper (revoke id) = Unit {0}

create_done-sent :
    (o : Outcome (Option CreatedToken)) (s : Tokens) → (create_done o s).sent ≡ s.sent
create_done-sent (ok none) s = refl
create_done-sent (ok (some created)) s = refl
create_done-sent (threw e) s = refl

send-IsProper :
    (call : TokenCall) (s : Tokens)
    → IsProper call
    → All IsProper s.sent
    → All IsProper (send call s).sent
send-IsProper call s p h = All-append IsProper s.sent (call ∷ []) h (p, tt)

create_token-IsProper :
    (s : Tokens)
    → truthy (trim s.new_name) ≡ true
    → All IsProper s.sent
    → All IsProper (create_token s).sent
unfolding create_token
create_token-IsProper s t h =
    send-IsProper (create (trim s.new_name)) s (t, trim-IsTrimmed s.new_name) h

if-IsProper :
    (b : Bool) (s t : Tokens)
    → (b ≡ true → All IsProper s.sent)
    → All IsProper t.sent
    → All IsProper (if b then s else t).sent
if-IsProper true s t h k = h refl
if-IsProper false s t h k = k

first_of : (a b : Bool) → (a && b) ≡ true → a ≡ true
first_of true b h = refl
first_of false b h = cc

copy_token-sent : (s : Tokens) → (copy_token s).sent ≡ s.sent
unfolding copy_token
copy_token-sent s = ground arith

module _ (parse : Text → Option CreatedToken) where
  finish_call-sent :
      (call : TokenCall) (reply : Option Reply) (s : Tokens)
      → (finish_call parse call reply s).sent ≡ s.sent
  unfolding finish_call
  finish_call-sent (create name) reply s = create_done-sent _ _
  finish_call-sent (revoke id) reply s = refl

  step-IsProper :
      (e : TokenEvent) (s : Tokens) → All IsProper s.sent → All IsProper (step parse s e).sent
  unfolding step
  step-IsProper (typed_name name) s h = h
  step-IsProper clicked_create s h =
      if-IsProper _ _ s (λ t. create_token-IsProper s (first_of _ _ t) h) h
  step-IsProper pressed_enter s h = if-IsProper _ _ s (λ t. create_token-IsProper s t h) h
  step-IsProper clicked_copy s h = rw (copy_token-sent s) h
  step-IsProper dismissed s h = h
  step-IsProper (chose_revoke id) s h = h
  step-IsProper confirmed s h = elim (Option-cases s.revoke_target) [
    | inl e ↦ rw (e, step) h
    | inr (id, e) ↦
        rw (e, step)
          (if-IsProper (not (revoking s.waiting)) _ s (λ t. send-IsProper (revoke id) s tt h) h)
  ]
  step-IsProper cancelled s h = h
  step-IsProper (replied i reply) s h = elim (Option-cases (get_elem? s.waiting i)) [
    | inl e ↦ rw (e, step) h
    | inr (call, e) ↦ rw (e, step, finish_call-sent) h
  ]

  -- Whatever is typed, clicked and replied, each token that is asked for has a name that is not blank and
  -- has no spaces at its ends.
  pub run-IsProper :
      (es : List TokenEvent) (s : Tokens) → All IsProper s.sent → All IsProper (run parse s es).sent
  unfolding run
  run-IsProper [] s h = h
  run-IsProper (e ∷ es) s h = run-IsProper es (step parse s e) (step-IsProper e s h)
