-- ===== src/Api/Fetch/Expiry.antt =====
-- A page's calls of `apiFetch` one after the other, and what an expired session does to them.
use ventopanel.Base.{
  ◌≡◌, refl, ◌∙◌, ap, inl, inr, Option, none, some, List, [], ◌∷◌, Text, lookup, lookup-spread-none,
  All, arith,
}
use ventopanel.Api.Session.{Browser, get_token, present}
use ventopanel.Api.Fetch.{
  Options, Request, Reply, Server, authorization, json_headers, request_of, api_fetch,
}
use ventopanel.Api.Fetch.Outcomes.{IsDenied, api_fetch-session}

-- One call, with the server as it is at that moment.
pub record Attempt : Type 0 where
  pub path : Text
  pub options : Options
  pub server : Server

module _ {A : Type 0} (parse : Text → Option A) where
  pub after : Attempt → Browser → Browser
  after a b = (api_fetch parse a.server a.path a.options b).1

  -- The requests that a list of calls sends, and the browser at its end.
  pub run : List Attempt → Browser → List Request × Browser
  run [] b = ([], b)
  run (a ∷ attempts) b =
      let rest = run attempts (after a b) in (request_of a.path a.options b ∷ rest.0, rest.1)

-- The caller gives no credentials of its own: no call in the client does.
abbrev pub IsPlain : Attempt → Type 0
IsPlain a = lookup authorization a.options.headers ≡ none

abbrev pub IsAnonymous : Request → Type 0
IsAnonymous r = lookup authorization r.headers ≡ none

get_token-present : (b : Browser) → b.token ≡ none → present (get_token b) ≡ none
unfolding get_token
get_token-present b h = ground arith

request_of-IsAnonymous :
    (a : Attempt) (b : Browser)
    → b.token ≡ none
    → IsPlain a
    → IsAnonymous (request_of a.path a.options b)
unfolding request_of lookup
request_of-IsAnonymous a b h plain =
    rw (get_token-present b h, request_of)
      (lookup-spread-none authorization json_headers a.options.headers refl plain)

module _ {A : Type 0} (parse : Text → Option A) where
  after-token : (a : Attempt) (b : Browser) → b.token ≡ none → (after parse a b).token ≡ none
  unfolding after
  after-token a b h = elim (api_fetch-session parse a.server a.path a.options b) [
    | inl (reply, came, d, _, token, _, _) ↦ token
    | inr (_, e) ↦ ap (λ c. c.token) e ∙ h
  ]

  run-IsAnonymous :
      (attempts : List Attempt) (b : Browser)
      → b.token ≡ none
      → All IsPlain attempts
      → All IsAnonymous (run parse attempts b).0 × ((run parse attempts b).1.token ≡ none)
  unfolding run
  run-IsAnonymous [] b h plain = (tt, h)
  run-IsAnonymous (a ∷ attempts) b h (plain, rest) =
      let later = run-IsAnonymous attempts (after parse a b) (after-token a b h) rest in
      ((request_of-IsAnonymous a b h plain, later.0), later.1)

  -- Once a call was answered with 401 or 403, no later call of a run sends a token, and the
  -- browser has none, if no caller sets the header itself.
  pub run_once_denied :
      (a : Attempt) (attempts : List Attempt) (b : Browser) (reply : Reply)
      → a.server (request_of a.path a.options b) ≡ some reply
      → IsDenied reply.status
      → All IsPlain attempts
      → All IsAnonymous (run parse attempts (after parse a b)).0
        × ((run parse attempts (after parse a b)).1.token ≡ none)
  unfolding after
  run_once_denied a attempts b reply came d plain =
      run-IsAnonymous attempts (after parse a b)
        (elim (api_fetch-session parse a.server a.path a.options b) [
          | inl (r, c, k, _, token, _, _) ↦ token
          | inr (other, e) ↦ absurd (other reply came d)
        ])
        plain
