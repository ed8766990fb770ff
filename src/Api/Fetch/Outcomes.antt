-- ===== src/Api/Fetch/Outcomes.antt =====
-- What `apiFetch` of frontend/lib/api.ts sends, and what it makes of each reply.
use ventopanel.Base.{
  ℕ, ◌≤◌, ◌≡◌, ◌≢◌, refl, ap, ◌∙◌, ◌↔◌, ◌⊎◌, inl, inr, ◌==◌, if◌then◌else◌, Option, none, some,
  Text, text, lookup, spread, lookup-insert, Option-cases, Bool-cases, arith,
}
use ventopanel.Api.Session.{Browser, clear_token, get_token, present}
use ventopanel.Api.Fetch.{
  Options, Reply, api_error, network_error, ok, threw, Server, authorization, bearer, json_headers,
  request_of, logged_out, parsed, receive, api_fetch,
}

-- The token of a session goes with every request, whatever headers the caller gives; without
-- one the header is the one of the caller.
request_of-authorization :
    (path : Text) (o : Options) (b : Browser)
    → lookup authorization (request_of path o b).headers ≡ elim (present (get_token b)) [
      | none ↦ lookup authorization (spread json_headers o.headers)
      | some t ↦ some (bearer t)
    ]
unfolding request_of
request_of-authorization path o b = elim (Option-cases (present (get_token b))) [
  | inl e ↦ rw (e, request_of)
  | inr (t, e) ↦
      rw (e, request_of)
        (rw (lookup-insert authorization authorization (bearer t) (spread json_headers o.headers))
          refl)
]

abbrev pub Gives : {A : Type 0} → (Text → Option A) → Reply → A → Type 0
Gives parse reply a =
    (200 ≤ reply.status) × (reply.status ≤ 299) × (reply.status ≢ 204) × (parse reply.body ≡ some a)

abbrev pub IsDenied : ℕ → Type 0
IsDenied status = (status ≡ 401) ⊎ (status ≡ 403)

IsDenied-cases : (n : ℕ) → IsDenied n ⊎ ((n ≢ 401) × (n ≢ 403))
IsDenied-cases n = elim (Bool-cases (n == 401)) [
  | inl e ↦ inl (inl (ground arith))
  | inr d ↦ elim (Bool-cases (n == 403)) [
    | inl e ↦ inl (inr (ground arith))
    | inr e ↦ inr (ground arith, ground arith)
  ]
]

module _ {A : Type 0} (parse : Text → Option A) (server : Server) where
  parsed-eq-ok : (o : Option A) (a : A) → parsed parse o ≡ ok (some a) → o ≡ some a
  parsed-eq-ok none a e = cc
  parsed-eq-ok (some c) a e = cc

  receive-value :
      (reply : Reply) (b : Browser) (a : A)
      → (receive parse reply b).0 ≡ ok (some a)
      → Gives parse reply a
  unfolding receive
  receive-value reply b a e = ground (arith, parsed-eq-ok (parse reply.body) a)

  receive_of_Gives :
      (reply : Reply) (b : Browser) (a : A)
      → Gives parse reply a
      → (receive parse reply b).0 ≡ ok (some a)
  unfolding receive
  receive_of_Gives reply b a (lo, hi, other, read) = rw read (ground arith)

  pub receive_of_denied :
      (reply : Reply) (b : Browser)
      → (reply.status ≡ 401) ⊎ (reply.status ≡ 403)
      → receive parse reply b ≡ (threw (api_error reply.status (text "Unauthorized")), logged_out b)
  unfolding receive
  receive_of_denied reply b (inl e) = rw (e, receive)
  receive_of_denied reply b (inr e) = rw (e, receive)

  receive_keeps :
      (reply : Reply) (b : Browser)
      → (reply.status ≢ 401)
      → (reply.status ≢ 403)
      → (receive parse reply b).1 ≡ b
  unfolding receive
  receive_keeps reply b h k = ground arith

  pub api_fetch-replied :
      (path : Text) (o : Options) (b : Browser) (reply : Reply)
      → server (request_of path o b) ≡ some reply
      → api_fetch parse server path o b ≡ receive parse reply b
  unfolding api_fetch
  api_fetch-replied path o b reply e = rw (e, api_fetch)

  pub api_fetch-lost :
      (path : Text) (o : Options) (b : Browser)
      → server (request_of path o b) ≡ none
      → api_fetch parse server path o b ≡ (threw network_error, b)
  unfolding api_fetch
  api_fetch-lost path o b e = rw (e, api_fetch)

  abbrev pub Answers : Text → Options → Browser → Reply → Type 0
  Answers path o b reply = server (request_of path o b) ≡ some reply

  -- A call gives a value exactly when the reply has a status from 200 to 299 other than 204 and
  -- a body that reads as JSON.
  api_fetch-value_iff :
      (path : Text) (o : Options) (b : Browser) (a : A)
      → ((api_fetch parse server path o b).0 ≡ ok (some a))
        ↔ ((reply : Reply) × Answers path o b reply × Gives parse reply a)
  api_fetch-value_iff path o b a = (to, from)
    where
      to :
          (api_fetch parse server path o b).0 ≡ ok (some a)
          → (reply : Reply) × Answers path o b reply × Gives parse reply a
      to e = elim (Option-cases (server (request_of path o b))) [
        | inl lost ↦ absurd (cc (api_fetch-lost path o b lost))
        | inr (reply, came) ↦
            (reply, came, receive-value reply b a (rw (api_fetch-replied path o b reply came) at e))
      ]

      from :
          ((reply : Reply) × Answers path o b reply × Gives parse reply a)
          → (api_fetch parse server path o b).0 ≡ ok (some a)
      from (reply, came, gives) =
          rw (api_fetch-replied path o b reply came) (receive_of_Gives reply b a gives)

  ended :
      (b : Browser)
      → ((logged_out b).token ≡ none)
        × ((logged_out b).in_browser ≡ b.in_browser)
        × ((logged_out b).location ≡ (if b.in_browser then text "/login" else b.location))
  unfolding logged_out clear_token
  ended b = elim (Bool-cases b.in_browser) [
    | inl e ↦ rw (e, logged_out) (refl, refl, refl)
    | inr e ↦ rw (e, logged_out) (refl, refl, refl)
  ]

  -- On a reply of 401 or 403, whatever its body, the call fails with that status, no token is left, and a browser goes to
  -- the login page; on every other reply, and without one, the browser stays as it was.
  pub api_fetch-session :
      (path : Text) (o : Options) (b : Browser)
      → ((reply : Reply) × Answers path o b reply
          × IsDenied reply.status
          × ((api_fetch parse server path o b).0
              ≡ threw (api_error reply.status (text "Unauthorized")))
          × ((api_fetch parse server path o b).1.token ≡ none)
          × ((api_fetch parse server path o b).1.in_browser ≡ b.in_browser)
          × ((api_fetch parse server path o b).1.location
              ≡ (if b.in_browser then text "/login" else b.location)))
        ⊎ (((reply : Reply) → Answers path o b reply → ¬ IsDenied reply.status)
            × ((api_fetch parse server path o b).1 ≡ b))
  api_fetch-session path o b = elim (Option-cases (server (request_of path o b))) [
    | inl lost ↦ inr ((λ reply came d. absurd (cc)), ap (λ r. r.1) (api_fetch-lost path o b lost))
    | inr (reply, came) ↦ elim (IsDenied-cases reply.status) [
      | inl d ↦
          let e = api_fetch-replied path o b reply came ∙ receive_of_denied reply b d in
          let (token, there, location) = ended b in
          inl (
            reply,
            came,
            d,
            ap (λ r. r.0) e,
            ap (λ r. r.1.token) e ∙ token,
            ap (λ r. r.1.in_browser) e ∙ there,
            ap (λ r. r.1.location) e ∙ location,
          )
      | inr (h, k) ↦ inr (
        (λ r c d. ground arith),
        ap (λ r. r.1) (api_fetch-replied path o b reply came) ∙ receive_keeps reply b h k,
      )
    ]
  ]
