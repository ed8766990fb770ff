-- ===== src/Api/Fetch/Performed.antt =====
-- What `perform` of Api/Fetch.antt makes of a reply that is there, for the pages that wait for one.
use ventopanel.Base.{
  ◌≡◌, refl, ap, inl, inr, false, Option, none, some, Text, text, Bool-cases, arith,
}
use ventopanel.Api.Session.{Browser}
use ventopanel.Api.Fetch.{
  Reply, Error, api_error, network_error, ok, threw, Server, denied, is_ok, receive, api_fetch,
  ApiCall, finished, perform,
}
use ventopanel.Api.Fetch.Outcomes.{Gives}

-- The request fails on the way, or with a status that is not one of success.
abbrev pub Fails : Option Reply → Type 0
Fails none = Unit {0}
Fails (some reply) = is_ok reply.status ≡ false

-- A request whose reply is known.
abbrev pub replying : Option Reply → Server
replying reply request = reply

module _ {R : Type 0} (parse : Text → Option R) where
  pub receive_of_Gives :
      (reply : Reply) (b : Browser) (r : R)
      → Gives parse reply r
      → receive parse reply b ≡ (ok (some r), b)
  unfolding receive
  receive_of_Gives reply b r (lo, hi, other, read) = rw read (ground arith)

  receive_of_Fails :
      (reply : Reply) (b : Browser)
      → is_ok reply.status ≡ false
      → (e : Error) × ((receive parse reply b).0 ≡ threw e)
  unfolding receive
  receive_of_Fails reply b h = elim (Bool-cases (denied reply.status)) [
    | inl d ↦ (api_error reply.status (text "Unauthorized"), rw (d, receive) refl)
    | inr d ↦ (api_error reply.status reply.body, ground arith)
  ]

  api_fetch_of_Fails :
      (reply : Option Reply) (path : Text) (o : _) (b : Browser)
      → Fails reply
      → (e : Error) × ((api_fetch parse (replying reply) path o b).0 ≡ threw e)
  unfolding api_fetch
  api_fetch_of_Fails none path o b h = (network_error, refl)
  api_fetch_of_Fails (some reply) path o b h = receive_of_Fails reply b h

  module _ {A : Type 0} (call : ApiCall R A) (b : Browser) where
    perform_of_threw :
        (server : Server) (e : Error)
        → (api_fetch parse server call.path call.options b).0 ≡ threw e
        → (perform parse server call b).0 ≡ threw e
    unfolding perform
    perform_of_threw server e h = rw (h, perform) refl

    -- The call of a request that fails throws.
    pub perform_of_Fails :
        (reply : Option Reply)
        → Fails reply
        → (e : Error) × ((perform parse (replying reply) call b).0 ≡ threw e)
    perform_of_Fails reply h =
        let (e, thrown) = api_fetch_of_Fails reply call.path call.options b h in
        (e, perform_of_threw (replying reply) e thrown)

    pub perform_of_Gives :
        (reply : Reply) (r : R)
        → Gives parse reply r
        → perform parse (replying (some reply)) call b ≡ (finished (call.finish (some r)), b)
    unfolding perform api_fetch
    perform_of_Gives reply r h =
        rw (ap (λ x. x.0) (receive_of_Gives reply b r h), perform)
          (ap (λ x. (finished (call.finish (some r)), x.1)) (receive_of_Gives reply b r h))
