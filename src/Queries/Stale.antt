-- ===== src/Queries/Stale.antt =====
-- Which queries the hooks of Queries.antt fetch again.
use ventopanel.Base.{
  ◌≡◌, refl, sym, subst, ap, ◌∙◌, Bool, if◌then◌else◌, false, not, ◌&&◌, Option, [], ◌∷◌, Text,
  text, text_eq, arith,
}
use ventopanel.Api.Session.{Browser}
use ventopanel.Api.Fetch.{Reply, Outcome, ok, threw, perform}
use ventopanel.Api.Fetch.Performed.{replying}
use ventopanel.Queries.{
  word, QueryKey, Mutation, ServerHook, creating, updating, deleting, connecting, provisioning,
  SiteHook, creating_site, updating_site, deleting_site, deploying_site, server_mutation,
  site_mutation, servers_key, sites_key, invalidate, mutate_async,
}

-- What the library documents of a filter with a key: a filter of one word matches a key that begins with it.
abbrev pub MatchesFirst : (QueryKey → QueryKey → Bool) → Type 0
MatchesFirst matches =
    (w v : Text) (key : QueryKey) → matches (word w ∷ []) (word v ∷ key) ≡ text_eq w v

-- A mutation of this outcome marks the queries as stale whose keys begin with the word, and no others, or, if it threw,
-- none at all.
abbrev pub IsRefreshed :
    {X : Type 0} → Text → (QueryKey → Bool) → (QueryKey → Bool) → Outcome X → Type 0
IsRefreshed w fresh after (ok v) =
    (v : Text) (key : QueryKey)
    → after (word v ∷ key) ≡ (if text_eq w v then false else fresh (word v ∷ key))
IsRefreshed w fresh after (threw e) = after ≡ fresh

unless : (a b : Bool) → (a && not b) ≡ (if b then false else a)
unless a b = ground arith

server_key : (R : Type 0) (h : ServerHook) → (server_mutation {R = R} h).invalidated ≡ servers_key
server_key R (creating input) = refl
server_key R (updating id input) = refl
server_key R (deleting id) = refl
server_key R (connecting id) = refl
server_key R (provisioning id) = refl

site_key : (R : Type 0) (k : SiteHook) → (site_mutation {R = R} k).invalidated ≡ sites_key
site_key R (creating_site input) = refl
site_key R (updating_site id input) = refl
site_key R (deleting_site id) = refl
site_key R (deploying_site id) = refl

module _ {R : Type 0} (matches : QueryKey → QueryKey → Bool) (documented : MatchesFirst matches)
    (parse : Text → Option R) where
  invalidate-IsRefreshed :
      {X : Type 0} (w : Text) (fresh : QueryKey → Bool) (v : X)
      → IsRefreshed w fresh (invalidate matches (word w ∷ []) fresh) (ok v)
  unfolding invalidate
  invalidate-IsRefreshed w fresh v u key =
      ap (λ b. fresh (word u ∷ key) && not b) (documented w u key) ∙ unless _ (text_eq w u)

  outcome-IsRefreshed :
      {X : Type 0} (w : Text) (filter : QueryKey) (fresh : QueryKey → Bool) (o : Outcome X)
      (b : Browser)
      → filter ≡ word w ∷ []
      → let r = elim o as (λ _. Outcome X × Browser × (QueryKey → Bool)) [
        | ok v ↦ (ok v, b, invalidate matches filter fresh)
        | threw e ↦ (threw e, b, fresh)
      ] in
        IsRefreshed w fresh r.2 r.0
  outcome-IsRefreshed w filter fresh (ok v) b same =
      subst (λ f. IsRefreshed w fresh (invalidate matches f fresh) (ok v)) (sym same)
        (invalidate-IsRefreshed w fresh v)
  outcome-IsRefreshed w filter fresh (threw e) b same = refl

  module _ (reply : Option Reply) (b : Browser) (fresh : QueryKey → Bool) where
    abbrev pub result : {X : Type 0} → Mutation R X → Outcome X × Browser × (QueryKey → Bool)
    result m = mutate_async matches parse m reply b fresh

    mutate_async-IsRefreshed :
        {X : Type 0} (m : Mutation R X) (w : Text)
        → m.invalidated ≡ word w ∷ []
        → IsRefreshed w fresh (result m).2 (result m).0
    unfolding mutate_async
    mutate_async-IsRefreshed m w e =
        let r = perform parse (replying reply) m.call b in
        outcome-IsRefreshed w m.invalidated fresh r.0 r.1 e

    -- Where the library matches keys by their first parts, a hook for servers that succeeds has the queries fetched again
    -- whose keys begin with `servers`, a hook for sites those whose keys begin with `sites`, and either no others; a hook
    -- that fails has none fetched again.
    pub hooks-IsRefreshed :
        (h : ServerHook) (k : SiteHook)
        → IsRefreshed
            (text "servers")
            fresh
            (result (server_mutation h)).2
            (result (server_mutation h)).0
          × IsRefreshed
              (text "sites")
              fresh
              (result (site_mutation k)).2
              (result (site_mutation k)).0
    hooks-IsRefreshed h k = (
      mutate_async-IsRefreshed (server_mutation h) (text "servers") (server_key R h),
      mutate_async-IsRefreshed (site_mutation k) (text "sites") (site_key R k),
    )
