-- ===== src/Queries/Tests.antt =====
-- Runs of the hooks of Queries.antt, with a library that matches keys by their prefixes, and the theorems at them.
use ventopanel.Base.{
  ℕ, ◌≡◌, ◌==◌, refl, Bool, true, false, ◌&&◌, Option, some, [], ◌∷◌, Text, text, text_eq,
}
use ventopanel.Api.Session.{Browser}
use ventopanel.Api.Fetch.{Reply, perform, api_fetch, receive}
use ventopanel.Api.Calls.Sites.{deploy_site}
use ventopanel.Queries.{
  Part, word, number, null, QueryKey, deleting, deploying_site, server_mutation, site_mutation,
  sites_key, invalidate, mutate_async,
}
use ventopanel.Queries.Stale.{MatchesFirst, IsRefreshed, result, hooks-IsRefreshed}

abbrev same_part : Part → Part → Bool
same_part (word s) (word t) = text_eq s t
same_part (number m) (number n) = m == n
same_part null null = true
same_part _ _ = false

abbrev is_prefix : QueryKey → QueryKey → Bool
is_prefix [] key = true
is_prefix (p ∷ ps) [] = false
is_prefix (p ∷ ps) (q ∷ qs) = same_part p q && is_prefix ps qs

and_true : (b : Bool) → (b && true) ≡ b
and_true true = refl
and_true false = refl

is_prefix-MatchesFirst : MatchesFirst is_prefix
is_prefix-MatchesFirst w v key = and_true (text_eq w v)

abbrev visitor : Browser
visitor = record { in_browser = true; token = some (text "a.b.c"); location = text "/sites/7" }

abbrev accepted : Option Reply
accepted = some (record { status = 200; body = text "{}" })

abbrev all_fresh : QueryKey → Bool
all_fresh key = true

abbrev reads : Text → Option ℕ
reads body = some 0

-- After a site was deployed, the list of sites is fetched again, and the page of the site is not.
deployed :
    ((mutate_async is_prefix reads
          (site_mutation (deploying_site (text "7")))
          accepted
          visitor
          all_fresh).2
        sites_key
      ≡ false)
    × ((mutate_async is_prefix reads
            (site_mutation (deploying_site (text "7")))
            accepted
            visitor
            all_fresh).2
          (word (text "site") ∷ word (text "7") ∷ [])
        ≡ true)
unfolding mutate_async invalidate perform api_fetch receive deploy_site
deployed = (refl, refl)

hooks-IsRefreshed_example :
    IsRefreshed
      (text "servers")
      all_fresh
      (result is_prefix is_prefix-MatchesFirst reads accepted visitor all_fresh
        (server_mutation (deleting (text "3")))).2
      (result is_prefix is_prefix-MatchesFirst reads accepted visitor all_fresh
        (server_mutation (deleting (text "3")))).0
    × IsRefreshed
        (text "sites")
        all_fresh
        (result is_prefix is_prefix-MatchesFirst reads accepted visitor all_fresh
          (site_mutation (deploying_site (text "7")))).2
        (result is_prefix is_prefix-MatchesFirst reads accepted visitor all_fresh
          (site_mutation (deploying_site (text "7")))).0
hooks-IsRefreshed_example =
    hooks-IsRefreshed is_prefix is_prefix-MatchesFirst reads accepted visitor all_fresh
      (deleting (text "3")) (deploying_site (text "7"))
