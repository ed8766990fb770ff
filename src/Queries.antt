-- ===== src/Queries.antt =====
-- frontend/hooks/use-server-mutations.ts, frontend/hooks/use-site-mutations.ts and the hooks of the queries beside them. The
-- query library is modelled as far as a mutation that succeeds marks queries as stale, which it fetches
-- again.
pub mod Stale
mod Tests
use ventopanel.Base.{
  ℕ, Bool, true, false, not, ◌&&◌, Option, none, some, List, [], ◌∷◌, Text, text, truthy, show,
}
use ventopanel.Api.Session.{Browser}
use ventopanel.Api.Fetch.{Reply, Outcome, ok, threw, ListResponse, ApiCall, perform}
use ventopanel.Api.Fetch.Performed.{replying}
use ventopanel.Api.Calls.Servers.{
  ServerInput, fetch_servers, create_server, update_server, delete_server, connect_server,
  provision_server, fetch_server_stats,
}
use ventopanel.Api.Calls.Sites.{
  SiteInput, fetch_sites, create_site, update_site, delete_site, deploy_site,
}
use ventopanel.Api.Calls.Panel.{AuditParams, fetch_audit_events}

-- A part of a key.
pub data Part : Type 0 where
  word : Text → Part
  number : ℕ → Part
  null : Part

abbrev pub QueryKey : Type 0
QueryKey = List Part

-- A query: its key, whether it is enabled, and what it calls.
pub record Query (R X : Type 0) : Type 0 where
  pub key : QueryKey
  pub enabled : Bool
  pub query : ApiCall R X

-- A mutation for an input: what it calls, and the key whose queries are fetched again after it succeeds.
pub record Mutation (R X : Type 0) : Type 0 where
  pub call : ApiCall R X
  pub invalidated : QueryKey

abbrev pub servers_key : QueryKey
servers_key = word (text "servers") ∷ []

abbrev pub sites_key : QueryKey
sites_key = word (text "sites") ∷ []

abbrev pub enabled_query : {R X : Type 0} → QueryKey → ApiCall R X → Query R X
enabled_query key call = record { key = key; enabled = true; query = call }

-- `useServers`
abbrev pub use_servers : {T : Type 0} → Query (ListResponse T) (List T)
use_servers = enabled_query servers_key fetch_servers

-- `useSites`
abbrev pub use_sites : {T : Type 0} → Query (ListResponse T) (List T)
use_sites = enabled_query sites_key fetch_sites

-- `useServerStats`; without a server it is not enabled, and its call is never made.
abbrev pub use_server_stats : {R : Type 0} → Option Text → Query R (Option R)
use_server_stats none = record {
  key = word (text "server-stats") ∷ null ∷ [];
  enabled = false;
  query = fetch_server_stats (text "null");
}
use_server_stats (some id) = record {
  key = word (text "server-stats") ∷ word id ∷ [];
  enabled = truthy id;
  query = fetch_server_stats id;
}

-- `useRecentAudit`
abbrev pub use_recent_audit : {R : Type 0} → ℕ → Query R (Option R)
use_recent_audit limit = enabled_query (word (text "audit-recent") ∷ number limit ∷ []) (
    fetch_audit_events
      (record { resource_type = none; resource_id = none; limit = some limit; before = none }))

-- The hooks of frontend/hooks/use-server-mutations.ts.
pub data ServerHook : Type 0 where
  creating : ServerInput → ServerHook
  updating : Text → ServerInput → ServerHook
  deleting connecting provisioning : Text → ServerHook

-- The hooks of frontend/hooks/use-site-mutations.ts.
pub data SiteHook : Type 0 where
  creating_site : SiteInput → SiteHook
  updating_site : Text → SiteInput → SiteHook
  deleting_site deploying_site : Text → SiteHook

abbrev on_servers : {R : Type 0} → ApiCall R (Option R) → Mutation R (Option R)
on_servers call = record { call = call; invalidated = servers_key }

abbrev on_sites : {R : Type 0} → ApiCall R (Option R) → Mutation R (Option R)
on_sites call = record { call = call; invalidated = sites_key }

-- `useCreateServer`, `useUpdateServer`, `useDeleteServer`, `useConnectServer` and `useProvisionServer`.
abbrev pub server_mutation : {R : Type 0} → ServerHook → Mutation R (Option R)
server_mutation (creating input) = on_servers (create_server input)
server_mutation (updating id input) = on_servers (update_server id input)
server_mutation (deleting id) = on_servers (delete_server id)
server_mutation (connecting id) = on_servers (connect_server id)
server_mutation (provisioning id) = on_servers (provision_server id)

-- `useCreateSite`, `useUpdateSite`, `useDeleteSite` and `useDeploySite`.
abbrev pub site_mutation : {R : Type 0} → SiteHook → Mutation R (Option R)
site_mutation (creating_site input) = on_sites (create_site input)
site_mutation (updating_site id input) = on_sites (update_site id input)
site_mutation (deleting_site id) = on_sites (delete_site id)
site_mutation (deploying_site id) = on_sites (deploy_site id)

-- Which queries are fresh. `matches` is the library's test of a filter's key against that of a query.
module _ (matches : QueryKey → QueryKey → Bool) where
  -- `qc.invalidateQueries({ queryKey })`
  unfoldable pub invalidate : QueryKey → (QueryKey → Bool) → QueryKey → Bool
  invalidate filter fresh key = fresh key && not (matches filter key)

  -- `mutateAsync`, with the reply to its request.
  unfoldable pub mutate_async :
      {R X : Type 0}
      → (Text → Option R)
      → Mutation R X
      → Option Reply
      → Browser
      → (QueryKey → Bool)
      → Outcome X × Browser × (QueryKey → Bool)
  mutate_async parse m reply b fresh =
      let r = perform parse (replying reply) m.call b in
      elim r.0 [
        | ok v ↦ (ok v, r.1, invalidate m.invalidated fresh)
        | threw e ↦ (threw e, r.1, fresh)
      ]
