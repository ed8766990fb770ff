-- ===== src/Tables/Kinds.antt =====
-- The calls of frontend/components/servers-table.tsx and frontend/components/sites-table.tsx, for the rows of Tables/Rows.antt.
use ventopanel.Base.{ℕ, Option, Text}
use ventopanel.Api.Session.{Browser, TokenPayload}
use ventopanel.Api.Fetch.{Reply, perform}
use ventopanel.Api.Fetch.Performed.{replying}
use ventopanel.Api.Calls.Servers.{connect_server, provision_server, delete_server}
use ventopanel.Api.Calls.Sites.{deploy_site, delete_site}
use ventopanel.Tables.Rows.{Rows}

pub data ServerAction : Type 0 where
  connect provision : ServerAction

pub data SiteAction : Type 0 where
  deploy : SiteAction

abbrev pub server_number : ServerAction → ℕ
server_number connect = 0
server_number provision = 1

module _ {R : Type 0} (parse : Text → Option R) (decode : Text → Option TokenPayload) where
  abbrev pub act_on_server : ServerAction → Text → Option Reply → Browser → Browser
  act_on_server connect id reply b = (perform parse (replying reply) (connect_server id) b).1
  act_on_server provision id reply b = (perform parse (replying reply) (provision_server id) b).1

  -- `ServersTable`
  unfoldable pub server_rows : Rows ServerAction
  server_rows = record {
    decode = decode;
    number = server_number;
    act = act_on_server;
    remove = λ id reply b. (perform parse (replying reply) (delete_server id) b).1;
  }

  -- `SitesTable`
  unfoldable pub site_rows : Rows SiteAction
  site_rows = record {
    decode = decode;
    number = λ a. 0;
    act = λ a id reply b. (perform parse (replying reply) (deploy_site id) b).1;
    remove = λ id reply b. (perform parse (replying reply) (delete_site id) b).1;
  }
