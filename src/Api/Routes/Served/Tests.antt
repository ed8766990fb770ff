-- ===== src/Api/Routes/Served/Tests.antt =====
-- The theorem about the client's calls of frontend/lib/api.ts at concrete arguments.
use ventopanel.Base.{true, none, some, [], text}
use ventopanel.Api.Calls.Servers.{ServerInput}
use ventopanel.Api.Calls.Sites.{SiteInput}
use ventopanel.Api.Routes.Served.{Args}
use ventopanel.Api.Routes.Served.Servers
use ventopanel.Api.Routes.Served.Sites
use ventopanel.Api.Routes.Served.Account
use ventopanel.Api.Routes.Served.Panel
use ventopanel.Api.Routes.Served.Files
use ventopanel.Api.Routes.Served.Nginx

abbrev sample_server : ServerInput
sample_server = record {
  name = text "web";
  host = text "10.0.0.5";
  port = 22;
  provider = text "custom";
  ssh_user = text "root";
  ssh_password = text "secret";
  status = none;
}

abbrev sample_site : SiteInput
sample_site = record {
  server_id = text "srv1";
  name = text "shop";
  domain = text "shop.example";
  runtime = text "node";
  repository_url = [];
  branch = text "main";
  healthcheck_path = none;
  template_id = none;
  status = some (text "draft");
}

abbrev sample : Args
sample = record {
  servers = record { input = sample_server; id = text "srv1"; server_id = text "srv1" };
  sites = record {
    id = text "site1";
    input = sample_site;
    limit = 20;
    tail = 100;
    site_id = text "site1";
    key = text "API KEY";
    value = text "1";
    commit = text "abc";
    domain = text "a?b";
  };
  account = record {
    id = text "u1";
    role = text "viewer";
    current_password = [];
    new_password = [];
    email = [];
    password = [];
    name = [];
    mfa_session = [];
    code = [];
  };
  panel = record {
    params = record { resource_type = none; resource_id = none; limit = some 50; before = none };
    settings = record {
      telegram_bot_token = [];
      telegram_chat_id = [];
      whatsapp_webhook_url = [];
      uptime_notify_down = true;
      uptime_notify_recovery = true;
      uptime_fail_threshold = 3;
      uptime_recovery_threshold = 1;
      deploy_notify_success = true;
      deploy_notify_failure = true;
    };
    id = text "t1";
    s = record { auto_enabled = none; retention_count = some 7; notify_success = none };
  };
  files = record {
    path = text "/var/www";
    server_id = none;
    content = [];
    old_path = [];
    new_path = [];
    src_paths = [];
    dest_zip = [];
    zip_path = [];
    dest_dir = [];
    mode = [];
  };
  nginx = record {
    server_id = text "srv1";
    name = text "a b";
    content = [];
    starting_content = none;
    domain = [];
    email = none;
  };
}
