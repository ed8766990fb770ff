-- ===== src/Api/Calls/Nginx.antt =====
-- The nginx calls of frontend/lib/api.ts.
use ventopanel.Base.{Option, [], ◌∷◌, ◌++◌, Text, text}
use ventopanel.Api.Uri.{encode_uri_component}
use ventopanel.Api.Fetch.{
  post, put, delete, str, Body, ApiCall, plain, with_method, with_body, whole, ignored, given,
}

abbrev pub vhost_body : Text → Option Text → Body
vhost_body name content = (text "name", str name) ∷ given (text "content") content

abbrev pub cert_body : Text → Option Text → Body
cert_body domain email = (text "domain", str domain) ∷ given (text "email") email

unfoldable pub fetch_nginx_status : {R : Type 0} → Text → ApiCall R (Option R)
fetch_nginx_status server_id = record {
  path = text "/servers/" ++ (server_id ++ text "/nginx/status");
  options = plain;
  finish = whole;
}

unfoldable pub fetch_nginx_vhosts : {R : Type 0} → Text → ApiCall R (Option R)
fetch_nginx_vhosts server_id = record {
  path = text "/servers/" ++ (server_id ++ text "/nginx/vhosts");
  options = plain;
  finish = whole;
}

unfoldable pub fetch_nginx_vhost : {R : Type 0} → Text → Text → ApiCall R (Option R)
fetch_nginx_vhost server_id name = record {
  path = text "/servers/" ++ (server_id ++ (text "/nginx/vhosts/" ++ encode_uri_component name));
  options = plain;
  finish = whole;
}

unfoldable pub save_nginx_vhost : {R : Type 0} → Text → Text → Text → ApiCall R (Option R)
save_nginx_vhost server_id name content = record {
  path = text "/servers/" ++ (server_id ++ (text "/nginx/vhosts/" ++ encode_uri_component name));
  options = with_body put ((text "content", str content) ∷ []);
  finish = whole;
}

unfoldable pub create_nginx_vhost : {R : Type 0} → Text → Text → Option Text → ApiCall R (Option R)
create_nginx_vhost server_id name starting_content = record {
  path = text "/servers/" ++ (server_id ++ text "/nginx/vhosts");
  options = with_body post (vhost_body name starting_content);
  finish = whole;
}

unfoldable pub delete_nginx_vhost : {R : Type 0} → Text → Text → ApiCall R (Unit {0})
delete_nginx_vhost server_id name = record {
  path = text "/servers/" ++ (server_id ++ (text "/nginx/vhosts/" ++ encode_uri_component name));
  options = with_method delete;
  finish = ignored;
}

unfoldable pub enable_nginx_vhost : {R : Type 0} → Text → Text → ApiCall R (Option R)
enable_nginx_vhost server_id name = record {
  path =
      text "/servers/"
      ++ (server_id ++ (text "/nginx/vhosts/" ++ (encode_uri_component name ++ text "/enable")));
  options = with_method post;
  finish = whole;
}

unfoldable pub disable_nginx_vhost : {R : Type 0} → Text → Text → ApiCall R (Option R)
disable_nginx_vhost server_id name = record {
  path =
      text "/servers/"
      ++ (server_id ++ (text "/nginx/vhosts/" ++ (encode_uri_component name ++ text "/disable")));
  options = with_method post;
  finish = whole;
}

unfoldable pub test_nginx_config : {R : Type 0} → Text → ApiCall R (Option R)
test_nginx_config server_id = record {
  path = text "/servers/" ++ (server_id ++ text "/nginx/test");
  options = with_method post;
  finish = whole;
}

unfoldable pub reload_nginx : {R : Type 0} → Text → ApiCall R (Option R)
reload_nginx server_id = record {
  path = text "/servers/" ++ (server_id ++ text "/nginx/reload");
  options = with_method post;
  finish = whole;
}

unfoldable pub issue_nginx_cert :
    {R : Type 0} → Text → Text → Text → Option Text → ApiCall R (Option R)
issue_nginx_cert server_id name domain email = record {
  path =
      text "/servers/"
      ++ (server_id ++ (text "/nginx/vhosts/" ++ (encode_uri_component name ++ text "/ssl")));
  options = with_body post (cert_body domain email);
  finish = whole;
}
