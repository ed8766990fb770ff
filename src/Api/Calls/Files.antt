-- ===== src/Api/Calls/Files.antt =====
-- The file manager calls of frontend/lib/api.ts.
use ventopanel.Base.{Option, none, some, List, [], ◌∷◌, ◌++◌, Text, text}
use ventopanel.Api.Uri.{encode_uri_component}
use ventopanel.Api.Session.{Browser, get_token, present}
use ventopanel.Api.Fetch.{
  post, put, patch, delete, str, strs, ApiCall, plain, with_method, with_body, whole, ignored,
}

-- Appends `&server_id=…` only for a server that is there and not empty.
abbrev pub sid_param : Option Text → Text
sid_param server_id = elim (present server_id) [
  | none ↦ []
  | some s ↦ text "&server_id=" ++ encode_uri_component s
]

-- The same as the first parameter of a query.
abbrev pub sid_query : Option Text → Text
sid_query server_id = elim (present server_id) [
  | none ↦ []
  | some s ↦ text "?server_id=" ++ encode_uri_component s
]

abbrev pub token_param : Option Text → Text
token_param token = elim (present token) [
  | none ↦ []
  | some t ↦ text "&token=" ++ encode_uri_component t
]

unfoldable pub fm_download_url : Text → Option Text → Browser → Text
fm_download_url path server_id b =
    text "/api/v1/files/download?path="
    ++ (encode_uri_component path ++ (sid_param server_id ++ token_param (get_token b)))

unfoldable pub fm_list_dir : {R : Type 0} → Text → Option Text → ApiCall R (Option R)
fm_list_dir path server_id = record {
  path = text "/files?path=" ++ (encode_uri_component path ++ sid_param server_id);
  options = plain;
  finish = whole;
}

unfoldable pub fm_read_file : {R : Type 0} → Text → Option Text → ApiCall R (Option R)
fm_read_file path server_id = record {
  path = text "/files/content?path=" ++ (encode_uri_component path ++ sid_param server_id);
  options = plain;
  finish = whole;
}

unfoldable pub fm_write_file : {R : Type 0} → Text → Text → Option Text → ApiCall R (Unit {0})
fm_write_file path content server_id = record {
  path = text "/files/content?path=" ++ (encode_uri_component path ++ sid_param server_id);
  options = with_body put ((text "content", str content) ∷ []);
  finish = ignored;
}

unfoldable pub fm_delete : {R : Type 0} → Text → Option Text → ApiCall R (Unit {0})
fm_delete path server_id = record {
  path = text "/files?path=" ++ (encode_uri_component path ++ sid_param server_id);
  options = with_method delete;
  finish = ignored;
}

unfoldable pub fm_create_dir : {R : Type 0} → Text → Option Text → ApiCall R (Unit {0})
fm_create_dir path server_id = record {
  path = text "/files/dir?path=" ++ (encode_uri_component path ++ sid_param server_id);
  options = with_method post;
  finish = ignored;
}

unfoldable pub fm_rename : {R : Type 0} → Text → Text → Option Text → ApiCall R (Unit {0})
fm_rename old_path new_path server_id = record {
  path = text "/files/rename" ++ sid_query server_id;
  options = with_body post ((text "old_path", str old_path) ∷ (text "new_path", str new_path) ∷ []);
  finish = ignored;
}

unfoldable pub fm_compress : {R : Type 0} → List Text → Text → Option Text → ApiCall R (Unit {0})
fm_compress src_paths dest_zip server_id = record {
  path = text "/files/compress" ++ sid_query server_id;
  options =
      with_body post ((text "src_paths", strs src_paths) ∷ (text "dest_zip", str dest_zip) ∷ []);
  finish = ignored;
}

unfoldable pub fm_extract : {R : Type 0} → Text → Text → Option Text → ApiCall R (Unit {0})
fm_extract zip_path dest_dir server_id = record {
  path = text "/files/extract" ++ sid_query server_id;
  options = with_body post ((text "zip_path", str zip_path) ∷ (text "dest_dir", str dest_dir) ∷ []);
  finish = ignored;
}

unfoldable pub fm_set_permissions : {R : Type 0} → Text → Text → Option Text → ApiCall R (Unit {0})
fm_set_permissions path mode server_id = record {
  path = text "/files/permissions?path=" ++ (encode_uri_component path ++ sid_param server_id);
  options = with_body patch ((text "mode", str mode) ∷ []);
  finish = ignored;
}
