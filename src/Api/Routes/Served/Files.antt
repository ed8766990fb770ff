-- ===== src/Api/Routes/Served/Files.antt =====
-- The calls of Api/Calls/Files.antt meet the routes of internal/transport/http/router.go.
use ventopanel.Base.{refl, Option, some, List, [], ◌∷◌, ◌++◌, Text, text}
use ventopanel.Api.Uri.{encode_uri_component}
use ventopanel.Api.Routes.{IsServed}
use ventopanel.Api.Routes.Filling.{served, checked}
use ventopanel.Api.Routes.Served.Tails.{sid_query-IsTail}
use ventopanel.Api.Calls.Files.{
  sid_param, sid_query, fm_list_dir, fm_read_file, fm_write_file, fm_delete, fm_create_dir,
  fm_rename, fm_compress, fm_extract, fm_set_permissions,
}

-- The arguments of the calls.
pub record Args : Type 0 where
  pub path : Text
  pub server_id : Option Text
  pub content : Text
  pub old_path : Text
  pub new_path : Text
  pub src_paths : List Text
  pub dest_zip : Text
  pub zip_path : Text
  pub dest_dir : Text
  pub mode : Text

abbrev pub AllFiles : Type 0 → Args → Type 0
AllFiles R a =
    IsServed (fm_list_dir {R = R} path server_id)
    × IsServed (fm_read_file {R = R} path server_id)
    × IsServed (fm_write_file {R = R} path content server_id)
    × IsServed (fm_delete {R = R} path server_id)
    × IsServed (fm_create_dir {R = R} path server_id)
    × IsServed (fm_rename {R = R} old_path new_path server_id)
    × IsServed (fm_compress {R = R} src_paths dest_zip server_id)
    × IsServed (fm_extract {R = R} zip_path dest_dir server_id)
    × IsServed (fm_set_permissions {R = R} path mode server_id)
  where
    open a use {
      path, server_id, content, old_path, new_path, src_paths, dest_zip, zip_path, dest_dir, mode,
    }

pub files-served : (R : Type 0) (a : Args) → AllFiles R a
unfolding fm_list_dir fm_read_file fm_write_file fm_delete fm_create_dir fm_rename fm_compress
    fm_extract fm_set_permissions
files-served R a = (
  served 10 _ (text "files") ([])
      (some (text "?path=" ++ (encode_uri_component path ++ sid_param server_id))) refl (refl, tt)
      (checked (text "files") refl) tt refl,
  served 11 _ (text "files") (text "content" ∷ [])
      (some (text "?path=" ++ (encode_uri_component path ++ sid_param server_id))) refl
      (refl, (refl, tt)) (checked (text "files") refl) (checked (text "content") refl, tt) refl,
  served 12 _ (text "files") (text "content" ∷ [])
      (some (text "?path=" ++ (encode_uri_component path ++ sid_param server_id))) refl
      (refl, (refl, tt)) (checked (text "files") refl) (checked (text "content") refl, tt) refl,
  served 13 _ (text "files") ([])
      (some (text "?path=" ++ (encode_uri_component path ++ sid_param server_id))) refl (refl, tt)
      (checked (text "files") refl) tt refl,
  served 14 _ (text "files") (text "dir" ∷ [])
      (some (text "?path=" ++ (encode_uri_component path ++ sid_param server_id))) refl
      (refl, (refl, tt)) (checked (text "files") refl) (checked (text "dir") refl, tt) refl,
  served 15 _ (text "files") (text "rename" ∷ []) (some (sid_query server_id)) refl
      (refl, (refl, tt)) (checked (text "files") refl) (checked (text "rename") refl, tt)
      (sid_query-IsTail server_id),
  served 18 _ (text "files") (text "compress" ∷ []) (some (sid_query server_id)) refl
      (refl, (refl, tt)) (checked (text "files") refl) (checked (text "compress") refl, tt)
      (sid_query-IsTail server_id),
  served 19 _ (text "files") (text "extract" ∷ []) (some (sid_query server_id)) refl
      (refl, (refl, tt)) (checked (text "files") refl) (checked (text "extract") refl, tt)
      (sid_query-IsTail server_id),
  served 20 _ (text "files") (text "permissions" ∷ [])
      (some (text "?path=" ++ (encode_uri_component path ++ sid_param server_id))) refl
      (refl, (refl, tt)) (checked (text "files") refl) (checked (text "permissions") refl, tt) refl,
)
  where
    open a use {
      path, server_id, content, old_path, new_path, src_paths, dest_zip, zip_path, dest_dir, mode,
    }
