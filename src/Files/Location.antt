-- ===== src/Files/Location.antt =====
-- The address of the page frontend/app/(dashboard)/files/page.tsx, which holds the path and the server that
-- it shows.
use ventopanel.Base.{
  ◌≡◌, if◌then◌else◌, Option, none, some, [], ◌++◌, Text, text, text_eq, All, arith,
}
use ventopanel.Api.Uri.{encode_uri_component}
use ventopanel.Api.Uri.Laws.{IsChar}
use ventopanel.Api.Calls.Files.{sid_param, fm_list_dir}
use ventopanel.Api.Addresses.{read_address, file_parameters, read_path_server}

-- `sid !== undefined ? sid : serverId`
abbrev pub server_or : Text → Option Text → Text
server_or server_id none = server_id
server_or server_id (some sid) = sid

-- `navigate(p, sid)` on a page of the server `server_id`: the address that is pushed. A server that is
-- the empty text is left out, as in the addresses of the file calls.
unfoldable pub navigate : Text → Text → Option Text → Text
navigate server_id p sid =
    text "/files?path=" ++ (encode_uri_component p ++ sid_param (some (server_or server_id sid)))

-- `handleServerChange`
unfoldable pub handle_server_change : Text → Text → Text
handle_server_change server_id sid =
    navigate server_id (text "/") (some (if text_eq sid (text "__local__") then [] else sid))

-- The page reads from the address that it was sent to the path and the server that were meant: the
-- server of the page where none was named, and the root of the panel host after a change to that.
read_address-navigate :
    (server_id p sid : Text)
    → All IsChar p
    → All IsChar server_id
    → All IsChar sid
    → (read_address (navigate server_id p none) ≡ some (file_parameters p (some server_id)))
      × (read_address (navigate server_id p (some sid)) ≡ some (file_parameters p (some sid)))
      × (read_address (handle_server_change server_id (text "__local__"))
          ≡ some (file_parameters (text "/") none))
unfolding navigate handle_server_change fm_list_dir
read_address-navigate server_id p sid h k l = (
  read_path_server p (some server_id) h k,
  read_path_server p (some sid) h l,
  read_path_server (text "/") (some []) (omega arith) tt,
)
