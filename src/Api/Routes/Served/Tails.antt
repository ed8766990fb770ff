-- ===== src/Api/Routes/Served/Tails.antt =====
-- The query that names a server is a query or nothing.
use ventopanel.Base.{Option, none, some, refl, [], ◌∷◌, Text}
use ventopanel.Api.Calls.Files.{sid_query}
use ventopanel.Api.Routes.Filling.{IsTail}

pub sid_query-IsTail : (server_id : Option Text) → IsTail (sid_query server_id)
sid_query-IsTail none = tt
sid_query-IsTail (some []) = tt
sid_query-IsTail (some (c ∷ s)) = refl
