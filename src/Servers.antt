-- ===== src/Servers.antt =====
-- frontend/app/(dashboard)/servers/[id]/page.tsx: the bars of the statistics and the buttons of a server. The badge of
-- its status is in Tables.
mod Tests
pub mod Bars
use ventopanel.Base.{
  ℕ, min, leb, ltb, if◌then◌else◌, Bool, true, false, not, ◌&&◌, Option, none, some, List, [], ◌∷◌,
  ◌++◌, Text, get_elem?, remove_at, pending, is_of,
}
use ventopanel.Api.Session.{Browser, TokenPayload}
use ventopanel.Api.Fetch.{Reply, perform}
use ventopanel.Api.Fetch.Performed.{replying}
use ventopanel.Api.Calls.Servers.{connect_server, provision_server}
use ventopanel.Access.{use_auth}
use ventopanel.Monitor.Points.{rounded_pct}

pub data BarColor : Type 0 where
  red_bar yellow_bar green_bar : BarColor

-- `pct` of `StatBar`, for whole numbers.
unfoldable pub stat_pct : ℕ → ℕ → ℕ
stat_pct used total = if ltb 0 total then min 100 (rounded_pct used total) else 0

-- `color` of `StatBar`
unfoldable pub bar_color : ℕ → BarColor
bar_color pct = if leb 90 pct then red_bar else if leb 70 pct then yellow_bar else green_bar

pub data ServerCall : Type 0 where
  connect provision : ServerCall

abbrev pub kind_of : ServerCall → ℕ
kind_of connect = 0
kind_of provision = 1

-- `mounted` is the browser when the page was mounted, of which `useAuth` keeps the role.
pub record ServerPage : Type 0 where
  pub waiting : List ServerCall
  pub browser : Browser
  pub mounted : Browser

pub data Event : Type 0 where
  clicked : ServerCall → Event
  replied : ℕ → Option Reply → Event

-- `parse` reads a reply that is not used, and `decode` the payload of a token.
module _ {R : Type 0} (parse : Text → Option R) (decode : Text → Option TokenPayload)
    (id : Text) where
  unfoldable pub finish : ServerCall → Option Reply → ServerPage → ServerPage
  finish connect reply s = record s {
    browser = (perform parse (replying reply) (connect_server id) s.browser).1;
  }
  finish provision reply s = record s {
    browser = (perform parse (replying reply) (provision_server id) s.browser).1;
  }

  -- `handleConnect` and `handleProvision`, of buttons for who may write, each off while its mutation is pending.
  unfoldable pub step : ServerPage → Event → ServerPage
  step s (clicked call) =
      if (use_auth decode s.mounted).can_write
        && not (pending (is_of kind_of (kind_of call)) s.waiting)
      then record s { waiting = s.waiting ++ call ∷ [] }
      else s
  step s (replied i reply) = elim (get_elem? s.waiting i) [
    | none ↦ s
    | some call ↦ finish call reply (record s { waiting = remove_at i s.waiting })
  ]

  unfoldable pub run : ServerPage → List Event → ServerPage
  run s [] = s
  run s (e ∷ es) = run (step s e) es
