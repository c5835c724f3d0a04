-- ===== src/Routes/Pages.antt =====
-- How the pages of app/ui.py are reached.
use mathlib.Core.List.Memᴰ
use mathlib.Core.List.{Memᴰ}
use embediq_cloud.Prelude.{String, Option, none, some, List, [], ◌∷◌}
use embediq_cloud.Routes.{
  get, Handler, root_route, login_page_route, overview_page_route, fleet_page_route,
  device_page_route, ota_page_route, settings_page_route, Router, routes, dispatch,
}
use embediq_cloud.Ui

-- the pages, and what they do with the arguments of their paths
abbrev pub page_of : Handler → List String → Option Ui.Page
page_of root_route [] = some Ui.root
page_of login_page_route [] = some Ui.login_page
page_of overview_page_route [] = some Ui.overview_page
page_of fleet_page_route [] = some Ui.fleet_page
page_of device_page_route (device_id ∷ []) = some (Ui.device_page device_id)
page_of ota_page_route [] = some Ui.ota_page
page_of settings_page_route [] = some Ui.settings_page
page_of _ _ = none

module _ (R : Router) where
  -- the page that a GET of the path shows
  abbrev pub page_at : String → Option Ui.Page
  page_at path = elim (dispatch R routes get path) [ none ↦ none | some (h, args) ↦ page_of h args ]

  -- the page after at most one redirect
  abbrev pub landing : String → Option Ui.Page
  landing path = elim (page_at path) [
    | none ↦ none
    | some p ↦ elim p [
      | Ui.redirect url status_code ↦ page_at url
      | Ui.template name context ↦ some (Ui.template name context)
    ]
  ]
