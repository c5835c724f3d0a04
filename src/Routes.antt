-- ===== src/Routes.antt =====
-- The routes of app/main.py: the decorators of app/auth.py, app/registry.py, app/shadow.py, app/ota.py,
-- app/ui.py and app/main.py, with the prefixes of their routers, in the order of `include_router`. How
-- a pattern matches a path is the web framework's, a parameter. The mount of static files and the
-- pages that FastAPI adds for its documentation are left out.
pub mod Patterns
pub mod Reached
pub mod Pages
pub mod Unreachable
pub mod Matcher
use embediq_cloud.Prelude.{
  has_feed, String, ◌+++◌, ◌≡◌, Bool, true, false, Option, none, some, List, [], ◌∷◌, ◌++◌,
  if◌then◌else◌,
}
use embediq_cloud.Routes.Patterns.{ArePlain, Fits, filled_path}

pub data Method : Type 0 where
  get post patch delete : Method

abbrev pub method_eq : Method → Method → Bool
method_eq get get = true
method_eq post post = true
method_eq patch patch = true
method_eq delete delete = true
method_eq _ _ = false

-- the functions behind the routes
pub data Handler : Type 0 where
  login_route internal_auth_route internal_acl_route : Handler
  list_devices_route get_device_route post_device_route patch_device_route delete_device_route :
      Handler
  list_groups_route post_group_route delete_group_route : Handler
  system_health_route system_certs_route rotate_certs_route : Handler
  get_shadow_route patch_desired_route : Handler
  list_firmware_route post_firmware_route delete_firmware_route deploy_route ota_status_route
        device_cmd_route :
      Handler
  hawkbit_callback_route : Handler
  root_route login_page_route overview_page_route fleet_page_route device_page_route ota_page_route
        settings_page_route :
      Handler
  health_route : Handler

pub record Route : Type 0 where
  pub method : Method
  pub path : String
  pub handler : Handler

abbrev route : Method → String → Handler → Route
route method path handler = record { method = method; path = path; handler = handler }

-- `APIRouter(prefix="/api/v1/auth")`
abbrev auth_router : List Route
auth_router = route post ("/api/v1/auth" +++ "/login") login_route ∷ []

-- `APIRouter(prefix="/internal")`
abbrev internal_router : List Route
internal_router =
    route post ("/internal" +++ "/auth") internal_auth_route
    ∷ route post ("/internal" +++ "/acl") internal_acl_route
    ∷ []

-- `APIRouter(prefix="/api/v1")`
abbrev registry_router : List Route
registry_router =
    route get ("/api/v1" +++ "/devices") list_devices_route
    ∷ route get ("/api/v1" +++ "/devices/{device_id}") get_device_route
    ∷ route post ("/api/v1" +++ "/devices") post_device_route
    ∷ route patch ("/api/v1" +++ "/devices/{device_id}") patch_device_route
    ∷ route delete ("/api/v1" +++ "/devices/{device_id}") delete_device_route
    ∷ route get ("/api/v1" +++ "/groups") list_groups_route
    ∷ route post ("/api/v1" +++ "/groups") post_group_route
    ∷ route delete ("/api/v1" +++ "/groups/{group_id}") delete_group_route
    ∷ route get ("/api/v1" +++ "/system/health") system_health_route
    ∷ route get ("/api/v1" +++ "/system/certs") system_certs_route
    ∷ route post ("/api/v1" +++ "/system/certs/rotate") rotate_certs_route
    ∷ []

-- `APIRouter(prefix="/api/v1")`
abbrev shadow_router : List Route
shadow_router =
    route get ("/api/v1" +++ "/devices/{device_id}/shadow") get_shadow_route
    ∷ route patch ("/api/v1" +++ "/devices/{device_id}/shadow/desired") patch_desired_route
    ∷ []

-- `APIRouter(prefix="/api/v1")`
abbrev ota_router : List Route
ota_router =
    route get ("/api/v1" +++ "/ota/firmware") list_firmware_route
    ∷ route post ("/api/v1" +++ "/ota/firmware") post_firmware_route
    ∷ route delete ("/api/v1" +++ "/ota/firmware/{module_id}") delete_firmware_route
    ∷ route post ("/api/v1" +++ "/ota/deploy") deploy_route
    ∷ route get ("/api/v1" +++ "/ota/status/{device_id}") ota_status_route
    ∷ route post ("/api/v1" +++ "/devices/{device_id}/cmd") device_cmd_route
    ∷ []

-- `APIRouter(prefix="/internal")`
abbrev callback_router : List Route
callback_router = route post ("/internal" +++ "/hawkbit-callback") hawkbit_callback_route ∷ []

-- `APIRouter()`
abbrev ui_router : List Route
ui_router =
    route get "/" root_route
    ∷ route get "/login" login_page_route
    ∷ route get "/ui/overview" overview_page_route
    ∷ route get "/ui/fleet" fleet_page_route
    ∷ route get "/ui/devices/{device_id}" device_page_route
    ∷ route get "/ui/ota" ota_page_route
    ∷ route get "/ui/settings" settings_page_route
    ∷ []

-- the calls of `include_router`, and `/health`
unfoldable pub routes : List Route
routes =
    auth_router
    ++ internal_router
    ++ registry_router
    ++ shadow_router
    ++ ota_router
    ++ callback_router
    ++ ui_router
    ++ route get "/health" health_route ∷ []

-- How the framework matches a path with the pattern of a route, and what its documentation says of
-- it. A path parameter `{name}` takes a text that is not empty and has no slash. What a path that ends
-- in a line feed matches is left open.
pub record Router : Type 0 where
  pub match : String → String → Option (List String)
  pub match-filled :
      (pattern : String) (args : List String)
      → Fits pattern args
      → match pattern (filled_path pattern args) ≡ some args
  pub match-ArePlain :
      (pattern path : String) (args : List String) → match pattern path ≡ some args → ArePlain args
  pub filled-match :
      (pattern path : String) (args : List String)
      → has_feed path ≡ false
      → match pattern path ≡ some args
      → Fits pattern args × (path ≡ filled_path pattern args)

module _ (R : Router) where
  -- the first route with the method whose pattern matches, and the arguments of its function
  unfoldable pub dispatch : List Route → Method → String → Option (Handler × List String)
  dispatch [] method path = none
  dispatch (r ∷ rs) method path =
      let rest = dispatch rs method path in
      if method_eq r.method method
      then elim (R.match r.path path) [ some args ↦ some (r.handler, args) | none ↦ rest ]
      else rest
