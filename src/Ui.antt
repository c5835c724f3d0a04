-- ===== src/Ui.antt =====
-- app/ui.py: the page shells. A template is rendered by Jinja2 with the names of its context; the
-- request itself, which is a part of the context of every page, is left out.
use embediq_cloud.Prelude.{ℕ, String, List, [], ◌∷◌}

pub data Page : Type 0 where
  -- RedirectResponse(url, status_code)
  redirect : (url : String) (status_code : ℕ) → Page
  -- templates.TemplateResponse(request, name, context)
  template : (name : String) (context : List (String × String)) → Page

abbrev pub root : Page
root = redirect "/ui/overview" 307

abbrev pub login_page : Page
login_page = template "login.html" []

abbrev pub overview_page : Page
overview_page = template "overview.html" (("active", "overview") ∷ [])

abbrev pub fleet_page : Page
fleet_page = template "fleet.html" (("active", "fleet") ∷ [])

abbrev pub device_page : String → Page
device_page device_id = template "device.html" (("device_id", device_id) ∷ ("active", "fleet") ∷ [])

abbrev pub ota_page : Page
ota_page = template "ota.html" (("active", "ota") ∷ [])

abbrev pub settings_page : Page
settings_page = template "settings.html" (("active", "settings") ∷ [])
