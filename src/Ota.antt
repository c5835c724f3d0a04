-- ===== src/Ota.antt =====
-- app/ota.py: the proxy of Hawkbit, and the commands to devices.
pub mod Commands
pub mod Threads
pub mod Firmware
pub mod Envelopes
use embediq_cloud.Prelude.{
  ℕ, String, ◌==◌, ◌+++◌, ◌||◌, Bool, true, false, not, Option, none, some, List, [], ◌∷◌, is_some,
  if◌then◌else◌,
}
use embediq_cloud.Prelude.Int.{ℤ}
use embediq_cloud.Outcome.{Error, Outcome, returned, raised, http_exception, hawkbit_error}
use embediq_cloud.Json.{Value, null, bool, int, str, Object, object, update, Codec}
use embediq_cloud.Db.{Db, find_device}
use embediq_cloud.Db.Connection.{select, with_connection}
use embediq_cloud.Envelope.{ok}
use embediq_cloud.Mqtt.{Message, publish}
use embediq_cloud.Registry.Devices.{not_found, opt_str}
use embediq_cloud.Hawkbit.{
  Log, Call, Server, pure, lift, ◌>>=◌, index, list_software_modules, create_software_module,
  upload_artifact, delete_software_module, create_deployment, deployment_status,
}

pub record DeployRequest : Type 0 where
  pub firmware_id : ℤ
  pub device_id : Option String
  pub group_id : Option String
  pub notes : Option String

pub record CmdRequest : Type 0 where
  pub cmd : String
  pub params : Object

pub record HawkbitCallback : Type 0 where
  pub device_id : String
  pub firmware_id : Option ℤ
  pub url : Option String
  pub checksum : Option String
  pub version : Option String

-- `except HawkbitError as exc: raise _hawkbit_http_error(exc)`
abbrev pub hawkbit_http_error : {A : Type 0} → Outcome A → Outcome A
hawkbit_http_error (raised (hawkbit_error status message)) = raised (http_exception status message)
hawkbit_http_error r = r

abbrev pub proxied : {A : Type 0} → Call A → Call A
proxied m log = let (r, log') = m log in (hawkbit_http_error r, log')

module _ (C : Codec) (server : Server) where
  pub list_firmware : Call Value
  list_firmware = proxied do modules ← list_software_modules C server; pure (ok modules)

  -- the upload, with `file.filename or "artifact.bin"`
  abbrev filename_or : String → String
  filename_or filename = if filename == "" then "artifact.bin" else filename

  upload : String → String → String → String → Call Value
  upload name version filename content = do
    module_value ← create_software_module C server name version
    id ← lift (index "id" module_value)
    _ ← upload_artifact C server id (filename_or filename) content
    pure (ok (object (("id", id) ∷ ("name", str name) ∷ ("version", str version) ∷ [])))

  pub post_firmware : String → String → String → String → Call Value
  unfolding upload
  post_firmware name version filename content = proxied (upload name version filename content)

  pub delete_firmware : ℤ → Call Value
  delete_firmware module_id = proxied do
    _ ← delete_software_module C server (int module_id)
    pure (ok (object (("id", int module_id) ∷ [])))

  pub deploy : DeployRequest → Call Value
  deploy body = proxied do
    created ← create_deployment C server (int body.firmware_id) body.device_id body.group_id
    pure (ok created)

  pub ota_status : String → Call Value
  ota_status device_id = proxied do status ← deployment_status C server device_id; pure (ok status)

-- `body.cmd in VALID_CMDS`
unfoldable pub is_valid_cmd : String → Bool
is_valid_cmd cmd = (cmd == "reboot") || (cmd == "rotate_cert") || (cmd == "ota_check")

-- f"embediq/{device_id}/cmd"
abbrev pub cmd_topic : String → String
cmd_topic device_id = "embediq/" +++ device_id +++ "/cmd"

abbrev pub opt_integer : Option ℤ → Value
opt_integer none = null
opt_integer (some n) = int n

module _ (C : Codec) (takes : Message C.Text → Bool) where
  -- `{"cmd": body.cmd, **body.params}`
  abbrev pub cmd_payload : CmdRequest → Object
  cmd_payload body = update (("cmd", str body.cmd) ∷ []) body.params

  pub device_cmd : String → CmdRequest → Db C.Text → Outcome Value × List (Message C.Text)
  device_cmd device_id body db =
      if not (is_valid_cmd body.cmd)
      then (raised (http_exception 400 ("invalid cmd: " +++ body.cmd)), [])
      else if is_some (find_device device_id db)
      then (
        returned (ok (object (("published", bool true) ∷ []))),
        publish C takes (cmd_topic device_id) (cmd_payload body) false,
      )
      else (raised not_found, [])

  abbrev callback_payload : HawkbitCallback → Object
  callback_payload body =
      ("cmd", str "ota_check")
      ∷ ("firmware_id", opt_integer body.firmware_id)
      ∷ ("url", opt_str body.url)
      ∷ ("checksum", opt_str body.checksum)
      ∷ ("version", opt_str body.version)
      ∷ []

  pub hawkbit_callback : HawkbitCallback → Outcome Value × List (Message C.Text)
  hawkbit_callback body = (
    returned (ok (object (("relayed", bool true) ∷ []))),
    publish C takes (cmd_topic body.device_id) (callback_payload body) false,
  )
