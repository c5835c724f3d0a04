-- ===== src/Ota/Firmware.antt =====
-- The proxy of Hawkbit: what is asked of it, and how its failures are answered.
use embediq_cloud.Prelude.{String, ◌+++◌, [], ◌∷◌, arith}
use embediq_cloud.Prelude.Int.{ℤ}
use embediq_cloud.Outcome.{Outcome, returned, raised, hawkbit_error}
use embediq_cloud.Json.{Value, str, object, list, Codec}
use embediq_cloud.Hawkbit.{Log, Server, Request, json, file}
use embediq_cloud.Ota.{
  DeployRequest, hawkbit_http_error, list_firmware, delete_firmware, deploy, post_firmware,
  ota_status, filename_or,
}

module _ (C : Codec) (server : Server) where
  abbrev pub create_request : String → String → Request
  create_request name version = record {
    method = "POST";
    path = "/rest/v1/softwaremodules";
    body = json (
        list
          (object (("name", str name) ∷ ("version", str version) ∷ ("type", str "os") ∷ []) ∷ []));
  }

  abbrev pub upload_request : Value → String → String → Request
  upload_request id filename content = record {
    method = "POST";
    path = "/rest/v1/softwaremodules/" +++ C.py_str id +++ "/artifacts";
    body = file (filename_or C server filename) content;
  }

-- an answer that is no HawkbitError
abbrev pub NoHawkbitError : {A : Type 0} → Outcome A → Type 0
NoHawkbitError (raised (hawkbit_error status message)) = ⊥
NoHawkbitError _ = Unit

proxied-NoHawkbitError : {A : Type 0} (r : Outcome A) → NoHawkbitError (hawkbit_http_error r)
proxied-NoHawkbitError (returned a) = tt
proxied-NoHawkbitError (raised e) = ground arith

-- A failure of Hawkbit leaves none of the five endpoints as a HawkbitError, whatever it answers.
pub endpoints-NoHawkbitError :
    (C : Codec) (server : Server) (name version filename content device_id : String) (module_id : ℤ)
    (body : DeployRequest) (log : Log)
    → NoHawkbitError (list_firmware C server log).0
      × NoHawkbitError (post_firmware C server name version filename content log).0
      × NoHawkbitError (delete_firmware C server module_id log).0
      × NoHawkbitError (deploy C server body log).0
      × NoHawkbitError (ota_status C server device_id log).0
unfolding list_firmware post_firmware delete_firmware deploy ota_status
endpoints-NoHawkbitError C server name version filename content device_id module_id body log = (
  proxied-NoHawkbitError _,
  proxied-NoHawkbitError _,
  proxied-NoHawkbitError _,
  proxied-NoHawkbitError _,
  proxied-NoHawkbitError _,
)
