-- ===== src/Ota/Envelopes.antt =====
-- The proxy, the commands and the callback answer by `ok`.
use embediq_cloud.Prelude.{arith, refl, Bool, Bool-cases, inl, inr, String, is_some}
use embediq_cloud.Prelude.Int.{ℤ}
use embediq_cloud.Outcome.{Outcome, returned, raised}
use embediq_cloud.Json.{Value, Codec}
use embediq_cloud.Envelope.{ok, IsOk}
use embediq_cloud.Db.{Db, find_device}
use embediq_cloud.Mqtt.{Message}
use embediq_cloud.Hawkbit.{Call, Log, Server, pure, lift, ◌>>=◌}
use embediq_cloud.Ota.{
  DeployRequest, CmdRequest, HawkbitCallback, hawkbit_http_error, proxied, list_firmware,
  post_firmware, delete_firmware, deploy, ota_status, upload, is_valid_cmd, device_cmd,
  hawkbit_callback,
}

-- a call that answers by `ok`
pub record Answers (m : Call Value) : Type 0 where
  pub at : (log : Log) → IsOk (m log).0

Answers-ok : (v : Value) → Answers (pure (ok v))
Answers-ok v = record { at = λ log. (v, refl) }

after-IsOk :
    {A : Type 0} (r : Outcome A) (f : A → Call Value) (log : Log)
    → ((a : A) → Answers (f a))
    → IsOk ((lift r >>= f) log).0
after-IsOk (returned a) f log next = (next a).at log
after-IsOk (raised e) f log next = tt

Answers-bind :
    {A : Type 0} (m : Call A) (f : A → Call Value) → ((a : A) → Answers (f a)) → Answers (m >>= f)
Answers-bind m f next = record { at = λ log. after-IsOk (m log).0 f (m log).1 next }

http_error-IsOk : (r : Outcome Value) → IsOk r → IsOk (hawkbit_http_error r)
http_error-IsOk (returned v) h = h
http_error-IsOk (raised e) h = ground arith

Answers-proxied : (m : Call Value) → Answers m → Answers (proxied m)
Answers-proxied m k = record { at = λ log. http_error-IsOk (m log).0 (k.at log) }

ruleset answers_rules = (Answers-ok, Answers-bind, Answers-proxied)

module _ (C : Codec) (server : Server) where
  pub list_firmware-Answers : Answers (list_firmware C server)
  unfolding list_firmware
  list_firmware-Answers = search (answers_rules) depth 12

  pub post_firmware-Answers :
      (name version filename content : String)
      → Answers (post_firmware C server name version filename content)
  unfolding post_firmware upload
  post_firmware-Answers name version filename content = search (answers_rules) depth 12

  pub delete_firmware-Answers : (id : ℤ) → Answers (delete_firmware C server id)
  unfolding delete_firmware
  delete_firmware-Answers id = search (answers_rules) depth 12

  pub deploy-Answers : (body : DeployRequest) → Answers (deploy C server body)
  unfolding deploy
  deploy-Answers body = search (answers_rules) depth 12

  pub ota_status-Answers : (k : String) → Answers (ota_status C server k)
  unfolding ota_status
  ota_status-Answers k = search (answers_rules) depth 12

module _ (C : Codec) (takes : Message C.Text → Bool) where
  pub device_cmd-IsOk :
      (k : String) (body : CmdRequest) (db : Db C.Text) → IsOk (device_cmd C takes k body db).0
  unfolding device_cmd
  device_cmd-IsOk k body db = elim (Bool-cases (is_valid_cmd body.cmd)) [
    | inl v ↦ elim (Bool-cases (is_some (find_device k db))) [
      | inl e ↦ rw (v, e) (_, refl)
      | inr e ↦ rw (v, e) tt
    ]
    | inr v ↦ rw v tt
  ]

  pub hawkbit_callback-IsOk : (body : HawkbitCallback) → IsOk (hawkbit_callback C takes body).0
  unfolding hawkbit_callback
  hawkbit_callback-IsOk body = (_, refl)
