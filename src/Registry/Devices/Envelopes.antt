-- ===== src/Registry/Devices/Envelopes.antt =====
-- The device endpoints answer by `ok`.
use embediq_cloud.Prelude.{ℕ, String}
use embediq_cloud.Json.{Codec}
use embediq_cloud.Envelope.{IsOk}
use embediq_cloud.Db.{Db}
use embediq_cloud.Db.Connection.Answers.{answers_rules, Answers-with_connection}
use embediq_cloud.Password.{Bcrypt}
use embediq_cloud.Registry.Devices.{
  DeviceCreate, DevicePatch, post_device, patch_device, patch_rows, delete_device, get_device,
  list_devices,
}

module _ (C : Codec) (db : Db C.Text) where
  pub post_device-IsOk :
      (B : Bcrypt) (now : ℕ) (salt : String) (body : DeviceCreate)
      → IsOk (post_device C B now salt body db).0
  unfolding post_device
  post_device-IsOk B now salt body = Answers-with_connection _ db (search (answers_rules) depth 12)

  pub patch_device-IsOk : (k : String) (body : DevicePatch) → IsOk (patch_device C k body db).0
  unfolding patch_device patch_rows
  patch_device-IsOk k body = Answers-with_connection _ db (search (answers_rules) depth 12)

  pub delete_device-IsOk : (k : String) → IsOk (delete_device C k db).0
  unfolding delete_device
  delete_device-IsOk k = Answers-with_connection _ db (search (answers_rules) depth 12)

  pub get_device-IsOk : (k : String) → IsOk (get_device C k db).0
  unfolding get_device
  get_device-IsOk k = Answers-with_connection _ db (search (answers_rules) depth 16)

  pub list_devices-IsOk : IsOk (list_devices C db).0
  unfolding list_devices
  list_devices-IsOk = Answers-with_connection _ db (search (answers_rules) depth 12)
