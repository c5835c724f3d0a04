-- ===== src/Tests/Firmware.antt =====
-- The Hawkbit proxy and the commands on the small file.
use embediq_cloud.Prelude.{true, ◌≡◌, refl, Option, none, some, [], ◌∷◌}
use embediq_cloud.Prelude.Int.{pos}
use embediq_cloud.Outcome.{returned}
use embediq_cloud.Envelope.{ok}
use embediq_cloud.Json.{bool, Value, str, object}
use embediq_cloud.Mqtt.{Message}
use embediq_cloud.Ota.{
  list_firmware, delete_firmware, deploy, ota_status, DeployRequest, is_valid_cmd, CmdRequest,
  HawkbitCallback, device_cmd, post_firmware,
}
use embediq_cloud.Ota.Commands.{carried, device_cmd_carries}
use embediq_cloud.Ota.Firmware.{NoHawkbitError, endpoints-NoHawkbitError}
use embediq_cloud.Tests.{codec, hawkbit, takes_all, home}

abbrev reboot : CmdRequest
reboot = record { cmd = "reboot"; params = ("cmd", str "format_disk") ∷ [] }

abbrev callback : HawkbitCallback
callback = record {
  device_id = "lamp";
  firmware_id = none;
  url = some "http://files/fw.bin";
  checksum = none;
  version = some "1.3";
}

device_cmd_carries_example :
    (m : Message (Option Value)) × ((device_cmd codec takes_all "lamp" reboot home).0
      ≡ returned (ok (object (("published", bool true) ∷ []))))
    × ((device_cmd codec takes_all "lamp" reboot home).1 ≡ m ∷ [])
    × (carried codec takes_all m ≡ some (str "format_disk"))
unfolding is_valid_cmd
device_cmd_carries_example =
    device_cmd_carries codec takes_all "lamp" reboot home refl refl (λ m. refl)

abbrev to_lamp : DeployRequest
to_lamp = record { firmware_id = pos 7; device_id = some "lamp"; group_id = none; notes = none }

endpoints-NoHawkbitError_example :
    NoHawkbitError (list_firmware codec hawkbit []).0
    × NoHawkbitError (post_firmware codec hawkbit "fw" "1.3" "fw.bin" "bytes" []).0
    × NoHawkbitError (delete_firmware codec hawkbit (pos 7) []).0
    × NoHawkbitError (deploy codec hawkbit to_lamp []).0
    × NoHawkbitError (ota_status codec hawkbit "lamp" []).0
endpoints-NoHawkbitError_example =
    endpoints-NoHawkbitError codec hawkbit "fw" "1.3" "fw.bin" "bytes" "lamp" (pos 7) to_lamp []
