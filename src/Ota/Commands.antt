-- ===== src/Ota/Commands.antt =====
-- The messages to a device's command channel.
use embediq_cloud.Prelude.{
  All, ◌≡◌, String, Bool, true, false, Option, some, none, [], ◌∷◌, arith, is_some, or_else,
}
use embediq_cloud.Outcome.{returned, is_handled}
use embediq_cloud.Envelope.{ok}
use embediq_cloud.Json.{bool, Value, str, object, lookup, Codec}
use embediq_cloud.Json.Dict.{last, lookup-update}
use embediq_cloud.Db.{Db, find_device}
use embediq_cloud.Mqtt.{Message, publish}
use embediq_cloud.Json.Dict.{dict_of, dict_of-dumps}
use embediq_cloud.Ota.{
  CmdRequest, HawkbitCallback, is_valid_cmd, cmd_topic, cmd_payload, device_cmd, hawkbit_callback,
}

module _ (C : Codec) (takes : Message C.Text → Bool) where
  -- a command to the device: on its command topic, not retained
  abbrev pub IsCommand : String → Message C.Text → Type 0
  IsCommand k m = (m.topic ≡ cmd_topic k) × (m.retain ≡ false) × (m.qos ≡ 1)

  pub device_cmd-IsCommand :
      (k : String) (body : CmdRequest) (db : Db C.Text)
      → All (IsCommand k) (device_cmd C takes k body db).1
  unfolding device_cmd publish
  device_cmd-IsCommand k body db = ground arith

  pub device_cmd-is_handled :
      (k : String) (body : CmdRequest) (db : Db C.Text)
      → is_handled (device_cmd C takes k body db).0 ≡ true
  unfolding device_cmd
  device_cmd-is_handled k body db = ground arith

  pub hawkbit_callback-IsCommand :
      (callback : HawkbitCallback)
      → All (IsCommand callback.device_id) (hawkbit_callback C takes callback).1
  unfolding hawkbit_callback publish
  hawkbit_callback-IsCommand callback = ground arith

  -- No command is retained: whatever the two endpoints publish goes to the command topic of the
  -- device, with the retain flag off.
  pub commands_not_retained :
      (k : String) (body : CmdRequest) (callback : HawkbitCallback) (db : Db C.Text)
      → All (IsCommand k) (device_cmd C takes k body db).1
        × All (IsCommand callback.device_id) (hawkbit_callback C takes callback).1
  commands_not_retained k body callback db =
      (device_cmd-IsCommand k body db, hawkbit_callback-IsCommand callback)

  -- the command that a message carries
  abbrev pub carried : Message C.Text → Option Value
  carried m = elim (dict_of C m.payload) [ none ↦ none | some d ↦ lookup "cmd" d ]

  -- Where the client takes every message, a valid command for a registered device succeeds, and the
  -- one message carries the last "cmd" of the parameters, or the command where they have none.
  pub device_cmd_carries :
      (k : String) (body : CmdRequest) (db : Db C.Text)
      → is_valid_cmd body.cmd ≡ true
      → is_some (find_device k db) ≡ true
      → ((m : Message C.Text) → takes m ≡ true)
      → (m : Message C.Text) × ((device_cmd C takes k body db).0
          ≡ returned (ok (object (("published", bool true) ∷ []))))
        × ((device_cmd C takes k body db).1 ≡ m ∷ [])
        × (carried m ≡ or_else (last "cmd" body.params) (some (str body.cmd)))
  unfolding device_cmd publish
  device_cmd_carries k body db valid known all =
      let payload = cmd_payload C takes body in
      let m : Message C.Text = record {
        topic = cmd_topic k;
        payload = C.dumps (object payload);
        qos = 1;
        retain = false;
      } in
      (
        m,
        ground arith,
        ground (arith, all m),
        ground (
          arith,
          dict_of-dumps C payload,
          lookup-update "cmd" (("cmd", str body.cmd) ∷ []) body.params,
        ),
      )
