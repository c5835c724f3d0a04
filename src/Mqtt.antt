-- ===== src/Mqtt.antt =====
-- app/mqtt_pub.py: the publisher of the cloud -> device direction.
pub mod Client
use embediq_cloud.Prelude.{ℕ, String, Bool, true, List, [], ◌∷◌, if◌then◌else◌}
use embediq_cloud.Json.{Object, object, Codec}

pub record Message (T : Type 0) : Type 0 where
  pub topic : String
  pub payload : T
  pub qos : ℕ
  pub retain : Bool

-- `takes m` is whether the MQTT client takes the message `m` without raising. `publish` catches
-- what it raises, so a call gives the messages that it sent.
module _ (C : Codec) (takes : Message C.Text → Bool) where
  unfoldable pub publish : String → Object → Bool → List (Message C.Text)
  publish topic payload retain =
      let m : Message C.Text = record {
        topic = topic;
        payload = C.dumps (object payload);
        qos = 1;
        retain = retain;
      } in
      if takes m then m ∷ [] else []

  unfoldable pub publish_retained : String → Object → List (Message C.Text)
  unfolding publish
  publish_retained topic payload = publish topic payload true
