-- ===== src/Tests.antt =====
-- The values that the tests run on: a small file with one device, and stand-ins for the libraries.
pub mod Tokens
pub mod Runs
pub mod Guards
pub mod Links
pub mod Devices
pub mod Shadows
pub mod Messages
pub mod Login
pub mod Firmware
pub mod Threads
pub mod Paths
pub mod Environment
pub mod Checks
use text.Mathlib.TextLemmas.{append-ne-nil_of_right_ne-nil, cons-ne-nil}
use embediq_cloud.Prelude.{
  ℕ, ◌≡◌, ◌≢◌, refl, String, ◌==◌, ◌+++◌, eq_refl, Bool, true, false, Option, none, some, List, [],
  ◌∷◌, arith, is_some,
}
use embediq_cloud.Prelude.Int.{pos}
use embediq_cloud.Json.{Value, str, int, Object, object, Codec}
use embediq_cloud.Db.{Db, Device, DeviceState, DeviceShadow, Group}
use embediq_cloud.Db.Invariant.{IsValid}
use embediq_cloud.Password.{Bcrypt}
use embediq_cloud.Mqtt.{Message}
use embediq_cloud.Hawkbit.{Server, Reply, response}
use embediq_cloud.Bridge.{Ready, World}
use embediq_cloud.Registry.Devices.{DeviceCreate}
use embediq_cloud.Auth.DeviceAuth.{BridgeCredential}

abbrev pub text_of : Value → String
text_of (str s) = s
text_of _ = ""

-- a document is the value itself, or malformed
abbrev pub codec : Codec
codec = record {
  Text = Option Value;
  dumps = λ v. some v;
  loads = λ t. t;
  loads-dumps = λ v. refl;
  py_str = text_of;
  py_str-str = λ s. refl;
  column_text = text_of;
}

-- a stand-in for a hash
abbrev pub hashed : String → String
hashed password = password +++ "$"

pub checked_lem :
    (password hash : String)
    → some (hashed password) ≡ some hash
    → some (hash == hashed password) ≡ some true
checked_lem password hash e = ground (arith, eq_refl (hashed password))

pub hashed-ne-nil : (password hash : String) → some (hashed password) ≡ some hash → hash ≢ ""
hashed-ne-nil password hash e n =
    append-ne-nil_of_right_ne-nil password (cons-ne-nil "$" "") (ground (arith, e, n))

abbrev pub bcrypt : Bcrypt
bcrypt = record {
  hashpw = λ password salt. some (hashed password);
  checkpw = λ password hash. some (hash == hashed password);
  checkpw-hashpw = λ password salt hash e. checked_lem password hash e;
  hashpw-ne-nil = λ password salt hash e. hashed-ne-nil password hash e;
}

-- a Hawkbit that answers every request by the module 7
abbrev pub hawkbit : Server
hawkbit r log = response 200 (some (object (("id", int (pos 7)) ∷ [])))

abbrev pub takes_all : Message (Option Value) → Bool
takes_all m = true

abbrev pub both_ready : Ready
both_ready = record { influx = true; loki = true }

abbrev pub lamp : Device (Option Value)
lamp = record {
  id = "lamp";
  cert_cn = some "lamp.local";
  password_hash = some "secret$";
  group_id = "hall";
  attributes = some (object []);
  created_at = 1;
}

abbrev pub lamp_state : DeviceState
lamp_state = record {
  device_id = "lamp";
  online = 0;
  last_seen = none;
  ip_address = some "10.0.0.7";
  firmware_version = none;
}

abbrev pub lamp_shadow : DeviceShadow (Option Value)
lamp_shadow = record {
  device_id = "lamp";
  desired = some (object (("level", int (pos 3)) ∷ []));
  reported = some (object []);
  updated_at = 2;
}

abbrev pub home : Db (Option Value)
home = record {
  devices = lamp ∷ [];
  device_state = lamp_state ∷ [];
  device_shadow = lamp_shadow ∷ [];
  groups =
      record { id = "default"; description = none; created_at = 0 }
      ∷ record { id = "hall"; description = none; created_at = 0 }
      ∷ [];
  cert_rotations = [];
  rotation_seq = 0;
}

pub home-IsValid : IsValid home
home-IsValid = record {
  device_ids = (refl, tt);
  state_ids = (refl, tt);
  shadow_ids = (refl, tt);
  group_ids = ground arith;
  states = λ k. ground arith;
  shadows = λ k e. ground arith;
  default_group = refl;
  rotation_ids = omega arith;
}

abbrev pub home_world : World (Option Value)
home_world = record { db = home; requests = []; writes = [] }

abbrev pub door : DeviceCreate
door = record {
  id = "door";
  cert_cn = none;
  password = some "knock";
  group_id = "default";
  attributes = [];
}

abbrev pub no_bridge : BridgeCredential
no_bridge = record { user = none; pass = none }
