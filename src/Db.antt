-- ===== src/Db.antt =====
-- app/db.py: the tables, the connections to them, and the schema's first rows. `T` is the type of
-- the JSON documents that some TEXT columns hold.
pub mod Threads
pub mod Connection
pub mod Invariant
pub mod Readable
use embediq_cloud.Prelude.{ℕ, String, Option, some, List, [], ◌∷◌, ◌++◌, if◌then◌else◌, is_some}
use embediq_cloud.Prelude.Table.{find}

pub record Device (T : Type 0) : Type 0 where
  pub id : String
  pub cert_cn : Option String
  pub password_hash : Option String
  pub group_id : String
  pub attributes : T
  pub created_at : ℕ

pub record DeviceState : Type 0 where
  pub device_id : String
  pub online : ℕ
  pub last_seen : Option ℕ
  pub ip_address : Option String
  pub firmware_version : Option String

pub record DeviceShadow (T : Type 0) : Type 0 where
  pub device_id : String
  pub desired : T
  pub reported : T
  pub updated_at : ℕ

pub record Group : Type 0 where
  pub id : String
  pub description : Option String
  pub created_at : ℕ

pub record CertRotation : Type 0 where
  pub id : ℕ
  pub requested_at : ℕ
  pub status : String
  pub note : Option String

-- `rotation_seq` is the largest AUTOINCREMENT id that `cert_rotations` has given out.
pub record Db (T : Type 0) : Type 0 where
  pub devices : List (Device T)
  pub device_state : List DeviceState
  pub device_shadow : List (DeviceShadow T)
  pub groups : List Group
  pub cert_rotations : List CertRotation
  pub rotation_seq : ℕ

-- the primary keys
abbrev pub device_key : {A : Type 0} → Device A → String
device_key d = d.id

abbrev pub state_key : DeviceState → String
state_key s = s.device_id

abbrev pub shadow_key : {A : Type 0} → DeviceShadow A → String
shadow_key s = s.device_id

abbrev pub group_key : Group → String
group_key g = g.id

module _ {T : Type 0} where
  abbrev pub find_device : String → Db T → Option (Device T)
  find_device k db = find device_key k db.devices

  abbrev pub find_state : String → Db T → Option DeviceState
  find_state k db = find state_key k db.device_state

  abbrev pub find_shadow : String → Db T → Option (DeviceShadow T)
  find_shadow k db = find shadow_key k db.device_shadow

  abbrev pub find_group : String → Db T → Option Group
  find_group k db = find group_key k db.groups

  -- the tables that `CREATE TABLE IF NOT EXISTS` makes in a new file
  abbrev pub new_file : Db T
  new_file = record {
    devices = [];
    device_state = [];
    device_shadow = [];
    groups = [];
    cert_rotations = [];
    rotation_seq = 0;
  }

  -- `init_db` at the time `now`
  unfoldable pub init_db : ℕ → Db T → Db T
  init_db now db = if is_some (find_group "default" db) then db else record db {
    groups =
        db.groups
        ++ record { id = "default"; description = some "Default group"; created_at = now } ∷ [];
  }
