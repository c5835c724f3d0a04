-- ===== src/Registry/Devices.antt =====
-- The device endpoints of app/registry.py.
pub mod Valid
pub mod Readable
pub mod Threads
pub mod Refines
pub mod Handled
pub mod Envelopes
pub mod Rows
pub mod Replies
pub mod Patch
use Prim.Native.Nat.{Ordering}
use Prim.Native.String.{compare}
use embediq_cloud.Prelude.{
  ℕ, String, ◌==◌, Bool, true, false, not, Option, none, some, List, [], ◌∷◌, map, nat_eq, is_some,
  if◌then◌else◌,
}
use embediq_cloud.Prelude.Int.{pos}
use embediq_cloud.Prelude.Table.{delete, order_by}
use embediq_cloud.Outcome.{
  Error, Outcome, returned, raised, http_exception, device_exists, value_error, or_raise,
}
use embediq_cloud.Json.{Value, null, bool, int, str, Object, object, list, Codec}
use embediq_cloud.Db.{
  Db, Device, DeviceState, DeviceShadow, device_key, state_key, shadow_key, find_device, find_state,
  find_shadow,
}
use embediq_cloud.Db.Connection.{
  Tx, pure, raise, lift, select, with_connection, ◌>>=◌, ◌>>◌, commit, raise_if, modify,
  insert_device, insert_state, update_device,
}
use embediq_cloud.Envelope.{ok}
use embediq_cloud.Password.{Bcrypt, hash_password}

pub record DeviceCreate : Type 0 where
  pub id : String
  pub cert_cn : Option String
  pub password : Option String
  pub group_id : String
  pub attributes : Object

-- `model_dump(exclude_unset=True)`: the outer `none` is a field that the request leaves out
pub record DevicePatch : Type 0 where
  pub attributes : Option (Option Object)
  pub group_id : Option (Option String)

abbrev pub opt_str : Option String → Value
opt_str none = null
opt_str (some s) = str s

abbrev pub opt_int : Option ℕ → Value
opt_int none = null
opt_int (some n) = int (pos n)

abbrev pub not_found : Error
not_found = http_exception 404 "device not found"

abbrev new_state : String → DeviceState
new_state k = record {
  device_id = k;
  online = 0;
  last_seen = none;
  ip_address = none;
  firmware_version = none;
}

module _ (C : Codec) (B : Bcrypt) where
  -- `hash_password(password) if password else None`
  unfoldable pub optional_hash : String → Option String → Outcome (Option String)
  unfolding hash_password
  optional_hash salt none = returned none
  optional_hash salt (some password) =
      if password == "" then returned none else elim (hash_password B salt password) [
        | returned h ↦ returned (some h)
        | raised e ↦ raised e
      ]

  abbrev new_device : ℕ → DeviceCreate → Option String → Device C.Text
  new_device now body password_hash = record {
    id = body.id;
    cert_cn = body.cert_cn;
    password_hash = password_hash;
    group_id = body.group_id;
    attributes = C.dumps (object body.attributes);
    created_at = now;
  }

  -- `create_device` of a request at the time `now`
  pub create_device : ℕ → String → DeviceCreate → Tx C.Text (Unit {0})
  create_device now salt body = do
    known ← select (λ db. is_some (find_device body.id db))
    raise_if known (device_exists body.id)
    password_hash ← lift (optional_hash salt body.password)
    insert_device (new_device now body password_hash)
    insert_state (new_state body.id)

  -- `except DeviceExists`
  abbrev conflict : {A : Type 0} → Outcome A → Outcome A
  conflict (raised (device_exists k)) = raised (http_exception 409 "device id already exists")
  conflict r = r

  abbrev catching : {A : Type 0} → Tx C.Text A → Tx C.Text A
  catching m c = let (r, c') = m c in (conflict r, c')

  pub post_device : ℕ → String → DeviceCreate → Db C.Text → Outcome Value × Db C.Text
  post_device now salt body = with_connection do
    catching (create_device now salt body >> commit)
    pure (ok (object (("id", str body.id) ∷ [])))

module _ (C : Codec) where
  -- `json.loads` of a column
  abbrev pub load : C.Text → Tx C.Text Value
  load t = lift (or_raise (C.loads t) value_error)

  pub set_group : String → Option (Option String) → Tx C.Text (Unit {0})
  set_group k (some (some g)) = update_device k (λ d. record d { group_id = g })
  set_group k _ = pure tt

  pub set_attributes : String → Option (Option Object) → Tx C.Text (Unit {0})
  set_attributes k (some (some a)) =
      update_device k (λ d. record d { attributes = C.dumps (object a) })
  set_attributes k _ = pure tt

  -- the body of the `try`
  patch_rows : String → DevicePatch → Tx C.Text Value
  patch_rows device_id body = do
    known ← select (λ db. is_some (find_device device_id db))
    raise_if (not known) not_found
    set_group device_id body.group_id
    set_attributes device_id body.attributes
    commit
    pure (ok (object (("id", str device_id) ∷ [])))

  pub patch_device : String → DevicePatch → Db C.Text → Outcome Value × Db C.Text
  patch_device device_id body = with_connection (patch_rows device_id body)

  -- ON DELETE CASCADE takes the rows of the two tables that refer to the device
  abbrev delete_row : String → Db C.Text → Db C.Text
  delete_row k db = record db {
    devices = delete device_key k db.devices;
    device_state = delete state_key k db.device_state;
    device_shadow = delete shadow_key k db.device_shadow;
  }

  -- `cur.rowcount` is whether the id was there
  pub delete_device : String → Db C.Text → Outcome Value × Db C.Text
  delete_device device_id = with_connection do
    deleted ← select (λ db. is_some (find_device device_id db))
    modify (delete_row device_id)
    commit
    raise_if (not deleted) not_found
    pure (ok (object (("id", str device_id) ∷ [])))

  abbrev pub online_of : Option DeviceState → Bool
  online_of none = false
  online_of (some s) = not (nat_eq s.online 0)

  abbrev pub state_body : Option DeviceState → Value
  state_body none = object (
      ("online", bool false)
      ∷ ("last_seen", null)
      ∷ ("ip_address", null)
      ∷ ("firmware_version", null)
      ∷ [])
  state_body (some s) = object (
      ("online", bool (online_of (some s)))
      ∷ ("last_seen", opt_int s.last_seen)
      ∷ ("ip_address", opt_str s.ip_address)
      ∷ ("firmware_version", opt_str s.firmware_version)
      ∷ [])

  shadow_body : Option (DeviceShadow C.Text) → Tx C.Text Value
  shadow_body none = pure (object (("desired", object []) ∷ ("reported", object []) ∷ []))
  shadow_body (some s) = do
    desired ← load s.desired
    reported ← load s.reported
    pure (object (("desired", desired) ∷ ("reported", reported) ∷ []))

  found_device : Option (Device C.Text) → Tx C.Text (Device C.Text)
  found_device none = raise not_found
  found_device (some d) = pure d

  pub get_device : String → Db C.Text → Outcome Value × Db C.Text
  get_device device_id = with_connection do
    row ← select (find_device device_id)
    dev ← found_device row
    state ← select (find_state device_id)
    shadow ← select (find_shadow device_id)
    attributes ← load dev.attributes
    shadow_value ← shadow_body shadow
    pure (
        ok (
          object (
            ("id", str dev.id)
            ∷ ("group_id", str dev.group_id)
            ∷ ("attributes", attributes)
            ∷ ("state", state_body state)
            ∷ ("shadow", shadow_value)
            ∷ [])))

  -- one row of the LEFT JOIN, whose state columns are NULL where there is no state
  abbrev pub joined_row : Device C.Text → Option DeviceState → Value
  joined_row d none = object (
      ("id", str d.id)
      ∷ ("online", bool false)
      ∷ ("last_seen", null)
      ∷ ("group_id", str d.group_id)
      ∷ ("firmware_version", null)
      ∷ [])
  joined_row d (some s) = object (
      ("id", str d.id)
      ∷ ("online", bool (online_of (some s)))
      ∷ ("last_seen", opt_int s.last_seen)
      ∷ ("group_id", str d.group_id)
      ∷ ("firmware_version", opt_str s.firmware_version)
      ∷ [])

  unfoldable pub list_devices : Db C.Text → Outcome Value × Db C.Text
  unfolding order_by
  list_devices = with_connection do
    rows ←
        select (λ db. map (λ d. joined_row d (find_state d.id db)) (order_by device_key db.devices))
    pure (ok (list rows))
