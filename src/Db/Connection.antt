-- ===== src/Db/Connection.antt =====
-- A connection of Python's `sqlite3`: the statements work on a copy, `commit` keeps it, and `close`
-- drops what was not committed. A statement may raise.
pub mod Keeps
pub mod Answers
use embediq_cloud.Prelude.{
  ℕ, ◌+◌, String, Bool, Option, none, some, [], ◌∷◌, ◌++◌, if◌then◌else◌, is_some,
}
use embediq_cloud.Prelude.Int.{pos, fits_int64}
use embediq_cloud.Prelude.Table.{update}
use embediq_cloud.Outcome.{
  Error, Outcome, returned, raised, integrity_error, programming_error, overflow_error,
}
use embediq_cloud.Json.{Value, null, bool, int, float, str}
use embediq_cloud.Db.{
  CertRotation, Db, Device, DeviceState, DeviceShadow, Group, device_key, state_key, shadow_key,
  find_device, find_state, find_shadow, find_group,
}

pub record Conn (T : Type 0) : Type 0 where
  pub committed : Db T
  pub work : Db T

abbrev pub Tx : Type 0 → Type 0 → Type 0
Tx T A = Conn T → Outcome A × Conn T

module _ {T A : Type 0} where
  unfoldable pub pure : A → Tx T A
  pure a c = (returned a, c)

  unfoldable pub raise : Error → Tx T A
  raise e c = (raised e, c)

  unfoldable pub lift : Outcome A → Tx T A
  lift r c = (r, c)

  -- a SELECT
  unfoldable pub select : (Db T → A) → Tx T A
  select f c = (returned (f c.work), c)

  -- `try: body  finally: conn.close()` on a new connection
  unfoldable pub with_connection : Tx T A → Db T → Outcome A × Db T
  with_connection body db =
      let (r, c) = body (record { committed = db; work = db }) in (r, c.committed)

module _ {T : Type 0} where
  unfoldable pub commit : Tx T (Unit {0})
  commit c = (returned tt, record c { committed = c.work })

  unfoldable pub raise_if : Bool → Error → Tx T (Unit {0})
  raise_if b e c = (if b then raised e else returned tt, c)

  -- a write that no constraint can stop
  unfoldable pub modify : (Db T → Db T) → Tx T (Unit {0})
  modify f c = (returned tt, record c { work = f c.work })

  -- PRIMARY KEY
  unfoldable pub insert_device : Device T → Tx T (Unit {0})
  insert_device d c = if is_some (find_device d.id c.work) then (raised integrity_error, c) else (
    returned tt,
    record c { work = record (c.work) { devices = (c.work).devices ++ d ∷ [] } },
  )

  -- device_id REFERENCES devices(id), under PRAGMA foreign_keys=ON
  unfoldable pub insert_state : DeviceState → Tx T (Unit {0})
  insert_state s c =
      if is_some (find_state s.device_id c.work)
      then (raised integrity_error, c)
      else if is_some (find_device s.device_id c.work)
      then (
        returned tt,
        record c { work = record (c.work) { device_state = (c.work).device_state ++ s ∷ [] } },
      )
      else (raised integrity_error, c)

  unfoldable pub insert_shadow : DeviceShadow T → Tx T (Unit {0})
  insert_shadow s c =
      if is_some (find_shadow s.device_id c.work)
      then (raised integrity_error, c)
      else if is_some (find_device s.device_id c.work)
      then (
        returned tt,
        record c { work = record (c.work) { device_shadow = (c.work).device_shadow ++ s ∷ [] } },
      )
      else (raised integrity_error, c)

  unfoldable pub insert_group : Group → Tx T (Unit {0})
  insert_group g c =
      if is_some (find_group g.id c.work)
      then (raised integrity_error, c)
      else (returned tt, record c { work = record (c.work) { groups = (c.work).groups ++ g ∷ [] } })

  -- INTEGER PRIMARY KEY AUTOINCREMENT; the result is `cur.lastrowid`
  unfoldable pub insert_rotation : ℕ → String → Option String → Tx T ℕ
  insert_rotation requested_at status note c =
      let id = (c.work).rotation_seq + 1 in
      let row : CertRotation = record {
        id = id;
        requested_at = requested_at;
        status = status;
        note = note;
      } in
      (
        returned id,
        record c {
          work = record (c.work) {
            cert_rotations = (c.work).cert_rotations ++ row ∷ [];
            rotation_seq = id;
          };
        },
      )

  -- UPDATE ... WHERE the primary key is `k`
  unfoldable pub update_device : String → (Device T → Device T) → Tx T (Unit {0})
  unfolding modify
  update_device k f = modify (λ db. record db { devices = update device_key k f db.devices })

  unfoldable pub update_state : String → (DeviceState → DeviceState) → Tx T (Unit {0})
  unfolding modify
  update_state k f =
      modify (λ db. record db { device_state = update state_key k f db.device_state })

  unfoldable pub update_shadow : String → (DeviceShadow T → DeviceShadow T) → Tx T (Unit {0})
  unfolding modify
  update_shadow k f =
      modify (λ db. record db { device_shadow = update shadow_key k f db.device_shadow })

  -- INSERT ... ON CONFLICT(device_id) DO UPDATE SET ...
  unfoldable pub upsert_state : DeviceState → (DeviceState → DeviceState) → Tx T (Unit {0})
  unfolding update_state insert_state
  upsert_state s f c =
      if is_some (find_state s.device_id c.work)
      then update_state s.device_id f c
      else insert_state s c

  unfoldable pub upsert_shadow :
      DeviceShadow T → (DeviceShadow T → DeviceShadow T) → Tx T (Unit {0})
  unfolding update_shadow insert_shadow
  upsert_shadow s f c =
      if is_some (find_shadow s.device_id c.work)
      then update_shadow s.device_id f c
      else insert_shadow s c

-- Opening this opens every statement above.
module _ {T A B : Type 0} where
  infixl 10 ◌>>=◌
  unfoldable pub ◌>>=◌ : Tx T A → (A → Tx T B) → Tx T B
  unfolding pure raise lift select with_connection commit raise_if insert_device insert_group
      insert_rotation upsert_state upsert_shadow update_device
  ◌>>=◌ m f c = let (r, c') = m c in elim r [ returned a ↦ f a c' | raised e ↦ raise e c' ]

module _ {T B : Type 0} where
  infixl 10 ◌>>◌
  abbrev pub ◌>>◌ : Tx T (Unit {0}) → Tx T B → Tx T B
  m >> k = m >>= λ _. k

-- A JSON value as the parameter of a TEXT column, where `column_text` is the conversion of numbers.
unfoldable pub bind_text : (Value → String) → Value → Outcome (Option String)
bind_text column_text null = returned none
bind_text column_text (str s) = returned (some s)
bind_text column_text (int n) =
    if fits_int64 n then returned (some (column_text (int n))) else raised overflow_error
bind_text column_text (bool b) = returned (some (column_text (int (pos (if b then 1 else 0)))))
bind_text column_text (float m k) = returned (some (column_text (float m k)))
bind_text column_text _ = raised programming_error
