-- ===== src/Registry/Groups.antt =====
-- The group endpoints of app/registry.py.
pub mod Valid
pub mod Readable
pub mod Threads
pub mod Refines
pub mod Handled
pub mod Envelopes
pub mod Replies
use embediq_cloud.Prelude.{
  ℕ, String, ◌==◌, Bool, not, Option, [], ◌∷◌, map, count, is_some, if◌then◌else◌,
}
use embediq_cloud.Prelude.Int.{pos}
use embediq_cloud.Prelude.Table.{delete, order_by}
use embediq_cloud.Outcome.{Outcome, raised, http_exception}
use embediq_cloud.Json.{Value, int, str, object, list}
use embediq_cloud.Db.{Db, Device, Group, group_key, find_group}
use embediq_cloud.Db.Connection.{
  Tx, pure, select, with_connection, ◌>>=◌, ◌>>◌, commit, raise_if, modify, insert_group,
}
use embediq_cloud.Envelope.{ok}
use embediq_cloud.Registry.Devices.{opt_str}

pub record GroupCreate : Type 0 where
  pub id : String
  pub description : Option String

module _ {T : Type 0} where
  -- COUNT(d.id) of the group's rows in the LEFT JOIN
  abbrev pub device_count : String → Db T → ℕ
  device_count g db = count (λ d. d.group_id == g) db.devices

  unfoldable pub list_groups : Db T → Outcome Value × Db T
  unfolding order_by
  list_groups = with_connection do
    rows ← select (λ db.
        map
          (λ g. object (
            ("id", str g.id)
            ∷ ("description", opt_str g.description)
            ∷ ("device_count", int (pos (device_count g.id db)))
            ∷ []))
          (order_by group_key db.groups))
    pure (ok (list rows))

  pub post_group : ℕ → GroupCreate → Db T → Outcome Value × Db T
  post_group now body = with_connection do
    known ← select (λ db. is_some (find_group body.id db))
    raise_if known (http_exception 409 "group id already exists")
    insert_group (record { id = body.id; description = body.description; created_at = now })
    commit
    pure (ok (object (("id", str body.id) ∷ [])))

  -- UPDATE devices SET group_id = 'default' WHERE group_id = g
  abbrev move_device : String → Device T → Device T
  move_device g d = if d.group_id == g then record d { group_id = "default" } else d

  abbrev drop_group : String → Db T → Db T
  drop_group g db = record db {
    devices = map (move_device g) db.devices;
    groups = delete group_key g db.groups;
  }

  delete_rows : String → Tx T Value
  delete_rows group_id = do
    known ← select (λ db. is_some (find_group group_id db))
    raise_if (not known) (http_exception 404 "group not found")
    modify (drop_group group_id)
    commit
    pure (ok (object (("id", str group_id) ∷ [])))

  pub delete_group : String → Db T → Outcome Value × Db T
  delete_group group_id db =
      if group_id == "default"
      then (raised (http_exception 400 "the default group cannot be deleted"), db)
      else with_connection (delete_rows group_id) db
