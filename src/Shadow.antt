-- ===== src/Shadow.antt =====
-- app/shadow.py: the desired and the reported state of a device.
pub mod Delta
pub mod Valid
pub mod Readable
pub mod Threads
pub mod Refines
pub mod Handled
pub mod Envelopes
pub mod Replies
use Prim.Native.String
use embediq_cloud.Prelude.{ℕ, String, Bool, not, Option, none, some, List, [], ◌∷◌, filter, is_some}
use embediq_cloud.Outcome.{Error, Outcome, returned, raised, http_exception, attribute_error}
use embediq_cloud.Json.{Value, obj, fields, Object, object, get, update, py_eq, Codec}
use embediq_cloud.Db.{Db, DeviceShadow, find_device, find_shadow}
use embediq_cloud.Db.Connection.{
  Tx, pure, raise, select, with_connection, ◌>>=◌, ◌>>◌, commit, raise_if, upsert_shadow,
}
use embediq_cloud.Envelope.{ok}
use embediq_cloud.Mqtt.{Message, publish_retained}
use embediq_cloud.Registry.Devices.{not_found, load}

-- `reported.get(key) != value`
abbrev differs : Object → String × Value → Bool
differs reported (key, value) = not (py_eq (get key reported) value)

unfoldable pub compute_delta : Object → Object → Object
compute_delta desired reported = filter (differs reported) desired

-- f"embediq/{device_id}/state/desired"
abbrev pub desired_topic : String → String
desired_topic device_id = String.◌++◌ "embediq/" (String.◌++◌ device_id "/state/desired")

module _ (C : Codec) where
  -- A value that has the methods of a dict. The documents of `device_shadow` are dicts by the
  -- invariant.
  abbrev pub as_dict : Value → Tx C.Text Object
  as_dict (obj fs) = pure (fields fs)
  as_dict _ = raise attribute_error

  load_row : Option (DeviceShadow C.Text) → Tx C.Text (Value × Value)
  load_row none = pure (object [], object [])
  load_row (some row) = do
    desired ← load C row.desired
    reported ← load C row.reported
    pure (desired, reported)

  load_shadow : String → Tx C.Text (Value × Value)
  load_shadow device_id = do row ← select (find_shadow device_id); load_row row

  get_rows : String → Tx C.Text (Object × Object)
  get_rows device_id = do
    known ← select (λ db. is_some (find_device device_id db))
    raise_if (not known) not_found
    both ← load_shadow device_id
    desired ← as_dict both.0
    reported ← as_dict both.1
    pure (desired, reported)

  abbrev shadow_reply : Outcome (Object × Object) → Outcome Value
  shadow_reply (returned (desired, reported)) = returned (
      ok (
        object (
          ("desired", object desired)
          ∷ ("reported", object reported)
          ∷ ("delta", object (compute_delta desired reported))
          ∷ [])))
  shadow_reply (raised e) = raised e

  pub get_shadow : String → Db C.Text → Outcome Value × Db C.Text
  get_shadow device_id db =
      let (r, db') = with_connection (get_rows device_id) db in (shadow_reply r, db')

  abbrev new_shadow : String → C.Text → C.Text → ℕ → DeviceShadow C.Text
  new_shadow device_id desired reported now = record {
    device_id = device_id;
    desired = desired;
    reported = reported;
    updated_at = now;
  }

  -- DEFAULT '{}'
  abbrev pub empty_document : C.Text
  empty_document = C.dumps (object [])

  -- the transaction of `patch_desired`, which gives the merged document
  patch_rows : ℕ → String → Object → Tx C.Text Object
  patch_rows now device_id delta = do
    known ← select (λ db. is_some (find_device device_id db))
    raise_if (not known) not_found
    both ← load_shadow device_id
    desired ← as_dict both.0
    let merged = update desired delta
    upsert_shadow (new_shadow device_id (C.dumps (object merged)) empty_document now)
        (λ row. record row { desired = C.dumps (object merged); updated_at = now })
    commit
    pure merged

module _ (C : Codec) (takes : Message C.Text → Bool) where
  -- the publish after the transaction, and the answer
  abbrev patched_reply : String → Outcome Object → Outcome Value × List (Message C.Text)
  patched_reply device_id (returned desired) = (
    returned (ok (object (("desired", object desired) ∷ []))),
    publish_retained C takes (desired_topic device_id) desired,
  )
  patched_reply device_id (raised e) = (raised e, [])

  pub patch_desired :
      ℕ → String → Object → Db C.Text → Outcome Value × Db C.Text × List (Message C.Text)
  patch_desired now device_id delta db =
      let (r, db') = with_connection (patch_rows C now device_id delta) db in
      let (reply, sent) = patched_reply device_id r in (reply, db', sent)
