-- ===== src/Registry/Devices/Replies.antt =====
-- What a client sees of the device endpoints.
use embediq_cloud.Prelude.{
  ℕ, ◌≡◌, ◌≢◌, refl, String, ◌==◌, eq_iff, eq_refl, true, false, arith, is_some, Option-cases, inl,
  inr, Option, some, none, [], ◌∷◌, if◌then◌else◌,
}
use embediq_cloud.Prelude.Table.{find-append, find-delete}
use embediq_cloud.Outcome.{
  Outcome, value_error, returned, raised, is_returned, Outcome-cases, http_exception,
}
use embediq_cloud.Json.{Value, object, null, bool, str, Codec}
use embediq_cloud.Db.{
  Db, Device, DeviceState, DeviceShadow, device_key, state_key, shadow_key, find_device, find_state,
  find_shadow,
}
use embediq_cloud.Db.Connection.{Conn, ◌>>=◌}
use embediq_cloud.Db.Invariant.{IsValid}
use embediq_cloud.Envelope.{ok}
use embediq_cloud.Password.{Bcrypt, hash_password}
use embediq_cloud.Registry.Devices.{
  DeviceCreate, new_device, new_state, optional_hash, create_device, post_device, delete_device,
  get_device, shadow_body, found_device, state_body, not_found,
}

module _ (C : Codec) where
  -- both documents of a shadow row, or the ValueError of the first one that cannot be read
  abbrev pub shadow_page : Option (DeviceShadow C.Text) → Outcome Value
  shadow_page none = returned (object (("desired", object []) ∷ ("reported", object []) ∷ []))
  shadow_page (some s) = elim (C.loads s.desired) [
    | none ↦ raised value_error
    | some d ↦ elim (C.loads s.reported) [
      | none ↦ raised value_error
      | some r ↦ returned (object (("desired", d) ∷ ("reported", r) ∷ []))
    ]
  ]

  -- the page of a device, from its rows in the three tables
  abbrev pub page :
      Option (Device C.Text) → Option DeviceState → Option (DeviceShadow C.Text) → Outcome Value
  page none s w = raised not_found
  page (some d) s w = elim (C.loads d.attributes) [
    | none ↦ raised value_error
    | some a ↦ elim (shadow_page w) [
      | raised e ↦ raised e
      | returned v ↦ returned (
          ok (
            object (
              ("id", str d.id)
              ∷ ("group_id", str d.group_id)
              ∷ ("attributes", a)
              ∷ ("state", state_body C s)
              ∷ ("shadow", v)
              ∷ [])))
    ]
  ]

  shadow_body-eq-page :
      (w : Option (DeviceShadow C.Text)) (c : Conn C.Text) → shadow_body C w c ≡ (shadow_page w, c)
  unfolding shadow_body ◌>>=◌
  shadow_body-eq-page none c = refl
  shadow_body-eq-page (some s) c = ground arith

  pub get_device-eq-page :
      (k : String) (db : Db C.Text)
      → get_device C k db ≡ (page (find_device k db) (find_state k db) (find_shadow k db), db)
  unfolding get_device found_device ◌>>=◌
  get_device-eq-page k db = elim (Option-cases (find_device k db)) [
    | inl e ↦ ground arith
    | inr (d, e) ↦
        ground
          (arith, shadow_body-eq-page (find_shadow k db) (record { committed = db; work = db }))
  ]

-- the page of a device that has never connected
abbrev pub fresh_page : DeviceCreate → Value
fresh_page body = ok (
    object (
      ("id", str body.id)
      ∷ ("group_id", str body.group_id)
      ∷ ("attributes", object body.attributes)
      ∷ (
        "state",
        object (
            ("online", bool false)
            ∷ ("last_seen", null)
            ∷ ("ip_address", null)
            ∷ ("firmware_version", null)
            ∷ []),
      )
      ∷ ("shadow", object (("desired", object []) ∷ ("reported", object []) ∷ []))
      ∷ []))

module _ (C : Codec) (B : Bcrypt) (now : ℕ) (salt : String) (body : DeviceCreate) where
  -- POST of an id that is registered is answered by 409 and writes nothing.
  pub post_device_conflict :
      (db : Db C.Text)
      → is_some (find_device body.id db) ≡ true
      → post_device C B now salt body db
        ≡ (raised (http_exception 409 "device id already exists"), db)
  unfolding post_device create_device ◌>>=◌
  post_device_conflict db known = ground arith

  optional_hash-is_returned :
      (password hash : String)
      → body.password ≡ some password
      → B.hashpw password salt ≡ some hash
      → is_returned (optional_hash C B salt body.password) ≡ true
  unfolding optional_hash hash_password
  optional_hash-is_returned password hash given e =
      rw (given) (ground (arith, e, eq_iff password ""))

  -- POST of an id that is not registered, with a password that bcrypt takes, succeeds on a valid
  -- database.
  pub post_device_accepted :
      (db : Db C.Text) (password hash : String)
      → IsValid db
      → is_some (find_device body.id db) ≡ false
      → body.password ≡ some password
      → B.hashpw password salt ≡ some hash
      → (post_device C B now salt body db).0 ≡ returned (ok (object (("id", str body.id) ∷ [])))
  unfolding post_device create_device ◌>>=◌
  post_device_accepted db password hash h unknown given e =
      let hashed = optional_hash-is_returned password hash given e in
      elim (Outcome-cases (optional_hash C B salt body.password)) [
        | inl (p, n) ↦ ground (
          arith,
          h.states body.id,
          find-append device_key body.id db.devices (new_device C B now body p),
          eq_refl body.id,
        )
        | inr (x, n) ↦ cc (rw n at hashed)
      ]

  -- After a POST that succeeds on a valid database, GET of the new id shows the group and the
  -- attributes of the request, a device that is offline, and an empty shadow.
  pub get_device-post_device :
      (db : Db C.Text) (reply : Value)
      → IsValid db
      → (post_device C B now salt body db).0 ≡ returned reply
      → (get_device C body.id (post_device C B now salt body db).1).0 ≡ returned (fresh_page body)
  unfolding post_device create_device ◌>>=◌
  get_device-post_device db reply h done =
      elim (Outcome-cases (optional_hash C B salt body.password)) [
        | inl (p, e) ↦ ground (
          arith,
          get_device-eq-page C body.id (post_device C B now salt body db).1,
          h.states body.id,
          h.shadows body.id,
          find-append device_key body.id db.devices (new_device C B now body p),
          find-append state_key body.id db.device_state (new_state body.id),
          eq_refl body.id,
          C.loads-dumps (object body.attributes),
        )
        | inr (x, e) ↦ ground arith
      ]

  -- A POST, whatever its answer, changes the page of no other device.
  pub post_device_others :
      (db : Db C.Text) (j : String)
      → body.id ≢ j
      → (get_device C j (post_device C B now salt body db).1).0 ≡ (get_device C j db).0
  unfolding post_device create_device ◌>>=◌
  post_device_others db j ne = elim (Outcome-cases (optional_hash C B salt body.password)) [
    | inl (p, e) ↦ ground (
      arith,
      get_device-eq-page C j (post_device C B now salt body db).1,
      get_device-eq-page C j db,
      find-append device_key j db.devices (new_device C B now body p),
      find-append state_key j db.device_state (new_state body.id),
      eq_iff body.id j,
    )
    | inr (x, e) ↦ ground arith
  ]

module _ (C : Codec) where
  -- After DELETE of an id, GET answers 404 for it, and for any other id as before.
  pub get_device-delete_device :
      (k j : String) (db : Db C.Text)
      → (get_device C j (delete_device C k db).1).0
        ≡ (if k == j then raised not_found else (get_device C j db).0)
  unfolding delete_device ◌>>=◌
  get_device-delete_device k j db = ground (
    arith,
    get_device-eq-page C j (delete_device C k db).1,
    get_device-eq-page C j db,
    find-delete device_key k j db.devices,
    find-delete state_key k j db.device_state,
    find-delete shadow_key k j db.device_shadow,
  )
