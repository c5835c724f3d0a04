-- ===== src/Fleet/Refinement.antt =====
-- The endpoints implement the specification of the fleet, in any sequence.
use mathlib.Core.Path.{fun_ext}
use embediq_cloud.Prelude.{
  ◌⊎◌, is_some, ℕ, ◌≡◌, refl, String, Bool, true, false, List, [], ◌∷◌, if◌then◌else◌, ap, ◌∙◌,
}
use embediq_cloud.Outcome.{is_returned}
use embediq_cloud.Json.{Object, Codec}
use embediq_cloud.Db.{Db}
use embediq_cloud.Db.Invariant.{IsValid}
use embediq_cloud.Db.Readable.{IsReadable}
use embediq_cloud.Password.{Bcrypt}
use embediq_cloud.Mqtt.{Message}
use embediq_cloud.Registry.Devices.{
  DeviceCreate, DevicePatch, post_device, patch_device, delete_device,
}
use embediq_cloud.Registry.Devices.Valid.{
  post_device-IsValid, patch_device-IsValid, delete_device-keeps-IsValid,
}
use embediq_cloud.Registry.Devices.Readable.{
  post_device-IsReadable, patch_device-IsReadable, delete_device-IsReadable,
}
use embediq_cloud.Registry.Devices.Refines.{
  new_card, patched_by, post_device-refines, patch_device-refines, delete_device-refines,
  post_device-accepts, patch_device-accepts, delete_device-accepts,
}
use embediq_cloud.Registry.Groups.{delete_group}
use embediq_cloud.Registry.Groups.Valid.{delete_group-IsValid}
use embediq_cloud.Registry.Groups.Readable.{delete_group-IsReadable}
use embediq_cloud.Registry.Groups.Refines.{delete_group-refines}
use embediq_cloud.Shadow.{patch_desired}
use embediq_cloud.Shadow.Valid.{patch_desired-IsValid}
use embediq_cloud.Shadow.Readable.{patch_desired-IsReadable}
use embediq_cloud.Shadow.Refines.{patch_desired-refines, patch_desired-accepts}
use embediq_cloud.Bridge.{World, handle_reported}
use embediq_cloud.Bridge.Refines.{
  handle_reported-IsValid, handle_reported-IsReadable, handle_reported-refines,
}
use embediq_cloud.Fleet.{
  Fleet, fleet, enrolled, removed, changed, changed_all, ungrouped, desired, reported,
}

-- a request or a report that writes to devices, with the clock and the salt that it meets
pub data Operation : Type 0 where
  post : (now : ℕ) (salt : String) → DeviceCreate → Operation
  patch : String → DevicePatch → Operation
  delete : String → Operation
  ungroup : String → Operation
  desire : (now : ℕ) → String → Object → Operation
  -- a message of the device
  report : (now : ℕ) → String → Object → Operation

-- what an operation that succeeds does
abbrev pub specified : Operation → Fleet → Fleet
specified (post now salt body) = enrolled body.id (new_card body)
specified (patch k body) = changed k (patched_by body)
specified (delete k) = removed k
specified (ungroup g) = changed_all (ungrouped g)
specified (desire now k delta) = changed k (desired delta)
specified (report now k payload) = changed k (reported payload)

abbrev pub specified_all : List Operation → Fleet → Fleet
specified_all [] f = f
specified_all (o ∷ os) f = specified_all os (specified o f)

-- Whether the fleet lets an operation end so: a POST that succeeds is of a free id, and the PATCHes
-- and the DELETE succeed exactly on a device that is there.
abbrev pub IsAllowed : Operation → Fleet → Bool → Type 0
IsAllowed (post now salt body) f done = (done ≡ false) ⊎ (is_some (f body.id) ≡ false)
IsAllowed (patch k body) f done = done ≡ is_some (f k)
IsAllowed (delete k) f done = done ≡ is_some (f k)
IsAllowed (ungroup g) f done = Unit
IsAllowed (desire now k delta) f done = done ≡ is_some (f k)
IsAllowed (report now k payload) f done = Unit

chosen :
    (done : Bool) (o : Operation) (rest : List Operation) (f : Fleet)
    → specified_all rest (λ j. if done then specified o f j else f j)
      ≡ specified_all (if done then o ∷ rest else rest) f
chosen true o rest f = refl
chosen false o rest f = refl

module _ (C : Codec) (B : Bcrypt) (takes : Message C.Text → Bool) where
  -- the bridge's world, of which a report changes the file only
  abbrev alone : Db C.Text → World C.Text
  alone db = record { db = db; requests = []; writes = [] }

  -- whether the operation succeeds, and the file after it
  abbrev pub perform : Operation → Db C.Text → Bool × Db C.Text
  perform (post now salt body) db =
      let (r, db') = post_device C B now salt body db in (is_returned r, db')
  perform (patch k body) db = let (r, db') = patch_device C k body db in (is_returned r, db')
  perform (delete k) db = let (r, db') = delete_device C k db in (is_returned r, db')
  perform (ungroup g) db = let (r, db') = delete_group g db in (is_returned r, db')
  perform (desire now k delta) db =
      let (r, db', sent) = patch_desired C takes now k delta db in (is_returned r, db')
  perform (report now k payload) db =
      let (r, w) = handle_reported C now k payload (alone db) in (true, w.db)

  -- the operations that succeed, and the file after all of them
  abbrev pub perform_all : List Operation → Db C.Text → List Operation × Db C.Text
  perform_all [] db = ([], db)
  perform_all (o ∷ os) db =
      let (done, db') = perform o db in
      let (rest, db'') = perform_all os db' in (if done then o ∷ rest else rest, db'')

  perform-refines :
      (o : Operation) (db : Db C.Text) (j : String)
      → IsValid db
      → IsReadable C db
      → let (done, db') = perform o db in
        fleet C db' j ≡ (if done then specified o (fleet C db) j else fleet C db j)
  perform-refines (post now salt body) db j h r = post_device-refines C db j B now salt body h
  perform-refines (patch k body) db j h r = patch_device-refines C db j k body
  perform-refines (delete k) db j h r = delete_device-refines C db j k
  perform-refines (ungroup g) db j h r = delete_group-refines C db j g
  perform-refines (desire now k delta) db j h r = patch_desired-refines C takes now k delta db j r
  perform-refines (report now k payload) db j h r =
      handle_reported-refines C now k payload (alone db) j r

  perform-IsValid : (o : Operation) (db : Db C.Text) → IsValid db → IsValid (perform o db).1
  perform-IsValid (post now salt body) db h = post_device-IsValid C B now salt body db h
  perform-IsValid (patch k body) db h = patch_device-IsValid C k body db h
  perform-IsValid (delete k) db h = delete_device-keeps-IsValid C k db h
  perform-IsValid (ungroup g) db h = delete_group-IsValid g db h
  perform-IsValid (desire now k delta) db h = patch_desired-IsValid C takes now k delta db h
  perform-IsValid (report now k payload) db h = handle_reported-IsValid C now k payload (alone db) h

  perform-IsReadable :
      (o : Operation) (db : Db C.Text) → IsReadable C db → IsReadable C (perform o db).1
  perform-IsReadable (post now salt body) db r = post_device-IsReadable C B now salt body db r
  perform-IsReadable (patch k body) db r = patch_device-IsReadable C k body db r
  perform-IsReadable (delete k) db r = delete_device-IsReadable C k db r
  perform-IsReadable (ungroup g) db r = delete_group-IsReadable C g db r
  perform-IsReadable (desire now k delta) db r = patch_desired-IsReadable C takes now k delta db r
  perform-IsReadable (report now k payload) db r =
      handle_reported-IsReadable C now k payload (alone db) r

  -- every operation ends as the fleet before it allows
  abbrev pub AreAllowed : List Operation → Db C.Text → Type 0
  AreAllowed [] db = Unit
  AreAllowed (o ∷ os) db =
      let (done, db') = perform o db in IsAllowed o (fleet C db) done × AreAllowed os db'

  perform-IsAllowed :
      (o : Operation) (db : Db C.Text) → IsReadable C db → IsAllowed o (fleet C db) (perform o db).0
  perform-IsAllowed (post now salt body) db r = post_device-accepts C db B now salt body
  perform-IsAllowed (patch k body) db r = patch_device-accepts C db k body
  perform-IsAllowed (delete k) db r = delete_device-accepts C db k
  perform-IsAllowed (ungroup g) db r = tt
  perform-IsAllowed (desire now k delta) db r = patch_desired-accepts C takes now k delta db r
  perform-IsAllowed (report now k payload) db r = tt

  perform_all-AreAllowed :
      (os : List Operation) (db : Db C.Text) → IsReadable C db → AreAllowed os db
  perform_all-AreAllowed [] db r = tt
  perform_all-AreAllowed (o ∷ os) db r = (
    perform-IsAllowed o db r,
    perform_all-AreAllowed os (perform o db).1 (perform-IsReadable o db r),
  )

  fleet-implements :
      (os : List Operation) (db : Db C.Text)
      → IsValid db
      → IsReadable C db
      → let (done, db') = perform_all os db in fleet C db' ≡ specified_all done (fleet C db)
  fleet-implements [] db h r = refl
  fleet-implements (o ∷ os) db h r =
      let (done, db') = perform o db in
      let (rest, db'') = perform_all os db' in
      fleet-implements os db' (perform-IsValid o db h) (perform-IsReadable o db r)
      ∙ ap (specified_all rest) (fun_ext (λ j. perform-refines o db j h r))
      ∙ chosen done o rest (fleet C db)

  -- On a valid file whose documents can be read, whatever requests and reports come in whatever
  -- order: the fleet that the file means afterwards is the one that the specification makes of the
  -- fleet before by the operations that succeeded, and those that failed had no effect. A POST
  -- succeeds only on an id that is free, and PATCH, DELETE and PATCH of the desired state exactly on
  -- a device that is there.
  pub fleet-perform_all :
      (os : List Operation) (db : Db C.Text)
      → IsValid db
      → IsReadable C db
      → let (done, db') = perform_all os db in
        (fleet C db' ≡ specified_all done (fleet C db)) × AreAllowed os db
  fleet-perform_all os db h r = (fleet-implements os db h r, perform_all-AreAllowed os db r)
