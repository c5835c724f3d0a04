-- ===== src/Bridge/Refines.antt =====
-- A report does to the fleet what its specification says.
use embediq_cloud.Prelude.{
  ℕ, ◌≡◌, refl, subst, String, ◌==◌, eq_iff, eq_refl, Bool-cases, false, Option-cases, inl, inr,
  is_some, arith,
}
use embediq_cloud.Json.{Object, Codec}
use embediq_cloud.Db.{Db, find_device, find_shadow}
use embediq_cloud.Db.Connection.{◌>>=◌}
use embediq_cloud.Db.Connection.Keeps.{Keeps-with_connection}
use embediq_cloud.Db.Invariant.{IsValid}
use embediq_cloud.Db.Readable.{IsReadable}
use embediq_cloud.Fleet.{fleet, changed, reported, shadow_of}
use embediq_cloud.Shadow.Handled.{shadow_of-is_some}
use embediq_cloud.Bridge.{World, reported_rows, handle_reported}
use embediq_cloud.Bridge.Others.{SameRows, reported_rows-others}
use embediq_cloud.Bridge.Reported.{handle_reported_lem}
use embediq_cloud.Bridge.Valid.{reported_rows-Keeps}
use embediq_cloud.Bridge.Readable.{reported_rows-Keeps as reported_rows-readable}

module _ (C : Codec) (now : ℕ) (k : String) (payload : Object) (w : World C.Text) where
  abbrev after : Db C.Text
  after = ((handle_reported C now k payload w).1).db

  pub handle_reported-IsValid : IsValid w.db → IsValid after
  unfolding handle_reported
  handle_reported-IsValid h =
      Keeps-with_connection (reported_rows C now k payload) w.db
        (reported_rows-Keeps C now k payload) h

  pub handle_reported-IsReadable : IsReadable C w.db → IsReadable C after
  unfolding handle_reported
  handle_reported-IsReadable r =
      Keeps-with_connection (reported_rows C now k payload) w.db
        (reported_rows-readable C now k payload) r

  reported_unknown : is_some (find_device k w.db) ≡ false → find_device k after ≡ find_device k w.db
  unfolding handle_reported reported_rows ◌>>=◌
  reported_unknown unknown = elim (Option-cases (find_shadow k w.db)) [
    | inl n ↦ ground (arith, unknown, n)
    | inr (row, n) ↦ ground (arith, unknown, n)
  ]

  abbrev Refined : String → Type 0
  Refined j = fleet C after j ≡ changed k (reported payload) (fleet C w.db) j

  at_device : IsReadable C w.db → Refined k
  at_device r = elim (Option-cases (find_device k w.db)) [
    | inl d ↦ ground (arith, d, reported_unknown (rw d refl), eq_refl k)
    | inr (row, d) ↦ elim (Option-cases (shadow_of C k w.db)) [
      | inl n ↦ absurd (ground (arith, n, shadow_of-is_some C w.db k r))
      | inr (both, n) ↦
          let (reply, written, devices) =
            handle_reported_lem C now k payload both.0 both.1 w (rw d refl) n in
          ground (arith, d, n, written, devices, eq_refl k)
    ]
  ]

  others : (j : String) → (k == j) ≡ false → Refined j
  unfolding handle_reported
  others j e =
      let (device, state, shadow) =
        Keeps-with_connection {P = SameRows j w.db} (reported_rows C now k payload) w.db
          (reported_rows-others C j k (λ same. ground (arith, eq_iff k j, e, same)) w.db now
            payload)
          (refl, refl, refl) in
      rw (e, device, shadow) refl

  -- A report of any id: the fleet's card of that id, if it has one, gets the reported dict.
  pub handle_reported-refines :
      (j : String)
      → IsReadable C w.db
      → fleet C after j ≡ changed k (reported payload) (fleet C w.db) j
  handle_reported-refines j r = elim (Bool-cases (k == j)) [
    | inl e ↦ subst Refined ((eq_iff k j).0 e) (at_device r)
    | inr e ↦ others j e
  ]
