-- ===== src/Shadow/Refines.antt =====
-- PATCH of a desired state does to the fleet what its specification says.
use embediq_cloud.Prelude.{
  ℕ, ◌≡◌, refl, subst, String, ◌==◌, eq_iff, eq_refl, Bool, true, false, Bool-cases, some,
  Option-cases, inl, inr, is_some, arith, if◌then◌else◌,
}
use embediq_cloud.Outcome.{is_returned}
use embediq_cloud.Json.{Codec, Object, update}
use embediq_cloud.Db.{Db, find_device}
use embediq_cloud.Db.Readable.{IsReadable}
use embediq_cloud.Fleet.{fleet, changed, desired, shadow_of}
use embediq_cloud.Mqtt.{Message}
use embediq_cloud.Shadow.{patch_desired}
use embediq_cloud.Shadow.Replies.{patch_desired_lem, patch_desired_others}
use embediq_cloud.Db.Connection.{upsert_shadow, ◌>>=◌}
use embediq_cloud.Shadow.Valid.{patch_desired-Keeps}
use embediq_cloud.Shadow.Handled.{shadow_of-is_some}
use embediq_cloud.Shadow.{patch_rows}

module _ (C : Codec) (takes : Message C.Text → Bool) (now : ℕ) (k : String) (delta : Object)
    (db : Db C.Text) where
  abbrev after : Db C.Text
  after = (patch_desired C takes now k delta db).1

  patch_desired-devices : (j : String) → find_device j after ≡ find_device j db
  unfolding upsert_shadow
  patch_desired-devices j =
      patch_desired-Keeps C (λ x. find_device j x ≡ find_device j db) takes now k delta db
        (λ merged. record { at = λ c h w. ground (arith, h, w) }) refl

  patch_desired_unknown :
      is_some (find_device k db) ≡ false
      → (is_returned (patch_desired C takes now k delta db).0 ≡ false) × (after ≡ db)
  unfolding patch_desired patch_rows ◌>>=◌
  patch_desired_unknown unknown = ground (arith, unknown)

  abbrev Refined : String → Type 0
  Refined j = fleet C after j ≡ (
      if is_returned (patch_desired C takes now k delta db).0
      then changed k (desired delta) (fleet C db) j
      else fleet C db j)

  at_device :
      (both : Object × Object)
      → shadow_of C k db ≡ some both
      → is_returned (patch_desired C takes now k delta db).0 ≡ true
      → shadow_of C k after ≡ some (update both.0 delta, both.1)
      → Refined k
  at_device both n reply written = elim (Option-cases (find_device k db)) [
    | inl d ↦ ground (arith, n, reply, written, patch_desired-devices k, eq_refl k, d)
    | inr (row, d) ↦ ground (arith, n, reply, written, patch_desired-devices k, eq_refl k, d)
  ]

  pub patch_desired-refines : (j : String) → IsReadable C db → Refined j
  patch_desired-refines j r =
      let devices = patch_desired-devices j in
      elim (Bool-cases (is_some (find_device k db))) [
        | inr unknown ↦ let (failed, same) = patch_desired_unknown unknown in rw (failed, same) refl
        | inl known ↦ elim (Option-cases (shadow_of C k db)) [
          | inl n ↦ absurd (ground (arith, n, shadow_of-is_some C db k r))
          | inr (both, n) ↦
              let (reply, written, sent, merged) =
                patch_desired_lem C takes now k delta both.0 both.1 db known n in
              elim (Bool-cases (k == j)) [
                | inl e ↦
                    subst (λ x. Refined x) ((eq_iff k j).0 e)
                      (at_device both n (rw reply refl) written)
                | inr e ↦
                    let others =
                      patch_desired_others C takes now k delta j db
                        (λ same. ground (arith, eq_iff k j, e, same)) in
                    elim (Option-cases (find_device j db)) [
                      | inl d ↦ ground (arith, devices, others, reply, e, d)
                      | inr (row, d) ↦ ground (arith, devices, others, reply, e, d)
                    ]
              ]
        ]
      ]

  pub patch_desired-accepts :
      IsReadable C db
      → is_returned (patch_desired C takes now k delta db).0 ≡ is_some (fleet C db k)
  patch_desired-accepts r = elim (Option-cases (find_device k db)) [
    | inl d ↦ let (failed, same) = patch_desired_unknown (rw d refl) in rw (d, failed) refl
    | inr (row, d) ↦ elim (Option-cases (shadow_of C k db)) [
      | inl n ↦ absurd (ground (arith, n, shadow_of-is_some C db k r))
      | inr (both, n) ↦
          let (reply, written, sent, merged) =
            patch_desired_lem C takes now k delta both.0 both.1 db (rw d refl) n in
          rw (d, reply) refl
    ]
  ]
