-- ===== src/Registry/Maintenance/Results.antt =====
-- When a certificate is flagged, and how rotations are numbered.
use embediq_cloud.Prelude.{ℕ, ◌+◌, ◌≤◌, ◌<◌, ◌≡◌, refl, some, List, [], ◌∷◌, ◌++◌, arith}
use embediq_cloud.Prelude.Int.{pos}
use embediq_cloud.Outcome.{returned}
use embediq_cloud.Json.{int, str, object, Codec}
use embediq_cloud.Db.{Db, CertRotation}
use embediq_cloud.Db.Connection.{◌>>=◌}
use embediq_cloud.Db.Invariant.{IsValid, IsIncreasing}
use embediq_cloud.Db.Invariant.Rows.{add_rotation-IsValid}
use embediq_cloud.Db.Readable.{IsReadable}
use embediq_cloud.Envelope.{ok}
use embediq_cloud.Registry.Maintenance.{system_health, rotate_certs, rotation_note}

-- every id of the rotations is below `n`
abbrev pub AreBelow : ℕ → List CertRotation → Type 0
AreBelow n [] = Unit
AreBelow n (r ∷ rs) = (r.id < n) × AreBelow n rs

IsIncreasing-AreBelow :
    (lo hi : ℕ) (rs : List CertRotation) → IsIncreasing lo rs hi → (lo ≤ hi) × AreBelow (hi + 1) rs
IsIncreasing-AreBelow lo hi [] h = (h, tt)
IsIncreasing-AreBelow lo hi (r ∷ rs) h =
    let (last, rest) = IsIncreasing-AreBelow r.id hi rs h.1 in
    (omega (arith, h.0), (omega arith, rest))

module _ {T : Type 0} (now : ℕ) (db : Db T) (h : IsValid db) where
  pub rotate_certs-IsValid : IsValid (rotate_certs now db).1
  unfolding rotate_certs ◌>>=◌
  rotate_certs-IsValid = add_rotation-IsValid db h _ refl

  -- On a valid database a rotation succeeds. Its id is above the id of every row of the rotations,
  -- and its row is added behind theirs.
  rotate_certs_numbers :
      (id : ℕ) × ((rotate_certs now db).0
        ≡ returned (
            ok (
              object (
                ("id", int (pos id))
                ∷ ("status", str "triggered")
                ∷ ("requested_at", int (pos now))
                ∷ ("note", str rotation_note)
                ∷ []))))
      × AreBelow id db.cert_rotations
      × (((rotate_certs now db).1).cert_rotations
          ≡ db.cert_rotations
            ++ record {
              id = id;
              requested_at = now;
              status = "triggered";
              note = some rotation_note;
            }
              ∷ [])
  unfolding rotate_certs ◌>>=◌
  rotate_certs_numbers = (
    db.rotation_seq + 1,
    refl,
    (IsIncreasing-AreBelow 0 db.rotation_seq db.cert_rotations h.rotation_ids).1,
    refl,
  )

pub system_health_reads : {T : Type 0} (uptime : ℕ) (db : Db T) → (system_health uptime db).1 ≡ db
unfolding system_health ◌>>=◌
system_health_reads uptime db = refl

pub rotate_certs-IsReadable :
    (C : Codec) (now : ℕ) (db : Db C.Text) → IsReadable C db → IsReadable C (rotate_certs now db).1
unfolding rotate_certs ◌>>=◌
rotate_certs-IsReadable C now db r = record { attributes = r.attributes; shadows = r.shadows }
