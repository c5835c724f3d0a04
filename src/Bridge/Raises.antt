-- ===== src/Bridge/Raises.antt =====
-- What a transaction of the bridge can raise.
use embediq_cloud.Prelude.{ℕ, ◌≡◌, ◌⊎◌, refl, inl, inr, String, true, false, arith, Option}
use embediq_cloud.Prelude.Int.{ℤ, fits_int64}
use embediq_cloud.Outcome.{
  Outcome, Outcome-cases, returned, raised, overflow_error, programming_error, is_sqlite_error,
}
use embediq_cloud.Json.{Value, null, bool, int, float, str, arr, obj, Object, get, Codec}
use embediq_cloud.Db.{Db}
use embediq_cloud.Db.Connection.{with_connection, bind_text, ◌>>=◌}
use embediq_cloud.Bridge.{reported_rows, installed_rows, status_rows, swallow}

-- the exceptions of a transaction of the bridge
abbrev pub FromRows : Outcome (Unit {0}) → Type 0
FromRows (returned _) = Unit
FromRows (raised e) = (e ≡ overflow_error) ⊎ (is_sqlite_error e ≡ true)

-- what is left where sqlite3.Error is caught
pub swallow-FromRows :
    (r : Outcome (Unit {0}))
    → FromRows r
    → (swallow r ≡ returned tt) ⊎ (swallow r ≡ raised overflow_error)
swallow-FromRows (returned _) h = inl refl
swallow-FromRows (raised e) (inl p) = inr (rw p refl)
swallow-FromRows (raised e) (inr p) = inl (rw p refl)

module _ (column_text : Value → String) where
  -- what binding a parameter can raise
  abbrev FromBind : Outcome (Option String) → Type 0
  FromBind (returned _) = Unit
  FromBind (raised e) = (e ≡ overflow_error) ⊎ (e ≡ programming_error)

  bind_text-FromBind : (v : Value) → FromBind (bind_text column_text v)
  unfolding bind_text
  bind_text-FromBind (int n) = ground arith
  bind_text-FromBind null = tt
  bind_text-FromBind (bool b) = tt
  bind_text-FromBind (float m k) = tt
  bind_text-FromBind (str s) = tt
  bind_text-FromBind (arr xs) = inr refl
  bind_text-FromBind (obj fs) = inr refl

  pub bind_text_overflows :
      (v : Value) (n : ℤ)
      → v ≡ int n
      → fits_int64 n ≡ false
      → bind_text column_text v ≡ raised overflow_error
  unfolding bind_text
  bind_text_overflows v n e big = rw (e, bind_text) (rw big)

module _ (C : Codec) where
  pub reported_rows-FromRows :
      (now : ℕ) (k : String) (payload : Object) (db : Db C.Text)
      → FromRows (with_connection (reported_rows C now k payload) db).0
  unfolding reported_rows ◌>>=◌
  reported_rows-FromRows now k payload db = ground arith

  pub status_rows-FromRows :
      (now : ℕ) (k : String) (payload : Object) (db : Db C.Text)
      → FromRows (with_connection (status_rows C now k payload) db).0
  unfolding status_rows installed_rows ◌>>=◌
  status_rows-FromRows now k payload db =
      let bound = λ (name : String). bind_text-FromBind C.column_text (get name payload) in
      elim (Outcome-cases (bind_text C.column_text (get "ip_address" payload))) [
        | inr (e, n) ↦ ground (arith, n, bound "ip_address")
        | inl (ip, n) ↦
            elim (Outcome-cases (bind_text C.column_text (get "firmware_version" payload))) [
              | inr (e, m) ↦ ground (arith, n, m, bound "firmware_version")
              | inl (version, m) ↦ ground (arith, n, m, bound "version")
            ]
      ]
