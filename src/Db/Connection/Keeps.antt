-- ===== src/Db/Connection/Keeps.antt =====
-- Invariants of database actions, one rule for each way to build an action.
use embediq_cloud.Prelude.{Bool, true, false, if◌then◌else◌}
use embediq_cloud.Outcome.{Error, Outcome, returned, raised}
use embediq_cloud.Db.{Db}
use embediq_cloud.Db.Connection.{
  Conn, Tx, pure, raise, lift, select, with_connection, commit, raise_if, ◌>>=◌,
}

-- `P` holds of the file and of the working copy, whether the action returns or raises.
pub record Keeps {T A : Type 0} (P : Db T → Type 0) (m : Tx T A) : Type 0 where
  pub at : (c : Conn T) → P c.committed → P c.work → P ((m c).1).committed × P ((m c).1).work

module _ {T A : Type 0} {P : Db T → Type 0} where
  pub Keeps-pure : (a : A) → Keeps P (pure a)
  unfolding pure
  Keeps-pure a = record { at = λ c h k. (h, k) }

  pub Keeps-raise : (e : Error) → Keeps P (raise {A = A} e)
  unfolding raise
  Keeps-raise e = record { at = λ c h k. (h, k) }

  pub Keeps-lift : (r : Outcome A) → Keeps P (lift r)
  unfolding lift
  Keeps-lift r = record { at = λ c h k. (h, k) }

  pub Keeps-select : (f : Db T → A) → Keeps P (select f)
  unfolding select
  Keeps-select f = record { at = λ c h k. (h, k) }

  pub Keeps-if : (b : Bool) (m n : Tx T A) → Keeps P m → Keeps P n → Keeps P (if b then m else n)
  Keeps-if true m n km kn = km
  Keeps-if false m n km kn = kn

  -- what is kept by the body of a connection is kept by the file
  pub Keeps-with_connection :
      (m : Tx T A) (db : Db T) → Keeps P m → P db → P (with_connection m db).1
  unfolding with_connection
  Keeps-with_connection m db k h = (k.at (record { committed = db; work = db }) h h).0

module _ {T : Type 0} {P : Db T → Type 0} where
  pub Keeps-commit : Keeps P commit
  unfolding commit
  Keeps-commit = record { at = λ c h k. (k, k) }

  pub Keeps-raise_if : (b : Bool) (e : Error) → Keeps P (raise_if b e)
  unfolding raise_if
  Keeps-raise_if b e = record { at = λ c h k. (h, k) }

module _ {T A B : Type 0} {P : Db T → Type 0} (rest : A → Tx T B) where
  Keeps-continue : (r : Outcome A) → ((a : A) → Keeps P (rest a)) → Keeps P (lift r >>= rest)
  unfolding ◌>>=◌
  Keeps-continue (returned a) next = next a
  Keeps-continue (raised e) next = Keeps-raise e

module _ {T A B : Type 0} {P : Db T → Type 0} where
  pub Keeps-bind :
      (first : Tx T A) (rest : A → Tx T B)
      → Keeps P first
      → ((a : A) → Keeps P (rest a))
      → Keeps P (first >>= rest)
  unfolding ◌>>=◌
  Keeps-bind first rest k next = record {
    at = λ c old new.
        let (r, c') = first c in
        let (old', new') = k.at c old new in (Keeps-continue rest r next).at c' old' new';
  }

pub ruleset keeps_rules = (
  Keeps-pure, Keeps-raise, Keeps-lift, Keeps-select, Keeps-commit, Keeps-raise_if, Keeps-if,
  Keeps-bind,
)
