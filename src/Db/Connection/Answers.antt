-- ===== src/Db/Connection/Answers.antt =====
-- A database action that answers by `ok`, one rule for each way to end an action.
use embediq_cloud.Prelude.{refl}
use embediq_cloud.Outcome.{Outcome, returned, raised}
use embediq_cloud.Json.{Value}
use embediq_cloud.Envelope.{ok, IsOk}
use embediq_cloud.Db.{Db}
use embediq_cloud.Db.Connection.{Conn, Tx, pure, lift, with_connection, ◌>>=◌}

pub record Answers {T : Type 0} (m : Tx T Value) : Type 0 where
  pub at : (c : Conn T) → IsOk (m c).0

module _ {T : Type 0} where
  pub Answers-ok : (v : Value) → Answers {T = T} (pure (ok v))
  unfolding pure
  Answers-ok v = record { at = λ c. (v, refl) }

  pub Answers-with_connection :
      (m : Tx T Value) (db : Db T) → Answers m → IsOk (with_connection m db).0
  unfolding with_connection
  Answers-with_connection m db k = k.at (record { committed = db; work = db })

module _ {T A : Type 0} (rest : A → Tx T Value) where
  Answers-continue : (r : Outcome A) → ((a : A) → Answers (rest a)) → Answers (lift r >>= rest)
  unfolding ◌>>=◌
  Answers-continue (returned a) next = next a
  Answers-continue (raised e) next = record { at = λ c. tt }

module _ {T A : Type 0} where
  -- only the end of an action answers
  pub Answers-bind :
      (first : Tx T A) (rest : A → Tx T Value)
      → ((a : A) → Answers (rest a))
      → Answers (first >>= rest)
  unfolding ◌>>=◌
  Answers-bind first rest next = record {
    at = λ c. let (r, c') = first c in (Answers-continue rest r next).at c';
  }

pub ruleset answers_rules = (Answers-ok, Answers-bind)
