-- ===== src/Registry/Groups/Envelopes.antt =====
-- The group endpoints answer by `ok`.
use embediq_cloud.Prelude.{ℕ, String, ◌==◌, Bool-cases, inl, inr}
use embediq_cloud.Envelope.{IsOk}
use embediq_cloud.Db.{Db}
use embediq_cloud.Db.Connection.Answers.{answers_rules, Answers-with_connection}
use embediq_cloud.Registry.Groups.{GroupCreate, list_groups, post_group, delete_group, delete_rows}

module _ {T : Type 0} (db : Db T) where
  pub list_groups-IsOk : IsOk (list_groups db).0
  unfolding list_groups
  list_groups-IsOk = Answers-with_connection _ db (search (answers_rules) depth 12)

  pub post_group-IsOk : (now : ℕ) (body : GroupCreate) → IsOk (post_group now body db).0
  unfolding post_group
  post_group-IsOk now body = Answers-with_connection _ db (search (answers_rules) depth 12)

  pub delete_group-IsOk : (g : String) → IsOk (delete_group g db).0
  unfolding delete_group delete_rows
  delete_group-IsOk g =
      let rows = Answers-with_connection (delete_rows g) db (search (answers_rules) depth 12) in
      elim (Bool-cases (g == "default")) [ inl e ↦ rw e tt | inr e ↦ rw e rows ]
