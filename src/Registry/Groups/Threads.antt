-- ===== src/Registry/Groups/Threads.antt =====
-- The group endpoints as threads.
pub mod Safe
use embediq_cloud.Prelude.{
  ℕ, ◌≡◌, refl, String, ◌==◌, Bool, Bool-cases, true, false, not, inl, inr, arith, is_some, [], ◌∷◌,
  if◌then◌else◌,
}
use embediq_cloud.Outcome.{Outcome, returned, raised, http_exception}
use embediq_cloud.Json.{Value, str, object}
use embediq_cloud.Envelope.{ok}
use embediq_cloud.Db.{Db, Group, find_group}
use embediq_cloud.Db.Connection.{
  Tx, pure, with_connection, commit, modify, insert_group, ◌>>=◌, ◌>>◌,
}
use embediq_cloud.Db.Threads.{Thread, returns, reads, writes, run_alone}
use embediq_cloud.Registry.Groups.{
  GroupCreate, post_group, delete_group, delete_rows, drop_group, list_groups,
}

module _ {T : Type 0} where
  -- from the INSERT to the commit
  abbrev pub insert_row : ℕ → GroupCreate → Tx T Value
  insert_row now body = do
    insert_group (record { id = body.id; description = body.description; created_at = now })
    commit
    pure (ok (object (("id", str body.id) ∷ [])))

  abbrev pub post_thread : ℕ → GroupCreate → Thread T
  post_thread now body = reads (λ db.
      if is_some (find_group body.id db)
      then returns (raised (http_exception 409 "group id already exists"))
      else writes (with_connection (insert_row now body)) (λ r. returns r))

  pub run_alone-post_thread :
      (now : ℕ) (body : GroupCreate) (db : Db T)
      → let (r, db') = post_group now body db in run_alone (post_thread now body) db ≡ (r, db', [])
  unfolding post_group ◌>>=◌
  run_alone-post_thread now body db = ground arith

  -- from the UPDATE to the commit
  abbrev pub move_rows : String → Tx T Value
  move_rows g = do modify (drop_group g); commit; pure (ok (object (("id", str g) ∷ [])))

  abbrev pub delete_thread : String → Thread T
  delete_thread g =
      if g == "default"
      then returns (raised (http_exception 400 "the default group cannot be deleted"))
      else reads (λ db.
        if is_some (find_group g db)
        then writes (with_connection (move_rows g)) (λ r. returns r)
        else returns (raised (http_exception 404 "group not found")))

  pub run_alone-delete_thread :
      (g : String) (db : Db T)
      → let (r, db') = delete_group g db in run_alone (delete_thread g) db ≡ (r, db', [])
  unfolding delete_group delete_rows modify ◌>>=◌
  run_alone-delete_thread g db = ground arith

  -- one SELECT
  abbrev pub list_thread : Thread T
  list_thread = reads (λ db. returns (list_groups db).0)

  pub run_alone-list_thread :
      (db : Db T) → let (r, db') = list_groups db in run_alone list_thread db ≡ (r, db', [])
  unfolding list_groups ◌>>=◌
  run_alone-list_thread db = refl
