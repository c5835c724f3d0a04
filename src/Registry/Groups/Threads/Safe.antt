-- ===== src/Registry/Groups/Threads/Safe.antt =====
-- The threads of the group endpoints keep the file good, whatever other threads do between their
-- statements.
use embediq_cloud.Prelude.{
  ℕ, ◌≡◌, ◌≢◌, refl, String, ◌==◌, eq_iff, Bool-cases, true, arith, List, [], ◌∷◌, ◌++◌, inl, inr,
}
use embediq_cloud.Json.{Codec}
use embediq_cloud.Db.{Db, Group}
use embediq_cloud.Db.Connection.{with_connection, modify, ◌>>=◌}
use embediq_cloud.Db.Invariant.Rows.{add_group-IsValid}
use embediq_cloud.Db.Readable.{IsReadable}
use embediq_cloud.Db.Threads.Safe.{
  IsGood, is_expected, IsSafeThread, Safe-returns, Safe-reads, Safe-writes, Safe-if,
  is_handled-IsExpected,
}
use embediq_cloud.Registry.Groups.{GroupCreate}
use embediq_cloud.Registry.Groups.Handled.{list_groups-is_handled}
use embediq_cloud.Registry.Groups.Valid.{drop_group-IsValid}
use embediq_cloud.Registry.Groups.Readable.{drop_group-IsReadable}
use embediq_cloud.Registry.Groups.Threads.{
  insert_row, post_thread, move_rows, delete_thread, list_thread,
}

module _ (C : Codec) where
  insert_row-IsGood :
      (now : ℕ) (body : GroupCreate) (db : Db C.Text)
      → IsGood C db
      → IsGood C (with_connection (insert_row now body) db).1
  unfolding ◌>>=◌
  insert_row-IsGood now body db h =
      let g : Group = record { id = body.id; description = body.description; created_at = now } in
      let same : (gs : List Group) → IsReadable C (record db { groups = gs }) =
        λ gs. record { attributes = h.1.attributes; shadows = h.1.shadows } in
      (
        ground (arith, h.0, add_group-IsValid db h.0 g),
        ground (arith, h.1, same (db.groups ++ g ∷ [])),
      )

  insert_row-IsExpected :
      (now : ℕ) (body : GroupCreate) (db : Db C.Text)
      → is_expected (with_connection (insert_row now body) db).0 ≡ true
  unfolding ◌>>=◌
  insert_row-IsExpected now body db = ground arith

  pub post_thread-IsSafe : (now : ℕ) (body : GroupCreate) → IsSafeThread C (post_thread now body)
  post_thread-IsSafe now body = Safe-reads C _ (λ db h. Safe-if C _ _ _ (Safe-returns C _ refl) (
      Safe-writes C _ _ (insert_row-IsGood now body)
        (λ db1 h1. Safe-returns C _ (insert_row-IsExpected now body db1))))

  module _ (g : String) where
    move_rows-IsGood :
        g ≢ "default"
        → (db : Db C.Text) → IsGood C db
        → IsGood C (with_connection (move_rows g) db).1
    unfolding ◌>>=◌ modify
    move_rows-IsGood ne db h = (drop_group-IsValid g db ne h.0, drop_group-IsReadable C g db h.1)

    move_rows-IsExpected :
        (db : Db C.Text) → is_expected (with_connection (move_rows g) db).0 ≡ true
    unfolding ◌>>=◌ modify
    move_rows-IsExpected db = refl

    pub delete_thread-IsSafe : IsSafeThread C (delete_thread g)
    delete_thread-IsSafe = elim (Bool-cases (g == "default")) [
      | inl e ↦ rw (e, delete_thread) (Safe-returns C _ refl)
      | inr e ↦
          rw (e, delete_thread)
            (Safe-reads C _ (λ db h.
              Safe-if C _ _ _
                (Safe-writes C _ _ (move_rows-IsGood (ground (arith, e, eq_iff g "default")))
                  (λ db1 h1. Safe-returns C _ (move_rows-IsExpected db1)))
                (Safe-returns C _ refl)))
    ]

  pub list_thread-IsSafe : IsSafeThread C list_thread
  list_thread-IsSafe =
      Safe-reads C _
        (λ db h. Safe-returns C _ (is_handled-IsExpected _ (list_groups-is_handled db)))
