-- ===== src/Registry/Groups/Replies.antt =====
-- What a client sees of the group endpoints.
use embediq_cloud.Prelude.{
  ◌+◌, ◌≡◌, ◌≢◌, String, ◌==◌, eq_iff, eq_refl, true, arith, is_some, List, [], ◌∷◌, map, count,
  if◌then◌else◌, none,
}
use embediq_cloud.Prelude.Table.{find-delete}
use embediq_cloud.Outcome.{returned}
use embediq_cloud.Json.{str, object}
use embediq_cloud.Envelope.{ok}
use embediq_cloud.Db.{Db, Device, group_key, find_group}
use embediq_cloud.Db.Connection.{◌>>=◌, modify}
use embediq_cloud.Registry.Groups.{move_device, delete_rows, delete_group, device_count}

module _ {T : Type 0} where
  count-move_device :
      (g k : String) (ds : List (Device T))
      → g ≢ "default"
      → count (λ d. d.group_id == k) (map (move_device g) ds) ≡ (
          if k == g
          then 0
          else if k == "default"
          then count (λ d. d.group_id == k) ds + count (λ d. d.group_id == g) ds
          else count (λ d. d.group_id == k) ds)
  count-move_device g k [] ne = ground arith
  count-move_device g k (d ∷ ds) ne = ground (
    arith,
    count-move_device g k ds,
    eq_iff g "default",
    eq_iff k g,
    eq_iff k "default",
    eq_iff "default" k,
    eq_iff d.group_id k,
    eq_iff d.group_id g,
  )

  -- DELETE of a group that is there and is not "default" succeeds. The group is gone and its devices
  -- are in "default": the count of "default" grows by the count of the group, and no other count
  -- changes.
  pub delete_group_counts :
      (g k : String) (db : Db T)
      → g ≢ "default"
      → is_some (find_group g db) ≡ true
      → let (reply, db') = delete_group g db in
        (reply ≡ returned (ok (object (("id", str g) ∷ []))))
        × (find_group g db' ≡ none)
        × (device_count k db' ≡ (
            if k == g
            then 0
            else if k == "default"
            then device_count k db + device_count g db
            else device_count k db))
  unfolding delete_group delete_rows ◌>>=◌ modify
  delete_group_counts g k db ne known = ground (
    arith,
    count-move_device g k db.devices,
    find-delete group_key g g db.groups,
    eq_refl g,
    eq_iff g "default",
  )
