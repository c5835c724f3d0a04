-- ===== src/Registry/Groups/Handled.antt =====
-- The group endpoints raise nothing but an HTTPException.
use embediq_cloud.Prelude.{ℕ, ◌≡◌, refl, String, true, arith}
use embediq_cloud.Outcome.{is_handled}
use embediq_cloud.Db.{Db}
use embediq_cloud.Db.Connection.{◌>>=◌, modify}
use embediq_cloud.Registry.Groups.{GroupCreate, list_groups, post_group, delete_group, delete_rows}

module _ {T : Type 0} (db : Db T) where
  pub list_groups-is_handled : is_handled (list_groups db).0 ≡ true
  unfolding list_groups ◌>>=◌
  list_groups-is_handled = refl

  pub post_group-is_handled :
      (now : ℕ) (body : GroupCreate) → is_handled (post_group now body db).0 ≡ true
  unfolding post_group ◌>>=◌
  post_group-is_handled now body = ground arith

  pub delete_group-is_handled : (g : String) → is_handled (delete_group g db).0 ≡ true
  unfolding delete_group delete_rows modify ◌>>=◌
  delete_group-is_handled g = ground arith
