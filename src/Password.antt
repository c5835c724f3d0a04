-- ===== src/Password.antt =====
-- The password functions of app/auth.py, over the library `bcrypt`.
use embediq_cloud.Prelude.{◌≡◌, ◌≢◌, String, Bool, true, false, Option, none, some}
use embediq_cloud.Outcome.{Outcome, value_error, or_raise}

-- The library: `none` is its `ValueError`, for a password that it does not take or a hash that it
-- cannot read. The second argument of `hashpw` is the salt.
pub record Bcrypt : Type 0 where
  pub hashpw : String → String → Option String
  pub checkpw : String → String → Option Bool
  -- a password matches its own hash
  pub checkpw-hashpw :
      (password salt : String) (hash : String)
      → hashpw password salt ≡ some hash
      → checkpw password hash ≡ some true
  -- a hash is never the empty text
  pub hashpw-ne-nil :
      (password salt : String) (hash : String) → hashpw password salt ≡ some hash → hash ≢ ""

module _ (B : Bcrypt) where
  -- `salt` is what `bcrypt.gensalt()` returns
  unfoldable pub hash_password : String → String → Outcome String
  hash_password salt password = or_raise (B.hashpw password salt) value_error

  unfoldable pub verify_password : String → String → Bool
  verify_password password hash = elim (B.checkpw password hash) [ none ↦ false | some b ↦ b ]
