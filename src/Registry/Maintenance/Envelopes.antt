-- ===== src/Registry/Maintenance/Envelopes.antt =====
-- The system endpoints answer by `ok`.
use embediq_cloud.Prelude.{ℕ, refl}
use embediq_cloud.Envelope.{IsOk}
use embediq_cloud.Db.{Db}
use embediq_cloud.Db.Connection.Answers.{answers_rules, Answers-with_connection}
use embediq_cloud.Config.{Environ}
use embediq_cloud.Registry.Maintenance.{
  system_health, rotate_certs, system_certs, CertFile, Expiry, absent, unreadable, contents,
}

module _ {T : Type 0} (db : Db T) where
  pub system_health-IsOk : (uptime : ℕ) → IsOk (system_health uptime db).0
  unfolding system_health
  system_health-IsOk uptime = Answers-with_connection _ db (search (answers_rules) depth 12)

  pub rotate_certs-IsOk : (now : ℕ) → IsOk (rotate_certs now db).0
  unfolding rotate_certs
  rotate_certs-IsOk now = Answers-with_connection _ db (search (answers_rules) depth 12)

pub system_certs-IsOk :
    (expiry : Expiry) (env : Environ) (cert : CertFile) (now : ℕ)
    → IsOk (system_certs expiry env cert now)
unfolding system_certs
system_certs-IsOk expiry env absent now = (_, refl)
system_certs-IsOk expiry env unreadable now = tt
system_certs-IsOk expiry env (contents pem) now = (_, refl)
