-- ===== src/System.antt =====
-- The state of the application: the file, what was sent and stored outside, and what the process
-- keeps in memory.
pub mod Run
pub mod Threads
pub mod Invariant
pub mod Answers
use embediq_cloud.Prelude.{ℕ, Option, none, List, [], ◌∷◌, ◌++◌}
use embediq_cloud.Db.{Db, new_file, init_db}
use embediq_cloud.Mqtt.{Message}
use embediq_cloud.Config.{Settings}
use embediq_cloud.Auth.RateLimit.{Failures}
use embediq_cloud.Bridge.{World}

-- The world that the bridge acts on, the messages that were published, the newest last, the failed
-- validations, and the settings that `get_settings` has cached.
pub record System (T : Type 0) : Type 0 where
  pub world : World T
  pub sent : List (Message T)
  pub failures : Failures
  pub cached : Option Settings

-- a new file, after `init_db`
abbrev pub started : {T : Type 0} → ℕ → System T
started now = record {
  world = record { db = init_db now new_file; requests = []; writes = [] };
  sent = [];
  failures = [];
  cached = none;
}
