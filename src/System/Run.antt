-- ===== src/System/Run.antt =====
-- The steps of the application, in any order: a request that is served, a message that is consumed,
-- and a restart of the process.
use embediq_cloud.Prelude.{ℕ, String, none, []}
use embediq_cloud.Db.{init_db}
use embediq_cloud.Bridge.{Ready, on_message}
use embediq_cloud.Api.{Host, Moment, Headers, Endpoint, serve}
use embediq_cloud.System.{System}

pub data Step (h : Host) (ready : Ready) (s : System (h.codec).Text)
    : System (h.codec).Text → Type 0 where
  restarted :
      (now : ℕ)
      → Step h ready s (record s {
        world = record (s.world) { db = init_db now (s.world).db };
        failures = [];
        cached = none;
      })
  served :
      (m : Moment) (headers : Headers) (e : Endpoint) → Step h ready s (serve h m headers e s).1
  delivered :
      (now : ℕ) (topic : String) (payload : (h.codec).Text)
      → Step h ready s
          (record s { world = on_message h.codec h.server ready now topic payload s.world })

-- what a sequence of steps leads to
pub data Reach (h : Host) (ready : Ready) (s : System (h.codec).Text)
    : System (h.codec).Text → Type 0 where
  here : Reach h ready s s
  next : {t u : System (h.codec).Text} → Reach h ready s t → Step h ready t u → Reach h ready s u
