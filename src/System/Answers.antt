-- ===== src/System/Answers.antt =====
-- Which requests are always answered.
use embediq_cloud.Prelude.{ℕ, ◌≡◌, true, is_some}
use embediq_cloud.Outcome.{returned}
use embediq_cloud.Config.{Settings}
use embediq_cloud.Bridge.{Ready}
use embediq_cloud.Api.{Host, Moment, Headers, Endpoint, settings, answer}
use embediq_cloud.Api.Answered.{uses_file, answer-is_some}
use embediq_cloud.System.{System, started}
use embediq_cloud.System.Run.{Reach}
use embediq_cloud.System.Invariant.{Reach-IsSound}

-- In every state that is reached from a new file, with settings that can be loaded: each endpoint of
-- the registry, the shadow and the commands that uses only the file and the broker is answered by
-- the application, and never by an exception that it does not handle.
pub Reach-answered :
    (h : Host) (ready : Ready) (started_at : ℕ) (s : System (h.codec).Text) (m : Moment)
    (headers : Headers) (e : Endpoint) (found : Settings)
    → Reach h ready (started started_at) s
    → uses_file e ≡ true
    → (settings h m s).0 ≡ returned found
    → is_some (answer h m headers e s) ≡ true
Reach-answered h ready started_at s m headers e found r u f =
    answer-is_some h m headers e s found (Reach-IsSound h ready started_at s r) u f
