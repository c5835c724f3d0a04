-- ===== src/System/Invariant.antt =====
-- What holds of the application at all times.
use embediq_cloud.Prelude.{some, arith, ℕ, refl, [], ◌∷◌, ◌++◌}
use embediq_cloud.Json.{Codec}
use embediq_cloud.Db.{Db, Group, init_db}
use embediq_cloud.Db.Invariant.{IsValid}
use embediq_cloud.Db.Readable.{IsReadable}
use embediq_cloud.Bridge.{Ready}
use embediq_cloud.Bridge.Valid.{on_message-IsValid}
use embediq_cloud.Bridge.Readable.{on_message-IsReadable}
use embediq_cloud.Api.{Host}
use embediq_cloud.Api.Sound.{IsSound, serve-IsSound}
use embediq_cloud.System.{System, started}
use embediq_cloud.System.Run.{Step, Reach, restarted, served, delivered, here, next}

module _ {T : Type 0} where
  init_db-IsValid : (now : ℕ) (db : Db T) → IsValid db → IsValid (init_db now db)
  unfolding init_db
  init_db-IsValid now db h = rw h.default_group h

module _ (C : Codec) where
  init_db-IsReadable : (now : ℕ) (db : Db C.Text) → IsReadable C db → IsReadable C (init_db now db)
  unfolding init_db
  init_db-IsReadable now db r =
      let added : (g : Group) → IsReadable C (record db { groups = db.groups ++ g ∷ [] }) =
        λ g. record { attributes = r.attributes; shadows = r.shadows } in
      ground (
        arith,
        added (record { id = "default"; description = some "Default group"; created_at = now }),
      )

  -- `init_db` makes a valid database of a new file
  started-IsSound : (now : ℕ) → IsSound C (started now)
  unfolding init_db
  started-IsSound now = record {
    readable = record { attributes = tt; shadows = tt };
    file = record {
      device_ids = tt;
      state_ids = tt;
      shadow_ids = tt;
      group_ids = (refl, tt);
      states = λ k. refl;
      shadows = λ k e. e;
      default_group = refl;
      rotation_ids = omega arith;
    };
    retained = tt;
  }

module _ (h : Host) (ready : Ready) where
  Step-IsSound :
      {s t : System (h.codec).Text} → Step h ready s t → IsSound h.codec s → IsSound h.codec t
  Step-IsSound {s} (restarted now) i = record {
    file = init_db-IsValid now (s.world).db i.file;
    readable = init_db-IsReadable h.codec now (s.world).db i.readable;
    retained = i.retained;
  }
  Step-IsSound {s} (served m headers e) i = serve-IsSound h m headers e s i
  Step-IsSound {s} (delivered now topic payload) i = record {
    file = on_message-IsValid h.codec h.server ready now topic payload s.world i.file;
    readable = on_message-IsReadable h.codec h.server ready now topic payload s.world i.readable;
    retained = i.retained;
  }

  Reach-keeps-IsSound :
      {s t : System (h.codec).Text} → Reach h ready s t → IsSound h.codec s → IsSound h.codec t
  Reach-keeps-IsSound here i = i
  Reach-keeps-IsSound (next r st) i = Step-IsSound st (Reach-keeps-IsSound r i)

  -- From a new file, whatever requests and messages come in whatever order, with whatever headers,
  -- contents and clocks, and across restarts: the database stays valid, every document in it can be
  -- read back, and no message but a desired state is ever retained.
  pub Reach-IsSound :
      (now : ℕ) (s : System (h.codec).Text) → Reach h ready (started now) s → IsSound h.codec s
  Reach-IsSound now s r = Reach-keeps-IsSound r (started-IsSound h.codec now)
