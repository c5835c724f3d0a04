-- ===== src/Db/Threads.antt =====
-- The endpoints run in threads, each on its own connection. A SELECT outside a transaction reads the
-- file as it is then; the first INSERT, UPDATE or DELETE locks the file against other writers until
-- the commit or the close. So a thread is a sequence of single reads and whole transactions.
pub mod Safe
pub mod Schedule
use embediq_cloud.Prelude.{◌≡◌, List, [], ◌∷◌, ◌++◌}
use embediq_cloud.Outcome.{Outcome}
use embediq_cloud.Json.{Value}
use embediq_cloud.Db.{Db}
use embediq_cloud.Mqtt.{Message}

pub data Thread (T : Type 0) : Type 0 where
  -- the answer
  returns : Outcome Value → Thread T
  -- a SELECT
  reads : (Db T → Thread T) → Thread T
  -- a transaction, and what follows its result
  writes : (Db T → Outcome Value × Db T) → (Outcome Value → Thread T) → Thread T
  -- messages to the broker
  sends : List (Message T) → Thread T → Thread T

module _ {T : Type 0} where
  -- one action of a thread: what is left of it, the file, and what it sent
  abbrev pub advance : Thread T → Db T → Thread T × Db T × List (Message T)
  advance (returns r) db = (returns r, db, [])
  advance (reads f) db = (f db, db, [])
  advance (writes f rest) db = let (r, db') = f db in (rest r, db', [])
  advance (sends ms rest) db = (rest, db, ms)

  -- a thread that no other disturbs: its answer, the file, and what it sent
  abbrev pub run_alone : Thread T → Db T → Outcome Value × Db T × List (Message T)
  run_alone (returns r) db = (r, db, [])
  run_alone (reads f) db = run_alone (f db) db
  run_alone (writes f rest) db = let (r, db') = f db in run_alone (rest r) db'
  run_alone (sends ms rest) db = let (r, db', sent) = run_alone rest db in (r, db', ms ++ sent)

-- the file, the messages, and the threads in the order of their arrival
pub record Shared (T : Type 0) : Type 0 where
  pub db : Db T
  pub sent : List (Message T)
  pub threads : List (Thread T)

-- An action of any thread, or the arrival of one that `Starts` lets in.
pub data Step {T : Type 0} (Starts : Thread T → Type 0) (s : Shared T) : Shared T → Type 0 where
  arrives : (p : Thread T) → Starts p → Step Starts s (record s { threads = s.threads ++ p ∷ [] })
  acts :
      (before after : List (Thread T)) (p : Thread T)
      → s.threads ≡ before ++ p ∷ after
      → Step Starts s (record {
        db = (advance p s.db).1;
        sent = s.sent ++ (advance p s.db).2;
        threads = before ++ (advance p s.db).0 ∷ after;
      })

-- any interleaving
pub data Interleaved {T : Type 0} (Starts : Thread T → Type 0) (s : Shared T)
    : Shared T → Type 0 where
  here : Interleaved Starts s s
  next : {t u : Shared T} → Interleaved Starts s t → Step Starts t u → Interleaved Starts s u
