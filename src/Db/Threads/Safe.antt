-- ===== src/Db/Threads/Safe.antt =====
-- What holds of the file and of every answer, however the threads interleave.
use embediq_cloud.Prelude.{
  ◌≡◌, refl, arith, Bool, true, false, if◌then◌else◌, subst, List, [], ◌∷◌, ◌++◌,
}
use embediq_cloud.Outcome.{Outcome, returned, raised, integrity_error, value_error, is_handled}
use embediq_cloud.Json.{Value, Codec}
use embediq_cloud.Db.{Db}
use embediq_cloud.Mqtt.{Message}
use embediq_cloud.Db.Invariant.{IsValid}
use embediq_cloud.Db.Readable.{IsReadable}
use embediq_cloud.Db.Threads.{
  Thread, returns, reads, writes, sends, advance, Shared, Step, arrives, acts, Interleaved, here,
  next,
}

module _ {T : Type 0} (P : Db T → Type 0) (Q : Outcome Value → Type 0) where
  -- On files with `P`, whatever other threads do to the file between two actions as long as they
  -- keep `P`: the thread keeps `P`, and it answers as `Q` says.
  abbrev pub IsSafe : Thread T → Type 0
  IsSafe (returns r) = Q r
  IsSafe (reads f) = (db : Db T) → P db → IsSafe (f db)
  IsSafe (writes f rest) = (db : Db T) → P db → P (f db).1 × IsSafe (rest (f db).0)
  IsSafe (sends ms rest) = IsSafe rest

  abbrev pub AllSafe : List (Thread T) → Type 0
  AllSafe [] = Unit
  AllSafe (p ∷ ps) = IsSafe p × AllSafe ps

  advance-IsSafe :
      (p : Thread T) (db : Db T)
      → IsSafe p
      → P db
      → let (p', db', ms) = advance p db in IsSafe p' × P db'
  advance-IsSafe (returns r) db k h = (k, h)
  advance-IsSafe (reads f) db k h = (k db h, h)
  advance-IsSafe (writes f rest) db k h = let (a, b) = k db h in (b, a)
  advance-IsSafe (sends ms rest) db k h = (k, h)

  AllSafe-append : (ps qs : List (Thread T)) → AllSafe ps → AllSafe qs → AllSafe (ps ++ qs)
  AllSafe-append [] qs hp hq = hq
  AllSafe-append (p ∷ ps) qs hp hq = (hp.0, AllSafe-append ps qs hp.1 hq)

  AllSafe-split : (ps qs : List (Thread T)) → AllSafe (ps ++ qs) → AllSafe ps × AllSafe qs
  AllSafe-split [] qs h = (tt, h)
  AllSafe-split (p ∷ ps) qs h = let (a, b) = AllSafe-split ps qs h.1 in ((h.0, a), b)

  abbrev pub AreSafe : Shared T → Type 0
  AreSafe s = P s.db × AllSafe s.threads

  Step-AreSafe :
      {Starts : Thread T → Type 0} {s t : Shared T}
      → ((p : Thread T) → Starts p → IsSafe p)
      → Step Starts s t
      → AreSafe s
      → AreSafe t
  Step-AreSafe {s = s} safe (arrives p start) (h, k) =
      (h, AllSafe-append s.threads (p ∷ []) k (safe p start, tt))
  Step-AreSafe {s = s} safe (acts before after p e) (h, k) =
      let (left, right) = AllSafe-split before (p ∷ after) (subst AllSafe e k) in
      let (a, b) = advance-IsSafe p s.db right.0 h in (b, AllSafe-append before _ left (a, right.1))

  pub Interleaved-AreSafe :
      {Starts : Thread T → Type 0} {s t : Shared T}
      → ((p : Thread T) → Starts p → IsSafe p)
      → Interleaved Starts s t
      → AreSafe s
      → AreSafe t
  Interleaved-AreSafe safe here i = i
  Interleaved-AreSafe safe (next r step) i = Step-AreSafe safe step (Interleaved-AreSafe safe r i)

-- a value, an HTTPException, the sqlite3.IntegrityError of an INSERT that another thread has
-- overtaken, or the ValueError of a password that bcrypt refuses
abbrev pub is_expected : Outcome Value → Bool
is_expected (raised integrity_error) = true
is_expected (raised value_error) = true
is_expected r = is_handled r

module _ (C : Codec) where
  -- a valid file with documents that can be read
  abbrev pub IsGood : Db C.Text → Type 0
  IsGood db = IsValid db × IsReadable C db

  abbrev pub IsExpected : Outcome Value → Type 0
  IsExpected r = is_expected r ≡ true

  -- a thread that keeps the file good and answers as expected, whatever good file it meets
  pub record IsSafeThread (p : Thread C.Text) : Type 0 where
    pub at : IsSafe IsGood IsExpected p

pub is_handled-IsExpected : (r : Outcome Value) → is_handled r ≡ true → is_expected r ≡ true
is_handled-IsExpected (returned v) h = h
is_handled-IsExpected (raised integrity_error) h = refl
is_handled-IsExpected (raised value_error) h = refl
is_handled-IsExpected (raised x) h = ground (arith, h)

module _ (C : Codec) where
  pub Safe-returns : (r : Outcome Value) → IsExpected C r → IsSafeThread C (returns r)
  Safe-returns r h = record { at = h }

  pub Safe-reads :
      (f : Db C.Text → Thread C.Text)
      → ((db : Db C.Text) → IsGood C db → IsSafeThread C (f db))
      → IsSafeThread C (reads f)
  Safe-reads f h = record { at = λ db k. (h db k).at }

  pub Safe-writes :
      (f : Db C.Text → Outcome Value × Db C.Text) (rest : Outcome Value → Thread C.Text)
      → ((db : Db C.Text) → IsGood C db → IsGood C (f db).1)
      → ((db : Db C.Text) → IsGood C db → IsSafeThread C (rest (f db).0))
      → IsSafeThread C (writes f rest)
  Safe-writes f rest keeps follows = record { at = λ db k. (keeps db k, (follows db k).at) }

  pub Safe-sends :
      (ms : List (Message C.Text)) (rest : Thread C.Text)
      → IsSafeThread C rest
      → IsSafeThread C (sends ms rest)
  Safe-sends ms rest h = record { at = h.at }

  pub Safe-if :
      (b : Bool) (p q : Thread C.Text)
      → IsSafeThread C p
      → IsSafeThread C q
      → IsSafeThread C (if b then p else q)
  Safe-if true p q h k = h
  Safe-if false p q h k = k

pub ruleset safe_rules = (Safe-returns, Safe-reads, Safe-writes, Safe-sends, Safe-if)
