-- ===== src/Db/Threads/Schedule.antt =====
-- Interleavings that a list names: the numbers of the threads that act, one after the other.
use mathlib.Core.List.{append-nil}
use embediq_cloud.Prelude.{
  ℕ, zero, suc, ◌≡◌, refl, sym, ap, subst, ◌⊎◌, inl, inr, List, [], ◌∷◌, ◌++◌,
}
use embediq_cloud.Db.{Db}
use embediq_cloud.Mqtt.{Message}
use embediq_cloud.Db.Threads.{Thread, advance, Shared, acts, Interleaved, here, next}

module _ {T : Type 0} where
  -- the thread with the number acts; where there is none, nothing happens
  abbrev pub advance_at : ℕ → List (Thread T) → Db T → List (Thread T) × Db T × List (Message T)
  advance_at n [] db = ([], db, [])
  advance_at zero (p ∷ ps) db = let (p', db', ms) = advance p db in (p' ∷ ps, db', ms)
  advance_at (suc n) (p ∷ ps) db = let (qs, db', ms) = advance_at n ps db in (p ∷ qs, db', ms)

  abbrev pub act : ℕ → Shared T → Shared T
  act n s =
      let (ps, db, ms) = advance_at n s.threads s.db in
      record { db = db; sent = s.sent ++ ms; threads = ps }

  abbrev pub play : List ℕ → Shared T → Shared T
  play [] s = s
  play (n ∷ ns) s = play ns (act n s)

  -- nothing happens, or one thread acts between the others
  abbrev IsAction : List (Thread T) → Db T → List (Thread T) × Db T × List (Message T) → Type 0
  IsAction ps db r =
      (r ≡ (ps, db, []))
      ⊎ ((before : List (Thread T)) × (p : Thread T) × (after : List (Thread T)) × (ps
            ≡ before ++ p ∷ after)
          × (r ≡ (before ++ (advance p db).0 ∷ after, (advance p db).1, (advance p db).2)))

  behind :
      (q : Thread T) (ps : List (Thread T)) (db : Db T)
      (r : List (Thread T) × Db T × List (Message T))
      → IsAction ps db r
      → IsAction (q ∷ ps) db (q ∷ r.0, r.1, r.2)
  behind q ps db r (inl e) = inl (ap (λ x. (q ∷ x.0, x.1, x.2)) e)
  behind q ps db r (inr (before, p, after, e, f)) =
      inr (q ∷ before, p, after, ap (λ x. q ∷ x) e, ap (λ x. (q ∷ x.0, x.1, x.2)) f)

  advance_at-IsAction :
      (n : ℕ) (ps : List (Thread T)) (db : Db T) → IsAction ps db (advance_at n ps db)
  advance_at-IsAction n [] db = inl refl
  advance_at-IsAction zero (p ∷ ps) db = inr ([], p, ps, refl, refl)
  advance_at-IsAction (suc n) (p ∷ ps) db =
      behind p ps db (advance_at n ps db) (advance_at-IsAction n ps db)

  abbrev after_action : Shared T → List (Thread T) × Db T × List (Message T) → Shared T
  after_action s (ps, db, ms) = record { db = db; sent = s.sent ++ ms; threads = ps }

  IsAction-Interleaved :
      {Starts : Thread T → Type 0} (s t : Shared T) (r : List (Thread T) × Db T × List (Message T))
      → IsAction t.threads t.db r
      → Interleaved Starts s t
      → Interleaved Starts s (after_action t r)
  IsAction-Interleaved {Starts} s t r (inl e) i =
      subst (λ x. Interleaved Starts s (after_action t x)) (sym e)
        (subst (λ x. Interleaved Starts s (record t { sent = x })) (sym (append-nil t.sent)) i)
  IsAction-Interleaved {Starts} s t r (inr (before, p, after, e, f)) i =
      subst (λ x. Interleaved Starts s (after_action t x)) (sym f) (next i (acts before after p e))

  -- an interleaving that goes on with the threads of a list
  pub play_on :
      {Starts : Thread T → Type 0} (ns : List ℕ) (s t : Shared T)
      → Interleaved Starts s t
      → Interleaved Starts s (play ns t)
  play_on [] s t i = i
  play_on (n ∷ ns) s t i =
      play_on ns s (act n t) (IsAction-Interleaved s t _ (advance_at-IsAction n t.threads t.db) i)

  -- what a list names is an interleaving
  pub play-Interleaved :
      {Starts : Thread T → Type 0} (ns : List ℕ) (s : Shared T) → Interleaved Starts s (play ns s)
  play-Interleaved ns s = play_on ns s s here
