-- ===== src/Routes/Reached.antt =====
-- Each route is reached by the paths of its pattern, whatever stands before it in the list.
use Prim.Native.Char.{code}
use mathlib.Core.List.{Memᴰ}
use embediq_cloud.Prelude.{
  has_feed, String, ◌==◌, eq_iff, ◌≡◌, ◌≢◌, refl, sym, ap, subst, ◌∙◌, Bool, Bool-cases, true,
  false, not, ◌||◌, ◌&&◌, Option-cases, none, some, List, [], ◌∷◌, arith, nat_eq, split, join,
  split-NoSlash, split-append, split-ne-nil, NoSlash, AllNoSlash, inl, inr,
}
use embediq_cloud.Routes.Patterns.{
  Segment, literal, parameter, segment, segments_of, segments, ArePlain, FitsSegments, Fits, filled,
  filled_path,
}
use embediq_cloud.Routes.{Method, method_eq, Handler, Route, Router, routes, dispatch}

-- two patterns that differ at a literal, or in length
apart : List Segment → List Segment → Bool
apart [] [] = false
apart [] (y ∷ q) = true
apart (x ∷ p) [] = true
apart (literal s ∷ p) (literal t ∷ q) = not (s == t) || apart p q
apart (x ∷ p) (y ∷ q) = apart p q

heads : {s t : String} {p q : List String} → s ∷ p ≡ t ∷ q → s ≡ t
heads e = cc

apart-filled :
    (p q : List Segment) (a b : List String)
    → FitsSegments p a
    → FitsSegments q b
    → apart p q ≡ true
    → filled p a ≢ filled q b
unfolding apart
apart-filled [] [] a b h k e f = cc
apart-filled [] (literal t ∷ q) a b h k e f = cc
apart-filled [] (parameter ∷ q) a (y ∷ b) h k e f = cc
apart-filled (literal s ∷ p) [] a b h k e f = cc
apart-filled (parameter ∷ p) [] (x ∷ a) b h k e f = cc
apart-filled (literal s ∷ p) (literal t ∷ q) a b h k e f = elim (Bool-cases (s == t)) [
  | inl g ↦ apart-filled p q a b h k (ground (arith, e, g)) cc
  | inr g ↦ ground (arith, g, eq_iff s t, heads f)
]
apart-filled (literal s ∷ p) (parameter ∷ q) a (y ∷ b) h k e f = apart-filled p q a b h k.1 e cc
apart-filled (parameter ∷ p) (literal t ∷ q) (x ∷ a) b h k e f = apart-filled p q a b h.1 k e cc
apart-filled (parameter ∷ p) (parameter ∷ q) (x ∷ a) (y ∷ b) h k e f =
    apart-filled p q a b h.1 k.1 e cc
apart-filled [] (parameter ∷ q) a [] h k e f = absurd k
apart-filled (literal s ∷ p) (parameter ∷ q) a [] h k e f = absurd k
apart-filled (parameter ∷ p) [] [] b h k e f = absurd h
apart-filled (parameter ∷ p) (literal t ∷ q) [] b h k e f = absurd h
apart-filled (parameter ∷ p) (parameter ∷ q) [] b h k e f = absurd h
apart-filled (parameter ∷ p) (parameter ∷ q) (x ∷ a) [] h k e f = absurd k

split-plain : (s : String) → NoSlash s → split s ≡ s ∷ []
split-plain String.[] h = refl
split-plain (String.◌∷◌ c s) h = rw (h.0) (rw (split-plain s h.1) refl)

split-join : (s : String) (ss : List String) → AllNoSlash (s ∷ ss) → split (join (s ∷ ss)) ≡ s ∷ ss
split-join s [] h = split-plain s h.0
split-join s (t ∷ ss) h = split-append s (join (t ∷ ss)) h.0 ∙ ap (λ x. s ∷ x) (split-join t ss h.1)

-- the literals hold no slash
LiteralsNoSlash : List Segment → Type 0
LiteralsNoSlash [] = Unit
LiteralsNoSlash (literal s ∷ p) = NoSlash s × LiteralsNoSlash p
LiteralsNoSlash (parameter ∷ p) = LiteralsNoSlash p

segments_of-LiteralsNoSlash : (ss : List String) → AllNoSlash ss → LiteralsNoSlash (segments_of ss)
unfolding LiteralsNoSlash
segments_of-LiteralsNoSlash [] h = tt
segments_of-LiteralsNoSlash (String.[] ∷ ss) h = (tt, segments_of-LiteralsNoSlash ss h.1)
segments_of-LiteralsNoSlash (String.◌∷◌ c s ∷ ss) h = elim (Bool-cases (nat_eq (code c) b'{')) [
  | inl e ↦ rw e (segments_of-LiteralsNoSlash ss h.1)
  | inr e ↦ rw e (h.0, segments_of-LiteralsNoSlash ss h.1)
]

filled-AllNoSlash :
    (p : List Segment) (a : List String)
    → LiteralsNoSlash p
    → FitsSegments p a
    → AllNoSlash (filled p a)
unfolding LiteralsNoSlash
filled-AllNoSlash [] a h k = tt
filled-AllNoSlash (literal s ∷ p) a h k = (h.0, filled-AllNoSlash p a h.1 k)
filled-AllNoSlash (parameter ∷ p) [] h k = tt
filled-AllNoSlash (parameter ∷ p) (x ∷ a) h k = (k.0.1, filled-AllNoSlash p a h k.1)

-- a path has a segment for each segment of its pattern
split-filled_path-from :
    (ss args : List String)
    → ss ≢ []
    → AllNoSlash ss
    → FitsSegments (segments_of ss) args
    → split (join (filled (segments_of ss) args)) ≡ filled (segments_of ss) args
split-filled_path-from [] args ne h k = absurd (ne refl)
split-filled_path-from (s ∷ ss) args ne h k =
    split-cons (segment s) (segments_of ss) args
      (filled-AllNoSlash (segments_of (s ∷ ss)) args (segments_of-LiteralsNoSlash (s ∷ ss) h) k) k
  where
    split-cons :
        (x : Segment) (p : List Segment) (a : List String)
        → AllNoSlash (filled (x ∷ p) a)
        → FitsSegments (x ∷ p) a
        → split (join (filled (x ∷ p) a)) ≡ filled (x ∷ p) a
    split-cons (literal t) p a h k = split-join t (filled p a) h
    split-cons parameter p [] h k = absurd k
    split-cons parameter p (y ∷ a) h k = split-join y (filled p a) h

pub split-filled_path :
    (pattern : String) (args : List String)
    → Fits pattern args
    → split (filled_path pattern args) ≡ filled (segments pattern) args
split-filled_path pattern args k =
    split-filled_path-from (split pattern) args (split-ne-nil pattern) (split-NoSlash pattern) k

apart-paths :
    (p q : String) (a b : List String)
    → Fits p a
    → Fits q b
    → apart (segments p) (segments q) ≡ true
    → filled_path p a ≢ filled_path q b
apart-paths p q a b h k e f =
    apart-filled (segments p) (segments q) a b h k e
      (sym (split-filled_path p a h) ∙ ap split f ∙ split-filled_path q b k)

-- two routes that no request can both match
distinct : Route → Route → Bool
unfolding apart
distinct r q = not (method_eq r.method q.method) || apart (segments r.path) (segments q.path)

all_distinct_from : Route → List Route → Bool
unfolding distinct
all_distinct_from r [] = true
all_distinct_from r (q ∷ rs) = distinct r q && all_distinct_from r rs

all_distinct : List Route → Bool
unfolding all_distinct_from
all_distinct [] = true
all_distinct (r ∷ rs) = all_distinct_from r rs && all_distinct rs

routes-all_distinct : all_distinct routes ≡ true
unfolding all_distinct all_distinct_from distinct apart routes
routes-all_distinct = refl

distinct-of_mem :
    (r q : Route) (rs : List Route)
    → all_distinct_from r rs ≡ true
    → Memᴰ q rs
    → distinct r q ≡ true
unfolding all_distinct_from
distinct-of_mem r q [] e m = elim m [ ]
distinct-of_mem r q (x ∷ rs) e (Memᴰ.head f) =
    subst (λ y. distinct r y ≡ true) (sym f) (ground (arith, e))
distinct-of_mem r q (x ∷ rs) e (Memᴰ.tail m) = distinct-of_mem r q rs (ground (arith, e)) m

method_eq_refl : (m : Method) → method_eq m m ≡ true
method_eq_refl m = ground arith

module _ (R : Router) where
  -- a route before it does not match
  not-matched :
      (r q : Route) (args : List String)
      → distinct r q ≡ true
      → method_eq r.method q.method ≡ true
      → Fits q.path args
      → has_feed (filled_path q.path args) ≡ false
      → R.match r.path (filled_path q.path args) ≡ none
  unfolding distinct
  not-matched r q args e same k feed =
      elim (Option-cases (R.match r.path (filled_path q.path args))) [
        | inl n ↦ n
        | inr (a, n) ↦
            let (h, f) = R.filled-match r.path (filled_path q.path args) a feed n in
            absurd (apart-paths r.path q.path a args h k (ground (arith, e, same)) (sym f))
      ]

  dispatch-of_mem :
      (rs : List Route) (q : Route) (args : List String)
      → all_distinct rs ≡ true
      → Memᴰ q rs
      → Fits q.path args
      → has_feed (filled_path q.path args) ≡ false
      → dispatch R rs q.method (filled_path q.path args) ≡ some (q.handler, args)
  unfolding dispatch all_distinct
  dispatch-of_mem [] q args e m k feed = elim m [ ]
  dispatch-of_mem (r ∷ rs) q args e (Memᴰ.head f) k feed =
      subst (λ x. dispatch R (x ∷ rs) q.method (filled_path q.path args) ≡ some (q.handler, args)) f
        (ground (arith, method_eq_refl q.method, R.match-filled q.path args k))
  dispatch-of_mem (r ∷ rs) q args e (Memᴰ.tail m) k feed =
      let rest = dispatch-of_mem rs q args (ground (arith, e)) m k feed in
      elim (Bool-cases (method_eq r.method q.method)) [
        | inl same ↦ ground (
          arith,
          same,
          rest,
          not-matched r q args (distinct-of_mem r q rs (ground (arith, e)) m) same k feed,
        )
        | inr other ↦ ground (arith, other, rest)
      ]

  -- A request with the method of a route and its path, each parameter replaced by a text that is not
  -- empty and holds no slash, the path without a line feed, reaches the function of that route with
  -- these texts: no other route of the application takes it.
  pub routes_reached :
      (q : Route) (args : List String)
      → Memᴰ q routes
      → Fits q.path args
      → has_feed (filled_path q.path args) ≡ false
      → dispatch R routes q.method (filled_path q.path args) ≡ some (q.handler, args)
  routes_reached q args m = dispatch-of_mem routes q args routes-all_distinct m

  dispatch-ArePlain_from :
      (rs : List Route) (method : Method) (path : String) (h : Handler) (args : List String)
      → dispatch R rs method path ≡ some (h, args)
      → ArePlain args
  unfolding dispatch
  dispatch-ArePlain_from [] method path h args e = cc
  dispatch-ArePlain_from (r ∷ rs) method path h args e =
      let rest = dispatch-ArePlain_from rs method path h args in
      elim (Bool-cases (method_eq r.method method)) [
        | inl same ↦ elim (Option-cases (R.match r.path path)) [
          | inl n ↦ rest (ground (arith, e, same, n))
          | inr (a, n) ↦ R.match-ArePlain r.path path args (ground (arith, e, same, n))
        ]
        | inr other ↦ rest (ground (arith, e, other))
      ]

  -- Whatever the method and the path, no argument of a path is empty or holds a slash.
  pub dispatch-ArePlain :
      (method : Method) (path : String) (h : Handler) (args : List String)
      → dispatch R routes method path ≡ some (h, args)
      → ArePlain args
  dispatch-ArePlain = dispatch-ArePlain_from routes
