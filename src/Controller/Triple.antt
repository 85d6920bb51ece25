-- ===== src/Controller/Triple.antt =====
-- A program logic over the requests that an action sends: a triple also says that it does not panic.
pub mod Status
use pgpilot_operator.Base.{
  String, ◌≢◌, ◌≡◌, refl, ap, Bool, true, false, Option, none, some, List, [], ◌∷◌, ◌++◌, Error,
  Result, ok, err, if◌then◌else◌,
}
use pgpilot_operator.Controller.Cluster.{Cluster}
use pgpilot_operator.Controller.Session.{
  Session, Request, Answer, done, failed, panic, M, pure, raise, lift, or_panic, call, attempt,
  in_context, send, clock, answer, outcome, wrapped, continue, ◌>>=◌,
}

abbrev pub Assertion : Type 1
Assertion = List Request → Type 0

abbrev pub Post : {A : Type 0} → (A → Assertion) → Assertion → Answer A → Assertion
Post Q E (done a) l = Q a l
Post Q E (failed e) l = E l
Post Q E panic l = ⊥

pub Post-map :
    {A : Type 0} (Q R : A → Assertion) (E F : Assertion) (a : Answer A) (l : List Request)
    → ((x : A) → Q x l → R x l)
    → (E l → F l)
    → Post Q E a l
    → Post R F a l
Post-map Q R E F (done x) l h k p = h x p
Post-map Q R E F (failed e) l h k p = k p
Post-map Q R E F panic l h k p = p

-- An assertion that holds of the requests however a run ends, unless it panics.
pub Post-always :
    {A : Type 0} (Q : A → Assertion) (E : Assertion) (P : Type 0) (a : Answer A) (l : List Request)
    → ((x : A) → Q x l → P)
    → (E l → P)
    → Post Q E a l
    → P
Post-always Q E P (done x) l h k p = h x p
Post-always Q E P (failed e) l h k p = k p
Post-always Q E P panic l h k p = absurd p

-- The API server may answer `a`.
abbrev pub Fetched : {W A : Type 0} → (W → Result A × W) → A → Type 0
Fetched {W} f a = (w : W) × ((f w).0 ≡ ok a)

-- The API server may answer the error.
abbrev pub Refused : {W A : Type 0} → (W → Result A × W) → Error → Type 0
Refused {W} f e = (w : W) × ((f w).0 ≡ err e)

-- What the API server may answer.
abbrev pub Answered : {W A : Type 0} → (W → Result A × W) → Result A → Type 0
Answered f (ok a) = Fetched f a
Answered f (err e) = Refused f e

-- From requests that satisfy `P`, the action returns a value with `Q` or an error with `E`.
pub record Triple {C : Cluster} {A : Type 0} (P : Assertion) (m : M C A) (Q : A → Assertion)
    (E : Assertion) : Type 0 where
  pub at : (s : Session C) → P s.requests → Post Q E (m s).0 (m s).1.requests

module _ {C : Cluster} {A : Type 0} {P : Assertion} {Q : A → Assertion} {E : Assertion} where
  pub Triple-pure : (a : A) → ((l : List Request) → P l → Q a l) → Triple {C = C} P (pure a) Q E
  unfolding pure
  Triple-pure a h = record { at = λ s p. h s.requests p }

  pub Triple-raise : (e : Error) → ((l : List Request) → P l → E l) → Triple {C = C} P (raise e) Q E
  unfolding raise
  Triple-raise e h = record { at = λ s p. h s.requests p }

  pub Triple-lift :
      (r : Result A)
      → ((a : A) → r ≡ ok a → (l : List Request) → P l → Q a l)
      → ((e : Error) → r ≡ err e → (l : List Request) → P l → E l)
      → Triple {C = C} P (lift r) Q E
  unfolding lift
  Triple-lift (ok a) h k = record { at = λ s p. h a refl s.requests p }
  Triple-lift (err e) h k = record { at = λ s p. k e refl s.requests p }

  pub Triple-or_panic :
      (o : Option A)
      → o ≢ none
      → ((a : A) → o ≡ some a → (l : List Request) → P l → Q a l)
      → Triple {C = C} P (or_panic o) Q E
  unfolding or_panic
  Triple-or_panic none h k = absurd (h refl)
  Triple-or_panic (some a) h k = record { at = λ s p. k a refl s.requests p }

  -- A call sends what was recorded before, so the requests stay.
  pub Triple-call :
      (f : C.World → Result A × C.World)
      → ((a : A) (l : List Request) → P l → Q a l)
      → ((l : List Request) → P l → E l)
      → Triple P (call {C = C} f) Q E
  unfolding call
  Triple-call f h k = record { at = λ s p. let (r, w) = f s.world in go r s.requests p }
    where
      go : (r : Result A) (l : List Request) → P l → Post Q E (answer r) l
      go (ok a) l p = h a l p
      go (err e) l p = k l p

  -- What the call answered, from the world that it found.
  pub Triple-fetch :
      (f : C.World → Result A × C.World)
      → ((a : A) → Fetched f a → (l : List Request) → P l → Q a l)
      → ((e : Error) → Refused f e → (l : List Request) → P l → E l)
      → Triple P (call {C = C} f) Q E
  unfolding call
  Triple-fetch f h k = record {
    at = λ s p. let (r, w) = f s.world in go (f s.world) refl s.requests p;
  }
    where
      go :
          {w : C.World} (out : Result A × C.World)
          → f w ≡ out
          → (l : List Request) → P l
          → Post Q E (answer out.0) l
      go {w} (ok a, w') e l p = h a (w, ap (λ o. o.0) e) l p
      go {w} (err e, w') q l p = k e (w, ap (λ o. o.0) q) l p

  pub Triple-weaken :
      {P' : Assertion} {Q' : A → Assertion} {E' : Assertion} (m : M C A)
      → ((l : List Request) → P l → P' l)
      → ((a : A) (l : List Request) → Q' a l → Q a l)
      → ((l : List Request) → E' l → E l)
      → Triple P' m Q' E'
      → Triple P m Q E
  Triple-weaken {P'} {Q'} {E'} m hp hq he t = record {
    at = λ s p. let (a, s') = m s in go a s'.requests (t.at s (hp s.requests p));
  }
    where
      go : (a : Answer A) (l : List Request) → Post Q' E' a l → Post Q E a l
      go (done a) l q = hq a l q
      go (failed e) l q = he l q
      go panic l q = q

  pub Triple-if :
      (b : Bool) (m n : M C A)
      → (b ≡ true → Triple P m Q E)
      → (b ≡ false → Triple P n Q E)
      → Triple P (if b then m else n) Q E
  Triple-if true m n h k = h refl
  Triple-if false m n h k = k refl

  pub Triple-in_context :
      (prefix : String) (m : M C A) → Triple P m Q E → Triple P (in_context prefix m) Q E
  unfolding in_context
  Triple-in_context prefix m t = record {
    at = λ s p. let (a, s') = m s in go a s'.requests (t.at s p);
  }
    where
      go : (a : Answer A) (l : List Request) → Post Q E a l → Post Q E (wrapped prefix a) l
      go (done a) l q = q
      go (failed e) l q = q
      go panic l q = q

module _ {C : Cluster} {A : Type 0} {Q : A → Assertion} {E : Assertion} where
  -- A value or a fact that the precondition carries.
  pub Triple-given :
      {X : Type 0} {P : X → Assertion} (m : M C A)
      → ((x : X) → Triple (P x) m Q E)
      → Triple (λ l. (x : X) × P x l) m Q E
  Triple-given m h = record { at = λ s p. (h p.0).at s p.1 }

module _ {C : Cluster} {A : Type 0} {P : Assertion} {E : Assertion} where
  pub Triple-attempt :
      {F : Assertion} {R : Result A → Assertion} (m : M C A)
      → Triple P m (λ a. R (ok a)) F
      → ((e : Error) (l : List Request) → F l → R (err e) l)
      → Triple P (attempt m) R E
  unfolding attempt
  Triple-attempt {F} {R} m t h = record {
    at = λ s p. let (a, s') = m s in go a s'.requests (t.at s p);
  }
    where
      go : (a : Answer A) (l : List Request) → Post (λ b. R (ok b)) F a l → Post R E (outcome a) l
      go (done a) l q = q
      go (failed e) l q = h e l q
      go panic l q = q

  -- A call of which the error is a value, too.
  pub Triple-attempt-call :
      {R : Result A → Assertion} (f : C.World → Result A × C.World)
      → ((a : A) → Fetched f a → (l : List Request) → P l → R (ok a) l)
      → ((e : Error) → Refused f e → (l : List Request) → P l → R (err e) l)
      → Triple P (attempt (call {C = C} f)) R E
  unfolding attempt call
  Triple-attempt-call {R} f h k = record { at = λ s p. go (f s.world) refl s.requests p }
    where
      go :
          {w : C.World} (out : Result A × C.World)
          → f w ≡ out
          → (l : List Request) → P l
          → Post R E (outcome (answer out.0)) l
      go {w} (ok a, w') q l p = h a (w, ap (λ o. o.0) q) l p
      go {w} (err e, w') q l p = k e (w, ap (λ o. o.0) q) l p

  -- The same, with what was answered kept.
  pub Triple-read :
      (f : C.World → Result A × C.World)
      → Triple P (attempt (call {C = C} f)) (λ r l. Answered f r × P l) E
  Triple-read f = Triple-attempt-call f (λ a r l p. (r, p)) (λ e r l p. (r, p))

module _ {C : Cluster} {A B : Type 0} {P : Assertion} {Q : B → Assertion} {E : Assertion} where
  pub Triple-bind :
      {R : A → Assertion} (m : M C A) (f : A → M C B)
      → Triple P m R E
      → ((a : A) → Triple (R a) (f a) Q E)
      → Triple P (m >>= f) Q E
  unfolding ◌>>=◌
  Triple-bind {R} m f t h = record { at = λ s p. let (a, s') = m s in go a s' (t.at s p) }
    where
      go :
          (a : Answer A) (s : Session C)
          → Post R E a s.requests
          → Post Q E (continue a f s).0 (continue a f s).1.requests
      go (done a) s r = (h a).at s r
      go (failed e) s r = r
      go panic s r = r

module _ {C : Cluster} {P : Assertion} {E : Assertion} where
  pub Triple-send :
      (r : Request) {Q : Unit {0} → Assertion}
      → ((l : List Request) → P l → Q tt (l ++ r ∷ []))
      → Triple {C = C} P (send r) Q E
  unfolding send
  Triple-send r h = record { at = λ s p. h s.requests p }

  pub Triple-clock : Triple {C = C} P clock (λ _. P) E
  unfolding clock
  Triple-clock = record { at = λ s p. p }
