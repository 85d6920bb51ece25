-- ===== src/Builder/Alike/Results.antt =====
-- Results that are alike.
use pgpilot_operator.Base.{◌≡◌, refl, ap, Result, ok, err, ◌>>=◌, string_eq}
use pgpilot_operator.Base.Int.{int_eq}

-- The same error, or related values.
abbrev pub AlikeResult : {A : Type 0} → (A → A → Type 0) → Result A → Result A → Type 0
AlikeResult R (ok a) (ok b) = R a b
AlikeResult R (ok a) (err e) = ⊥
AlikeResult R (err e) (ok b) = ⊥
AlikeResult R (err e) (err f) = e ≡ f

pub bind-AlikeResult :
    {A B : Type 0} (R : A → A → Type 0) (r s : Result A) (f : A → Result B)
    → ((a b : A) → R a b → f a ≡ f b)
    → AlikeResult R r s
    → (r >>= f) ≡ (s >>= f)
bind-AlikeResult R (ok a) (ok b) f h alike = h a b alike
bind-AlikeResult R (ok a) (err e) f h alike = absurd alike
bind-AlikeResult R (err e) (ok b) f h alike = absurd alike
bind-AlikeResult R (err e) (err e') f h alike = ap err alike

pub then_alike :
    {A B : Type 0} (R : A → A → Type 0) (S : B → B → Type 0) (r s : Result A) (f g : A → B)
    → ((a b : A) → R a b → S (f a) (g b))
    → AlikeResult R r s
    → AlikeResult S (r >>= λ a. ok (f a)) (s >>= λ b. ok (g b))
then_alike R S (ok a) (ok b) f g h alike = h a b alike
then_alike R S (ok a) (err e) f g h alike = alike
then_alike R S (err e) (ok b) f g h alike = alike
then_alike R S (err e) (err e') f g h alike = alike

pub after_same :
    {A B : Type 0} (R : B → B → Type 0) (r : Result A) (f g : A → Result B)
    → ((a : A) → AlikeResult R (f a) (g a))
    → AlikeResult R (r >>= f) (r >>= g)
after_same R (ok a) f g h = h a
after_same R (err e) f g h = refl
