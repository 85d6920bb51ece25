-- ===== src/Builder/Hash/Injective.antt =====
-- Texts that end in NUL, as the loop of `contentHash` writes them, can be told apart.
use Prim.Native.Char.{nul as nul_char}
use text.Mathlib.TextLemmas.{nil-append, cons-append, head-eq_of_cons-eq, tail-eq_of_cons-eq}
use mathlib.Core.Path.{ap₂}
use pgpilot_operator.Base.{String, ◌<>◌, ◌≡◌, refl, ◌≢◌, sym, ◌∙◌, ap}
use pgpilot_operator.Builder.Hash.{nul}

-- The text holds no NUL character.
abbrev pub IsNulFree : String → Type 0
IsNulFree String.[] = Unit
IsNulFree (String.◌∷◌ c s) = (c ≢ nul_char) × IsNulFree s

pub nul-cons : (x : String) → nul <> x ≡ String.◌∷◌ nul_char x
nul-cons x = cons-append nul_char String.[] x ∙ ap (String.◌∷◌ nul_char) (nil-append x)

-- A terminated text ends at its first NUL.
pub terminated_inj :
    (s t x y : String)
    → IsNulFree s
    → IsNulFree t
    → s <> String.◌∷◌ nul_char x ≡ t <> String.◌∷◌ nul_char y
    → (s ≡ t) × (x ≡ y)
terminated_inj String.[] String.[] x y hs ht e =
    (refl, tail-eq_of_cons-eq (rw (nil-append, nil-append) at e))
terminated_inj String.[] (String.◌∷◌ c t) x y hs ht e =
    absurd (ht.0 (sym (head-eq_of_cons-eq (rw (nil-append, cons-append) at e))))
terminated_inj (String.◌∷◌ c s) String.[] x y hs ht e =
    absurd (hs.0 (head-eq_of_cons-eq (rw (nil-append, cons-append) at e)))
terminated_inj (String.◌∷◌ c s) (String.◌∷◌ d t) x y hs ht e =
    let f = rw (cons-append, cons-append) at e in
    let (p, q) = terminated_inj s t x y hs.1 ht.1 (tail-eq_of_cons-eq f) in
    (ap₂ String.◌∷◌ (head-eq_of_cons-eq f) p, q)
