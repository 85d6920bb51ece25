-- ===== src/Builder/Hash/Canonical.antt =====
-- What `contentHash` tells apart: the text that it digests stands for the map, whatever the order in
-- which Go's `range` meets the entries.
use Prim.Native.Char.{nul as nul_char}
use text.Mathlib.TextLemmas.{nil-append, cons-append}
use mathlib.Core.Path.{subst, ap₂}
use mathlib.Core.List.{Memᴰ}
use mathlib.Core.List.Memᴰ
use mathlib.Core.HLevel.{hedberg}
use mathlib.Core.Quot
use mathlib.Core.Quot.{Quot}
use pgpilot_operator.Base.{
  String, ◌<>◌, ◌≡◌, ◌≢◌, refl, sym, ◌∙◌, ap, ◌↔◌, inl, inr, Option, none, some, List, [], ◌∷◌,
  string_eq,
}
use pgpilot_operator.Base.Dict.{Dict, lookup, NodupKeys, Same}
use pgpilot_operator.Builder.Hash.{nul, sort_strings, keys, text_at, encode, hashed}
use pgpilot_operator.Builder.Hash.Injective.{IsNulFree, nul-cons, terminated_inj}
use pgpilot_operator.Builder.Hash.Sorted.{sort_keys-Same, Has, sorted_keys_iff}

terminated_not-empty : (k x : String) → k <> String.◌∷◌ nul_char x ≢ ""
terminated_not-empty String.[] x e = cc (e, nil-append (String.◌∷◌ nul_char x))
terminated_not-empty (String.◌∷◌ c k) x e = cc (e, cons-append c k (String.◌∷◌ nul_char x))

encode-Same : (c d : Dict String String) (ks : List String) → Same c d → encode c ks ≡ encode d ks
unfolding encode
encode-Same c d [] same = refl
encode-Same c d (k ∷ ks) same =
    rw (same.at k)
      (ap (λ x. k <> (nul <> (text_at (lookup k d) <> (nul <> x)))) (encode-Same c d ks same))

-- No key and no value under one of the keys holds a NUL character.
abbrev FreeAt : Dict String String → List String → Type 0
FreeAt d ks = (k : String) → Memᴰ k ks → IsNulFree k × IsNulFree (text_at (lookup k d))

-- The two texts that an entry begins with can be told apart from what follows.
entry_inj :
    (j k s t x y : String)
    → IsNulFree j
    → IsNulFree k
    → IsNulFree s
    → IsNulFree t
    → j <> (nul <> (s <> (nul <> x))) ≡ k <> (nul <> (t <> (nul <> y)))
    → (j ≡ k) × (s ≡ t) × (x ≡ y)
entry_inj j k s t x y hj hk hs ht e =
    let (p, q) =
      terminated_inj j k (s <> (nul <> x)) (t <> (nul <> y)) hj hk
        (ap (λ z. j <> z) (sym (nul-cons _)) ∙ e ∙ ap (λ z. k <> z) (nul-cons _)) in
    let (r, u) =
      terminated_inj s t x y hs ht
        (ap (λ z. s <> z) (sym (nul-cons _)) ∙ q ∙ ap (λ z. t <> z) (nul-cons _)) in
    (p, r, u)

encode_inj :
    (c d : Dict String String) (ks ls : List String)
    → FreeAt c ks
    → FreeAt d ls
    → encode c ks ≡ encode d ls
    → (ks ≡ ls) × ((k : String) → Memᴰ k ks → text_at (lookup k c) ≡ text_at (lookup k d))
unfolding encode
encode_inj c d [] [] f g e = (refl, λ k m. absurd (Memᴰ.not-nil m))
encode_inj c d [] (l ∷ ls) f g e =
    absurd (terminated_not-empty l _ (ap (λ z. l <> z) (sym (nul-cons _)) ∙ sym e))
encode_inj c d (k ∷ ks) [] f g e =
    absurd (terminated_not-empty k _ (ap (λ z. k <> z) (sym (nul-cons _)) ∙ e))
encode_inj c d (k ∷ ks) (l ∷ ls) f g e =
    let (hk, hs) = f k (Memᴰ.head refl) in
    let (hl, ht) = g l (Memᴰ.head refl) in
    let (p, q, r) = entry_inj k l (text_at (lookup k c)) (text_at (lookup l d)) _ _ hk hl hs ht e in
    let (same, at) = encode_inj c d ks ls (λ j m. f j (Memᴰ.tail m)) (λ j m. g j (Memᴰ.tail m)) r in
    (ap₂ ◌∷◌ p same, λ j m. elim (Memᴰ.cases_cons m) [ inl h ↦ cc | inr n ↦ at j n ])

-- The data of a ConfigMap as the loops meet it. Each key is there once, as in every map, and no key
-- and no text holds a NUL character.
pub record Data : Type 0 where
  pub entries : Dict String String
  pub nodup : NodupKeys entries
  pub nul_free : (k v : String) → lookup k entries ≡ some v → IsNulFree k × IsNulFree v

abbrev pub SameData : Data → Data → Type 0
SameData c d = Same c.entries d.entries

-- The Go map itself, which has no order.
abbrev pub GoMap : Type 0
GoMap = Quot SameData

abbrev pub go_map : Data → GoMap
go_map d = Quot.mk d

-- Two listings of one map are hashed from the same text.
pub hashed-listed :
    (c d : Dict String String) → NodupKeys c → NodupKeys d → Same c d → hashed c ≡ hashed d
unfolding hashed
hashed-listed c d u w same =
    ap (encode c) (sort_keys-Same c d u w same) ∙ encode-Same c d (sort_strings (keys d)) same

hashed-Same : (c d : Data) → SameData c d → hashed c.entries ≡ hashed d.entries
hashed-Same c d same = hashed-listed c.entries d.entries c.nodup d.nodup same

-- So the text is one of the map.
unfoldable hashed_text : GoMap → String
hashed_text = Quot.lift (hedberg string_eq.dec) (λ (d : Data). hashed d.entries) hashed-Same

free_at : (d : Data) → FreeAt d.entries (sort_strings (keys d.entries))
free_at d k m =
    let (v, e) = (sorted_keys_iff k d.entries).0 m in let (p, q) = d.nul_free k v e in (p, rw e q)

hashed_inj : (c d : Data) → hashed c.entries ≡ hashed d.entries → SameData c d
unfolding hashed
hashed_inj c d e =
    let (same, at) =
      encode_inj c.entries d.entries (sort_strings (keys c.entries)) (sort_strings (keys d.entries))
        (free_at c) (free_at d) e in
    record {
      at = λ k.
          go k (lookup k c.entries) refl (lookup k d.entries) refl
            (λ h.
              (sorted_keys_iff k d.entries).0
                (subst (Memᴰ k) same ((sorted_keys_iff k c.entries).1 h)))
            (λ h.
              (sorted_keys_iff k c.entries).0
                (subst (Memᴰ k) (sym same) ((sorted_keys_iff k d.entries).1 h)))
            (λ h. at k ((sorted_keys_iff k c.entries).1 h));
    }
  where
    go :
        (k : String) (o : Option String)
        → lookup k c.entries ≡ o
        → (p : Option String) → lookup k d.entries ≡ p
        → (Has k c.entries → Has k d.entries)
        → (Has k d.entries → Has k c.entries)
        → (Has k c.entries → text_at (lookup k c.entries) ≡ text_at (lookup k d.entries))
        → lookup k c.entries ≡ lookup k d.entries
    go k none e none q f g h = e ∙ sym q
    go k none e (some w) q f g h = let (v, r) = g (w, q) in cc
    go k (some v) e none q f g h = let (w, r) = f (v, e) in cc
    go k (some v) e (some w) q f g h = let r = h (v, e) in e ∙ ap some (rw (e, q) at r) ∙ sym q

-- Two maps are hashed from the same text exactly if they are the same map, whatever the order in
-- which `contentHash` meets their entries. Here a map has each key once, and no key and no value
-- holds a NUL character.
pub hashed-GoMap_iff : (c d : Data) → (hashed c.entries ≡ hashed d.entries) ↔ (go_map c ≡ go_map d)
unfolding hashed_text
hashed-GoMap_iff c d = (λ e. Quot.sound (hashed_inj c d e), λ e. ap hashed_text e)
