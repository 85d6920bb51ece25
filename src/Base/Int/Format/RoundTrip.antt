-- ===== src/Base/Int/Format/RoundTrip.antt =====
-- A number that is printed by `decimal` is read back by `atoi`.
use text.Mathlib.TextLemmas.{
  nil-append, cons-append, append_assoc, append-nil, append-ne-nil_of_right_ne-nil, cons-ne-nil,
}
use Prim.Native.Char.{Char, code}
use pgpilot_operator.Base.{
  ℕ, zero, suc, ◌+◌, ◌*◌, ◌/◌, ◌%◌, ◌≤◌, ◌<◌, String, ◌<>◌, ◌≡◌, refl, sym, ◌∙◌, ap, Bool-cases,
  inl, inr, some, ltb, arith, ◌≢◌,
}
use pgpilot_operator.Base.Int.{ℤ, pos, negsuc}
use pgpilot_operator.Base.Int.Format.{
  decimal, atoi, digit, digits, scan, in_range, signed, negate, some_digits,
}

-- The numbers of a 64-bit int.
abbrev pub InRange : ℤ → Type 0
InRange (pos n) = n ≤ 9223372036854775807
InRange (negsuc n) = n ≤ 9223372036854775807

digit_char : (d : ℕ) → d < 10 → (c : Char) × (digit d ≡ String.◌∷◌ c "") × (code c ≡ 48 + d)
unfolding digit
digit_char zero h = ("0", refl, refl)
digit_char (suc zero) h = ("1", refl, refl)
digit_char (suc (suc zero)) h = ("2", refl, refl)
digit_char (suc (suc (suc zero))) h = ("3", refl, refl)
digit_char (suc (suc (suc (suc zero)))) h = ("4", refl, refl)
digit_char (suc (suc (suc (suc (suc zero))))) h = ("5", refl, refl)
digit_char (suc (suc (suc (suc (suc (suc zero)))))) h = ("6", refl, refl)
digit_char (suc (suc (suc (suc (suc (suc (suc zero))))))) h = ("7", refl, refl)
digit_char (suc (suc (suc (suc (suc (suc (suc (suc zero)))))))) h = ("8", refl, refl)
digit_char (suc (suc (suc (suc (suc (suc (suc (suc (suc zero))))))))) h = ("9", refl, refl)
digit_char (suc (suc (suc (suc (suc (suc (suc (suc (suc (suc d)))))))))) h = absurd (omega arith)

scan-char :
    (c : Char) (d k : ℕ) (rest : String)
    → d < 10
    → code c ≡ 48 + d
    → scan k (String.◌∷◌ c rest) ≡ scan (k * 10 + d) rest
unfolding scan
scan-char c d k rest h e = ground arith

scan-digit : (d k : ℕ) (rest : String) → d < 10 → scan k (digit d <> rest) ≡ scan (k * 10 + d) rest
scan-digit d k rest h =
    let (c, e, f) = digit_char d h in
    ap (λ s. scan k (s <> rest)) e
    ∙ ap (scan k) (cons-append c "" rest ∙ ap (String.◌∷◌ c) (nil-append rest))
    ∙ scan-char c d k rest h f

scan-digits : (fuel n : ℕ) (rest : String) → n < fuel → scan 0 (digits fuel n <> rest) ≡ scan n rest
unfolding digits
scan-digits zero n rest h = absurd (omega arith)
scan-digits (suc fuel) n rest h = elim (Bool-cases (ltb n 10)) [
  | inl small ↦
      rw (digits, small) (scan-digit n 0 rest (ground arith) ∙ ap (λ k. scan k rest) (omega arith))
  | inr large ↦
      rw (digits, large)
        (ap (scan 0) (append_assoc (digits fuel (n / 10)) (digit (n % 10)) rest)
          ∙ scan-digits fuel (n / 10) (digit (n % 10) <> rest) (ground arith)
          ∙ scan-digit (n % 10) (n / 10) rest (omega arith)
          ∙ ap (λ k. scan k rest) (omega arith))
]

digit-ne-nil : (d : ℕ) → d < 10 → digit d ≢ ""
digit-ne-nil d h e = let (c, p, _) = digit_char d h in cons-ne-nil c "" (sym p ∙ e)

digits-ne-nil : (fuel n : ℕ) → n < fuel → digits fuel n ≢ ""
unfolding digits
digits-ne-nil zero n h = absurd (omega arith)
digits-ne-nil (suc fuel) n h = elim (Bool-cases (ltb n 10)) [
  | inl small ↦ rw (digits, small) (digit-ne-nil n (ground arith))
  | inr large ↦
      rw (digits, large)
        (append-ne-nil_of_right_ne-nil (digits fuel (n / 10)) (digit-ne-nil (n % 10) (omega arith)))
]

scan_lt : (c : Char) (k r : ℕ) (rest : String) → scan k (String.◌∷◌ c rest) ≡ some r → 48 ≤ code c
unfolding scan
scan_lt c k r rest h = ground arith

atoi-scan : (s : String) (n : ℕ) → s ≢ "" → scan 0 s ≡ some n → atoi s ≡ signed pos (some n)
unfolding atoi
atoi-scan String.[] n ne h = absurd (ne refl)
atoi-scan (String.◌∷◌ c rest) n ne h = ground (arith, scan_lt c 0 n rest h)

scan_all : (fuel n : ℕ) → n < fuel → scan 0 (digits fuel n) ≡ some n
unfolding scan
scan_all fuel n h = ap (scan 0) (sym (append-nil (digits fuel n))) ∙ scan-digits fuel n "" h

some_digits-scan : (s : String) → s ≢ "" → some_digits s ≡ scan 0 s
some_digits-scan String.[] ne = absurd (ne refl)
some_digits-scan (String.◌∷◌ c rest) ne = refl

in_range-InRange : (v : ℤ) → InRange v → in_range v ≡ some v
in_range-InRange (pos n) h = ground arith
in_range-InRange (negsuc n) h = ground arith

atoi-minus : (s : String) → s ≢ "" → atoi ("-" <> s) ≡ signed negate (scan 0 s)
unfolding atoi
atoi-minus s ne =
    ap atoi (cons-append "-" "" s ∙ ap (String.◌∷◌ "-") (nil-append s))
    ∙ ap (signed negate) (some_digits-scan s ne)

-- Every number of the range is read back from its text.
pub atoi-decimal : (v : ℤ) → InRange v → atoi (decimal v) ≡ some v
unfolding decimal
atoi-decimal (pos n) h =
    let fits : n < suc n = omega arith in
    atoi-scan (digits (suc n) n) n (digits-ne-nil (suc n) n fits) (scan_all (suc n) n fits)
    ∙ in_range-InRange (pos n) h
atoi-decimal (negsuc n) h =
    let fits : suc n < suc (suc n) = omega arith in
    atoi-minus (digits (suc (suc n)) (suc n)) (digits-ne-nil (suc (suc n)) (suc n) fits)
    ∙ ap (signed negate) (scan_all (suc (suc n)) (suc n) fits)
    ∙ in_range-InRange (negsuc n) h
