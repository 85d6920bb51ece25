-- ===== src/Base/Int/Format.antt =====
-- `fmt`'s verb `%d` and `strconv.Atoi`, of Go's standard library, for a 64-bit `int`.
pub mod RoundTrip
use Prim.Native.Char.{code}
use pgpilot_operator.Base.{
  ℕ, zero, suc, ◌+◌, ◌-◌, ◌*◌, ◌/◌, ◌%◌, String, ◌<>◌, ◌≡◌, refl, true, false, ◌&&◌, Option, none,
  some, leb, ltb, if◌then◌else◌,
}
use pgpilot_operator.Base.Int.{ℤ, pos, negsuc}

unfoldable digit : ℕ → String
digit zero = "0"
digit (suc zero) = "1"
digit (suc (suc zero)) = "2"
digit (suc (suc (suc zero))) = "3"
digit (suc (suc (suc (suc zero)))) = "4"
digit (suc (suc (suc (suc (suc zero))))) = "5"
digit (suc (suc (suc (suc (suc (suc zero)))))) = "6"
digit (suc (suc (suc (suc (suc (suc (suc zero))))))) = "7"
digit (suc (suc (suc (suc (suc (suc (suc (suc zero)))))))) = "8"
digit _ = "9"

-- A number has fewer digits than its own value plus one, which is the fuel.
unfoldable digits : ℕ → ℕ → String
digits zero n = ""
digits (suc fuel) n = elim (ltb n 10) [
  | true ↦ digit n
  | false ↦ digits fuel (n / 10) <> digit (n % 10)
]

unfoldable pub decimal : ℤ → String
unfolding digits digit
decimal (pos n) = digits (suc n) n
decimal (negsuc n) = "-" <> digits (suc (suc n)) (suc n)

-- The value of a run of decimal digits, after a value for those before it.
unfoldable scan : ℕ → String → Option ℕ
scan n String.[] = some n
scan n (String.◌∷◌ c rest) =
    let more = scan (n * 10 + (code c - 48)) rest in
    if leb 48 (code c) && leb (code c) 57 then more else none

abbrev some_digits : String → Option ℕ
some_digits String.[] = none
some_digits (String.◌∷◌ c rest) = scan 0 (String.◌∷◌ c rest)

abbrev in_range : ℤ → Option ℤ
in_range (pos n) = if leb n 9223372036854775807 then some (pos n) else none
in_range (negsuc n) = if leb n 9223372036854775807 then some (negsuc n) else none

abbrev negate : ℕ → ℤ
negate zero = pos zero
negate (suc n) = negsuc n

abbrev signed : (ℕ → ℤ) → Option ℕ → Option ℤ
signed sign none = none
signed sign (some n) = in_range (sign n)

-- `strconv.Atoi`: `none` stands for its error.
unfoldable pub atoi : String → Option ℤ
unfolding scan
atoi String.[] = none
atoi (String.◌∷◌ c rest) =
    if leb (code c) 45 && leb 45 (code c)
    then signed negate (some_digits rest)
    else if leb (code c) 43 && leb 43 (code c)
    then signed pos (some_digits rest)
    else signed pos (scan 0 (String.◌∷◌ c rest))

decimal_port : decimal (pos 5432) ≡ "5432"
unfolding decimal
decimal_port = refl

decimal_negative : decimal (negsuc 10) ≡ "-11"
unfolding decimal
decimal_negative = refl

atoi_forms :
    (atoi "13" ≡ some (pos 13))
    × (atoi "013" ≡ some (pos 13))
    × (atoi "+13" ≡ some (pos 13))
    × (atoi "-1" ≡ some (negsuc 0))
    × (atoi "*" ≡ none)
    × (atoi "" ≡ none)
    × (atoi "-" ≡ none)
    × (atoi "9223372036854775808" ≡ none)
unfolding atoi
atoi_forms = (refl, refl, refl, refl, refl, refl, refl, refl)
