-- ===== src/Prelude/Text.antt =====
-- A string of the source: the list of its UTF-16 code units, with `===`, `length`, the digit
-- classes of the patterns, and the decimal form of a `bigint` both ways.
use Prim.Native.Nat.{ℕ, zero, suc, ◌+◌, ◌-◌, ◌*◌, ◌/◌, ◌%◌, ◌≤◌, ◌<◌}
use Prim.Native.Char.{code}
use Prim.Native.String.{String}
use mathlib.Core.Path.{◌≡◌, refl, ap, ◌∙◌}
use mathlib.Core.Logic.{◌↔◌}
use mathlib.Core.Bool.{Bool, true, false, ◌&&◌, ◌||◌}
use mathlib.Core.List.{List, [], ◌∷◌, ◌++◌}
use mathlib.Core.Option.{Option, none, some}
use native.Mathlib.Omega.{arith}
use jejak.Prelude.Tests.{ltb, leb, ◌==◌, if◌then◌else◌}
use jejak.Prelude.Lists.{all}
use jejak.Prelude.Int.{ℤ, pos, negsuc, neg_ℕ}

abbrev pub Text : Type 0
Text = List ℕ

-- The code units of an ASCII literal.
abbrev pub codes : String → Text
codes String.[] = []
codes (String.◌∷◌ c s) = code c ∷ codes s

unfoldable pub text_eq : Text → Text → Bool
text_eq [] [] = true
text_eq [] (d ∷ t) = false
text_eq (c ∷ s) [] = false
text_eq (c ∷ s) (d ∷ t) = c == d && text_eq s t

pub text_eq_sound : (s t : Text) → text_eq s t ≡ true → s ≡ t
unfolding text_eq
text_eq_sound [] [] h = refl
text_eq_sound [] (d ∷ t) h = cc
text_eq_sound (c ∷ s) [] h = cc
text_eq_sound (c ∷ s) (d ∷ t) h = ground (arith, text_eq_sound s t)

pub text_eq_refl : (s : Text) → text_eq s s ≡ true
unfolding text_eq
text_eq_refl [] = refl
text_eq_refl (c ∷ s) = ground (arith, text_eq_refl s)

-- `===` on texts, as an equation.
pub text_eq_iff : (s t : Text) → (text_eq s t ≡ true) ↔ (s ≡ t)
text_eq_iff s t = (text_eq_sound s t, λ e. rw e (text_eq_refl t))

-- `===` on optional texts, `undefined` being equal to itself only.
abbrev pub option_text_eq : Option Text → Option Text → Bool
option_text_eq none none = true
option_text_eq none (some t) = false
option_text_eq (some s) none = false
option_text_eq (some s) (some t) = text_eq s t

abbrev pub within : ℕ → ℕ → ℕ → Bool
within lo hi c = leb lo c && leb c hi

abbrev pub is_digit : ℕ → Bool
is_digit c = within b'0' b'9' c

abbrev pub is_nil : Text → Bool
is_nil [] = true
is_nil (c ∷ s) = false

-- /^[1-9][0-9]*$/
unfoldable pub is_positive_integer : Text → Bool
is_positive_integer [] = false
is_positive_integer (c ∷ s) = within b'1' b'9' c && all is_digit s

-- /^(0|[1-9][0-9]*)$/
unfoldable pub is_natural : Text → Bool
unfolding is_positive_integer
is_natural [] = false
is_natural (c ∷ s) = if c == b'0' then is_nil s else is_positive_integer (c ∷ s)

-- /^-?(0|[1-9][0-9]*)$/
unfoldable pub is_integer : Text → Bool
unfolding is_natural
is_integer [] = false
is_integer (c ∷ s) = if c == b'-' then is_natural s else is_natural (c ∷ s)

unfoldable pub digits_value : ℕ → Text → ℕ
digits_value acc [] = acc
digits_value acc (c ∷ s) = digits_value (acc * 10 + (c - b'0')) s

-- `BigInt(s)` where `s` is an integer by its pattern.
unfoldable pub bigint_of : Text → ℤ
unfolding digits_value
bigint_of [] = pos 0
bigint_of (c ∷ s) = if c == b'-' then neg_ℕ (digits_value 0 s) else pos (digits_value 0 (c ∷ s))

unfoldable pub decimal_from : ℕ → ℕ → Text → Text
decimal_from zero n out = out
decimal_from (suc fuel) n out =
    let rest = decimal_from fuel (n / 10) ((b'0' + n % 10) ∷ out) in
    if ltb n 10 then (b'0' + n) ∷ out else rest

unfoldable pub decimal : ℕ → Text
unfolding decimal_from
decimal n = decimal_from (suc n) n []

-- `String(n)` of a `bigint`.
unfoldable pub bigint_text : ℤ → Text
unfolding decimal
bigint_text (pos n) = decimal n
bigint_text (negsuc n) = b'-' ∷ decimal (suc n)

digits_value-decimal_from :
    (fuel n : ℕ) (out : Text)
    → n < fuel
    → digits_value 0 (decimal_from fuel n out) ≡ digits_value n out
unfolding digits_value decimal_from
digits_value-decimal_from zero n out h = elim h [ ]
digits_value-decimal_from (suc fuel) n out h =
    ground (arith, digits_value-decimal_from fuel (n / 10) ((b'0' + n % 10) ∷ out), shift)
  where
    shift : n / 10 * 10 + (b'0' + n % 10 - b'0') ≡ n
    shift = omega arith

is_positive_integer-decimal_from :
    (fuel n : ℕ) (out : Text)
    → n < fuel
    → 0 < n
    → all is_digit out ≡ true
    → is_positive_integer (decimal_from fuel n out) ≡ true
unfolding is_positive_integer decimal_from
is_positive_integer-decimal_from zero n out h p d = elim h [ ]
is_positive_integer-decimal_from (suc fuel) n out h p d =
    ground (arith, is_positive_integer-decimal_from fuel (n / 10) ((b'0' + n % 10) ∷ out))

pub digits_value-decimal : (n : ℕ) → digits_value 0 (decimal n) ≡ n
unfolding decimal digits_value
digits_value-decimal n = digits_value-decimal_from (suc n) n [] (omega arith)

pub is_positive_integer-decimal : (n : ℕ) → 0 < n → is_positive_integer (decimal n) ≡ true
unfolding decimal
is_positive_integer-decimal n h = is_positive_integer-decimal_from (suc n) n [] (omega arith) h refl

-- A text of digits without a leading zero begins with neither `-` nor `0`.
positive-bigint_of :
    (s : Text)
    → is_positive_integer s ≡ true
    → (is_integer s ≡ true) × (bigint_of s ≡ pos (digits_value 0 s))
unfolding is_positive_integer is_natural is_integer bigint_of
positive-bigint_of [] h = cc
positive-bigint_of (c ∷ s) h = ground arith

positive-negated :
    (s : Text)
    → is_positive_integer s ≡ true
    → (is_integer (b'-' ∷ s) ≡ true) × (bigint_of (b'-' ∷ s) ≡ neg_ℕ (digits_value 0 s))
unfolding is_positive_integer is_natural is_integer bigint_of
positive-negated [] h = cc
positive-negated (c ∷ s) h = ground arith

-- The text of every integer matches the integer pattern, and reads back as that integer.
pub bigint_text_lem :
    (z : ℤ) → (is_integer (bigint_text z) ≡ true) × (bigint_of (bigint_text z) ≡ z)
unfolding bigint_text is_integer is_natural bigint_of digits_value decimal_from
bigint_text_lem (pos zero) = (refl, refl)
bigint_text_lem (pos (suc n)) =
    let h =
      positive-bigint_of (decimal (suc n)) (is_positive_integer-decimal (suc n) (omega arith)) in
    (h.0, h.1 ∙ ap pos (digits_value-decimal (suc n)))
bigint_text_lem (negsuc n) =
    let h =
      positive-negated (decimal (suc n)) (is_positive_integer-decimal (suc n) (omega arith)) in
    (h.0, h.1 ∙ ap neg_ℕ (digits_value-decimal (suc n)))

unfoldable pub text_mem : Text → List Text → Bool
text_mem t [] = false
text_mem t (u ∷ us) = text_eq t u || text_mem t us

-- `new Set(texts)`: the first occurrence of each, in order.
unfoldable pub unique_from : List Text → List Text → List Text
unique_from seen [] = []
unique_from seen (t ∷ ts) =
    let rest = unique_from seen ts in
    let kept = t ∷ unique_from (t ∷ seen) ts in if text_mem t seen then rest else kept

unfoldable pub unique : List Text → List Text
unfolding unique_from text_mem text_eq
unique ts = unique_from [] ts

text_mem-unique_from :
    (t : Text) (seen ts : List Text)
    → text_mem t seen ≡ false
    → text_mem t (unique_from seen ts) ≡ text_mem t ts
unfolding text_mem unique_from
text_mem-unique_from t seen [] h = refl
text_mem-unique_from t seen (u ∷ us) h =
    ground
      (arith, text_eq_iff t u, text_mem-unique_from t seen us, text_mem-unique_from t (u ∷ seen) us)

pub text_mem-unique : (t : Text) (ts : List Text) → text_mem t (unique ts) ≡ text_mem t ts
unfolding unique text_mem
text_mem-unique t ts = text_mem-unique_from t [] ts refl

pub text_mem-append :
    (t : Text) (ts us : List Text) → text_mem t (ts ++ us) ≡ (text_mem t ts || text_mem t us)
unfolding text_mem
text_mem-append t [] us = refl
text_mem-append t (x ∷ ts) us = ground (arith, text_mem-append t ts us)

digits_value-ge : (acc : ℕ) (s : Text) → acc ≤ digits_value acc s
unfolding digits_value
digits_value-ge acc [] = omega arith
digits_value-ge acc (c ∷ s) = omega (arith, digits_value-ge (acc * 10 + (c - b'0')) s)

-- A positive integer by its pattern is one by its value.
pub positive_integer_value :
    (s : Text)
    → is_positive_integer s ≡ true
    → (bigint_of s ≡ pos (digits_value 0 s)) × (0 < digits_value 0 s)
unfolding is_positive_integer digits_value
positive_integer_value [] h = cc
positive_integer_value (c ∷ s) h =
    ((positive-bigint_of (c ∷ s) h).1, ground (arith, digits_value-ge (0 * 10 + (c - b'0')) s))

-- A natural number by its pattern is not negative by its value.
pub natural_value : (s : Text) → is_natural s ≡ true → (n : ℕ) × (bigint_of s ≡ pos n)
unfolding is_natural is_positive_integer bigint_of
natural_value [] h = cc
natural_value (c ∷ s) h = (digits_value 0 (c ∷ s), ground arith)
