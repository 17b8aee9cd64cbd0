-- ===== src/Text/Parse.antt =====
-- `ParseUint` and `Atoi` of Go's package strconv, and that `ParseUint` reads what `FormatUint` prints.
use Prim.Native.Char.{code}
use Prim.Native.String
use Prim.Native.String.append
use codex_ha_monitor.Prelude.{
  ℕ, zero, suc, ◌+◌, ◌-◌, ◌*◌, ◌/◌, ◌%◌, ◌^◌, ◌<◌, String, Bool, true, false, ◌&&◌, List, [], ◌∷◌,
  ◌++◌, Option, none, some, ltb, leb, ◌==◌, if◌then◌else◌, ◌≡◌, ◌∙◌, refl, ap, sym, arith, ℤ, pos,
  negsuc, inl, inr, Bool-cases,
}
use codex_ha_monitor.Text.{codes, digit, decimal_from, format_uint}

-- The digits of a number, after the ones that were read; `none` if another character is in them.
pub read_digits : ℕ → List ℕ → Option ℕ
read_digits n [] = some n
read_digits n (c ∷ cs) =
    let rest = read_digits (n * 10 + (c - b'0')) cs in
    if leb b'0' c && leb c b'9' then rest else none

-- A value in the range, or the error.
abbrev below : ℕ → Option ℕ → Option ℕ
below limit none = none
below limit (some n) = if ltb n limit then some n else none

abbrev pub digits_below : ℕ → List ℕ → Option ℕ
digits_below limit [] = none
digits_below limit (c ∷ cs) = below limit (read_digits 0 (c ∷ cs))

-- `strconv.ParseUint(value, 10, 64)`
unfoldable pub parse_uint : String → Option ℕ
unfolding read_digits
parse_uint value = digits_below (2 ^ 64) (codes value)

abbrev negated : Option ℕ → Option ℤ
negated none = none
negated (some zero) = some (pos 0)
negated (some (suc n)) = some (negsuc n)

abbrev positive : Option ℕ → Option ℤ
positive none = none
positive (some n) = some (pos n)

-- A number with its sign, in the range of an `int`.
abbrev pub signed : List ℕ → Option ℤ
signed [] = none
signed (c ∷ cs) =
    if c == b'-'
    then negated (digits_below (2 ^ 63 + 1) cs)
    else if c == b'+'
    then positive (digits_below (2 ^ 63) cs)
    else positive (digits_below (2 ^ 63) (c ∷ cs))

-- `strconv.Atoi`
unfoldable pub atoi : String → Option ℤ
unfolding read_digits
atoi value = signed (codes value)

codes-append : (s t : String) → codes (String.◌++◌ s t) ≡ codes s ++ codes t
codes-append String.[] t = λ i. codes (append.nil t i)
codes-append (String.◌∷◌ c s) t =
    (λ i. codes (append.cons c s t i)) ∙ ap (code c ∷◌) (codes-append s t)

codes-digit : (n : ℕ) → n < 10 → codes (digit n) ≡ (b'0' + n) ∷ []
codes-digit zero h = refl
codes-digit (suc zero) h = refl
codes-digit (suc (suc zero)) h = refl
codes-digit (suc (suc (suc zero))) h = refl
codes-digit (suc (suc (suc (suc zero)))) h = refl
codes-digit (suc (suc (suc (suc (suc zero))))) h = refl
codes-digit (suc (suc (suc (suc (suc (suc zero)))))) h = refl
codes-digit (suc (suc (suc (suc (suc (suc (suc zero))))))) h = refl
codes-digit (suc (suc (suc (suc (suc (suc (suc (suc zero)))))))) h = refl
codes-digit (suc (suc (suc (suc (suc (suc (suc (suc (suc zero))))))))) h = refl
codes-digit (suc (suc (suc (suc (suc (suc (suc (suc (suc (suc n)))))))))) h = absurd (omega arith)

read_digits-digit : (n d : ℕ) → d < 10 → read_digits n ((b'0' + d) ∷ []) ≡ some (n * 10 + d)
unfolding read_digits
read_digits-digit n d h =
    let test : (leb b'0' (b'0' + d) && leb (b'0' + d) b'9') ≡ true = ground arith in
    let same : n * 10 + (b'0' + d - b'0') ≡ n * 10 + d = omega arith in rw test (ap some same)

read_digits-step :
    (n c : ℕ) (cs : List ℕ)
    → (leb b'0' c && leb c b'9') ≡ true
    → read_digits n (c ∷ cs) ≡ read_digits (n * 10 + (c - b'0')) cs
unfolding read_digits
read_digits-step n c cs b = rw b refl

read_digits-none :
    (n c : ℕ) (cs : List ℕ) → (leb b'0' c && leb c b'9') ≡ false → read_digits n (c ∷ cs) ≡ none
unfolding read_digits
read_digits-none n c cs b = rw b refl

read_nothing : (n v : ℕ) → read_digits n [] ≡ some v → n ≡ v
unfolding read_digits
read_nothing n v e = ground arith

read_digits-append :
    (n : ℕ) (cs ds : List ℕ) (v : ℕ)
    → read_digits n cs ≡ some v
    → read_digits n (cs ++ ds) ≡ read_digits v ds
read_digits-append n [] ds v e = ap (λ k. read_digits k ds) (read_nothing n v e)
read_digits-append n (c ∷ cs) ds v e = elim (Bool-cases (leb b'0' c && leb c b'9')) [
  | inl b ↦
      let rest = sym (read_digits-step n c cs b) ∙ e in
      read_digits-step n c (cs ++ ds) b ∙ read_digits-append (n * 10 + (c - b'0')) cs ds v rest
  | inr b ↦ let never : none ≡ some v = sym (read_digits-none n c cs b) ∙ e in absurd (ground arith)
]

-- `10 ^ fuel`
unfoldable powers_of_ten : ℕ → ℕ
powers_of_ten zero = 1
powers_of_ten (suc fuel) = 10 * powers_of_ten fuel

read_zero : (n : ℕ) → n ≡ 0 → read_digits 0 [] ≡ some n
unfolding read_digits
read_zero n e = ap some (sym e)

read_digits-if :
    (b : Bool) (s t : String) (n : ℕ)
    → (b ≡ true → read_digits 0 (codes s) ≡ some n)
    → (b ≡ false → read_digits 0 (codes t) ≡ some n)
    → read_digits 0 (codes (if b then s else t)) ≡ some n
read_digits-if true s t n p q = p refl
read_digits-if false s t n p q = q refl

-- Enough fuel for the digits gives a text that reads as the number.
read_digits-decimal_from :
    (fuel n : ℕ) → n < powers_of_ten fuel → read_digits 0 (codes (decimal_from fuel n)) ≡ some n
unfolding decimal_from powers_of_ten
read_digits-decimal_from zero n h = read_zero n (omega arith)
read_digits-decimal_from (suc fuel) n h =
    read_digits-if (n / 10 == 0) (digit n) _ n
      (λ b.
        let small : n < 10 = ground arith in
        ap (read_digits 0) (codes-digit n small)
        ∙ read_digits-digit 0 n small
        ∙ ap some (omega arith))
      (λ b.
        let last : n % 10 < 10 = omega arith in
        let whole : n / 10 * 10 + n % 10 ≡ n = omega arith in
        ap (read_digits 0) (codes-append (decimal_from fuel (n / 10)) (digit (n % 10)))
        ∙ read_digits-append 0 (codes (decimal_from fuel (n / 10))) (codes (digit (n % 10)))
            (n / 10) (read_digits-decimal_from fuel (n / 10) (omega arith))
        ∙ ap (read_digits (n / 10)) (codes-digit (n % 10) last)
        ∙ read_digits-digit (n / 10) (n % 10) last
        ∙ ap some whole)

abbrev is_filled : List ℕ → Bool
is_filled [] = false
is_filled (c ∷ cs) = true

is_filled-append : (cs ds : List ℕ) → is_filled ds ≡ true → is_filled (cs ++ ds) ≡ true
is_filled-append [] ds h = h
is_filled-append (c ∷ cs) ds h = refl

is_filled-digit : (n : ℕ) → n < 10 → is_filled (codes (digit n)) ≡ true
is_filled-digit n h = ap is_filled (codes-digit n h)

is_filled-if :
    (b : Bool) (s t : String)
    → (b ≡ true → is_filled (codes s) ≡ true)
    → is_filled (codes t) ≡ true
    → is_filled (codes (if b then s else t)) ≡ true
is_filled-if true s t p q = p refl
is_filled-if false s t p q = q

is_filled-decimal_from : (fuel n : ℕ) → is_filled (codes (decimal_from (suc fuel) n)) ≡ true
unfolding decimal_from
is_filled-decimal_from fuel n =
    is_filled-if (n / 10 == 0) (digit n) _ (λ b. is_filled-digit n (ground arith))
      (ap is_filled (codes-append (decimal_from fuel (n / 10)) (digit (n % 10)))
        ∙ is_filled-append (codes (decimal_from fuel (n / 10))) _
            (is_filled-digit (n % 10) (omega arith)))

digits_below-filled :
    (limit n : ℕ) (cs : List ℕ)
    → is_filled cs ≡ true
    → read_digits 0 cs ≡ some n
    → n < limit
    → digits_below limit cs ≡ some n
digits_below-filled limit n [] f e h = cc
digits_below-filled limit n (c ∷ cs) f e h = ap (below limit) e ∙ ground arith

digits_below-decimal_from :
    (limit fuel n : ℕ)
    → n < powers_of_ten (suc fuel)
    → n < limit
    → digits_below limit (codes (decimal_from (suc fuel) n)) ≡ some n
digits_below-decimal_from limit fuel n p h =
    digits_below-filled limit n (codes (decimal_from (suc fuel) n)) (is_filled-decimal_from fuel n)
      (read_digits-decimal_from (suc fuel) n p) h

-- What `FormatUint` prints of a `uint64`, `ParseUint` reads back.
pub parse_uint-format_uint : (n : ℕ) → n < 2 ^ 64 → parse_uint (format_uint n) ≡ some n
unfolding parse_uint format_uint powers_of_ten
parse_uint-format_uint n h = digits_below-decimal_from (2 ^ 64) 19 n (omega arith) h
