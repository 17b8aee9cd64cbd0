-- ===== src/Text.antt =====
-- What the agent uses of Go's packages strings, strconv and time on texts: `TrimSpace`, `ToLower`
-- with `Contains`, `FormatUint`.
pub mod Parse
use Prim.Native.Char.{code}
use Prim.Native.String
use codex_ha_monitor.Prelude.{
  ℕ, zero, suc, ◌+◌, ◌/◌, ◌%◌, String, Bool, true, false, ◌&&◌, ◌||◌, List, [], ◌∷◌, map, leb, ◌==◌,
  ◌=?=◌, if◌then◌else◌, ◌≡◌, refl, ℤ, pos, negsuc,
}

abbrev pub codes : String → List ℕ
codes String.[] = []
codes (String.◌∷◌ c s) = code c ∷ codes s

-- `unicode.IsSpace`.
unfoldable pub is_space : ℕ → Bool
is_space c =
    (leb 9 c && leb c 13)
    || c == 0x20
    || c == 0x85
    || c == 0xa0
    || c == 0x1680
    || (leb 0x2000 c && leb c 0x200a)
    || c == 0x2028
    || c == 0x2029
    || c == 0x202f
    || c == 0x205f
    || c == 0x3000

unfoldable pub trim_left : String → String
trim_left String.[] = ""
trim_left (String.◌∷◌ c s) = if is_space (code c) then trim_left s else String.◌∷◌ c s

unfoldable pub trim_right : String → String
trim_right String.[] = ""
trim_right (String.◌∷◌ c s) =
    let rest = trim_right s in if rest =?= "" && is_space (code c) then "" else String.◌∷◌ c rest

-- `strings.TrimSpace`
unfoldable pub trim_space : String → String
unfolding trim_left trim_right is_space
trim_space s = trim_left (trim_right s)

-- `unicode.ToLower`, as far as its results are ASCII: the capital letters, the dotted capital I and
-- the Kelvin sign. Any other code point goes to one outside ASCII, or stays.
pub to_lower : ℕ → ℕ
to_lower c =
    if leb b'A' c && leb c b'Z'
    then c + 32
    else if c == 0x130
    then b'i'
    else if c == 0x212a
    then b'k'
    else c

unfoldable pub has_prefix : List ℕ → List ℕ → Bool
has_prefix [] s = true
has_prefix (p ∷ ps) [] = false
has_prefix (p ∷ ps) (c ∷ s) = p == c && has_prefix ps s

pub contains_codes : List ℕ → List ℕ → Bool
contains_codes p [] = has_prefix p []
contains_codes p (c ∷ s) = has_prefix p (c ∷ s) || contains_codes p s

-- `strings.Contains(strings.ToLower(s), part)`, for a part that is ASCII.
unfoldable pub lower_contains : String → String → Bool
unfolding has_prefix contains_codes to_lower
lower_contains s part = contains_codes (codes part) (map to_lower (codes s))

abbrev pub digit : ℕ → String
digit n =
    if n == 0
    then "0"
    else if n == 1
    then "1"
    else if n == 2
    then "2"
    else if n == 3
    then "3"
    else if n == 4
    then "4"
    else if n == 5
    then "5"
    else if n == 6
    then "6"
    else if n == 7
    then "7"
    else if n == 8
    then "8"
    else "9"

pub decimal_from : ℕ → ℕ → String
decimal_from zero n = ""
decimal_from (suc fuel) n =
    let front = decimal_from fuel (n / 10) in
    if n / 10 == 0 then digit n else String.◌++◌ front (digit (n % 10))

-- `strconv.FormatUint(n, 10)`: a `uint64` has at most twenty digits.
unfoldable pub format_uint : ℕ → String
unfolding decimal_from
format_uint n = decimal_from 20 n

-- `fmt.Sprint` of a signed integer.
unfoldable pub format_int : ℤ → String
unfolding format_uint
format_int (pos n) = format_uint n
format_int (negsuc n) = String.◌++◌ "-" (format_uint (suc n))

trim_space_runs : trim_space " \t a b\n " ≡ "a b"
unfolding trim_space
trim_space_runs = refl

lower_contains_runs : lower_contains "Needs your PERMISSION now" "permission" ≡ true
unfolding lower_contains
lower_contains_runs = refl

format_uint_runs : format_uint 18446744073709551615 ≡ "18446744073709551615"
unfolding format_uint
format_uint_runs = refl
