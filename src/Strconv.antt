-- ===== src/Strconv.antt =====
-- Texts and numbers as Go's standard library reads and writes them: strconv.ParseBool,
-- strconv.ParseInt and strconv.Atoi, strconv.FormatInt and strconv.Itoa.
pub mod Print
use Prim.Native.Char.{code}
use mathlib.Core.Option
use mathlib.Core.Option.{none, some}
use seaweedfs_csi_driver.Base.{
  ℕ, suc, zero, ◌+◌, ◌-◌, ◌*◌, ◌^◌, String, Bool, true, false, ◌&&◌, ◌||◌, List, [], ◌∷◌, Option,
  ltb, leb, eqb, if◌then◌else◌, ◌==◌, ◌≡◌, refl,
}

-- The code points of a text.
abbrev pub codes : String → List ℕ
codes String.[] = []
codes (String.◌∷◌ c s) = code c ∷ codes s

-- strconv.ParseBool.
unfoldable pub parse_bool : String → Option Bool
parse_bool s =
    if s == "1" || s == "t" || s == "T" || s == "true" || s == "TRUE" || s == "True"
    then some true
    else if s == "0" || s == "f" || s == "F" || s == "false" || s == "FALSE" || s == "False"
    then some false
    else none

-- An int64 as its sign and magnitude parts: `negsuc n` is -(n + 1).
pub data ℤ : Type 0 where
  pos : ℕ → ℤ
  negsuc : ℕ → ℤ

abbrev pub int64_half : ℕ
int64_half = 2 ^ 63

-- The value of a run of decimal digits, after those read before.
unfoldable pub parse_digits : ℕ → List ℕ → Option ℕ
parse_digits acc [] = some acc
parse_digits acc (c ∷ cs) =
    let rest = parse_digits (acc * 10 + (c - b'0')) cs in
    if leb b'0' c && leb c b'9' then rest else none

unfoldable pub nonempty_digits : List ℕ → Option ℕ
unfolding parse_digits
nonempty_digits [] = none
nonempty_digits (c ∷ cs) = parse_digits 0 (c ∷ cs)

unfoldable pub in_positive_range : ℕ → Option ℤ
in_positive_range n = if ltb n int64_half then some (pos n) else none

unfoldable pub in_negative_range : ℕ → Option ℤ
in_negative_range n =
    if eqb n 0 then some (pos 0) else if leb n int64_half then some (negsuc (n - 1)) else none

unfoldable pub parse_int_codes : List ℕ → Option ℤ
unfolding nonempty_digits in_positive_range in_negative_range Option.bind
parse_int_codes [] = none
parse_int_codes (c ∷ cs) =
    if eqb c b'-'
    then Option.bind (nonempty_digits cs) in_negative_range
    else if eqb c b'+'
    then Option.bind (nonempty_digits cs) in_positive_range
    else Option.bind (nonempty_digits (c ∷ cs)) in_positive_range

-- strconv.ParseInt(s, 10, 64), and strconv.Atoi on a 64-bit machine.
unfoldable pub parse_int : String → Option ℤ
unfolding parse_int_codes
parse_int s = parse_int_codes (codes s)

parse_int_minus : parse_int "-12" ≡ some (negsuc 11)
unfolding parse_int
parse_int_minus = refl

parse_int_sign_only : parse_int "+" ≡ none
unfolding parse_int
parse_int_sign_only = refl
