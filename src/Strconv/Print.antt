-- ===== src/Strconv/Print.antt =====
-- Decimal printing, and that parsing reads back what was printed.
use native.Mathlib.Nat.{pow-suc}
use mathlib.Core.Option
use seaweedfs_csi_driver.Base.{
  ℕ, zero, suc, ◌+◌, ◌*◌, ◌/◌, ◌%◌, ◌^◌, ◌<◌, String, some, ltb, if◌then◌else◌, ◌≡◌, refl, ◌∙◌,
  arith, Bool-cases, inl, inr,
}
use seaweedfs_csi_driver.Strconv.{
  codes, parse_digits, parse_int_codes, parse_int, pos, ℤ, negsuc, in_positive_range,
}

-- One decimal digit in front of a text.
unfoldable pub put_digit : ℕ → String → String
put_digit zero s = String.◌∷◌ "0" s
put_digit (suc zero) s = String.◌∷◌ "1" s
put_digit (suc (suc zero)) s = String.◌∷◌ "2" s
put_digit (suc (suc (suc zero))) s = String.◌∷◌ "3" s
put_digit (suc (suc (suc (suc zero)))) s = String.◌∷◌ "4" s
put_digit (suc (suc (suc (suc (suc zero))))) s = String.◌∷◌ "5" s
put_digit (suc (suc (suc (suc (suc (suc zero)))))) s = String.◌∷◌ "6" s
put_digit (suc (suc (suc (suc (suc (suc (suc zero))))))) s = String.◌∷◌ "7" s
put_digit (suc (suc (suc (suc (suc (suc (suc (suc zero)))))))) s = String.◌∷◌ "8" s
put_digit _ s = String.◌∷◌ "9" s

-- At most `fuel` digits of `n`, in front of `s`.
unfoldable pub print_digits : ℕ → ℕ → String → String
unfolding put_digit
print_digits zero n s = s
print_digits (suc fuel) n s =
    let rest = print_digits fuel (n / 10) (put_digit (n % 10) s) in
    if ltb n 10 then put_digit n s else rest

-- strconv.FormatInt(n, 10) at an n that is not negative; an int64 has at most 19 digits.
unfoldable pub format_nat : ℕ → String
unfolding print_digits
format_nat n = print_digits 19 n ""

format_nat_large : format_nat 9223372036854775807 ≡ "9223372036854775807"
unfolding format_nat
format_nat_large = refl

parse_digits-put_digit :
    (acc d : ℕ) (s : String)
    → d < 10
    → parse_digits acc (codes (put_digit d s)) ≡ parse_digits (acc * 10 + d) (codes s)
unfolding parse_digits put_digit
parse_digits-put_digit acc zero s h = refl
parse_digits-put_digit acc (suc zero) s h = refl
parse_digits-put_digit acc (suc (suc zero)) s h = refl
parse_digits-put_digit acc (suc (suc (suc zero))) s h = refl
parse_digits-put_digit acc (suc (suc (suc (suc zero)))) s h = refl
parse_digits-put_digit acc (suc (suc (suc (suc (suc zero))))) s h = refl
parse_digits-put_digit acc (suc (suc (suc (suc (suc (suc zero)))))) s h = refl
parse_digits-put_digit acc (suc (suc (suc (suc (suc (suc (suc zero))))))) s h = refl
parse_digits-put_digit acc (suc (suc (suc (suc (suc (suc (suc (suc zero)))))))) s h = refl
parse_digits-put_digit acc (suc (suc (suc (suc (suc (suc (suc (suc (suc zero))))))))) s h = refl
parse_digits-put_digit acc (suc (suc (suc (suc (suc (suc (suc (suc (suc (suc d)))))))))) s h =
    absurd (omega arith)

ten_pow : (f n : ℕ) → n < 10 ^ suc f → n / 10 < 10 ^ f
ten_pow f n h = let e : 10 ^ suc f ≡ 10 ^ f * 10 = pow-suc 10 f in omega arith

parse_digits-print_digits :
    (fuel n : ℕ) (s : String)
    → n < 10 ^ fuel
    → 0 < fuel
    → parse_digits 0 (codes (print_digits fuel n s)) ≡ parse_digits n (codes s)
unfolding print_digits
parse_digits-print_digits zero n s h p = absurd (omega arith)
parse_digits-print_digits (suc zero) n s h p = ground (arith, parse_digits-put_digit 0 n s)
parse_digits-print_digits (suc (suc fuel)) n s h p = ground (
  arith,
  parse_digits-put_digit 0 n s,
  parse_digits-put_digit (n / 10) (n % 10) s,
  ten_pow (suc fuel) n h,
  parse_digits-print_digits (suc fuel) (n / 10) (put_digit (n % 10) s),
)

-- The printed text begins with a digit.
print_digits-head :
    (fuel n : ℕ) (s : String)
    → (d : ℕ) × (t : String) × (print_digits (suc fuel) n s ≡ put_digit d t)
unfolding print_digits
print_digits-head zero n s = elim (Bool-cases (ltb n 10)) [
  | inl e ↦ (n, s, rw e)
  | inr e ↦ (n % 10, s, rw e)
]
print_digits-head (suc fuel) n s = elim (Bool-cases (ltb n 10)) [
  | inl e ↦ (n, s, rw e)
  | inr e ↦ let (d, t, p) = print_digits-head fuel (n / 10) (put_digit (n % 10) s) in (d, t, rw e p)
]

parse_int_codes-put_digit :
    (d : ℕ) (s : String)
    → parse_int_codes (codes (put_digit d s))
      ≡ Option.bind (parse_digits 0 (codes (put_digit d s))) in_positive_range
unfolding parse_int_codes put_digit
parse_int_codes-put_digit zero s = refl
parse_int_codes-put_digit (suc zero) s = refl
parse_int_codes-put_digit (suc (suc zero)) s = refl
parse_int_codes-put_digit (suc (suc (suc zero))) s = refl
parse_int_codes-put_digit (suc (suc (suc (suc zero)))) s = refl
parse_int_codes-put_digit (suc (suc (suc (suc (suc zero))))) s = refl
parse_int_codes-put_digit (suc (suc (suc (suc (suc (suc zero)))))) s = refl
parse_int_codes-put_digit (suc (suc (suc (suc (suc (suc (suc zero))))))) s = refl
parse_int_codes-put_digit (suc (suc (suc (suc (suc (suc (suc (suc zero)))))))) s = refl
parse_int_codes-put_digit (suc (suc (suc (suc (suc (suc (suc (suc (suc d))))))))) s = refl

-- A capacity that is printed into the volume context is read back as the same number: ParseInt
-- after FormatInt gives back every int64 that is not negative.
pub parse_int-format_nat : (n : ℕ) → n < 2 ^ 63 → parse_int (format_nat n) ≡ some (pos n)
unfolding format_nat parse_int in_positive_range Option.bind
parse_int-format_nat n h =
    let (d, t, e) = print_digits-head 18 n "" in
    rw e (
      parse_int_codes-put_digit d t
      ∙ rw (← e, parse_digits-print_digits 19 n "" (omega arith) (omega arith)) (ground arith))

-- strconv.FormatInt(n, 10), and strconv.Itoa.
unfoldable pub format_int : ℤ → String
unfolding format_nat
format_int (pos n) = format_nat n
format_int (negsuc n) = String.◌∷◌ "-" (format_nat (n + 1))

format_int_minus : format_int (negsuc 11) ≡ "-12"
unfolding format_int
format_int_minus = refl
