-- ===== src/Chars.antt =====
-- Characters by number, and Go's strings package as the driver calls it: strings.Fields,
-- strings.HasPrefix, strings.Contains, and the lines of bufio.Scanner. A text is its code points.
use Prim.Native.Nat.{Ordering, compare}
use Prim.Native.Char.{Char, char, code, nul, IsScalar}
use seaweedfs_csi_driver.Base.{
  ℕ, ◌<◌, String, Bool, true, false, ◌&&◌, ◌||◌, List, [], ◌∷◌, ◌≡◌, refl, arith, eqb, leb,
  if◌then◌else◌, ◌==◌,
}

pub IsScalar-of_lt : (n : ℕ) → compare n 55296 ≡ Ordering.lt → IsScalar n
IsScalar-of_lt n e = rw e tt

char_where : (n : ℕ) (o : Ordering) → compare n 55296 ≡ o → Char
char_where n Ordering.lt e = char n (IsScalar-of_lt n e)
char_where n Ordering.eq e = nul
char_where n Ordering.gt e = nul

-- The character of a number below 0xd800.
unfoldable pub char_of : ℕ → Char
unfolding char_where
char_of n = char_where n (compare n 55296) refl

code-char_where :
    (n : ℕ) (o : Ordering) (e : compare n 55296 ≡ o) → n < 55296 → code (char_where n o e) ≡ n
unfolding char_where
code-char_where n Ordering.lt e h = refl
code-char_where n Ordering.eq e h = absurd (ground arith)
code-char_where n Ordering.gt e h = absurd (ground arith)

pub code-char_of : (n : ℕ) → n < 55296 → code (char_of n) ≡ n
unfolding char_of
code-char_of n h = code-char_where n (compare n 55296) refl h

-- unicode.IsSpace.
unfoldable pub is_space : ℕ → Bool
is_space c =
    (leb 9 c && leb c 13)
    || eqb c 32
    || eqb c 0x85
    || eqb c 0xa0
    || eqb c 0x1680
    || (leb 0x2000 c && leb c 0x200a)
    || eqb c 0x2028
    || eqb c 0x2029
    || eqb c 0x202f
    || eqb c 0x205f
    || eqb c 0x3000

put_first : Char → List String → List String
put_first c [] = String.◌∷◌ c "" ∷ []
put_first c (w ∷ ws) = String.◌∷◌ c w ∷ ws

-- The pieces between the characters that pass the test, empty ones included.
unfoldable pub pieces : (ℕ → Bool) → String → List String
unfolding put_first
pieces sep String.[] = "" ∷ []
pieces sep (String.◌∷◌ c s) =
    let rest = pieces sep s in if sep (code c) then "" ∷ rest else put_first c rest

unfoldable pub not_empty : List String → List String
not_empty [] = []
not_empty (w ∷ ws) = let rest = not_empty ws in if w == "" then rest else w ∷ rest

-- strings.Fields.
unfoldable pub fields : String → List String
unfolding pieces not_empty is_space
fields s = not_empty (pieces is_space s)

-- strings.HasPrefix.
unfoldable pub has_text_prefix : String → String → Bool
has_text_prefix String.[] s = true
has_text_prefix (String.◌∷◌ a p) String.[] = false
has_text_prefix (String.◌∷◌ a p) (String.◌∷◌ c s) = eqb (code a) (code c) && has_text_prefix p s

-- strings.Contains(s, part).
unfoldable pub contains : String → String → Bool
unfolding has_text_prefix
contains part String.[] = has_text_prefix part ""
contains part (String.◌∷◌ c s) = has_text_prefix part (String.◌∷◌ c s) || contains part s

fields_line : fields "  36 35\t98:0 " ≡ "36" ∷ "35" ∷ "98:0" ∷ []
unfolding fields
fields_line = refl
