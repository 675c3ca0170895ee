-- ===== src/Locality.antt =====
-- pkg/datalocality/mapping.go, and strings.ToLower as far as it calls it.
use seaweedfs_csi_driver.Base.{
  ℕ, ◌+◌, String, Bool, true, false, ◌&&◌, List, [], ◌∷◌, Option, map, leb, eqb, if◌then◌else◌, ◌≡◌,
  refl,
}
use seaweedfs_csi_driver.Strconv.{codes}

same_codes : List ℕ → List ℕ → Bool
same_codes [] [] = true
same_codes (a ∷ as') (b ∷ bs) = eqb a b && same_codes as' bs
same_codes _ _ = false

-- unicode.ToLower, exact on ASCII and on the two code points outside ASCII whose lower case is in
-- it (U+0130 and U+212A). The others stay outside ASCII, and the texts compared with are in ASCII.
unfoldable pub lower_code : ℕ → ℕ
lower_code c =
    if leb b'A' c && leb c b'Z'
    then c + 32
    else if eqb c 0x130
    then b'i'
    else if eqb c 0x212a
    then b'k'
    else c

-- strings.ToLower(s) == t, at an ASCII text t.
unfoldable pub lower_is : String → String → Bool
unfolding same_codes lower_code
lower_is s t = same_codes (map lower_code (codes s)) (codes t)

pub data DataLocality : Type 0 where
  none write_prefer_local_dc : DataLocality

unfoldable pub from_string : String → Option DataLocality
unfolding lower_is
from_string s =
    if lower_is s "none"
    then Option.some none
    else if lower_is s "write_preferlocaldc"
    then Option.some write_prefer_local_dc
    else Option.none

from_string_upper : from_string "NONE" ≡ Option.some none
unfolding from_string
from_string_upper = refl
