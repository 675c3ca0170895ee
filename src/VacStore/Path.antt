-- ===== src/VacStore/Path.antt =====
-- The path of a volume's entry on the filer: vacPath of pkg/driver/vacstore.go, with
-- base64.RawURLEncoding. A text is its bytes, as in Go.
use seaweedfs_csi_driver.Base.{
  ℕ, ◌+◌, ◌-◌, ◌*◌, ◌/◌, ◌%◌, ◌<◌, eqb, ltb, List, [], ◌∷◌, ◌++◌, map, All, ◌≡◌, ◌≢◌, refl, sym, ap,
  ◌∙◌, arith, if◌then◌else◌,
}

-- The character of a six-bit number.
unfoldable pub symbol : ℕ → ℕ
symbol n =
    if ltb n 26
    then n + 65
    else if ltb n 52
    then n + 71
    else if ltb n 62
    then n - 4
    else if eqb n 62
    then b'-'
    else b'_'

-- The six-bit numbers of the bytes; at the end, one byte gives two and two bytes give three.
unfoldable pub sextets : List ℕ → List ℕ
sextets [] = []
sextets (a ∷ []) = (a / 4) ∷ (a % 4 * 16) ∷ []
sextets (a ∷ b ∷ []) = (a / 4) ∷ (a % 4 * 16 + b / 16) ∷ (b % 16 * 4) ∷ []
sextets (a ∷ b ∷ c ∷ bytes) =
    (a / 4) ∷ (a % 4 * 16 + b / 16) ∷ (b % 16 * 4 + c / 64) ∷ (c % 64) ∷ sextets bytes

-- base64.RawURLEncoding.EncodeToString.
unfoldable pub encode_to_string : List ℕ → List ℕ
unfolding symbol sextets
encode_to_string bytes = map symbol (sextets bytes)

-- "/.csi/vac/"
abbrev pub vac_root : List ℕ
vac_root = b'/' ∷ b'.' ∷ b'c' ∷ b's' ∷ b'i' ∷ b'/' ∷ b'v' ∷ b'a' ∷ b'c' ∷ b'/' ∷ []

unfoldable pub vac_path : List ℕ → List ℕ
unfolding encode_to_string
vac_path volume_id = vac_root ++ encode_to_string volume_id

-- The number of a character, and the bytes of the numbers.
value : ℕ → ℕ
value c =
    if eqb c b'-'
    then 62
    else if eqb c b'_'
    then 63
    else if ltb c 58
    then c + 4
    else if ltb c 91
    then c - 65
    else c - 71

octets : List ℕ → List ℕ
octets (s ∷ t ∷ u ∷ v ∷ rest) =
    (s * 4 + t / 16) ∷ (t % 16 * 16 + u / 4) ∷ (u % 4 * 64 + v) ∷ octets rest
octets (s ∷ t ∷ u ∷ []) = (s * 4 + t / 16) ∷ (t % 16 * 16 + u / 4) ∷ []
octets (s ∷ t ∷ []) = (s * 4 + t / 16) ∷ []
octets rest = []

abbrev pub IsByte : ℕ → Type 0
IsByte b = b < 256

value-symbol : (n : ℕ) → n < 64 → value (symbol n) ≡ n
unfolding value symbol
value-symbol n h = ground arith

symbol-NoSlash : (n : ℕ) → n < 64 → symbol n ≢ b'/'
unfolding symbol
symbol-NoSlash n h e = ground (arith, e)

cons_both : (x y : ℕ) (xs ys : List ℕ) → x ≡ y → xs ≡ ys → x ∷ xs ≡ y ∷ ys
cons_both x y xs ys e f = ap (λ n. n ∷ xs) e ∙ ap (λ ns. y ∷ ns) f

octets-sextets : (bytes : List ℕ) → All IsByte bytes → octets (sextets bytes) ≡ bytes
unfolding octets sextets
octets-sextets [] h = refl
octets-sextets (a ∷ []) h = let first = h.0 in cons_both _ _ _ _ (omega arith) refl
octets-sextets (a ∷ b ∷ []) h =
    let first = h.0 in
    let second = h.1.0 in cons_both _ _ _ _ (omega arith) (cons_both _ _ _ _ (omega arith) refl)
octets-sextets (a ∷ b ∷ c ∷ bytes) h =
    let first = h.0 in
    let second = h.1.0 in
    let third = h.1.1.0 in
    cons_both _ _ _ _ (omega arith) (
      cons_both _ _ _ _ (omega arith)
        (cons_both _ _ _ _ (omega arith) (octets-sextets bytes h.1.1.1)))

sextets-below : (bytes : List ℕ) → All IsByte bytes → All (λ n. n < 64) (sextets bytes)
unfolding sextets
sextets-below [] h = tt
sextets-below (a ∷ []) h = let first = h.0 in (omega arith, (omega arith, tt))
sextets-below (a ∷ b ∷ []) h =
    let first = h.0 in let second = h.1.0 in (omega arith, (omega arith, (omega arith, tt)))
sextets-below (a ∷ b ∷ c ∷ bytes) h =
    let first = h.0 in
    let second = h.1.0 in
    let third = h.1.1.0 in
    (omega arith, (omega arith, (omega arith, (omega arith, sextets-below bytes h.1.1.1))))

values-symbols : (ns : List ℕ) → All (λ n. n < 64) ns → map value (map symbol ns) ≡ ns
values-symbols [] h = refl
values-symbols (n ∷ ns) h = cons_both _ _ _ _ (value-symbol n h.0) (values-symbols ns h.1)

symbols-NoSlash : (ns : List ℕ) → All (λ n. n < 64) ns → All (λ c. c ≢ b'/') (map symbol ns)
symbols-NoSlash [] h = tt
symbols-NoSlash (n ∷ ns) h = (symbol-NoSlash n h.0, symbols-NoSlash ns h.1)

decoded_id : List ℕ → List ℕ
unfolding octets value
decoded_id ns = octets (map value ns)

decoded_id-encode_to_string :
    (bytes : List ℕ) → All IsByte bytes → decoded_id (encode_to_string bytes) ≡ bytes
unfolding decoded_id encode_to_string
decoded_id-encode_to_string bytes h =
    ap octets (values-symbols (sextets bytes) (sextets-below bytes h)) ∙ octets-sextets bytes h

after_root : List ℕ → List ℕ
after_root (a ∷ b ∷ c ∷ d ∷ e ∷ f ∷ g ∷ h ∷ i ∷ j ∷ rest) = rest
after_root path = []

-- Two volume ids with the same path are the same, and the path has no slash after the directory of
-- the entries: it is a name in this directory, whatever the id.
pub vac_path_injective :
    (id other : List ℕ)
    → All IsByte id
    → All IsByte other
    → (vac_path id ≡ vac_path other → id ≡ other)
      × ((name : List ℕ) × (vac_path id ≡ vac_root ++ name) × All (λ c. c ≢ b'/') name)
unfolding vac_path after_root encode_to_string
vac_path_injective id other h k = (
  λ e.
      sym (decoded_id-encode_to_string id h)
      ∙ ap (λ p. decoded_id (after_root p)) e
      ∙ decoded_id-encode_to_string other k,
  (encode_to_string id, refl, symbols-NoSlash (sextets id) (sextets-below id h)),
)
