-- ===== src/MountInfo/Escape.antt =====
-- Decoding a field of mountinfo gives back the path that the kernel encoded.
use Prim.Native.Char.{Char, code}
use text.Mathlib.TextEquality.{Char-path}
use seaweedfs_csi_driver.Base.{
  ℕ, ◌<◌, String, true, false, eqb, if◌then◌else◌, ◌≡◌, refl, sym, ◌∙◌, ap, arith, Bool-cases, inl,
  inr,
}
use seaweedfs_csi_driver.Chars.{char_of, code-char_of}
use seaweedfs_csi_driver.MountInfo.{unescape_loop, has_backslash, unescape_mount_field}

octal_text : Char → Char → Char → String → String
octal_text a b c s = String.◌∷◌ "\\" (String.◌∷◌ a (String.◌∷◌ b (String.◌∷◌ c s)))

-- What the kernel writes for one character: space, tab, newline and backslash as three octal digits.
unfoldable pub escape_char : Char → String → String
unfolding octal_text
escape_char c s =
    if eqb (code c) 32
    then octal_text "0" "4" "0" s
    else if eqb (code c) 9
    then octal_text "0" "1" "1" s
    else if eqb (code c) 10
    then octal_text "0" "1" "2" s
    else if eqb (code c) 92
    then octal_text "1" "3" "4" s
    else String.◌∷◌ c s

unfoldable pub escape_mount_field : String → String
unfolding escape_char
escape_mount_field String.[] = ""
escape_mount_field (String.◌∷◌ c s) = escape_char c (escape_mount_field s)

loop_plain :
    (c : Char) (s : String)
    → eqb (code c) 92 ≡ false
    → unescape_loop (String.◌∷◌ c s) ≡ String.◌∷◌ c (unescape_loop s)
unfolding unescape_loop
loop_plain c String.[] h = refl
loop_plain c (String.◌∷◌ d String.[]) h = refl
loop_plain c (String.◌∷◌ d (String.◌∷◌ e String.[])) h = refl
loop_plain c (String.◌∷◌ d (String.◌∷◌ e (String.◌∷◌ f s))) h = rw h refl

same_char : (c : Char) (n : ℕ) → eqb (code c) n ≡ true → n < 55296 → char_of n ≡ c
same_char c n h b = Char-path (char_of n) c (code-char_of n b ∙ ground arith)

decoded :
    (c : Char) (n : ℕ) (s : String)
    → eqb (code c) n ≡ true
    → n < 55296
    → String.◌∷◌ (char_of n) (unescape_loop s) ≡ String.◌∷◌ c (unescape_loop s)
decoded c n s h b = ap (λ x. String.◌∷◌ x (unescape_loop s)) (same_char c n h b)

loop-escape_char :
    (c : Char) (s : String) → unescape_loop (escape_char c s) ≡ String.◌∷◌ c (unescape_loop s)
unfolding escape_char unescape_loop
loop-escape_char c s = elim (Bool-cases (eqb (code c) 32)) [
  | inl e ↦ rw e (decoded c 32 s e (ground arith))
  | inr e ↦ elim (Bool-cases (eqb (code c) 9)) [
    | inl f ↦ rw (e, f) (decoded c 9 s f (ground arith))
    | inr f ↦ elim (Bool-cases (eqb (code c) 10)) [
      | inl g ↦ rw (e, f, g) (decoded c 10 s g (ground arith))
      | inr g ↦ elim (Bool-cases (eqb (code c) 92)) [
        | inl h ↦ rw (e, f, g, h) (decoded c 92 s h (ground arith))
        | inr h ↦ rw (e, f, g, h) (loop_plain c s h)
      ]
    ]
  ]
]

loop-escape : (s : String) → unescape_loop (escape_mount_field s) ≡ s
unfolding escape_mount_field unescape_loop
loop-escape String.[] = refl
loop-escape (String.◌∷◌ c s) =
    loop-escape_char c (escape_mount_field s) ∙ ap (String.◌∷◌ c) (loop-escape s)

-- A text without a backslash stays as it is, so the shortcut changes nothing.
loop_without : (s : String) → has_backslash s ≡ false → unescape_loop s ≡ s
unfolding has_backslash unescape_loop
loop_without String.[] h = refl
loop_without (String.◌∷◌ c s) h =
    loop_plain c s (ground arith) ∙ ap (String.◌∷◌ c) (loop_without s (ground arith))

pub unescape-loop : (s : String) → unescape_mount_field s ≡ unescape_loop s
unfolding unescape_mount_field
unescape-loop s = elim (Bool-cases (has_backslash s)) [
  | inl e ↦ rw e refl
  | inr e ↦ rw e (sym (loop_without s e))
]

-- Decoding a field of mountinfo gives back the path whose spaces, tabs, newlines and backslashes the
-- kernel wrote in octal, whatever else the path holds.
pub unescape-escape_mount_field : (s : String) → unescape_mount_field (escape_mount_field s) ≡ s
unescape-escape_mount_field s = unescape-loop (escape_mount_field s) ∙ loop-escape s
