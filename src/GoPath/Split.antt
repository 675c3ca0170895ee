-- ===== src/GoPath/Split.antt =====
-- Splitting at slashes and joining.
use Prim.Native.Char.{Char, code}
use Prim.Native.String.{◌++◌ as ◌^^◌}
use text.Mathlib.TextLemmas.{cons-append, nil-append}
use seaweedfs_csi_driver.Base.{
  String, false, List, [], ◌∷◌, ◌++◌, All, ◌≡◌, ◌≢◌, refl, ap, ◌∙◌, eqb, Bool-cases, inl, inr,
}
use seaweedfs_csi_driver.GoPath.{put_char, split, join}

-- No character is a slash.
abbrev pub NoSlash : String → Type 0
NoSlash String.[] = Unit
NoSlash (String.◌∷◌ c s) = (eqb (code c) b'/' ≡ false) × NoSlash s

abbrev Filled : List String → Type 0
Filled [] = ⊥
Filled (w ∷ ws) = Unit

put_char-Filled : (c : Char) (ws : List String) → Filled (put_char c ws)
unfolding put_char
put_char-Filled c [] = tt
put_char-Filled c (w ∷ ws) = tt

split-Filled : (s : String) → Filled (split b'/' s)
unfolding split
split-Filled String.[] = tt
split-Filled (String.◌∷◌ c s) = elim (Bool-cases (eqb (code c) b'/')) [
  | inl e ↦ rw e tt
  | inr e ↦ rw e (put_char-Filled c (split b'/' s))
]

put_char-append :
    (c : Char) (xs ys : List String) → Filled xs → put_char c (xs ++ ys) ≡ put_char c xs ++ ys
unfolding put_char
put_char-append c [] ys h = absurd h
put_char-append c (x ∷ xs) ys h = refl

-- The pieces of a text that is put together at a slash.
pub split-slash : (s t : String) → split b'/' (s ^^ "/" ^^ t) ≡ split b'/' s ++ split b'/' t
unfolding split
split-slash String.[] t =
    ap (split b'/')
      (nil-append ("/" ^^ t) ∙ cons-append "/" "" t ∙ ap (String.◌∷◌ "/") (nil-append t))
split-slash (String.◌∷◌ c s) t =
    let rest = split-slash s t in
    ap (split b'/') (cons-append c s ("/" ^^ t)) ∙ elim (Bool-cases (eqb (code c) b'/')) [
      | inl e ↦ rw e (ap (λ ws. "" ∷ ws) rest)
      | inr e ↦
          rw e (
            ap (put_char c) rest ∙ put_char-append c (split b'/' s) (split b'/' t) (split-Filled s))
    ]

-- A component: a piece of a path that cleaning keeps.
abbrev pub IsComponent : String → Type 0
IsComponent w = NoSlash w × (w ≢ "") × (w ≢ ".") × (w ≢ "..")

pub split-NoSlash : (s : String) → NoSlash s → split b'/' s ≡ s ∷ []
unfolding split put_char
split-NoSlash String.[] h = refl
split-NoSlash (String.◌∷◌ c s) h = rw h.0 (ap (put_char c) (split-NoSlash s h.1))

pub split-join :
    (w : String) (ws : List String)
    → NoSlash w
    → All NoSlash ws
    → split b'/' (join "/" (w ∷ ws)) ≡ w ∷ ws
unfolding join
split-join w [] h k = split-NoSlash w h
split-join w (v ∷ ws) h k =
    split-slash w (join "/" (v ∷ ws))
    ∙ ap (λ xs. xs ++ split b'/' (join "/" (v ∷ ws))) (split-NoSlash w h)
    ∙ ap (λ xs. w ∷ xs) (split-join v ws k.0 k.1)
