-- ===== src/GoPath.antt =====
-- Go's path package (path.Clean, path.Dir, path.Base, path.Join, path.IsAbs; filepath is the same
-- on Linux), and strings.Split, strings.Join and strings.HasPrefix, as the driver calls them.
pub mod Split
pub mod Normal
use Prim.Native.Char.{Char, code}
use Prim.Native.String.{◌++◌ as ◌^^◌}
use seaweedfs_csi_driver.Base.{
  ℕ, String, Bool, true, false, ◌&&◌, ◌||◌, List, [], ◌∷◌, ◌≡◌, refl, eqb, if◌then◌else◌, ◌==◌,
}

put_char : Char → List String → List String
put_char c [] = String.◌∷◌ c "" ∷ []
put_char c (w ∷ ws) = String.◌∷◌ c w ∷ ws

-- strings.Split(s, sep) at a separator of one character.
unfoldable pub split : ℕ → String → List String
unfolding put_char
split sep String.[] = "" ∷ []
split sep (String.◌∷◌ c s) =
    let rest = split sep s in if eqb (code c) sep then "" ∷ rest else put_char c rest

unfoldable pub join : String → List String → String
join sep [] = ""
join sep (w ∷ []) = w
join sep (w ∷ v ∷ ws) = w ^^ sep ^^ join sep (v ∷ ws)

unfoldable pub has_prefix : List String → List String → Bool
has_prefix [] ws = true
has_prefix (p ∷ ps) [] = false
has_prefix (p ∷ ps) (w ∷ ws) = p == w && has_prefix ps ws

-- path.IsAbs.
unfoldable pub is_abs : String → Bool
is_abs String.[] = false
is_abs (String.◌∷◌ c s) = eqb (code c) b'/'

-- One component more on the cleaned ones, innermost first.
push_component : Bool → List String → String → List String
push_component rooted out w =
    if w == "" || w == "."
    then out
    else if w == ".."
    then elim out [
      | [] ↦ if rooted then [] else ".." ∷ []
      | v ∷ vs ↦ if v == ".." then ".." ∷ v ∷ vs else vs
    ]
    else w ∷ out

clean_components : Bool → List String → List String → List String
unfolding push_component
clean_components rooted out [] = out
clean_components rooted out (w ∷ ws) = clean_components rooted (push_component rooted out w) ws

reverse_onto : List String → List String → List String
reverse_onto acc [] = acc
reverse_onto acc (w ∷ ws) = reverse_onto (w ∷ acc) ws

rebuild : Bool → List String → String
unfolding reverse_onto join
rebuild true out = "/" ^^ join "/" (reverse_onto [] out)
rebuild false [] = "."
rebuild false (w ∷ ws) = join "/" (reverse_onto [] (w ∷ ws))

unfoldable pub clean : String → String
unfolding rebuild clean_components split is_abs
clean p = rebuild (is_abs p) (clean_components (is_abs p) [] (split b'/' p))

drop_last : List String → List String
drop_last [] = []
drop_last (w ∷ []) = []
drop_last (w ∷ v ∷ ws) = w ∷ drop_last (v ∷ ws)

-- path.Dir: what stands before the last slash, cleaned.
unfoldable pub dir : String → String
unfolding clean drop_last
dir p = rebuild (is_abs p) (clean_components (is_abs p) [] (drop_last (split b'/' p)))

last_component : String → List String → String
last_component found [] = found
last_component found (w ∷ ws) = last_component (if w == "" then found else w) ws

-- path.Base: the last component that is not empty.
unfoldable pub base : String → String
unfolding last_component split
base p =
    if p == "" then "." else let w = last_component "" (split b'/' p) in if w == "" then "/" else w

-- path.Join of two elements: an empty one is left out.
unfoldable pub join_path : String → String → String
unfolding clean
join_path a b =
    if a == ""
    then (if b == "" then "" else clean b)
    else if b == ""
    then clean a
    else clean (a ^^ "/" ^^ b)

clean_dots : clean "/buckets//a/./b/../c/" ≡ "/buckets/a/c"
unfolding clean
clean_dots = refl

clean_up : clean "../x/../.." ≡ "../.."
unfolding clean
clean_up = refl

dir_plain : dir "/buckets/pvc-1" ≡ "/buckets"
unfolding dir
dir_plain = refl

base_slash : base "/buckets/pvc-1/" ≡ "pvc-1"
unfolding base
base_slash = refl

join_root : join_path "/buckets" "a" ≡ "/buckets/a"
unfolding join_path
join_root = refl
