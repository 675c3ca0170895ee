-- ===== src/GoPath/Normal.antt =====
-- Absolute paths made of components: what path.Clean, path.Join, path.Dir and path.Base make of them.
use Prim.Native.String.{◌++◌ as ◌^^◌}
use text.Mathlib.TextLemmas.{cons-append, nil-append}
use seaweedfs_csi_driver.Base.{
  String, true, List, [], ◌∷◌, ◌++◌, All, ◌≡◌, ◌≢◌, refl, sym, ap, ◌∙◌, arith, eq_false,
  if◌then◌else◌, ◌==◌,
}
use seaweedfs_csi_driver.GoPath.{
  split, join, is_abs, push_component, clean_components, reverse_onto, rebuild, clean, drop_last,
  dir, last_component, base, join_path,
}
use seaweedfs_csi_driver.GoPath.Split.{NoSlash, IsComponent, split-slash, split-NoSlash, split-join}

-- The absolute path with the given components.
abbrev pub absolute : List String → String
absolute ws = "/" ^^ join "/" ws

slash_first : (s : String) → "/" ^^ s ≡ String.◌∷◌ "/" s
slash_first s = cons-append "/" "" s ∙ ap (String.◌∷◌ "/") (nil-append s)

components-NoSlash : (ws : List String) → All IsComponent ws → All NoSlash ws
components-NoSlash [] h = tt
components-NoSlash (w ∷ ws) h = (h.0.0, components-NoSlash ws h.1)

split-absolute :
    (w : String) (ws : List String)
    → All IsComponent (w ∷ ws)
    → split b'/' (absolute (w ∷ ws)) ≡ "" ∷ w ∷ ws
unfolding split
split-absolute w ws h =
    ap (split b'/') (slash_first (join "/" (w ∷ ws)))
    ∙ ap (λ xs. "" ∷ xs) (split-join w ws h.0.0 (components-NoSlash ws h.1))

pub is_abs-absolute : (ws : List String) → is_abs (absolute ws) ≡ true
unfolding is_abs
is_abs-absolute ws = ap is_abs (slash_first (join "/" ws))

clean_components-reverse :
    (out ws : List String) → All IsComponent ws → clean_components true out ws ≡ reverse_onto out ws
unfolding clean_components push_component reverse_onto
clean_components-reverse out [] h = refl
clean_components-reverse out (w ∷ ws) h =
    let (slashes, empty, dot, dots) = h.0 in
    rw (eq_false w "" empty, eq_false w "." dot, eq_false w ".." dots)
      (clean_components-reverse (w ∷ out) ws h.1)

reverse_onto-twice :
    (a b ws : List String) → reverse_onto a (reverse_onto b ws) ≡ reverse_onto (ws ++ a) b
unfolding reverse_onto
reverse_onto-twice a b [] = refl
reverse_onto-twice a b (w ∷ ws) = reverse_onto-twice a (w ∷ b) ws

append_nothing : (ws : List String) → ws ++ [] ≡ ws
append_nothing [] = refl
append_nothing (w ∷ ws) = ap (λ xs. w ∷ xs) (append_nothing ws)

rebuild-components :
    (ws : List String)
    → All IsComponent ws
    → rebuild true (clean_components true [] ("" ∷ ws)) ≡ absolute ws
unfolding rebuild clean_components push_component reverse_onto
rebuild-components ws h =
    rw (clean_components-reverse [] ws h)
      (ap absolute (reverse_onto-twice [] [] ws ∙ append_nothing ws))

clean-components :
    (p : String) (ws : List String)
    → is_abs p ≡ true
    → split b'/' p ≡ "" ∷ ws
    → All IsComponent ws
    → clean p ≡ absolute ws
unfolding clean
clean-components p ws a e h = rw a (rw e (rebuild-components ws h))

split-under :
    (w v : String) (ws : List String)
    → All IsComponent (w ∷ ws)
    → NoSlash v
    → split b'/' (absolute (w ∷ ws) ^^ "/" ^^ v) ≡ "" ∷ w ∷ (ws ++ v ∷ [])
split-under w v ws h k =
    split-slash (absolute (w ∷ ws)) v
    ∙ ap (λ xs. xs ++ split b'/' v) (split-absolute w ws h)
    ∙ ap (λ xs. "" ∷ w ∷ (ws ++ xs)) (split-NoSlash v k)

components_under :
    (v : String) (ws : List String)
    → All IsComponent ws
    → IsComponent v
    → All IsComponent (ws ++ v ∷ [])
components_under v [] h k = (k, tt)
components_under v (w ∷ ws) h k = (h.0, components_under v ws h.1 k)

drop_last-under : (v : String) (ws : List String) → drop_last (ws ++ v ∷ []) ≡ ws
unfolding drop_last
drop_last-under v [] = refl
drop_last-under v (w ∷ []) = refl
drop_last-under v (w ∷ x ∷ ws) = ap (λ xs. w ∷ xs) (drop_last-under v (x ∷ ws))

last_component-under :
    (found v : String) (ws : List String) → v ≢ "" → last_component found (ws ++ v ∷ []) ≡ v
unfolding last_component
last_component-under found v [] h = rw (eq_false v "" h) refl
last_component-under found v (w ∷ ws) h = last_component-under (if w == "" then found else w) v ws h

is_abs-filled : (p : String) → is_abs p ≡ true → p ≢ ""
unfolding is_abs
is_abs-filled p h e =
    let none_there : is_abs "" ≡ true = sym (ap is_abs e) ∙ h in absurd (ground (arith, none_there))

absolute-under : (v : String) (ws : List String) → is_abs (absolute ws ^^ "/" ^^ v) ≡ true
unfolding is_abs
absolute-under v ws =
    ap is_abs (
      ap (λ p. p ^^ "/" ^^ v) (slash_first (join "/" ws))
      ∙ cons-append "/" (join "/" ws) ("/" ^^ v))

-- path.Join of an absolute path and a component.
pub join_path-absolute :
    (w v : String) (ws : List String)
    → All IsComponent (w ∷ ws)
    → IsComponent v
    → join_path (absolute (w ∷ ws)) v ≡ absolute (w ∷ (ws ++ v ∷ []))
unfolding join_path
join_path-absolute w v ws h k =
    rw
      (
        eq_false (absolute (w ∷ ws)) "" (is_abs-filled _ (is_abs-absolute (w ∷ ws))),
        eq_false v "" k.1,
      )
      (clean-components (absolute (w ∷ ws) ^^ "/" ^^ v) (w ∷ (ws ++ v ∷ []))
        (absolute-under v (w ∷ ws)) (split-under w v ws h k.0) (h.0, components_under v ws h.1 k))

-- path.Dir gives the path back, and path.Base the component.
pub dir-absolute :
    (w v : String) (ws : List String)
    → All IsComponent (w ∷ ws)
    → IsComponent v
    → dir (absolute (w ∷ (ws ++ v ∷ []))) ≡ absolute (w ∷ ws)
unfolding dir drop_last
dir-absolute w v ws h k = rw (is_abs-absolute (w ∷ (ws ++ v ∷ []))) (
    rw (split-absolute w (ws ++ v ∷ []) (h.0, components_under v ws h.1 k))
      (rw (drop_last-under v (w ∷ ws)) (rebuild-components (w ∷ ws) h)))

pub base-absolute :
    (w v : String) (ws : List String)
    → All IsComponent (w ∷ ws)
    → IsComponent v
    → base (absolute (w ∷ (ws ++ v ∷ []))) ≡ v
unfolding base last_component
base-absolute w v ws h k =
    let p = absolute (w ∷ (ws ++ v ∷ [])) in
    rw (eq_false p "" (is_abs-filled p (is_abs-absolute (w ∷ (ws ++ v ∷ []))))) (
      rw (split-absolute w (ws ++ v ∷ []) (h.0, components_under v ws h.1 k))
        (rw (last_component-under "" v (w ∷ ws) k.1) (rw (eq_false v "" k.1) refl)))
