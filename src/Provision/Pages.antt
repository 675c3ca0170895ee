-- ===== src/Provision/Pages.antt =====
-- The pages of a bucket and the removal of their children.
use seaweedfs_csi_driver.Base.{
  ℕ, zero, suc, ◌≤◌, ◌<◌, String, Bool, true, false, none, List, [], ◌∷◌, ◌++◌, length, ◌≡◌, ◌≢◌,
  inl, inr, refl, sym, ◌∙◌, ap, arith, eq_false, Bool-cases,
}
use seaweedfs_csi_driver.Base.Exec.{ok, pure, gets, ◌>>=◌}
use seaweedfs_csi_driver.Provision.{
  Client, FilerCall, remove, Filers, Provisioner, perform, returned, logged,
}
use seaweedfs_csi_driver.Provision.Delete.{
  Page, page_of, has_any, has_more, remove_children, empty_page, empty_pages,
}

-- A listing of the first of the names: an entry is marked as the last one exactly if no name follows,
-- and where the listing breaks off before the end, what follows is what comes after its last name.
pub data Lists (rest : String → List String) : List String → List (String × Bool) → Type 0 where
  lists_nothing : Lists rest [] []
  lists_last : (name : String) → name ≢ "" → Lists rest (name ∷ []) ((name, true) ∷ [])
  breaks_off :
      (name : String) (names : List String)
      → name ≢ ""
      → rest name ≡ names
      → Lists rest (name ∷ names) ((name, false) ∷ [])
  goes_on :
      (name : String) (names : List String) (e : String × Bool) (entries : List (String × Bool))
      → name ≢ ""
      → Lists rest names (e ∷ entries)
      → Lists rest (name ∷ names) ((name, false) ∷ e ∷ entries)

-- What a page says of the names.
record IsPageOf (rest : String → List String) (names : List String) (page : Page) : Type 0 where
  some_children : has_any page.children ≡ true
  more : page.saw_last ≡ false → (page.children ++ rest page.last ≡ names) × (page.last ≢ "")
  over : page.saw_last ≡ true → page.children ≡ names

module _ (rest : String → List String) where
  listed-IsPageOf :
      (last : String) (names : List String) (e : String × Bool) (entries : List (String × Bool))
      → Lists rest names (e ∷ entries)
      → IsPageOf rest names (page_of last (e ∷ entries))
  unfolding page_of has_any
  listed-IsPageOf last _ _ _ (lists_last name named) =
      rw (eq_false name "" named)
        (record { some_children = refl; more = λ h. absurd (ground (arith, h)); over = λ h. refl })
  listed-IsPageOf last _ _ _ (breaks_off name names named follows) =
      rw (eq_false name "" named) (record {
        some_children = refl;
        more = λ h. (ap (λ x. name ∷ x) follows, named);
        over = λ h. absurd (ground (arith, h));
      })
  listed-IsPageOf last _ _ _ (goes_on name names e entries named h) =
      let inner = listed-IsPageOf name names e entries h in
      rw (eq_false name "" named) (record {
        some_children = refl;
        more = λ q. (ap (λ x. name ∷ x) (inner.more q).0, (inner.more q).1);
        over = λ q. ap (λ x. name ∷ x) (inner.over q);
      })

module _ (client : Client) (path : String) where
  abbrev pub removed : List String → List FilerCall → List FilerCall
  removed [] log = log
  removed (child ∷ children) log = removed children (remove client path child false ∷ log)

  abbrev pub emptied : List String → Provisioner → Provisioner
  emptied children s = record s { log = removed children s.log }

  -- A filer that keeps a directory: `rest` has the names after a given one in its order. It lists, in
  -- that order, some of the names after the one it is asked for, at least one if there are any, and
  -- takes the removal of each child.
  pub record IsDirectory (filers : Filers) (rest : String → List String) : Type 0 where
    pub lists :
        (log : List FilerCall) (after : String)
        → (entries : List (String × Bool)) × (filers.seaweed_list log client path after 1000
            ≡ ok entries)
          × Lists rest (rest after) entries
    pub accepts :
        (log : List FilerCall) (child : String)
        → filers.outcome log (remove client path child false) ≡ none

  -- What the pages are read as.
  record IsPaged (filers : Filers) (rest : String → List String) : Type 0 where
    pub entries : List FilerCall → String → List (String × Bool)
    pub answers :
        (log : List FilerCall) (after : String)
        → filers.seaweed_list log client path after 1000 ≡ ok (entries log after)
    pub continues :
        (log : List FilerCall) (after : String)
        → has_more (page_of "" (entries log after)) ≡ true
        → (page_of "" (entries log after)).children ++ rest (page_of "" (entries log after)).last
          ≡ rest after
    pub named :
        (log : List FilerCall) (after : String)
        → has_more (page_of "" (entries log after)) ≡ true
        → (page_of "" (entries log after)).last ≢ ""
    pub ends :
        (log : List FilerCall) (after : String)
        → has_more (page_of "" (entries log after)) ≡ false
        → (page_of "" (entries log after)).children ≡ rest after
    pub takes :
        (log : List FilerCall) (child : String)
        → filers.outcome log (remove client path child false) ≡ none

  removed-++ :
      (xs ys : List String) (log : List FilerCall)
      → removed (xs ++ ys) log ≡ removed ys (removed xs log)
  removed-++ [] ys log = refl
  removed-++ (x ∷ xs) ys log = removed-++ xs ys (remove client path x false ∷ log)

  remove_children_all :
      (children : List String) (s : Provisioner)
      → ((log : List FilerCall) (child : String)
          → s.filers.outcome log (remove client path child false) ≡ none)
      → remove_children client path children s ≡ (ok tt, emptied children s)
  unfolding remove_children perform returned ◌>>=◌ pure
  remove_children_all [] s h = refl
  remove_children_all (child ∷ children) s h =
      rw (h s.log child)
        (remove_children_all children (logged (remove client path child false) s) h)

  has_more_some : (page : Page) → has_more page ≡ true → 0 < length page.children
  unfolding has_more has_any
  has_more_some page h = go page.children (ground (arith, h))
    where
      go : (xs : List String) → has_any xs ≡ true → 0 < length xs
      go [] h = absurd (ground (arith, h))
      go (x ∷ xs) h = omega arith

  length-rest : (xs ys zs : List String) → xs ++ ys ≡ zs → 0 < length xs → length ys < length zs
  length-rest [] ys zs h lt = absurd (omega (arith, lt))
  length-rest (x ∷ xs) ys zs h lt = let le = longer xs ys in rw (sym h) (omega (arith, le))
    where
      longer : (xs ys : List String) → length ys ≤ length (xs ++ ys)
      longer [] ys = omega arith
      longer (x ∷ xs) ys = let le = longer xs ys in omega (arith, le)

  module _ (rest : String → List String) where
    page-continues :
        (names : List String) (page : Page)
        → IsPageOf rest names page
        → has_more page ≡ true
        → (page.children ++ rest page.last ≡ names) × (page.last ≢ "")
    unfolding has_more
    page-continues names page p h = p.more (ground (arith, h))

    page-ends :
        (names : List String) (page : Page)
        → IsPageOf rest names page
        → has_more page ≡ false
        → page.children ≡ names
    unfolding has_more
    page-ends names page p h = let any = p.some_children in p.over (ground (arith, h, any))

    Lists-continues :
        (names : List String) (entries : List (String × Bool))
        → Lists rest names entries
        → has_more (page_of "" entries) ≡ true
        → ((page_of "" entries).children ++ rest (page_of "" entries).last ≡ names)
          × ((page_of "" entries).last ≢ "")
    unfolding has_more page_of has_any
    Lists-continues names [] l h = absurd (ground (arith, h))
    Lists-continues names (e ∷ entries) l h =
        page-continues names _ (listed-IsPageOf rest "" names e entries l) h

    Lists-ends :
        (names : List String) (entries : List (String × Bool))
        → Lists rest names entries
        → has_more (page_of "" entries) ≡ false
        → (page_of "" entries).children ≡ names
    unfolding page_of
    Lists-ends _ _ lists_nothing h = refl
    Lists-ends names (e ∷ entries) l h =
        page-ends names _ (listed-IsPageOf rest "" names e entries l) h

    directory-IsPaged : (filers : Filers) → IsDirectory filers rest → IsPaged filers rest
    directory-IsPaged filers d = record {
      entries = λ log after. (d.lists log after).0;
      answers = λ log after. (d.lists log after).1;
      continues = λ log after h. (Lists-continues (rest after) _ (d.lists log after).2 h).0;
      named = λ log after h. (Lists-continues (rest after) _ (d.lists log after).2 h).1;
      ends = λ log after h. Lists-ends (rest after) _ (d.lists log after).2 h;
      takes = d.accepts;
    }

    empty_pages_all :
        (fuel : ℕ) (after : String) (s : Provisioner)
        → IsPaged s.filers rest
        → length (rest after) < fuel
        → empty_pages client path fuel after s ≡ (ok true, emptied (rest after) s)
    unfolding empty_pages empty_page ◌>>=◌ gets pure
    empty_pages_all zero after s d lt = absurd (omega (arith, lt))
    empty_pages_all (suc fuel) after s d lt =
        let page = page_of "" (d.entries s.log after) in
        rw (d.answers s.log after) (
          rw (remove_children_all page.children s d.takes) (elim (Bool-cases (has_more page)) [
            | inl e ↦ rw e (
                rw (eq_false page.last "" (d.named s.log after e)) (
                  empty_pages_all fuel page.last (emptied page.children s) d
                    (shorter page e (d.continues s.log after e))
                  ∙ ap (λ log. (ok true, record s { log = log }))
                      (sym (removed-++ page.children (rest page.last) s.log)
                        ∙ ap (λ names. removed names s.log) (d.continues s.log after e))))
            | inr e ↦ rw e (ap (λ names. (ok true, emptied names s)) (d.ends s.log after e))
          ]))
      where
        shorter :
            (page : Page)
            → has_more page ≡ true
            → page.children ++ rest page.last ≡ rest after
            → length (rest page.last) < fuel
        shorter page e h =
            let less =
              length-rest page.children (rest page.last) (rest after) h (has_more_some page e) in
            omega (arith, less, lt)

    pub empty_directory_all :
        (fuel : ℕ) (after : String) (s : Provisioner)
        → IsDirectory s.filers rest
        → length (rest after) < fuel
        → empty_pages client path fuel after s ≡ (ok true, emptied (rest after) s)
    empty_directory_all fuel after s d lt =
        empty_pages_all fuel after s (directory-IsPaged s.filers d) lt
