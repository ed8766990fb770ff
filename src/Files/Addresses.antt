-- ===== src/Files/Addresses.antt =====
-- The paths of frontend/app/(dashboard)/files/page.tsx against absolute paths given by their names.
use ventopanel.Base.{
  ℕ, zero, suc, ◌+◌, ◌≡◌, refl, ap, sym, ◌∙◌, Bool, true, false, none, some, List, [], ◌∷◌, ◌++◌,
  append_assoc, append-nil, Text, text, text_eq, text_eq_iff, truthy, split_on, split_on-append,
  split_on_of_Without, Without, take, get_elem?, All, keep_if_of_All, arith,
}
use mathlib.Core.Option
use ventopanel.Files.Paths.{
  or_root, strip_last, join, crumb_parts, crumb, crumbs_from, breadcrumbs, last_name,
  drop_last_name, go_up, child_path, before_last, rename_path,
}

-- A name of a file: not empty, and without a slash.
abbrev pub IsName : Text → Type 0
IsName p = (truthy p ≡ true) × Without b'/' p

abbrev pub below_root : List Text → Text
below_root [] = []
below_root (p ∷ ps) = b'/' ∷ p ++ below_root ps

-- The absolute path with these names.
abbrev pub absolute : List Text → Text
absolute ps = or_root (below_root ps)

slash_join : (p : Text) (ps : List Text) → b'/' ∷ join (p ∷ ps) ≡ below_root (p ∷ ps)
slash_join p [] = rw (append-nil p) refl
slash_join p (q ∷ ps) = ap (λ s. b'/' ∷ p ++ s) (slash_join q ps)

split_on-below_root :
    (p : Text) (ps : List Text)
    → IsName p
    → All IsName ps
    → split_on b'/' (p ++ below_root ps) ≡ p ∷ ps
split_on-below_root p [] h k = rw (append-nil p) (split_on_of_Without b'/' p h.1)
split_on-below_root p (q ∷ ps) h k =
    rw (split_on-append b'/' p (q ++ below_root ps) h.1)
      (ap (◌∷◌ p) (split_on-below_root q ps k.0 k.1))

All-truthy : (ps : List Text) → All IsName ps → All (λ p. truthy p ≡ true) ps
All-truthy [] h = tt
All-truthy (p ∷ ps) (h, k) = (h.0, All-truthy ps k)

pub crumb_parts-absolute : (ps : List Text) → All IsName ps → crumb_parts (absolute ps) ≡ ps
unfolding crumb_parts
crumb_parts-absolute [] h = refl
crumb_parts-absolute (p ∷ ps) h =
    rw (split_on-below_root p ps h.0 h.1) (keep_if_of_All truthy (p ∷ ps) (All-truthy (p ∷ ps) h))

get_elem?-crumbs_from :
    (i k : ℕ) (parts rest : List Text)
    → get_elem? (crumbs_from i parts rest) k ≡ Option.map (crumb parts (i + k)) (get_elem? rest k)
get_elem?-crumbs_from i k parts [] = refl
get_elem?-crumbs_from i zero parts (p ∷ rest) = ap (λ n. some (crumb parts n p)) (omega arith)
get_elem?-crumbs_from i (suc k) parts (p ∷ rest) =
    get_elem?-crumbs_from (suc i) k parts rest
    ∙ ap (λ n. Option.map (crumb parts n) (get_elem? rest k)) (omega arith)

abbrev pub folder_crumb : List Text → ℕ → Text → Text × Text
folder_crumb ps k p = (p, absolute (take (suc k) ps))

map-crumb :
    (k : ℕ) (ps : List Text)
    → Option.map (crumb ps k) (get_elem? ps k) ≡ Option.map (folder_crumb ps k) (get_elem? ps k)
map-crumb k [] = refl
map-crumb k (p ∷ ps) =
    ap (λ to. Option.map (λ q. (q, to)) (get_elem? (p ∷ ps) k)) (slash_join p (take k ps))

-- The crumb at each place of an absolute path shows the name there and leads to the folder of
-- the names up to it, if no name is empty or holds a slash.
breadcrumbs-absolute :
    (ps : List Text) (k : ℕ)
    → All IsName ps
    → get_elem? (breadcrumbs (absolute ps)) k ≡ Option.map (folder_crumb ps k) (get_elem? ps k)
unfolding breadcrumbs
breadcrumbs-absolute ps k h = rw (crumb_parts-absolute ps h) (
    get_elem?-crumbs_from 0 k ps ps
    ∙ ap (λ n. Option.map (crumb ps n) (get_elem? ps k)) (omega arith)
    ∙ map-crumb k ps)

below_root-snoc :
    (ps : List Text) (p : Text) → below_root (ps ++ p ∷ []) ≡ below_root ps ++ b'/' ∷ p
below_root-snoc [] p = rw (append-nil p) refl
below_root-snoc (q ∷ ps) p = rw (below_root-snoc ps p, append_assoc) refl

append-slash : (s p : Text) → text_eq (s ++ b'/' ∷ p) [] ≡ false
append-slash [] p = refl
append-slash (c ∷ s) p = refl

last_name-slash :
    (seen : Bool) (s p : Text) → truthy p ≡ true → last_name seen (s ++ b'/' ∷ p) ≡ false
last_name-slash seen [] [] h = cc
last_name-slash seen [] (c ∷ p) h = ground arith
last_name-slash seen (c ∷ s) p h =
    ground (arith, last_name-slash true s p h, text_eq_iff (s ++ b'/' ∷ p) [], append-slash s p)

last_name-seen : (p : Text) → Without b'/' p → last_name true p ≡ true
last_name-seen [] h = refl
last_name-seen (c ∷ p) (h, k) = ground (arith, last_name-seen p k)

last_name_of_IsName : (p : Text) → IsName p → last_name false p ≡ true
last_name_of_IsName [] h = h.0
last_name_of_IsName (c ∷ p) h = ground (arith, last_name-seen p h.1.1)

drop_last_name-append : (s p : Text) → IsName p → drop_last_name (s ++ b'/' ∷ p) ≡ s
drop_last_name-append [] p h = rw (last_name_of_IsName p h) refl
drop_last_name-append (c ∷ s) p h =
    ground (arith, last_name-slash false s p h.0, drop_last_name-append s p h)

absolute-snoc : (ps : List Text) (p : Text) → absolute (ps ++ p ∷ []) ≡ below_root ps ++ b'/' ∷ p
absolute-snoc [] p = below_root-snoc [] p
absolute-snoc (q ∷ ps) p = below_root-snoc (q ∷ ps) p

not_root : (s p : Text) → truthy p ≡ true → text_eq (s ++ b'/' ∷ p) (text "/") ≡ false
not_root [] [] h = sym h
not_root [] (c ∷ p) h = refl
not_root (c ∷ s) p h = ground (arith, append-slash s p)

-- Going up from a folder leads to the one it is in, if its name is not empty and holds no
-- slash; from the root it leads nowhere.
go_up-absolute :
    (ps : List Text) (p : Text)
    → IsName p
    → (go_up (absolute (ps ++ p ∷ [])) ≡ some (absolute ps)) × (go_up (absolute []) ≡ none)
unfolding go_up
go_up-absolute ps p h = (
  rw (absolute-snoc ps p, not_root (below_root ps) p h.0)
      (ap (λ s. some (or_root s)) (drop_last_name-append (below_root ps) p h)),
  refl,
)

strip_last_of_Without : (p : Text) → Without b'/' p → strip_last p ≡ p
strip_last_of_Without [] h = refl
strip_last_of_Without (c ∷ p) h = ground (arith, strip_last_of_Without p h.1)

append-nonempty : (s t : Text) → truthy t ≡ true → text_eq (s ++ t) [] ≡ false
append-nonempty [] [] h = sym h
append-nonempty [] (c ∷ t) h = refl
append-nonempty (c ∷ s) t h = refl

strip_last-append : (s t : Text) → truthy t ≡ true → strip_last (s ++ t) ≡ s ++ strip_last t
strip_last-append [] t h = refl
strip_last-append (c ∷ s) t h = ground (arith, append-nonempty s t h, strip_last-append s t h)

strip_last-below_root :
    (ps : List Text) → All IsName ps → strip_last (below_root ps) ≡ below_root ps
strip_last-below_root [] h = refl
strip_last-below_root (p ∷ []) (h, k) =
    rw (append-nil p)
      (strip_last-append (b'/' ∷ []) p h.0 ∙ ap (◌∷◌ b'/') (strip_last_of_Without p h.1))
strip_last-below_root (p ∷ q ∷ ps) (h, k) =
    strip_last-append (b'/' ∷ p) (below_root (q ∷ ps)) refl
    ∙ ap (λ s. b'/' ∷ p ++ s) (strip_last-below_root (q ∷ ps) k)

strip_last-absolute : (ps : List Text) → All IsName ps → strip_last (absolute ps) ≡ below_root ps
strip_last-absolute [] h = refl
strip_last-absolute (p ∷ ps) h = strip_last-below_root (p ∷ ps) h

-- A new folder is put into the folder that the page shows, and going up from it leads back.
pub child_path-absolute :
    (ps : List Text) (name : Text)
    → All IsName ps
    → child_path (absolute ps) name ≡ absolute (ps ++ name ∷ [])
unfolding child_path
child_path-absolute ps name h = rw (strip_last-absolute ps h) (sym (absolute-snoc ps name))

before_last_of_Without : (p : Text) → Without b'/' p → before_last p ≡ none
before_last_of_Without [] h = refl
before_last_of_Without (c ∷ p) h = ground (arith, before_last_of_Without p h.1)

before_last-slash : (s p : Text) → Without b'/' p → before_last (s ++ b'/' ∷ p) ≡ some s
before_last-slash [] p h = rw (before_last_of_Without p h) refl
before_last-slash (c ∷ s) p h = rw (before_last-slash s p h) refl

-- A renamed item stays in its folder, unless that is the root: there the new path starts with
-- two slashes; if its old name is not empty and holds no slash.
rename_path-absolute :
    (ps : List Text) (dir old name : Text)
    → IsName old
    → (rename_path (absolute ((dir ∷ ps) ++ old ∷ [])) name ≡ absolute ((dir ∷ ps) ++ name ∷ []))
      × (rename_path (absolute (old ∷ [])) name ≡ text "//" ++ name)
unfolding rename_path
rename_path-absolute ps dir old name h = (
  ap (λ path. rename_path path name) (absolute-snoc (dir ∷ ps) old)
      ∙ rw (before_last-slash (below_root (dir ∷ ps)) old h.1)
          (sym (absolute-snoc (dir ∷ ps) name)),
  rw (append-nil old, before_last-slash [] old h.1) refl,
)
