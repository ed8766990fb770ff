-- ===== src/Files/Toggles.antt =====
-- What the handlers of Files/Selection.antt do to the set of ticked paths.
use ventopanel.Base.{
  ltb→lt, Bool-cases, inl, inr, ℕ, zero, suc, ◌+◌, ◌-◌, ◌≤◌, ◌<◌, ◌≡◌, refl, ap, ltb, if◌then◌else◌,
  Bool, true, false, not, ◌&&◌, ◌||◌, none, some, List, [], ◌∷◌, ◌++◌, map, All, keep_if,
  keep_if_of_All, ◌==◌, Text, text_eq, text_eq_iff, text_eq_refl, length, get_elem?, take, drop,
  includes, arith,
}
use ventopanel.Files.{FileItem}
use ventopanel.Files.Selection.{
  add, delete, add_all, mark, mark_range, Selection, first_of, last_of, toggled, toggle_item,
  toggle_all, selected_items,
}

includes-append :
    (set more : List Text) (q : Text)
    → includes (set ++ more) q ≡ (includes set q || includes more q)
includes-append [] more q = refl
includes-append (p ∷ set) more q = ground (arith, includes-append set more q)

includes_same :
    (set : List Text) (p q : Text) → text_eq p q ≡ true → includes set p ≡ includes set q
includes_same set p q h = ap (includes set) ((text_eq_iff p q).0 h)

includes-add :
    (set : List Text) (p q : Text) → includes (add p set) q ≡ (text_eq p q || includes set q)
unfolding add
includes-add set p q = ground (arith, includes-append set (p ∷ []) q, includes_same set p q)

includes-delete :
    (set : List Text) (p q : Text)
    → includes (delete p set) q ≡ (not (text_eq p q) && includes set q)
unfolding delete
includes-delete [] p q = ground arith
includes-delete (r ∷ set) p q =
    ground (arith, includes-delete set p q, text_eq_iff r p, text_eq_iff r q, text_eq_iff p q)

includes-mark :
    (should : Bool) (set : List Text) (p q : Text)
    → includes (mark should p set) q ≡ (if text_eq p q then should else includes set q)
unfolding mark
includes-mark true set p q = ground (arith, includes-add set p q)
includes-mark false set p q = ground (arith, includes-delete set p q)

-- The paths of `rounds` items from place `i`.
abbrev pub paths_between : ℕ → ℕ → List FileItem → List Text
paths_between i rounds items = map (λ item. item.path) (take rounds (drop i items))

drop-get_elem? :
    (items : List FileItem) (i : ℕ)
    → i < length items
    → (item : FileItem) × (get_elem? items i ≡ some item)
      × (drop i items ≡ item ∷ drop (suc i) items)
drop-get_elem? [] i h = absurd (omega arith)
drop-get_elem? (item ∷ items) zero h = (item, refl, refl)
drop-get_elem? (item ∷ items) (suc i) h = drop-get_elem? items i (omega arith)

abbrev MarkedIn : Bool → List Text → List Text → List Text → Type 0
MarkedIn should paths set result =
    (q : Text) → includes result q ≡ (if includes paths q then should else includes set q)

abbrev MarksRange : Bool → List FileItem → ℕ → ℕ → List Text → Type 0
MarksRange should items i rounds set =
    (result : List Text) × (mark_range should items i rounds set ≡ some result)
    × MarkedIn should (paths_between i rounds items) set result

mark_range-suc :
    (should : Bool) (items : List FileItem) (i rounds : ℕ) (set : List Text) (item : FileItem)
    → get_elem? items i ≡ some item
    → drop i items ≡ item ∷ drop (suc i) items
    → MarksRange should items (suc i) rounds (mark should item.path set)
    → MarksRange should items i (suc rounds) set
unfolding mark_range
mark_range-suc should items i rounds set item found split (result, runs, marked) = (
  result,
  rw (found, mark_range) runs,
  (λ q. rw split (ground (arith, marked q, includes-mark should set item.path q))),
)

mark_range-MarksRange :
    (should : Bool) (items : List FileItem) (i rounds : ℕ) (set : List Text)
    → i + rounds ≤ length items
    → MarksRange should items i rounds set
unfolding mark_range
mark_range-MarksRange should items i zero set h = (set, refl, λ q. refl)
mark_range-MarksRange should items i (suc rounds) set h =
    let (item, found, split) = drop-get_elem? items i (omega arith) in
    mark_range-suc should items i rounds set item found split
      (mark_range-MarksRange should items (suc i) rounds (mark should item.path set) (omega arith))

-- How many items lie from the one place to the other, both counted.
abbrev pub range_size : ℕ → ℕ → ℕ
range_size last idx = suc (last_of last idx - first_of last idx)

toggle_item_of_mark_range :
    (items : List FileItem) (item : FileItem) (last idx : ℕ) (prev next : List Text)
    → mark_range
        (not (includes prev item.path))
        items
        (first_of last idx)
        (range_size last idx)
        prev
      ≡ some next
    → toggle_item true items item idx true (record { selected = prev; last_clicked = some last })
      ≡ some (record { selected = next; last_clicked = some idx })
unfolding toggle_item toggled
toggle_item_of_mark_range items item last idx prev next runs = rw (runs, toggle_item, toggled) refl

-- A click with the shift key, for which React runs the update at once, ticks or unticks every item
-- from the one clicked last to this one, as this one was not ticked or was, and no other; if
-- both are on the page.
pub toggle_item-range :
    (items : List FileItem) (item : FileItem) (last idx : ℕ) (prev : List Text)
    → last < length items
    → idx < length items
    → (next : List Text) × (toggle_item true items item idx true
          (record { selected = prev; last_clicked = some last })
        ≡ some (record { selected = next; last_clicked = some idx }))
      × ((q : Text)
          → includes next q ≡ (
              if includes (paths_between (first_of last idx) (range_size last idx) items) q
              then not (includes prev item.path)
              else includes prev q))
toggle_item-range items item last idx prev h k =
    let (next, runs, marked) =
      mark_range-MarksRange (not (includes prev item.path)) items (first_of last idx)
        (range_size last idx) prev (ground arith) in
    (next, toggle_item_of_mark_range items item last idx prev next runs, marked)

-- A click with the shift key whose update React runs at the next render has the effect of a
-- plain click.
toggle_item-deferred :
    (items : List FileItem) (item : FileItem) (idx : ℕ) (at_once : Bool) (s : Selection)
    → get_elem? items idx ≡ some item
    → toggle_item false items item idx true s ≡ toggle_item at_once items item idx false s
unfolding toggle_item toggled mark_range mark
toggle_item-deferred items item idx at_once s found = ground (arith, found)

get_elem?-none : (items : List FileItem) (i : ℕ) → length items ≤ i → get_elem? items i ≡ none
get_elem?-none [] i h = refl
get_elem?-none (item ∷ items) zero h = absurd (omega arith)
get_elem?-none (item ∷ items) (suc i) h = get_elem?-none items i (omega arith)

mark_range-none :
    (should : Bool) (items : List FileItem) (i rounds : ℕ) (set : List Text)
    → length items < i + rounds
    → i ≤ length items
    → mark_range should items i rounds set ≡ none
unfolding mark_range
mark_range-none should items i zero set h k = absurd (omega arith)
mark_range-none should items i (suc rounds) set h k = elim (Bool-cases (ltb i (length items))) [
  | inl below ↦
      let (item, found, split) = drop-get_elem? items i (ltb→lt i (length items) below) in
      rw (found, mark_range)
        (mark_range-none should items (suc i) rounds (mark should item.path set) (omega arith)
          (ground arith))
  | inr above ↦ rw (get_elem?-none items i (ground arith), mark_range) refl
]

-- A click with the shift key throws, if the item clicked last lies past the items that are left
-- and the update runs at once.
toggle_item-stale :
    (items : List FileItem) (item : FileItem) (last idx : ℕ) (prev : List Text)
    → length items ≤ last
    → idx < length items
    → toggle_item true items item idx true (record { selected = prev; last_clicked = some last })
      ≡ none
unfolding toggle_item toggled
toggle_item-stale items item last idx prev h k =
    rw
      (
        mark_range-none (not (includes prev item.path)) items (first_of last idx)
            (range_size last idx) prev (ground arith) (ground arith),
        toggle_item,
        toggled,
      )
      refl

includes-add_all :
    (paths set : List Text) (q : Text)
    → includes (add_all paths set) q ≡ (includes paths q || includes set q)
unfolding add_all
includes-add_all [] set q = refl
includes-add_all (p ∷ paths) set q =
    ground (arith, includes-add_all paths (add p set) q, includes-add set p q)

All-ticked :
    (paths : List Text) (items : List FileItem)
    → ((q : Text) → includes (map (λ item. item.path) items) q ≡ true → includes paths q ≡ true)
    → All (λ item. includes paths item.path ≡ true) items
All-ticked paths [] h = tt
All-ticked paths (item ∷ items) h = (
  h item.path (ground (arith, text_eq_refl item.path)),
  All-ticked paths items (λ q k. h q (ground arith)),
)

keep_if-nothing : (items : List FileItem) → keep_if (λ item. includes [] item.path) items ≡ []
keep_if-nothing [] = refl
keep_if-nothing (item ∷ items) = keep_if-nothing items

-- The box in the header unticks every item if as many paths are ticked as there are items, and else
-- ticks exactly the items of the page.
selected_items-toggle_all :
    (items : List FileItem) (s : Selection)
    → selected_items items (toggle_all items s)
      ≡ (if length s.selected == length items then [] else items)
unfolding selected_items toggle_all
selected_items-toggle_all items s = ground (
  arith,
  keep_if-nothing items,
  keep_if_of_All (λ item. includes (add_all (map (λ item. item.path) items) []) item.path) items
      (All-ticked (add_all (map (λ item. item.path) items) []) items
        (λ q h. ground (arith, includes-add_all (map (λ item. item.path) items) [] q))),
)
