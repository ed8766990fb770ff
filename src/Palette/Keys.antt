-- ===== src/Palette/Keys.antt =====
-- The arrow keys of Palette.antt on a list that does not change.
use ventopanel.Base.{
  ℕ, zero, suc, ◌-◌, ◌<◌, ◌≡◌, refl, ap, ◌∙◌, min, false, Option, none, some, List, [], ◌∷◌, Text,
  length, get_elem?, arith,
}
use ventopanel.Palette.{
  Item, Palette, item_at, Key, arrow_down, arrow_up, enter, on_key_down, type_query, filtered,
}

pub data Arrow : Type 0 where
  down up : Arrow

abbrev pub key_of : Arrow → Key
key_of down = arrow_down
key_of up = arrow_up

abbrev pub press : List Item → List Arrow → Palette → Palette
press items [] p = p
press items (a ∷ arrows) p = press items arrows (on_key_down items (key_of a) p)

abbrev pub PointsInto : List Item → Palette → Type 0
PointsInto items p = (i : ℕ) × (p.active ≡ some i) × (i < length items)

on_key_down-PointsInto :
    (items : List Item) (a : Arrow) (p : Palette)
    → PointsInto items p
    → PointsInto items (on_key_down items (key_of a) p)
unfolding on_key_down
on_key_down-PointsInto [] a p (i, e, h) = absurd (omega arith)
on_key_down-PointsInto (item ∷ items) down p (i, e, h) =
    (min (suc i) (length items), rw e refl, omega arith)
on_key_down-PointsInto (item ∷ items) up p (i, e, h) = (i - 1, rw e refl, omega arith)

press-PointsInto :
    (items : List Item) (arrows : List Arrow) (p : Palette)
    → PointsInto items p
    → PointsInto items (press items arrows p)
press-PointsInto items [] p h = h
press-PointsInto items (a ∷ arrows) p h =
    press-PointsInto items arrows (on_key_down items (key_of a) p)
      (on_key_down-PointsInto items a p h)

get_elem?-found :
    (items : List Item) (i : ℕ) → i < length items → (item : Item) × (get_elem? items i ≡ some item)
get_elem?-found [] i h = absurd (omega arith)
get_elem?-found (item ∷ items) zero h = (item, refl)
get_elem?-found (item ∷ items) (suc i) h = get_elem?-found items i (omega arith)

enter_at :
    (items : List Item) (p : Palette) (i : ℕ) (item : Item)
    → p.active ≡ some i
    → get_elem? items i ≡ some item
    → on_key_down items enter p ≡ record p { shown = false; location = some item.href }
unfolding on_key_down
enter_at items p i item e found =
    ap
      (λ (chosen : Option Item). elim chosen as (λ o. Palette) [
        | none ↦ p
        | some it ↦ record p { shown = false; location = some it.href }
      ])
      (ap (item_at items) e ∙ found)

-- After a query with results was typed, whatever arrow keys follow, Enter closes the palette and opens one
-- of the results.
on_key_down-type_query :
    (items : List Item) (query : Text) (arrows : List Arrow) (p : Palette)
    → 0 < length (filtered items query)
    → (item : Item) × (i : ℕ) × (get_elem? (filtered items query) i ≡ some item)
      × (let results = filtered items query in
          on_key_down results enter (press results arrows (type_query query p))
          ≡ record (press results arrows (type_query query p)) {
            shown = false;
            location = some item.href;
          })
unfolding type_query
on_key_down-type_query items query arrows p h =
    let results : List Item = filtered items query in
    let (i, e, inside) = press-PointsInto results arrows (type_query query p) (0, refl, h) in
    let (item, found) = get_elem?-found results i inside in
    (item, i, found, enter_at results (press results arrows (type_query query p)) i item e found)
