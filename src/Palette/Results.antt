-- ===== src/Palette/Results.antt =====
-- The results that Palette.antt shows: the pages, the servers and the sites that a query keeps.
use ventopanel.Base.{
  ◌≡◌, refl, subst, ap, sym, ◌∙◌, Bool, Bool-cases, inl, inr, List, [], ◌∷◌, ◌++◌, map, Text, text,
  truthy, trim, take, keep_if, arith,
}
use ventopanel.Palette.{
  Item, Named, pages, server_item, site_item, all_items, filtered, matches, searched, group_into,
  shown_items,
}
use ventopanel.Palette.Groups.{InGroup, shown_items-group_into}

keep_if-append :
    (p : Item → Bool) (xs ys : List Item) → keep_if p (xs ++ ys) ≡ keep_if p xs ++ keep_if p ys
keep_if-append p [] ys = refl
keep_if-append p (x ∷ xs) ys = ground (arith, keep_if-append p xs ys)

keep_if-InGroup :
    (g : Text) (p : Item → Bool) (xs : List Item) → InGroup g xs → InGroup g (keep_if p xs)
unfolding InGroup
keep_if-InGroup g p [] h = tt
keep_if-InGroup g p (x ∷ xs) (h, k) = elim (Bool-cases (p x)) [
  | inl e ↦ rw e (h, keep_if-InGroup g p xs k)
  | inr e ↦ rw e (keep_if-InGroup g p xs k)
]

servers-InGroup : (servers : List Named) → InGroup (text "Servers") (map server_item servers)
unfolding InGroup
servers-InGroup [] = tt
servers-InGroup (s ∷ servers) = (refl, servers-InGroup servers)

sites-InGroup : (sites : List Named) → InGroup (text "Sites") (map site_item sites)
unfolding InGroup
sites-InGroup [] = tt
sites-InGroup (s ∷ sites) = (refl, sites-InGroup sites)

pages-InGroup : InGroup (text "Pages") pages × InGroup (text "Pages") (take 12 pages)
unfolding InGroup
pages-InGroup = (ground arith, ground arith)

all_items-pages :
    (servers sites : List Named)
    → all_items servers sites ≡ pages ++ (map server_item servers ++ map site_item sites)
unfolding all_items
all_items-pages servers sites = refl

keep_if-three :
    (p : Item → Bool) (xs ys zs : List Item)
    → keep_if p (xs ++ (ys ++ zs)) ≡ keep_if p xs ++ (keep_if p ys ++ keep_if p zs)
keep_if-three p xs ys zs =
    keep_if-append p xs (ys ++ zs) ∙ ap (λ kept. keep_if p xs ++ kept) (keep_if-append p ys zs)

-- The items of three groups that a test keeps are shown in their order.
shown_items-keep_if :
    (p : Item → Bool) (xs ys zs : List Item)
    → InGroup (text "Pages") xs
    → InGroup (text "Servers") ys
    → InGroup (text "Sites") zs
    → shown_items (group_into [] (keep_if p (xs ++ (ys ++ zs)))) ≡ keep_if p (xs ++ (ys ++ zs))
shown_items-keep_if p xs ys zs h k l =
    subst (λ items. shown_items (group_into [] items) ≡ items) (sym (keep_if-three p xs ys zs))
      (shown_items-group_into (keep_if p xs) (keep_if p ys) (keep_if p zs)
        (keep_if-InGroup (text "Pages") p xs h) (keep_if-InGroup (text "Servers") p ys k)
        (keep_if-InGroup (text "Sites") p zs l))

filtered-elim :
    (P : List Item → Type 0) (items : List Item) (query : Text)
    → P (keep_if (λ item. matches (searched item) query) items)
    → P (take 12 items)
    → P (filtered items query)
unfolding filtered
filtered-elim P items query h k = elim (Bool-cases (truthy (trim query))) [
  | inl searched_for ↦ rw searched_for h
  | inr blank ↦ rw blank k
]

take-pages : (more : List Item) → take 12 (pages ++ more) ≡ take 12 pages ++ ([] ++ [])
take-pages more = refl

shown_items-take :
    (more : List Item)
    → shown_items (group_into [] (take 12 (pages ++ more))) ≡ take 12 (pages ++ more)
unfolding InGroup
shown_items-take more =
    subst (λ items. shown_items (group_into [] items) ≡ items) (sym (take-pages more))
      (shown_items-group_into (take 12 pages) [] [] pages-InGroup.1 tt tt)

-- The palette shows and numbers its results, group after group, in the order in which the keys
-- go through them, so the item that is marked is the one that Enter opens.
shown_items-filtered :
    (servers sites : List Named) (query : Text)
    → shown_items (group_into [] (filtered (all_items servers sites) query))
      ≡ filtered (all_items servers sites) query
shown_items-filtered servers sites query =
    subst (λ items. shown_items (group_into [] (filtered items query)) ≡ filtered items query)
      (sym (all_items-pages servers sites))
      (filtered-elim (λ items. shown_items (group_into [] items) ≡ items)
        (pages ++ (map server_item servers ++ map site_item sites)) query
        (shown_items-keep_if (λ item. matches (searched item) query) pages (map server_item servers)
          (map site_item sites) pages-InGroup.0 (servers-InGroup servers) (sites-InGroup sites))
        (shown_items-take (map server_item servers ++ map site_item sites)))
