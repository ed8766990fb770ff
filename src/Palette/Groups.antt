-- ===== src/Palette/Groups.antt =====
-- The order in which Palette.antt shows its items, against the list that the keys go through.
use ventopanel.Base.{
  ◌≡◌, refl, subst, ap, ap₂, All-append, sym, ◌∙◌, true, false, List, [], ◌∷◌, ◌++◌, append_assoc,
  append-nil, Text, text, text_eq, text_eq_iff, All,
}
use ventopanel.Palette.{Item, push_item, group_into, shown_items}

abbrev Groups : Type 0
Groups = List (Text × List Item)

unfoldable pub InGroup : Text → List Item → Type 0
InGroup g = All (λ item. item.group ≡ g)

NotKey : Text → Groups → Type 0
NotKey g = All (λ entry. text_eq entry.0 g ≡ false)

push_item-append :
    (item : Item) (front back : Groups)
    → NotKey item.group front
    → push_item item (front ++ back) ≡ front ++ push_item item back
unfolding NotKey push_item
push_item-append item [] back h = refl
push_item-append item (entry ∷ front) back (h, k) =
    rw (h, push_item) (ap (◌∷◌ entry) (push_item-append item front back k))

push_item-last :
    (g : Text) (items : List Item) (item : Item) (front : Groups)
    → NotKey g front
    → item.group ≡ g
    → push_item item (front ++ (g, items) ∷ []) ≡ front ++ (g, items ++ item ∷ []) ∷ []
unfolding push_item
push_item-last g items item front h e =
    let same : text_eq g item.group ≡ true = (text_eq_iff g item.group).1 (sym e) in
    push_item-append item front ((g, items) ∷ []) (subst (λ k. NotKey k front) (sym e) h)
    ∙ ap (λ groups. front ++ groups) (rw (same, push_item) refl)

group_into-last :
    (g : Text) (items more : List Item) (front : Groups)
    → NotKey g front
    → InGroup g more
    → group_into (front ++ (g, items) ∷ []) more ≡ front ++ (g, items ++ more) ∷ []
unfolding group_into InGroup
group_into-last g items [] front h k = rw (append-nil items) refl
group_into-last g items (item ∷ more) front h (e, k) =
    ap (λ groups. group_into groups more) (push_item-last g items item front h e)
    ∙ group_into-last g (items ++ item ∷ []) more front h k
    ∙ ap (λ all_items. front ++ (g, all_items) ∷ []) (append_assoc items (item ∷ []) more)

-- The group of these items, if there are some.
segment : Text → List Item → Groups
segment g [] = []
segment g (item ∷ items) = (g, item ∷ items) ∷ []

push_item-nil : (item : Item) → push_item item [] ≡ (item.group, item ∷ []) ∷ []
unfolding push_item
push_item-nil item = refl

group_into-segment :
    (g : Text) (items : List Item) (front : Groups)
    → NotKey g front
    → InGroup g items
    → group_into front items ≡ front ++ segment g items
unfolding group_into segment InGroup
group_into-segment g [] front h k = sym (append-nil front)
group_into-segment g (item ∷ items) front h (e, k) =
    ap (λ groups. group_into groups items)
      (ap (push_item item) (sym (append-nil front))
        ∙ push_item-append item front [] (subst (λ k. NotKey k front) (sym e) h)
        ∙ ap (λ groups. front ++ groups) (push_item-nil item ∙ ap (λ h. (h, item ∷ []) ∷ []) e))
    ∙ group_into-last g (item ∷ []) items front h k

group_into-append :
    (items more : List Item) (groups : Groups)
    → group_into groups (items ++ more) ≡ group_into (group_into groups items) more
unfolding group_into
group_into-append [] more groups = refl
group_into-append (item ∷ items) more groups = group_into-append items more (push_item item groups)

NotKey-segment : (g h : Text) (items : List Item) → text_eq g h ≡ false → NotKey h (segment g items)
unfolding NotKey segment
NotKey-segment g h [] e = tt
NotKey-segment g h (item ∷ items) e = (e, tt)

NotKey-append : (h : Text) (fs gs : Groups) → NotKey h fs → NotKey h gs → NotKey h (fs ++ gs)
unfolding NotKey
NotKey-append h fs gs k l = All-append (λ entry. text_eq entry.0 h ≡ false) fs gs k l

NotKey-nil : (h : Text) → NotKey h []
unfolding NotKey
NotKey-nil h = tt

shown_items-append : (fs gs : Groups) → shown_items (fs ++ gs) ≡ shown_items fs ++ shown_items gs
shown_items-append [] gs = refl
shown_items-append (f ∷ fs) gs =
    ap (λ items. f.1 ++ items) (shown_items-append fs gs)
    ∙ sym (append_assoc f.1 (shown_items fs) (shown_items gs))

shown_items-segment : (g : Text) (items : List Item) → shown_items (segment g items) ≡ items
unfolding segment
shown_items-segment g [] = refl
shown_items-segment g (item ∷ items) = append-nil (item ∷ items)

-- Three lists of a group each, one after the other, are shown in their order.
pub shown_items-group_into :
    (ps ss ts : List Item)
    → InGroup (text "Pages") ps
    → InGroup (text "Servers") ss
    → InGroup (text "Sites") ts
    → shown_items (group_into [] (ps ++ (ss ++ ts))) ≡ ps ++ (ss ++ ts)
shown_items-group_into ps ss ts p s t =
    let pages_group : Groups = segment (text "Pages") ps in
    let servers_group : Groups = segment (text "Servers") ss in
    let sites_group : Groups = segment (text "Sites") ts in
    let other_groups : NotKey (text "Sites") (pages_group ++ servers_group) =
      NotKey-append (text "Sites") pages_group servers_group
        (NotKey-segment (text "Pages") (text "Sites") ps refl)
        (NotKey-segment (text "Servers") (text "Sites") ss refl) in
    let grouped : group_into [] (ps ++ (ss ++ ts)) ≡ (pages_group ++ servers_group) ++ sites_group =
      group_into-append ps (ss ++ ts) []
      ∙ ap (λ groups. group_into groups (ss ++ ts))
          (group_into-segment (text "Pages") ps [] (NotKey-nil (text "Pages")) p)
      ∙ group_into-append ss ts pages_group
      ∙ ap (λ groups. group_into groups ts)
          (group_into-segment (text "Servers") ss pages_group
            (NotKey-segment (text "Pages") (text "Servers") ps refl) s)
      ∙ group_into-segment (text "Sites") ts (pages_group ++ servers_group) other_groups t in
    ap shown_items grouped
    ∙ shown_items-append (pages_group ++ servers_group) sites_group
    ∙ ap₂ (λ xs ys. xs ++ ys)
        (shown_items-append pages_group servers_group
          ∙ ap₂ (λ xs ys. xs ++ ys) (shown_items-segment (text "Pages") ps)
              (shown_items-segment (text "Servers") ss))
        (shown_items-segment (text "Sites") ts)
    ∙ append_assoc ps ss ts
