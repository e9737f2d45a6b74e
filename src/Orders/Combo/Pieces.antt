-- ===== src/Orders/Combo/Pieces.antt =====
-- The expansion of a combo against a count of its pieces.
use ikiot_be.Prelude.{
  ℕ, zero, suc, ◌+◌, ◌*◌, ◌≤◌, ◌≡◌, ◌≢◌, ◌⊎◌, ap, ◌∙◌, Bool, true, false, Option, none, some, List,
  [], ◌∷◌, ◌++◌, includes, length, length-append, arith, if◌then◌else◌, ltb, ◌==◌, ok, err,
  Bool-cases, Result-cases, inl, inr, throw_if, >>=-eq-ok,
}
use mathlib.Core.Path.{subst}
use ikiot_be.Orders.Combo.{
  ComboItem, ComboEdge, ComboLeaf, ComboError, out_of_fuel, ChildrenOf, Walk, add_leaf, visit,
  visit_all, walk, flatten_combo, is_combo, components_of, max_combo_depth,
}

-- How many pieces of the product `p` a list of leaves has.
abbrev pub pieces_in : ℕ → List ComboLeaf → ℕ
pieces_in p [] = 0
pieces_in p (l ∷ ls) = (if l.item.id == p then l.quantity else 0) + pieces_in p ls

-- How many pieces of `p` one set of the combo needs: over its edges, the quantity times the pieces of
-- the child. This is the count that the expansion is for, written without paths, Maps or errors.
abbrev pub edge_pieces : (ℕ → ℕ) → ℕ → List ComboEdge → ℕ
edge_pieces deeper p [] = 0
edge_pieces deeper p (e ∷ es) =
    let child = e.component_item in
    e.quantity
      * (if is_combo child.item_type then deeper child.id else if child.id == p then 1 else 0)
    + edge_pieces deeper p es

abbrev edges_or_none : Option (List ComboEdge) → List ComboEdge
edges_or_none none = []
edges_or_none (some es) = es

unfoldable pub pieces : ℕ → ChildrenOf → ℕ → ℕ → ℕ
pieces zero children_of p id = 0
pieces (suc depth) children_of p id =
    edge_pieces (pieces depth children_of p) p (edges_or_none (children_of id))

add_leaf-pieces :
    (p : ℕ) (child : ComboItem) (q : ℕ) (ls : List ComboLeaf)
    → pieces_in p (add_leaf child q ls) ≡ pieces_in p ls + (if child.id == p then q else 0)
unfolding add_leaf
add_leaf-pieces p child q [] = omega arith
add_leaf-pieces p child q (l ∷ ls) = elim (Bool-cases (l.item.id == child.id)) [
  | inl e ↦ rw e (ground arith)
  | inr e ↦ rw e (omega (arith, add_leaf-pieces p child q ls))
]

-- A walk adds to the leaves the pieces of its combo, as often as its multiplier says.
abbrev Counts : Walk → (ℕ → ℕ) → ℕ → Type 0
Counts w count p =
    (id m : ℕ) (path : List ℕ) (ls : List ComboLeaf) (out : List ComboLeaf)
    → w id m path ls ≡ ok out
    → pieces_in p out ≡ pieces_in p ls + m * count id

scaled :
    (b : Bool) (m q s : ℕ) → s + (if b then m * q else 0) ≡ s + m * (q * (if b then 1 else 0) + 0)
scaled true m q s = omega arith
scaled false m q s = omega arith

components_of-edges :
    (o : Option (List ComboEdge)) {es : List ComboEdge}
    → components_of o ≡ ok es
    → edges_or_none o ≡ es
components_of-edges none h = absurd (ground arith)
components_of-edges (some []) h = absurd (ground arith)
components_of-edges (some (e ∷ es)) h = cc

visit-pieces :
    (deeper : Walk) (count : ℕ → ℕ) (p : ℕ)
    → Counts deeper count p
    → (m : ℕ) (path : List ℕ) (e : ComboEdge) (ls : List ComboLeaf) (out : List ComboLeaf)
    → visit deeper m path e ls ≡ ok out
    → pieces_in p out ≡ pieces_in p ls + m * edge_pieces count p (e ∷ [])
unfolding visit
visit-pieces deeper count p counts m path e ls out h =
    elim (Bool-cases (is_combo e.component_item.item_type)) [
      | inl c ↦ elim (Bool-cases (includes path e.component_item.id)) [
        | inl f ↦ absurd (ground arith)
        | inr f ↦
            let child = e.component_item.id in
            let ran : deeper child (m * e.quantity) (path ++ child ∷ []) ls ≡ ok out =
              ground arith in
            let added = counts child (m * e.quantity) (path ++ child ∷ []) ls out ran in
            rw c (omega (arith, added))
      ]
      | inr c ↦
          let one = add_leaf-pieces p e.component_item (m * e.quantity) ls in
          let same : add_leaf e.component_item (m * e.quantity) ls ≡ out = ground arith in
          let one' =
            subst
              (λ o.
                pieces_in p o
                ≡ pieces_in p ls + (if e.component_item.id == p then m * e.quantity else 0))
              same one in
          rw c (one' ∙ scaled (e.component_item.id == p) m e.quantity (pieces_in p ls))
    ]

visit_all-pieces :
    (deeper : Walk) (count : ℕ → ℕ) (p : ℕ)
    → Counts deeper count p
    → (m : ℕ) (path : List ℕ) (es : List ComboEdge) (ls : List ComboLeaf) (out : List ComboLeaf)
    → visit_all deeper m path es ls ≡ ok out
    → pieces_in p out ≡ pieces_in p ls + m * edge_pieces count p es
unfolding visit_all
visit_all-pieces deeper count p counts m path [] ls out h =
    let same : ls ≡ out = cc in
    subst (λ o. pieces_in p o ≡ pieces_in p ls + m * 0) same (omega arith)
visit_all-pieces deeper count p counts m path (e ∷ es) ls out h =
    let (mid, first, rest) = >>=-eq-ok (visit deeper m path e ls) (visit_all deeper m path es) h in
    let one = visit-pieces deeper count p counts m path e ls mid first in
    let others = visit_all-pieces deeper count p counts m path es mid out rest in
    omega (arith, one, others)

walk-pieces :
    (fuel : ℕ) (children_of : ChildrenOf) (p : ℕ)
    → Counts (walk fuel children_of) (pieces fuel children_of p) p
unfolding walk pieces
walk-pieces zero children_of p id m path ls out h =
    elim (Bool-cases (ltb max_combo_depth (length path))) [
      | inl f ↦ absurd (ground arith)
      | inr f ↦ absurd (ground arith)
    ]
walk-pieces (suc fuel) children_of p id m path ls out h =
    let (u, short, entered) =
      >>=-eq-ok (throw_if (ltb max_combo_depth (length path)) ComboError.nests_too_deep) _ h in
    let (es, found, ran) =
      >>=-eq-ok (components_of (children_of id))
        (λ edges. visit_all (walk fuel children_of) m path edges ls) entered in
    let edges = components_of-edges (children_of id) found in
    rw edges (
      visit_all-pieces (walk fuel children_of) (pieces fuel children_of p) p
        (walk-pieces fuel children_of p) m path es ls out ran)

-- A combo that is expanded gives, of every product, the pieces that one set needs by the count over its
-- edges, however the quantities are spread over the paths that lead to it.
pub flatten_combo-pieces :
    (id : ℕ) (children_of : ChildrenOf) (leaves : List ComboLeaf) (p : ℕ)
    → flatten_combo id children_of ≡ ok leaves
    → pieces_in p leaves ≡ pieces (suc max_combo_depth) children_of p id
unfolding flatten_combo
flatten_combo-pieces id children_of leaves p h =
    omega (arith, walk-pieces (suc max_combo_depth) children_of p id 1 (id ∷ []) [] leaves h)

-- With enough fuel for the levels that the path still allows, a walk never runs out.
abbrev Fuelled : Walk → ℕ → Type 0
Fuelled w fuel =
    (id m : ℕ) (path : List ℕ) (ls : List ComboLeaf)
    → suc max_combo_depth ≤ length path + fuel
    → w id m path ls ≢ err out_of_fuel

visit-Fuelled :
    (deeper : Walk) (fuel : ℕ)
    → Fuelled deeper fuel
    → (m : ℕ) (path : List ℕ) (e : ComboEdge) (ls : List ComboLeaf)
    → max_combo_depth ≤ length path + fuel
    → visit deeper m path e ls ≢ err out_of_fuel
unfolding visit
visit-Fuelled deeper fuel fuelled m path e ls enough h =
    let child = e.component_item.id in
    elim (Bool-cases (is_combo e.component_item.item_type)) [
      | inl c ↦ elim (Bool-cases (includes path child)) [
        | inl f ↦ ground arith
        | inr f ↦
            fuelled child (m * e.quantity) (path ++ child ∷ []) ls
              (omega (arith, enough, length-append path (child ∷ []))) (ground arith)
      ]
      | inr c ↦ ground arith
    ]

visit_all-Fuelled :
    (deeper : Walk) (fuel : ℕ)
    → Fuelled deeper fuel
    → (m : ℕ) (path : List ℕ) (es : List ComboEdge) (ls : List ComboLeaf)
    → max_combo_depth ≤ length path + fuel
    → visit_all deeper m path es ls ≢ err out_of_fuel
unfolding visit_all
visit_all-Fuelled deeper fuel fuelled m path [] ls enough h = ground arith
visit_all-Fuelled deeper fuel fuelled m path (e ∷ es) ls enough h =
    elim (Result-cases (visit deeper m path e ls)) [
      | inl (mid, ran) ↦ visit_all-Fuelled deeper fuel fuelled m path es mid enough (ground arith)
      | inr (x, threw) ↦ visit-Fuelled deeper fuel fuelled m path e ls enough (ground arith)
    ]

components_of-fuelled : (o : Option (List ComboEdge)) → components_of o ≢ err out_of_fuel
components_of-fuelled none h = ground arith
components_of-fuelled (some []) h = ground arith
components_of-fuelled (some (e ∷ es)) h = ground arith

walk-Fuelled : (fuel : ℕ) (children_of : ChildrenOf) → Fuelled (walk fuel children_of) fuel
unfolding walk
walk-Fuelled zero children_of id m path ls enough h =
    elim (Bool-cases (ltb max_combo_depth (length path))) [
      | inl f ↦ ground arith
      | inr f ↦ ground arith
    ]
walk-Fuelled (suc fuel) children_of id m path ls enough h =
    elim (Bool-cases (ltb max_combo_depth (length path))) [
      | inl f ↦ ground arith
      | inr f ↦ elim (Result-cases (components_of (children_of id))) [
        | inl (es, found) ↦
            visit_all-Fuelled (walk fuel children_of) fuel (walk-Fuelled fuel children_of) m path es
              ls (omega (arith, enough)) (ground arith)
        | inr (x, threw) ↦ components_of-fuelled (children_of id) (ground arith)
      ]
    ]

-- The expansion ends on every graph of combos, one with cycles included: it gives leaves or one of the
-- source's three errors, since a path of more than `max_combo_depth` combos is refused.
pub flatten_combo_terminates :
    (id : ℕ) (children_of : ChildrenOf)
    → ((leaves : List ComboLeaf) × (flatten_combo id children_of ≡ ok leaves))
      ⊎ ((e : ComboError) × (flatten_combo id children_of ≡ err e) × (e ≢ out_of_fuel))
unfolding flatten_combo
flatten_combo_terminates id children_of = elim (Result-cases (flatten_combo id children_of)) [
  | inl (leaves, ran) ↦ inl (leaves, ran)
  | inr (e, threw) ↦ inr (
    e,
    threw,
    λ same.
        walk-Fuelled (suc max_combo_depth) children_of id 1 (id ∷ []) [] (omega arith)
          (threw ∙ ap err same),
  )
]
