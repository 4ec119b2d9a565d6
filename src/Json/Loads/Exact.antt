-- ===== src/Json/Loads/Exact.antt =====
-- The values that a document keeps: those whose floats are none, whose texts are Unicode and whose
-- keys differ.
use fidrouter.Base.{Text, none, ◌≡◌, ◌∙◌, ap, sym, refl, arith, All}
use fidrouter.Json.{Json, real, str, arr, obj, Items, nil, cons, Fields, end, field, find}
use fidrouter.Json.Scan.{add_item, set_field}
use fidrouter.Json.Loads.Texts.{IsScalar}

unfoldable pub add_field : Fields → Text → Json → Fields
add_field end k j = field k j end
add_field (field i v fs) k j = field i v (add_field fs k j)

unfoldable mutual
  unfolding add_field find

  pub Exact : Json → Type 0
  Exact (real w) = ⊥
  Exact (str s) = All IsScalar s
  Exact (arr xs) = ExactItems xs
  Exact (obj fs) = ExactFields end fs
  Exact j = Unit {0}

  pub ExactItems : Items → Type 0
  ExactItems nil = Unit {0}
  ExactItems (cons x xs) = Exact x × ExactItems xs

  -- The fields after others, with no key of theirs.
  pub ExactFields : Fields → Fields → Type 0
  ExactFields before end = Unit {0}
  ExactFields before (field k v fs) =
      All IsScalar k × Exact v × (find k before ≡ none) × ExactFields (add_field before k v) fs

-- What a document makes of the items and of the fields that follow others.
unfoldable pub add_items : Items → Items → Items
add_items before nil = before
add_items before (cons x xs) = add_items (add_item before x) xs

unfoldable pub add_fields : Fields → Fields → Fields
add_fields before end = before
add_fields before (field k v fs) = add_fields (set_field before k v) fs

append_items : Items → Items → Items
append_items nil ys = ys
append_items (cons x xs) ys = cons x (append_items xs ys)

append_fields : Fields → Fields → Fields
append_fields end gs = gs
append_fields (field k v fs) gs = field k v (append_fields fs gs)

append_items-add_item :
    (xs : Items) (x : Json) (ys : Items)
    → append_items (add_item xs x) ys ≡ append_items xs (cons x ys)
unfolding append_items add_item
append_items-add_item nil x ys = refl
append_items-add_item (cons y xs) x ys = ap (cons y) (append_items-add_item xs x ys)

append_fields-add_field :
    (fs : Fields) (k : Text) (v : Json) (gs : Fields)
    → append_fields (add_field fs k v) gs ≡ append_fields fs (field k v gs)
unfolding append_fields add_field
append_fields-add_field end k v gs = refl
append_fields-add_field (field i w fs) k v gs = ap (field i w) (append_fields-add_field fs k v gs)

append_items-nil : (xs : Items) → append_items xs nil ≡ xs
unfolding append_items
append_items-nil nil = refl
append_items-nil (cons x xs) = ap (cons x) (append_items-nil xs)

append_fields-end : (fs : Fields) → append_fields fs end ≡ fs
unfolding append_fields
append_fields-end end = refl
append_fields-end (field k v fs) = ap (field k v) (append_fields-end fs)

add_items-append : (xs ys : Items) → add_items xs ys ≡ append_items xs ys
unfolding add_items
add_items-append xs nil = sym (append_items-nil xs)
add_items-append xs (cons y ys) =
    add_items-append (add_item xs y) ys ∙ append_items-add_item xs y ys

-- A new key is added at the end.
pub set_field-new :
    (fs : Fields) (k : Text) (v : Json) → find k fs ≡ none → set_field fs k v ≡ add_field fs k v
unfolding set_field add_field find
set_field-new end k v h = refl
set_field-new (field i w fs) k v h = ground (arith, h, set_field-new fs k v)

add_fields-append : (fs gs : Fields) → ExactFields fs gs → add_fields fs gs ≡ append_fields fs gs
unfolding add_fields ExactFields
add_fields-append fs end h = sym (append_fields-end fs)
add_fields-append fs (field k v gs) (_, _, new, h) =
    ap (λ a. add_fields a gs) (set_field-new fs k v new)
    ∙ add_fields-append (add_field fs k v) gs h
    ∙ append_fields-add_field fs k v gs

pub add_items_all : (x : Json) (xs : Items) → add_items (add_item nil x) xs ≡ cons x xs
unfolding add_item append_items
add_items_all x xs = add_items-append (cons x nil) xs

pub add_fields_all :
    (k : Text) (v : Json) (fs : Fields)
    → ExactFields end (field k v fs)
    → add_fields (set_field end k v) fs ≡ field k v fs
unfolding set_field append_fields ExactFields add_field
add_fields_all k v fs (_, _, _, h) = add_fields-append (field k v end) fs h
