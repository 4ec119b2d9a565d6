-- ===== src/Json/Equal.antt =====
-- Python's `==` on the values of JSON: a boolean is the number 0 or 1, and a dict has no order.
use fidrouter.Base.{ℕ, suc, same, Bool, true, false, ◌&&◌, none, some, ℤ, pos, negsuc, ◌==◌, not}
use fidrouter.Json.{
  Json, null, bool, num, real, str, arr, obj, Items, nil, cons, Fields, end, field, Floats, find,
}

int_equal : ℤ → ℤ → Bool
int_equal (pos a) (pos b) = a == b
int_equal (negsuc a) (negsuc b) = a == b
int_equal _ _ = false

bool_int : Bool → ℤ
bool_int true = pos 1
bool_int false = pos 0

count_fields : Fields → ℕ
count_fields end = 0
count_fields (field k v fs) = suc (count_fields fs)

module _ (fl : Floats) where
  number_equal : Json → Json → Bool
  unfolding int_equal bool_int
  number_equal (bool b) (bool c) = int_equal (bool_int b) (bool_int c)
  number_equal (bool b) (num j) = int_equal (bool_int b) j
  number_equal (num i) (bool c) = int_equal i (bool_int c)
  number_equal (num i) (num j) = int_equal i j
  number_equal (real w) (real v) =
      not (fl.less w v) && not (fl.less v w) && fl.is_number w && fl.is_number v
  number_equal (real w) (num j) = fl.equals_int w j
  number_equal (real w) (bool c) = fl.equals_int w (bool_int c)
  number_equal (num i) (real v) = fl.equals_int v i
  number_equal (bool b) (real v) = fl.equals_int v (bool_int b)
  number_equal _ _ = false

  unfoldable mutual
    unfolding number_equal count_fields

    pub json_equal : Json → Json → Bool
    json_equal null j = elim j [ null ↦ true | _ ↦ false ]
    json_equal (str s) j = elim j [ str t ↦ same s t | _ ↦ false ]
    json_equal (arr xs) j = elim j [ arr ys ↦ items_equal xs ys | _ ↦ false ]
    json_equal (obj fs) j = elim j [
      | obj gs ↦ count_fields fs == count_fields gs && fields_equal fs gs
      | _ ↦ false
    ]
    json_equal (bool b) j = number_equal (bool b) j
    json_equal (num i) j = number_equal (num i) j
    json_equal (real w) j = number_equal (real w) j

    pub items_equal : Items → Items → Bool
    items_equal nil ys = elim ys [ nil ↦ true | _ ↦ false ]
    items_equal (cons x xs) ys = elim ys [
      | nil ↦ false
      | cons y ys ↦ json_equal x y && items_equal xs ys
    ]

    pub fields_equal : Fields → Fields → Bool
    fields_equal end gs = true
    fields_equal (field k v fs) gs =
        elim (find k gs) [ none ↦ false | some w ↦ json_equal v w ] && fields_equal fs gs
