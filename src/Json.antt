-- ===== src/Json.antt =====
-- The values that `json.loads` returns, and how the code reads them: `d[k]`, `d.get(k)`, truth
-- tests, `isinstance`, `int()`, `str()`. A `float` is its binary64 pattern. `type_error` stands for
-- `TypeError` and for `AttributeError`, the two ways in which a value of another kind is refused.
pub mod Numbers
pub mod Dump
pub mod Equal
pub mod Convert
pub mod Plus
pub mod Scan
pub mod Loads
pub mod Laws
use fidrouter.Base.{
  ℕ, ◌-◌, ◌+◌, ◌*◌, Text, lit, same, Bool, true, false, not, ◌&&◌, ◌||◌, Option, none, some, List,
  [], ◌∷◌, Result, ok, err, key_error, type_error, value_error, ◌>>=◌, ℤ, pos, negsuc, is_zero,
  ◌==◌, leb, if◌then◌else◌,
}
use fidrouter.Text.Decimal.{is_digit}

mutual
  pub data Json : Type 0 where
    null : Json
    bool : Bool → Json
    num : ℤ → Json
    real : ℕ → Json
    str : Text → Json
    arr : Items → Json
    obj : Fields → Json

  pub data Items : Type 0 where
    nil : Items
    cons : Json → Items → Items

  pub data Fields : Type 0 where
    end : Fields
    field : Text → Json → Fields → Fields

-- What the code does with floats, which the interpreter implements.
pub record Floats : Type 0 where
  -- `int(x)`, which raises for an infinity and for no number
  pub truncate : ℕ → Result ℤ
  -- `float(n)`, which raises past the largest float
  pub of_int : ℤ → Result ℕ
  -- `float(s)` and `str(x)`
  pub of_text : Text → Result ℕ
  pub to_text : ℕ → Text
  pub times : ℕ → ℕ → ℕ
  -- `x / y`, which raises for a zero
  pub over : ℕ → ℕ → Result ℕ
  pub plus : ℕ → ℕ → ℕ
  pub minus : ℕ → ℕ → ℕ
  -- `x < y`, also between an integer and a float
  pub less : ℕ → ℕ → Bool
  pub int_less : ℤ → ℕ → Bool
  pub less_int : ℕ → ℤ → Bool
  -- `x == n` for an integer, and `x == x`
  pub equals_int : ℕ → ℤ → Bool
  pub is_number : ℕ → Bool
  -- `str(x)` of a list or a dict
  pub container_text : Json → Text

unfoldable pub find : Text → Fields → Option Json
unfolding same
find k end = none
find k (field j v fs) = if same j k then some v else find k fs

-- `d[k]`
unfoldable pub item : Json → Text → Result Json
unfolding find
item (obj fs) k = elim (find k fs) [ none ↦ err key_error | some v ↦ ok v ]
item j k = err type_error

-- `d.get(k, default)`
unfoldable pub get_or : Json → Text → Json → Result Json
unfolding find
get_or (obj fs) k d = elim (find k fs) [ none ↦ ok d | some v ↦ ok v ]
get_or j k d = err type_error

-- `d.get(k)`
abbrev pub get : Json → Text → Result Json
get j k = get_or j k null

-- `k in d`, for a dict
unfoldable pub has_key : Json → Text → Result Bool
unfolding find
has_key (obj fs) k = elim (find k fs) [ none ↦ ok false | some v ↦ ok true ]
has_key j k = err type_error

-- `bool(x)`: the zeros of both signs are false.
unfoldable pub truthy : Json → Bool
truthy null = false
truthy (bool b) = b
truthy (num i) = not (is_zero i)
truthy (real w) = not (w == 0 || w == 0x8000000000000000)
truthy (str []) = false
truthy (str (c ∷ s)) = true
truthy (arr nil) = false
truthy (arr (cons x xs)) = true
truthy (obj end) = false
truthy (obj (field k v fs)) = true

-- `a or b`
abbrev pub or_else : Json → Json → Json
or_else a b = if truthy a then a else b

-- A value that the code uses as a `str`.
unfoldable pub as_text : Json → Result Text
as_text (str s) = ok s
as_text j = err type_error

-- `x == s`, for a text `s`
unfoldable pub is_text : Json → Text → Bool
unfolding same
is_text (str s) t = same s t
is_text j t = false

-- `isinstance(d, dict)`
unfoldable pub is_dict : Json → Bool
is_dict (obj fs) = true
is_dict j = false

-- `s in l`, for a list `l`
unfoldable pub contains_text : Items → Text → Bool
unfolding is_text
contains_text nil s = false
contains_text (cons x xs) s = is_text x s || contains_text xs s
