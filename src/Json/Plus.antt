-- ===== src/Json/Plus.antt =====
-- `a + b` of two values.
use fidrouter.Base.{
  ℕ, true, false, Option, none, some, ◌++◌, Result, ok, err, type_error, ◌>>=◌, ℤ, pos, ◌+ℤ◌,
}
use fidrouter.Json.{Json, bool, num, real, str, arr, Items, nil, cons, Floats}

abbrev append_items : Items → Items → Items
append_items nil ys = ys
append_items (cons x xs) ys = cons x (append_items xs ys)

-- A value as an integer: an `int`, or a `bool`.
abbrev as_int : Json → Option ℤ
as_int (num i) = some i
as_int (bool true) = some (pos 1)
as_int (bool false) = some (pos 0)
as_int j = none

-- With a float on one side, the other is made a float.
plus_real_left : Floats → ℕ → Option ℤ → Result Json
plus_real_left fl w none = err type_error
plus_real_left fl w (some i) = do v ← fl.of_int i; ok (real (fl.plus w v))

plus_real_right : Floats → Option ℤ → ℕ → Result Json
plus_real_right fl none w = err type_error
plus_real_right fl (some i) w = do v ← fl.of_int i; ok (real (fl.plus v w))

plus_ints : Option ℤ → Option ℤ → Result Json
plus_ints (some i) (some k) = ok (num (i +ℤ k))
plus_ints (some i) none = err type_error
plus_ints none o = err type_error

unfoldable pub plus : Floats → Json → Json → Result Json
unfolding plus_real_left plus_real_right plus_ints
plus fl (str s) (str t) = ok (str (s ++ t))
plus fl (arr xs) (arr ys) = ok (arr (append_items xs ys))
plus fl (real v) (real w) = ok (real (fl.plus v w))
plus fl (real w) j = plus_real_left fl w (as_int j)
plus fl i (real w) = plus_real_right fl (as_int i) w
plus fl i j = plus_ints (as_int i) (as_int j)
