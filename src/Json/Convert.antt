-- ===== src/Json/Convert.antt =====
-- `str(x)` and `float(x)` of a value.
use fidrouter.Base.{Text, lit, true, false, Result, ok, err, type_error, ℕ, pos}
use fidrouter.Text.Decimal.{show_int}
use fidrouter.Json.{Json, null, bool, num, real, str, arr, obj, Floats}

unfoldable pub to_text : Floats → Json → Text
to_text fl null = lit "None"
to_text fl (bool true) = lit "True"
to_text fl (bool false) = lit "False"
to_text fl (num i) = show_int i
to_text fl (real w) = fl.to_text w
to_text fl (str s) = s
to_text fl (arr xs) = fl.container_text (arr xs)
to_text fl (obj fs) = fl.container_text (obj fs)

unfoldable pub to_float : Floats → Json → Result ℕ
to_float fl (bool true) = fl.of_int (pos 1)
to_float fl (bool false) = fl.of_int (pos 0)
to_float fl (num i) = fl.of_int i
to_float fl (real w) = ok w
to_float fl (str s) = fl.of_text s
to_float fl j = err type_error
