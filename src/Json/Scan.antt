-- ===== src/Json/Scan.antt =====
-- What `json.loads` does with one character. The scanner of the standard library is a machine that
-- holds the containers that are open and what it expects next, so that a document is read by structural
-- recursion, with no bound on its depth.
use fidrouter.Base.{
  ℕ, zero, suc, ◌+◌, ◌*◌, ◌-◌, Text, lit, Bool, true, false, ◌&&◌, ◌||◌, Option, none, some, List,
  [], ◌∷◌, ◌++◌, Result, ok, err, value_error, ◌>>=◌, ℤ, pos, negsuc, leb, ltb, ◌==◌, if◌then◌else◌,
}
use fidrouter.Text.Decimal.{is_digit}
use fidrouter.Text.Hex.{hex_value}
use fidrouter.Json.{
  Json, null, bool, num, real, str, arr, obj, Items, nil, cons, Fields, end, field, Floats,
}
use fidrouter.Base.{same}

-- Space, tab, line feed and carriage return.
unfoldable pub is_blank : ℕ → Bool
is_blank c = c == 32 || c == 9 || c == 10 || c == 13

unfoldable pub add_item : Items → Json → Items
add_item nil j = cons j nil
add_item (cons x xs) j = cons x (add_item xs j)

-- A key that is there already gets the new value in its old place.
unfoldable pub set_field : Fields → Text → Json → Fields
unfolding same
set_field end k j = field k j end
set_field (field i v fs) k j =
    let rest = set_field fs k j in if same i k then field i j fs else field i v rest

-- A container that is open: the items so far, or the fields so far and the key of the value to come.
pub data Frame : Type 0 where
  in_array : Items → Frame
  in_object : Fields → Text → Frame

-- What a text will be.
pub data Target : Type 0 where
  as_value : Target
  as_key : Fields → Target

-- A number that is being read: its sign and its value, or its text.
pub data Number : Type 0 where
  minus : Number
  lone_zero : Bool → Text → Number
  whole : Bool → ℕ → Text → Number
  point fraction exponent signed exponent_digits : Text → Number

pub data Mode : Type 0 where
  value_start array_start object_start : Mode
  key_start : Fields → Mode
  colon : Fields → Text → Mode
  -- a text so far, and a high surrogate that was escaped just before
  text escape : Target → Text → Option ℕ → Mode
  -- hexadecimal digits to come, and their value so far
  unicode : Target → Text → Option ℕ → ℕ → ℕ → Mode
  number : Number → Mode
  word : ℕ → Text → Json → Mode
  after_value : Json → Mode

abbrev pub State : Type 0
State = Mode × List Frame

abbrev pub signed_int : Bool → ℕ → ℤ
signed_int false n = pos n
signed_int true zero = pos 0
signed_int true (suc n) = negsuc n

-- The text with the surrogate that was held back.
abbrev pub flush : Text → Option ℕ → Text
flush t none = t
flush t (some h) = t ++ h ∷ []

abbrev is_high : ℕ → Bool
is_high c = leb 0xd800 c && leb c 0xdbff

abbrev is_low : ℕ → Bool
is_low c = leb 0xdc00 c && leb c 0xdfff

-- A high surrogate is held back, and joined with a low one that is escaped right after it.
unfoldable pub add_escaped : Target → Text → Option ℕ → ℕ → Mode
add_escaped tgt t none c = if is_high c then text tgt t (some c) else text tgt (t ++ c ∷ []) none
add_escaped tgt t (some h) c =
    if is_low c
    then text tgt (t ++ (0x10000 + (h - 0xd800) * 1024 + (c - 0xdc00)) ∷ []) none
    else if is_high c
    then text tgt (t ++ h ∷ []) (some c)
    else text tgt ((t ++ h ∷ []) ++ c ∷ []) none

abbrev pub add_plain : Target → Text → Option ℕ → ℕ → Mode
add_plain tgt t high c = text tgt (flush t high ++ c ∷ []) none

abbrev pub end_text : Target → Text → Mode
end_text as_value t = after_value (str t)
end_text (as_key fs) t = colon fs t

-- A character after a backslash.
unfoldable pub step_escape : Target → Text → Option ℕ → ℕ → Result Mode
step_escape tgt t high c =
    if c == b'u'
    then ok (unicode tgt t high 3 0)
    else if c == b'"' || c == b'\\' || c == b'/'
    then ok (add_plain tgt t high c)
    else if c == b'b'
    then ok (add_plain tgt t high 8)
    else if c == b'f'
    then ok (add_plain tgt t high 12)
    else if c == b'n'
    then ok (add_plain tgt t high 10)
    else if c == b'r'
    then ok (add_plain tgt t high 13)
    else if c == b't'
    then ok (add_plain tgt t high 9)
    else err value_error

-- The digit is the last one, or more are to come.
unfoldable pub step_unicode : Target → Text → Option ℕ → ℕ → ℕ → Option ℕ → Result Mode
unfolding add_escaped
step_unicode tgt t high n v none = err value_error
step_unicode tgt t high zero v (some d) = ok (add_escaped tgt t high (v * 16 + d))
step_unicode tgt t high (suc n) v (some d) = ok (unicode tgt t high n (v * 16 + d))

-- The number goes on with a character, or ended before it.
unfoldable pub next_number : Number → ℕ → Option Number
unfolding is_digit
next_number minus c =
    if c == b'0'
    then some (lone_zero true (lit "-0"))
    else if is_digit c
    then some (whole true (c - b'0') (b'-' ∷ c ∷ []))
    else none
next_number (lone_zero neg t) c =
    if c == b'.'
    then some (point (t ++ c ∷ []))
    else if c == b'e' || c == b'E'
    then some (exponent (t ++ c ∷ []))
    else none
next_number (whole neg n t) c =
    if is_digit c
    then some (whole neg (n * 10 + (c - b'0')) (t ++ c ∷ []))
    else if c == b'.'
    then some (point (t ++ c ∷ []))
    else if c == b'e' || c == b'E'
    then some (exponent (t ++ c ∷ []))
    else none
next_number (point t) c = if is_digit c then some (fraction (t ++ c ∷ [])) else none
next_number (fraction t) c =
    if is_digit c
    then some (fraction (t ++ c ∷ []))
    else if c == b'e' || c == b'E'
    then some (exponent (t ++ c ∷ []))
    else none
next_number (exponent t) c =
    if c == b'+' || c == b'-'
    then some (signed (t ++ c ∷ []))
    else if is_digit c
    then some (exponent_digits (t ++ c ∷ []))
    else none
next_number (signed t) c = if is_digit c then some (exponent_digits (t ++ c ∷ [])) else none
next_number (exponent_digits t) c =
    if is_digit c then some (exponent_digits (t ++ c ∷ [])) else none

module _ (fl : Floats) where
  -- The value of a number that ended; after a point or a sign it lacks digits.
  unfoldable pub number_value : Number → Result Json
  number_value (lone_zero neg t) = ok (num (pos 0))
  number_value (whole neg n t) = ok (num (signed_int neg n))
  number_value (fraction t) = do w ← fl.of_text t; ok (real w)
  number_value (exponent_digits t) = do w ← fl.of_text t; ok (real w)
  number_value _ = err value_error

  -- `NaN` and the infinities, which are no JSON and which Python reads all the same.
  unfoldable pub constant : Text → ℕ → Text → Result Mode
  constant name c rest = do w ← fl.of_text name; ok (word c rest (real w))

  -- The first character of a value.
  unfoldable pub start_value : List Frame → ℕ → Result State
  unfolding constant is_digit
  start_value st c =
      if c == b'"'
      then ok (text as_value [] none, st)
      else if c == b'{'
      then ok (object_start, st)
      else if c == b'['
      then ok (array_start, st)
      else if c == b'n'
      then ok (word b'u' (lit "ll") null, st)
      else if c == b't'
      then ok (word b'r' (lit "ue") (bool true), st)
      else if c == b'f'
      then ok (word b'a' (lit "lse") (bool false), st)
      else if c == b'-'
      then ok (number minus, st)
      else if c == b'0'
      then ok (number (lone_zero false (lit "0")), st)
      else if is_digit c
      then ok (number (whole false (c - b'0') (c ∷ [])), st)
      else if c == b'N'
      then (do m ← constant (lit "NaN") b'a' (lit "N"); ok (m, st))
      else if c == b'I'
      then (do m ← constant (lit "Infinity") b'n' (lit "finity"); ok (m, st))
      else err value_error

  -- The first character after a value that is no blank.
  unfoldable pub close : Json → List Frame → ℕ → Result State
  unfolding add_item set_field
  close j [] c = err value_error
  close j (in_array xs ∷ st) c =
      if c == b','
      then ok (value_start, in_array (add_item xs j) ∷ st)
      else if c == b']'
      then ok (after_value (arr (add_item xs j)), st)
      else err value_error
  close j (in_object fs k ∷ st) c =
      if c == b','
      then ok (key_start (set_field fs k j), st)
      else if c == b'}'
      then ok (after_value (obj (set_field fs k j)), st)
      else err value_error

  unfoldable pub step_after : Json → List Frame → ℕ → Result State
  unfolding is_blank close
  step_after j st c = if is_blank c then ok (after_value j, st) else close j st c

  -- A character for a number: one that is no part of it is read again, after it.
  unfoldable pub step_number : Number → List Frame → ℕ → Option Number → Result State
  unfolding number_value step_after constant
  step_number x st c (some y) = ok (number y, st)
  step_number minus st c none =
      if c == b'I'
      then (do m ← constant (lit "-Infinity") b'n' (lit "finity"); ok (m, st))
      else err value_error
  step_number x st c none = do j ← number_value x; step_after j st c

  unfoldable pub step : Mode → List Frame → ℕ → Result State
  unfolding is_blank start_value step_escape step_unicode next_number step_number step_after
  step value_start st c = if is_blank c then ok (value_start, st) else start_value st c
  step array_start st c =
      if is_blank c
      then ok (array_start, st)
      else if c == b']'
      then ok (after_value (arr nil), st)
      else start_value (in_array nil ∷ st) c
  step object_start st c =
      if is_blank c
      then ok (object_start, st)
      else if c == b'}'
      then ok (after_value (obj end), st)
      else if c == b'"'
      then ok (text (as_key end) [] none, st)
      else err value_error
  step (key_start fs) st c =
      if is_blank c
      then ok (key_start fs, st)
      else if c == b'"'
      then ok (text (as_key fs) [] none, st)
      else err value_error
  step (colon fs k) st c =
      if is_blank c
      then ok (colon fs k, st)
      else if c == b':'
      then ok (value_start, in_object fs k ∷ st)
      else err value_error
  step (text tgt t high) st c =
      if c == b'"'
      then ok (end_text tgt (flush t high), st)
      else if c == b'\\'
      then ok (escape tgt t high, st)
      else if ltb c 0x20
      then err value_error
      else ok (add_plain tgt t high c, st)
  step (escape tgt t high) st c = do m ← step_escape tgt t high c; ok (m, st)
  step (unicode tgt t high n v) st c = do m ← step_unicode tgt t high n v (hex_value c); ok (m, st)
  step (number x) st c = step_number x st c (next_number x c)
  step (word d [] j) st c = if c == d then ok (after_value j, st) else err value_error
  step (word d (e ∷ s) j) st c = if c == d then ok (word e s j, st) else err value_error
  step (after_value j) st c = step_after j st c

  -- The end of the document.
  unfoldable pub finish : Mode → List Frame → Result Json
  unfolding number_value
  finish (after_value j) [] = ok j
  finish (number x) [] = number_value x
  finish _ _ = err value_error
