-- ===== src/Json/Dump.antt =====
-- `json.dumps`, over its two separators. What is not printable ASCII is escaped.
use fidrouter.Base.{
  ℕ, ◌+◌, ◌-◌, ◌/◌, ◌%◌, Text, lit, true, false, ◌&&◌, [], ◌∷◌, ◌++◌, leb, ltb, ◌==◌, if◌then◌else◌,
}
use fidrouter.Text.Decimal.{show_int}
use fidrouter.Text.Hex.{hex_digit}
use fidrouter.Json.{
  Json, null, bool, num, real, str, arr, obj, Items, nil, cons, Fields, end, field, Floats,
}

-- `'\\u{:04x}'`
abbrev pub unicode_escape : ℕ → Text
unicode_escape c =
    b'\\'
    ∷ b'u'
    ∷ hex_digit (c / 4096)
    ∷ hex_digit (c / 256 % 16)
    ∷ hex_digit (c / 16 % 16)
    ∷ hex_digit (c % 16)
    ∷ []

-- Past U+FFFF, a pair of surrogates.
unfoldable pub dump_char : ℕ → Text
dump_char c =
    if c == b'"'
    then b'\\' ∷ b'"' ∷ []
    else if c == b'\\'
    then b'\\' ∷ b'\\' ∷ []
    else if c == 10
    then b'\\' ∷ b'n' ∷ []
    else if c == 13
    then b'\\' ∷ b'r' ∷ []
    else if c == 9
    then b'\\' ∷ b't' ∷ []
    else if c == 12
    then b'\\' ∷ b'f' ∷ []
    else if c == 8
    then b'\\' ∷ b'b' ∷ []
    else if leb 32 c && leb c 126
    then c ∷ []
    else if ltb c 0x10000
    then unicode_escape c
    else unicode_escape (0xd800 + (c - 0x10000) / 1024)
      ++ unicode_escape (0xdc00 + (c - 0x10000) % 1024)

unfoldable pub dump_chars : Text → Text
unfolding dump_char
dump_chars [] = []
dump_chars (c ∷ s) = dump_char c ++ dump_chars s

unfoldable pub dump_text : Text → Text
unfolding dump_chars
dump_text s = b'"' ∷ (dump_chars s ++ b'"' ∷ [])

module _ (fl : Floats) (comma colon : Text) where
  unfoldable mutual
    unfolding dump_text

    pub dump : Json → Text
    dump null = lit "null"
    dump (bool true) = lit "true"
    dump (bool false) = lit "false"
    dump (num i) = show_int i
    dump (real w) = fl.to_text w
    dump (str s) = dump_text s
    dump (arr nil) = lit "[]"
    dump (arr (cons x xs)) = b'[' ∷ (dump x ++ dump_items xs)
    dump (obj end) = lit "{}"
    dump (obj (field k v fs)) = b'{' ∷ (dump_text k ++ (colon ++ (dump v ++ dump_fields fs)))

    pub dump_items : Items → Text
    dump_items nil = lit "]"
    dump_items (cons x xs) = comma ++ (dump x ++ dump_items xs)

    pub dump_fields : Fields → Text
    dump_fields end = lit "}"
    dump_fields (field k v fs) = comma ++ (dump_text k ++ (colon ++ (dump v ++ dump_fields fs)))

-- `json.dumps(x)`, and with `separators=(",", ":")`
unfoldable pub dumps : Floats → Json → Text
unfolding dump
dumps fl = dump fl (lit ", ") (lit ": ")

unfoldable pub dumps_compact : Floats → Json → Text
unfolding dump
dumps_compact fl = dump fl (lit ",") (lit ":")
