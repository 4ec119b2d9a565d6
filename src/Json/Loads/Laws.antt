-- ===== src/Json/Loads/Laws.antt =====
-- What `json.dumps` writes, `json.loads` reads back.
use fidrouter.Base.{
  ℕ, Text, Bytes, lit, true, false, ◌||◌, none, List, [], ◌∷◌, ◌++◌, append_assoc, append-nil, ok,
  pos, negsuc, ◌≡◌, refl, leb, ap, ◌∙◌, sym, All, ◌==◌, arith, zero, suc,
}
use fidrouter.Text.Decimal.{show_int, show_nat, is_digit}
use fidrouter.Text.Decimal.Laws.{show_nat_head}
use fidrouter.Json.{
  Json, null, bool, num, real, str, arr, obj, Items, nil, cons, Fields, end, field, Floats,
}
use fidrouter.Json.Dump.{dump, dump_items, dump_fields, dump_chars, dump_text, dumps, dumps_compact}
use fidrouter.Json.Scan.{
  Frame, in_array, in_object, Mode, value_start, array_start, object_start, key_start, colon, text,
  as_value, as_key, after_value, add_item, set_field, is_blank, start_value, step, step_after,
  close, finish,
}
use fidrouter.Text.Utf8.{encode_char, encode}
use fidrouter.Text.Utf8.Laws.{encode-cons}
use fidrouter.Text.Utf8.Decode.Laws.{decode_lax-encode}
use fidrouter.Json.Loads.{run, loads_text, loads, skip_mark}
use fidrouter.Json.Loads.Texts.{IsScalar, run-dump_text}
use fidrouter.Json.Loads.Numbers.{Ends, run-show_int}
use fidrouter.Json.Loads.Exact.{
  Exact, ExactItems, ExactFields, add_field, add_items, add_fields, add_items_all, add_fields_all,
  set_field-new,
}

abbrev IsBlank : ℕ → Type 0
IsBlank c = is_blank c ≡ true

-- An ASCII character that starts a value and ends no array.
abbrev Starts : ℕ → Type 0
Starts c = (is_blank c || c == b']' || leb 0x80 c) ≡ false

skip_mark-ascii : (c : ℕ) (bs : Bytes) → leb 0x80 c ≡ false → skip_mark (c ∷ bs) ≡ c ∷ bs
unfolding skip_mark
skip_mark-ascii c [] h = refl
skip_mark-ascii c (d ∷ []) h = refl
skip_mark-ascii c (d ∷ e ∷ bs) h = ground (arith, h)

encode-ascii-cons :
    (c : ℕ) (s : Text) (b : Bytes)
    → leb 0x80 c ≡ false
    → encode (c ∷ s) ≡ ok b
    → (more : Bytes) × (b ≡ c ∷ more)
encode-ascii-cons c s b h e =
    let (bs, more, ec, _, eb) = encode-cons c s b e in
    let plain : bs ≡ c ∷ [] = unfold encode_char in ground (arith, h, ec) in
    (more, eb ∙ ap (λ x. x ++ more) plain)

-- The separators: their sign, and the blanks after it.
module _ (fl : Floats) (comma_blanks colon_blanks : Text) (comma_ok : All IsBlank comma_blanks)
    (colon_ok : All IsBlank colon_blanks) where
  abbrev write : Json → Text
  write j = dump fl (b',' ∷ comma_blanks) (b':' ∷ colon_blanks) j

  abbrev write_items : Items → Text
  write_items xs = dump_items fl (b',' ∷ comma_blanks) (b':' ∷ colon_blanks) xs

  abbrev write_fields : Fields → Text
  write_fields fs = dump_fields fl (b',' ∷ comma_blanks) (b':' ∷ colon_blanks) fs

  run_blanks :
      (m : Mode) (st : List Frame) (bs rest : Text)
      → ((c : ℕ) → is_blank c ≡ true → step fl m st c ≡ ok (m, st))
      → All IsBlank bs
      → run fl m st (bs ++ rest) ≡ run fl m st rest
  unfolding run
  run_blanks m st [] rest h hs = refl
  run_blanks m st (b ∷ bs) rest h (hb, hs) = rw (h b hb) (run_blanks m st bs rest h hs)

  value_blank :
      (st : List Frame) (c : ℕ)
      → is_blank c ≡ true
      → step fl value_start st c ≡ ok (value_start, st)
  unfolding step
  value_blank st c h = rw h refl

  key_blank :
      (fs : Fields) (st : List Frame) (c : ℕ)
      → is_blank c ≡ true
      → step fl (key_start fs) st c ≡ ok (key_start fs, st)
  unfolding step
  key_blank fs st c h = rw h refl

  write_head :
      (j : Json) (rest : Text)
      → Exact j
      → (c : ℕ) × (s : Text) × (write j ++ rest ≡ c ∷ s) × Starts c
  unfolding dump is_blank show_int dump_text Exact
  write_head null rest h = (b'n', _, refl, refl)
  write_head (bool true) rest h = (b't', _, refl, refl)
  write_head (bool false) rest h = (b'f', _, refl, refl)
  write_head (num (pos zero)) rest h = unfold show_nat in (b'0', _, refl, refl)
  write_head (num (pos (suc n))) rest h =
      let (c, s, e, d) = show_nat_head n rest in (c, s, e, ground (arith, d))
  write_head (num (negsuc n)) rest h = (b'-', _, refl, refl)
  write_head (real w) rest h = elim h [ ]
  write_head (str s) rest h = (b'"', _, refl, refl)
  write_head (arr nil) rest h = (b'[', _, refl, refl)
  write_head (arr (cons x xs)) rest h = (b'[', _, refl, refl)
  write_head (obj end) rest h = (b'{', _, refl, refl)
  write_head (obj (field k v fs)) rest h = (b'{', _, refl, refl)

  -- The first item is read as a value.
  first_item :
      (st : List Frame) (j : Json) (rest : Text)
      → Exact j
      → run fl array_start st (write j ++ rest)
        ≡ run fl value_start (in_array nil ∷ st) (write j ++ rest)
  unfolding run step
  first_item st j rest h =
      let (c, s, e, starts) = write_head j rest h in
      ap (run fl array_start st) e
      ∙ unfold run in ground (arith, starts) ∙ ap (run fl value_start (in_array nil ∷ st)) (sym e)

  items_end : (xs : Items) (rest : Text) → Ends (write_items xs ++ rest)
  unfolding dump_items is_digit
  items_end nil rest = refl
  items_end (cons x xs) rest = refl

  fields_end : (fs : Fields) (rest : Text) → Ends (write_fields fs ++ rest)
  unfolding dump_fields is_digit
  fields_end end rest = refl
  fields_end (field k v fs) rest = refl

  -- The next item or field, from the value before it to the value's own text.
  next_item :
      (st : List Frame) (pre : Items) (x : Json) (rest : Text)
      → run fl (after_value x) (in_array pre ∷ st) (b',' ∷ (comma_blanks ++ rest))
        ≡ run fl value_start (in_array (add_item pre x) ∷ st) rest
  unfolding run step step_after is_blank close
  next_item st pre x rest =
      run_blanks value_start (in_array (add_item pre x) ∷ st) comma_blanks rest
        (value_blank (in_array (add_item pre x) ∷ st)) comma_ok

  next_value :
      (st : List Frame) (pre : Fields) (k : Text) (rest : Text)
      → run fl (colon pre k) st (b':' ∷ (colon_blanks ++ rest))
        ≡ run fl value_start (in_object pre k ∷ st) rest
  unfolding run step is_blank
  next_value st pre k rest =
      run_blanks value_start (in_object pre k ∷ st) colon_blanks rest
        (value_blank (in_object pre k ∷ st)) colon_ok

  read_key :
      (st : List Frame) (pre : Fields) (k rest : Text)
      → All IsScalar k
      → run fl
          (text (as_key pre) [] none)
          st
          (dump_chars k ++ b'"' ∷ (b':' ∷ (colon_blanks ++ rest)))
        ≡ run fl value_start (in_object pre k ∷ st) rest
  read_key st pre k rest h = run-dump_text fl (as_key pre) st k _ h ∙ next_value st pre k rest

  -- A field's text, bracketed to the right.
  write_field : Text → Json → Fields → Text → Text
  write_field k v fs rest =
      dump_chars k ++ b'"' ∷ (b':' ∷ (colon_blanks ++ (write v ++ (write_fields fs ++ rest))))

  -- The same texts as they are written, which bracket otherwise.
  abbrev field_text : Text → Json → Fields → Text
  field_text k v fs = dump_text k ++ (b':' ∷ (colon_blanks ++ (write v ++ write_fields fs)))

  write-field :
      (k : Text) (v : Json) (fs : Fields) (rest : Text)
      → field_text k v fs ++ rest ≡ b'"' ∷ write_field k v fs rest
  unfolding write_field dump_text
  write-field k v fs rest = simp append_assoc

  write-item :
      (y : Json) (ys : Items) (rest : Text)
      → (comma_blanks ++ (write y ++ write_items ys)) ++ rest
        ≡ comma_blanks ++ (write y ++ (write_items ys ++ rest))
  write-item y ys rest = simp append_assoc

  write-next :
      (k : Text) (v : Json) (fs : Fields) (rest : Text)
      → (comma_blanks ++ field_text k v fs) ++ rest ≡ comma_blanks ++ b'"' ∷ write_field k v fs rest
  write-next k v fs rest =
      append_assoc comma_blanks (field_text k v fs) rest
      ∙ ap (λ s. comma_blanks ++ s) (write-field k v fs rest)

  next_key :
      (st : List Frame) (pre : Fields) (k : Text) (v : Json) (rest : Text)
      → run fl (after_value v) (in_object pre k ∷ st) (b',' ∷ (comma_blanks ++ b'"' ∷ rest))
        ≡ run fl (text (as_key (set_field pre k v)) [] none) st rest
  unfolding run step step_after is_blank close
  next_key st pre k v rest =
      run_blanks (key_start (set_field pre k v)) st comma_blanks (b'"' ∷ rest)
        (key_blank (set_field pre k v) st) comma_ok

  read_text :
      (st : List Frame) (s rest : Text)
      → All IsScalar s
      → run fl value_start st (dump_text s ++ rest) ≡ run fl (after_value (str s)) st rest
  unfolding dump_text run step start_value is_blank
  read_text st s rest h =
      ap (run fl (text as_value [] none) st) (append_assoc (dump_chars s) (b'"' ∷ []) rest)
      ∙ run-dump_text fl as_value st s rest h

  read_first_key :
      (st : List Frame) (k : Text) (v : Json) (fs : Fields) (rest : Text)
      → All IsScalar k
      → run fl object_start st (field_text k v fs ++ rest)
        ≡ run fl value_start (in_object end k ∷ st) (write v ++ (write_fields fs ++ rest))
  unfolding run step is_blank write_field
  read_first_key st k v fs rest h =
      ap (run fl object_start st) (write-field k v fs rest) ∙ read_key st end k _ h

  mutual
    unfolding run step step_after is_blank close start_value dump dump_items dump_fields finish
        Exact ExactItems ExactFields add_items add_fields write_field

    run-dump :
        (st : List Frame) (j : Json) (rest : Text)
        → Exact j
        → Ends rest
        → run fl value_start st (write j ++ rest) ≡ run fl (after_value j) st rest
    run-dump st null rest h ends = refl
    run-dump st (bool true) rest h ends = refl
    run-dump st (bool false) rest h ends = refl
    run-dump st (num i) rest h ends = run-show_int fl st i rest ends
    run-dump st (real w) rest h ends = elim h [ ]
    run-dump st (str s) rest h ends = read_text st s rest h
    run-dump st (arr nil) rest h ends = refl
    run-dump st (arr (cons x xs)) rest (hx, hs) ends =
        ap (run fl array_start st) (append_assoc (write x) (write_items xs) rest)
        ∙ first_item st x (write_items xs ++ rest) hx
        ∙ run-dump (in_array nil ∷ st) x (write_items xs ++ rest) hx (items_end xs rest)
        ∙ run-dump_items st nil x xs rest hs
        ∙ ap (λ ys. run fl (after_value (arr ys)) st rest) (add_items_all x xs)
    run-dump st (obj end) rest h ends = refl
    run-dump st (obj (field k v fs)) rest h ends =
        read_first_key st k v fs rest h.0
        ∙ run-dump (in_object end k ∷ st) v (write_fields fs ++ rest) h.1 (fields_end fs rest)
        ∙ run-dump_fields st end (field k v end) k v fs rest (set_field-new end k v refl) h.3
        ∙ ap (λ gs. run fl (after_value (obj gs)) st rest) (add_fields_all k v fs h)

    run-dump_items :
        (st : List Frame) (pre : Items) (x : Json) (xs : Items) (rest : Text)
        → ExactItems xs
        → run fl (after_value x) (in_array pre ∷ st) (write_items xs ++ rest)
          ≡ run fl (after_value (arr (add_items (add_item pre x) xs))) st rest
    run-dump_items st pre x nil rest h = refl
    run-dump_items st pre x (cons y ys) rest (hy, hs) =
        ap (run fl (after_value x) (in_array pre ∷ st)) (ap (λ s. b',' ∷ s) (write-item y ys rest))
        ∙ next_item st pre x (write y ++ (write_items ys ++ rest))
        ∙ run-dump (in_array (add_item pre x) ∷ st) y (write_items ys ++ rest) hy
            (items_end ys rest)
        ∙ run-dump_items st (add_item pre x) y ys rest hs

    run-dump_fields :
        (st : List Frame) (pre acc : Fields) (k : Text) (v : Json) (fs : Fields) (rest : Text)
        → set_field pre k v ≡ acc
        → ExactFields acc fs
        → run fl (after_value v) (in_object pre k ∷ st) (write_fields fs ++ rest)
          ≡ run fl (after_value (obj (add_fields acc fs))) st rest
    run-dump_fields st pre acc k v end rest e h = ap (λ gs. run fl (after_value (obj gs)) st rest) e
    run-dump_fields st pre acc k v (field i w fs) rest e (hk, hv, new, hs) =
        ap (run fl (after_value v) (in_object pre k ∷ st))
          (ap (λ s. b',' ∷ s) (write-next i w fs rest))
        ∙ next_key st pre k v (write_field i w fs rest)
        ∙ ap (λ gs. run fl (text (as_key gs) [] none) st (write_field i w fs rest)) e
        ∙ read_key st acc i _ hk
        ∙ run-dump (in_object acc i ∷ st) w (write_fields fs ++ rest) hv (fields_end fs rest)
        ∙ run-dump_fields st acc (add_field acc i w) i w fs rest (set_field-new acc i w new) hs
        ∙ ap (λ gs. run fl (after_value (obj (add_fields gs fs))) st rest)
            (sym (set_field-new acc i w new))

  read_back : (j : Json) → Exact j → loads_text fl (write j) ≡ ok j
  unfolding loads_text run finish
  read_back j h = ap (run fl value_start []) (sym (append-nil (write j))) ∙ run-dump [] j [] h tt

  -- The bytes have no mark at their start.
  read_bytes_back : (j : Json) (b : Bytes) → Exact j → encode (write j) ≡ ok b → loads fl b ≡ ok j
  unfolding loads
  read_bytes_back j b h e =
      let (c, s, es, starts) = write_head j [] h in
      let ascii : leb 0x80 c ≡ false = ground (arith, starts) in
      let head : write j ≡ c ∷ s = sym (append-nil (write j)) ∙ es in
      let (more, eb) = encode-ascii-cons c s b ascii (ap encode (sym head) ∙ e) in
      let unmarked : skip_mark b ≡ b = ap skip_mark eb ∙ skip_mark-ascii c more ascii ∙ sym eb in
      rw (unmarked, decode_lax-encode (write j) b e) (read_back j h)

-- `json.loads` reads back what `json.dumps` writes of a value with no float, whose texts are Unicode
-- and whose keys differ: for the default separators and for the compact ones, whatever blanks
-- the default ones hold, and at any depth.
pub loads_text-dumps :
    (fl : Floats) (j : Json)
    → Exact j
    → (loads_text fl (dumps fl j) ≡ ok j) × (loads_text fl (dumps_compact fl j) ≡ ok j)
unfolding dumps dumps_compact is_blank
loads_text-dumps fl j h =
    (read_back fl (lit " ") (lit " ") (refl, tt) (refl, tt) j h, read_back fl [] [] tt tt j h)

-- The same of the bytes of the text.
pub loads-dumps :
    (fl : Floats) (j : Json) (b : Bytes) → Exact j → encode (dumps fl j) ≡ ok b → loads fl b ≡ ok j
unfolding dumps is_blank
loads-dumps fl j b h e = read_bytes_back fl (lit " ") (lit " ") (refl, tt) (refl, tt) j b h e

pub loads-dumps_compact :
    (fl : Floats) (j : Json) (b : Bytes)
    → Exact j
    → encode (dumps_compact fl j) ≡ ok b
    → loads fl b ≡ ok j
unfolding dumps_compact
loads-dumps_compact fl j b h e = read_bytes_back fl [] [] tt tt j b h e
