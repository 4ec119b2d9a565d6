-- ===== src/Json/Loads/Texts.antt =====
-- What `json.dumps` writes of a text, the scanner reads back.
use fidrouter.Base.{
  ℕ, suc, ◌+◌, ◌*◌, ◌-◌, ◌/◌, ◌%◌, ◌≤◌, ◌<◌, Text, true, false, ◌&&◌, Option, none, some, List, [],
  ◌∷◌, ◌++◌, append_assoc, append-nil, ◌≡◌, refl, ap, ◌∙◌, sym, ◌⊎◌, ltb, leb, ◌==◌, All, arith,
  if-split, subst, ltb→lt, ==_iff,
}
use fidrouter.Text.Hex.{hex_digit, hex_value-hex_digit}
use fidrouter.Json.{Floats}
use fidrouter.Json.Dump.{unicode_escape, dump_char, dump_chars}
use fidrouter.Json.Scan.{
  Frame, Target, text, unicode, add_escaped, end_text, step_escape, step_unicode, step,
}
use fidrouter.Json.Loads.{run}

-- A code point that is no surrogate.
abbrev pub IsScalar : ℕ → Type 0
IsScalar c = (c < 0xd800) ⊎ ((0xe000 ≤ c) × (c < 0x110000))

module _ (fl : Floats) (tgt : Target) (st : List Frame) where
  run_digit :
      (t : Text) (high : Option ℕ) (n v d : ℕ) (rest : Text)
      → d < 16
      → run fl (unicode tgt t high (suc n) v) st (hex_digit d ∷ rest)
        ≡ run fl (unicode tgt t high n (v * 16 + d)) st rest
  unfolding run step step_unicode
  run_digit t high n v d rest h = rw (hex_value-hex_digit d h)

  run_last_digit :
      (t : Text) (high : Option ℕ) (v d : ℕ) (rest : Text)
      → d < 16
      → run fl (unicode tgt t high 0 v) st (hex_digit d ∷ rest)
        ≡ run fl (add_escaped tgt t high (v * 16 + d)) st rest
  unfolding run step step_unicode
  run_last_digit t high v d rest h = rw (hex_value-hex_digit d h)

  run_u :
      (t : Text) (high : Option ℕ) (rest : Text)
      → run fl (text tgt t high) st (b'\\' ∷ b'u' ∷ rest) ≡ run fl (unicode tgt t high 3 0) st rest
  unfolding run step step_escape
  run_u t high rest = refl

  -- Four digits.
  run-unicode_escape :
      (t : Text) (high : Option ℕ) (c : ℕ) (rest : Text)
      → c < 0x10000
      → run fl (text tgt t high) st (unicode_escape c ++ rest)
        ≡ run fl (add_escaped tgt t high c) st rest
  run-unicode_escape t high c rest h =
      run_u t high _
      ∙ run_digit t high 2 0 (c / 4096) _ (omega arith)
      ∙ run_digit t high 1 (0 * 16 + c / 4096) (c / 256 % 16) _ (omega arith)
      ∙ run_digit t high 0 ((0 * 16 + c / 4096) * 16 + c / 256 % 16) (c / 16 % 16) _ (omega arith)
      ∙ run_last_digit t high (((0 * 16 + c / 4096) * 16 + c / 256 % 16) * 16 + c / 16 % 16)
          (c % 16) rest (omega arith)
      ∙ ap (λ v. run fl (add_escaped tgt t high v) st rest) (omega arith)

  -- The state after a text so far.
  abbrev Adds : Text → ℕ → Text → Text → Type 0
  Adds t c rest s =
      run fl (text tgt t none) st (s ++ rest) ≡ run fl (text tgt (t ++ c ∷ []) none) st rest

  run-plain :
      (t : Text) (c : ℕ) (rest : Text)
      → (c == b'"') ≡ false
      → (c == b'\\') ≡ false
      → (leb 32 c && leb c 126) ≡ true
      → Adds t c rest (c ∷ [])
  unfolding run step
  run-plain t c rest q b printable =
      let large : ltb c 0x20 ≡ false = ground (arith, printable) in rw (q, b, large)

  add_escaped-scalar :
      (t : Text) (c : ℕ)
      → IsScalar c
      → c < 0x10000
      → add_escaped tgt t none c ≡ text tgt (t ++ c ∷ []) none
  unfolding add_escaped
  add_escaped-scalar t c s h = ground arith

  -- A pair of surrogates is joined again.
  add_escaped-high :
      (t : Text) (k : ℕ)
      → k < 1024
      → add_escaped tgt t none (0xd800 + k) ≡ text tgt t (some (0xd800 + k))
  unfolding add_escaped
  add_escaped-high t k h = ground arith

  add_escaped-low :
      (t : Text) (k l : ℕ)
      → k < 1024
      → l < 1024
      → add_escaped tgt t (some (0xd800 + k)) (0xdc00 + l)
        ≡ text tgt (t ++ (0x10000 + (0xd800 + k - 0xd800) * 1024 + (0xdc00 + l - 0xdc00)) ∷ []) none
  unfolding add_escaped
  add_escaped-low t k l hk hl = ground arith

  run-pair :
      (t : Text) (c : ℕ) (rest : Text)
      → 0x10000 ≤ c
      → c < 0x110000
      → Adds t c rest (
          unicode_escape (0xd800 + (c - 0x10000) / 1024)
          ++ unicode_escape (0xdc00 + (c - 0x10000) % 1024))
  run-pair t c rest low high =
      let k = (c - 0x10000) / 1024 in
      let l = (c - 0x10000) % 1024 in
      ap (run fl (text tgt t none) st)
        (append_assoc (unicode_escape (0xd800 + k)) (unicode_escape (0xdc00 + l)) rest)
      ∙ run-unicode_escape t none (0xd800 + k) _ (omega arith)
      ∙ ap (λ m. run fl m st (unicode_escape (0xdc00 + l) ++ rest))
          (add_escaped-high t k (omega arith))
      ∙ run-unicode_escape t (some (0xd800 + k)) (0xdc00 + l) rest (omega arith)
      ∙ ap (λ m. run fl m st rest) (add_escaped-low t k l (omega arith) (omega arith))
      ∙ ap (λ v. run fl (text tgt (t ++ v ∷ []) none) st rest) (omega arith)

  is_char :
      (t : Text) (c d : ℕ) (rest s : Text) → Adds t d rest s → (c == d) ≡ true → Adds t c rest s
  is_char t c d rest s h e = subst (λ v. Adds t v rest s) (sym ((==_iff c d).0 e)) h

  run-dump_char : (t : Text) (c : ℕ) (rest : Text) → IsScalar c → Adds t c rest (dump_char c)
  unfolding dump_char run step step_escape
  run-dump_char t c rest s =
      if-split (Adds t c rest) (c == b'"') _ _ (is_char t c b'"' rest (b'\\' ∷ b'"' ∷ []) refl)
        λ quote.
          if-split (Adds t c rest) (c == b'\\') _ _
            (is_char t c b'\\' rest (b'\\' ∷ b'\\' ∷ []) refl)
            λ slash.
              if-split (Adds t c rest) (c == 10) _ _ (is_char t c 10 rest (b'\\' ∷ b'n' ∷ []) refl)
                λ _.
                  if-split (Adds t c rest) (c == 13) _ _
                    (is_char t c 13 rest (b'\\' ∷ b'r' ∷ []) refl)
                    λ _.
                      if-split (Adds t c rest) (c == 9) _ _
                        (is_char t c 9 rest (b'\\' ∷ b't' ∷ []) refl)
                        λ _.
                          if-split (Adds t c rest) (c == 12) _ _
                            (is_char t c 12 rest (b'\\' ∷ b'f' ∷ []) refl)
                            λ _.
                              if-split (Adds t c rest) (c == 8) _ _
                                (is_char t c 8 rest (b'\\' ∷ b'b' ∷ []) refl)
                                λ _.
                                  if-split (Adds t c rest) (leb 32 c && leb c 126) _ _
                                    (run-plain t c rest quote slash)
                                    λ _.
                                      if-split (Adds t c rest) (ltb c 0x10000) _ _
                                        (λ small.
                                          let h : c < 0x10000 = ltb→lt c 0x10000 small in
                                          run-unicode_escape t none c rest h
                                          ∙ ap (λ m. run fl m st rest) (add_escaped-scalar t c s h))
                                        λ big. run-pair t c rest (ground arith) (ground arith)

  run-dump_chars :
      (t s rest : Text)
      → All IsScalar s
      → run fl (text tgt t none) st (dump_chars s ++ rest) ≡ run fl (text tgt (t ++ s) none) st rest
  unfolding dump_chars
  run-dump_chars t [] rest h = ap (λ u. run fl (text tgt u none) st rest) (sym (append-nil t))
  run-dump_chars t (c ∷ s) rest (hc, hs) =
      ap (run fl (text tgt t none) st) (append_assoc (dump_char c) (dump_chars s) rest)
      ∙ run-dump_char t c (dump_chars s ++ rest) hc
      ∙ run-dump_chars (t ++ c ∷ []) s rest hs
      ∙ ap (λ u. run fl (text tgt u none) st rest) (append_assoc t (c ∷ []) s)

  -- The text between its quotes, after the first one.
  pub run-dump_text :
      (s rest : Text)
      → All IsScalar s
      → run fl (text tgt [] none) st (dump_chars s ++ b'"' ∷ rest) ≡ run fl (end_text tgt s) st rest
  run-dump_text s rest h = run-dump_chars [] s (b'"' ∷ rest) h ∙ unfold run step in refl
