-- ===== src/Adapter/Server/Bodies.antt =====
-- What the handler makes of a body that a client writes with `json.dumps`.
use fidrouter.Base.{
  Text, Bytes, lit, Option, [], ◌∷◌, ◌++◌, ok, pos, length, take-append_at, All, arith, ◌≡◌, refl,
  ap, ◌∙◌, same, if◌then◌else◌,
}
use fidrouter.Text.Strip.{strip}
use fidrouter.Text.Utf8.{encode}
use fidrouter.Json.{Json, str, obj, end, field, get_or, as_text, truthy}
use fidrouter.Json.Dump.{dumps}
use fidrouter.Json.Loads.{loads, loads_text}
use fidrouter.Json.Loads.Texts.{IsScalar}
use fidrouter.Json.Loads.Exact.{Exact, ExactFields}
use fidrouter.Json.Loads.Laws.{loads-dumps}
use fidrouter.Adapter.Token.{Host, Settings}
use fidrouter.Adapter.Server.{failure, body_length, read_body, answer_verdict, with_body, do_post}

-- `{"key": …}`
abbrev pub keyed : Text → Json
keyed key = obj (field (lit "key") (str key) end)

-- No bytes are no document.
loads-nil : (h : Host) (j : Json) → loads h.floats [] ≡ ok j → ⊥
unfolding loads loads_text
loads-nil h j e = cc

module _ (h : Host) where
  read_body-dumps :
      (j : Json) (b rest : Bytes)
      → Exact j
      → encode (dumps h.floats j) ≡ ok b
      → read_body h (pos (length b)) (b ++ rest) ≡ ok j
  unfolding read_body
  read_body-dumps j [] rest x e = absurd (loads-nil h j (loads-dumps h.floats j [] x e))
  read_body-dumps j (c ∷ b) rest x e =
      rw (take-append_at (length (c ∷ b)) (c ∷ b) rest refl) (loads-dumps h.floats j (c ∷ b) x e)

  -- The handler reads the very value that was written, whatever bytes follow it.
  pub do_post-dumps :
      (s : Settings) (j : Json) (b rest : Bytes) (header : Option Text)
      → Exact j
      → encode (dumps h.floats j) ≡ ok b
      → body_length header ≡ ok (pos (length b))
      → do_post h s
          (record { path = lit "/exchange"; content_length = header; payload = b ++ rest })
        ≡ with_body h s (ok j)
  unfolding do_post same
  do_post-dumps s j b rest header x e l = rw l (ap (with_body h s) (read_body-dumps j b rest x e))

  keyed-Exact : (key : Text) → All IsScalar key → Exact (keyed key)
  unfolding Exact ExactFields
  keyed-Exact key k = (ground arith, k, refl, tt)

  with_body-keyed :
      (s : Settings) (key : Text)
      → with_body h s (ok (keyed key)) ≡ (
          if same (strip key) []
          then ok (failure 400 (lit "provide the user key as {\"key\":\"...\"}"))
          else answer_verdict h s (strip key) (s.validate (strip key)))
  unfolding with_body as_text same strip get_or truthy
  with_body-keyed s [] = refl
  with_body-keyed s (c ∷ key) = refl

  -- A client that posts `{"key": …}`, written by `json.dumps`, with the length of the body in its header,
  -- has just that key validated, without the blanks around it, and is answered by what the validator
  -- says; only a key of nothing but blanks is refused unasked, with status 400. The key is any Unicode
  -- text.
  pub do_post-keyed :
      (s : Settings) (key : Text) (b rest : Bytes) (header : Option Text)
      → All IsScalar key
      → encode (dumps h.floats (keyed key)) ≡ ok b
      → body_length header ≡ ok (pos (length b))
      → do_post h s
          (record { path = lit "/exchange"; content_length = header; payload = b ++ rest })
        ≡ (if same (strip key) []
            then ok (failure 400 (lit "provide the user key as {\"key\":\"...\"}"))
            else answer_verdict h s (strip key) (s.validate (strip key)))
  do_post-keyed s key b rest header k e l =
      do_post-dumps s (keyed key) b rest header (keyed-Exact key k) e l ∙ with_body-keyed s key
