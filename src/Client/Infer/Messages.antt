-- ===== src/Client/Infer/Messages.antt =====
-- `chat`: the messages split into a prefix and a suffix.
use fidrouter.Base.{Text, lit, List, [], ◌∷◌, ◌++◌, Result, ok, ◌>>=◌}
use fidrouter.Json.{Json, Floats, str, item}
use fidrouter.Json.Convert.{to_text}

-- `f'{m["role"]}: {m["content"]}'`
unfoldable pub message_line : Floats → Json → Result Text
message_line fl m = do
  role ← item m (lit "role")
  content ← item m (lit "content")
  ok (to_text fl role ++ (lit ": " ++ to_text fl content))

-- `"\n".join(…)` over all messages but the last, and the last one's content, which may be any value
unfoldable pub split_messages : Floats → List Json → Result (Text × Json)
unfolding message_line
split_messages fl [] = ok ([], str [])
split_messages fl (m ∷ []) = do content ← item m (lit "content"); ok ([], content)
split_messages fl (m ∷ n ∷ []) = do
  line ← message_line fl m
  content ← item n (lit "content")
  ok (line, content)
split_messages fl (m ∷ n ∷ o ∷ ms) = do
  line ← message_line fl m
  rest ← split_messages fl (n ∷ o ∷ ms)
  ok (line ++ b'\n' ∷ rest.0, rest.1)
