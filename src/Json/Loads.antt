-- ===== src/Json/Loads.antt =====
-- `json.loads` of a text, and of bytes in UTF-8, with or without a mark at its start.
pub mod Texts
pub mod Numbers
pub mod Exact
pub mod Laws
use fidrouter.Base.{
  Text, Bytes, Result, err, ok, value_error, ◌>>=◌, List, [], ◌∷◌, ◌==◌, ◌&&◌, if◌then◌else◌,
}
use fidrouter.Text.Utf8.Decode.{decode_lax}
use fidrouter.Json.{Json, Floats}
use fidrouter.Json.Scan.{Frame, Mode, value_start, State, step, finish}

unfoldable pub run : Floats → Mode → List Frame → Text → Result Json
unfolding step finish
run fl m st [] = finish fl m st
run fl m st (c ∷ s) = step fl m st c >>= λ next. run fl next.0 next.1 s

unfoldable pub loads_text : Floats → Text → Result Json
unfolding run
loads_text fl s = run fl value_start [] s

-- `utf-8-sig`
unfoldable pub skip_mark : Bytes → Bytes
skip_mark (a ∷ b ∷ c ∷ bs) = if a == 0xef && b == 0xbb && c == 0xbf then bs else a ∷ b ∷ c ∷ bs
skip_mark bs = bs

unfoldable pub loads : Floats → Bytes → Result Json
unfolding loads_text skip_mark decode_lax
loads fl bs = do s ← decode_lax (skip_mark bs); loads_text fl s
