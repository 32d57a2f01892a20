-- ===== src/Common/Text.antt =====
-- Python's `str.strip`: the characters of `str.isspace` are dropped from both ends.
use Prim.Native.Nat.{ℕ}
use Prim.Native.Char.{Char, code}
use Prim.Native.String.{String}
use Prim.Native.String as Text
use mathlib.Core.Bool.{Bool, true, false, ◌&&◌, ◌||◌}
use pikol_backend.Common.Tests.{leb, eqb, if◌then◌else◌}

abbrev within : ℕ → ℕ → ℕ → Bool
within lo hi n = leb lo n && leb n hi

-- `str.isspace` of one character.
abbrev pub is_space : Char → Bool
is_space c =
    let n = code c in
    within 9 13 n
    || within 28 32 n
    || eqb n 133
    || eqb n 160
    || eqb n 5760
    || within 8192 8202 n
    || within 8232 8233 n
    || eqb n 8239
    || eqb n 8287
    || eqb n 12288

abbrev text_is_empty : String → Bool
text_is_empty Text.[] = true
text_is_empty (Text.◌∷◌ c s) = false

abbrev lstrip : String → String
lstrip Text.[] = ""
lstrip (Text.◌∷◌ c s) = let rest = lstrip s in if is_space c then rest else Text.◌∷◌ c s

abbrev rstrip : String → String
rstrip Text.[] = ""
rstrip (Text.◌∷◌ c s) =
    let rest = rstrip s in if text_is_empty rest && is_space c then "" else Text.◌∷◌ c rest

unfoldable pub strip : String → String
strip s = rstrip (lstrip s)
