-- ===== src/Prelude/Text.antt =====
-- What the source uses of JavaScript's strings: `trim` as a test for blank text, and `length`.
use Prim.Native.Nat.{ℕ, ◌+◌}
use Prim.Native.Char.{code}
use Prim.Native.String.{String}
use mathlib.Core.Bool.{Bool, true, false, ◌&&◌, ◌||◌}
use infinite_context.Prelude.Tests.{leb, ltb, ◌==◌, if◌then◌else◌}

-- White space and line ends, as `String.prototype.trim` removes them.
abbrev is_space : ℕ → Bool
is_space c =
    (leb 9 c && leb c 13)
    || c == 32
    || c == 0xa0
    || c == 0x1680
    || (leb 0x2000 c && leb c 0x200a)
    || c == 0x2028
    || c == 0x2029
    || c == 0x202f
    || c == 0x205f
    || c == 0x3000
    || c == 0xfeff

-- `text.trim().length === 0`
unfoldable pub is_blank : String → Bool
is_blank String.[] = true
is_blank (String.◌∷◌ c s) = let rest = is_blank s in if is_space (code c) then rest else false

-- `text.length`: the number of UTF-16 code units.
unfoldable pub utf16_length : String → ℕ
utf16_length String.[] = 0
utf16_length (String.◌∷◌ c s) = (if ltb 0xffff (code c) then 2 else 1) + utf16_length s

abbrev collapse_after : Bool → String → String
collapse_after spaced String.[] = ""
collapse_after spaced (String.◌∷◌ c s) =
    let blank = is_space (code c) in
    let rest = collapse_after blank s in
    if blank then (if spaced then rest else String.◌∷◌ " " rest) else String.◌∷◌ c rest

-- `text.replace(/\s+/g, " ")`
unfoldable pub collapse_spaces : String → String
collapse_spaces = collapse_after false

abbrev trim_start : String → String
trim_start String.[] = ""
trim_start (String.◌∷◌ c s) =
    let rest = trim_start s in if is_space (code c) then rest else String.◌∷◌ c s

abbrev trim_end : String → String
trim_end String.[] = ""
trim_end (String.◌∷◌ c s) =
    let rest = trim_end s in if is_blank (String.◌∷◌ c s) then "" else String.◌∷◌ c rest

-- `text.trim()`
unfoldable pub trim : String → String
trim s = trim_end (trim_start s)
