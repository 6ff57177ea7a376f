-- ===== src/Base/Text.antt =====
-- `str::trim` of the standard library: what is left without the white space at the two ends.
use Prim.Native.Nat.{ℕ, ◌+◌}
use Prim.Native.Char.{Char, code}
use Prim.Native.String.{String}
use mathlib.Core.Bool.{Bool, ◌&&◌, ◌||◌}
use h3llo.Base.Tests.{◌==◌, leb, ltb, if◌then◌else◌}

-- The code points with the property White_Space.
abbrev pub is_whitespace : Char → Bool
is_whitespace c =
    let n = code c in
    (leb 9 n && leb n 13)
    || ((n == 0x20)
        || ((n == 0x85)
            || ((n == 0xA0)
                || ((n == 0x1680)
                    || ((leb 0x2000 n && leb n 0x200A)
                        || ((n == 0x2028)
                            || ((n == 0x2029)
                                || ((n == 0x202F) || ((n == 0x205F) || (n == 0x3000))))))))))

unfoldable pub trim_left : String → String
trim_left String.[] = String.[]
trim_left (String.◌∷◌ c s) =
    let rest = trim_left s in if is_whitespace c then rest else String.◌∷◌ c s

abbrev pub cons_unless_blank : Char → String → String
cons_unless_blank c String.[] = if is_whitespace c then String.[] else String.◌∷◌ c String.[]
cons_unless_blank c (String.◌∷◌ d s) = String.◌∷◌ c (String.◌∷◌ d s)

unfoldable pub trim_right : String → String
trim_right String.[] = String.[]
trim_right (String.◌∷◌ c s) = cons_unless_blank c (trim_right s)

unfoldable pub trim : String → String
trim s = trim_right (trim_left s)

-- The bytes of a character in UTF-8.
abbrev utf8_len : Char → ℕ
utf8_len c =
    if ltb (code c) 0x80
    then 1
    else if ltb (code c) 0x800
    then 2
    else if ltb (code c) 0x10000
    then 3
    else 4

-- `str::len`, in bytes.
abbrev pub byte_len : String → ℕ
byte_len String.[] = 0
byte_len (String.◌∷◌ c s) = utf8_len c + byte_len s
