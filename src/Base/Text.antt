-- ===== src/Base/Text.antt =====
-- What the source asks of a text: its length in UTF-16 units, whether it is blank or hexadecimal,
-- the decimal form of a number in a message, and `join`.
use Prim.Native.Nat.{ℕ, zero, suc, ◌+◌, ◌-◌, ◌/◌, ◌%◌}
use Prim.Native.Char.{code}
use Prim.Native.String.{String}
use Prim.Native.String as Str
use mathlib.Core.Bool.{Bool, not, ◌&&◌, ◌||◌}
use mathlib.Core.List.{List, [], ◌∷◌, map}
use herdr_harness_lite.Base.Tests.{ltb, leb, if◌then◌else◌, ◌==◌, nat_eq}
use herdr_harness_lite.Base.Lists.{every, some_of, includes, length}
use herdr_harness_lite.Base.{Option, some, none}

-- The code points of a text.
pub codes : String → List ℕ
codes Str.[] = []
codes (Str.◌∷◌ c s) = code c ∷ codes s

-- `text.length`: a code point outside the basic plane counts twice.
unfoldable pub text_length : String → ℕ
text_length Str.[] = 0
text_length (Str.◌∷◌ c s) = (if ltb (code c) 0x10000 then 1 else 2) + text_length s

-- The code points that `trim` takes off.
is_white : ℕ → Bool
is_white c =
    leb 9 c && leb c 13
    || leb 0x2000 c && leb c 0x200a
    || includes (0x20 ∷ 0xa0 ∷ 0x1680 ∷ 0x2028 ∷ 0x2029 ∷ 0x202f ∷ 0x205f ∷ 0x3000 ∷ 0xfeff ∷ []) c

-- `text.trim() === ""`
unfoldable pub is_blank : String → Bool
unfolding is_white every codes includes
is_blank s = every is_white (codes s)

-- `isBoundedText` of model.ts, on a value that is a text.
unfoldable pub is_bounded_text : String → ℕ → Bool
unfolding is_blank text_length some_of codes
is_bounded_text value max =
    not (is_blank value) && leb (text_length value) max && not (some_of (λ c. c == 0) (codes value))

is_hex_digit : ℕ → Bool
is_hex_digit c = leb b'0' c && leb c b'9' || leb b'a' c && leb c b'f' || leb b'A' c && leb c b'F'

-- `/^[0-9a-f]{n}$/i.test(text)`
unfoldable pub is_hex : ℕ → String → Bool
unfolding is_hex_digit every codes
is_hex n s = length (codes s) == n && every is_hex_digit (codes s)

infixr 65 ◌<>◌
abbrev pub ◌<>◌ : String → String → String
s <> t = Str.◌++◌ s t

digit : ℕ → String
digit zero = "0"
digit (suc zero) = "1"
digit (suc (suc zero)) = "2"
digit (suc (suc (suc zero))) = "3"
digit (suc (suc (suc (suc zero)))) = "4"
digit (suc (suc (suc (suc (suc zero))))) = "5"
digit (suc (suc (suc (suc (suc (suc zero)))))) = "6"
digit (suc (suc (suc (suc (suc (suc (suc zero))))))) = "7"
digit (suc (suc (suc (suc (suc (suc (suc (suc zero)))))))) = "8"
digit _ = "9"

show_from : ℕ → ℕ → String
show_from zero n = ""
show_from (suc fuel) n =
    let rest = show_from fuel (n / 10) in if ltb n 10 then digit n else rest <> digit (n % 10)

-- A number in a template literal. The number of its digits is at most one more than the number.
unfoldable pub show_number : ℕ → String
unfolding show_from digit
show_number n = show_from (suc n) n

-- `texts.join(separator)`
unfoldable pub join : String → List String → String
join separator [] = ""
join separator (t ∷ []) = t
join separator (t ∷ ts) = t <> separator <> join separator ts

-- `text.slice(0, n)` of a text of characters outside no plane, such as a digest.
unfoldable pub take_text : ℕ → String → String
take_text zero s = ""
take_text (suc n) Str.[] = ""
take_text (suc n) (Str.◌∷◌ c s) = Str.◌∷◌ c (take_text n s)

-- `toLowerCase` on the letters A to Z, by code points.
lower : ℕ → ℕ
lower c = if leb b'A' c && leb c b'Z' then c + 32 else c

unfoldable pub lower_codes : String → List ℕ
unfolding lower codes
lower_codes s = map lower (codes s)

-- Takes a prefix off; `none` if the list does not begin with it.
unfoldable pub strip_prefix : List ℕ → List ℕ → Option (List ℕ)
strip_prefix [] cs = some cs
strip_prefix (p ∷ ps) [] = none
strip_prefix (p ∷ ps) (c ∷ cs) = let rest = strip_prefix ps cs in if p == c then rest else none

-- Takes `n` hexadecimal digits off, `[0-9a-f]{n}`, and returns them with the rest.
unfoldable pub take_hex : ℕ → List ℕ → Option (List ℕ × List ℕ)
unfolding is_hex_digit
take_hex zero cs = some ([], cs)
take_hex (suc n) [] = none
take_hex (suc n) (c ∷ cs) =
    let rest = take_hex n cs in
    if is_hex_digit c then elim rest [ none ↦ none | some (ds, r) ↦ some (c ∷ ds, r) ] else none

-- `text.slice(0, n)` in UTF-16 units, but for a pair of units that the cut would split.
unfoldable pub take_units : ℕ → String → String
take_units n Str.[] = ""
take_units n (Str.◌∷◌ c s) =
    let width : ℕ = if ltb (code c) 0x10000 then 1 else 2 in
    let rest = take_units (n - width) s in if leb width n then Str.◌∷◌ c rest else ""

-- `text.slice(-n)`, likewise.
unfoldable pub last_units : ℕ → String → String
unfolding text_length
last_units n Str.[] = ""
last_units n (Str.◌∷◌ c s) =
    let rest = last_units n s in if leb (text_length (Str.◌∷◌ c s)) n then Str.◌∷◌ c s else rest
