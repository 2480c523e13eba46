-- ===== src/Base/Numbers.antt =====
-- Numbers in decimal and hexadecimal, printed and read.
use Prim.Native.Nat.{ℕ, zero, suc, ◌+◌, ◌-◌, ◌*◌, ◌/◌, ◌%◌}
use Prim.Native.Char.{code}
use Prim.Native.String.{String, ◌++◌ as ◌<>◌}
use mathlib.Core.Path.{◌≡◌, refl}
use mathlib.Core.Bool.{◌&&◌}
use mathlib.Core.Option.{Option, none, some}
use ghaf_device_manager.Base.Tests.{if◌then◌else◌, leb, ◌==◌}
use ghaf_device_manager.Base.Text.{is_empty_text}

abbrev digit : ℕ → String
digit zero = "0"
digit (suc zero) = "1"
digit (suc (suc zero)) = "2"
digit (suc (suc (suc zero))) = "3"
digit (suc (suc (suc (suc zero)))) = "4"
digit (suc (suc (suc (suc (suc zero))))) = "5"
digit (suc (suc (suc (suc (suc (suc zero)))))) = "6"
digit (suc (suc (suc (suc (suc (suc (suc zero))))))) = "7"
digit (suc (suc (suc (suc (suc (suc (suc (suc zero)))))))) = "8"
digit _ = "9"

digits_on : ℕ → ℕ → String → String
digits_on zero n acc = acc
digits_on (suc fuel) n acc =
    let acc' = digit (n % 10) <> acc in
    let rest = digits_on fuel (n / 10) acc' in if leb n 9 then acc' else rest

-- `u64` in decimal: at most twenty digits.
unfoldable pub decimal : ℕ → String
unfolding digits_on
decimal n = digits_on 20 n ""

-- The value of a hexadecimal digit.
hex_digit : ℕ → Option ℕ
hex_digit c =
    if leb b'0' c && leb c b'9'
    then some (c - 48)
    else if leb b'a' c && leb c b'f'
    then some (c - 87)
    else if leb b'A' c && leb c b'F'
    then some (c - 55)
    else none

digit_below : ℕ → ℕ → Option ℕ
unfolding hex_digit
digit_below radix c = elim (hex_digit c) [
  | none ↦ none
  | some d ↦ if leb radix d then none else some d
]

-- The digits of a number in a radix up to 16; a value above the bound is refused.
number_from : ℕ → ℕ → ℕ → String → Option ℕ
number_from radix bound n String.[] = some n
number_from radix bound n (String.◌∷◌ c s) = elim (digit_below radix (code c)) [
  | none ↦ none
  | some d ↦
      let n' = n * radix + d in
      let rest = number_from radix bound n' s in if leb n' bound then rest else none
]

-- A leading plus sign is accepted by `from_str_radix` and `parse`.
unfoldable pub from_str_radix : ℕ → ℕ → String → Option ℕ
unfolding number_from digit_below hex_digit
from_str_radix radix bound String.[] = none
from_str_radix radix bound (String.◌∷◌ c s) =
    if code c == b'+'
    then (if is_empty_text s then none else number_from radix bound 0 s)
    else number_from radix bound 0 (String.◌∷◌ c s)

-- `trim_start_matches("0x")`.
unfoldable pub trim_hex : String → String
trim_hex String.[] = ""
trim_hex (String.◌∷◌ c String.[]) = String.◌∷◌ c ""
trim_hex (String.◌∷◌ c (String.◌∷◌ d s)) =
    let rest = trim_hex s in
    if code c == b'0' && code d == b'x' then rest else String.◌∷◌ c (String.◌∷◌ d s)

-- A hexadecimal digit in lower case; `{:X}` prints the upper case of the whole.
abbrev pub hex_text : ℕ → String
hex_text n =
    if leb n 9
    then digit n
    else if n == 10
    then "a"
    else if n == 11
    then "b"
    else if n == 12
    then "c"
    else if n == 13
    then "d"
    else if n == 14
    then "e"
    else "f"

-- `{:0wx}`: at least `width` digits; a `u32` has at most eight.
unfoldable pub hex_on : ℕ → ℕ → ℕ → String → String
hex_on zero width n acc = acc
hex_on (suc fuel) width n acc =
    let acc' = hex_text (n % 16) <> acc in
    let rest = hex_on fuel (width - 1) (n / 16) acc' in
    if leb n 15 && leb width 1 then acc' else rest

unfoldable pub hexadecimal : ℕ → ℕ → String
unfolding hex_on
hexadecimal width n = hex_on 8 width n ""

-- `{:03}`.
pad_on : ℕ → ℕ → ℕ → String → String
pad_on zero width n acc = acc
pad_on (suc fuel) width n acc =
    let acc' = digit (n % 10) <> acc in
    let rest = pad_on fuel (width - 1) (n / 10) acc' in
    if leb n 9 && leb width 1 then acc' else rest

unfoldable pub padded : ℕ → ℕ → String
unfolding pad_on
padded width n = pad_on 20 width n ""

padded_runs : padded 3 4 ≡ "004"
unfolding padded
padded_runs = refl

hexadecimal_runs : hexadecimal 2 14 ≡ "0e"
unfolding hexadecimal
hexadecimal_runs = refl

decimal_runs : decimal 2050 ≡ "2050"
unfolding decimal
decimal_runs = refl

hex_runs : from_str_radix 16 255 (trim_hex "0xfF") ≡ some 255
unfolding from_str_radix trim_hex
hex_runs = refl
