-- ===== src/Base/Text.antt =====
-- Texts: comparison without ASCII case, splitting, joining, and the components of a path.
use Prim.Native.Nat.{ℕ, ◌+◌}
use Prim.Native.Char.{Char, code}
use Prim.Native.String.{String, ◌++◌ as ◌<>◌}
use mathlib.Core.Path.{◌≡◌, refl}
use mathlib.Core.Bool.{Bool, true, false, ◌&&◌, ◌||◌}
use mathlib.Core.Option.{Option, none, some}
use mathlib.Core.List.{List, [], ◌∷◌}
use text.Mathlib.Text.{◌==◌ as ◌=s◌}
use ghaf_device_manager.Base.Tests.{if◌then◌else◌, leb, ◌==◌, is_some}
use ghaf_device_manager.Base.Lists.{any}

to_ascii_lowercase : ℕ → ℕ
to_ascii_lowercase c = if leb b'A' c && leb c b'Z' then c + 32 else c

-- `str::eq_ignore_ascii_case`.
unfoldable pub eq_ignore_ascii_case : String → String → Bool
unfolding to_ascii_lowercase
eq_ignore_ascii_case String.[] String.[] = true
eq_ignore_ascii_case String.[] (String.◌∷◌ d t) = false
eq_ignore_ascii_case (String.◌∷◌ c s) String.[] = false
eq_ignore_ascii_case (String.◌∷◌ c s) (String.◌∷◌ d t) =
    to_ascii_lowercase (code c) == to_ascii_lowercase (code d) && eq_ignore_ascii_case s t

abbrev pub is_empty_text : String → Bool
is_empty_text String.[] = true
is_empty_text (String.◌∷◌ c s) = false

-- `Vec::contains` and `Option == Some(..)` on texts.
abbrev pub contains : List String → String → Bool
contains xs x = any (λ y. y =s x) xs

abbrev pub is_text : Option String → String → Bool
is_text none t = false
is_text (some s) t = s =s t

-- `Option<String> == Option<String>`.
abbrev pub same_text : Option String → Option String → Bool
same_text none none = true
same_text none (some t) = false
same_text (some s) none = false
same_text (some s) (some t) = s =s t

-- `format!`: its parts, one after the other.
abbrev pub concat : List String → String
concat [] = ""
concat (x ∷ xs) = x <> concat xs

abbrev pub join : String → List String → String
join sep [] = ""
join sep (x ∷ []) = x
join sep (x ∷ y ∷ xs) = x <> (sep <> join sep (y ∷ xs))

-- `char::is_whitespace`: Unicode's White_Space.
unfoldable pub is_whitespace : ℕ → Bool
is_whitespace c =
    (leb 9 c && leb c 13)
    || (c == 32)
    || (c == 0x85)
    || (c == 0xa0)
    || (c == 0x1680)
    || (leb 0x2000 c && leb c 0x200a)
    || (c == 0x2028)
    || (c == 0x2029)
    || (c == 0x202f)
    || (c == 0x205f)
    || (c == 0x3000)

unfoldable pub trim_start : String → String
unfolding is_whitespace
trim_start String.[] = ""
trim_start (String.◌∷◌ c s) =
    let rest = trim_start s in if is_whitespace (code c) then rest else String.◌∷◌ c s

unfoldable pub trim_end : String → String
unfolding is_whitespace
trim_end String.[] = ""
trim_end (String.◌∷◌ c s) =
    let rest = trim_end s in
    if is_empty_text rest && is_whitespace (code c) then "" else String.◌∷◌ c rest

-- `str::trim`.
unfoldable pub trim : String → String
unfolding trim_start trim_end
trim s = trim_start (trim_end s)

-- The words so far: the one being read, and the rest of the text's.
unfoldable pub words_from : String → String → List String
unfolding is_whitespace
words_from word String.[] = if is_empty_text word then [] else word ∷ []
words_from word (String.◌∷◌ c s) =
    let inside = words_from (word <> (String.◌∷◌ c "")) s in
    let after = words_from "" s in
    if is_whitespace (code c) then (if is_empty_text word then after else word ∷ after) else inside

-- `str::split_whitespace`.
unfoldable pub split_whitespace : String → List String
unfolding words_from
split_whitespace s = words_from "" s

unfoldable pub contains_code : ℕ → String → Bool
contains_code k String.[] = false
contains_code k (String.◌∷◌ c s) = code c == k || contains_code k s

-- `str::strip_prefix`.
unfoldable pub strip_prefix : String → String → Option String
strip_prefix String.[] s = some s
strip_prefix (String.◌∷◌ p ps) String.[] = none
strip_prefix (String.◌∷◌ p ps) (String.◌∷◌ c s) =
    let rest = strip_prefix ps s in if code p == code c then rest else none

unfoldable pub is_digits : String → Bool
is_digits String.[] = true
is_digits (String.◌∷◌ c s) = (leb b'0' (code c) && leb (code c) b'9') && is_digits s

-- `str::rsplit_once` at one character.
unfoldable pub rsplit_once : ℕ → String → Option (String × String)
rsplit_once k String.[] = none
rsplit_once k (String.◌∷◌ c s) = elim (rsplit_once k s) [
  | some (before, after) ↦ some (String.◌∷◌ c before, after)
  | none ↦ if code c == k then some ("", s) else none
]

-- `Path::file_name` of a path that does not end in a slash.
unfoldable pub file_name : String → Option String
unfolding rsplit_once
file_name p = elim (rsplit_once b'/' p) [
  | none ↦ if is_empty_text p then none else some p
  | some (dir, name) ↦ if is_empty_text name then none else some name
]

-- `Path::parent` of a path that does not end in a slash.
unfoldable pub parent : String → Option String
unfolding rsplit_once
parent p = elim (rsplit_once b'/' p) [
  | none ↦ if is_empty_text p then none else some ""
  | some (dir, name) ↦
      if is_empty_text dir then (if is_empty_text name then none else some "/") else some dir
]

-- `Path::join` with a relative name.
infixl 66 ◌/s◌
abbrev pub ◌/s◌ : String → String → String
dir /s name = dir <> ("/" <> name)

-- `str::split_once` at one character.
unfoldable pub split_once : ℕ → String → Option (String × String)
split_once k String.[] = none
split_once k (String.◌∷◌ c s) =
    let rest = split_once k s in
    if code c == k
    then some ("", s)
    else elim rest [ none ↦ none | some (before, after) ↦ some (String.◌∷◌ c before, after) ]

-- `split(k).next()`: the text before the first `k`.
unfoldable pub until : ℕ → String → String
until k String.[] = ""
until k (String.◌∷◌ c s) = let rest = until k s in if code c == k then "" else String.◌∷◌ c rest

-- `str::lines`, less the carriage returns.
lines_from : String → String → List String
lines_from line String.[] = if is_empty_text line then [] else line ∷ []
lines_from line (String.◌∷◌ c s) =
    let inside = lines_from (line <> (String.◌∷◌ c "")) s in
    let after = lines_from "" s in if code c == 10 then line ∷ after else inside

unfoldable pub lines : String → List String
unfolding lines_from
lines s = lines_from "" s

-- `Path::starts_with`: whole components.
unfoldable pub lies_under : String → String → Bool
unfolding strip_prefix
lies_under path dir = elim (strip_prefix dir path) [
  | none ↦ false
  | some String.[] ↦ true
  | some (String.◌∷◌ c s) ↦ code c == b'/'
]

-- The character that stands where `c` stands in the other text.
counterpart : String → String → Char → Char
counterpart String.[] ys c = c
counterpart (String.◌∷◌ x xs) String.[] c = c
counterpart (String.◌∷◌ x xs) (String.◌∷◌ y ys) c =
    let rest = counterpart xs ys c in if code x == code c then y else rest

-- `str::to_uppercase` on ASCII.
unfoldable pub to_uppercase : String → String
unfolding counterpart
to_uppercase String.[] = ""
to_uppercase (String.◌∷◌ c s) =
    String.◌∷◌ (counterpart "abcdefghijklmnopqrstuvwxyz" "ABCDEFGHIJKLMNOPQRSTUVWXYZ" c)
      (to_uppercase s)

trim_runs : split_whitespace " ok  7 " ≡ "ok" ∷ "7" ∷ []
unfolding split_whitespace
trim_runs = refl

file_name_runs : file_name "/sys/bus/usb/drivers/uas" ≡ some "uas"
unfolding file_name
file_name_runs = refl

-- `str::contains`.
unfoldable pub contains_text : String → String → Bool
unfolding strip_prefix
contains_text pattern String.[] = is_empty_text pattern
contains_text pattern (String.◌∷◌ c s) =
    let rest = contains_text pattern s in
    if is_some (strip_prefix pattern (String.◌∷◌ c s)) then true else rest
