-- ===== src/Cli/Escape.antt =====
-- src/bin/ghaf-device.rs: untrusted text, escaped before it reaches a terminal.
use Prim.Native.String.{count}
use ghaf_device_manager.Base.{
  ℕ, ◌+◌, Char, code, String, ◌<>◌, ◌≡◌, refl, Bool, ◌&&◌, ◌||◌, if◌then◌else◌, leb, ltb, ◌==◌,
  hexadecimal,
}
pub mod Safe
pub mod Reader
pub mod Decode
pub mod Field

abbrev max_field_chars : ℕ
max_field_chars = 256

abbrev truncation_marker : String
truncation_marker = "..."

-- `char::is_control`: Unicode's category Cc.
abbrev pub is_control : ℕ → Bool
is_control c = leb c 31 || (leb 127 c && leb c 159)

-- The overrides and isolates of the bidirectional algorithm.
abbrev pub is_bidi : ℕ → Bool
is_bidi c = (leb 0x202a c && leb c 0x202e) || (leb 0x2066 c && leb c 0x2069)

unfoldable pub must_escape : ℕ → Bool
must_escape c = is_control c || is_bidi c || (c == b'\\')

-- `char::escape_debug`, on the characters that must be escaped.
unfoldable pub escape_debug : ℕ → String
escape_debug c =
    if c == 0
    then "\\0"
    else if c == 9
    then "\\t"
    else if c == 13
    then "\\r"
    else if c == 10
    then "\\n"
    else if c == b'\\'
    then "\\\\"
    else "\\u{" <> (hexadecimal 1 c <> "}")

-- What one character adds to the output.
unfoldable pub push_escaped : Char → String
push_escaped c = if must_escape (code c) then escape_debug (code c) else String.◌∷◌ c ""

unfoldable pub escape_control : String → String
escape_control String.[] = ""
escape_control (String.◌∷◌ c s) = push_escaped c <> escape_control s

-- What the loop adds to the output once `rendered` characters are in it.
unfoldable pub escape_from : ℕ → String → String
escape_from rendered String.[] = ""
escape_from rendered (String.◌∷◌ c s) =
    let rendered' = rendered + count (push_escaped c) in
    let rest = escape_from rendered' s in
    if ltb max_field_chars rendered' then truncation_marker else push_escaped c <> rest

unfoldable pub escape_field : String → String
escape_field s = escape_from 0 s

escape_runs : escape_control "a\u{1b}\\\n\u{202e}é" ≡ "a\\u{1b}\\\\\\n\\u{202e}é"
unfolding escape_control push_escaped escape_debug must_escape hexadecimal
escape_runs = refl
