-- ===== src/Cli/Escape/Safe.antt =====
-- Escaped text holds no control character and no bidirectional override.
use text.Mathlib.TextLemmas.{cons-append, nil-append}
use ghaf_device_manager.Base.{
  ℕ, zero, suc, ◌-◌, ◌/◌, ◌%◌, ◌<◌, Char, code, String, ◌<>◌, ◌≡◌, refl, ap, ◌∙◌, Bool, true, false,
  not, ◌&&◌, ◌||◌, if◌then◌else◌, ◌==◌, arith, hexadecimal, hex_text, hex_on,
}
use ghaf_device_manager.Base.Below.{below}
use ghaf_device_manager.Cli.Escape.{
  is_control, is_bidi, must_escape, escape_debug, push_escaped, escape_control,
}

-- A text that no terminal takes a command from, nor the order of its characters.
unfoldable pub is_safe : String → Bool
is_safe String.[] = true
is_safe (String.◌∷◌ c s) = not (is_control (code c) || is_bidi (code c)) && is_safe s

pub is_safe-append : (s t : String) → is_safe s ≡ true → is_safe t ≡ true → is_safe (s <> t) ≡ true
unfolding is_safe
is_safe-append String.[] t h k = ap is_safe (nil-append t) ∙ k
is_safe-append (String.◌∷◌ c s) t h k =
    ap is_safe (cons-append c s t) ∙ ground (arith, is_safe-append s t)

is_safe-hex_text : (d : ℕ) → d < 16 → is_safe (hex_text d) ≡ true
unfolding is_safe
is_safe-hex_text d l =
    below (λ k. is_safe (hex_text k) ≡ true) 16
      (
        refl,
        (
          refl,
          (
            refl,
            (
              refl,
              (
                refl,
                (
                  refl,
                  (refl, (refl, (refl, (refl, (refl, (refl, (refl, (refl, (refl, (refl, _)))))))))),
                ),
              ),
            ),
          ),
        ),
      )
      d l

is_safe-hex_on :
    (fuel w n : ℕ) (acc : String) → is_safe acc ≡ true → is_safe (hex_on fuel w n acc) ≡ true
unfolding hex_on
is_safe-hex_on zero w n acc h = h
is_safe-hex_on (suc fuel) w n acc h =
    let h' = is_safe-append (hex_text (n % 16)) acc (is_safe-hex_text (n % 16) (omega (arith))) h in
    let rest = is_safe-hex_on fuel (w - 1) (n / 16) (hex_text (n % 16) <> acc) h' in
    ground (arith, h', rest)

is_safe-if :
    (b : Bool) (x y : String)
    → is_safe x ≡ true
    → is_safe y ≡ true
    → is_safe (if b then x else y) ≡ true
is_safe-if true x y h k = h
is_safe-if false x y h k = k

is_safe-escape_debug : (c : ℕ) → is_safe (escape_debug c) ≡ true
unfolding escape_debug hexadecimal is_safe
is_safe-escape_debug c =
    let hex = is_safe-append (hexadecimal 1 c) "}" (is_safe-hex_on 8 1 c "" refl) refl in
    let whole = is_safe-append "\\u{" (hexadecimal 1 c <> "}") refl hex in
    is_safe-if (c == 0) _ _ refl (
      is_safe-if (c == 9) _ _ refl (
        is_safe-if (c == 13) _ _ refl
          (is_safe-if (c == 10) _ _ refl (is_safe-if (c == b'\\') _ _ refl whole))))

is_safe-push_escaped : (c : Char) → is_safe (push_escaped c) ≡ true
unfolding push_escaped must_escape is_safe
is_safe-push_escaped c = ground (arith, is_safe-escape_debug (code c))

-- Whatever the text, what `escape_control` prints holds no control character, so no escape sequence, and
-- no override or isolate of the bidirectional algorithm.
pub escape_control-IsSafe : (s : String) → is_safe (escape_control s) ≡ true
unfolding escape_control is_safe
escape_control-IsSafe String.[] = refl
escape_control-IsSafe (String.◌∷◌ c s) =
    is_safe-append (push_escaped c) (escape_control s) (is_safe-push_escaped c)
      (escape_control-IsSafe s)
