-- ===== src/Cli/Escape/Reader.antt =====
-- A reader of escaped text, and how it reads hexadecimal digits.
use native.Mathlib.Nat.{pow-suc}
use text.Mathlib.TextLemmas.{append_assoc, cons-append, nil-append}
use ghaf_device_manager.Base.{
  ℕ, zero, suc, ◌+◌, ◌-◌, ◌*◌, ◌/◌, ◌%◌, ◌^◌, ◌<◌, ◌≤◌, Char, code, String, ◌<>◌, ◌≡◌, ap, ◌∙◌,
  List, [], ◌∷◌, ◌++◌, if◌then◌else◌, leb, ◌==◌, arith, ◌⊎◌, inl, inr, hex_text, hex_on,
}
use ghaf_device_manager.Base.Below.{below}

pub data Mode : Type 0 where
  plain : Mode
  escaped : Mode
  brace : Mode
  digits : ℕ → Mode

abbrev pub of_digit : ℕ → ℕ
of_digit c = if leb c b'9' then c - 48 else c - 87

abbrev pub of_escape : ℕ → ℕ
of_escape c =
    if c == b'0'
    then 0
    else if c == b't'
    then 9
    else if c == b'r'
    then 13
    else if c == b'n'
    then 10
    else c

-- One character: the next mode, and the characters read.
abbrev pub step : Mode → ℕ → Mode × List ℕ
step Mode.plain c = if c == b'\\' then (Mode.escaped, []) else (Mode.plain, c ∷ [])
step Mode.escaped c = if c == b'u' then (Mode.brace, []) else (Mode.plain, of_escape c ∷ [])
step Mode.brace c = (Mode.digits 0, [])
step (Mode.digits v) c =
    if c == b'}' then (Mode.plain, v ∷ []) else (Mode.digits (v * 16 + of_digit c), [])

unfoldable pub read : Mode → String → List ℕ
read m String.[] = []
read m (String.◌∷◌ c s) = let (m', out) = step m (code c) in out ++ read m' s

unfoldable pub codes : String → List ℕ
codes String.[] = []
codes (String.◌∷◌ c s) = code c ∷ codes s

pub char-append : (c : Char) (s : String) → String.◌∷◌ c "" <> s ≡ String.◌∷◌ c s
char-append c s = cons-append c "" s ∙ ap (String.◌∷◌ c) (nil-append s)

read-hex_text :
    (d v : ℕ)
    → d < 16
    → (s : String) → read (Mode.digits v) (hex_text d <> s) ≡ read (Mode.digits (v * 16 + d)) s
unfolding read
read-hex_text d v l s =
    let digit = λ (c : Char). ap (read (Mode.digits v)) (char-append c s) in
    below (λ k. read (Mode.digits v) (hex_text k <> s) ≡ read (Mode.digits (v * 16 + k)) s) 16
      (
        digit "f",
        (
          digit "e",
          (
            digit "d",
            (
              digit "c",
              (
                digit "b",
                (
                  digit "a",
                  (
                    digit "9",
                    (
                      digit "8",
                      (
                        digit "7",
                        (
                          digit "6",
                          (
                            digit "5",
                            (digit "4", (digit "3", (digit "2", (digit "1", (digit "0", _))))),
                          ),
                        ),
                      ),
                    ),
                  ),
                ),
              ),
            ),
          ),
        ),
      )
      d l

read-digit :
    (d v : ℕ)
    → d < 16
    → (acc s : String)
    → read (Mode.digits v) ((hex_text d <> acc) <> s) ≡ read (Mode.digits (v * 16 + d)) (acc <> s)
read-digit d v l acc s =
    ap (read (Mode.digits v)) (append_assoc (hex_text d) acc s) ∙ read-hex_text d v l (acc <> s)

-- The digits that the least significant one stands behind.
high_below : (fuel n : ℕ) → n < 16 ^ suc (suc fuel) → n / 16 < 16 ^ suc fuel
high_below fuel n l = omega (arith, pow-suc 16 (suc fuel))

hex_on-last :
    (fuel w n : ℕ)
    → w ≤ 1
    → n < 16
    → (acc : String) → hex_on (suc fuel) w n acc ≡ hex_text (n % 16) <> acc
unfolding hex_on
hex_on-last fuel w n lw ln acc = ground (arith)

hex_on-more :
    (fuel w n : ℕ)
    → 15 < n
    → (acc : String)
    → hex_on (suc fuel) w n acc ≡ hex_on fuel (w - 1) (n / 16) (hex_text (n % 16) <> acc)
unfolding hex_on
hex_on-more fuel w n ln acc = ground (arith)

read-hex_on-last :
    (fuel w n : ℕ)
    → w ≤ 1
    → n < 16
    → (acc s : String)
    → read (Mode.digits 0) (hex_on (suc fuel) w n acc <> s) ≡ read (Mode.digits n) (acc <> s)
read-hex_on-last fuel w n lw l acc s =
    ap (λ t. read (Mode.digits 0) (t <> s)) (hex_on-last fuel w n lw l acc)
    ∙ read-digit (n % 16) 0 (omega (arith)) acc s
    ∙ ap (λ k. read (Mode.digits k) (acc <> s)) (omega (arith))

short-or-long : (n : ℕ) → (n < 16) ⊎ (15 < n)
short-or-long n = omega (arith)

pub read-hex_on :
    (fuel w n : ℕ)
    → w ≤ 1
    → n < 16 ^ suc fuel
    → (acc s : String)
    → read (Mode.digits 0) (hex_on (suc fuel) w n acc <> s) ≡ read (Mode.digits n) (acc <> s)
read-hex_on zero w n lw ln acc s = read-hex_on-last 0 w n lw (omega (arith)) acc s
read-hex_on (suc fuel) w n lw ln acc s = elim (short-or-long n) [
  | inl l ↦ read-hex_on-last (suc fuel) w n lw l acc s
  | inr l ↦
      ap (λ t. read (Mode.digits 0) (t <> s)) (hex_on-more (suc fuel) w n l acc)
      ∙ read-hex_on fuel (w - 1) (n / 16) (omega (arith)) (high_below fuel n ln)
          (hex_text (n % 16) <> acc) s
      ∙ read-digit (n % 16) (n / 16) (omega (arith)) acc s
      ∙ ap (λ k. read (Mode.digits k) (acc <> s)) (omega (arith))
]
