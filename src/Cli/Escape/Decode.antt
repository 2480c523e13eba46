-- ===== src/Cli/Escape/Decode.antt =====
-- The reader gives back what was escaped, so two texts are never rendered alike.
use mathlib.Core.Path.{subst}
use mathlib.Core.List.{cons≢nil, head-eq_of_cons-eq, tail-eq_of_cons-eq}
use text.Mathlib.TextEquality.{Char-path}
use text.Mathlib.TextLemmas.{append_assoc, cons-append, nil-append}
use ghaf_device_manager.Base.{
  ℕ, ◌^◌, ◌<◌, Char, code, String, ◌<>◌, ◌≡◌, refl, ap, sym, ◌∙◌, true, false, [], ◌∷◌, ◌++◌, ◌==◌,
  arith, Bool-cases, ==_iff, ◌⊎◌, inl, inr, hexadecimal,
}
use ghaf_device_manager.Cli.Escape.{must_escape, escape_debug, push_escaped, escape_control}
use ghaf_device_manager.Cli.Escape.Reader.{Mode, step, read, codes, char-append, read-hex_on}

-- A text of a backslash and a letter.
abbrev pair : Char → String
pair c = String.◌∷◌ "\\" (String.◌∷◌ c "")

pair-append : (c : Char) (s : String) → pair c <> s ≡ String.◌∷◌ "\\" (String.◌∷◌ c s)
pair-append c s = cons-append "\\" (String.◌∷◌ c "") s ∙ ap (String.◌∷◌ "\\") (char-append c s)

brace-append : (s : String) → "\\u{" <> s ≡ String.◌∷◌ "\\" (String.◌∷◌ "u" (String.◌∷◌ "{" s))
brace-append s =
    cons-append "\\" "u{" s
    ∙ ap (String.◌∷◌ "\\") (cons-append "u" "{" s ∙ ap (String.◌∷◌ "u") (char-append "{" s))

read-brace :
    (c : ℕ)
    → c < 16 ^ 8
    → (s : String)
    → read Mode.plain (("\\u{" <> (hexadecimal 1 c <> "}")) <> s) ≡ c ∷ read Mode.plain s
unfolding read hexadecimal
read-brace c l s =
    ap (read Mode.plain) (
      append_assoc "\\u{" (hexadecimal 1 c <> "}") s ∙ brace-append ((hexadecimal 1 c <> "}") <> s))
    ∙ ap (read (Mode.digits 0)) (append_assoc (hexadecimal 1 c) "}" s)
    ∙ read-hex_on 7 1 c (omega (arith)) l "" ("}" <> s)
    ∙ ap (read (Mode.digits c)) (nil-append ("}" <> s) ∙ char-append "}" s)

-- The letter that stands for a character.
abbrev Short : ℕ → Char → Type 0
Short c d = (escape_debug c ≡ pair d) × (step Mode.escaped (code d) ≡ (Mode.plain, c ∷ []))

Short-at : (k : ℕ) (d : Char) → Short k d → (c : ℕ) → (c == k) ≡ true → (d : Char) × Short c d
Short-at k d short c e = subst (λ n. (d : Char) × Short n d) (sym ((==_iff c k).0 e)) (d, short)

escape_debug-cases :
    (c : ℕ) → ((d : Char) × Short c d) ⊎ (escape_debug c ≡ "\\u{" <> (hexadecimal 1 c <> "}"))
unfolding escape_debug
escape_debug-cases c = elim (Bool-cases (c == 0)) [
  | inl e ↦ inl (Short-at 0 "0" (refl, refl) c e)
  | inr e0 ↦ elim (Bool-cases (c == 9)) [
    | inl e ↦ inl (Short-at 9 "t" (refl, refl) c e)
    | inr e9 ↦ elim (Bool-cases (c == 13)) [
      | inl e ↦ inl (Short-at 13 "r" (refl, refl) c e)
      | inr e13 ↦ elim (Bool-cases (c == 10)) [
        | inl e ↦ inl (Short-at 10 "n" (refl, refl) c e)
        | inr e10 ↦ elim (Bool-cases (c == 92)) [
          | inl e ↦ inl (Short-at 92 "\\" (refl, refl) c e)
          | inr e92 ↦ inr (rw (e0, e9, e13, e10, e92) refl)
        ]
      ]
    ]
  ]
]

must_escape-bound : (c : ℕ) → must_escape c ≡ true → c < 16 ^ 8
unfolding must_escape
must_escape-bound c h = ground (arith)

read-escape_debug :
    (c : ℕ)
    → must_escape c ≡ true
    → (s : String) → read Mode.plain (escape_debug c <> s) ≡ c ∷ read Mode.plain s
unfolding read
read-escape_debug c h s = elim (escape_debug-cases c) [
  | inl (d, (e, k)) ↦
      ap (λ t. read Mode.plain (t <> s)) e
      ∙ ap (read Mode.plain) (pair-append d s)
      ∙ ap (λ p. p.1 ++ read p.0 s) k
  | inr e ↦ ap (λ t. read Mode.plain (t <> s)) e ∙ read-brace c (must_escape-bound c h) s
]

read-plain : (c : ℕ) → must_escape c ≡ false → step Mode.plain c ≡ (Mode.plain, c ∷ [])
unfolding must_escape
read-plain c h = ground (arith)

read-push_escaped :
    (c : Char) (s : String) → read Mode.plain (push_escaped c <> s) ≡ code c ∷ read Mode.plain s
unfolding read push_escaped
read-push_escaped c s = elim (Bool-cases (must_escape (code c))) [
  | inl e ↦ rw e (read-escape_debug (code c) e s)
  | inr e ↦
      rw e (
        ap (read Mode.plain) (char-append c s)
        ∙ ap (λ p. p.1 ++ read p.0 s) (read-plain (code c) e))
]

-- The reader gives back the characters of any text that was escaped.
pub read-escape_control : (s : String) → read Mode.plain (escape_control s) ≡ codes s
unfolding read escape_control codes
read-escape_control String.[] = refl
read-escape_control (String.◌∷◌ c s) =
    read-push_escaped c (escape_control s) ∙ ap (λ l. code c ∷ l) (read-escape_control s)

codes-injective : (s t : String) → codes s ≡ codes t → s ≡ t
unfolding codes
codes-injective String.[] String.[] e = refl
codes-injective String.[] (String.◌∷◌ d t) e = absurd (cons≢nil (sym e))
codes-injective (String.◌∷◌ c s) String.[] e = absurd (cons≢nil e)
codes-injective (String.◌∷◌ c s) (String.◌∷◌ d t) e =
    ap (λ x. String.◌∷◌ x s) (Char-path c d (head-eq_of_cons-eq e))
    ∙ ap (String.◌∷◌ d) (codes-injective s t (tail-eq_of_cons-eq e))

-- Two different texts are never rendered alike.
pub escape_control-injective : (s t : String) → escape_control s ≡ escape_control t → s ≡ t
escape_control-injective s t e =
    codes-injective s t
      (sym (read-escape_control s) ∙ ap (read Mode.plain) e ∙ read-escape_control t)
