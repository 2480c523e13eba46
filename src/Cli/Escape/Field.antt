-- ===== src/Cli/Escape/Field.antt =====
-- A field that a device supplies: bounded, safe, and cut only between two characters.
use Prim.Native.String.{count}
use text.Mathlib.TextLemmas.{append_assoc, cons-append, nil-append, length-append}
use ghaf_device_manager.Base.{
  ℕ, ◌+◌, ◌≤◌, ◌<◌, Char, String, ◌<>◌, ◌≡◌, refl, ap, ◌∙◌, sym, true, ◌⊎◌, inl, inr, ltb, arith,
  Bool-cases,
}
use ghaf_device_manager.Cli.Escape.{push_escaped, escape_control, escape_from, escape_field}
use ghaf_device_manager.Cli.Escape.Safe.{is_safe, is_safe-append, escape_control-IsSafe}

-- The text fits in what is left of 256 characters, and all of it is rendered.
pub record IsWhole (rendered : ℕ) (s out : String) : Type 0 where
  fits : rendered + count (escape_control s) ≤ 256
  all_of_it : out ≡ escape_control s

-- Only a part of the text fits, the rendering of one character more does not, and the marker ends it.
pub record IsCut (rendered : ℕ) (s out : String) : Type 0 where
  kept : String
  next : Char
  rest : String
  parts : s ≡ kept <> String.◌∷◌ next rest
  kept_fits : rendered + count (escape_control kept) ≤ 256
  next_does_not : 256 < rendered + count (escape_control kept) + count (push_escaped next)
  cut : out ≡ escape_control kept <> "..."

-- Rendering one character more, where it fits.
module _ (rendered : ℕ) (c : Char) (s out : String) where
  IsWhole-more :
      IsWhole (rendered + count (push_escaped c)) s out
      → IsWhole rendered (String.◌∷◌ c s) (push_escaped c <> out)
  unfolding escape_control
  IsWhole-more w = record {
    fits = omega (arith, w.fits, length-append (push_escaped c) (escape_control s));
    all_of_it = ap (λ t. push_escaped c <> t) (w.all_of_it);
  }

  IsCut-more :
      IsCut (rendered + count (push_escaped c)) s out
      → IsCut rendered (String.◌∷◌ c s) (push_escaped c <> out)
  unfolding escape_control
  IsCut-more w =
      let longer = length-append (push_escaped c) (escape_control (w.kept)) in
      record {
        kept = String.◌∷◌ c (w.kept);
        next = w.next;
        rest = w.rest;
        parts =
            ap (String.◌∷◌ c) (w.parts)
            ∙ sym (cons-append c (w.kept) (String.◌∷◌ (w.next) (w.rest)));
        kept_fits = omega (arith, w.kept_fits, longer);
        next_does_not = omega (arith, w.next_does_not, longer);
        cut =
            ap (λ t. push_escaped c <> t) (w.cut)
            ∙ sym (append_assoc (push_escaped c) (escape_control (w.kept)) "...");
      }

  IsCut-here :
      rendered ≤ 256
      → ltb 256 (rendered + count (push_escaped c)) ≡ true
      → IsCut rendered (String.◌∷◌ c s) "..."
  unfolding escape_control
  IsCut-here l h = record {
    kept = "";
    next = c;
    rest = s;
    parts = sym (nil-append (String.◌∷◌ c s));
    kept_fits = omega (arith);
    next_does_not = ground (arith);
    cut = sym (nil-append "...");
  }

escape_from-IsBounded :
    (rendered : ℕ) (s : String)
    → rendered ≤ 256
    → IsWhole rendered s (escape_from rendered s) ⊎ IsCut rendered s (escape_from rendered s)
unfolding escape_from escape_control
escape_from-IsBounded rendered String.[] l = inl record { fits = omega (arith); all_of_it = refl }
escape_from-IsBounded rendered (String.◌∷◌ c s) l =
    elim (Bool-cases (ltb 256 (rendered + count (push_escaped c)))) [
      | inl e ↦ inr (rw e (IsCut-here rendered c s "" l e))
      | inr e ↦
          rw e
            (elim (escape_from-IsBounded (rendered + count (push_escaped c)) s (ground (arith))) [
              | inl w ↦ inl (IsWhole-more rendered c s _ w)
              | inr w ↦ inr (IsCut-more rendered c s _ w)
            ])
    ]

-- `escape_field` renders a text whole where that takes at most 256 characters. Where it takes more, it
-- renders the longest beginning of the text that takes at most 256, with no escape cut in two, and
-- adds the marker.
pub escape_field-IsBounded :
    (s : String) → IsWhole 0 s (escape_field s) ⊎ IsCut 0 s (escape_field s)
unfolding escape_field
escape_field-IsBounded s = escape_from-IsBounded 0 s (omega (arith))

-- What `escape_field` prints holds no control character and no bidirectional override either.
pub escape_field-IsSafe : (s : String) → is_safe (escape_field s) ≡ true
unfolding is_safe
escape_field-IsSafe s = elim (escape_field-IsBounded s) [
  | inl w ↦ ap is_safe (w.all_of_it) ∙ escape_control-IsSafe s
  | inr w ↦
      ap is_safe (w.cut)
      ∙ is_safe-append (escape_control (w.kept)) "..." (escape_control-IsSafe (w.kept)) refl
]
