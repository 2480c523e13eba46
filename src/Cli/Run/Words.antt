-- ===== src/Cli/Run/Words.antt =====
-- The VMM arguments as the shell reads them back: the printed line, split at whitespace.
use text.Mathlib.TextLemmas.{append_assoc, cons-append, nil-append, append-nil}
use ghaf_device_manager.Base.{
  Char, String, ◌<>◌, ◌≡◌, refl, ap, sym, ◌∙◌, Bool, true, false, not, List, [], ◌∷◌, ◌++◌, filter,
  any, join, is_empty_text, words_from, split_whitespace, code, is_whitespace, if◌then◌else◌, arith,
}
use ghaf_device_manager.Base.Outcome.{Error}
use ghaf_device_manager.Cli.Commands.{Ended, failed}
use ghaf_device_manager.Cli.Run.{has_whitespace, vmm_text}

words_from-char :
    (c : Char) (s w : String)
    → is_whitespace (code c) ≡ false
    → words_from w (String.◌∷◌ c s) ≡ words_from (w <> String.◌∷◌ c "") s
unfolding words_from
words_from-char c s w h = rw h refl

-- A word without whitespace is read to its end.
words_from-word :
    (a w t : String) → has_whitespace a ≡ false → words_from w (a <> t) ≡ words_from (w <> a) t
unfolding has_whitespace words_from
words_from-word String.[] w t h =
    ap (words_from w) (nil-append t) ∙ ap (λ v. words_from v t) (sym (append-nil w))
words_from-word (String.◌∷◌ c a) w t h =
    ap (words_from w) (cons-append c a t)
    ∙ words_from-char c (a <> t) w (ground (arith))
    ∙ words_from-word a (w <> String.◌∷◌ c "") t (ground (arith))
    ∙ ap (λ v. words_from v t)
        (append_assoc w (String.◌∷◌ c "") a
          ∙ ap (λ v. w <> v) (cons-append c "" a ∙ ap (String.◌∷◌ c) (nil-append a)))

abbrev word : String → List String
word a = if is_empty_text a then [] else a ∷ []

after_space :
    (b : Bool) (a : String) (after : List String)
    → (if b then after else a ∷ after) ≡ (if b then [] else a ∷ []) ++ after
after_space true a after = refl
after_space false a after = refl

-- A word and the space behind it.
words_from-space :
    (a rest : String)
    → has_whitespace a ≡ false
    → words_from "" (a <> (" " <> rest)) ≡ word a ++ words_from "" rest
unfolding words_from is_whitespace
words_from-space a rest h =
    words_from-word a "" (" " <> rest) h
    ∙ ap (λ v. words_from v (" " <> rest)) (nil-append a)
    ∙ ap (words_from a) (cons-append " " "" rest ∙ ap (String.◌∷◌ " ") (nil-append rest))
    ∙ after_space (is_empty_text a) a (words_from "" rest)

words_from-last : (a : String) → has_whitespace a ≡ false → words_from "" a ≡ word a
unfolding words_from
words_from-last a h =
    ap (words_from "") (sym (append-nil a))
    ∙ words_from-word a "" "" h
    ∙ ap (λ v. words_from v "") (nil-append a)

non_empty : String → Bool
non_empty a = not (is_empty_text a)

filter-cons :
    (a : String) (args : List String)
    → filter non_empty (a ∷ args) ≡ word a ++ filter non_empty args
unfolding non_empty
filter-cons a args = ground (arith)

split-join :
    (args : List String)
    → any has_whitespace args ≡ false
    → words_from "" (join " " args) ≡ filter non_empty args
unfolding words_from
split-join [] h = refl
split-join (a ∷ []) h = words_from-last a (ground (arith)) ∙ sym (filter-cons a [] ∙ ground (arith))
split-join (a ∷ b ∷ args) h =
    words_from-space a (join " " (b ∷ args)) (ground (arith))
    ∙ ap (λ l. word a ++ l) (split-join (b ∷ args) (ground (arith)))
    ∙ sym (filter-cons a (b ∷ args))

ok-injective : (s t : String) → Ended.ok s ≡ Ended.ok t → s ≡ t
ok-injective s t e = cc

printed :
    (m : Error) (b : Bool) (s text : String)
    → (if b then failed m else Ended.ok s) ≡ Ended.ok text
    → (b ≡ false) × (s ≡ text)
printed m true s text e = cc
printed m false s text e = (refl, ok-injective s text e)

-- What is printed for a list of VMM arguments, where it is printed, reads as that list when it is split at
-- whitespace: each argument is one word, and only empty arguments are lost.
pub vmm_text-split_whitespace :
    (arguments : List String) (text : String)
    → vmm_text arguments ≡ Ended.ok text
    → split_whitespace text ≡ filter (λ a. not (is_empty_text a)) arguments
unfolding vmm_text split_whitespace non_empty
vmm_text-split_whitespace arguments text e =
    let (none_spaced, whole) = printed _ (any has_whitespace arguments) _ text e in
    ap split_whitespace (sym whole) ∙ split-join arguments none_spaced
