-- ===== src/Strings/Defs.antt =====
-- Byte strings. A function that in Go returns an index and slices by it returns the parts here.
use Prim.Native.Char.{code}
use mathlib.Core.Option
use xlistman.Prelude.{
  ℕ, String, Bool, true, false, ◌&&◌, Option, none, some, List, [], ◌∷◌, ◌==◌, if◌then◌else◌,
}

abbrev pub Text : Type 0
Text = List ℕ

-- The code points of a literal: its bytes, since every literal of the source is ASCII.
abbrev pub codes : String → Text
codes String.[] = []
codes (String.◌∷◌ c s) = code c ∷ codes s

-- a == b
unfoldable pub text_eq : Text → Text → Bool
text_eq [] [] = true
text_eq [] (b ∷ t) = false
text_eq (a ∷ s) [] = false
text_eq (a ∷ s) (b ∷ t) = a == b && text_eq s t

-- s == ""
unfoldable pub is_empty : Text → Bool
is_empty [] = true
is_empty (c ∷ s) = false

-- strings.HasPrefix with the slice behind the prefix
unfoldable pub strip_prefix : Text → Text → Option Text
strip_prefix [] s = some s
strip_prefix (p ∷ ps) [] = none
strip_prefix (p ∷ ps) (c ∷ s) = if p == c then strip_prefix ps s else none

unfoldable pub has_prefix : Text → Text → Bool
unfolding strip_prefix
has_prefix p s = elim (strip_prefix p s) [ some _ ↦ true | none ↦ false ]

-- strings.HasSuffix with strings.TrimSuffix
unfoldable pub strip_suffix : Text → Text → Option Text
unfolding text_eq
strip_suffix p [] = if text_eq p [] then some [] else none
strip_suffix p (c ∷ s) =
    if text_eq p (c ∷ s) then some [] else Option.map (λ t. c ∷ t) (strip_suffix p s)

abbrev before : ℕ → Option (Text × Text) → Option (Text × Text)
before c none = none
before c (some (s, t)) = some (c ∷ s, t)

abbrev or_else : Option (Text × Text) → Option (Text × Text) → Option (Text × Text)
or_else none d = d
or_else (some p) d = some p

abbrev here : Option Text → Option (Text × Text)
here none = none
here (some t) = some ([], t)

-- strings.Index: the parts before and behind the first occurrence of a separator
unfoldable pub cut : Text → Text → Option (Text × Text)
unfolding strip_prefix
cut p [] = here (strip_prefix p [])
cut p (c ∷ s) = or_else (here (strip_prefix p (c ∷ s))) (before c (cut p s))

-- strings.LastIndex: the parts before and behind the last occurrence of a separator
unfoldable pub cut_last : Text → Text → Option (Text × Text)
unfolding strip_prefix
cut_last p [] = here (strip_prefix p [])
cut_last p (c ∷ s) = or_else (before c (cut_last p s)) (here (strip_prefix p (c ∷ s)))
