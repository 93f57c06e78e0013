-- ===== src/Strings/Laws.antt =====
-- When a separator is found, and what the parts are.
use mathlib.Core.Option
use xlistman.Prelude.{
  ℕ, ◌≡◌, ◌≢◌, refl, ap, true, false, Option, none, some, [], append-nil, ◌∷◌, ◌++◌, length,
  length-append, arith, if◌then◌else◌,
}
use xlistman.Strings.Defs.{Text, text_eq, is_empty, strip_prefix, strip_suffix, cut, cut_last}

pub text_eq_refl : (s : Text) → text_eq s s ≡ true
unfolding text_eq
text_eq_refl [] = refl
text_eq_refl (c ∷ s) = ground (arith, text_eq_refl s)

pub text_eq_sound : (s t : Text) → text_eq s t ≡ true → s ≡ t
unfolding text_eq
text_eq_sound [] [] h = refl
text_eq_sound [] (b ∷ t) h = cc
text_eq_sound (a ∷ s) [] h = cc
text_eq_sound (a ∷ s) (b ∷ t) h = ground (arith, text_eq_sound s t)

pub text_eq_ne : (s t : Text) → s ≢ t → text_eq s t ≡ false
text_eq_ne s t h = ground (arith, text_eq_sound s t)

-- No byte of the text is `c`.
abbrev pub Lacks : ℕ → Text → Type 0
Lacks c [] = Unit
Lacks c (d ∷ s) = (c ≢ d) × Lacks c s

pub Lacks-append : (c : ℕ) (s t : Text) → Lacks c s → Lacks c t → Lacks c (s ++ t)
Lacks-append c [] t hs ht = ht
Lacks-append c (d ∷ s) t hs ht = (hs.0, Lacks-append c s t hs.1 ht)

pub strip_prefix-append : (p s : Text) → strip_prefix p (p ++ s) ≡ some s
unfolding strip_prefix
strip_prefix-append [] s = refl
strip_prefix-append (c ∷ p) s = ground (arith, strip_prefix-append p s)

pub cut_last-prepend :
    (p a s x y : Text) → cut_last p s ≡ some (x, y) → cut_last p (a ++ s) ≡ some (a ++ x, y)
unfolding cut_last
cut_last-prepend p [] s x y h = h
cut_last-prepend p (c ∷ a) s x y h = rw (cut_last-prepend p a s x y h, cut_last) refl

-- A separator that starts with `c` does not start inside a stretch with no `c`.
pub cut_last-Lacks :
    (c : ℕ) (p m s : Text)
    → Lacks c m
    → cut_last (c ∷ p) s ≡ none
    → cut_last (c ∷ p) (m ++ s) ≡ none
unfolding cut_last strip_prefix
cut_last-Lacks c p [] s hm h = h
cut_last-Lacks c p (d ∷ m) s hm h = ground (arith, cut_last-Lacks c p m s)

-- The last occurrence, of a separator whose first byte does not come again in it.
pub cut_last_at :
    (c : ℕ) (p a s : Text)
    → Lacks c p
    → cut_last (c ∷ p) s ≡ none
    → cut_last (c ∷ p) (a ++ ((c ∷ p) ++ s)) ≡ some (a, s)
unfolding cut_last strip_prefix
cut_last_at c p a s hp h =
    rw (cut_last-prepend (c ∷ p) a ((c ∷ p) ++ s) [] s found)
      (ap (λ (t : Text). some (t, s)) (append-nil a))
  where
    found : cut_last (c ∷ p) ((c ∷ p) ++ s) ≡ some ([], s)
    found = rw (cut_last-Lacks c p p s hp h, cut_last) (ground (arith, strip_prefix-append p s))

pub cut_last-byte : (c : ℕ) (s : Text) → Lacks c s → cut_last (c ∷ []) s ≡ none
unfolding cut_last strip_prefix
cut_last-byte c [] h = refl
cut_last-byte c (d ∷ s) h = ground (arith, cut_last-byte c s)

pub cut_at : (c : ℕ) (a s : Text) → Lacks c a → cut (c ∷ []) (a ++ c ∷ s) ≡ some (a, s)
unfolding cut strip_prefix
cut_at c [] s h = ground arith
cut_at c (d ∷ a) s h = ground (arith, cut_at c a s)

pub cut-none : (c : ℕ) (s : Text) → Lacks c s → cut (c ∷ []) s ≡ none
unfolding cut strip_prefix
cut-none c [] h = refl
cut-none c (d ∷ s) h = ground (arith, cut-none c s)

longer_ne : (p : Text) (c : ℕ) (a : Text) → text_eq p (c ∷ a ++ p) ≡ false
longer_ne p c a = text_eq_ne p _ λ e. omega (arith, ap length e, length-append {0} (c ∷ a) p)

pub strip_suffix_at : (p a : Text) → strip_suffix p (a ++ p) ≡ some a
unfolding strip_suffix
strip_suffix_at [] [] = refl
strip_suffix_at (d ∷ p) [] = rw text_eq_refl refl
strip_suffix_at p (c ∷ a) = rw (longer_ne p c a, strip_suffix) (rw (strip_suffix_at p a) refl)

suffix_step :
    (p : Text) (c : ℕ) (s a : Text) (o : Option Text)
    → ((b : Text) → o ≡ some b → s ≡ b ++ p)
    → (if text_eq p (c ∷ s) then some [] else Option.map (λ (t : Text). c ∷ t) o) ≡ some a
    → c ∷ s ≡ a ++ p
suffix_step p c s a none ih h = ground (arith, text_eq_sound p (c ∷ s))
suffix_step p c s a (some b) ih h = ground (arith, text_eq_sound p (c ∷ s), ih b refl)

pub strip_suffix_sound : (p s a : Text) → strip_suffix p s ≡ some a → s ≡ a ++ p
unfolding strip_suffix
strip_suffix_sound p [] a h = ground (arith, text_eq_sound p [])
strip_suffix_sound p (c ∷ s) a h = suffix_step p c s a (strip_suffix p s) (strip_suffix_sound p s) h

pub is_empty-append : (s t : Text) → is_empty s ≡ false → is_empty (s ++ t) ≡ false
unfolding is_empty
is_empty-append [] t h = cc
is_empty-append (c ∷ s) t h = refl
