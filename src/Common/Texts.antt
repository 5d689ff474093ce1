-- ===== src/Common/Texts.antt =====
-- Text as the list of its UTF-16 code units, with the string methods that the source calls.
use Prim.Native.Nat.{ℕ, ◌<◌}
use Prim.Native.Char.{code}
use Prim.Native.String.{String}
use mathlib.Core.Path.{◌≡◌, refl, ap, ◌∙◌}
use mathlib.Core.Logic.{◌↔◌, ◌≢◌}
use mathlib.Core.Bool.{Bool, true, false, ◌&&◌, ◌||◌}
use mathlib.Core.List.{List, [], ◌∷◌, ◌++◌}
use mathlib.Core.Option.{Option, none, some}
use native.Mathlib.Omega.{arith}
use olane.Common.Tests.{if◌then◌else◌, ◌==◌}
use olane.Common.Lists.{length}

abbrev pub Text : Type 0
Text = List ℕ

-- The code units of an ASCII literal.
abbrev pub codes : String → Text
codes String.[] = []
codes (String.◌∷◌ c s) = code c ∷ codes s

unfoldable pub text_eq : Text → Text → Bool
text_eq [] [] = true
text_eq [] (d ∷ t) = false
text_eq (c ∷ s) [] = false
text_eq (c ∷ s) (d ∷ t) = c == d && text_eq s t

pub text_eq_refl : (s : Text) → text_eq s s ≡ true
unfolding text_eq
text_eq_refl [] = refl
text_eq_refl (c ∷ s) = ground (arith, text_eq_refl s)

pub text_eq→eq : (s t : Text) → text_eq s t ≡ true → s ≡ t
unfolding text_eq
text_eq→eq [] [] h = refl
text_eq→eq [] (d ∷ t) h = absurd (cc)
text_eq→eq (c ∷ s) [] h = absurd (cc)
text_eq→eq (c ∷ s) (d ∷ t) h = ground (arith, text_eq→eq s t)

pub text_eq_iff : (s t : Text) → (text_eq s t ≡ true) ↔ (s ≡ t)
text_eq_iff s t = (text_eq→eq s t, λ e. rw e (text_eq_refl t))

pub text_eq-false : (s t : Text) → s ≢ t → text_eq s t ≡ false
text_eq-false s t h = ground (arith, text_eq→eq s t)

pub text_eq-length : (s t : Text) → length s ≢ length t → text_eq s t ≡ false
text_eq-length s t h = text_eq-false s t (λ e. h (ap length e))

-- `s.startsWith(p)` with the rest of `s` behind `p`.
unfoldable pub strip_prefix : Text → Text → Option Text
strip_prefix [] s = some s
strip_prefix (c ∷ p) [] = none
strip_prefix (c ∷ p) (d ∷ s) = if c == d then strip_prefix p s else none

pub strip_prefix-append : (p s : Text) → strip_prefix p (p ++ s) ≡ some s
unfolding strip_prefix
strip_prefix-append [] s = refl
strip_prefix-append (c ∷ p) s = ground (arith, strip_prefix-append p s)

unfoldable pub starts_with : Text → Text → Bool
starts_with p s = elim (strip_prefix p s) [ none ↦ false | some r ↦ true ]

pub starts_with-append : (p s : Text) → starts_with p (p ++ s) ≡ true
unfolding starts_with
starts_with-append p s = rw (strip_prefix-append p s, starts_with)

-- `s.includes(p)`, which is `s.indexOf(p) !== -1`.
unfoldable pub includes : Text → Text → Bool
includes p [] = starts_with p []
includes p (c ∷ s) = starts_with p (c ∷ s) || includes p s

-- `s.replace(p, r)` with a string `p`: the first occurrence only (no `r` of the source holds `$`).
unfoldable pub replace : Text → Text → Text → Text
replace p r [] = elim (strip_prefix p []) [ none ↦ [] | some rest ↦ r ++ rest ]
replace p r (c ∷ s) =
    let later = replace p r s in
    elim (strip_prefix p (c ∷ s)) [ none ↦ c ∷ later | some rest ↦ r ++ rest ]

pub replace_at_start :
    (p r s rest : Text) → strip_prefix p s ≡ some rest → replace p r s ≡ r ++ rest
unfolding replace
replace_at_start p r [] rest h = rw (h, replace)
replace_at_start p r (c ∷ s) rest h = rw (h, replace)

pub replace_skip :
    (p r s : Text) (c : ℕ) → strip_prefix p (c ∷ s) ≡ none → replace p r (c ∷ s) ≡ c ∷ replace p r s
unfolding replace
replace_skip p r s c h = rw (h, replace)

-- `s.split(sep)` with a separator of one code unit; never empty.
unfoldable pub cons_head : ℕ → List Text → List Text
cons_head c [] = (c ∷ []) ∷ []
cons_head c (p ∷ ps) = (c ∷ p) ∷ ps

unfoldable pub split : ℕ → Text → List Text
unfolding cons_head
split sep [] = [] ∷ []
split sep (c ∷ s) = let rest = split sep s in if c == sep then [] ∷ rest else cons_head c rest

unfoldable pub split_head : List Text → Text
split_head [] = []
split_head (p ∷ ps) = p

unfoldable pub split_last : List Text → Text
split_last [] = []
split_last (p ∷ []) = p
split_last (p ∷ q ∷ ps) = split_last (q ∷ ps)

-- The code unit does not occur in the text.
abbrev pub Lacks : ℕ → Text → Type 0
Lacks sep [] = Unit
Lacks sep (c ∷ s) = (c ≢ sep) × Lacks sep s

pub Lacks-append : (sep : ℕ) (s t : Text) → Lacks sep s → Lacks sep t → Lacks sep (s ++ t)
Lacks-append sep [] t h k = k
Lacks-append sep (c ∷ s) t (p, h) k = (p, Lacks-append sep s t h k)

-- The text is empty or begins with the code unit.
abbrev pub StopsAt : ℕ → Text → Type 0
StopsAt sep [] = Unit
StopsAt sep (c ∷ s) = c ≡ sep

pub split_head-split :
    (sep : ℕ) (s t : Text) → Lacks sep s → StopsAt sep t → split_head (split sep (s ++ t)) ≡ s
unfolding split split_head cons_head
split_head-split sep [] [] h k = refl
split_head-split sep [] (c ∷ t) h k = ground arith
split_head-split sep (c ∷ s) t (p, h) k = ground (arith, split_head-split sep s t h k)

-- Nothing is found of a text that is longer.
pub strip_prefix_short : (p s : Text) → length s < length p → strip_prefix p s ≡ none
unfolding strip_prefix
strip_prefix_short [] s h = absurd (omega arith)
strip_prefix_short (c ∷ p) [] h = refl
strip_prefix_short (c ∷ p) (d ∷ s) h = ground (arith, strip_prefix_short p s)

pub replace_short : (p r s : Text) → length s < length p → replace p r s ≡ s
unfolding replace
replace_short p r [] h = rw (replace, strip_prefix_short p [] h)
replace_short p r (c ∷ s) h =
    replace_skip p r s c (strip_prefix_short p (c ∷ s) h)
    ∙ ap (◌∷◌ c) (replace_short p r s (omega arith))
