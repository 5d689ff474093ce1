-- ===== src/Common/Lower.antt =====
-- `s.toLowerCase()`, as far as a comparison with ASCII text sees it: the letters A to Z, and the two
-- units beyond ASCII whose lower case has an ASCII letter (the Kelvin sign, and I with a dot above).
use Prim.Native.Nat.{ℕ, ◌+◌}
use mathlib.Core.Bool.{◌&&◌}
use mathlib.Core.List.{[], ◌∷◌, ◌++◌}
use olane.Common.Tests.{if◌then◌else◌, ◌==◌, leb}
use olane.Common.Texts.{Text}

abbrev pub lower_unit : ℕ → Text
lower_unit c =
    if leb 65 c && leb c 90
    then (c + 32) ∷ []
    else if c == 8490
    then 107 ∷ []
    else if c == 304
    then 105 ∷ 775 ∷ []
    else c ∷ []

unfoldable pub to_lower_case : Text → Text
to_lower_case [] = []
to_lower_case (c ∷ s) = lower_unit c ++ to_lower_case s
