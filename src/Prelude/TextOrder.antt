-- ===== src/Prelude/TextOrder.antt =====
-- Python's `<` on texts: by code points.
use Prim.Native.Char.{code}
use Prim.Native.String.{String}
use mathlib.Core.Path.{◌≡◌, refl, ap₂}
use mathlib.Core.Bool.{Bool, true, false, ◌&&◌, ◌||◌}
use native.Mathlib.Omega.{arith}
use text.Mathlib.TextEquality.{eq_iff, codes_equal}
use adus_be.Prelude.Tests.{ltb, ◌==◌}
use adus_be.Prelude.Text.{str_eq}
use adus_be.Prelude.StableSort.{IsStrictOrder}

unfoldable pub text_before : String → String → Bool
text_before String.[] String.[] = false
text_before String.[] (String.◌∷◌ d t) = true
text_before (String.◌∷◌ c s) String.[] = false
text_before (String.◌∷◌ c s) (String.◌∷◌ d t) =
    ltb (code c) (code d) || ((code c == code d) && text_before s t)

text_before-asym : (s t : String) → text_before s t ≡ true → text_before t s ≡ false
unfolding text_before
text_before-asym String.[] String.[] h = refl
text_before-asym String.[] (String.◌∷◌ d t) h = refl
text_before-asym (String.◌∷◌ c s) String.[] h = cc
text_before-asym (String.◌∷◌ c s) (String.◌∷◌ d t) h = ground (arith, text_before-asym s t)

text_before-not_trans :
    (s t u : String) → text_before s t ≡ false → text_before t u ≡ false → text_before s u ≡ false
unfolding text_before
text_before-not_trans String.[] String.[] u h k = k
text_before-not_trans String.[] (String.◌∷◌ d t) u h k = cc
text_before-not_trans (String.◌∷◌ c s) t String.[] h k = refl
text_before-not_trans (String.◌∷◌ c s) String.[] (String.◌∷◌ e u) h k = cc
text_before-not_trans (String.◌∷◌ c s) (String.◌∷◌ d t) (String.◌∷◌ e u) h k =
    ground (arith, text_before-not_trans s t u)

pub text_before-IsStrictOrder : IsStrictOrder text_before
text_before-IsStrictOrder = record { asym = text_before-asym; not_trans = text_before-not_trans }

same_text_of : (s t : String) → text_before s t ≡ false → text_before t s ≡ false → s ≡ t
unfolding text_before
same_text_of String.[] String.[] h k = refl
same_text_of String.[] (String.◌∷◌ d t) h k = cc
same_text_of (String.◌∷◌ c s) String.[] h k = cc
same_text_of (String.◌∷◌ c s) (String.◌∷◌ d t) h k =
    ap₂ (λ x y. String.◌∷◌ x y) (codes_equal c d (ground (arith, h, k)))
      (same_text_of s t (ground (arith, h, k)) (ground (arith, h, k)))

pub text_before_linear :
    (s t : String) → text_before s t ≡ false → text_before t s ≡ false → str_eq s t ≡ true
text_before_linear s t h k = (eq_iff s t).1 (same_text_of s t h k)
