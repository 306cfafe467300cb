-- ===== src/Base/Order/Text.antt =====
-- Texts by their code points: the default order of Array.prototype.sort, for texts of the basic plane.
use Prim.Native.Nat.{compare, lt, eq, gt}
use content_automation.Base.{ℕ, String, false, List, [], ◌∷◌, ◌≡◌, refl, arith}
use text.Mathlib.TextEquality.{Char-path}
use content_automation.Base.Text.{codes}
use content_automation.Base.Order.{Comparator, is_gt, reverse, ◌then_by◌}
use content_automation.Base.Order.Laws.{Ordered}

unfoldable pub compare_codes : Comparator (List ℕ)
compare_codes [] [] = eq
compare_codes [] (d ∷ ds) = lt
compare_codes (c ∷ cs) [] = gt
compare_codes (c ∷ cs) (d ∷ ds) = compare c d then_by compare_codes cs ds

abbrev pub compare_texts : Comparator String
compare_texts s t = compare_codes (codes s) (codes t)

pub codes_flip : (cs ds : List ℕ) → compare_codes ds cs ≡ reverse (compare_codes cs ds)
unfolding compare_codes
codes_flip [] [] = refl
codes_flip [] (d ∷ ds) = refl
codes_flip (c ∷ cs) [] = refl
codes_flip (c ∷ cs) (d ∷ ds) = ground (arith, codes_flip cs ds)

pub codes_trans :
    (bs cs ds : List ℕ)
    → is_gt (compare_codes bs cs) ≡ false
    → is_gt (compare_codes cs ds) ≡ false
    → is_gt (compare_codes bs ds) ≡ false
unfolding compare_codes
codes_trans [] cs [] h k = refl
codes_trans [] cs (d ∷ ds) h k = refl
codes_trans (b ∷ bs) [] ds h k = ground arith
codes_trans (b ∷ bs) (c ∷ cs) [] h k = ground arith
codes_trans (b ∷ bs) (c ∷ cs) (d ∷ ds) h k = ground (arith, codes_trans bs cs ds)

pub codes_exact : (cs ds : List ℕ) → compare_codes cs ds ≡ eq → cs ≡ ds
unfolding compare_codes
codes_exact [] [] e = refl
codes_exact [] (d ∷ ds) e = ground arith
codes_exact (c ∷ cs) [] e = ground arith
codes_exact (c ∷ cs) (d ∷ ds) e = ground (arith, codes_exact cs ds)

pub compare_texts-Ordered : Ordered compare_texts
compare_texts-Ordered = record {
  flip = λ s t. codes_flip (codes s) (codes t);
  trans = λ s t u. codes_trans (codes s) (codes t) (codes u);
}

codes_inj : (s t : String) → codes s ≡ codes t → s ≡ t
codes_inj String.[] String.[] e = refl
codes_inj String.[] (String.◌∷◌ d t) e = absurd (ground arith)
codes_inj (String.◌∷◌ c s) String.[] e = absurd (ground arith)
codes_inj (String.◌∷◌ c s) (String.◌∷◌ d t) e =
    cc (Char-path c d (ground arith), codes_inj s t (ground arith))

pub compare_texts_exact : (s t : String) → compare_texts s t ≡ eq → s ≡ t
compare_texts_exact s t e = codes_inj s t (codes_exact (codes s) (codes t) e)
