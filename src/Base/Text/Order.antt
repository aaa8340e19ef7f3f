-- ===== src/Base/Text/Order.antt =====
-- The order of texts by code points, which for UTF-8 is the order of their bytes.
use mathlib.Core.Path.{◌≡◌}
use mathlib.Core.Bool.{Bool, true, false}
use mathlib.Core.List.{[], ◌∷◌}
use native.Mathlib.Omega.{arith}
use alloyfs.Base.Tests.{◌==◌, ltb, if◌then◌else◌}
use alloyfs.Base.Text.{Text}

abbrev pub text_ltb : Text → Text → Bool
text_ltb [] [] = false
text_ltb [] (b ∷ t) = true
text_ltb (a ∷ s) [] = false
text_ltb (a ∷ s) (b ∷ t) = let rest = text_ltb s t in if a == b then rest else ltb a b

pub text_ltb_trans :
    (r s t : Text) → text_ltb r s ≡ true → text_ltb s t ≡ true → text_ltb r t ≡ true
text_ltb_trans [] [] t h k = ground arith
text_ltb_trans [] (b ∷ s) [] h k = ground arith
text_ltb_trans [] (b ∷ s) (c ∷ t) h k = ground arith
text_ltb_trans (a ∷ r) [] t h k = ground arith
text_ltb_trans (a ∷ r) (b ∷ s) [] h k = ground arith
text_ltb_trans (a ∷ r) (b ∷ s) (c ∷ t) h k = ground (arith, text_ltb_trans r s t)

pub text_ltb_irrefl : (s : Text) → text_ltb s s ≡ false
text_ltb_irrefl [] = ground arith
text_ltb_irrefl (a ∷ s) = ground (arith, text_ltb_irrefl s)

-- Two texts of which neither is the smaller are one.
pub text_ltb_connex : (s t : Text) → text_ltb s t ≡ false → text_ltb t s ≡ false → s ≡ t
text_ltb_connex [] [] h k = ground arith
text_ltb_connex [] (b ∷ t) h k = ground arith
text_ltb_connex (a ∷ s) [] h k = ground arith
text_ltb_connex (a ∷ s) (b ∷ t) h k = ground (arith, text_ltb_connex s t)
