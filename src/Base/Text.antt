-- ===== src/Base/Text.antt =====
-- Texts and byte strings as lists of numbers, compared as Rust compares them: `str` equality, and the
-- lexicographic order, which for UTF-8 is that of the code points.
use Prim.Native.Char.{code}
use Prim.Native.String.{String}
use Prim.Native.Nat.{ℕ}
use mathlib.Core.Path.{◌≡◌, refl}
use mathlib.Core.Logic.{◌↔◌}
use mathlib.Core.Bool.{Bool, true, false, ◌&&◌}
use mathlib.Core.List.{List, [], ◌∷◌}
use native.Mathlib.Omega.{arith}
use blt.Base.Tests.{◌==◌, ltb, if◌then◌else◌}

-- The code points of a text.
abbrev pub Text : Type 0
Text = List ℕ

abbrev pub text : String → Text
text String.[] = []
text (String.◌∷◌ c s) = code c ∷ text s

infix 50 ◌=t◌
unfoldable pub ◌=t◌ : Text → Text → Bool
[] =t [] = true
[] =t (d ∷ ds) = false
(c ∷ cs) =t [] = false
(c ∷ cs) =t (d ∷ ds) = c == d && cs =t ds

pub =t_iff : (a b : Text) → ((a =t b) ≡ true) ↔ (a ≡ b)
unfolding ◌=t◌
=t_iff [] [] = (λ _. refl, λ _. refl)
=t_iff [] (d ∷ ds) = (λ h. cc, λ h. cc)
=t_iff (c ∷ cs) [] = (λ h. cc, λ h. cc)
=t_iff (c ∷ cs) (d ∷ ds) =
    (λ h. ground (arith, (=t_iff cs ds).0), λ h. ground (arith, (=t_iff cs ds).1))

pub =t_self : (a : Text) → (a =t a) ≡ true
=t_self a = (=t_iff a a).1 refl

-- `a <= b` on texts.
unfoldable pub text_le : Text → Text → Bool
text_le [] ds = true
text_le (c ∷ cs) [] = false
text_le (c ∷ cs) (d ∷ ds) =
    let rest = text_le cs ds in if ltb c d then true else if c == d then rest else false

pub text_le-total : (a b : Text) → text_le a b ≡ false → text_le b a ≡ true
unfolding text_le
text_le-total [] b h = cc
text_le-total (c ∷ cs) [] h = refl
text_le-total (c ∷ cs) (d ∷ ds) h = ground (arith, text_le-total cs ds)

pub text_le_trans : (a b c : Text) → text_le a b ≡ true → text_le b c ≡ true → text_le a c ≡ true
unfolding text_le
text_le_trans [] b c h k = refl
text_le_trans (x ∷ a) [] c h k = cc
text_le_trans (x ∷ a) (y ∷ b) [] h k = cc
text_le_trans (x ∷ a) (y ∷ b) (z ∷ c) h k = ground (arith, text_le_trans a b c)

pub text_le_antisymm : (a b : Text) → text_le a b ≡ true → text_le b a ≡ true → a ≡ b
unfolding text_le
text_le_antisymm [] [] h k = refl
text_le_antisymm [] (y ∷ b) h k = cc
text_le_antisymm (x ∷ a) [] h k = cc
text_le_antisymm (x ∷ a) (y ∷ b) h k = ground (arith, text_le_antisymm a b)
