-- ===== src/Transfer/Dest.antt =====
-- Equality of destinations.
use blt.Base.{◌≡◌, refl, ap, ◌∙◌, true, [], ◌∷◌, &&_iff}
use blt.Base.Text.{=t_iff, =t_self}
use blt.Transfer.{Dest, same_dest}

pub same_dest_self : (d : Dest) → same_dest d d ≡ true
same_dest_self [] = refl
same_dest_self (c ∷ cs) = rw (=t_self c, same_dest_self cs)

pub same_dest-eq : (a b : Dest) → same_dest a b ≡ true → a ≡ b
same_dest-eq [] [] h = refl
same_dest-eq [] (d ∷ ds) h = absurd (cc)
same_dest-eq (c ∷ cs) [] h = absurd (cc)
same_dest-eq (c ∷ cs) (d ∷ ds) h =
    let (p, q) = (&&_iff _ _).0 h in
    let head : c ≡ d = (=t_iff c d).0 p in ap (λ x. x ∷ cs) head ∙ ap (◌∷◌ d) (same_dest-eq cs ds q)
