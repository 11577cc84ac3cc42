-- ===== src/Util/Text/Prefix.antt =====
-- `strcomp` tests for a prefix.
use micron.Base.{ℕ, ◌≡◌, ◌↔◌, refl, arith, ap, ap₂, ◌∙◌, List, [], ◌∷◌, ◌++◌, true}
use micron.Util.Text.{strcomp}

abbrev pub IsPrefix : List ℕ → List ℕ → Type 0
IsPrefix lhs rhs = (rest : List ℕ) × (rhs ≡ lhs ++ rest)

strcomp-append : (lhs rest : List ℕ) → strcomp lhs (lhs ++ rest) ≡ true
unfolding strcomp
strcomp-append [] rest = refl
strcomp-append (c ∷ lhs) rest = ground (arith, strcomp-append lhs rest)

strcomp-IsPrefix : (lhs rhs : List ℕ) → strcomp lhs rhs ≡ true → IsPrefix lhs rhs
unfolding strcomp
strcomp-IsPrefix [] rhs e = (rhs, refl)
strcomp-IsPrefix (c ∷ lhs) [] e = ground arith
strcomp-IsPrefix (c ∷ lhs) (d ∷ rhs) e = add_head (strcomp-IsPrefix lhs rhs (ground arith))
  where
    same : d ≡ c
    same = ground arith

    add_head : IsPrefix lhs rhs → IsPrefix (c ∷ lhs) (d ∷ rhs)
    add_head (rest, eq) = (rest, ap₂ (λ x xs. x ∷ xs) same eq)

-- `strcomp` answers true on the strings that begin with the left string, and on no others: strings
-- that are equal as far as the left one goes count as equal.
strcomp_iff : (lhs rhs : List ℕ) → (strcomp lhs rhs ≡ true) ↔ IsPrefix lhs rhs
strcomp_iff lhs rhs = (strcomp-IsPrefix lhs rhs, λ p. ap (strcomp lhs) p.1 ∙ strcomp-append lhs p.0)
