-- ===== src/Common/All.antt =====
-- A predicate of every element of a list. Shared notation.
use mathlib.Core.List.{List, [], ◌∷◌, ◌++◌}

abbrev pub All {ℓ κ} : {A : Type ℓ} → (A → Type κ) → List A → Type κ
All P [] = Unit
All P (x ∷ xs) = P x × All P xs

pub All-append {ℓ κ} :
    {A : Type ℓ} (P : A → Type κ) (xs ys : List A) → All P xs → All P ys → All P (xs ++ ys)
All-append P [] ys h k = k
All-append P (x ∷ xs) ys h k = (h.0, All-append P xs ys h.1 k)

-- One element more, for lists that are written out.
infixr 2 ◌and◌
pub ◌and◌ {ℓ κ} : {P : Type ℓ} {Q : Type κ} → P → Q → P × Q
p and q = (p, q)
