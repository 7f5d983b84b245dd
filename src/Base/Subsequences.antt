-- ===== src/Base/Subsequences.antt =====
-- Scattered subsequences.
use mathlib.Core.List.{List, [], ◌∷◌}
use mathlib.Core.Logic.{◌≢◌}
use mathlib.Core.Path.{refl}

pub data Subseq {ℓ} {A : Type ℓ} : List A → List A → Type ℓ where
  nil : {ys : List A} → Subseq [] ys
  keep : {x : A} {xs ys : List A} → Subseq xs ys → Subseq (x ∷ xs) (x ∷ ys)
  skip : {y : A} {xs ys : List A} → Subseq xs ys → Subseq xs (y ∷ ys)

pub Subseq-uncons {ℓ} : {A : Type ℓ} {x : A} {xs ys : List A} → Subseq (x ∷ xs) ys → Subseq xs ys
Subseq-uncons (keep h) = skip h
Subseq-uncons (skip h) = skip (Subseq-uncons h)

-- The head of the longer list may serve for an equal head of the shorter.
pub Subseq-tails {ℓ} :
    {A : Type ℓ} {x y : A} {xs ys : List A} → Subseq (x ∷ xs) (y ∷ ys) → Subseq xs ys
Subseq-tails (keep h) = h
Subseq-tails (skip h) = Subseq-uncons h

-- Other heads are passed over.
pub Subseq-ne {ℓ} :
    {A : Type ℓ} {x y : A} {xs ys : List A} → Subseq (x ∷ xs) (y ∷ ys) → x ≢ y → Subseq (x ∷ xs) ys
Subseq-ne (keep h) n = absurd (n refl)
Subseq-ne (skip h) n = h

pub not-Subseq-nil {ℓ} : {A : Type ℓ} {x : A} {xs : List A} → ¬ Subseq (x ∷ xs) []
not-Subseq-nil h = elim h [ ]
