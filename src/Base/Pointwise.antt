-- ===== src/Base/Pointwise.antt =====
-- Tables that relate row by row, and tables that have grown at the end.
use mathlib.Core.Path.{◌≡◌, refl}
use mathlib.Core.Logic.{◌≢◌, ◌⊎◌, inl, inr}
use mathlib.Core.Bool.{Bool, true}
use mathlib.Core.List.{List, [], ◌∷◌, ◌++◌}
use native.Mathlib.Omega.{arith}
use content_automation.Base.Tests.{Bool-cases}
use content_automation.Base.Rows.{update_many, count_where}

module _ {ℓ} {A : Type ℓ} (R : A → A → Type 0) where
  abbrev pub Pointwise : List A → List A → Type 0
  Pointwise [] [] = Unit
  Pointwise (r ∷ rs) (s ∷ ss) = R r s × Pointwise rs ss
  Pointwise _ _ = ⊥

  pub Pointwise-refl : ((r : A) → R r r) → (rs : List A) → Pointwise rs rs
  Pointwise-refl same [] = tt
  Pointwise-refl same (r ∷ rs) = (same r, Pointwise-refl same rs)

  pub Pointwise-update_many :
      (test : A → Bool) (change : A → A) (rs : List A)
      → ((r : A) → R r r)
      → ((r : A) → test r ≡ true → R r (change r))
      → Pointwise rs (update_many test change rs)
  unfolding update_many
  Pointwise-update_many test change [] same step = tt
  Pointwise-update_many test change (r ∷ rs) same step = elim (Bool-cases (test r)) [
    | inl t ↦ rw t (step r t, Pointwise-update_many test change rs same step)
    | inr t ↦ rw t (same r, Pointwise-update_many test change rs same step)
  ]

pub Pointwise-trans {ℓ} :
    {A : Type ℓ} (R : A → A → Type 0)
    → ((r s t : A) → R r s → R s t → R r t)
    → (rs ss ts : List A) → Pointwise R rs ss
    → Pointwise R ss ts
    → Pointwise R rs ts
Pointwise-trans R step [] [] ts h k = k
Pointwise-trans R step [] (s ∷ ss) ts h k = elim h [ ]
Pointwise-trans R step (r ∷ rs) [] ts h k = elim h [ ]
Pointwise-trans R step (r ∷ rs) (s ∷ ss) [] h k = elim k [ ]
Pointwise-trans R step (r ∷ rs) (s ∷ ss) (t ∷ ts) h k =
    (step r s t h.0 k.0, Pointwise-trans R step rs ss ts h.1 k.1)

pub Pointwise-map {ℓ} :
    {A : Type ℓ} (R S : A → A → Type 0) (rs ss : List A)
    → ((r s : A) → R r s → S r s)
    → Pointwise R rs ss
    → Pointwise S rs ss
Pointwise-map R S [] [] f h = tt
Pointwise-map R S [] (s ∷ ss) f h = elim h [ ]
Pointwise-map R S (r ∷ rs) [] f h = elim h [ ]
Pointwise-map R S (r ∷ rs) (s ∷ ss) f h = (f r s h.0, Pointwise-map R S rs ss f h.1)

-- Row by row, and rows may have been added behind.
module _ {ℓ} {A : Type ℓ} (R : A → A → Type 0) where
  abbrev pub Extends : List A → List A → Type 0
  Extends [] ss = Unit
  Extends (r ∷ rs) [] = ⊥
  Extends (r ∷ rs) (s ∷ ss) = R r s × Extends rs ss

  pub Extends-Pointwise : (rs ss : List A) → Pointwise R rs ss → Extends rs ss
  Extends-Pointwise [] ss h = tt
  Extends-Pointwise (r ∷ rs) [] h = elim h [ ]
  Extends-Pointwise (r ∷ rs) (s ∷ ss) h = (h.0, Extends-Pointwise rs ss h.1)

  pub Extends-refl : ((r : A) → R r r) → (rs : List A) → Extends rs rs
  Extends-refl same [] = tt
  Extends-refl same (r ∷ rs) = (same r, Extends-refl same rs)

  pub Extends-append : ((r : A) → R r r) → (rs ss : List A) → Extends rs (rs ++ ss)
  Extends-append same [] ss = tt
  Extends-append same (r ∷ rs) ss = (same r, Extends-append same rs ss)

pub Extends-trans {ℓ} :
    {A : Type ℓ} (R S T : A → A → Type 0)
    → ((r s t : A) → R r s → S s t → T r t)
    → (rs ss ts : List A) → Extends R rs ss
    → Extends S ss ts
    → Extends T rs ts
Extends-trans R S T step [] ss ts h k = tt
Extends-trans R S T step (r ∷ rs) [] ts h k = elim h [ ]
Extends-trans R S T step (r ∷ rs) (s ∷ ss) [] h k = elim k [ ]
Extends-trans R S T step (r ∷ rs) (s ∷ ss) (t ∷ ts) h k =
    (step r s t h.0 k.0, Extends-trans R S T step rs ss ts h.1 k.1)

pub Extends-map {ℓ} :
    {A : Type ℓ} (R S : A → A → Type 0)
    → ((r s : A) → R r s → S r s)
    → (rs ss : List A) → Extends R rs ss
    → Extends S rs ss
Extends-map R S f [] ss h = tt
Extends-map R S f (r ∷ rs) [] h = elim h [ ]
Extends-map R S f (r ∷ rs) (s ∷ ss) h = (f r s h.0, Extends-map R S f rs ss h.1)

-- Some row.
module _ {ℓ} {A : Type ℓ} (P : A → Type 0) where
  abbrev pub Any : List A → Type 0
  Any [] = ⊥
  Any (r ∷ rs) = P r ⊎ Any rs

  pub Any-update_many :
      (test : A → Bool) (change : A → A) (rs : List A)
      → ((r : A) → test r ≡ true → P (change r))
      → count_where test rs ≢ 0
      → Any (update_many test change rs)
  unfolding update_many count_where
  Any-update_many test change [] f h = absurd (h refl)
  Any-update_many test change (r ∷ rs) f h = elim (Bool-cases (test r)) [
    | inl t ↦ rw t (inl (f r t))
    | inr t ↦ inr (Any-update_many test change rs f (λ e. h (ground arith)))
  ]

  pub Any-count :
      (test : A → Bool) (rs : List A)
      → ((r : A) → test r ≡ true → P r)
      → count_where test rs ≢ 0
      → Any rs
  unfolding count_where
  Any-count test [] f h = absurd (h refl)
  Any-count test (r ∷ rs) f h = elim (Bool-cases (test r)) [
    | inl t ↦ inl (f r t)
    | inr t ↦ inr (Any-count test rs f (λ e. h (ground arith)))
  ]

  pub Any-Extends :
      (R : A → A → Type 0) (rs ss : List A)
      → ((r s : A) → R r s → P r → P s)
      → Extends R rs ss
      → Any rs
      → Any ss
  Any-Extends R [] ss f e h = elim h [ ]
  Any-Extends R (r ∷ rs) [] f e h = elim e [ ]
  Any-Extends R (r ∷ rs) (s ∷ ss) f e (inl p) = inl (f r s e.0 p)
  Any-Extends R (r ∷ rs) (s ∷ ss) f e (inr h) = inr (Any-Extends R rs ss f e.1 h)
