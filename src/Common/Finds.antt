-- ===== src/Common/Finds.antt =====
-- Rows found by a test, before and after an update.
use mathlib.Core.Path.{◌≡◌, refl}
use mathlib.Core.Logic.{inl, inr}
use mathlib.Core.Bool.{Bool, true, ◌&&◌}
use mathlib.Core.Option
use mathlib.Core.Option.{Option, none, some}
use mathlib.Core.List.{List, [], ◌∷◌, ◌++◌}
use native.Mathlib.Omega.{arith}
use ludora.Common.Tests.{if◌then◌else◌, Bool-cases}
use ludora.Common.Lists.{find, update_where}

module _ {ℓ} {A : Type ℓ} where
  pub find-true : (p : A → Bool) (xs : List A) (a : A) → find p xs ≡ some a → p a ≡ true
  find-true p [] a h = cc
  find-true p (x ∷ xs) a h = elim (Bool-cases (p x)) [
    | inl e ↦ let q : some x ≡ some a = rw e at h in ground (arith, e, q)
    | inr e ↦ find-true p xs a (rw e at h)
  ]

  -- A row that is found passes the stronger test where it passes the rest.
  pub find-and :
      (p q : A → Bool) (xs : List A) (a : A)
      → find p xs ≡ some a
      → q a ≡ true
      → find (λ x. p x && q x) xs ≡ some a
  find-and p q [] a h e = h
  find-and p q (x ∷ xs) a h e = elim (Bool-cases (p x)) [
    | inl t ↦ let same : some x ≡ some a = rw t at h in ground (arith, t, same, e)
    | inr f ↦ rw f (find-and p q xs a (rw f at h) e)
  ]

  -- An update that leaves a test alone is made to the row that the test finds.
  pub find-update_where :
      (q p : A → Bool) (f : A → A) (xs : List A)
      → ((a : A) → q (f a) ≡ q a)
      → find q (update_where p f xs) ≡ Option.map (λ a. if p a then f a else a) (find q xs)
  find-update_where q p f [] h = refl
  find-update_where q p f (x ∷ xs) h = ground (arith, h x, find-update_where q p f xs h)

  -- A row that is found stays the first one when rows are added behind.
  pub find-append :
      (p : A → Bool) (xs ys : List A) (a : A) → find p xs ≡ some a → find p (xs ++ ys) ≡ some a
  find-append p [] ys a h = cc
  find-append p (x ∷ xs) ys a h = ground (arith, find-append p xs ys a)
