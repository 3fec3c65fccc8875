-- ===== src/Base/Lists.antt =====
-- Lists over the native numbers, and the predicates that statements use.
use Prim.Native.Nat.{ℕ, suc, ◌+◌}
use mathlib.Core.Path.{◌≡◌}
use mathlib.Core.Bool.{Bool, true, false, ◌||◌}
use mathlib.Core.Logic.{◌↔◌, ◌⊎◌, inl, inr}
use xenonite.Base.Tests.{Bool-cases}
use mathlib.Core.List.{List, [], ◌∷◌, ◌++◌}
use native.Mathlib.Omega.{arith}

module _ {ℓ} {A : Type ℓ} where
  abbrev pub length : List A → ℕ
  length [] = 0
  length (_ ∷ xs) = suc (length xs)

  pub length-append : (xs ys : List A) → length (xs ++ ys) ≡ length xs + length ys
  length-append [] ys = omega arith
  length-append (x ∷ xs) ys = omega (arith, length-append xs ys)

  -- Whether some element passes the test: Go's loop with an early `return true`.
  abbrev pub any : (A → Bool) → List A → Bool
  any p [] = false
  any p (x ∷ xs) = p x || any p xs

module _ {ℓ κ} {A : Type ℓ} (P : A → Type κ) where
  abbrev pub All : List A → Type κ
  All [] = Unit
  All (x ∷ xs) = P x × All xs

  pub All-append : (xs ys : List A) → All xs → All ys → All (xs ++ ys)
  All-append [] ys _ hy = hy
  All-append (x ∷ xs) ys (px, hx) hy = (px, All-append xs ys hx hy)

-- Some element satisfies the predicate.
abbrev pub Any {ℓ} : {A : Type ℓ} → (A → Type 0) → List A → Type 0
Any P [] = ⊥
Any P (x ∷ xs) = P x ⊎ Any P xs

module _ {ℓ} {A : Type ℓ} (P : A → Type 0) where
  pub Any-append : (xs ys : List A) → Any P (xs ++ ys) → Any P xs ⊎ Any P ys
  Any-append [] ys h = inr h
  Any-append (x ∷ xs) ys (inl px) = inl (inl px)
  Any-append (x ∷ xs) ys (inr h) = elim (Any-append xs ys h) [ inl a ↦ inl (inr a) | inr b ↦ inr b ]

  pub Any-left : (xs ys : List A) → Any P xs → Any P (xs ++ ys)
  Any-left (x ∷ xs) ys (inl px) = inl px
  Any-left (x ∷ xs) ys (inr h) = inr (Any-left xs ys h)
  Any-left [] ys h = absurd h

  pub Any-right : (xs ys : List A) → Any P ys → Any P (xs ++ ys)
  Any-right [] ys h = h
  Any-right (x ∷ xs) ys h = inr (Any-right xs ys h)

-- `any` decides `Any` where the test decides the predicate.
pub any_iff {ℓ} :
    {A : Type ℓ} (p : A → Bool) (P : A → Type 0) (xs : List A)
    → ((x : A) → (p x ≡ true) ↔ P x)
    → (any p xs ≡ true) ↔ Any P xs
any_iff p P [] h = (λ e. cc, λ a. absurd a)
any_iff p P (x ∷ xs) h = elim (Bool-cases (p x)) [
  | inl t ↦ (λ e. inl ((h x).0 t), λ a. rw t)
  | inr f ↦ (
    λ e. inr ((any_iff p P xs h).0 (rw f at e)),
    λ a.
        rw f
          (elim a [ inl px ↦ (let t = (h x).1 px in cc) | inr rest ↦ (any_iff p P xs h).1 rest ]),
  )
]
