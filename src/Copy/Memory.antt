-- ===== src/Copy/Memory.antt =====
-- Memory as a list of cells: a slice, a map or a pointer is the address of one, or nil. What a
-- cell holds is a parameter. A copy allocates at the end.
use xenonite.Base.{
  ℕ, zero, suc, ◌<◌, ◌≡◌, refl, Option, none, some, List, [], ◌∷◌, ◌++◌, length, arith,
}

module _ {Cell : Type 0} where
  -- The cell at an address.
  unfoldable pub at : List Cell → ℕ → Option Cell
  at [] i = none
  at (c ∷ h) zero = some c
  at (c ∷ h) (suc i) = at h i

  pub at-append : (h ks : List Cell) (i : ℕ) (c : Cell) → at h i ≡ some c → at (h ++ ks) i ≡ some c
  unfolding at
  at-append [] ks i c e = cc
  at-append (d ∷ h) ks zero c e = e
  at-append (d ∷ h) ks (suc i) c e = at-append h ks i c e

  pub at_before : (h ks : List Cell) (i : ℕ) → i < length h → at (h ++ ks) i ≡ at h i
  unfolding at
  at_before [] ks i l = absurd (omega (arith, l))
  at_before (d ∷ h) ks zero l = refl
  at_before (d ∷ h) ks (suc i) l = at_before h ks i (omega (arith, l))

  pub at_end : (h : List Cell) (c : Cell) → at (h ++ c ∷ []) (length h) ≡ some c
  unfolding at
  at_end [] c = refl
  at_end (d ∷ h) c = at_end h c

-- An address, or nil.
abbrev pub Ref : Type 0
Ref = Option ℕ

-- What copies: it returns a value and the memory after it.
abbrev pub Copy : Type 0 → Type 0 → Type 0
Copy Cell A = List Cell → A × List Cell

module _ {Cell A : Type 0} where
  abbrev pub return : A → Copy Cell A
  return a h = (a, h)

module _ {Cell A B : Type 0} where
  infixl 5 ◌>>=◌
  abbrev pub ◌>>=◌ : Copy Cell A → (A → Copy Cell B) → Copy Cell B
  ◌>>=◌ m f h = let (a, h') = m h in f a h'
