-- ===== src/Copy/Items.antt =====
-- Slices whose elements have references of their own.
use xenonite.Base.{
  ℕ, ◌≤◌, ◌+◌, ◌≡◌, sym, ap, subst, ◌∙◌, append_assoc, append-nil, Option, none, some, Option-cases,
  inl, inr, List, [], ◌∷◌, ◌++◌, length, arith,
}
use xenonite.Copy.Memory.{at, at-append, at_before, at_end, Ref, Copy, return, ◌>>=◌}
use xenonite.Copy.Deep.{
  map_option, both, both-some, seen, length-append, IsCopied, IsDeep, then-IsCopied, mapped,
}

module _ {Cell A V : Type 0} (view : List Cell → A → Option V) where
  abbrev cons : V × List V → List V
  cons (v, vs) = v ∷ vs

  abbrev pub view_all : List Cell → List A → Option (List V)
  view_all h [] = some []
  view_all h (a ∷ xs) = map_option cons (both (view h a) (view_all h xs))

module _ {Cell A : Type 0} (copy : A → Copy Cell A) where
  -- for i := range *in { (*in)[i].DeepCopyInto(&(*out)[i]) }
  unfoldable pub copy_all : List A → Copy Cell (List A)
  copy_all [] = return []
  copy_all (a ∷ xs) = do a' ← copy a; xs' ← copy_all xs; return (a' ∷ xs')

module _ {Cell A V : Type 0} (view : List Cell → A → Option V) (copy : A → Copy Cell A)
    (deep : IsDeep view copy) where
  all-local :
      (h ks : List Cell) (xs : List A) (vs : List V)
      → view_all view h xs ≡ some vs
      → view_all view (h ++ ks) xs ≡ some vs
  all-local h ks [] vs e = e
  all-local h ks (a ∷ xs) vs e =
      let (x, is, here) = mapped (cons view) (both (view h a) (view_all view h xs)) vs e in
      let (ea, eas) = both-some (view h a) (view_all view h xs) x is in
      rw (deep.local h ks a x.0 ea, all-local h ks xs x.1 eas) here

  all-copies :
      (h : List Cell) (xs : List A) (vs : List V)
      → view_all view h xs ≡ some vs
      → IsCopied (view_all view) h vs (copy_all copy xs h)
  unfolding copy_all
  all-copies h [] vs e = record { more = []; grown = sym (append-nil h); stays = λ g k. e }
  all-copies h (a ∷ xs) vs e =
      let (x, is, here) = mapped (cons view) (both (view h a) (view_all view h xs)) vs e in
      let (ea, eas) = both-some (view h a) (view_all view h xs) x is in
      let ka = deep.copies h a x.0 ea in
      let kas = all-copies (copy a h).1 xs x.1 (
        subst (λ h1. view_all view h1 xs ≡ some x.1) (sym ka.grown)
          (all-local h ka.more xs x.1 eas)) in
      let k = then-IsCopied view (view_all view) copy (copy_all copy) h a xs x.0 x.1 ka kas in
      record {
        more = k.more;
        grown = k.grown;
        stays = λ g kg. ap (map_option (cons view)) (k.stays g kg) ∙ here;
      }

module _ {Cell A V : Type 0} (view : List Cell → A → Option V) (get : Cell → Option (List A)) where
  abbrev viewed : List Cell → Option (List A) → Option (Option (List V))
  viewed h none = none
  viewed h (some xs) = map_option some (view_all view h xs)

  abbrev pub view_items : List Cell → Ref → Option (Option (List V))
  view_items h none = some none
  view_items h (some i) = viewed h (seen get (at h i))

module _ {Cell A : Type 0} (copy : A → Copy Cell A) (get : Cell → Option (List A))
    (put : List A → Cell) where
  abbrev items_of : ℕ → Option (List A) → Copy Cell Ref
  items_of i none h = (some i, h)
  items_of i (some xs) h =
      let (xs', h') = copy_all copy xs h in (some (length h'), h' ++ put xs' ∷ [])

  -- if in.F != nil { *out = make(…, len(*in)); for i := range *in { … } }
  -- The new slice comes after what its elements refer to.
  unfoldable pub copy_items : Ref → Copy Cell Ref
  copy_items none h = (none, h)
  copy_items (some i) h = items_of i (seen get (at h i)) h

module _ {Cell A V : Type 0} (view : List Cell → A → Option V) (copy : A → Copy Cell A)
    (get : Cell → Option (List A)) (put : List A → Cell) (deep : IsDeep view copy)
    (law : (xs : List A) → get (put xs) ≡ some xs) where
  items-local :
      (h ks : List Cell) (a : Ref) (v : Option (List V))
      → view_items view get h a ≡ some v
      → view_items view get (h ++ ks) a ≡ some v
  items-local h ks none v e = e
  items-local h ks (some i) v e = elim (Option-cases (at h i)) [
    | inl gone ↦ (let e' = rw gone at e in cc)
    | inr (c, here) ↦ rw (at-append h ks i c here) (found (get c) (rw here at e))
  ]
    where
      found :
          (o : Option (List A))
          → viewed view get h o ≡ some v
          → viewed view get (h ++ ks) o ≡ some v
      found none e = cc
      found (some xs) e =
          let (vs, is, here) = mapped some (view_all view h xs) v e in
          rw (all-local view copy deep h ks xs vs is) here

  items_of-IsCopied :
      (h : List Cell) (i : ℕ) (o : Option (List A)) (v : Option (List V))
      → viewed view get h o ≡ some v
      → IsCopied (view_items view get) h v (items_of copy get put i o h)
  items_of-IsCopied h i none v e = cc
  items_of-IsCopied h i (some xs) v e =
      let (vs, is, here) = mapped some (view_all view h xs) v e in
      let k = all-copies view copy deep h xs vs is in
      let h' = (copy_all copy xs h).1 in
      let xs' = (copy_all copy xs h).0 in
      let grows : length h ≤ length h' = rw k.grown (omega (arith, length-append h k.more)) in
      let longer : length (h' ++ put xs' ∷ []) ≡ length h' + 1 = length-append h' (put xs' ∷ []) in
      record {
        more = k.more ++ put xs' ∷ [];
        grown = ap (λ m. m ++ put xs' ∷ []) k.grown ∙ append_assoc h k.more (put xs' ∷ []);
        stays = λ g kg.
            let kept : at g (length h') ≡ some (put xs') =
              kg (length h') grows (omega (arith, longer)) ∙ at_end h' (put xs') in
            let inner =
              k.stays g
                (λ j l u. kg j l (omega (arith, u, longer)) ∙ at_before h' (put xs' ∷ []) j u) in
            rw (kept, law xs', inner) here;
      }

  items-copies :
      (h : List Cell) (a : Ref) (v : Option (List V))
      → view_items view get h a ≡ some v
      → IsCopied (view_items view get) h v (copy_items copy get put a h)
  unfolding copy_items
  items-copies h none v e = record { more = []; grown = sym (append-nil h); stays = λ g k. e }
  items-copies h (some i) v e = items_of-IsCopied h i (seen get (at h i)) v e

  pub items-IsDeep : IsDeep (view_items view get) (copy_items copy get put)
  items-IsDeep = record { local = items-local; copies = items-copies }

module _ {Cell A : Type 0} where
  -- DeepCopy, by DeepCopyInto: nil of nil, and else a copy into a new struct.
  unfoldable pub deep_copy : (A → Copy Cell A) → Option A → Copy Cell (Option A)
  deep_copy into none = return none
  deep_copy into (some a) = do out ← into a; return (some out)

module _ {Cell A V : Type 0} (view : List Cell → A → Option V) where
  abbrev pub view_pointer : List Cell → Option A → Option (Option V)
  view_pointer h none = some none
  view_pointer h (some a) = map_option some (view h a)

  module _ (into : A → Copy Cell A) (deep : IsDeep view into) where
    pointer-local :
        (h ks : List Cell) (o : Option A) (v : Option V)
        → view_pointer h o ≡ some v
        → view_pointer (h ++ ks) o ≡ some v
    pointer-local h ks none v e = e
    pointer-local h ks (some a) v e =
        let (w, is, here) = mapped some (view h a) v e in rw (deep.local h ks a w is) here

    pointer-copies :
        (h : List Cell) (o : Option A) (v : Option V)
        → view_pointer h o ≡ some v
        → IsCopied view_pointer h v (deep_copy into o h)
    unfolding deep_copy
    pointer-copies h none v e = record { more = []; grown = sym (append-nil h); stays = λ g k. e }
    pointer-copies h (some a) v e =
        let (w, is, here) = mapped some (view h a) v e in
        let k = deep.copies h a w is in
        record { more = k.more; grown = k.grown; stays = λ g kg. rw (k.stays g kg) here }

    pub deep_copy-IsDeep : IsDeep view_pointer (deep_copy into)
    deep_copy-IsDeep = record { local = pointer-local; copies = pointer-copies }
