-- ===== src/Copy/Deep.antt =====
-- When a copy is deep: it reads as the original did, and goes on to do so whatever is written to
-- the memory from before; and the original is left alone.
use xenonite.Base.{
  ◌+◌, ℕ, ◌≤◌, ◌<◌, ◌≡◌, refl, sym, ap, subst, ◌∙◌, append_assoc, append-nil, Option, none, some,
  Option-cases, inl, inr, List, [], ◌∷◌, ◌++◌, length, arith,
}
use xenonite.Copy.Memory.{at, at-append, at_before, at_end, Ref, Copy, return, ◌>>=◌}

abbrev pub map_option : {A B : Type 0} → (A → B) → Option A → Option B
map_option f none = none
map_option f (some a) = some (f a)

abbrev pub both : {A B : Type 0} → Option A → Option B → Option (A × B)
both (some a) (some b) = some (a, b)
both _ _ = none

pub length-append : {A : Type 0} (xs ys : List A) → length (xs ++ ys) ≡ length xs + length ys
length-append [] ys = omega arith
length-append (x ∷ xs) ys = omega (arith, length-append xs ys)

module _ {Cell : Type 0} where
  -- The cells that were allocated between `h` and `h'` are in `g` as they are in `h'`.
  abbrev pub Keeps : List Cell → List Cell → List Cell → Type 0
  Keeps h h' g = (i : ℕ) → length h ≤ i → i < length h' → at g i ≡ at h' i

  module _ {A V : Type 0} where
    -- A copy of what read as `v` in the memory `h`.
    pub record IsCopied (view : List Cell → A → Option V) (h : List Cell) (v : V)
        (r : A × List Cell) : Type 0 where
      pub more : List Cell
      pub grown : r.1 ≡ h ++ more
      pub stays : (g : List Cell) → Keeps h r.1 g → view g r.0 ≡ some v

    pub record IsDeep (view : List Cell → A → Option V) (copy : A → Copy Cell A) : Type 0 where
      -- What is allocated later does not matter.
      pub local : (h ks : List Cell) (a : A) (v : V) → view h a ≡ some v → view (h ++ ks) a ≡ some v
      pub copies :
          (h : List Cell) (a : A) (v : V) → view h a ≡ some v → IsCopied view h v (copy a h)

  -- A value without references.
  pub plain-IsDeep :
      {A : Type 0} (copy : A → A)
      → ((a : A) → copy a ≡ a)
      → IsDeep {V = A} (λ h a. some a) (λ a. return (copy a))
  plain-IsDeep copy same = record {
    local = λ h ks a v e. e;
    copies = λ h a v e. record {
      more = [];
      grown = sym (append-nil h);
      stays = λ g k. ap some (same a) ∙ e;
    };
  }

  module _ {E : Type 0} (get : Cell → Option E) where
    abbrev pub seen : Option Cell → Option E
    seen none = none
    seen (some c) = get c

    -- What a slice or a map whose elements have no references reads as, or a pointer to one.
    abbrev pub view_ref : List Cell → Ref → Option (Option E)
    view_ref h none = some none
    view_ref h (some i) = map_option some (seen (at h i))

  -- The copy of one; `same` copies the elements.
  module _ {E : Type 0} (get : Cell → Option E) (put : E → Cell) (same : E → E) where
    abbrev fresh : ℕ → Option E → Copy Cell Ref
    fresh i none h = (some i, h)
    fresh i (some e) h = (some (length h), h ++ put (same e) ∷ [])

    -- if in.F != nil { *out = make(…, len(*in)); … }
    unfoldable pub copy_ref : Ref → Copy Cell Ref
    copy_ref none h = (none, h)
    copy_ref (some i) h = fresh i (seen get (at h i)) h

    fresh-IsCopied :
        (h : List Cell) (i : ℕ) (e : E) (o : Option E)
        → ((e : E) → get (put (same e)) ≡ some e)
        → o ≡ some e
        → IsCopied (view_ref get) h (some e) (fresh i o h)
    fresh-IsCopied h i e none law is = cc
    fresh-IsCopied h i e (some d) law is = record {
      more = put (same d) ∷ [];
      grown = refl;
      stays = λ g k.
          let kept : at g (length h) ≡ some (put (same d)) =
            k (length h) (omega arith) (omega (arith, length-append h (put (same d) ∷ [])))
            ∙ at_end h (put (same d)) in
          rw (kept, law d) (ap some is);
    }

    seen-some :
        (o : Option E) (v : Option E)
        → map_option some o ≡ some v
        → (e : E) × (o ≡ some e) × (v ≡ some e)
    seen-some none v e = cc
    seen-some (some d) v e = (d, refl, ground (arith, e))

    ref-local :
        (h ks : List Cell) (a : Ref) (v : Option E)
        → view_ref get h a ≡ some v
        → view_ref get (h ++ ks) a ≡ some v
    ref-local h ks none v e = e
    ref-local h ks (some i) v e = elim (Option-cases (at h i)) [
      | inl gone ↦ (let e' = rw gone at e in cc)
      | inr (c, here) ↦ rw (at-append h ks i c here) (rw here at e)
    ]

    ref-copies :
        ((e : E) → get (put (same e)) ≡ some e)
        → (h : List Cell) (a : Ref) (v : Option E) → view_ref get h a ≡ some v
        → IsCopied (view_ref get) h v (copy_ref a h)
    unfolding copy_ref
    ref-copies law h none v e = record { more = []; grown = sym (append-nil h); stays = λ g k. e }
    ref-copies law h (some i) v e =
        let (d, is, v_is) = seen-some (seen get (at h i)) v e in
        subst (λ v. IsCopied (view_ref get) h v (fresh i (seen get (at h i)) h)) (sym v_is)
          (fresh-IsCopied h i d (seen get (at h i)) law is)

    pub ref-IsDeep : ((e : E) → get (put (same e)) ≡ some e) → IsDeep (view_ref get) copy_ref
    ref-IsDeep law = record { local = ref-local; copies = ref-copies law }

pub both-some :
    {V W : Type 0} (o : Option V) (p : Option W) (x : V × W)
    → both o p ≡ some x
    → (o ≡ some x.0) × (p ≡ some x.1)
both-some (some v') (some w') x e = ground (arith, e)
both-some none p x e = cc
both-some (some _) none x e = cc

abbrev pub copy_both :
    {Cell A B : Type 0} → (A → Copy Cell A) → (B → Copy Cell B) → A × B → Copy Cell (A × B)
copy_both ca cb (a, b) = do a' ← ca a; b' ← cb b; return (a', b')

module _ {Cell A B V W : Type 0} where
  abbrev pub view_both :
      (List Cell → A → Option V) → (List Cell → B → Option W) → List Cell → A × B → Option (V × W)
  view_both va vb h (a, b) = both (va h a) (vb h b)

  module _ (va : List Cell → A → Option V) (vb : List Cell → B → Option W) (ca : A → Copy Cell A)
      (cb : B → Copy Cell B) where
    pub then-IsCopied :
        (h : List Cell) (a : A) (b : B) (v : V) (w : W)
        → IsCopied va h v (ca a h)
        → IsCopied vb (ca a h).1 w (cb b (ca a h).1)
        → IsCopied (view_both va vb) h (v, w) (copy_both ca cb (a, b) h)
    then-IsCopied h a b v w ka kb =
        let h1 = (ca a h).1 in
        let h2 = (cb b h1).1 in
        let low : length h ≤ length h1 = rw (ka.grown) (omega (arith, length-append h ka.more)) in
        let high : length h1 ≤ length h2 =
          rw (kb.grown) (omega (arith, length-append h1 kb.more)) in
        record {
          more = ka.more ++ kb.more;
          grown = kb.grown ∙ ap (λ m. m ++ kb.more) ka.grown ∙ append_assoc h ka.more kb.more;
          stays = λ g k.
              let first = ka.stays g (λ i l u.
                k i l (omega (arith, u, high))
                ∙ ap (λ m. at m i) kb.grown
                ∙ at_before h1 kb.more i u) in
              let second = kb.stays g (λ i l u. k i (omega (arith, l, low)) u) in
              rw (first, second) refl;
        }

    pub both-IsDeep : IsDeep va ca → IsDeep vb cb → IsDeep (view_both va vb) (copy_both ca cb)
    both-IsDeep da db = record {
      local = λ h ks (a, b) x e.
          let (ea, eb) = both-some (va h a) (vb h b) x e in
          rw (da.local h ks a x.0 ea, db.local h ks b x.1 eb) refl;
      copies = λ h (a, b) x e.
          let (ea, eb) = both-some (va h a) (vb h b) x e in
          let ka = da.copies h a x.0 ea in
          then-IsCopied h a b x.0 x.1 ka (
            db.copies (ca a h).1 b x.1
              (subst (λ h1. vb h1 b ≡ some x.1) (sym ka.grown) (db.local h ka.more b x.1 eb)));
    }

pub mapped :
    {Q V : Type 0} (f : Q → V) (o : Option Q) (v : V)
    → map_option f o ≡ some v
    → (q : Q) × (o ≡ some q) × (some (f q) ≡ some v)
mapped f none v e = cc
mapped f (some q) v e = (q, refl, e)

-- A struct by the parts of it that have references: its value is built of theirs.
module _ {Cell S P V Q : Type 0} (parts : S → P) (build : S → Q → V)
    (view : List Cell → P → Option Q) where
  abbrev pub view_struct : List Cell → S → Option V
  view_struct h s = map_option (build s) (view h (parts s))

module _ {Cell S P V Q : Type 0} (parts : S → P) (set : S → P → S) (build : S → Q → V)
    (view : List Cell → P → Option Q) (copy : P → Copy Cell P) where
  abbrev pub copy_struct : S → Copy Cell S
  copy_struct s = do p ← copy (parts s); return (set s p)

  pub struct-IsDeep :
      ((s : S) (p : P) → parts (set s p) ≡ p)
      → ((s : S) (p : P) → build (set s p) ≡ build s)
      → IsDeep view copy
      → IsDeep (view_struct parts build view) copy_struct
  struct-IsDeep kept same d = record {
    local = λ h ks s v e.
        let (q, is, here) = mapped (build s) (view h (parts s)) v e in
        rw (d.local h ks (parts s) q is) here;
    copies = λ h s v e.
        let (q, is, here) = mapped (build s) (view h (parts s)) v e in
        let k = d.copies h (parts s) q is in
        record {
          more = k.more;
          grown = k.grown;
          stays = λ g kg.
              rw (kept s (copy (parts s) h).0, same s (copy (parts s) h).0, k.stays g kg) here;
        };
  }
