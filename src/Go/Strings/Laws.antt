-- ===== src/Go/Strings/Laws.antt =====
-- What trimming and cutting do with texts that were put together.
use Prim.Native.Char.{Char, code}
use Prim.Native.String.{String, [], ◌∷◌, ◌++◌}
use Prim.Native.String.append
use mathlib.Core.Option
use text.Mathlib.TextEquality.{Char-path}
use xenonite.Base.{◌≡◌, ◌≢◌, refl, ap, ◌∙◌, Option, none, some, arith, eqb, Bool-cases, inl, inr}
use xenonite.Go.Strings.{cut_prefix, trim_prefix, cut_slash, keep}

-- No slash in the text.
abbrev pub NoSlash : String → Type 0
NoSlash [] = Unit
NoSlash (c ∷ s) = (code c ≢ b'/') × NoSlash s

cut_prefix-append : (p t : String) → cut_prefix (p ++ t) p ≡ some t
unfolding cut_prefix
cut_prefix-append [] t = rw append.nil
cut_prefix-append (c ∷ p) t = rw append.cons (ground (arith, cut_prefix-append p t))

pub trim_prefix-append : (p t : String) → trim_prefix (p ++ t) p ≡ t
unfolding trim_prefix
trim_prefix-append p t = rw cut_prefix-append

-- A prefix that was found was there.
cut_prefix_sound : (s p : String) {t : String} → cut_prefix s p ≡ some t → s ≡ p ++ t
unfolding cut_prefix
cut_prefix_sound s [] h = rw append.nil (ground arith)
cut_prefix_sound [] (d ∷ p) h = cc
cut_prefix_sound (c ∷ s) (d ∷ p) {t} h = elim (Bool-cases (eqb (code c) (code d))) [
  | inl e ↦
      cc (
        append.cons d p t,
        Char-path c d (ground arith),
        cut_prefix_sound s p {t = t} (ground arith),
      )
  | inr e ↦ ground arith
]

pub trim_prefix_sound : (s p : String) → trim_prefix s p ≢ s → s ≡ p ++ trim_prefix s p
unfolding trim_prefix
trim_prefix_sound s p h = go (cut_prefix s p) refl
  where
    go : (o : Option String) → cut_prefix s p ≡ o → s ≡ p ++ keep s (cut_prefix s p)
    go none e = absurd (h (rw e))
    go (some t) e = rw e (cut_prefix_sound s p e)

slash-append : (b : String) → "/" ++ b ≡ "/" ∷ b
slash-append b = append.cons "/" "" b ∙ ap (λ t. ◌∷◌ "/" t) (append.nil b)

pub cut_slash-append : (a b : String) → NoSlash a → cut_slash (a ++ ("/" ++ b)) ≡ some (a, b)
unfolding cut_slash
cut_slash-append [] b _ = rw (append.nil, slash-append)
cut_slash-append (c ∷ a) b (ne, h) =
    rw (append.cons c a ("/" ++ b)) (ground (arith, cut_slash-append a b h))

-- What the answer of `cut_slash` says of the text.
abbrev pub Cuts : String → Option (String × String) → Type 0
Cuts s none = NoSlash s
Cuts s (some (a, b)) = NoSlash a × (s ≡ a ++ ("/" ++ b))

Cuts-cons :
    (c : Char) (s : String) (o : Option (String × String))
    → code c ≢ b'/'
    → Cuts s o
    → Cuts (c ∷ s) (Option.map (λ p. (c ∷ p.0, p.1)) o)
Cuts-cons c s none ne h = (ne, h)
Cuts-cons c s (some (a, b)) ne h = ((ne, h.0), cc (append.cons c a ("/" ++ b), h.1))

pub cut_slash-Cuts : (s : String) → Cuts s (cut_slash s)
unfolding cut_slash
cut_slash-Cuts [] = tt
cut_slash-Cuts (c ∷ s) = elim (Bool-cases (eqb (code c) b'/')) [
  | inl e ↦ rw e (tt, cc (append.nil ("/" ++ s), slash-append s, Char-path c "/" (ground arith)))
  | inr e ↦ rw e (Cuts-cons c s (cut_slash s) (ground arith) (cut_slash-Cuts s))
]
