-- ===== src/Go/Strings.antt =====
-- strings.TrimPrefix, strings.Cut at a slash, strings.Join.
pub mod Laws
use Prim.Native.Char.{code}
use Prim.Native.String.{String, [], ◌∷◌, ◌++◌}
use mathlib.Core.Option
use mathlib.Core.List
use xenonite.Base.{Option, none, some, eqb, if◌then◌else◌}

-- What stands behind the prefix, if it is one.
pub cut_prefix : String → String → Option String
cut_prefix s [] = some s
cut_prefix [] (d ∷ p) = none
cut_prefix (c ∷ s) (d ∷ p) = if eqb (code c) (code d) then cut_prefix s p else none

abbrev keep : String → Option String → String
keep s none = s
keep s (some t) = t

unfoldable pub trim_prefix : String → String → String
unfolding cut_prefix
trim_prefix s p = keep s (cut_prefix s p)

-- strings.Cut(s, "/"): the parts around the first slash.
unfoldable pub cut_slash : String → Option (String × String)
cut_slash [] = none
cut_slash (c ∷ s) =
    if eqb (code c) b'/' then some ("", s) else Option.map (λ p. (c ∷ p.0, p.1)) (cut_slash s)

-- strings.Join
unfoldable pub join : List.List String → String → String
join List.[] sep = ""
join (List.◌∷◌ s List.[]) sep = s
join (List.◌∷◌ s (List.◌∷◌ t ss)) sep = s ++ (sep ++ join (List.◌∷◌ t ss) sep)
