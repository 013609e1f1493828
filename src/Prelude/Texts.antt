-- ===== src/Prelude/Texts.antt =====
-- Go's order on strings, by the codes of their characters.
use Prim.Native.Nat.{ℕ}
use Prim.Native.Char.{code}
use Prim.Native.String.{String}
use mathlib.Core.Path.{◌≡◌, refl}
use mathlib.Core.Bool.{Bool, true, false}
use mathlib.Core.List.{List, [], ◌∷◌}
use native.Mathlib.Omega.{arith}
use lead.Prelude.Tests.{if◌then◌else◌, ltb}

abbrev pub codes : String → List ℕ
codes String.[] = []
codes (String.◌∷◌ c s) = code c ∷ codes s

abbrev pub lex_ltb : List ℕ → List ℕ → Bool
lex_ltb xs [] = false
lex_ltb [] (y ∷ ys) = true
lex_ltb (x ∷ xs) (y ∷ ys) =
    let rest = lex_ltb xs ys in if ltb x y then true else (if ltb y x then false else rest)

pub lex_ltb_asym : (xs ys : List ℕ) → lex_ltb xs ys ≡ true → lex_ltb ys xs ≡ false
lex_ltb_asym [] [] h = refl
lex_ltb_asym [] (y ∷ ys) h = refl
lex_ltb_asym (x ∷ xs) [] h = ground arith
lex_ltb_asym (x ∷ xs) (y ∷ ys) h = ground (arith, lex_ltb_asym xs ys)

pub lex_ltb_between :
    (xs ys zs : List ℕ) → lex_ltb xs ys ≡ false → lex_ltb ys zs ≡ false → lex_ltb xs zs ≡ false
lex_ltb_between xs ys [] h k = refl
lex_ltb_between xs [] (z ∷ zs) h k = ground arith
lex_ltb_between [] (y ∷ ys) (z ∷ zs) h k = ground arith
lex_ltb_between (x ∷ xs) (y ∷ ys) (z ∷ zs) h k = ground (arith, lex_ltb_between xs ys zs)

-- `s < t`
abbrev pub text_ltb : String → String → Bool
text_ltb s t = lex_ltb (codes s) (codes t)
