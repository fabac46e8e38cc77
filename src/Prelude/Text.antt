-- ===== src/Prelude/Text.antt =====
-- Texts. Where the code only compares texts they are numbers: `text` numbers the texts, the empty
-- one by 0. Where it walks them they are lists of code units, which `encode` numbers.
use Prim.Native.Nat.{ℕ, suc, ◌+◌, ◌*◌, ◌<◌}
use Prim.Native.Char.{code}
use Prim.Native.String.{String}
use mathlib.Core.Path.{◌≡◌, refl, ap₂}
use mathlib.Core.Bool.{Bool, true, false, ◌&&◌}
use mathlib.Core.Option.{Option, none, some}
use mathlib.Core.List.{List, [], ◌∷◌, ◌++◌}
use native.Mathlib.Omega.{arith}
use graphql_prisma_postgres.Prelude.Lists.{All}
use graphql_prisma_postgres.Prelude.Tests.{◌==◌, if◌then◌else◌}

abbrev pub Text : Type 0
Text = List ℕ

abbrev pub codes : String → Text
codes String.[] = []
codes (String.◌∷◌ c s) = code c ∷ codes s

-- A code unit, and a code point, is below 1114112.
abbrev pub encode : Text → ℕ
encode [] = 0
encode (c ∷ s) = suc (c + 1114112 * encode s)

abbrev pub text : String → ℕ
text s = encode (codes s)

-- Different texts have different numbers.
pub encode_injective :
    (s t : Text) → All (λ c. c < 1114112) s → All (λ c. c < 1114112) t → encode s ≡ encode t → s ≡ t
encode_injective [] [] _ _ e = refl
encode_injective [] (c ∷ t) _ _ e = absurd (omega arith)
encode_injective (c ∷ s) [] _ _ e = absurd (omega arith)
encode_injective (c ∷ s) (d ∷ t) (p, h) (q, k) e =
    ap₂ ◌∷◌ (omega arith) (encode_injective s t h k (omega arith))

-- `===` on texts.
unfoldable pub same_text : Text → Text → Bool
same_text [] [] = true
same_text [] (_ ∷ _) = false
same_text (_ ∷ _) [] = false
same_text (c ∷ s) (d ∷ t) = c == d && same_text s t

pub same_text_refl : (s : Text) → same_text s s ≡ true
unfolding same_text
same_text_refl [] = refl
same_text_refl (c ∷ s) = ground (arith, same_text_refl s)

pub same_text-eq : (s t : Text) → same_text s t ≡ true → s ≡ t
unfolding same_text
same_text-eq [] [] e = refl
same_text-eq [] (d ∷ t) e = absurd (ground arith)
same_text-eq (c ∷ s) [] e = absurd (ground arith)
same_text-eq (c ∷ s) (d ∷ t) e = ap₂ ◌∷◌ (ground arith) (same_text-eq s t (ground arith))

-- What a text goes on with behind a prefix.
unfoldable pub after_prefix : Text → Text → Option Text
after_prefix [] s = some s
after_prefix (_ ∷ _) [] = none
after_prefix (c ∷ p) (d ∷ s) = let rest = after_prefix p s in if c == d then rest else none

pub after_prefix-append : (p s : Text) → after_prefix p (p ++ s) ≡ some s
unfolding after_prefix
after_prefix-append [] s = refl
after_prefix-append (c ∷ p) s = ground (arith, after_prefix-append p s)

pub after_prefix-some : (p s r : Text) → after_prefix p s ≡ some r → s ≡ p ++ r
unfolding after_prefix
after_prefix-some [] s r e = ground arith
after_prefix-some (c ∷ p) [] r e = absurd (ground arith)
after_prefix-some (c ∷ p) (d ∷ s) r e =
    ap₂ ◌∷◌ (ground arith) (after_prefix-some p s r (ground arith))
