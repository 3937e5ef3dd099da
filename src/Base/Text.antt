-- ===== src/Base/Text.antt =====
-- Texts as their code points, and what the source uses of Go's `strings` on them, for ASCII.
use mlx_mesh.Base.Tests.{leb, ◌==◌, if◌then◌else◌}
use mathlib.Core.Path.{◌≡◌, refl}
use native.Mathlib.Omega.{arith}
use Prim.Native.Nat.{ℕ, ◌+◌}
use Prim.Native.Char.{code}
use Prim.Native.String.{String}
use mathlib.Core.Bool.{Bool, true, false, ◌&&◌, ◌||◌}
use mathlib.Core.List.{List, [], ◌∷◌}

abbrev pub codes : String → List ℕ
codes String.[] = []
codes (String.◌∷◌ c s) = code c ∷ codes s

unfoldable pub same_bytes : List ℕ → List ℕ → Bool
same_bytes [] [] = true
same_bytes [] (d ∷ ds) = false
same_bytes (c ∷ cs) [] = false
same_bytes (c ∷ cs) (d ∷ ds) = (c == d) && same_bytes cs ds

pub same_bytes-eq : (a b : List ℕ) → same_bytes a b ≡ true → a ≡ b
unfolding same_bytes
same_bytes-eq [] [] h = refl
same_bytes-eq [] (d ∷ ds) h = cc
same_bytes-eq (c ∷ cs) [] h = cc
same_bytes-eq (c ∷ cs) (d ∷ ds) h =
    let head : c ≡ d = ground arith in
    let tail : same_bytes cs ds ≡ true = ground arith in cc (head, same_bytes-eq cs ds tail)

pub same_bytes_refl : (a : List ℕ) → same_bytes a a ≡ true
unfolding same_bytes
same_bytes_refl [] = refl
same_bytes_refl (c ∷ cs) = ground (arith, same_bytes_refl cs)

unfoldable pub is_space : ℕ → Bool
is_space c = (c == 32) || (leb 9 c && leb c 13)

unfoldable pub trim_left : List ℕ → List ℕ
trim_left [] = []
trim_left (c ∷ cs) = let rest = trim_left cs in if is_space c then rest else c ∷ cs

unfoldable pub trim_right : List ℕ → List ℕ
trim_right [] = []
trim_right (c ∷ cs) = elim (trim_right cs) [
  | [] ↦ if is_space c then [] else c ∷ []
  | d ∷ ds ↦ c ∷ d ∷ ds
]

unfoldable pub trim_space : List ℕ → List ℕ
trim_space cs = trim_right (trim_left cs)

unfoldable pub to_lower : List ℕ → List ℕ
to_lower [] = []
to_lower (c ∷ cs) = (if leb 65 c && leb c 90 then c + 32 else c) ∷ to_lower cs

unfoldable pub has_prefix : List ℕ → List ℕ → Bool
has_prefix cs [] = true
has_prefix [] (d ∷ ds) = false
has_prefix (c ∷ cs) (d ∷ ds) = (c == d) && has_prefix cs ds

-- `strings.Contains`.
unfoldable pub contains : List ℕ → List ℕ → Bool
contains [] ds = has_prefix [] ds
contains (c ∷ cs) ds = has_prefix (c ∷ cs) ds || contains cs ds
