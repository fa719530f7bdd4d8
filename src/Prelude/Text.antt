-- ===== src/Prelude/Text.antt =====
-- Texts as lists of code points, and their order. Go compares strings byte by byte; on valid UTF-8
-- that is the order of the code points.
use Prim.Native.Nat.{ℕ, compare, Ordering}
use Prim.Native.Char.{code}
use Prim.Native.String.{String}
use mathlib.Core.List.{List, [], ◌∷◌}

abbrev pub codes : String → List ℕ
codes String.[] = []
codes (String.◌∷◌ c s) = code c ∷ codes s

-- `s < t`, `s == t` or `s > t` of Go, as one comparison.
unfoldable pub compare_codes : List ℕ → List ℕ → Ordering
compare_codes [] [] = Ordering.eq
compare_codes [] (y ∷ ys) = Ordering.lt
compare_codes (x ∷ xs) [] = Ordering.gt
compare_codes (x ∷ xs) (y ∷ ys) =
    let rest = compare_codes xs ys in
    elim (compare x y) [
      | Ordering.lt ↦ Ordering.lt
      | Ordering.eq ↦ rest
      | Ordering.gt ↦ Ordering.gt
    ]
