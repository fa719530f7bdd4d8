-- ===== src/Store/Releases.antt =====
-- The set of release directories, and what one operation does to the others.
use qrx_node_suite.Prelude.{
  ◌≡◌, refl, String, true, false, List, [], ◌∷◌, arith, if◌then◌else◌, ◌==◌, eq_iff,
}
use qrx_node_suite.Store.{has, without}

pub has-without_self : (v : String) (l : List String) → has v (without v l) ≡ false
unfolding has without
has-without_self v [] = refl
has-without_self v (w ∷ l) = ground (arith, has-without_self v l)

pub has-without_ne :
    (v w : String) (l : List String) → (w == v) ≡ false → has v (without w l) ≡ has v l
unfolding has without
has-without_ne v w [] h = refl
has-without_ne v w (x ∷ l) h =
    ground (arith, eq_iff x w, eq_iff x v, eq_iff w v, has-without_ne v w l h)

pub has-insert :
    (v w : String) (l : List String) → has v l ≡ true → has v (if has w l then l else w ∷ l) ≡ true
unfolding has
has-insert v w l h = ground arith

pub has-insert_self : (v : String) (l : List String) → has v (if has v l then l else v ∷ l) ≡ true
unfolding has
has-insert_self v l = ground (arith, eq_iff v v)

pub has_of_without : (x w : String) (l : List String) → has x (without w l) ≡ true → has x l ≡ true
unfolding has without
has_of_without x w [] h = h
has_of_without x w (y ∷ l) h = ground (arith, has_of_without x w l)
