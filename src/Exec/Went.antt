-- ===== src/Exec/Went.antt =====
-- What a sequence of actions that succeeds has done: each of its halves succeeded.
use qrx_node_suite.Prelude.{◌≡◌, refl, Bool, true, false}
use qrx_node_suite.Errors.{Err, Result, ok, err}
use qrx_node_suite.Exec.{Exec, carry_on, ◌>>=◌, reads, guard}

-- The two halves of a sequence that succeeds.
pub record Went {S A B : Type 0} (m : Exec S A) (f : A → Exec S B) (s : S) (b : B) : Type 0 where
  pub value : A
  pub first : (m s).0 ≡ ok value
  pub rest : (f value (m s).1).0 ≡ ok b

module _ {S A B : Type 0} where
  went :
      (f : A → Exec S B) (o : Result A × S) {b : B}
      → (carry_on f o).0 ≡ ok b
      → (a : A) × (o.0 ≡ ok a) × ((f a o.1).0 ≡ ok b)
  went f (ok a, s) h = (a, refl, h)
  went f (err e, s) h = cc

  pub bind-Went :
      (m : Exec S A) (f : A → Exec S B) (s : S) {b : B} → ((m >>= f) s).0 ≡ ok b → Went m f s b
  unfolding ◌>>=◌
  bind-Went m f s h = let k = went f (m s) h in record { value = k.0; first = k.1; rest = k.2 }

module _ {S B : Type 0} where
  pub guard-bind :
      (b : Bool) (e : Err) (f : Unit {0} → Exec S B) (s : S) {r : B}
      → ((guard b e >>= f) s).0 ≡ ok r
      → (b ≡ true) × ((f tt s).0 ≡ ok r)
  unfolding ◌>>=◌ guard
  guard-bind true e f s h = (refl, h)
  guard-bind false e f s h = cc

pub reads-bind :
    {S A B : Type 0} (g : S → A) (f : A → Exec S B) (s : S) {r : B}
    → ((reads g >>= f) s).0 ≡ ok r
    → (f (g s) s).0 ≡ ok r
unfolding ◌>>=◌
reads-bind g f s h = h

pub guard-ok : {S : Type 0} (b : Bool) (e : Err) (s : S) → (guard b e s).0 ≡ ok tt → b ≡ true
unfolding guard
guard-ok true e s h = refl
guard-ok false e s h = cc
