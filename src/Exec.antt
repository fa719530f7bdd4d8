-- ===== src/Exec.antt =====
-- Go methods that change shared state and may return an error. What was written before an error
-- stays written, so the state comes back beside the result.
pub mod Wp
pub mod Went
use qrx_node_suite.Prelude.{Bool, true, false, Option, none, some}
use qrx_node_suite.Errors.{Err, Result, ok, err}

abbrev pub Exec : Type 0 → Type 0 → Type 0
Exec S A = S → Result A × S

-- The error as a value.
abbrev pub as_error : {A : Type 0} → Result A → Option Err
as_error (ok a) = none
as_error (err e) = some e

module _ {S : Type 0} where
  abbrev pub done : {A : Type 0} → A → Exec S A
  done a s = (ok a, s)

  abbrev pub fail : {A : Type 0} → Err → Exec S A
  fail e s = (err e, s)

  abbrev pub reads : {A : Type 0} → (S → A) → Exec S A
  reads f s = (ok (f s), s)

  abbrev pub modify : (S → S) → Exec S (Unit {0})
  modify f s = (ok tt, f s)

  -- `if err != nil { return err }` between two steps.
  abbrev pub carry_on : {A B : Type 0} → (A → Exec S B) → Result A × S → Result B × S
  carry_on f (ok a, s) = f a s
  carry_on f (err e, s) = (err e, s)

  infixl 5 ◌>>=◌ ◌>>◌
  unfoldable pub ◌>>=◌ : {A B : Type 0} → Exec S A → (A → Exec S B) → Exec S B
  ◌>>=◌ m f s = carry_on f (m s)

  abbrev pub ◌>>◌ : {A B : Type 0} → Exec S A → Exec S B → Exec S B
  m >> n = m >>= λ _. n

  -- `if err := m; err != nil { h }`: the handler runs in the state that the failure left.
  abbrev pub recover : {A : Type 0} → (Err → Exec S A) → Result A × S → Result A × S
  recover h (ok a, s) = (ok a, s)
  recover h (err e, s) = h e s

  infixl 6 ◌otherwise◌
  unfoldable pub ◌otherwise◌ : {A : Type 0} → Exec S A → (Err → Exec S A) → Exec S A
  ◌otherwise◌ m h s = recover h (m s)

  -- `_ = m`: the result is dropped.
  unfoldable pub ignoring : {A : Type 0} → Exec S A → Exec S (Unit {0})
  ignoring m s = let (r, t) = m s in (ok tt, t)

  unfoldable pub attempt : {A : Type 0} → Exec S A → Exec S (Option Err)
  attempt m s = let (r, t) = m s in (ok (as_error r), t)

  -- `if !b { return err }`.
  unfoldable pub guard : Bool → Err → Exec S (Unit {0})
  guard true e = done tt
  guard false e = fail e

  -- The result as a value, its error too.
  unfoldable pub outcome : {A : Type 0} → Exec S A → Exec S (Result A)
  outcome m s = let (r, t) = m s in (ok r, t)
