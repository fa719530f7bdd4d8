-- ===== src/Qrx007/Answers.antt =====
-- agent/adapters/qrx007/qrx007.go: a value that is found in an answer, and a run that has one.
use qrx_node_suite.Prelude.{
  ◌≡◌, refl, ap, ◌∙◌, String, Bool, true, false, Option, none, some, List, [], ◌∷◌, ◌++◌,
}
use mathlib.Core.Path.{subst}
use qrx_node_suite.Errors.{Result, ok, err}
use qrx_node_suite.Exec.{Exec, carry_on, ◌>>=◌, done}
use qrx_node_suite.QrxCli.{Json, lookup, first, read, or_else}
use qrx_node_suite.QrxCli.Runner.{Process, Ran, timed_out, exited, printed, checked, ended}
use qrx_node_suite.Node.{is_ok}
use qrx_node_suite.Node.Reports.{reported, avail, unavail}
use qrx_node_suite.Qrx007.{Session}

-- One of the keys is there, and its raw message decodes to the value.
pub record Present {A Raw : Type 0} (f : Raw → Option A) (m : List (String × Raw))
    (keys : List String) (a : A) : Type 0 where
  pub key : String
  pub prefix : List String
  pub suffix : List String
  pub listed : keys ≡ prefix ++ (key ∷ suffix)
  pub raw : Raw
  pub found : lookup key m ≡ some raw
  pub decodes : f raw ≡ some a

module _ (j : Json) {A : Type 0} (f : j.Raw → Option A) (m : List (String × j.Raw)) where
  later : (k : String) (keys : List String) {a : A} → Present f m keys a → Present f m (k ∷ keys) a
  later k keys p = record {
    key = p.key;
    prefix = k ∷ p.prefix;
    suffix = p.suffix;
    listed = ap (λ (x : List String). k ∷ x) p.listed;
    raw = p.raw;
    found = p.found;
    decodes = p.decodes;
  }

  here :
      (k : String) (keys : List String) {a : A} (raw : j.Raw)
      → lookup k m ≡ some raw
      → f raw ≡ some a
      → Present f m (k ∷ keys) a
  here k keys raw p q = record {
    key = k;
    prefix = [];
    suffix = keys;
    listed = refl;
    raw = raw;
    found = p;
    decodes = q;
  }

  choose :
      (k : String) (keys : List String) (rest : Option A) (o : Option j.Raw) {a : A}
      → lookup k m ≡ o
      → (rest ≡ some a → Present f m keys a)
      → or_else j (read j f o) rest ≡ some a
      → Present f m (k ∷ keys) a
  choose k keys rest none p h e = later k keys (h e)
  choose k keys rest (some raw) {a} p h e = decoded (f raw) refl e
    where
      decoded : (x : Option A) → f raw ≡ x → or_else j x rest ≡ some a → Present f m (k ∷ keys) a
      decoded none q e = later k keys (h e)
      decoded (some b) q e = here k keys raw p (q ∙ e)

  -- What the search of a field finds is the value of a field.
  pub first-Present : (keys : List String) {a : A} → first j f m keys ≡ some a → Present f m keys a
  unfolding first
  first-Present [] e = absurd e
    where
      absurd : {P : Type 0} {b : A} → none ≡ some b → P
      absurd e = cc
  first-Present (k ∷ keys) e =
      choose k keys (first j f m keys) (lookup k m) refl (first-Present keys) e

pub reported-ok :
    {A : Type 0} (zero : A) (o : Option A)
    → is_ok (reported zero o) ≡ true
    → o ≡ some ((reported zero o).value)
unfolding reported avail unavail
reported-ok zero none h = cc
reported-ok zero (some a) h = refl

ok_eq : {A : Type 0} {a b : A} → ok a ≡ ok b → a ≡ b
ok_eq e = cc

-- The envelope's field "ok" is there, and false.
abbrev pub says_failed : Option (Option Bool × String) → Bool
says_failed (some (some false, message)) = true
says_failed _ = false

checked-ok :
    {R : Type 0} (raw : R) (v : Option (Option Bool × String)) {r : R}
    → checked raw v ≡ ok r
    → (says_failed v ≡ false) × (raw ≡ r)
unfolding checked
checked-ok raw none e = (refl, ok_eq e)
checked-ok raw (some (none, message)) e = (refl, ok_eq e)
checked-ok raw (some (some true, message)) e = (refl, ok_eq e)
checked-ok raw (some (some false, message)) e = cc

pub ended-printed :
    {R : Type 0} (p : Process R) (o : Ran R) {raw : R}
    → ended p o ≡ ok raw
    → (o ≡ printed raw) × (says_failed (p.envelope raw) ≡ false)
unfolding ended
ended-printed p timed_out e = cc
ended-printed p exited e = cc
ended-printed p (printed r) e =
    let c = checked-ok r (p.envelope r) e in
    (ap printed c.1, subst (λ z. says_failed (p.envelope z) ≡ false) c.1 c.0)

-- What holds of every result that an action returns without an error.
pub record Yields {A : Type 0} (x : Exec Session A) (P : A → Type 0) : Type 0 where
  pub at : (s : Session) (a : A) → (x s).0 ≡ ok a → P a

module _ {A B : Type 0} (P : B → Type 0) (f : A → Exec Session B) where
  carry-Yields :
      (o : Result A × Session)
      → ((a : A) → o.0 ≡ ok a → Yields (f a) P)
      → (b : B) → (carry_on f o).0 ≡ ok b
      → P b
  carry-Yields (ok a, s) k b e = (k a refl).at s b e
  carry-Yields (err x, s) k b e = cc

  pub bind-Yields : (x : Exec Session A) → ((a : A) → Yields (f a) P) → Yields (x >>= f) P
  unfolding ◌>>=◌
  bind-Yields x k = record { at = λ s b. carry-Yields (x s) (λ a e. k a) b }

pub done-Yields : {A : Type 0} (P : A → Type 0) (a : A) → P a → Yields (done a) P
done-Yields P a p = record { at = λ s b e. subst P (ok_eq e) p }
