-- ===== src/World/Ends.antt =====
-- What each primitive step leaves of the settings and of the disk, as rules in front of the rest of a
-- block.
use qrx_node_suite.Prelude.{
  ◌+◌, ◌≡◌, refl, sym, ap, ◌∙◌, Bool, true, false, Option, none, some, Bool-cases, inl, inr,
}
use mathlib.Core.Path.{subst}
use qrx_node_suite.Errors.{Err, Result, ok, err}
use qrx_node_suite.Exec.{Exec, attempt, as_error, ◌>>=◌, ◌otherwise◌, guard, done, fail, ignoring}
use qrx_node_suite.Exec.Wp.{Wp, Post, Wp-bind, Wp-otherwise, Wp-weaken}
use qrx_node_suite.Policy.{Settings}
use qrx_node_suite.Store.{Store, Disk}
use qrx_node_suite.World.{
  World, HistoryRecord, outside, on_store, asks, sets, insert, check, failing, audit,
}

abbrev pub View : Type 0
View = Settings × Disk

abbrev pub view : World → View
view w = (w.settings, w.store.disk)

abbrev pub Ends :
    {A : Type 0} → Exec World A → View → (A → View → Type 0) → (Err → View → Type 0) → Type 0
Ends m v Q E = Wp (λ (w : World). view w) m v Q E

-- The view stays; the result of a success is known.
pub record Frames {A : Type 0} (m : Exec World A) (v : View) (P : A → Type 0) : Type 0 where
  pub ends : Ends m v (λ a u. (u ≡ v) × P a) (λ e u. u ≡ v)

pub Ends-eq :
    {A : Type 0} {m : Exec World A} {u v : View} {Q : A → View → Type 0} {E : Err → View → Type 0}
    → u ≡ v
    → Ends m v Q E
    → Ends m u Q E
Ends-eq p h = record { at = λ s q. h.at s (q ∙ p) }

pub then_frames :
    {A B : Type 0} {v : View} {P : A → Type 0} {R : B → View → Type 0} {E : Err → View → Type 0}
    {m : Exec World A} (f : A → Exec World B)
    → Frames m v P
    → ((e : Err) → E e v)
    → ((a : A) → P a → Ends (f a) v R E)
    → Ends (m >>= f) v R E
then_frames {E = E} f h bad k =
    Wp-bind _ (Wp-weaken _ h.ends (λ a u q. q) (λ e u q. subst (λ x. E e x) (sym q) (bad e)))
      (λ a u q. Ends-eq q.0 (k a q.1))

abbrev pub Any : {A : Type 0} → A → Type 0
Any a = Unit {0}

pub outside-Frames : {v : View} → Frames outside v Any
unfolding outside
outside-Frames {v} = record { ends = record { at = λ s p. split s p } }
  where
    split :
        (s : World)
        → view s ≡ v
        → Post (λ (w : World). view w) (λ a u. (u ≡ v) × Any a) (λ e u. u ≡ v) (outside s)
    split s p = elim (Bool-cases (failing s)) [ inl y ↦ rw y p | inr n ↦ rw n (p, tt) ]

pub asks-Frames :
    {A : Type 0} (f : Settings → Result A) {v : View} → Frames (asks f) v (λ a. f v.0 ≡ ok a)
unfolding asks
asks-Frames {A} f {v} = record { ends = record { at = λ s p. split s p } }
  where
    given :
        (s : World) (o : Result A)
        → view s ≡ v
        → f s.settings ≡ o
        → Post (λ (w : World). view w) (λ a u. (u ≡ v) × (f v.0 ≡ ok a)) (λ e u. u ≡ v) (o, s)
    given s (ok a) p q = (p, ap (λ (x : View). f x.0) (sym p) ∙ q)
    given s (err e) p q = p

    split :
        (s : World)
        → view s ≡ v
        → Post (λ (w : World). view w) (λ a u. (u ≡ v) × (f v.0 ≡ ok a)) (λ e u. u ≡ v) (asks f s)
    split s p = elim (Bool-cases (failing s)) [
      | inl y ↦ rw y p
      | inr n ↦ rw n (given (record s { ticks = s.ticks + 1 }) (f s.settings) p refl)
    ]

pub insert-Frames : (rec : HistoryRecord) {v : View} → Frames (insert rec) v Any
unfolding insert
insert-Frames rec {v} = record { ends = record { at = λ s p. split s p } }
  where
    split :
        (s : World)
        → view s ≡ v
        → Post (λ (w : World). view w) (λ a u. (u ≡ v) × Any a) (λ e u. u ≡ v) (insert rec s)
    split s p = elim (Bool-cases (failing s)) [ inl y ↦ rw y p | inr n ↦ rw n (p, tt) ]

pub guard-Frames : (b : Bool) (e : Err) {v : View} → Frames (guard b e) v (λ a. b ≡ true)
unfolding guard
guard-Frames true e = record { ends = record { at = λ s p. (p, refl) } }
guard-Frames false e = record { ends = record { at = λ s p. p } }

pub check-Frames : (o : Option Err) {v : View} → Frames (check o) v (λ a. o ≡ none)
unfolding check
check-Frames none = record { ends = record { at = λ s p. (p, refl) } }
check-Frames (some e) = record { ends = record { at = λ s p. p } }

pub done-Frames : {A : Type 0} (a : A) {v : View} → Frames (done a) v (λ b. b ≡ a)
done-Frames a = record { ends = record { at = λ s p. (p, refl) } }

pub fail-Frames :
    {A : Type 0} {P : A → Type 0} (e : Err) {v : View} → Frames (fail {S = World} {A = A} e) v P
fail-Frames e = record { ends = record { at = λ s p. p } }

pub ignoring-Frames :
    {A : Type 0} {m : Exec World A} {v : View} {P : A → Type 0}
    → Frames m v P
    → Frames (ignoring m) v Any
unfolding ignoring
ignoring-Frames {A} {m} {v} {P} h = record {
  ends = record { at = λ s p. go (m s) (h.ends.at s p) };
}
  where
    go :
        (o : Result A × World)
        → Post (λ (w : World). view w) (λ a u. (u ≡ v) × P a) (λ e u. u ≡ v) o
        → (view o.1 ≡ v) × Unit {0}
    go (ok a, s) k = (k.0, tt)
    go (err e, s) k = (k, tt)

-- A step of the store: the settings stay.
module _ {A : Type 0} {v : View} {Q : A → Disk → Type 0} {E : Err → Disk → Type 0} where
  pub on_store_ends :
      {m : Exec Store A}
      → Wp (λ (s : Store). s.disk) m v.1 Q E
      → Ends (on_store m) v (λ a u. (u.0 ≡ v.0) × Q a u.1) (λ e u. (u.0 ≡ v.0) × E e u.1)
  unfolding on_store
  on_store_ends {m} h = record {
    at = λ s p.
        go s (ap (λ (x : View). x.0) p) (m s.store) (h.at s.store (ap (λ (x : View). x.1) p));
  }
    where
      go :
          (w : World)
          → w.settings ≡ v.0
          → (o : Result A × Store) → Post (λ (s : Store). s.disk) Q E o
          → Post
              (λ (x : World). view x)
              (λ a u. (u.0 ≡ v.0) × Q a u.1)
              (λ e u. (u.0 ≡ v.0) × E e u.1)
              (o.0, record w { store = o.1 })
      go w p (ok a, s) k = (p, k)
      go w p (err e, s) k = (p, k)

pub sets_exact :
    (f : Settings → Settings) {v : View} → Ends (sets f) v (λ a u. u ≡ (f v.0, v.1)) (λ e u. u ≡ v)
unfolding sets
sets_exact f {v} = record { at = λ s p. split s p }
  where
    split :
        (s : World)
        → view s ≡ v
        → Post (λ (w : World). view w) (λ a u. u ≡ (f v.0, v.1)) (λ e u. u ≡ v) (sets f s)
    split s p = elim (Bool-cases (failing s)) [
      | inl y ↦ rw y p
      | inr n ↦ rw n (ap (λ (x : View). (f x.0, x.1)) p)
    ]

pub sets_ends :
    (f : Settings → Settings) {v : View} → Ends (sets f) v (λ a u. u.1 ≡ v.1) (λ e u. u ≡ v)
sets_ends f = Wp-weaken _ (sets_exact f) (λ a u q. ap (λ (x : View). x.1) q) (λ e u q. q)

module _ {A B : Type 0} {v : View} {P : A → Type 0} {R : B → Type 0} {m : Exec World A} where
  pub Frames-bind :
      (f : A → Exec World B)
      → Frames m v P
      → ((a : A) → P a → Frames (f a) v R)
      → Frames (m >>= f) v R
  Frames-bind f h k = record { ends = then_frames _ h (λ e. refl) (λ a p. (k a p).ends) }

pub Frames-weaken :
    {A : Type 0} {v : View} {P R : A → Type 0} {m : Exec World A}
    → Frames m v P
    → ((a : A) → P a → R a)
    → Frames m v R
Frames-weaken h f = record { ends = Wp-weaken _ h.ends (λ a u q. (q.0, f a q.1)) (λ e u q. q) }

pub on_store-Frames :
    {A : Type 0} {m : Exec Store A} {v : View} {P : A → Type 0}
    → Wp (λ (s : Store). s.disk) m v.1 (λ a d. (d ≡ v.1) × P a) (λ e d. d ≡ v.1)
    → Frames (on_store m) v P
on_store-Frames h = record {
  ends =
      Wp-weaken _ (on_store_ends h) (λ a u q. (pair_eq q.0 q.1.0, q.1.1))
        (λ e u q. pair_eq q.0 q.1);
}
  where
    pair_eq : {u v : View} → u.0 ≡ v.0 → u.1 ≡ v.1 → u ≡ v
    pair_eq p q = cc

pub Frames-otherwise :
    {A : Type 0} {v : View} {P : A → Type 0} {m : Exec World A} {f : Err → Exec World A}
    → Frames m v P
    → ((e : Err) → Frames (f e) v P)
    → Frames (m otherwise f) v P
Frames-otherwise h k = record {
  ends =
      Wp-otherwise _ h.ends (λ e u q. Ends-eq q (Wp-weaken _ (k e).ends (λ a t r. r) (λ d t r. r)));
}

pub audit-Frames : {v : View} → Frames audit v Any
audit-Frames = record { ends = record { at = λ s p. (p, tt) } }

-- An attempt that leaves the view alone, in front of what its outcome decides.
pub then_attempt :
    {A B : Type 0} {v : View} {P : A → Type 0} {R : B → View → Type 0} {E : Err → View → Type 0}
    {m : Exec World A} (f : Option Err → Exec World B)
    → Frames m v P
    → ((a : A) → P a → Ends (f none) v R E)
    → ((e : Err) → Ends (f (some e)) v R E)
    → Ends (attempt m >>= f) v R E
unfolding attempt ◌>>=◌
then_attempt {A} {B} {v} {P} {R} {E} {m} f h good bad = record {
  at = λ s p. go (m s) (h.ends.at s p);
}
  where
    go :
        (o : Result A × World)
        → Post (λ (w : World). view w) (λ a u. (u ≡ v) × P a) (λ e u. u ≡ v) o
        → Post (λ (w : World). view w) R E (f (as_error o.0) o.1)
    go (ok a, s) k = (good a k.1).at s k.0
    go (err e, s) k = (bad e).at s k
