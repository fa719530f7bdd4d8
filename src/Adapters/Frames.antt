-- ===== src/Adapters/Frames.antt =====
-- agent/adapters/registry.go: what each step of an activation does to the registry's pointers, as rules.
use qrx_node_suite.Prelude.{
  ◌≡◌, refl, ap, sym, ◌∙◌, String, Bool, true, false, inl, inr, Option, some, none, List,
  Bool-cases,
}
use qrx_node_suite.Errors.{Err}
use qrx_node_suite.Exec.{Exec, ◌>>=◌, guard, ignoring}
use qrx_node_suite.Exec.Wp.{Wp, Wp-bind, Wp_of_both}
use qrx_node_suite.Store.{has}
use qrx_node_suite.Adapters.{
  Registry, Call, call, get_or_create, restore, deactivate_current, is_disabled, find_current,
}

-- The part of the registry that is no call of an adapter.
pub record Pointers : Type 0 where
  pub active : String
  pub previous : String
  pub installed : List String
  pub disabled : List String

abbrev pub pointers : Registry → Pointers
pointers r = record {
  active = r.active;
  previous = r.previous;
  installed = r.installed;
  disabled = r.disabled;
}

abbrev pub Ends :
    {A : Type 0}
    → Exec Registry A
    → Pointers
    → (A → Pointers → Type 0)
    → (Err → Pointers → Type 0)
    → Type 0
Ends m v Q E = Wp (λ (r : Registry). pointers r) m v Q E

-- It changes no pointer, whether it fails or not.
abbrev pub Frames : {A : Type 0} → Exec Registry A → Pointers → Type 0
Frames m v = Ends m v (λ a w. w ≡ v) (λ e w. w ≡ v)

pub call-Frames : (c : Call) (v : Pointers) → Frames (call c) v
unfolding call
call-Frames c v = Wp_of_both _ (λ s p. p)

restore-Frames : (o : Option String) (v : Pointers) → Frames (restore o) v
unfolding call ignoring
restore-Frames none v = Wp_of_both _ (λ s p. p)
restore-Frames (some n) v = Wp_of_both _ (λ s p. p)

pub deactivate-Frames : (o : Option String) (v : Pointers) → Frames (deactivate_current o) v
unfolding call
deactivate-Frames none v = Wp_of_both _ (λ s p. p)
deactivate-Frames (some n) v = Wp_of_both _ (λ s p. p)

ignoring-Frames : (c : Call) (v : Pointers) → Frames (ignoring (call c)) v
unfolding call ignoring
ignoring-Frames c v = Wp_of_both _ (λ s p. p)

module _ {A B : Type 0} {v : Pointers} {R : B → Pointers → Type 0} {m : Exec Registry A} where
  pub then_Frames :
      (f : A → Exec Registry B)
      → Frames m v
      → ((a : A) → Ends (f a) v R (λ e w. w ≡ v))
      → Ends (m >>= f) v R (λ e w. w ≡ v)
  then_Frames f h k = Wp-bind _ h (λ a w p. subst_at w p (k a))
    where
      subst_at :
          {n : Exec Registry B} (w : Pointers)
          → w ≡ v
          → Ends n v R (λ e u. u ≡ v)
          → Ends n w R (λ e u. u ≡ v)
      subst_at w p h = record { at = λ s q. h.at s (q ∙ p) }

module _ {B : Type 0} {v : Pointers} {R : B → Pointers → Type 0} where
  pub then_guard :
      (b : Bool) (e : Err) (f : Unit {0} → Exec Registry B)
      → (b ≡ true → Ends (f tt) v R (λ e w. w ≡ v))
      → Ends (guard b e >>= f) v R (λ e w. w ≡ v)
  unfolding guard ◌>>=◌
  then_guard true e f h = record { at = λ s p. (h refl).at s p }
  then_guard false e f h = record { at = λ s p. p }

  pub then_get_or_create :
      (name : String) (f : Unit {0} → Exec Registry B)
      → (has name v.installed ≡ true → Ends (f tt) v R (λ e w. w ≡ v))
      → Ends (get_or_create name >>= f) v R (λ e w. w ≡ v)
  unfolding get_or_create ◌>>=◌ guard
  then_get_or_create name f h = record {
    at = λ s p. elim (Bool-cases (has name s.installed)) [
      | inl y ↦ rw y ((h (sym (ap (λ (x : Pointers). has name x.installed) p) ∙ y)).at s p)
      | inr n ↦ rw n p
    ];
  }

  pub then_is_disabled :
      (name : String) (f : Bool → Exec Registry B)
      → ((d : Bool) → d ≡ has name v.disabled → Ends (f d) v R (λ e w. w ≡ v))
      → Ends (is_disabled name >>= f) v R (λ e w. w ≡ v)
  unfolding ◌>>=◌ is_disabled
  then_is_disabled name f h = record {
    at = λ s p. (h (has name s.disabled) (ap (λ (x : Pointers). has name x.disabled) p)).at s p;
  }

pub find_current-Frames : (name : String) (v : Pointers) → Frames (find_current name) v
unfolding find_current
find_current-Frames name v = Wp_of_both _ (λ s p. p)
