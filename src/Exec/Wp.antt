-- ===== src/Exec/Wp.antt =====
-- What an action ensures, run from a state that looks a given way: a rule for each way to build one.
-- `view` is the part of the state that the rules speak about; the rest (the count of calls made, the
-- schedule of failures) is arbitrary.
use qrx_node_suite.Prelude.{◌≡◌, refl}
use qrx_node_suite.Errors.{Err, Result, ok, err}
use qrx_node_suite.Exec.{Exec, carry_on, ◌>>=◌, recover, ◌otherwise◌}
use mathlib.Core.Path.{subst}

pub ok_eq : {A : Type 0} {a b : A} → ok a ≡ ok b → a ≡ b
ok_eq h = cc

module _ {S V : Type 0} (view : S → V) where
  abbrev pub Post : {A : Type 0} → (A → V → Type 0) → (Err → V → Type 0) → Result A × S → Type 0
  Post Q E (ok a, s) = Q a (view s)
  Post Q E (err e, s) = E e (view s)

  -- From every state with this view, success ends in `Q` and an error in `E`.
  pub record Wp {A : Type 0} (m : Exec S A) (v : V) (Q : A → V → Type 0) (E : Err → V → Type 0)
      : Type 0 where
    pub at : (s : S) → view s ≡ v → Post Q E (m s)

  pub carry-Post :
      {A B : Type 0} (f : A → Exec S B) (Q : A → V → Type 0) (R : B → V → Type 0)
      (E : Err → V → Type 0)
      → ((a : A) (v : V) → Q a v → Wp (f a) v R E)
      → (o : Result A × S) → Post Q E o
      → Post R E (carry_on f o)
  carry-Post f Q R E k (ok a, s) h = (k a (view s) h).at s refl
  carry-Post f Q R E k (err e, s) h = h

  pub recover-Post :
      {A : Type 0} (f : Err → Exec S A) (Q : A → V → Type 0) (D E : Err → V → Type 0)
      → ((e : Err) (v : V) → D e v → Wp (f e) v Q E)
      → (o : Result A × S) → Post Q D o
      → Post Q E (recover f o)
  recover-Post f Q D E k (ok a, s) h = h
  recover-Post f Q D E k (err e, s) h = (k e (view s) h).at s refl

  module _ {A B : Type 0} {Q : A → V → Type 0} {R : B → V → Type 0} {E : Err → V → Type 0} where
    pub Wp-bind :
        {m : Exec S A} {f : A → Exec S B} {v : V}
        → Wp m v Q E
        → ((a : A) (w : V) → Q a w → Wp (f a) w R E)
        → Wp (m >>= f) v R E
    unfolding ◌>>=◌
    Wp-bind {m} {f} h k = record { at = λ s p. carry-Post f Q R E k (m s) (h.at s p) }

  module _ {A : Type 0} {Q : A → V → Type 0} {D E : Err → V → Type 0} where
    pub Wp-otherwise :
        {m : Exec S A} {f : Err → Exec S A} {v : V}
        → Wp m v Q D
        → ((e : Err) (w : V) → D e w → Wp (f e) w Q E)
        → Wp (m otherwise f) v Q E
    unfolding ◌otherwise◌
    Wp-otherwise {m} {f} h k = record { at = λ s p. recover-Post f Q D E k (m s) (h.at s p) }

  weaken-Post :
      {A : Type 0} (Q R : A → V → Type 0) (D E : Err → V → Type 0)
      → ((a : A) (w : V) → Q a w → R a w)
      → ((e : Err) (w : V) → D e w → E e w)
      → (o : Result A × S) → Post Q D o
      → Post R E o
  weaken-Post Q R D E f g (ok a, s) h = f a (view s) h
  weaken-Post Q R D E f g (err e, s) h = g e (view s) h

  module _ {A : Type 0} {Q R : A → V → Type 0} {D E : Err → V → Type 0} where
    pub Wp-weaken :
        {m : Exec S A} {v : V}
        → Wp m v Q D
        → ((a : A) (w : V) → Q a w → R a w)
        → ((e : Err) (w : V) → D e w → E e w)
        → Wp m v R E
    Wp-weaken {m} h f g = record { at = λ s p. weaken-Post Q R D E f g (m s) (h.at s p) }

  both-Post :
      {A : Type 0} (P : V → Type 0) (o : Result A × S)
      → P (view o.1)
      → Post (λ a w. P w) (λ e w. P w) o
  both-Post P (ok a, s) h = h
  both-Post P (err e, s) h = h

  Post_both :
      {A : Type 0} (P : V → Type 0) (o : Result A × S)
      → Post (λ a w. P w) (λ e w. P w) o
      → P (view o.1)
  Post_both P (ok a, s) h = h
  Post_both P (err e, s) h = h

  post_ok :
      {A : Type 0} (Q : A → V → Type 0) (E : Err → V → Type 0) (o : Result A × S) {a : A}
      → Post Q E o
      → o.0 ≡ ok a
      → Q a (view o.1)
  post_ok Q E (ok b, s) h p = subst (λ x. Q x (view s)) (ok_eq p) h
  post_ok Q E (err e, s) h p = cc

  module _ {A : Type 0} {P : V → Type 0} where
    -- The same outcome on success and on failure, and the plain statement.
    pub Wp_of_both :
        {m : Exec S A} {v : V}
        → ((s : S) → view s ≡ v → P (view (m s).1))
        → Wp m v (λ a w. P w) (λ e w. P w)
    Wp_of_both {m} h = record { at = λ s p. both-Post P (m s) (h s p) }

    pub both_of_Wp :
        {m : Exec S A} (s : S) → Wp m (view s) (λ a w. P w) (λ e w. P w) → P (view (m s).1)
    both_of_Wp {m} s h = Post_both P (m s) (h.at s refl)

  and-Post :
      {A : Type 0} (P : V → Type 0) (Q : A → V → Type 0) (E : Err → V → Type 0) (o : Result A × S)
      → P (view o.1)
      → Post Q E o
      → Post (λ a w. P w × Q a w) (λ e w. P w × E e w) o
  and-Post P Q E (ok a, s) p h = (p, h)
  and-Post P Q E (err e, s) p h = (p, h)

  module _ {A : Type 0} {P : V → Type 0} {Q : A → V → Type 0} {E : Err → V → Type 0} where
    -- What holds of every outcome, added to what holds of each.
    pub Wp_and :
        {m : Exec S A} {v : V}
        → ((s : S) → view s ≡ v → P (view (m s).1))
        → Wp m v Q E
        → Wp m v (λ a w. P w × Q a w) (λ e w. P w × E e w)
    Wp_and {m} f h = record { at = λ s p. and-Post P Q E (m s) (f s p) (h.at s p) }

  module _ {A : Type 0} {Q : A → V → Type 0} {E : Err → V → Type 0} where
    pub ok_of_Wp :
        {m : Exec S A} {a : A} (s : S) → Wp m (view s) Q E → (m s).0 ≡ ok a → Q a (view (m s).1)
    ok_of_Wp {m} s h p = post_ok Q E (m s) (h.at s refl) p

  ok-Post :
      {A : Type 0} (Q : A → V → Type 0) (o : Result A × S)
      → ((a : A) → o.0 ≡ ok a → Q a (view o.1))
      → Post Q (λ e w. Unit {0}) o
  ok-Post Q (ok a, s) h = h a refl
  ok-Post Q (err e, s) h = tt

  module _ {A : Type 0} {Q : A → V → Type 0} where
    -- What a success shows, where nothing is said of an error.
    pub Wp_of_ok :
        {m : Exec S A} {v : V}
        → ((s : S) (a : A) → view s ≡ v → (m s).0 ≡ ok a → Q a (view (m s).1))
        → Wp m v Q (λ e w. Unit {0})
    Wp_of_ok {m} h = record { at = λ s p. ok-Post Q (m s) (λ a e. h s a p e) }
