-- ===== src/World/Turns.antt =====
-- Where an action ends, by what the settings and the disk show before it and after it.
use qrx_node_suite.Prelude.{sym}
use mathlib.Core.Path.{subst}
use qrx_node_suite.Errors.{Err}
use qrx_node_suite.Exec.{Exec, ◌>>=◌, ◌otherwise◌, ignoring}
use qrx_node_suite.Exec.Wp.{Wp-bind, Wp-otherwise, Wp-weaken, Wp_of_both, both_of_Wp}
use qrx_node_suite.Policy.{Settings}
use qrx_node_suite.World.{World, sets}
use qrx_node_suite.World.Ends.{View, Ends, Ends-eq, Frames, sets_exact}

-- From every view with `P`, success leaves one with `Q` and an error one with `E`.
pub record Turns {A : Type 0} (P Q E : View → Type 0) (m : Exec World A) : Type 0 where
  pub ends : (v : View) → P v → Ends m v (λ a u. Q u) (λ e u. E u)

pub Turns-frames :
    {A : Type 0} {P : View → Type 0} {R : A → Type 0} {m : Exec World A}
    → ((v : View) → Frames m v R)
    → Turns P P P m
Turns-frames {P = P} h = record {
  ends = λ v p. Wp-weaken _ (h v).ends (λ a u q. subst P (sym q.0) p) (λ e u q. subst P (sym q) p);
}

-- A step that cannot succeed.
pub Turns-fails :
    {A : Type 0} {P Q : View → Type 0} {m : Exec World A}
    → ((v : View) → Frames m v (λ a. Q v))
    → Turns P Q P m
Turns-fails {P = P} {Q = Q} h = record {
  ends =
      λ v p. Wp-weaken _ (h v).ends (λ a u q. subst Q (sym q.0) q.1) (λ e u q. subst P (sym q) p);
}

module _ {A B : Type 0} {P Q R E : View → Type 0} where
  pub Turns-bind :
      {m : Exec World A} {f : A → Exec World B}
      → Turns P Q E m
      → ((a : A) → Turns Q R E (f a))
      → Turns P R E (m >>= f)
  Turns-bind h k = record { ends = λ v p. Wp-bind _ (h.ends v p) (λ a u q. (k a).ends u q) }

module _ {A : Type 0} {P Q D E : View → Type 0} where
  pub Turns-otherwise :
      {m : Exec World A} {f : Err → Exec World A}
      → Turns P Q D m
      → ((e : Err) → Turns D Q E (f e))
      → Turns P Q E (m otherwise f)
  Turns-otherwise h k = record {
    ends = λ v p. Wp-otherwise _ (h.ends v p) (λ e u q. (k e).ends u q);
  }

  pub Turns-weaken :
      {m : Exec World A} {R : View → Type 0}
      → Turns P Q D m
      → ((u : View) → Q u → R u)
      → ((u : View) → D u → E u)
      → Turns P R E m
  Turns-weaken h f g = record {
    ends = λ v p. Wp-weaken _ (h.ends v p) (λ a u q. f u q) (λ e u q. g u q);
  }

module _ {A : Type 0} {P : View → Type 0} where
  pub Turns-ignoring : {m : Exec World A} → Turns P P P m → Turns P P P (ignoring m)
  unfolding ignoring
  Turns-ignoring {m} h = record {
    ends = λ v p.
        Wp_of_both _ {P = P} {m = ignoring m}
          λ s q. both_of_Wp _ {P = P} {m = m} s (Ends-eq q (h.ends v p));
  }

pub Turns-sets :
    {P : View → Type 0} (f : Settings → Settings)
    → ((v : View) → P v → P (f v.0, v.1))
    → Turns P P P (sets f)
Turns-sets {P = P} f h = record {
  ends = λ v p.
      Wp-weaken _ (sets_exact f) (λ a u q. subst P (sym q) (h v p)) (λ e u q. subst P (sym q) p);
}
