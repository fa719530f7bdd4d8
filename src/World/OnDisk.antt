-- ===== src/World/OnDisk.antt =====
-- Where an action ends, by what it leaves on the disk of the component's store.
use qrx_node_suite.Prelude.{sym, Option, none, some}
use mathlib.Core.Path.{subst}
use qrx_node_suite.Errors.{Err}
use qrx_node_suite.Exec.{Exec, ◌>>=◌, ◌otherwise◌, ignoring, attempt}
use qrx_node_suite.Exec.Wp.{Wp, Wp-bind, Wp-otherwise, Wp-weaken, Wp_of_both, both_of_Wp}
use qrx_node_suite.Policy.{Settings}
use qrx_node_suite.Store.{Store, Disk}
use qrx_node_suite.World.{World, on_store, sets}
use qrx_node_suite.World.Ends.{View, Ends, Ends-eq, Frames, then_attempt, on_store_ends, sets_ends}

-- Success leaves a disk with `Q`, an error one with `E`.
pub record OnDisk {A : Type 0} (m : Exec World A) (v : View) (Q E : Disk → Type 0) : Type 0 where
  pub ends : Ends m v (λ a u. Q u.1) (λ e u. E u.1)

module _ {A : Type 0} {v : View} {Q E : Disk → Type 0} where
  pub stored :
      {m : Exec Store A}
      → Wp (λ (s : Store). s.disk) m v.1 (λ a d. Q d) (λ e d. E d)
      → OnDisk (on_store m) v Q E
  stored h = record { ends = Wp-weaken _ (on_store_ends h) (λ a u q. q.1) (λ e u q. q.1) }

module _ {A : Type 0} {v : View} {Q : Disk → Type 0} where
  pub still : {P : A → Type 0} {m : Exec World A} → Frames m v P → Q v.1 → OnDisk m v Q Q
  still h q = record {
    ends =
        Wp-weaken _ h.ends (λ a u p. subst (λ (x : View). Q x.1) (sym p.0) q)
          (λ e u p. subst (λ (x : View). Q x.1) (sym p) q);
  }

  pub stuck :
      {R : Disk → Type 0} {m : Exec World A} → Frames m v (λ a. R v.1) → Q v.1 → OnDisk m v R Q
  stuck {R = R} h q = record {
    ends =
        Wp-weaken _ h.ends (λ a u p. subst (λ (x : View). R x.1) (sym p.0) p.1)
          (λ e u p. subst (λ (x : View). Q x.1) (sym p) q);
  }

  pub ignored : {m : Exec World A} → OnDisk m v Q Q → OnDisk (ignoring m) v Q Q
  unfolding ignoring
  ignored {m} h = record {
    ends =
        Wp_of_both _ {P = λ (u : View). Q u.1}
          λ s p. both_of_Wp _ {P = λ (u : View). Q u.1} {m = m} s (Ends-eq p h.ends);
  }

pub setting :
    (f : Settings → Settings) {v : View} {Q : Disk → Type 0} → Q v.1 → OnDisk (sets f) v Q Q
setting f {v} {Q} q = record {
  ends =
      Wp-weaken _ (sets_ends f) (λ a u p. subst Q (sym p) q)
        (λ e u p. subst (λ (x : View). Q x.1) (sym p) q);
}

module _ {A B : Type 0} {v : View} {Q R E : Disk → Type 0} where
  pub next :
      {m : Exec World A} (f : A → Exec World B)
      → OnDisk m v Q E
      → ((a : A) (u : View) → Q u.1 → OnDisk (f a) u R E)
      → OnDisk (m >>= f) v R E
  next f h k = record { ends = Wp-bind _ h.ends (λ a u q. (k a u q).ends) }

module _ {A : Type 0} {v : View} {Q D E : Disk → Type 0} where
  pub handled :
      {m : Exec World A} (f : Err → Exec World A)
      → OnDisk m v Q D
      → ((e : Err) (u : View) → D u.1 → OnDisk (f e) u Q E)
      → OnDisk (m otherwise f) v Q E
  handled f h k = record { ends = Wp-otherwise _ h.ends (λ e u q. (k e u q).ends) }

  pub weaker :
      {R : Disk → Type 0} {m : Exec World A}
      → OnDisk m v Q D
      → ((d : Disk) → Q d → R d)
      → ((d : Disk) → D d → E d)
      → OnDisk m v R E
  weaker h f g = record { ends = Wp-weaken _ h.ends (λ a u q. f u.1 q) (λ e u q. g u.1 q) }

-- An attempt that leaves the view alone, in front of what its outcome decides.
pub attempted :
    {A B : Type 0} {v : View} {P : A → Type 0} {R E : Disk → Type 0} {m : Exec World A}
    (f : Option Err → Exec World B)
    → Frames m v P
    → ((a : A) → P a → OnDisk (f none) v R E)
    → ((e : Err) → OnDisk (f (some e)) v R E)
    → OnDisk (attempt m >>= f) v R E
attempted f h good bad = record {
  ends = then_attempt f h (λ a p. (good a p).ends) (λ e. (bad e).ends);
}
