-- ===== src/World/Yields.antt =====
-- What an action returns where no call fails: a rule for each step that writes nothing here.
use qrx_node_suite.Prelude.{ℕ, ◌+◌, ◌≡◌, ◌∙◌, refl, sym, ap, Bool, true, false, Option, none}
use mathlib.Core.Path.{subst}
use qrx_node_suite.Errors.{Err, Result, ok, err}
use qrx_node_suite.Exec.{Exec, ◌>>=◌, carry_on, guard, done}
use qrx_node_suite.Exec.Wp.{ok_eq}
use qrx_node_suite.Policy.{Settings}
use qrx_node_suite.Store.{
  Pointer, pointer, pointer_current, pointer_previous, read_pointer, read_current, read_previous,
  is_valid_component, validate, syscall,
}
use qrx_node_suite.World.{World, outside, on_store, asks, check}
use qrx_node_suite.World.Ends.{View, view}

-- No call fails, and the store has a component of its own.
pub record IsWorking (w : World) : Type 0 where
  pub calls_work : (n : ℕ) → w.fails n ≡ false
  pub store_works : (n : ℕ) → w.store.fails n ≡ false
  pub has_component : is_valid_component w.store.component ≡ true

abbrev pub Yielded : {A : Type 0} → View → A → Result A × World → Type 0
Yielded v a x = (x.0 ≡ ok a) × (view x.1 ≡ v) × IsWorking x.1

-- From every working state with this view, the action returns `a` and leaves another such state.
pub record Yields {A : Type 0} (m : Exec World A) (v : View) (a : A) : Type 0 where
  pub at : (s : World) → view s ≡ v → IsWorking s → Yielded v a (m s)

module _ {A B : Type 0} {v : View} {a : A} {b : B} where
  carried :
      (f : A → Exec World B)
      → Yields (f a) v b
      → (x : Result A × World) → Yielded v a x
      → Yielded v b (carry_on f x)
  carried f k (ok c, t) (e, q, n) = subst (λ y. Yielded v b (f y t)) (sym (ok_eq e)) (k.at t q n)
  carried f k (err c, t) (e, q, n) = cc

  pub Yields-bind :
      {m : Exec World A} (f : A → Exec World B)
      → Yields m v a
      → Yields (f a) v b
      → Yields (m >>= f) v b
  unfolding ◌>>=◌
  Yields-bind {m} f h k = record { at = λ s p n. carried f k (m s) (h.at s p n) }

ticked : (s : World) → IsWorking s → IsWorking (record s { ticks = s.ticks + 1 })
ticked s n = record {
  calls_work = n.calls_work;
  store_works = n.store_works;
  has_component = n.has_component;
}

store_ticked :
    (s : World)
    → IsWorking s
    → IsWorking (record s { store = record s.store { ticks = s.store.ticks + 1 } })
store_ticked s n = record {
  calls_work = n.calls_work;
  store_works = n.store_works;
  has_component = n.has_component;
}

pub outside-Yields : {v : View} → Yields outside v tt
unfolding outside
outside-Yields = record { at = λ s p n. rw (n.calls_work s.ticks) (refl, p, ticked s n) }

pub asks-Yields :
    {A : Type 0} (f : Settings → Result A) {v : View} {a : A} → f v.0 ≡ ok a → Yields (asks f) v a
unfolding asks
asks-Yields f h = record {
  at = λ s p n. rw (n.calls_work s.ticks) (ap (λ (x : View). f x.0) p ∙ h, p, ticked s n);
}

pub guard-Yields : (b : Bool) (e : Err) {v : View} → b ≡ true → Yields (guard b e) v tt
unfolding guard
guard-Yields true e h = record { at = λ s p n. (refl, p, n) }
guard-Yields false e h = cc

pub check-Yields : (o : Option Err) {v : View} → o ≡ none → Yields (check o) v tt
unfolding check
check-Yields o h = record { at = λ s p n. rw h (refl, p, n) }

pub done-Yields : {A : Type 0} {a b : A} {v : View} → a ≡ b → Yields (done a) v b
done-Yields h = record { at = λ s p n. (ap ok h, p, n) }

read-Yields : (p : Pointer) {v : View} → Yields (on_store (read_pointer p)) v (pointer p v.1)
unfolding on_store read_pointer validate syscall guard ◌>>=◌
read-Yields p = record {
  at = λ s q n.
      rw (n.has_component, n.store_works s.store.ticks)
        (ap (λ (x : View). ok (pointer p x.1)) q, q, store_ticked s n);
}

pub current-Yields : {v : View} → Yields (on_store read_current) v v.1.current
unfolding read_current
current-Yields = read-Yields pointer_current

pub previous-Yields : {v : View} → Yields (on_store read_previous) v v.1.previous
unfolding read_previous
previous-Yields = read-Yields pointer_previous
