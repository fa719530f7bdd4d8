-- ===== src/Updates/Live.antt =====
-- agent/updates/rollback.go: an operator's rollback never leaves a component without its releases.
use qrx_node_suite.Prelude.{String, Bool, true, false, Option, none, some, is_some, if◌then◌else◌}
use qrx_node_suite.Errors.{
  Err, Result, ok, err, no_rollback_target, start_failed, health_check_failed,
}
use qrx_node_suite.Exec.{Exec, carry_on, recover, ◌>>=◌, guard, done, fail, ignoring, ◌otherwise◌}
use qrx_node_suite.Store.{Store, read_current, read_previous, rollback_to_previous}
use qrx_node_suite.Store.Live.{
  IsLive, rollback_to_previous-IsLive, read_current-IsLive, read_previous-IsLive,
}
use qrx_node_suite.World.{World, HistoryRecord, outside, on_store, insert}
use qrx_node_suite.Updates.{
  Controller, current_or_none, record_rollback, rollback_self, rollback_managed, swap_back, stop_if,
  rollback_component,
}

-- Live releases stay live, whether the action fails or not.
pub record Keeps {A : Type 0} (m : Exec World A) : Type 0 where
  pub at : (w : World) → IsLive w.store.disk → IsLive (m w).1.store.disk

module _ {A B : Type 0} where
  Keeps-bind :
      (m : Exec World A) (f : A → Exec World B)
      → Keeps m
      → ((a : A) → Keeps (f a))
      → Keeps (m >>= f)
  unfolding ◌>>=◌
  Keeps-bind m f h k = record { at = λ w l. go (m w) (h.at w l) }
    where
      go : (o : Result A × World) → IsLive o.1.store.disk → IsLive (carry_on f o).1.store.disk
      go (ok a, u) p = (k a).at u p
      go (err e, u) p = p

Keeps-otherwise :
    {A : Type 0} (m : Exec World A) (f : Err → Exec World A)
    → Keeps m
    → ((e : Err) → Keeps (f e))
    → Keeps (m otherwise f)
unfolding ◌otherwise◌
Keeps-otherwise {A} m f h k = record { at = λ w l. go (m w) (h.at w l) }
  where
    go : (o : Result A × World) → IsLive o.1.store.disk → IsLive (recover f o).1.store.disk
    go (ok a, u) p = p
    go (err e, u) p = (k e).at u p

outside-Keeps : Keeps outside
unfolding outside
outside-Keeps = record { at = λ w l. l }

module _ {A : Type 0} (m : Exec Store A)
    (h : (s : Store) → IsLive s.disk → IsLive (m s).1.disk) where
  on_store-Keeps : Keeps (on_store m)
  unfolding on_store
  on_store-Keeps = record { at = λ w l. h w.store l }

ignoring-Keeps : {A : Type 0} (m : Exec World A) → Keeps m → Keeps (ignoring m)
unfolding ignoring
ignoring-Keeps m h = record { at = λ w l. h.at w l }

done-Keeps : {A : Type 0} (a : A) → Keeps (done a)
done-Keeps a = record { at = λ w l. l }

fail-Keeps : {A : Type 0} (e : Err) → Keeps {A = A} (fail e)
fail-Keeps e = record { at = λ w l. l }

guard-Keeps : (b : Bool) (e : Err) → Keeps (guard b e)
unfolding guard
guard-Keeps true e = record { at = λ w l. l }
guard-Keeps false e = record { at = λ w l. l }

stop-Keeps : (b : Bool) → Keeps (stop_if b)
stop-Keeps true = outside-Keeps
stop-Keeps false = record { at = λ w l. l }

back-Keeps : Keeps (on_store rollback_to_previous)
back-Keeps = on_store-Keeps rollback_to_previous rollback_to_previous-IsLive

current-Keeps : Keeps current_or_none
unfolding current_or_none
current-Keeps =
    Keeps-otherwise (on_store read_current) (λ e. done none)
      (on_store-Keeps read_current read_current-IsLive) (λ e. done-Keeps none)

insert-Keeps : (rec : HistoryRecord) → Keeps (insert rec)
unfolding insert
insert-Keeps rec = Keeps-bind outside _ outside-Keeps (λ a. record { at = λ w l. l })

record-Keeps : (rec : HistoryRecord) → Keeps (record_rollback rec)
unfolding record_rollback
record-Keeps rec = Keeps-bind (insert rec) _ (insert-Keeps rec) (λ a. record { at = λ w l. l })

swap_back-Keeps : (e : Err) → Keeps (swap_back e)
unfolding swap_back
swap_back-Keeps e =
    Keeps-bind (ignoring (on_store rollback_to_previous)) _ (ignoring-Keeps _ back-Keeps) λ a.
      Keeps-bind (ignoring outside) _ (ignoring-Keeps outside outside-Keeps)
        λ b. fail-Keeps (health_check_failed e)

self-Keeps : (component : String) (cur : Option String) → Keeps (rollback_self component cur)
unfolding rollback_self
self-Keeps component cur = Keeps-bind (on_store rollback_to_previous) _ back-Keeps λ a.
    Keeps-bind current_or_none _ current-Keeps
      λ new_cur. Keeps-bind (record_rollback _) _ (record-Keeps _) λ b. done-Keeps true

managed-Keeps :
    (ctrl : Controller) (component : String) (cur : Option String)
    → Keeps (rollback_managed ctrl component cur)
unfolding rollback_managed
managed-Keeps ctrl component cur =
    Keeps-bind (stop_if ctrl.requires_restart) _ (stop-Keeps ctrl.requires_restart) λ a.
      Keeps-bind (on_store rollback_to_previous) _ back-Keeps λ b.
        Keeps-bind current_or_none _ current-Keeps λ new_cur.
          Keeps-bind (outside otherwise λ e. fail (start_failed e)) _
            (Keeps-otherwise outside _ outside-Keeps (λ e. fail-Keeps (start_failed e)))
            λ c.
              Keeps-bind (outside otherwise swap_back) _
                (Keeps-otherwise outside swap_back outside-Keeps swap_back-Keeps)
                λ d. Keeps-bind (record_rollback _) _ (record-Keeps _) λ f. done-Keeps false

which-Keeps :
    (b : Bool) (ctrl : Controller) (component : String) (cur : Option String)
    → Keeps (if b then rollback_self component cur else rollback_managed ctrl component cur)
which-Keeps true ctrl component cur = self-Keeps component cur
which-Keeps false ctrl component cur = managed-Keeps ctrl component cur

-- An operator's rollback keeps the active version and the rollback target on disk, whichever call of
-- the store, the controller or the history fails, the swap back after a failed health check included.
pub rollback_component-IsLive :
    (ctrl : Option Controller) (component : String) (w : World)
    → IsLive w.store.disk
    → IsLive (rollback_component ctrl component w).1.store.disk
unfolding rollback_component
rollback_component-IsLive none component w l = l
rollback_component-IsLive (some ctrl) component w l =
    (Keeps-bind (on_store read_current) _ (on_store-Keeps read_current read_current-IsLive) λ cur.
        Keeps-bind (on_store read_previous) _ (on_store-Keeps read_previous read_previous-IsLive)
          λ prev.
            Keeps-bind (guard (is_some prev) no_rollback_target) _ (guard-Keeps _ _)
              λ a. which-Keeps ctrl.is_self_binary ctrl component cur).at
      w l
