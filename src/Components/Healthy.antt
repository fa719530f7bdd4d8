-- ===== src/Components/Healthy.antt =====
-- agent/updates/components/adapter.go: what a health check that passes has looked at.
use qrx_node_suite.Prelude.{
  ◌≡◌, ◌≢◌, ◌⊎◌, inl, inr, refl, sym, ap, ◌∙◌, String, Bool, true, false, not, ◌&&◌, ◌==◌, eq_iff,
  if◌then◌else◌, Option, none, some, length,
}
use mathlib.Core.Path.{subst}
use qrx_node_suite.Errors.{Err, ok, err, restart_missed, io_failure}
use qrx_node_suite.Exec.{guard}
use qrx_node_suite.Exec.Went.{bind-Went, guard-bind, reads-bind, guard-ok}
use qrx_node_suite.Exec.Wp.{Wp-bind, ok_of_Wp}
use qrx_node_suite.Store.{Store, Disk, names}
use qrx_node_suite.Store.Steps.{Ends, read_current_ends}
use qrx_node_suite.Version.Matrix.{lookup}
use qrx_node_suite.Adapters.{Registry, Call, call, call_health, active_name, disables}
use qrx_node_suite.Components.{
  Host, on_store, on_registry, AdapterComponent, agent_health_check, adapter_health_check, refused,
}

names-some : (o : Option String) (v : String) → names o v ≡ true → o ≡ some v
names-some none v h = cc
names-some (some w) v h = ap some ((eq_iff w v).0 h)

guard-Ends :
    {d : Disk} (b : Bool) (e : Err) → Ends (guard b e) d (λ a w. b ≡ true) (λ e w. Unit {0})
unfolding guard
guard-Ends true e = record { at = λ s p. refl }
guard-Ends false e = record { at = λ s p. tt }

agent-Ends :
    {d : Disk} (v : String)
    → Ends (agent_health_check v) d (λ a w. names d.current v ≡ true) (λ e w. Unit {0})
unfolding agent_health_check
agent-Ends {d} v = Wp-bind _ (read_current_ends (λ e. tt)) λ a w (p, q).
    subst
      (λ (x : Option String).
        Ends (guard (names x v) (restart_missed v)) w (λ b u. names d.current v ≡ true)
          (λ b u. Unit {0}))
      (sym q) (guard-Ends (names d.current v) (restart_missed v))

-- The version that runs is the store's current one.
pub agent_health_check-ok :
    (v : String) (s : Store) → (agent_health_check v s).0 ≡ ok tt → s.disk.current ≡ some v
agent_health_check-ok v s h = names-some _ v (ok_of_Wp _ s (agent-Ends v) h)

call-ok : (c : Call) (g : Registry) → (call c g).0 ≡ ok tt → g.fails (length g.calls) ≡ false
unfolding call
call-ok c g h = which (g.fails (length g.calls)) h
  where
    which : (b : Bool) → (if b then err io_failure else ok tt) ≡ ok tt → b ≡ false
    which true k = cc
    which false k = refl

refused-Either :
    (c : AdapterComponent) (g : Registry)
    → not (refused c g) ≡ true
    → (c.qrx_core_version ≡ "")
      ⊎ (disables
            (lookup c.matrix c.qrx_core_version c.adapter_name (g.version_of c.adapter_name)).1
          ≡ false)
unfolding refused
refused-Either c g h =
    which (c.qrx_core_version == "") (disables _) ((eq_iff c.qrx_core_version "").0) h
  where
    which : {P : Type 0} (a b : Bool) → (a ≡ true → P) → not (not a && b) ≡ true → P ⊎ (b ≡ false)
    which true b f k = inl (f refl)
    which false true f k = cc
    which false false f k = inr refl

-- What is so where the health check of an adapter's component passes.
pub record Healthy (c : AdapterComponent) (h : Host) : Type 0 where
  pub runs_current : h.store.disk.current ≡ some c.running_version
  pub is_active : h.registry.active ≡ c.adapter_name
  pub is_named : c.adapter_name ≢ ""
  pub answers : h.registry.fails (length h.registry.calls) ≡ false
  pub is_compatible :
      (c.qrx_core_version ≡ "")
      ⊎ (disables
            (lookup c.matrix c.qrx_core_version c.adapter_name
              (h.registry.version_of c.adapter_name)).1
          ≡ false)

-- Where the health check of an adapter's component passes, the store's current version was the running one,
-- the component's adapter was active and named, its Health reported no error, and the matrix, where the
-- version of QRX Core is known, does not call the combination unsupported or unknown.
pub adapter_health_check-Healthy :
    (c : AdapterComponent) (h : Host) → (adapter_health_check c h).0 ≡ ok tt → Healthy c h
unfolding adapter_health_check on_store on_registry active_name call
adapter_health_check-Healthy c h e =
    let w = bind-Went (on_store (agent_health_check c.running_version)) _ h e in
    let some_active = guard-bind _ _ _ _ (reads-bind _ _ _ w.rest) in
    let same = guard-bind _ _ _ _ some_active.1 in
    let asked = bind-Went (on_registry (call (call_health c.adapter_name))) _ _ same.1 in
    let is_active = (eq_iff h.registry.active c.adapter_name).0 same.0 in
    record {
      runs_current = agent_health_check-ok c.running_version h.store (w.first);
      is_active = is_active;
      is_named =
          named (h.registry.active == "") some_active.0
            (λ q. (eq_iff h.registry.active "").1 (is_active ∙ q));
      answers = call-ok (call_health c.adapter_name) h.registry asked.first;
      is_compatible = refused-Either c h.registry (guard-ok _ _ _ (reads-bind _ _ _ asked.rest));
    }
  where
    named : {P : Type 0} (b : Bool) → not b ≡ true → (P → b ≡ true) → P → ⊥
    named true n f p = cc
    named false n f p = let q = f p in cc
