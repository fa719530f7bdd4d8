-- ===== src/Poller/Serving.antt =====
-- agent/cmd/agentd/poller.go: what a healthy state in the cache says about the tick that left it.
use qrx_node_suite.Prelude.{◌≡◌, refl, sym, ◌∙◌, true, Option, none, some}
use qrx_node_suite.Guardian.{health_healthy}
use qrx_node_suite.Guardian.Healthy.{evaluate_healthy}
use qrx_node_suite.Node.{Models, Answer, answered, failed, NodeStatus, Snapshot, Adapter}
use qrx_node_suite.Poller.{
  Settings, Tick, Poller, keep_node, collect, polled, adapter_healthy, core_running, measured,
  gathered, signals, tick,
}

-- The adapter that is active answered that the node is online, and called itself healthy.
abbrev pub IsServing : {m : Models} → Option (Adapter m) → Type 0
IsServing {m} o =
    (a : Adapter m) × (o ≡ some a)
    × ((s : NodeStatus m) × (a.get_node_status ≡ answered s) × (s.online ≡ true))
    × (a.is_healthy ≡ true)

online_answer :
    {m : Models} (x : Answer (NodeStatus m)) (prev : NodeStatus m)
    → (keep_node x prev).online ≡ true
    → (s : NodeStatus m) × (x ≡ answered s) × (s.online ≡ true)
online_answer (answered s) prev e = (s, refl, e)
online_answer (failed t) prev e = cc

polled-IsServing :
    {m : Models} (o : Option (Adapter m)) (prev snap : Snapshot m)
    → (polled o prev snap).node.online ≡ true
    → adapter_healthy o ≡ true
    → IsServing o
unfolding polled collect
polled-IsServing none prev snap e h = cc
polled-IsServing (some a) prev snap e h = (a, refl, online_answer a.get_node_status prev.node e, h)

measured-node :
    {m : Models} (o : Option (m.SystemStatus)) (s : Snapshot m)
    → (measured o s).node.online ≡ s.node.online
measured-node none s = refl
measured-node (some x) s = refl

-- Where a tick leaves a healthy state in the cache, the core was running, the active adapter answered
-- GetNodeStatus in this tick with a node that is online, and its Health reported no error.
pub tick-IsServing :
    {m : Models} (c : Settings m) (t : Tick m) (p : Poller m)
    → (tick c t p).1.cache.health ≡ health_healthy
    → (core_running t.core_process_running t.active ≡ true) × IsServing t.active
unfolding tick gathered signals
tick-IsServing c t p e =
    let snap = gathered c t p.cache in
    let given = record (c.empty) { updated_at = t.started } in
    let r = evaluate_healthy c.guardian _ t.classified t.restarted p.guardian e in
    (
      r.0,
      polled-IsServing t.active p.cache given
          (sym (measured-node t.collect (polled t.active p.cache given)) ∙ r.1) r.2,
    )
