-- ===== src/QrxCore/Live.antt =====
-- agent/updates/qrx_core.go: where a switch or an update of QRX Core leaves the active version and the
-- releases on disk.
use qrx_node_suite.Prelude.{
  ℕ, ◌≡◌, ◌⊎◌, inl, inr, refl, sym, ◌∙◌, String, Bool, true, false, Option, none, some,
  if◌then◌else◌, ◌==◌, Bool-cases,
}
use mathlib.Core.Path.{subst}
use qrx_node_suite.Errors.{Result, ok, err, core_validation_failed, io_failure}
use qrx_node_suite.Exec.{Exec, ◌>>=◌, ◌>>◌, fail, ignoring, done}
use qrx_node_suite.Exec.Wp.{Wp, Post, Wp-weaken, Wp_and}
use qrx_node_suite.Store.{Store, Disk, promote_version}
use qrx_node_suite.Store.Live.{IsLive, Active, promote_version-IsLive}
use qrx_node_suite.Store.Prune.{prune}
use qrx_node_suite.Store.Reliable.{prune-Active}
use qrx_node_suite.Store.Switch.{Moved, promote_version-Moved}
use qrx_node_suite.World.{
  World, on_store, insert, shown, audit, tick, HistoryRecord, status_succeeded,
}
use qrx_node_suite.World.Ends.{
  View, view, Frames, Frames-bind, Frames-weaken, outside-Frames, insert-Frames, done-Frames,
  fail-Frames, guard-Frames, audit-Frames, Any, then_frames,
}
use qrx_node_suite.World.OnDisk.{OnDisk, stored, still, stuck, ignored, next, weaker, attempted}
use qrx_node_suite.QrxCore.{
  QrxCoreUpdateManager, QrxCoreHealth, is_healthy, call_if, probe_or_unavailable, validate,
  start_and_validate, swap_back, rollback_binary, stop_and_activate, commit, activate_and_validate,
  retained, row,
}

-- The active version is the one before or the target, and live.
pub record Between (cur : Option String) (target : String) (d : Disk) : Type 0 where
  pub live : IsLive d
  pub between : (d.current ≡ cur) ⊎ (d.current ≡ some target)

call-Frames : (b : Bool) {v : View} → Frames (call_if b) v Any
unfolding call_if
call-Frames true = outside-Frames
call-Frames false = Frames-weaken (done-Frames tt) (λ a p. tt)

shown-some : (cur : Option String) → (shown cur == "") ≡ false → cur ≡ some (shown cur)
shown-some none h = cc
shown-some (some v) h = refl

-- A switch of the active pointer to a version.
promoted :
    (v : String) {d : Disk}
    → IsLive d
    → Wp
        (λ (s : Store). s.disk)
        (promote_version v)
        d
        (λ a u. Active v u)
        (λ e u. IsLive u × Moved v d u)
promoted v l =
    Wp-weaken _
      (Wp_and _ {P = IsLive} (λ s p. promote_version-IsLive v s (subst IsLive (sym p) l))
        (promote_version-Moved v))
      (λ a u q. record { live = q.0; on_version = q.1 }) (λ e u q. q)

module _ (m : QrxCoreUpdateManager) where
  -- The probe is set, and gave this answer at some time.
  pub record Probed (h : QrxCoreHealth) : Type 0 where
    pub ask : ℕ → Result QrxCoreHealth
    pub is_set : m.probe ≡ some ask
    pub time : ℕ
    pub answer : ask time ≡ ok h

  -- The probe is set, and answered that the node is healthy.
  pub record Healthy : Type 0 where
    pub health : QrxCoreHealth
    pub probed : Probed health
    pub healthy : is_healthy health ≡ true

  probe-Frames : {v : View} → Frames (probe_or_unavailable m) v (λ h. Probed h)
  unfolding probe_or_unavailable
  probe-Frames {v} = record { ends = record { at = λ s p. go m.probe s p refl } }
    where
      answered :
          (f : ℕ → Result QrxCoreHealth) (n : ℕ) (s : World) (r : Result QrxCoreHealth)
          → view s ≡ v
          → m.probe ≡ some f
          → f n ≡ r
          → Post (λ (w : World). view w) (λ a u. (u ≡ v) × Probed a) (λ e u. u ≡ v) (r, s)
      answered f n s (ok h) p q e = (p, record { ask = f; is_set = q; time = n; answer = e })
      answered f n s (err d) p q e = p

      go :
          (o : Option (ℕ → Result QrxCoreHealth)) (s : World)
          → view s ≡ v
          → m.probe ≡ o
          → Post
              (λ (w : World). view w)
              (λ a u. (u ≡ v) × Probed a)
              (λ e u. u ≡ v)
              (elim o as (λ k. Result QrxCoreHealth × World) [
                | none ↦ (err io_failure, s)
                | some f ↦ (f s.ticks, tick s)
              ])
      go none s p q = p
      go (some f) s p q = answered f s.ticks (tick s) (f s.ticks) p q refl

  validate-Frames : {v : View} → Frames (validate m) v (λ a. Healthy)
  unfolding validate
  validate-Frames = Frames-bind _ probe-Frames λ h p.
      Frames-weaken (guard-Frames (is_healthy h) core_validation_failed)
        (λ a q. record { health = h; probed = p; healthy = q })

  start-Frames :
      (target from : String) {v : View} → Frames (start_and_validate m target from) v (λ a. Healthy)
  unfolding start_and_validate
  start-Frames target from = Frames-bind _ (call-Frames m.has_start) (λ a p. validate-Frames)

  module _ (cur : Option String) (target : String) where
    Active-Between : {d : Disk} → Active target d → Between cur target d
    Active-Between a = record { live = a.live; between = inr a.on_version }

    -- A step that does not touch the disk, after the switch.
    calm :
        {A : Type 0} {x : Exec World A} {P : A → Type 0} {v : View}
        → Frames x v P
        → Active target v.1
        → OnDisk x v (Active target) (Between cur target)
    calm h k = weaker (still h k) (λ d q. q) (λ d q. Active-Between q)

    commit-OnDisk :
        {v : View}
        → Active target v.1
        → OnDisk (commit m target (shown cur)) v (Active target) (Between cur target)
    unfolding commit
    commit-OnDisk {v = v} k = next _ pruned λ a u k1. next _ (calm (insert-Frames _) k1) λ id u2 k2.
        next (λ z. done (row m (shown cur) target status_succeeded false)) (calm audit-Frames k2)
          λ b u3 k3. calm (done-Frames _) k3
      where
        pruned :
            OnDisk (ignoring (on_store (prune (retained m)))) v (Active target) (Between cur target)
        pruned =
            weaker (ignored (stored (prune-Active (retained m) target k))) (λ d q. q)
              (λ d q. Active-Between q)

    onward :
        (x y z : Option String)
        → (x ≡ y) ⊎ (x ≡ some target)
        → (y ≡ z) ⊎ (y ≡ some target)
        → (x ≡ z) ⊎ (x ≡ some target)
    onward x y z (inl p) (inl r) = inl (p ∙ r)
    onward x y z (inl p) (inr r) = inr (p ∙ r)
    onward x y z (inr p) r = inr p

    back-Between :
        {d : Disk} {u : Disk}
        → cur ≡ some (shown cur)
        → Between cur target d
        → IsLive u × Moved (shown cur) d u
        → Between cur target u
    back-Between {d} {u} c b q = record { live = q.0; between = go q.1.moved b.between }
      where
        go :
            (u.current ≡ d.current) ⊎ (u.current ≡ some (shown cur))
            → (d.current ≡ cur) ⊎ (d.current ≡ some target)
            → (u.current ≡ cur) ⊎ (u.current ≡ some target)
        go (inl p) (inl r) = inl (p ∙ r)
        go (inl p) (inr r) = inr (p ∙ r)
        go (inr p) r = inl (p ∙ sym c)

    promote_back :
        {v : View}
        → cur ≡ some (shown cur)
        → Between cur target v.1
        → OnDisk
            (on_store (promote_version (shown cur)))
            v
            (Between cur target)
            (Between cur target)
    promote_back c b = stored (
        Wp-weaken _ (promoted (shown cur) b.live)
          (λ a u q. record { live = q.live; between = inl (q.on_version ∙ sym c) })
          (λ e u q. back-Between c b q))

    swap_back-OnDisk :
        {v : View}
        → cur ≡ some (shown cur)
        → Between cur target v.1
        → OnDisk (swap_back m (shown cur)) v (Between cur target) (Between cur target)
    unfolding swap_back
    swap_back-OnDisk c b =
        next _ (promote_back c b)
          λ a u k. still (Frames-bind _ (call-Frames m.has_stop) (λ z p. call-Frames m.has_start)) k

    way_back :
        {v : View}
        → Between cur target v.1
        → OnDisk
            (if shown cur == "" then done tt else ignoring (swap_back m (shown cur)))
            v
            (Between cur target)
            (Between cur target)
    way_back b = elim (Bool-cases (shown cur == "")) [
      | inl y ↦ rw y (still (done-Frames tt) b)
      | inr n ↦ rw n (ignored (swap_back-OnDisk (shown-some cur n) b))
    ]

    noted-Frames :
        {P : HistoryRecord → Type 0} (r : HistoryRecord) {v : View}
        → Frames (do id ← insert r; audit; fail core_validation_failed) v P
    noted-Frames r = Frames-bind _ (insert-Frames r) λ id p.
        Frames-bind (λ z. fail core_validation_failed) audit-Frames
          (λ b q. fail-Frames core_validation_failed)

    rollback-OnDisk :
        {R : Disk → Type 0} {v : View}
        → Between cur target v.1
        → OnDisk (rollback_binary m target (shown cur)) v R (Between cur target)
    unfolding rollback_binary
    rollback-OnDisk b = next _ (way_back b) (λ a u k. stuck (noted-Frames _) k)

    activated :
        {v : View}
        → Between cur target v.1
        → OnDisk (on_store (promote_version target)) v (Active target) (Between cur target)
    activated {v = v} b = stored (
        Wp-weaken _ (promoted target b.live) (λ a u q. q)
          (λ e u q. record {
            live = q.0;
            between = onward u.current v.1.current cur q.1.moved b.between;
          }))

    -- StopCore, then the pointer if the caller has not moved it.
    stop-OnDisk :
        (is_switch : Bool) {v : View}
        → Between cur target v.1
        → (is_switch ≡ true) ⊎ (v.1.current ≡ some target)
        → OnDisk (stop_and_activate m target is_switch) v (Active target) (Between cur target)
    unfolding stop_and_activate
    stop-OnDisk is_switch {v} b h = record {
      ends = then_frames _ (call-Frames m.has_stop) (λ e. b) (λ a p. (go is_switch h).ends);
    }
      where
        go :
            (x : Bool)
            → (x ≡ true) ⊎ (v.1.current ≡ some target)
            → OnDisk
                (if x then on_store (promote_version target) else done tt)
                v
                (Active target)
                (Between cur target)
        go true i = activated b
        go false (inl i) = cc
        go false (inr i) = calm (done-Frames tt) (record { live = b.live; on_version = i })

    pub activate-OnDisk :
        (is_switch : Bool) {v : View}
        → Between cur target v.1
        → (is_switch ≡ true) ⊎ (v.1.current ≡ some target)
        → OnDisk
            (activate_and_validate m target (shown cur) is_switch)
            v
            (λ d. Active target d × Healthy)
            (Between cur target)
    unfolding activate_and_validate
    activate-OnDisk is_switch b h = next _ (stop-OnDisk is_switch b h) λ a u k.
        attempted _ (start-Frames target (shown cur))
          (λ z healthy. weaker (commit-OnDisk k) (λ d q. (q, healthy)) (λ d q. q))
          (λ e. rollback-OnDisk (Active-Between k))
