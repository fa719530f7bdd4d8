-- ===== src/BootGuard/CrashLoop.antt =====
-- agent/updates/bootguard.go: how many failed boots lead to the forced rollback.
use qrx_node_suite.Prelude.{
  ℕ, zero, suc, ◌+◌, ◌≤◌, ◌<◌, ◌≡◌, refl, ap, ◌∙◌, String, Bool, true, false, none, some, leb,
  arith,
}
use qrx_node_suite.Errors.{ok}
use qrx_node_suite.Policy.{
  PendingSelfUpdate, number, pending, boot_attempts, pending_self_update, get, set, delete,
}
use qrx_node_suite.Policy.Laws.{get-set_self, get-set_ne, get-delete_self, get-delete_ne, boot_ne}
use qrx_node_suite.Store.{Store, rollback_to_previous}
use qrx_node_suite.World.{World}
use qrx_node_suite.BootGuard.{
  Outcome, check_and_record_attempt, effective_max_attempts, as_number, force, conclude, clear,
  report,
}

abbrev pub counter : String → World → ℕ
counter c w = as_number (get (boot_attempts c) w.settings)

-- Every call of the database succeeds.
abbrev pub IsReliable : World → Type 0
IsReliable w = (n : ℕ) → w.fails n ≡ false

le_leb : (a b : ℕ) → a ≤ b → leb a b ≡ true
le_leb a b h = ground arith

lt_leb : (a b : ℕ) → b < a → leb a b ≡ false
lt_leb a b h = ground arith

-- A boot within the limit: it is counted, and nothing else happens.
pub counted_boot :
    (max : ℕ) (c : String) (w : World)
    → IsReliable w
    → counter c w + 1 ≤ effective_max_attempts max
    → let (o, u) = check_and_record_attempt max c w in
      (o ≡ record { rolled_back = false; attempts = counter c w + 1; error = none })
      × (counter c u ≡ counter c w + 1)
      × (u.store ≡ w.store)
      × (u.fails ≡ w.fails)
      × (get (pending_self_update c) u.settings ≡ get (pending_self_update c) w.settings)
unfolding check_and_record_attempt
counted_boot max c w r h =
    let n = counter c w + 1 in
    rw (r w.ticks, r (w.ticks + 1), le_leb n (effective_max_attempts max) h)
      (
        refl,
        ap as_number (get-set_self (boot_attempts c) (number n) w.settings),
        refl,
        refl,
        get-set_ne (boot_attempts c) (pending_self_update c) (number n) w.settings (boot_ne c),
      )

-- The boot after the limit, with the marker of a self-update and a store that can be rolled back:
-- the store goes back to the previous version, and the marker and the counter are gone.
pub forced_boot :
    (max : ℕ) (c : String) (w : World) (p : PendingSelfUpdate)
    → IsReliable w
    → effective_max_attempts max < counter c w + 1
    → get (pending_self_update c) w.settings ≡ some (pending p)
    → (rollback_to_previous w.store).0 ≡ ok tt
    → let (o, u) = check_and_record_attempt max c w in
      (o ≡ record { rolled_back = true; attempts = counter c w + 1; error = none })
      × (u.store ≡ (rollback_to_previous w.store).1)
      × (counter c u ≡ 0)
      × (get (pending_self_update c) u.settings ≡ none)
unfolding check_and_record_attempt force conclude clear report
forced_boot max c w p r h m k =
    let n = counter c w + 1 in
    let s = set (boot_attempts c) (number n) w.settings in
    rw
      (
        r w.ticks,
        r (w.ticks + 1),
        lt_leb n (effective_max_attempts max) h,
        r (w.ticks + 1 + 1),
        get-set_ne (boot_attempts c) (pending_self_update c) (number n) w.settings (boot_ne c),
        m,
        k,
        r (w.ticks + 1 + 1 + 1),
        r (w.ticks + 1 + 1 + 1 + 1),
        r (w.ticks + 1 + 1 + 1 + 1 + 1),
      )
      (
        refl,
        refl,
        ap as_number (get-delete_self (boot_attempts c) (delete (pending_self_update c) s)),
        get-delete_ne (boot_attempts c) (pending_self_update c) (delete (pending_self_update c) s)
              (boot_ne c)
            ∙ get-delete_self (pending_self_update c) s,
      )

-- A supervisor that restarts a crashing binary k times.
pub boots : ℕ → ℕ → String → World → World
boots max zero c w = w
boots max (suc k) c w = (check_and_record_attempt max c (boots max k c w)).1

-- The state after k boots within the limit.
pub record Counted (k : ℕ) (c : String) (w u : World) : Type 0 where
  pub counted : counter c u ≡ k
  pub same_store : u.store ≡ w.store
  pub same_fails : u.fails ≡ w.fails
  pub same_marker : get (pending_self_update c) u.settings ≡ get (pending_self_update c) w.settings

boots-Counted :
    (max k : ℕ) (c : String) (w : World)
    → IsReliable w
    → counter c w ≡ 0
    → k ≤ effective_max_attempts max
    → Counted k c w (boots max k c w)
unfolding boots
boots-Counted max zero c w r z h = record {
  counted = z;
  same_store = refl;
  same_fails = refl;
  same_marker = refl;
}
boots-Counted max (suc k) c w r z h =
    let b = boots-Counted max k c w r z (omega (arith, h)) in
    let u = boots max k c w in
    let (o, n, st, f, m) =
      counted_boot max c u (reliable_at u b.same_fails) (omega (arith, b.counted, h)) in
    record {
      counted = omega (arith, n, b.counted);
      same_store = st ∙ b.same_store;
      same_fails = f ∙ b.same_fails;
      same_marker = m ∙ b.same_marker;
    }
  where
    reliable_at : (u : World) → u.fails ≡ w.fails → IsReliable u
    reliable_at u e n = ap (λ (f : ℕ → Bool). f n) e ∙ r n

-- A self-update that crashes on every boot is rolled back on the boot after the limit: that boot
-- reports the rollback, the store is back on its previous version, and the next boot finds neither
-- the marker nor the counter. At the start no boot is counted and the marker is there; the database
-- succeeds throughout and the store can be rolled back.
pub boots-rolled_back :
    (max : ℕ) (c : String) (w : World) (p : PendingSelfUpdate)
    → IsReliable w
    → counter c w ≡ 0
    → get (pending_self_update c) w.settings ≡ some (pending p)
    → (rollback_to_previous w.store).0 ≡ ok tt
    → let k = effective_max_attempts max in
      let (o, u) = check_and_record_attempt max c (boots max k c w) in
      (o ≡ record { rolled_back = true; attempts = k + 1; error = none })
      × (u.store ≡ (rollback_to_previous w.store).1)
      × (counter c u ≡ 0)
      × (get (pending_self_update c) u.settings ≡ none)
boots-rolled_back max c w p r z m k =
    let n = effective_max_attempts max in
    let u = boots max n c w in
    let b = boots-Counted max n c w r z (omega arith) in
    let (o, st, z2, g) =
      forced_boot max c u p (λ i. ap (λ (f : ℕ → Bool). f i) b.same_fails ∙ r i)
        (omega (arith, b.counted)) (b.same_marker ∙ m)
        (ap (λ (x : Store). (rollback_to_previous x).0) b.same_store ∙ k) in
    (
      o ∙ ap (λ (x : ℕ). outcome_at (x + 1)) b.counted,
      st ∙ ap (λ (x : Store). (rollback_to_previous x).1) b.same_store,
      z2,
      g,
    )
  where
    outcome_at : ℕ → Outcome
    outcome_at x = record { rolled_back = true; attempts = x; error = none }
