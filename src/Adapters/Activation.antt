-- ===== src/Adapters/Activation.antt =====
-- agent/adapters/registry.go: what a switch of the adapter leaves active.
use qrx_node_suite.Prelude.{
  ◌≡◌, ◌≢◌, ◌⊎◌, eq_iff, ◌==◌, refl, ap, sym, ◌∙◌, String, Bool, true, false, not, ◌||◌, inl, inr,
  Option, some, none, Bool-cases,
}
use qrx_node_suite.Errors.{
  Err, adapter_health_failed, adapter_disabled, ok, err, no_rollback_target, Result,
}
use qrx_node_suite.Exec.{carry_on, ◌>>=◌, fail, ◌>>◌, modify, guard, ignoring}
use qrx_node_suite.Exec.Wp.{Post, Wp-otherwise, ok_of_Wp}
use qrx_node_suite.Store.{has}
use qrx_node_suite.Adapters.{
  Registry, call, activate, restore, hand_over, rollback, switch, call_activate, call_deactivate,
  call_health,
}
use qrx_node_suite.Adapters.Frames.{
  Pointers, pointers, Ends, call-Frames, deactivate-Frames, then_Frames, then_guard,
  then_get_or_create, then_is_disabled, find_current-Frames,
}

abbrev pub Switched : String → Bool → Pointers → Pointers → Type 0
Switched name b v w =
    (w.active ≡ name)
    × (w.previous ≡ v.active)
    × (has name v.installed ≡ true)
    × ((not (has name v.disabled) || b) ≡ true)

module _ (current : Option String) (name : String) (v : Pointers) where
  -- Both error paths restore the adapter that was active, and change no pointer.
  after_activate :
      {Q : Unit {0} → Pointers → Type 0} (e : Err) (w : Pointers)
      → w ≡ v
      → Ends (restore current >>= λ a. fail e) w Q (λ e u. u ≡ v)
  unfolding ◌>>=◌ ignoring call
  after_activate {Q = Q} e w p = record { at = go current }
    where
      go :
          (o : Option String) (s : Registry)
          → pointers s ≡ w
          → Post (λ (r : Registry). pointers r) Q (λ e u. u ≡ v) ((restore o >>= λ a. fail e) s)
      go none s q = q ∙ p
      go (some n) s q = q ∙ p

  after_health :
      {Q : Unit {0} → Pointers → Type 0} (e f : Err) (w : Pointers)
      → w ≡ v
      → Ends
          (ignoring (call (call_deactivate name)) >>= λ b. restore current >>= λ a. fail f)
          w
          Q
          (λ e u. u ≡ v)
  unfolding ◌>>=◌ ignoring call
  after_health {Q = Q} e f w p = record { at = go current }
    where
      go :
          (o : Option String) (s : Registry)
          → pointers s ≡ w
          → Post
              (λ (r : Registry). pointers r)
              Q
              (λ e u. u ≡ v)
              ((ignoring (call (call_deactivate name)) >>= λ b. restore o >>= λ a. fail f) s)
      go none s q = q ∙ p
      go (some n) s q = q ∙ p

  switch_ends :
      (b : Bool)
      → has name v.installed ≡ true
      → (not (has name v.disabled) || b) ≡ true
      → Ends (modify (switch name)) v (λ a w. Switched name b v w) (λ e w. w ≡ v)
  switch_ends b i g = record { at = λ s p. (refl, ap (λ (x : Pointers). x.active) p, i, g) }

hand_over_ends :
    (name : String) (b : Bool) (v : Pointers)
    → has name v.installed ≡ true
    → (not (has name v.disabled) || b) ≡ true
    → Ends (hand_over name) v (λ a w. Switched name b v w) (λ e w. w ≡ v)
unfolding hand_over
hand_over_ends name b v i g = then_Frames _ (find_current-Frames name v) λ cur.
    then_Frames _ (deactivate-Frames cur v) λ a.
      then_Frames _
        (Wp-otherwise _ (call-Frames (call_activate name) v)
          λ e w p. after_activate cur name v e w p)
        λ a2.
          then_Frames _
            (Wp-otherwise _ (call-Frames (call_health name) v)
              λ e w p. after_health cur name v e adapter_health_failed w p)
            λ a3. switch_ends cur name v b i g

pub activate_ends :
    (name : String) (b : Bool) (v : Pointers)
    → Ends (activate name b) v (λ a w. Switched name b v w) (λ e w. w ≡ v)
unfolding activate
activate_ends name b v = then_get_or_create name _ λ i.
    then_is_disabled name (λ d. guard (not d || b) adapter_disabled >> hand_over name)
      λ d q.
        then_guard (not d || b) adapter_disabled (λ x. hand_over name)
          λ g. hand_over_ends name b v i (ap (λ (x : Bool). not x || b) (sym q) ∙ g)

-- An Activate that returns no error has made an installed adapter active that was not disabled or
-- was forced, and the adapter that was active before is the rollback target. One that returns an
-- error, at whatever step, leaves the active adapter and the rollback target as they were.
pub activate_outcomes :
    (name : String) (b : Bool) (r : Registry)
    → (((activate name b r).0 ≡ ok tt)
        × Switched name b (pointers r) (pointers (activate name b r).1))
      ⊎ ((e : Err) × ((activate name b r).0 ≡ err e)
          × (pointers (activate name b r).1 ≡ pointers r))
activate_outcomes name b r =
    outcomes (activate name b r) ((activate_ends name b (pointers r)).at r refl)
  where
    outcomes :
        (o : Result (Unit {0}) × Registry)
        → Post
            (λ (x : Registry). pointers x)
            (λ a w. Switched name b (pointers r) w)
            (λ e w. w ≡ pointers r)
            o
        → ((o.0 ≡ ok tt) × Switched name b (pointers r) (pointers o.1))
          ⊎ ((e : Err) × (o.0 ≡ err e) × (pointers o.1 ≡ pointers r))
    outcomes (ok a, s) h = inl (refl, h)
    outcomes (err e, s) h = inr (e, refl, h)

differs : (a b : String) → (a == b) ≡ false → a ≢ b
differs a b n e = let y = (eq_iff a b).1 e in cc

module _ (r : Registry) where
  abbrev RolledBack : Result (Unit {0}) × Registry → Type 0
  RolledBack o =
      ((o.0 ≡ ok tt) × (o.1.active ≡ r.previous) × (o.1.previous ≡ r.active) × (r.previous ≢ ""))
      ⊎ ((e : Err) × (o.0 ≡ err e) × (pointers o.1 ≡ pointers r))

  rolled_back :
      (r.previous == "") ≡ false
      → (o : Result (Unit {0}) × Registry)
      → Post
          (λ (x : Registry). pointers x)
          (λ a w. Switched r.previous true (pointers r) w)
          (λ e w. w ≡ pointers r)
          o
      → RolledBack (carry_on (λ a. modify (λ (x : Registry). record x { previous = r.active })) o)
  rolled_back n (ok a, s) (h, k, l, m) = inl (refl, h, refl, differs r.previous "" n)
  rolled_back n (err e, s) h = inr (e, refl, h)

  -- A Rollback that returns no error makes the rollback target active and the adapter that was
  -- active the new rollback target; one that returns an error changes neither, and without a
  -- rollback target there is always an error.
  pub rollback_adapter_outcomes :
      (((rollback r).0 ≡ ok tt)
        × ((rollback r).1.active ≡ r.previous)
        × ((rollback r).1.previous ≡ r.active)
        × (r.previous ≢ ""))
      ⊎ ((e : Err) × ((rollback r).0 ≡ err e) × (pointers (rollback r).1 ≡ pointers r))
  unfolding rollback
  rollback_adapter_outcomes = elim (Bool-cases (r.previous == "")) [
    | inl y ↦ rw y (inr (no_rollback_target, refl, refl))
    | inr n ↦
        let k =
          rolled_back n (activate r.previous true r)
            ((activate_ends r.previous true (pointers r)).at r refl) in
        rw n k
  ]

-- Activating the adapter that is already active replaces the rollback target by that adapter, so
-- that a Rollback no longer leads to the adapter before it.
pub activate_again :
    (b : Bool) (r : Registry)
    → (activate r.active b r).0 ≡ ok tt
    → (activate r.active b r).1.previous ≡ r.active
activate_again b r h = (ok_of_Wp _ r (activate_ends r.active b (pointers r)) h).1
