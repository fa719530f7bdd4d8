-- ===== src/Server/Reading.antt =====
-- agent/api/server.go: the endpoints that change nothing.
use qrx_node_suite.Prelude.{
  ℕ, ◌≡◌, refl, ◌∙◌, inl, inr, String, Bool, true, false, Option, none, some, List, [], ◌∷◌,
  Bool-cases,
}
use qrx_node_suite.Errors.{Result, ok, err}
use qrx_node_suite.Exec.{Exec, carry_on, done, ◌>>=◌}
use qrx_node_suite.Alerts.{Alert}
use qrx_node_suite.Node.{Models}
use qrx_node_suite.Updates.Check.{CheckResult, plan}
use qrx_node_suite.Server.{Endpoint, handle}
use qrx_node_suite.Server.Http.{
  Deps, Request, Decoded, decoded, too_large, malformed, Handler, UpdateService, CoreService,
  max_request_body_bytes, accept, reply, answer, decode_json, configured,
}
use qrx_node_suite.Server.Updates.{
  with_policy, handle_updates_status, handle_updates_check, plan_for, handle_updates_plan,
}
use qrx_node_suite.Server.Status.{
  handle_version, handle_versions, handle_status, handle_node, handle_network, handle_blockchain,
  handle_mempool, handle_validator, handle_velocity, handle_system, handle_activity,
  handle_alerts_list, handle_services, handle_settings_get, handle_events, handle_admin_session,
  handle_health,
}

-- The endpoints that act.
unfoldable pub is_mutating : Endpoint → Bool
is_mutating Endpoint.updates_install = true
is_mutating Endpoint.updates_rollback = true
is_mutating Endpoint.activate_version = true
is_mutating Endpoint.qrx_core_switch = true
is_mutating Endpoint.service_restart = true
is_mutating _ = false

module _ {W V : Type 0} (view : W → V) where
  abbrev pub Reads : {A : Type 0} → Exec W A → Type 0
  Reads x = (w : W) → view (x w).1 ≡ view w

  last :
      (r : CheckResult) (o : Result (List CheckResult) × W)
      → view (carry_on (λ rs. done (r ∷ rs)) o).1 ≡ view o.1
  last r (ok rs, u) = refl
  last r (err e, u) = refl

  first :
      (o : Result CheckResult × W) (rest : Exec W (List CheckResult))
      → Reads rest
      → view (carry_on (λ r. rest >>= λ rs. done (r ∷ rs)) o).1 ≡ view o.1
  unfolding ◌>>=◌
  first (ok r, u) rest h = last r (rest u) ∙ h u
  first (err e, u) rest h = refl

  -- The checks of a list read only, if each check does.
  plan-Reads :
      (check : String → Exec W CheckResult) (names : List String)
      → ((c : String) → Reads (check c))
      → Reads (plan check names)
  unfolding plan ◌>>=◌
  plan-Reads check [] h w = refl
  plan-Reads check (c ∷ names) h w =
      first (check c w) (plan check names) (plan-Reads check names h) ∙ h c w

module _ {m : Models} {W V : Type 0} (view : W → V) where
  pub record Still (h : Handler m W) : Type 0 where
    pub at : (w : W) → view (h w).1 ≡ view w

  -- What the configured parts promise: a check, a list and a question change nothing that the view shows.
  pub record ReadsOnly (d : Deps m W) : Type 0 where
    pub check_reads :
        (s : UpdateService W) → d.updates ≡ some s → (c : String) → Reads view (s.check c)
    pub automatic_reads : (s : CoreService W) → d.qrx_core ≡ some s → Reads view s.automatic_enabled
    pub alerts_reads :
        (f : Bool → ℕ → Exec W (List Alert))
        → d.alerts ≡ some f
        → (b : Bool) (n : ℕ) → Reads view (f b n)
    pub settings_reads : (x : Exec W (List (String × String))) → d.settings ≡ some x → Reads view x

  reply-Still :
      {A : Type 0} (code : ℕ) (next : A → Handler m W) (o : Result A × W)
      → ((a : A) → Still (next a))
      → view (reply code next o).1 ≡ view o.1
  reply-Still code next (ok a, w) k = (k a).at w
  reply-Still code next (err e, w) k = refl

  answer-Still :
      {A : Type 0} (code : ℕ) (x : Exec W A) (next : A → Handler m W)
      → Reads view x
      → ((a : A) → Still (next a))
      → Still (answer code x next)
  unfolding answer
  answer-Still code x next h k = record { at = λ w. reply-Still code next (x w) k ∙ h w }

  configured-Still :
      {A : Type 0} (o : Option A) (missing : Handler m W) (next : A → Handler m W)
      → Still missing
      → ((a : A) → o ≡ some a → Still (next a))
      → Still (configured o missing next)
  unfolding configured
  configured-Still none missing next h k = h
  configured-Still (some a) missing next h k = k a refl

  accept-Still :
      {A : Type 0} (x : Decoded A) (next : A → Handler m W)
      → ((a : A) → Still (next a))
      → Still (accept x next)
  accept-Still (decoded a) next k = k a
  accept-Still too_large next k = record { at = λ w. refl }
  accept-Still malformed next k = record { at = λ w. refl }

  decode-Still :
      {A : Type 0} (read : ℕ → String → Decoded A) (body : Option String) (next : A → Handler m W)
      → ((a : A) → Still (next a))
      → Still (decode_json read body next)
  unfolding decode_json
  decode-Still read none next k = record { at = λ w. refl }
  decode-Still read (some text) next k = accept-Still (read max_request_body_bytes text) next k

  -- A handler that writes its response and nothing else.
  same : {h : Handler m W} → ((w : W) → view (h w).1 ≡ view w) → Still h
  same f = record { at = f }

  module _ (d : Deps m W) (reads : ReadsOnly d) where
    with_policy-Still :
        (o : Option (CoreService W)) (out : List (String × CheckResult))
        → d.qrx_core ≡ o
        → Still (with_policy d o out)
    unfolding with_policy
    with_policy-Still none out p = same (λ w. refl)
    with_policy-Still (some core) out p = same (λ w. reads.automatic_reads core p w)

    plan_for-Still : (names : List String) → Still (plan_for d names)
    unfolding plan_for
    plan_for-Still names = configured-Still d.updates _ _ (same (λ w. refl)) λ s p.
        answer-Still 502 _ _ (plan-Reads view s.check _ (reads.check_reads s p))
          λ a. same (λ w. refl)

    updates_status-Still : Still (handle_updates_status d)
    unfolding handle_updates_status
    updates_status-Still = configured-Still d.updates _ _ (same (λ w. refl)) λ s p.
        answer-Still 502 _ _ (plan-Reads view s.check _ (reads.check_reads s p))
          λ a. with_policy-Still d.qrx_core _ refl

    updates_check-Still : (req : Request) → Still (handle_updates_check d req)
    unfolding handle_updates_check
    updates_check-Still req = decode-Still _ req.body _ λ r.
        configured-Still d.updates _ _ (same (λ w. refl))
          λ s p. answer-Still 502 _ _ (reads.check_reads s p r.component) λ a. same (λ w. refl)

    updates_plan-Still : (req : Request) → Still (handle_updates_plan d req)
    unfolding handle_updates_plan
    updates_plan-Still req = elim (Bool-cases req.is_empty) [
      | inl y ↦ rw y (plan_for-Still [])
      | inr n ↦ rw n (decode-Still _ req.body _ (λ r. plan_for-Still r.components))
    ]

    versions-Still : Still (handle_versions d)
    unfolding handle_versions
    versions-Still = configured-Still d.updates _ _ (same (λ w. refl)) λ s p.
        answer-Still 502 _ _ (plan-Reads view s.check _ (reads.check_reads s p))
          λ a. same (λ w. refl)

    version-Still : Still (handle_version d)
    unfolding handle_version
    version-Still = configured-Still d.version_info _ _ (same (λ w. refl)) (λ a p. same (λ w. refl))

    alerts-Still : (req : Request) → Still (handle_alerts_list d req)
    unfolding handle_alerts_list
    alerts-Still req =
        configured-Still d.alerts _ _ (same (λ w. refl))
          λ f p. answer-Still 500 _ _ (reads.alerts_reads f p _ 100) λ a. same (λ w. refl)

    settings-Still : Still (handle_settings_get d)
    unfolding handle_settings_get
    settings-Still =
        configured-Still d.settings _ _ (same (λ w. refl))
          λ x p. answer-Still 500 _ _ (reads.settings_reads x p) λ a. same (λ w. refl)

    events-Still : Still (handle_events d)
    unfolding handle_events
    events-Still = elim (Bool-cases d.has_bus) [
      | inl y ↦ rw y (same (λ w. refl))
      | inr n ↦ rw n (same (λ w. refl))
    ]

    pub handle-Still :
        (e : Endpoint) (req : Request) (actor : String)
        → is_mutating e ≡ false
        → Still (handle d e req actor)
    unfolding handle is_mutating handle_status handle_node handle_network handle_blockchain
        handle_mempool handle_validator handle_velocity handle_system handle_activity
        handle_services handle_admin_session handle_health
    handle-Still Endpoint.health req actor h = same (λ w. refl)
    handle-Still Endpoint.version req actor h = version-Still
    handle-Still Endpoint.versions req actor h = versions-Still
    handle-Still Endpoint.status req actor h = same (λ w. refl)
    handle-Still Endpoint.node req actor h = same (λ w. refl)
    handle-Still Endpoint.network req actor h = same (λ w. refl)
    handle-Still Endpoint.blockchain req actor h = same (λ w. refl)
    handle-Still Endpoint.mempool req actor h = same (λ w. refl)
    handle-Still Endpoint.validator req actor h = same (λ w. refl)
    handle-Still Endpoint.velocity req actor h = same (λ w. refl)
    handle-Still Endpoint.system req actor h = same (λ w. refl)
    handle-Still Endpoint.activity req actor h = same (λ w. refl)
    handle-Still Endpoint.services req actor h = same (λ w. refl)
    handle-Still Endpoint.settings req actor h = settings-Still
    handle-Still Endpoint.admin_session req actor h = same (λ w. refl)
    handle-Still Endpoint.alerts req actor h = alerts-Still req
    handle-Still Endpoint.events req actor h = events-Still
    handle-Still Endpoint.updates_status req actor h = updates_status-Still
    handle-Still Endpoint.updates_check req actor h = updates_check-Still req
    handle-Still Endpoint.updates_plan req actor h = updates_plan-Still req
    handle-Still Endpoint.updates_install req actor h = cc
    handle-Still Endpoint.updates_rollback req actor h = cc
    handle-Still Endpoint.activate_version req actor h = cc
    handle-Still Endpoint.qrx_core_switch req actor h = cc
    handle-Still Endpoint.service_restart req actor h = cc
