-- ===== src/Updates/Check/Settled.antt =====
-- agent/updates/manager.go: what Check has looked at when it calls an update available and not blocked.
use qrx_node_suite.Prelude.{
  ◌≡◌, refl, arith, ap, ◌∙◌, String, true, false, ◌||◌, Option, none, some, codes, ◌==◌, eq_iff,
}
use mathlib.Core.Path.{subst}
use qrx_node_suite.Errors.{Result, ok, err}
use qrx_node_suite.Exec.{Exec}
use qrx_node_suite.Exec.Wp.{Post, ok_eq}
use qrx_node_suite.Policy.{channel, pinned}
use qrx_node_suite.Version.SemVer.{gt}
use qrx_node_suite.Manifest.{Manifest, ComponentUpdate, component as find_component}
use qrx_node_suite.Manifest.Verify.{check_compatibility}
use qrx_node_suite.World.{World, shown}
use qrx_node_suite.World.Ends.{
  View, view, Frames, Frames-bind, Frames-weaken, asks-Frames, done-Frames,
}
use qrx_node_suite.Updates.{Controller}
use qrx_node_suite.Updates.Install.{Manager, matrix_check, pin_allows}
use qrx_node_suite.Updates.Install.Accepted.{
  Verified, fetch-Frames, controller-Frames, current-Frames, previous-Frames,
}
use qrx_node_suite.Updates.Check.{CheckResult, settled, local, judge, answered, check_component}

settled-Frames :
    {A : Type 0} {v : View} {P : A → Type 0} {m : Exec World A}
    → Frames m v P
    → Frames (settled m) v (λ r. (a : A) → r ≡ ok a → P a)
unfolding settled
settled-Frames {A} {v} {P} {m} h = record { ends = record { at = λ s p. go (m s) (h.ends.at s p) } }
  where
    same : (a b : A) → P a → ok a ≡ ok b → P b
    same a b p q = subst P (ok_eq q) p

    go :
        (o : Result A × World)
        → Post (λ (w : World). view w) (λ a u. (u ≡ v) × P a) (λ e u. u ≡ v) o
        → (view o.1 ≡ v) × ((a : A) → o.0 ≡ ok a → P a)
    go (ok a, s) k = (k.0, λ b q. same a b k.1 q)
    go (err e, s) k = (k, λ b q. cc)

-- A report that an update can be installed.
pub record IsInstallable (r : CheckResult) : Type 0 where
  pub reached : r.check_error ≡ none
  pub listed : (r.latest == "") ≡ false
  pub is_available : r.update_available ≡ true
  pub not_blocked : r.blocked ≡ false

module _ (m : Manager) where
  judge_open :
      (ctrl : Controller) (pin : Option String) (c : ComponentUpdate) (r : CheckResult)
      → (judge m ctrl pin c r).blocked ≡ false
      → (pin_allows m pin c.version ≡ true)
        × (check_compatibility c m.current_versions.suite_version
              m.current_versions.qrx_core_version m.current_versions.adapter_version
            ≡ none)
        × (matrix_check m m.matrix ctrl.adapter_name c.version ≡ none)
  unfolding judge
  judge_open ctrl pin c r h = ground arith

  judge-latest :
      (ctrl : Controller) (pin : Option String) (c : ComponentUpdate) (r : CheckResult)
      → (judge m ctrl pin c r).latest ≡ c.version
  unfolding judge
  judge-latest ctrl pin c r = ground arith

  judge_available :
      (ctrl : Controller) (pin : Option String) (c : ComponentUpdate) (r : CheckResult)
      → r.update_available ≡ false
      → (judge m ctrl pin c r).update_available ≡ true
      → (r.current == "" || gt (codes c.version) (codes r.current)) ≡ true
  unfolding judge
  judge_available ctrl pin c r f h = ground arith

  -- What an installable answer shows of the manifest.
  pub record Judged (component current latest : String) (ctrl : Controller) (pin : Option String)
      (o : Result Manifest) : Type 0 where
    pub manifest : Manifest
    pub update : ComponentUpdate
    pub fetched : o ≡ ok manifest
    pub offered : find_component component manifest.components ≡ some update
    pub allowed : pin_allows m pin update.version ≡ true
    pub in_ranges :
        check_compatibility update m.current_versions.suite_version
          m.current_versions.qrx_core_version m.current_versions.adapter_version
        ≡ none
    pub matrix_allows : matrix_check m m.matrix ctrl.adapter_name update.version ≡ none
    pub newer : (current == "" || gt (codes update.version) (codes current)) ≡ true
    pub latest_is : latest ≡ update.version

  judge-Judged :
      (ctrl : Controller) (pin : Option String) (r : CheckResult) (mf : Manifest)
      (c : ComponentUpdate)
      → r.update_available ≡ false
      → find_component r.component mf.components ≡ some c
      → IsInstallable (judge m ctrl pin c r)
      → Judged r.component r.current (judge m ctrl pin c r).latest ctrl pin (ok mf)
  judge-Judged ctrl pin r mf c f e h =
      let (a, b, d) = judge_open ctrl pin c r h.not_blocked in
      record {
        manifest = mf;
        update = c;
        fetched = refl;
        offered = e;
        allowed = a;
        in_ranges = b;
        matrix_allows = d;
        newer = judge_available ctrl pin c r f h.is_available;
        latest_is = judge-latest ctrl pin c r;
      }

  answered-Judged :
      (ctrl : Controller) (pin : Option String) (r : CheckResult) (o : Result Manifest)
      → r.latest ≡ ""
      → r.update_available ≡ false
      → IsInstallable (answered m ctrl pin r o)
      → Judged r.component r.current (answered m ctrl pin r o).latest ctrl pin o
  unfolding answered
  answered-Judged ctrl pin r (err e) z f h = absurd h.reached
    where
      absurd : {P : Type 0} → some e ≡ none → P
      absurd p = cc
  answered-Judged ctrl pin r (ok mf) z f h = go (find_component r.component mf.components) refl h
    where
      unlisted : {P : Type 0} → r.latest ≡ "" → (r.latest == "") ≡ false → P
      unlisted p q = ground (arith, eq_iff r.latest "")

      go :
          (o : Option ComponentUpdate)
          → find_component r.component mf.components ≡ o
          → IsInstallable
              (elim o as (λ k. CheckResult) [ none ↦ r | some c ↦ judge m ctrl pin c r ])
          → Judged r.component r.current
              (elim o as (λ k. CheckResult) [ none ↦ r | some c ↦ judge m ctrl pin c r ]).latest
              ctrl
              pin
              (ok mf)
      go none e k = unlisted z k.listed
      go (some c) e k = judge-Judged ctrl pin r mf c f e k

  -- What an installable report shows of the policy, the store and the source.
  pub record Reported (component : String) (v : View) (r : CheckResult) : Type 0 where
    pub followed : String
    pub on_channel : channel component v.0 ≡ ok followed
    pub controller : Controller
    pub pin : Option String
    pub manifest : Manifest
    pub update : ComponentUpdate
    pub verified : Verified m v.0 followed manifest
    pub controlled : m.controllers component ≡ some controller
    pub pinned_to : pinned component v.0 ≡ ok pin
    pub judged : Judged component (shown v.1.current) r.latest controller pin (ok manifest)

  pub check-Frames :
      (component : String) {v : View}
      → Frames (check_component m component) v (λ r. IsInstallable r → Reported component v r)
  unfolding check_component local
  check-Frames component {v} = Frames-bind _ (controller-Frames m component) λ ctrl known.
      Frames-bind _ (asks-Frames (channel component)) λ ch a1.
        Frames-bind _ (current-Frames m) λ cur q. Frames-bind _ (previous-Frames m) λ prev q2.
          Frames-bind _ (asks-Frames (pinned component)) λ pin p.
            Frames-bind _ (settled-Frames (fetch-Frames m ch)) λ o ver.
              Frames-weaken (done-Frames _)
                λ r e h. reported ctrl ch cur prev pin o known a1 q p ver r e h
    where
      reported :
          (ctrl : Controller) (ch : String) (cur prev pin : Option String) (o : Result Manifest)
          → m.controllers component ≡ some ctrl
          → channel component v.0 ≡ ok ch
          → cur ≡ v.1.current
          → pinned component v.0 ≡ ok pin
          → ((mf : Manifest) → o ≡ ok mf → Verified m v.0 ch mf)
          → (r : CheckResult) → r ≡ answered m ctrl pin (local m component ch cur prev ctrl pin) o
          → IsInstallable r
          → Reported component v r
      reported ctrl ch cur prev pin o known a1 q p ver r e h =
          let j =
            answered-Judged ctrl pin (local m component ch cur prev ctrl pin) o refl refl
              (subst IsInstallable e h) in
          record {
            followed = ch;
            on_channel = a1;
            controller = ctrl;
            pin = pin;
            manifest = j.manifest;
            update = j.update;
            verified = ver j.manifest j.fetched;
            controlled = known;
            pinned_to = p;
            judged = record {
              manifest = j.manifest;
              update = j.update;
              fetched = refl;
              offered = j.offered;
              allowed = j.allowed;
              in_ranges = j.in_ranges;
              matrix_allows = j.matrix_allows;
              newer =
                  subst
                    (λ (x : Option String).
                      (shown x == "" || gt (codes j.update.version) (codes (shown x))) ≡ true)
                    q j.newer;
              latest_is = ap (λ (x : CheckResult). x.latest) e ∙ j.latest_is;
            };
          }
