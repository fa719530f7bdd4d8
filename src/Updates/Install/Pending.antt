-- ===== src/Updates/Install/Pending.antt =====
-- agent/updates/manager.go, Install of the running process: the marker it leaves and the version that a
-- rollback leads back to.
use qrx_node_suite.Prelude.{
  ◌≡◌, sym, ap, ◌∙◌, String, Bool, true, false, Option, some, if◌then◌else◌,
}
use mathlib.Core.Path.{subst}
use qrx_node_suite.Errors.{Err, ok, start_failed, health_check_failed}
use qrx_node_suite.Exec.{Exec, ignoring, ◌>>=◌, ◌otherwise◌, done}
use qrx_node_suite.Exec.Wp.{Wp-bind, Wp-otherwise, Wp-weaken, Wp_of_ok, ok_of_Wp}
use qrx_node_suite.Policy.{
  Settings, PendingSelfUpdate, pending, pending_self_update, boot_attempts, get, set,
  record_manifest_seen,
}
use qrx_node_suite.Policy.Laws.{get-set_self, get-set_ne, get-record_manifest_seen, pending_ne}
use qrx_node_suite.Store.{Store, Disk, stage, promote}
use qrx_node_suite.Store.Live.{IsLive, stage_ends}
use qrx_node_suite.Store.Promote.{demoted, promote_ok}
use qrx_node_suite.Store.Prune.{prune}
use qrx_node_suite.Updates.{stop_if}
use qrx_node_suite.World.{World, insert, status_succeeded, on_store, sets, outside, audit}
use qrx_node_suite.World.Ends.{
  View, view, Ends, Frames, Frames-bind, then_frames, Frames-otherwise, outside-Frames,
  insert-Frames, done-Frames, on_store_ends, sets_exact,
}
use qrx_node_suite.Updates.Install.{
  roll_back, row, retained, Manager, InstallOptions, InstallResult, Offer, report_failure,
  discard_and_report, stage_artifact, install_self, install_managed, carry_out, install,
}
use qrx_node_suite.Updates.Install.Accepted.{gates-Frames}
use qrx_node_suite.Updates.Install.Safety.{download-Frames}
use qrx_node_suite.Updates.Install.Work.{report-Frames}

-- A component that waits for its restart: the marker is there, its boots are counted as before, and the
-- rollback target is the version that was active.
pub record Pending (component : String) (v u : View) : Type 0 where
  pub marker : PendingSelfUpdate
  pub is_marked : get (pending_self_update component) u.0 ≡ some (pending marker)
  pub same_boots : get (boot_attempts component) u.0 ≡ get (boot_attempts component) v.0
  pub way_back : u.1.previous ≡ demoted v.1.current v.1.previous

-- Success shows `Q`; nothing is said of an error.
record Yields {A : Type 0} (m : Exec World A) (v : View) (Q : A → View → Type 0) : Type 0 where
  ends : Ends m v Q (λ e u. Unit {0})

after :
    {A B : Type 0} {m : Exec World A} {v : View} {P : A → Type 0} {Q : B → View → Type 0}
    (f : A → Exec World B)
    → Frames m v P
    → ((a : A) → Yields (f a) v Q)
    → Yields (m >>= f) v Q
after f h k = record { ends = then_frames _ h (λ e. tt) (λ a p. (k a).ends) }

then_yields :
    {A B : Type 0} {m : Exec World A} {v : View} {Q : A → View → Type 0} {R : B → View → Type 0}
    (f : A → Exec World B)
    → Yields m v Q
    → ((a : A) (u : View) → Q a u → Yields (f a) u R)
    → Yields (m >>= f) v R
then_yields f h k = record { ends = Wp-bind _ h.ends (λ a u q. (k a u q).ends) }

module _ (m : Manager) (component : String) (o : Offer) where
  failed :
      {A : Type 0} (e : Err) {v : View} {Q : A → View → Type 0}
      → Yields (report_failure m {A = A} component o e) v Q
  failed {A} e {v} {Q} = record {
    ends =
        Wp-weaken _ (report-Frames {A = A} {P = λ a. Q a v} m component o e).ends
          (λ a u q. subst (λ (x : View). Q a x) (sym q.0) q.1) (λ e u q. tt);
  }

  -- Whatever a step does, only the rest is looked at.
  skipping :
      {A B : Type 0} (x : Exec World A) {v : View} {R : B → View → Type 0} (f : A → Exec World B)
      → ((a : A) (u : View) → Yields (f a) u R)
      → Yields (x >>= f) v R
  skipping {A} x f k = record {
    ends =
        Wp-bind _ {Q = λ (a : A) (u : View). Unit {0}} (Wp_of_ok _ (λ s a p e. tt))
          (λ a u q. (k a u).ends);
  }

  handling :
      {A : Type 0} {x : Exec World A} {v : View} {Q : A → View → Type 0} (f : Err → Exec World A)
      → Yields x v Q
      → ((e : Err) (u : View) → Yields (f e) u Q)
      → Yields (x otherwise f) v Q
  handling f h k = record { ends = Wp-otherwise _ h.ends (λ e u q. (k e u).ends) }

  discarded :
      {A : Type 0} (e : Err) {v : View} {Q : A → View → Type 0}
      → Yields (discard_and_report m {A = A} component o e) v Q
  unfolding discard_and_report
  discarded e = skipping _ _ (λ a u. failed e)

  -- The two pointers and the settings are as they were.
  record Same (v u : View) : Type 0 where
    settings : u.0 ≡ v.0
    current : u.1.current ≡ v.1.current
    previous : u.1.previous ≡ v.1.previous

  stage-Same : {v : View} → IsLive v.1 → Yields (stage_artifact m component o) v (λ a u. Same v u)
  unfolding stage_artifact
  stage-Same {v} l =
      then_yields _ (handling _ staged (λ e u. failed e))
        λ a u q. handling _ (still q) (λ e u2. discarded e)
    where
      staged : Yields (on_store (stage o.update.version)) v (λ a u. Same v u)
      staged = record {
        ends =
            Wp-weaken _ (on_store_ends (stage_ends o.update.version l))
              (λ a u q. record { settings = q.0; current = q.1.4; previous = q.1.5 }) (λ e u q. tt);
      }

      still : {u : View} → Same v u → Yields (outside >>= λ a. outside) u (λ a t. Same v t)
      still {u} q = record {
        ends =
            Wp-weaken _ (Frames-bind _ outside-Frames (λ b p. outside-Frames)).ends
              (λ a t p. subst (Same v) (sym p.0) q) (λ e t p. tt);
      }

  -- The switch of the pointers.
  record Switched (v u : View) : Type 0 where
    settings : u.0 ≡ v.0
    way_back : u.1.previous ≡ demoted v.1.current v.1.previous

  promote-Switched : {v u : View} → Same v u → Yields (on_store promote) u (λ a t. Switched v t)
  promote-Switched {v} {u} q = record {
    ends =
        Wp-weaken _
          (on_store_ends (
            Wp_of_ok _
              {Q = λ (a : Unit {0}) (d : Disk). d.previous ≡ demoted u.1.current u.1.previous}
              promoted))
          (λ a t p. record { settings = p.0 ∙ q.settings; way_back = p.1 ∙ rewound }) (λ e t p. tt);
  }
    where
      rewound : demoted u.1.current u.1.previous ≡ demoted v.1.current v.1.previous
      rewound =
          ap (λ (x : Option String). demoted x u.1.previous) q.current
          ∙ ap (demoted v.1.current) q.previous

      promoted :
          (s : Store) (a : Unit {0})
          → s.disk ≡ u.1
          → (promote s).0 ≡ ok a
          → (promote s).1.disk.previous ≡ demoted u.1.current u.1.previous
      promoted s a p e = (promote_ok s e).2 ∙ ap (λ (x : Disk). demoted x.current x.previous) p

  self-Pending :
      {v u : View} → Same v u → Yields (install_self m component o) u (λ r t. Pending component v t)
  unfolding install_self
  self-Pending {v} q = then_yields _ (handling _ (promote-Switched q) (λ e u. discarded e)) λ a t k.
      after _ (insert-Frames _) λ id. then_yields _ (setting _) λ b x e.
        then_yields _ (setting _) λ c y f. record {
          ends =
              Wp-weaken _ (done-Frames _).ends
                (λ r z g. subst (Pending component v) (sym g.0) (pended _ _ _ k e f)) (λ d z g. tt);
        }
    where
      setting : (f : Settings → Settings) {t : View} → Yields (sets f) t (λ a z. z ≡ (f t.0, t.1))
      setting f = record { ends = Wp-weaken _ (sets_exact f) (λ a z g. g) (λ e z g. tt) }

      pended :
          {t x y : View} (p : PendingSelfUpdate) (ch at : String)
          → Switched v t
          → x ≡ (set (pending_self_update component) (pending p) t.0, t.1)
          → y ≡ (record_manifest_seen ch at x.0, x.1)
          → Pending component v y
      pended {t} {x} {y} p ch at k e f =
          let s = set (pending_self_update component) (pending p) t.0 in
          let (a, b) = get-record_manifest_seen component ch at s in
          subst (Pending component v)
            (sym (f ∙ ap (λ (z : View). (record_manifest_seen ch at z.0, z.1)) e))
            (record {
              marker = p;
              is_marked = a ∙ get-set_self (pending_self_update component) (pending p) t.0;
              same_boots =
                  b
                  ∙ get-set_ne (pending_self_update component) (boot_attempts component) (pending p)
                      t.0 (pending_ne component)
                  ∙ ap (get (boot_attempts component)) k.settings;
              way_back = k.way_back;
            })

  install_managed-restart :
      {v u : View}
      → Yields
          (install_managed m component o)
          u
          (λ r t. r.pending_restart ≡ true → Pending component v t)
  unfolding install_managed
  install_managed-restart =
      skipping (stop_if o.controller.requires_restart otherwise discard_and_report m component o) _
        λ a1 u1. skipping (on_store promote otherwise report_failure m component o) _ λ a2 u2.
          skipping (outside otherwise λ e. roll_back m component o (start_failed e)) _ λ a3 u3.
            skipping (outside otherwise λ e. roll_back m component o (health_check_failed e)) _
              λ a4 u4.
                skipping (ignoring (on_store (prune (retained m.retain_versions)))) _ λ a5 u5.
                  skipping (sets (record_manifest_seen o.channel o.manifest.released_at)) _ λ a6 u6.
                    skipping (insert (row m component o status_succeeded false)) _ λ id u7.
                      skipping audit (λ z. done (record { pending_restart = false }))
                        λ a8 u8. finished
    where
      finished :
          {v t : View}
          → Yields
              (done {S = World} {A = InstallResult} (record { pending_restart = false }))
              t
              (λ r z. r.pending_restart ≡ true → Pending component v z)
      finished = record { ends = record { at = λ s p q. cc } }

  carry-Pending :
      {v : View}
      → IsLive v.1
      → Yields (carry_out m component o) v (λ r t. r.pending_restart ≡ true → Pending component v t)
  unfolding carry_out
  carry-Pending {v} l = after _ (insert-Frames _) λ id.
      after _
        (Frames-otherwise (download-Frames m component o) (λ e. report-Frames m component o e))
        λ a. then_yields _ (stage-Same l) λ b u q. which o.controller.is_self_binary q
    where
      which :
          (b : Bool) {u : View}
          → Same v u
          → Yields
              (if b then install_self m component o else install_managed m component o)
              u
              (λ r t. r.pending_restart ≡ true → Pending component v t)
      which true q = record {
        ends = Wp-weaken _ (self-Pending q).ends (λ r t p e. p) (λ e t p. tt);
      }
      which false q = install_managed-restart

-- An Install of the running process that reports a pending restart leaves its marker, does not touch the
-- count of its boots, and keeps the version that was active as the rollback target.
pub install-Pending :
    (m : Manager) (component : String) (opts : InstallOptions) (w : World) {r : InstallResult}
    → IsLive w.store.disk
    → (install m component opts w).0 ≡ ok r
    → r.pending_restart ≡ true
    → Pending component (view w) (view (install m component opts w).1)
unfolding install
install-Pending m component opts w l h p =
    ok_of_Wp _ w
      (after _ (gates-Frames m component opts (view w)) (λ o. carry-Pending m component o l)).ends h
      p
