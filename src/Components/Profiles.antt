-- ===== src/Components/Profiles.antt =====
-- agent/updates/components: the health check of the dashboard, and the start and the health check of a
-- compatibility profile, over the release that the store calls current.
--
-- What the release directories hold is a parameter: whether one has an index.html, and what
-- LoadCompatibilityProfileFile makes of its profile.json.
use qrx_node_suite.Prelude.{◌≡◌, refl, sym, ap, ◌∙◌, String, Bool, Option, none, some}
use qrx_node_suite.Errors.{Result, ok, err, io_failure, no_active}
use qrx_node_suite.Exec.{Exec, done, fail, modify, carry_on, ◌>>=◌, guard}
use qrx_node_suite.Exec.Went.{bind-Went}
use qrx_node_suite.Exec.Wp.{Wp-bind, ok_of_Wp, ok_eq}
use qrx_node_suite.Version.Profile.{CompatibilityProfile}
use qrx_node_suite.Store.{Store, Disk, current_dir}
use qrx_node_suite.Store.Steps.{Ends, read_current_ends}

pub record Releases : Type 0 where
  pub has_index : String → Bool
  pub load : String → Result CompatibilityProfile

-- The store, and the profile that the rest of the agent reads.
pub record Holder : Type 0 where
  pub store : Store
  pub live : Option CompatibilityProfile

unfoldable pub on_store : {A : Type 0} → Exec Store A → Exec Holder A
on_store x h = let (r, s) = x h.store in (r, record h { store = s })

abbrev pub loaded : Result CompatibilityProfile → Exec Holder CompatibilityProfile
loaded (ok p) = done p
loaded (err e) = fail e

module _ (files : Releases) where
  -- Dashboard.HealthCheck.
  pub dashboard_health_check : Exec Store (Unit {0})
  unfolding guard
  dashboard_health_check = do dir ← current_dir; guard (files.has_index dir) io_failure

  -- CompatibilityProfile.HealthCheck and Start, with Reload set.
  unfoldable pub profile_health_check : Exec Holder (Unit {0})
  profile_health_check = do dir ← on_store current_dir; p ← loaded (files.load dir); done tt

  unfoldable pub profile_start : Exec Holder (Unit {0})
  profile_start = do
    dir ← on_store current_dir
    p ← loaded (files.load dir)
    modify (λ h. record h { live = some p })

current-Ends : {d : Disk} → Ends current_dir d (λ dir w. d.current ≡ some dir) (λ e w. Unit {0})
unfolding current_dir
current-Ends {d} = Wp-bind _ (read_current_ends (λ e. tt)) λ a w (p, q). which a (sym q)
  where
    which :
        {w : Disk} (o : Option String)
        → d.current ≡ o
        → Ends
            (elim o as (λ x. Exec Store String) [ none ↦ fail no_active | some v ↦ done v ])
            w
            (λ dir u. d.current ≡ some dir)
            (λ e u. Unit {0})
    which none e = record { at = λ s p. tt }
    which (some v) e = record { at = λ s p. e }

-- What a start that succeeds has put in place.
pub record Started (files : Releases) (h after : Holder) : Type 0 where
  pub version : String
  pub is_current : h.store.disk.current ≡ some version
  pub profile : CompatibilityProfile
  pub is_loaded : files.load version ≡ ok profile
  pub is_live : after.live ≡ some profile

module _ (files : Releases) where
  loaded-ok :
      (r : Result CompatibilityProfile) (h : Holder) {p : CompatibilityProfile}
      → (loaded r h).0 ≡ ok p
      → r ≡ ok p
  loaded-ok (ok q) h e = e
  loaded-ok (err x) h e = cc

  puts_live :
      (m : Exec Holder String) (h : Holder) {v : String} {p : CompatibilityProfile}
      → (m h).0 ≡ ok v
      → files.load v ≡ ok p
      → ((m >>= λ dir. loaded (files.load dir) >>= λ q. modify (λ x. record x { live = some q }))
          h).1.live
        ≡ some p
  unfolding ◌>>=◌
  puts_live m h {v} {p} e l = go (m h) e
    where
      go :
          (o : Result String × Holder)
          → o.0 ≡ ok v
          → (carry_on
              (λ dir. loaded (files.load dir) >>= λ q. modify (λ x. record x { live = some q }))
              o).1.live
            ≡ some p
      go (ok w, s) e = rw (ap files.load (ok_eq e) ∙ l) refl
      go (err x, s) e = cc

  -- A start that succeeds makes live the profile that the current release holds.
  pub profile_start-Started :
      (h : Holder) → (profile_start files h).0 ≡ ok tt → Started files h (profile_start files h).1
  unfolding profile_start on_store
  profile_start-Started h e =
      let a = bind-Went (on_store current_dir) _ h e in
      let b = bind-Went (loaded (files.load a.value)) _ _ a.rest in
      let l = loaded-ok (files.load a.value) _ b.first in
      record {
        version = a.value;
        is_current = ok_of_Wp _ h.store current-Ends a.first;
        profile = b.value;
        is_loaded = l;
        is_live = puts_live (on_store current_dir) h a.first l;
      }
