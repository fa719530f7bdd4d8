-- ===== src/Updates/Install/Accepted.antt =====
-- agent/updates/manager.go, Install: what an install has passed before it writes anything.
use qrx_node_suite.Prelude.{
  ◌≡◌, ◌⊎◌, refl, arith, ap, sym, ◌∙◌, inl, inr, String, Bool, true, false, not, ◌||◌, Option, none,
  some, ◌==◌, if◌then◌else◌,
}
use qrx_node_suite.Errors.{ok, no_update_for_component, unknown_component, outside_window}
use qrx_node_suite.Exec.{◌>>=◌, done, fail, guard}
use qrx_node_suite.Policy.{
  Settings, ScheduledWindow, locked, scheduled_window, channel, pinned, last_released_at,
}
use qrx_node_suite.Manifest.{Manifest, ComponentUpdate, component as find_component}
use qrx_node_suite.Manifest.Verify.{
  verify_manifest_signature, check_not_replayed, check_not_downgrade, check_compatibility,
}
use qrx_node_suite.Store.{read_current, read_previous, names}
use qrx_node_suite.Store.Steps.{read_current_ends, read_previous_ends}
use qrx_node_suite.World.{shown, on_store, asks}
use qrx_node_suite.World.Ends.{
  View, Frames, Frames-bind, Frames-weaken, outside-Frames, asks-Frames, guard-Frames, check-Frames,
  done-Frames, fail-Frames, on_store-Frames,
}
use qrx_node_suite.Updates.{Controller}
use qrx_node_suite.Updates.Install.{
  Manager, InstallOptions, Offer, fetch_verified_manifest, pass_lock, window_open, pass_window,
  channel_of, offered, pin_allows, pass_pin, controller_of, matrix_check, is_current, gates,
}

module _ (m : Manager) where
  -- A manifest that its channel's source offers: signed, and not older than the last one seen.
  pub record Verified (s : Settings) (ch : String) (mf : Manifest) : Type 0 where
    pub last_seen : String
    pub is_fetched : mf ≡ m.fetch_manifest ch
    pub is_signed : verify_manifest_signature m.library mf m.public_key ≡ none
    pub seen_before : last_released_at ch s ≡ ok last_seen
    pub is_fresh : check_not_replayed m.library mf last_seen ≡ none

  abbrev pub Unlocked : InstallOptions → Settings → Type 0
  Unlocked opts s = (l : Bool) × (locked s ≡ ok l) × ((not l || opts.force) ≡ true)

  abbrev pub InWindow : InstallOptions → Settings → Type 0
  InWindow opts s =
      (opts.manual ≡ true)
      ⊎ ((w : Option ScheduledWindow) × (scheduled_window s ≡ ok w) × (window_open m w ≡ true))

  abbrev pub PinAllows : String → Settings → String → Type 0
  PinAllows component s version =
      (p : Option String) × (pinned component s ≡ ok p) × (pin_allows m p version ≡ true)

  -- Every gate of Install, passed by the offer.
  pub record Accepted (component : String) (opts : InstallOptions) (v : View) (o : Offer)
      : Type 0 where
    pub unlocked : Unlocked opts v.0
    pub in_window : InWindow opts v.0
    pub verified : Verified v.0 o.channel o.manifest
    pub is_offered : find_component component o.manifest.components ≡ some o.update
    pub pin : PinAllows component v.0 o.update.version
    pub from_current : o.current ≡ v.1.current
    pub is_new : is_current m v.1.current o.update.version ≡ false
    pub no_downgrade :
        check_not_downgrade (shown v.1.current) o.update.version opts.allow_downgrade ≡ none
    pub not_previous : names v.1.previous o.update.version ≡ false
    pub compatible :
        check_compatibility o.update m.current_versions.suite_version
          m.current_versions.qrx_core_version m.current_versions.adapter_version
        ≡ none
    pub controlled : m.controllers component ≡ some o.controller
    pub matrix_allows : matrix_check m m.matrix o.controller.adapter_name o.update.version ≡ none

  pub fetch-Frames :
      (ch : String) {v : View} → Frames (fetch_verified_manifest m ch) v (λ mf. Verified v.0 ch mf)
  unfolding fetch_verified_manifest
  fetch-Frames ch {v} = Frames-bind _ outside-Frames λ a x.
      Frames-bind _
        (check-Frames (verify_manifest_signature m.library (m.fetch_manifest ch) m.public_key))
        λ b sig. Frames-bind _ (asks-Frames (last_released_at ch)) λ last seen.
          Frames-bind _ (check-Frames (check_not_replayed m.library (m.fetch_manifest ch) last))
            λ c fresh. Frames-weaken (done-Frames (m.fetch_manifest ch)) λ mf e. record {
              last_seen = last;
              is_fetched = e;
              is_signed = rw e sig;
              seen_before = seen;
              is_fresh = rw e fresh;
            }

  pass_lock-Frames :
      (opts : InstallOptions) {v : View} → Frames (pass_lock m opts) v (λ a. Unlocked opts v.0)
  unfolding pass_lock
  pass_lock-Frames opts =
      Frames-bind _ (asks-Frames locked)
        λ l h. Frames-weaken (guard-Frames (not l || opts.force) _) (λ a p. (l, h, p))

  pass_window-Frames :
      (opts : InstallOptions) {v : View} → Frames (pass_window m opts) v (λ a. InWindow opts v.0)
  unfolding pass_window
  pass_window-Frames opts {v} = go opts.manual refl
    where
      windowed :
          Frames
            (asks scheduled_window >>= λ w. guard (window_open m w) outside_window)
            v
            (λ a. InWindow opts v.0)
      windowed = Frames-bind _ (asks-Frames scheduled_window) λ w h.
          Frames-weaken (guard-Frames (window_open m w) outside_window) (λ a p. inr (w, h, p))

      go :
          (b : Bool)
          → opts.manual ≡ b
          → Frames
              (if b
                then done tt
                else (asks scheduled_window >>= λ w. guard (window_open m w) outside_window))
              v
              (λ a. InWindow opts v.0)
      go true e = Frames-weaken (done-Frames tt) (λ a p. inl e)
      go false e = windowed

  channel-Frames :
      (opts : InstallOptions) (component : String) {v : View}
      → Frames (channel_of m opts component) v (λ a. Unit {0})
  unfolding channel_of
  channel-Frames opts component {v} = go (opts.channel == "")
    where
      go :
          (b : Bool)
          → Frames (if b then asks (channel component) else done opts.channel) v (λ a. Unit {0})
      go true = Frames-weaken (asks-Frames (channel component)) (λ a p. tt)
      go false = Frames-weaken (done-Frames opts.channel) (λ a p. tt)

  offered-Frames :
      (component : String) (mf : Manifest) {v : View}
      → Frames (offered m component mf) v (λ c. find_component component mf.components ≡ some c)
  unfolding offered
  offered-Frames component mf {v} = go (find_component component mf.components) refl
    where
      go :
          (o : Option ComponentUpdate)
          → find_component component mf.components ≡ o
          → Frames
              (elim o [ none ↦ fail (no_update_for_component component) | some c ↦ done c ])
              v
              (λ c. find_component component mf.components ≡ some c)
      go none e = fail-Frames (no_update_for_component component)
      go (some c) e = Frames-weaken (done-Frames c) (λ d p. rw p e)

  pub controller-Frames :
      (component : String) {v : View}
      → Frames (controller_of m component) v (λ c. m.controllers component ≡ some c)
  unfolding controller_of
  controller-Frames component {v} = go (m.controllers component) refl
    where
      go :
          (o : Option Controller)
          → m.controllers component ≡ o
          → Frames
              (elim o [ none ↦ fail (unknown_component component) | some c ↦ done c ])
              v
              (λ c. m.controllers component ≡ some c)
      go none e = fail-Frames (unknown_component component)
      go (some c) e = Frames-weaken (done-Frames c) (λ d p. rw p e)

  pin-Frames :
      (component : String) (c : ComponentUpdate) {v : View}
      → Frames (pass_pin m component c) v (λ a. PinAllows component v.0 c.version)
  unfolding pass_pin
  pin-Frames component c =
      Frames-bind _ (asks-Frames (pinned component))
        λ p h. Frames-weaken (guard-Frames (pin_allows m p c.version) _) (λ a q. (p, h, q))

  pub current-Frames : {v : View} → Frames (on_store read_current) v (λ cur. cur ≡ v.1.current)
  current-Frames = on_store-Frames (read_current_ends (λ e. refl))

  pub previous-Frames : {v : View} → Frames (on_store read_previous) v (λ prev. prev ≡ v.1.previous)
  previous-Frames = on_store-Frames (read_previous_ends (λ e. refl))

  pub not-true : (b : Bool) → not b ≡ true → b ≡ false
  not-true b h = ground arith

  accepted :
      (component : String) (opts : InstallOptions) (v : View) (o : Offer) (cur prev : Option String)
      → o.current ≡ cur
      → cur ≡ v.1.current
      → prev ≡ v.1.previous
      → not (is_current m cur o.update.version) ≡ true
      → check_not_downgrade (shown cur) o.update.version opts.allow_downgrade ≡ none
      → not (names prev o.update.version) ≡ true
      → (is_current m v.1.current o.update.version ≡ false)
        × (check_not_downgrade (shown v.1.current) o.update.version opts.allow_downgrade ≡ none)
        × (names v.1.previous o.update.version ≡ false)
        × (o.current ≡ v.1.current)
  accepted component opts v o cur prev oc ec ep new down notprev = (
    ap (λ (x : Option String). is_current m x o.update.version) (sym ec) ∙ not-true _ new,
    ap (λ (x : Option String). check_not_downgrade (shown x) o.update.version opts.allow_downgrade)
          (sym ec)
        ∙ down,
    ap (λ (x : Option String). names x o.update.version) (sym ep) ∙ not-true _ notprev,
    oc ∙ ec,
  )

  -- The gates write nothing to the settings or the disk, and what they hand on has passed them all.
  pub gates-Frames :
      (component : String) (opts : InstallOptions) (v : View)
      → Frames (gates m component opts) v (λ o. Accepted component opts v o)
  unfolding gates
  gates-Frames component opts v = Frames-bind _ (pass_lock-Frames opts) λ a1 lock.
      Frames-bind _ (pass_window-Frames opts) λ a2 win.
        Frames-bind _ (channel-Frames opts component) λ ch a3.
          Frames-bind _ (fetch-Frames ch) λ mf ver.
            Frames-bind _ (offered-Frames component mf) λ c off.
              Frames-bind _ (pin-Frames component c) λ a4 pin.
                Frames-bind _ current-Frames λ cur ecur. Frames-bind _ (guard-Frames _ _) λ a5 new.
                  Frames-bind _ (check-Frames _) λ a6 down.
                    Frames-bind _ previous-Frames λ prev eprev.
                      Frames-bind _ (guard-Frames _ _) λ a7 notprev.
                        Frames-bind _ (check-Frames _) λ a8 compat.
                          Frames-bind _ (controller-Frames component) λ ctrl known.
                            Frames-bind _ (check-Frames _) λ a9 mat.
                              Frames-weaken
                                (done-Frames (record {
                                  channel = ch;
                                  manifest = mf;
                                  update = c;
                                  current = cur;
                                  controller = ctrl;
                                }))
                                λ o e. rw e (
                                  let (x, y, z, t) =
                                    accepted component opts v
                                      (record {
                                        channel = ch;
                                        manifest = mf;
                                        update = c;
                                        current = cur;
                                        controller = ctrl;
                                      })
                                      cur prev refl ecur eprev new down notprev in
                                  record {
                                    unlocked = lock;
                                    in_window = win;
                                    verified = ver;
                                    is_offered = off;
                                    pin = pin;
                                    from_current = t;
                                    is_new = x;
                                    no_downgrade = y;
                                    not_previous = z;
                                    compatible = compat;
                                    controlled = known;
                                    matrix_allows = mat;
                                  })
