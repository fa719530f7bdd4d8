-- ===== src/Updates/Install/Passing.antt =====
-- agent/updates/manager.go, Install: where no call fails, the gates hand on every offer that passes them.
use qrx_node_suite.Prelude.{
  ◌≡◌, ◌⊎◌, refl, sym, ap, arith, inl, inr, String, Bool, true, false, not, ◌||◌, Option, some,
  ◌==◌, eq_iff, if◌then◌else◌,
}
use qrx_node_suite.Errors.{ok, outside_window}
use qrx_node_suite.Exec.{◌>>=◌, done, guard}
use qrx_node_suite.Policy.{locked, scheduled_window, channel, pinned}
use qrx_node_suite.Manifest.{Manifest, ComponentUpdate, component as find_component}
use qrx_node_suite.World.{asks}
use qrx_node_suite.World.Ends.{View}
use qrx_node_suite.World.Yields.{
  Yields, Yields-bind, outside-Yields, asks-Yields, guard-Yields, check-Yields, done-Yields,
  current-Yields, previous-Yields,
}
use qrx_node_suite.Updates.{Controller}
use qrx_node_suite.Updates.Install.{
  Manager, InstallOptions, Offer, fetch_verified_manifest, pass_lock, window_open, pass_window,
  channel_of, offered, pass_pin, controller_of, gates,
}
use qrx_node_suite.Updates.Install.Accepted.{Verified, Unlocked, InWindow, PinAllows, Accepted}

not-false : (b : Bool) → b ≡ false → not b ≡ true
not-false b h = ground arith

module _ (m : Manager) {v : View} where
  fetch-Yields :
      (ch : String) {mf : Manifest}
      → Verified m v.0 ch mf
      → Yields (fetch_verified_manifest m ch) v mf
  unfolding fetch_verified_manifest
  fetch-Yields ch {mf} k = Yields-bind _ outside-Yields (
      Yields-bind _ (check-Yields _ (rw (sym k.is_fetched) k.is_signed)) (
        Yields-bind _ (asks-Yields _ k.seen_before) (
          Yields-bind _ (check-Yields _ (rw (sym k.is_fetched) k.is_fresh))
            (done-Yields (sym k.is_fetched)))))

  pass_lock-Yields : (opts : InstallOptions) → Unlocked m opts v.0 → Yields (pass_lock m opts) v tt
  unfolding pass_lock
  pass_lock-Yields opts (l, h, p) =
      Yields-bind _ (asks-Yields locked h) (guard-Yields (not l || opts.force) _ p)

  pass_window-Yields :
      (opts : InstallOptions) → InWindow m opts v.0 → Yields (pass_window m opts) v tt
  unfolding pass_window
  pass_window-Yields opts k = go opts.manual refl
    where
      go :
          (b : Bool)
          → opts.manual ≡ b
          → Yields
              (if b
                then done tt
                else (asks scheduled_window >>= λ w. guard (window_open m w) outside_window))
              v
              tt
      go true e = done-Yields refl
      go false e = elim k [
        | inl q ↦ cc
        | inr (w, h, p) ↦
            Yields-bind _ (asks-Yields scheduled_window h) (guard-Yields (window_open m w) _ p)
      ]

  channel-Yields :
      (opts : InstallOptions) (component : String) {ch : String}
      → channel component v.0 ≡ ok ch
      → (opts.channel ≡ "") ⊎ (opts.channel ≡ ch)
      → Yields (channel_of m opts component) v ch
  unfolding channel_of
  channel-Yields opts component {ch} h k = go (opts.channel == "") refl
    where
      named : (opts.channel == "") ≡ false → opts.channel ≡ ch
      named e = ground (arith, eq_iff opts.channel "")

      go :
          (b : Bool)
          → (opts.channel == "") ≡ b
          → Yields (if b then asks (channel component) else done opts.channel) v ch
      go true e = asks-Yields (channel component) h
      go false e = done-Yields (named e)

  offered-Yields :
      (component : String) (mf : Manifest) {c : ComponentUpdate}
      → find_component component mf.components ≡ some c
      → Yields (offered m component mf) v c
  unfolding offered
  offered-Yields component mf h = rw (h, offered) (done-Yields refl)

  controller-Yields :
      (component : String) {c : Controller}
      → m.controllers component ≡ some c
      → Yields (controller_of m component) v c
  unfolding controller_of
  controller-Yields component h = rw (h, controller_of) (done-Yields refl)

  pin-Yields :
      (component : String) (c : ComponentUpdate)
      → PinAllows m component v.0 c.version
      → Yields (pass_pin m component c) v tt
  unfolding pass_pin
  pin-Yields component c (p, h, q) =
      Yields-bind _ (asks-Yields (pinned component) h) (guard-Yields _ _ q)

  -- An offer that passes every gate, on the channel of the options or of the settings, is what the
  -- gates return.
  pub gates-Yields :
      (component : String) (opts : InstallOptions) (o : Offer)
      → Accepted m component opts v o
      → channel component v.0 ≡ ok o.channel
      → (opts.channel ≡ "") ⊎ (opts.channel ≡ o.channel)
      → Yields (gates m component opts) v o
  unfolding gates
  gates-Yields component opts o k c on = Yields-bind _ (pass_lock-Yields opts k.unlocked) (
      Yields-bind _ (pass_window-Yields opts k.in_window) (
        Yields-bind _ (channel-Yields opts component c on) (
          Yields-bind _ (fetch-Yields o.channel k.verified) (
            Yields-bind _ (offered-Yields component o.manifest k.is_offered) (
              Yields-bind _ (pin-Yields component o.update k.pin) (
                Yields-bind _ current-Yields (
                  Yields-bind _ (guard-Yields _ _ (not-false _ k.is_new)) (
                    Yields-bind _ (check-Yields _ k.no_downgrade) (
                      Yields-bind _ previous-Yields (
                        Yields-bind _ (guard-Yields _ _ (not-false _ k.not_previous)) (
                          Yields-bind _ (check-Yields _ k.compatible) (
                            Yields-bind _ (controller-Yields component k.controlled) (
                              Yields-bind _ (check-Yields _ k.matrix_allows) (
                                done-Yields (
                                  ap (λ (x : Option String). record o { current = x })
                                    (sym k.from_current))))))))))))))))
