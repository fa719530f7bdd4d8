-- ===== src/QrxCore/Update.antt =====
-- agent/updates/qrx_core.go, Update: its gates, and where it leaves the disk.
use qrx_node_suite.Prelude.{
  ◌≡◌, refl, ap, String, Bool, true, false, Option, none, some, ◌==◌, if◌then◌else◌,
}
use qrx_node_suite.Errors.{ok, no_update_for_component}
use qrx_node_suite.Exec.{done, fail}
use qrx_node_suite.Policy.{channel, last_released_at}
use qrx_node_suite.Manifest.{Manifest, ComponentUpdate, component as find_component}
use qrx_node_suite.Manifest.Verify.{
  verify_manifest_signature, check_not_replayed, check_not_downgrade,
}
use qrx_node_suite.World.{shown, asks}
use qrx_node_suite.World.Ends.{
  View, Frames, Frames-bind, Frames-weaken, outside-Frames, asks-Frames, guard-Frames, check-Frames,
  done-Frames, fail-Frames, Any,
}
use qrx_node_suite.QrxCore.{
  QrxCoreUpdateManager, UpdateOptions, Offer, qrx_core_component, fetch_verified_manifest,
  channel_of, offered, gates,
}
use qrx_node_suite.QrxCore.Gates.{Safe, refusal-none, profile-Frames, current-Frames}

module _ (m : QrxCoreUpdateManager) where
  -- Every gate of Update, passed by the offer.
  pub record Passed (opts : UpdateOptions) (v : View) (o : Offer) : Type 0 where
    pub last_seen : String
    pub safe : Safe opts.switch o.update.version
    pub is_fetched : o.manifest ≡ m.fetch_manifest o.channel
    pub is_signed : verify_manifest_signature m.library o.manifest m.public_key ≡ none
    pub seen_before : last_released_at o.channel v.0 ≡ ok last_seen
    pub is_fresh : check_not_replayed m.library o.manifest last_seen ≡ none
    pub is_offered : find_component qrx_core_component o.manifest.components ≡ some o.update
    pub from_current : o.from ≡ shown v.1.current
    pub no_downgrade : check_not_downgrade o.from o.update.version opts.allow_downgrade ≡ none

  record Verified (ch : String) (v : View) (mf : Manifest) : Type 0 where
    last_seen : String
    is_fetched : mf ≡ m.fetch_manifest ch
    is_signed : verify_manifest_signature m.library mf m.public_key ≡ none
    seen_before : last_released_at ch v.0 ≡ ok last_seen
    is_fresh : check_not_replayed m.library mf last_seen ≡ none

  fetch-Frames :
      (ch : String) {v : View} → Frames (fetch_verified_manifest m ch) v (λ mf. Verified ch v mf)
  unfolding fetch_verified_manifest
  fetch-Frames ch {v} = Frames-bind _ outside-Frames λ a x.
      Frames-bind _
        (check-Frames (verify_manifest_signature m.library (m.fetch_manifest ch) m.public_key))
        λ b sig. Frames-bind _ (asks-Frames (last_released_at ch)) λ last seen.
          Frames-bind _ (check-Frames (check_not_replayed m.library (m.fetch_manifest ch) last))
            λ c fresh. Frames-weaken (done-Frames (m.fetch_manifest ch)) λ mf e. record {
              last_seen = last;
              is_fetched = e;
              is_signed = rw e sig;
              seen_before = seen;
              is_fresh = rw e fresh;
            }

  channel-Frames : (ch : String) {v : View} → Frames (channel_of m ch) v Any
  unfolding channel_of
  channel-Frames ch {v} = go (ch == "")
    where
      go : (b : Bool) → Frames (if b then asks (channel qrx_core_component) else done ch) v Any
      go true = Frames-weaken (asks-Frames (channel qrx_core_component)) (λ a p. tt)
      go false = Frames-weaken (done-Frames ch) (λ a p. tt)

  offered-Frames :
      (mf : Manifest) {v : View}
      → Frames (offered m mf) v (λ c. find_component qrx_core_component mf.components ≡ some c)
  unfolding offered
  offered-Frames mf {v} = go (find_component qrx_core_component mf.components) refl
    where
      go :
          (o : Option ComponentUpdate)
          → find_component qrx_core_component mf.components ≡ o
          → Frames
              (elim o [
                | none ↦ fail (no_update_for_component qrx_core_component)
                | some c ↦ done c
              ])
              v
              (λ c. find_component qrx_core_component mf.components ≡ some c)
      go none e = fail-Frames (no_update_for_component qrx_core_component)
      go (some c) e = Frames-weaken (done-Frames c) (λ d p. rw p e)

  pub gates-Frames :
      (opts : UpdateOptions) (v : View) → Frames (gates m opts) v (λ o. Passed opts v o)
  unfolding gates
  gates-Frames opts v = Frames-bind _ (profile-Frames m opts.switch) λ p given.
      Frames-bind _ (check-Frames _) λ a1 safe. Frames-bind _ (channel-Frames opts.channel) λ ch a2.
        Frames-bind _ (fetch-Frames ch) λ mf ver. Frames-bind _ (offered-Frames mf) λ c off.
          Frames-bind _ (guard-Frames _ _) λ a3 for. Frames-bind _ current-Frames λ cur q.
            Frames-bind _ (check-Frames _) λ a4 down.
              Frames-weaken
                (done-Frames (record { channel = ch; manifest = mf; update = c; from = shown cur }))
                λ o e. rw e (record {
                  last_seen = ver.last_seen;
                  safe = record {
                    profile = p;
                    is_given = given;
                    is_for = for;
                    is_safe = refusal-none _ safe;
                  };
                  is_fetched = ver.is_fetched;
                  is_signed = ver.is_signed;
                  seen_before = ver.seen_before;
                  is_fresh = ver.is_fresh;
                  is_offered = off;
                  from_current = ap shown q;
                  no_downgrade = down;
                })
