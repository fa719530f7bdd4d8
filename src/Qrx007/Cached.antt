-- ===== src/Qrx007/Cached.antt =====
-- agent/adapters/qrx007/qrx007.go: Capabilities probes once.
use qrx_node_suite.Prelude.{
  ◌≡◌, refl, ap, ◌∙◌, String, Bool, Option, none, some, List, [], if◌then◌else◌,
}
use qrx_node_suite.Errors.{ok}
use qrx_node_suite.Exec.{Exec, carry_on, done, modify, ◌>>=◌, outcome}
use qrx_node_suite.QrxCli.Runner.{Config}
use qrx_node_suite.Qrx007.{
  Library, Session, cli, probe, probe_lanes, probe_capabilities, probed, cached, capabilities,
  has_cap, gated,
}

-- Without an error from any session.
record Total {A : Type 0} (x : Exec Session A) : Type 0 where
  at : (s : Session) → (a : A) × (t : Session) × (x s ≡ (ok a, t))

bind-Total :
    {A B : Type 0} (x : Exec Session A) (f : A → Exec Session B)
    → Total x
    → ((a : A) → Total (f a))
    → Total (x >>= f)
unfolding ◌>>=◌
bind-Total x f h k = record { at = λ s. go s (h.at s) }
  where
    go :
        (s : Session)
        → (a : _) × (t : Session) × (x s ≡ (ok a, t))
        → (b : _) × (t : Session) × (carry_on f (x s) ≡ (ok b, t))
    go s (a, t, e) = let r = (k a).at t in (r.0, r.1, ap (carry_on f) e ∙ r.2)

done-Total : {A : Type 0} (a : A) → Total (done a)
done-Total a = record { at = λ s. (a, s, refl) }

outcome-Total : {A : Type 0} (x : Exec Session A) → Total (outcome x)
unfolding outcome
outcome-Total x = record { at = λ s. ((x s).0, (x s).1, refl) }

module _ (l : Library) (cfg : Config) where
  probe-Total : (key command : String) (args : List String) → Total (probe l cfg key command args)
  unfolding probe
  probe-Total key command args =
      bind-Total _ _ (outcome-Total (cli l cfg command args)) (λ r. done-Total _)

  probe_lanes-Total : (o : Option String) → Total (probe_lanes l cfg o)
  unfolding probe_lanes
  probe_lanes-Total none = done-Total []
  probe_lanes-Total (some address) =
      bind-Total _ _ (record { at = λ s. (tt, record s { wallet_address = address }, refl) })
        λ u. bind-Total _ _ (probe-Total _ _ _) λ p. done-Total _

  probe_capabilities-Total : Total (probe_capabilities l cfg)
  unfolding probe_capabilities
  probe_capabilities-Total = bind-Total _ _ (probe-Total _ _ _) λ a.
      bind-Total _ _ (probe-Total _ _ _) λ b. bind-Total _ _ (probe-Total _ _ _) λ c.
        bind-Total _ _ (probe-Total _ _ _) λ d.
          bind-Total _ _ (outcome-Total (cli l cfg "getwalletinfo" []))
            λ wallet. bind-Total _ _ (probe_lanes-Total _) λ lanes. done-Total _

  -- What the first question settles.
  pub record Settled (s : Session) : Type 0 where
    pub caps : List (String × Bool)
    pub after : Session
    pub answers : capabilities l cfg s ≡ (ok caps, after)
    pub kept : after.caps ≡ some caps

  probed-Settled : (s : Session) → s.caps ≡ none → Settled s
  unfolding capabilities probed ◌>>=◌
  probed-Settled s e =
      let p = probe_capabilities-Total.at s in
      record {
        caps = p.0;
        after = record (p.1) { caps = some (p.0) };
        answers =
            ap (λ o. cached l cfg o s) e
            ∙ ap (carry_on λ caps. modify (λ t. record t { caps = some caps }) >>= λ u. done caps)
                p.2;
        kept = refl;
      }

  settled : (s : Session) (o : Option (List (String × Bool))) → s.caps ≡ o → Settled s
  unfolding capabilities
  settled s none e = probed-Settled s e
  settled s (some caps) e = record {
    caps = caps;
    after = s;
    answers = ap (λ o. cached l cfg o s) e;
    kept = e;
  }

  again :
      (t : Session) (caps : List (String × Bool))
      → t.caps ≡ some caps
      → capabilities l cfg t ≡ (ok caps, t)
  unfolding capabilities
  again t caps e = ap (λ o. cached l cfg o t) e

  decided :
      {A : Type 0} (key : String) (u : A) (x : Exec Session A) (t : Session)
      (caps : List (String × Bool))
      → capabilities l cfg t ≡ (ok caps, t)
      → gated l cfg key u x t ≡ (if has_cap key caps then x else done u) t
  unfolding gated ◌>>=◌
  decided key u x t caps e = ap (carry_on λ c. if has_cap key c then x else done u) e

  -- From every session, Capabilities answers, whichever runs of qrx-cli fail. Asked again it answers the
  -- same, runs nothing and changes nothing; and a report behind a capability is then made or refused by
  -- that answer, refused without a run.
  pub capabilities_cached :
      {A : Type 0} (s : Session) (key : String) (u : A) (x : Exec Session A)
      → (caps : List (String × Bool)) × (t : Session) × (capabilities l cfg s ≡ (ok caps, t))
        × (capabilities l cfg t ≡ (ok caps, t))
        × (gated l cfg key u x t ≡ (if has_cap key caps then x else done u) t)
  capabilities_cached s key u x =
      let p = settled s s.caps refl in
      let q = again p.after p.caps p.kept in
      (p.caps, p.after, p.answers, q, decided key u x p.after p.caps q)
