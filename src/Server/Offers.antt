-- ===== src/Server/Offers.antt =====
-- agent/api over agent/updates/manager.go: what a request for an install needs in order to change
-- anything.
use qrx_node_suite.Prelude.{
  ◌≡◌, ◌⊎◌, refl, sym, ◌∙◌, inl, inr, String, Bool, true, false, Option, none, some,
}
use mathlib.Core.Path.{subst}
use qrx_node_suite.Errors.{Result, ok, err}
use qrx_node_suite.Node.{Models}
use qrx_node_suite.Api.{Net}
use qrx_node_suite.World.Ends.{view as world_view}
use qrx_node_suite.Updates.Install.{Manager, InstallOptions, InstallResult, Offer, install}
use qrx_node_suite.Updates.Install.Accepted.{Accepted}
use qrx_node_suite.Updates.Install.Safety.{Authentic, UntouchedOr, install-Accepted}
use qrx_node_suite.Updates.Check.{check_component}
use qrx_node_suite.Updates.Check.Agreement.{check_component-reads}
use qrx_node_suite.Server.{Endpoint, Route, Mux, handle, routed, serve}
use qrx_node_suite.Server.Http.{
  Deps, Request, Response, InstallRequest, UpdateService, Decoded, install_result, response,
  decoded, too_large, malformed, reply, answer, decode_json, accept, configured,
  max_request_body_bytes,
}
use qrx_node_suite.Server.Updates.{handle_updates_install, self_restart, install_from}
use qrx_node_suite.Server.Reading.{ReadsOnly}
use qrx_node_suite.Server.Guarded.{Authorized, Permitted, serve-Permitted}
use qrx_node_suite.Server.Agent.{Agent, view, world_of, focus, focus-view, service, with_manager}

-- The options of an install that comes over the API: it is manual.
abbrev pub options : InstallRequest → InstallOptions
options r = record {
  channel = r.channel;
  allow_downgrade = r.allow_downgrade;
  manual = true;
  force = r.force;
}

service_eq : {s t : UpdateService Agent} → some s ≡ some t → s ≡ t
service_eq h = cc

module _ {ms : Models} (d : Deps ms Agent) (m : Manager) where
  -- The other parts promise what ReadsOnly asks; so does the manager.
  pub with_manager-ReadsOnly :
      (k : String) → ReadsOnly (view k) d → ReadsOnly (view k) (with_manager d m)
  unfolding service
  with_manager-ReadsOnly k reads = record {
    check_reads = λ s p c.
        subst (λ (t : UpdateService Agent). (a : Agent) → view k (t.check c a).1 ≡ view k a)
          (service_eq p)
          (λ a. focus-view c k (check_component m c) a (check_component-reads m c (world_of c a)));
    automatic_reads = reads.automatic_reads;
    alerts_reads = reads.alerts_reads;
    settings_reads = reads.settings_reads;
  }

  -- The body of the request asks for an install whose offer passed every gate and whose artifact
  -- verified, in the state before the request.
  pub record Warranted (req : Request) (a : Agent) : Type 0 where
    pub text : String
    pub sent : req.body ≡ some text
    pub request : InstallRequest
    pub decodes : d.decoder.install_request max_request_body_bytes text ≡ decoded request
    pub offer : Offer
    pub accepted : Accepted m request.component (options request) (view request.component a) offer
    pub authentic : Authentic m request.component offer

  module _
      (restart_keeps : (k : String) (f : Agent → Agent) (a : Agent)
        → d.request_self_restart ≡ some f
        → view k (f a) ≡ view k a) where
    abbrev Untouched : String → Request → Agent → Agent → Type 0
    Untouched k req a b = (view k b ≡ view k a) ⊎ Warranted req a

    restarted-view :
        (k : String) (b : Bool) (o : Option (Agent → Agent)) (a : Agent)
        → d.request_self_restart ≡ o
        → view k (self_restart b o a) ≡ view k a
    restarted-view k true (some f) a p = restart_keeps k f a p
    restarted-view k true none a p = refl
    restarted-view k false o a p = refl

    replied :
        (k : String) (req : Request) (a : Agent) (o : Result InstallResult × Agent)
        → Untouched k req a o.1
        → Untouched k req a
            (reply {m = ms} 409
              (λ r u. (
                response 200 (install_result r),
                self_restart r.pending_restart d.request_self_restart u,
              ))
              o).1
    replied k req a (ok r, u) (inl p) =
        inl (restarted-view k r.pending_restart d.request_self_restart u refl ∙ p)
    replied k req a (ok r, u) (inr w) = inr w
    replied k req a (err e, u) h = h

    installed :
        (k : String) (req : Request) (a : Agent) (text : String) (x : Decoded InstallRequest)
        (actor : String)
        → req.body ≡ some text
        → d.decoder.install_request max_request_body_bytes text ≡ x
        → Untouched k req a (accept x (install_from (with_manager d m) actor) a).1
    unfolding install_from configured answer service
    installed k req a text too_large actor p q = inl refl
    installed k req a text malformed actor p q = inl refl
    installed k req a text (decoded r) actor p q =
        replied k req a (focus r.component (install m r.component (options r)) a)
          (which (install-Accepted m r.component (options r) (world_of r.component a)))
      where
        which :
            UntouchedOr m r.component
              (options r)
              (view r.component a)
              (world_view (install m r.component (options r) (world_of r.component a)).1)
            → Untouched k req a (focus r.component (install m r.component (options r)) a).1
        which (inl same) = inl (focus-view r.component k (install m r.component (options r)) a same)
        which (inr (o, accepted, authentic, worked)) = inr (record {
          text = text;
          sent = p;
          request = r;
          decodes = q;
          offer = o;
          accepted = accepted;
          authentic = authentic;
        })

    handle_install-Untouched :
        (k : String) (req : Request) (actor : String) (a : Agent)
        → Untouched k req a (handle_updates_install (with_manager d m) req actor a).1
    unfolding handle_updates_install decode_json
    handle_install-Untouched k req actor a = go req.body refl
      where
        go :
            (body : Option String)
            → req.body ≡ body
            → Untouched k req a
                (decode_json d.decoder.install_request body
                  (install_from (with_manager d m) actor)
                  a).1
        go none p = inl refl
        go (some text) p =
            installed k req a text (d.decoder.install_request max_request_body_bytes text) actor p
              refl

    by_install :
        (k : String) (req : Request) (a : Agent) (f : Endpoint) (after : Response ms × Agent)
        → f ≡ Endpoint.updates_install
        → after ≡ handle (with_manager d m) f req "admin" a
        → Untouched k req a after.1
    unfolding handle
    by_install k req a f after p q =
        subst (λ (x : Response ms × Agent). Untouched k req a x.1) (sym q)
          (subst (λ (g : Endpoint). Untouched k req a (handle (with_manager d m) g req "admin" a).1)
            (sym p) (handle_install-Untouched k req "admin" a))

    -- A request that the router hands to the install endpoint changes no setting and no component's disk,
    -- or it was authorized, and its body asks for an install whose offer passed every gate and whose
    -- artifact verified. The other parts behind the API, and the restart, leave both alone.
    pub serve-Warranted :
        (net : Net) (mux : Mux) (req : Request) (r : Route)
        → ((k : String) → ReadsOnly (view k) d)
        → routed (with_manager d m) mux req ≡ some r
        → r.endpoint ≡ Endpoint.updates_install
        → (k : String) (a : Agent)
        → (view k (serve (with_manager d m) net mux req a).1 ≡ view k a)
          ⊎ (Authorized (with_manager d m) net req × Warranted req a)
    serve-Warranted net mux req r reads chosen e k a = go (
        serve-Permitted (view k) (with_manager d m) (with_manager-ReadsOnly k (reads k)) net mux req
          a)
      where
        endpoint_of : {s : Route} → some r ≡ some s → r.endpoint ≡ s.endpoint
        endpoint_of h = cc

        decide :
            Authorized (with_manager d m) net req
            → Untouched k req a (serve (with_manager d m) net mux req a).1
            → (view k (serve (with_manager d m) net mux req a).1 ≡ view k a)
              ⊎ (Authorized (with_manager d m) net req × Warranted req a)
        decide auth (inl p) = inl p
        decide auth (inr w) = inr (auth, w)

        go :
            Permitted
              (view k)
              (with_manager d m)
              (with_manager-ReadsOnly k (reads k))
              net
              mux
              req
              a
              (serve (with_manager d m) net mux req a)
            → (view k (serve (with_manager d m) net mux req a).1 ≡ view k a)
              ⊎ (Authorized (with_manager d m) net req × Warranted req a)
        go (inl p) = inl p
        go (inr (auth, act)) = decide auth (
            by_install k req a act.endpoint _
              (sym act.chosen.2 ∙ sym (endpoint_of (sym chosen ∙ act.chosen.1)) ∙ e) act.result)
