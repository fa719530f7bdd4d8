-- ===== src/Server/Guarded.antt =====
-- agent/api/server.go: who can make the agent change anything.
use qrx_node_suite.Prelude.{
  ◌≡◌, ◌≢◌, ◌⊎◌, refl, ap, sym, ◌∙◌, inl, inr, String, Bool, true, false, not, ◌&&◌, ◌||◌, Option,
  none, some, List, [], ◌∷◌, ◌++◌, map, codes, ◌==◌, Bool-cases, if◌then◌else◌,
}
use mathlib.Core.Path.{subst}
use qrx_node_suite.Node.{Models}
use qrx_node_suite.Api.{
  Net, Answer, admitted, forbidden, unauthorized, require_admin, is_allowed_host,
}
use qrx_node_suite.Api.Admin.{require_admin_iff, require_admin-actor}
use qrx_node_suite.Server.{
  Endpoint, Route, routes, find_route, Mux, handle, guarded, dispatch, routed, serve,
}
use qrx_node_suite.Server.Http.{Deps, Request, Response}
use qrx_node_suite.Server.Reading.{is_mutating, ReadsOnly, handle-Still}

-- Every endpoint that acts stands behind RequireAdmin.
abbrev pub is_guarded : Route → Bool
is_guarded r = r.is_admin || not (is_mutating r.endpoint)

all_guarded : List Route → Bool
all_guarded [] = true
all_guarded (r ∷ rest) = is_guarded r && all_guarded rest

some_eq : {A : Type 0} {a b : A} → some a ≡ some b → a ≡ b
some_eq h = cc

both_true : (a b : Bool) → (a && b) ≡ true → (a ≡ true) × (b ≡ true)
both_true true b h = (refl, h)
both_true false b h = cc

picked :
    (b : Bool) (x : Route) (found : Option Route) {r : Route}
    → is_guarded x ≡ true
    → (found ≡ some r → is_guarded r ≡ true)
    → (if b then some x else found) ≡ some r
    → is_guarded r ≡ true
picked true x found h k e = subst (λ (z : Route). is_guarded z ≡ true) (some_eq e) h
picked false x found h k e = k e

find_route-guarded :
    (pattern : String) (rs : List Route) {r : Route}
    → all_guarded rs ≡ true
    → find_route pattern rs ≡ some r
    → is_guarded r ≡ true
unfolding find_route all_guarded
find_route-guarded pattern [] h e = cc
find_route-guarded pattern (x ∷ rs) h e =
    let g = both_true (is_guarded x) (all_guarded rs) h in
    picked (x.pattern == pattern) x (find_route pattern rs) g.0 (find_route-guarded pattern rs g.1)
      e

routes_guarded : all_guarded routes ≡ true
unfolding routes all_guarded is_mutating
routes_guarded = refl

-- The request came to an address of this machine or a private one, and bears the agent's token.
pub record Authorized {m : Models} {W : Type 0} (d : Deps m W) (net : Net) (req : Request)
    : Type 0 where
  pub is_local : is_allowed_host net req.host ≡ true
  pub has_token : d.admin_token ≢ ""
  pub bears : codes req.authorization ≡ codes "Bearer " ++ codes d.admin_token

module _ {m : Models} {W V : Type 0} (view : W → V) (d : Deps m W) (reads : ReadsOnly view d)
    (net : Net) (mux : Mux) (req : Request) where
  -- What the request changed is the work of one endpoint that acts.
  pub record Acted (w : W) (after : Response m × W) : Type 0 where
    pub endpoint : Endpoint
    pub chosen : (r : Route) × (routed d mux req ≡ some r) × (r.endpoint ≡ endpoint)
    pub acts : is_mutating endpoint ≡ true
    pub result : after ≡ handle d endpoint req "admin" w

  abbrev pub Permitted : W → Response m × W → Type 0
  Permitted w after = (view after.1 ≡ view w) ⊎ (Authorized d net req × Acted w after)

  guarded-Permitted :
      (a : Answer) (e : Endpoint) (w : W)
      → (r : Route) × (routed d mux req ≡ some r) × (r.endpoint ≡ e)
      → is_allowed_host net req.host ≡ true
      → require_admin d.admin_token req.authorization ≡ a
      → Permitted w (guarded d a e req w)
  unfolding guarded
  guarded-Permitted forbidden e w c l q = inl refl
  guarded-Permitted unauthorized e w c l q = inl refl
  guarded-Permitted (admitted actor) e w c l q = acting (is_mutating e) refl
    where
      bearer : require_admin d.admin_token req.authorization ≡ admitted "admin"
      bearer = require_admin-actor d.admin_token req.authorization q

      authorized : Authorized d net req
      authorized =
          let k = (require_admin_iff d.admin_token req.authorization).0 bearer in
          record { is_local = l; has_token = k.0; bears = k.1 }

      same_actor : {a b : String} → admitted a ≡ admitted b → a ≡ b
      same_actor h = cc

      acting : (b : Bool) → is_mutating e ≡ b → Permitted w (handle d e req actor w)
      acting true p = inr (
        authorized,
        record {
          endpoint = e;
          chosen = c;
          acts = p;
          result = ap (λ x. handle d e req x w) (same_actor (sym q ∙ bearer));
        },
      )
      acting false p = inl ((handle-Still view d reads e req actor p).at w)

  dispatch-Permitted :
      (o : Option Route) (w : W)
      → is_allowed_host net req.host ≡ true
      → routed d mux req ≡ o
      → ((r : Route) → o ≡ some r → is_guarded r ≡ true)
      → Permitted w (dispatch d o req w)
  unfolding dispatch
  dispatch-Permitted none w l c h = inl refl
  dispatch-Permitted (some r) w l c h = which r.is_admin refl (h r refl)
    where
      open_endpoint : (b c : Bool) → b ≡ false → (b || not c) ≡ true → c ≡ false
      open_endpoint true c p q = cc
      open_endpoint false true p q = cc
      open_endpoint false false p q = refl

      which :
          (b : Bool)
          → r.is_admin ≡ b
          → is_guarded r ≡ true
          → Permitted w (
              (if b
                  then guarded d (require_admin d.admin_token req.authorization) r.endpoint req
                  else handle d r.endpoint req "unknown")
                w)
      which true p g = guarded-Permitted _ r.endpoint w (r, c, refl) l refl
      which false p g = inl (
          (handle-Still view d reads r.endpoint req "unknown"
              (open_endpoint r.is_admin (is_mutating r.endpoint) p g)).at
            w)

  routed-guarded : (r : Route) → routed d mux req ≡ some r → is_guarded r ≡ true
  unfolding routed
  routed-guarded r = go (mux (map (λ (x : Route). x.pattern) routes) req.method req.path)
    where
      go :
          (o : Option String)
          → elim o as (λ k. Option Route) [ none ↦ none | some pattern ↦ find_route pattern routes ]
            ≡ some r
          → is_guarded r ≡ true
      go none e = cc
      go (some pattern) e = find_route-guarded pattern routes routes_guarded e

  -- Whatever the router chooses, a request changes nothing behind the API, or it came to a local Host
  -- with the bearer of a configured token, and what it did is the work of the endpoint that the router
  -- chose, one that acts. The parts behind the API promise that a check and a list change nothing.
  pub serve-Permitted : (w : W) → Permitted w (serve d net mux req w)
  unfolding serve
  serve-Permitted w = elim (Bool-cases (is_allowed_host net req.host)) [
    | inl y ↦ rw y (dispatch-Permitted (routed d mux req) w y refl routed-guarded)
    | inr n ↦ rw n (inl refl)
  ]
