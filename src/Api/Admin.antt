-- ===== src/Api/Admin.antt =====
-- agent/api/auth.go: RequireAdmin passes exactly the bearer of the token.
use qrx_node_suite.Prelude.{
  ℕ, ◌≡◌, ◌≢◌, ◌↔◌, refl, String, Bool, true, false, Option, none, some, List, [], ◌∷◌, ◌++◌, codes,
  if◌then◌else◌, arith, eq_iff, ◌==◌,
}
use qrx_node_suite.Api.{admitted, forbidden, after_prefix, same_bytes, present, require_admin}

pub after_prefix-append : (p s r : List ℕ) → (after_prefix p s ≡ some r) ↔ (s ≡ p ++ r)
unfolding after_prefix
after_prefix-append [] s r = (λ h. cc, λ h. cc)
after_prefix-append (c ∷ p) [] r = (λ h. cc, λ h. cc)
after_prefix-append (c ∷ p) (d ∷ s) r =
    let k = after_prefix-append p s r in (ground arith, ground arith)

same_bytes_iff : (s t : List ℕ) → (same_bytes s t ≡ true) ↔ (s ≡ t)
unfolding same_bytes
same_bytes_iff [] [] = (λ h. refl, λ h. refl)
same_bytes_iff [] (d ∷ t) = (λ h. cc, λ h. cc)
same_bytes_iff (c ∷ s) [] = (λ h. cc, λ h. cc)
same_bytes_iff (c ∷ s) (d ∷ t) = let r = same_bytes_iff s t in (ground arith, ground arith)

present_iff :
    (token : List ℕ) (o : Option (List ℕ)) → (present token o ≡ admitted "admin") ↔ (o ≡ some token)
unfolding present
present_iff token none = (λ h. cc, λ h. cc)
present_iff token (some p) = let r = same_bytes_iff p token in (ground arith, ground arith)

guarded :
    (b : Bool) (token : List ℕ) (o : Option (List ℕ))
    → ((if b then forbidden else present token o) ≡ admitted "admin")
      ↔ ((b ≡ false) × (o ≡ some token))
guarded true token o = (λ h. cc, λ h. cc)
guarded false token o = let r = present_iff token o in (λ h. (refl, r.0 h), λ h. r.1 h.1)

whoever :
    (b : Bool) (token : List ℕ) (o : Option (List ℕ)) {actor : String}
    → (if b then forbidden else present token o) ≡ admitted actor
    → (if b then forbidden else present token o) ≡ admitted "admin"
unfolding present
whoever true token o h = cc
whoever false token none h = cc
whoever false token (some p) h = ground arith

unequal : (s t : String) → (((s == t) ≡ false) → (s ≢ t)) × ((s ≢ t) → ((s == t) ≡ false))
unequal s t = (λ h e. ground (arith, eq_iff s t), λ h. ground (arith, eq_iff s t))

-- A request is admitted exactly if a token is configured and the header Authorization is `Bearer ` and
-- that token.
pub require_admin_iff :
    (admin_token header : String)
    → (require_admin admin_token header ≡ admitted "admin")
      ↔ ((admin_token ≢ "") × (codes header ≡ codes "Bearer " ++ codes admin_token))
unfolding require_admin
require_admin_iff admin_token header =
    let g =
      guarded (admin_token == "") (codes admin_token)
        (after_prefix (codes "Bearer ") (codes header)) in
    let a = after_prefix-append (codes "Bearer ") (codes header) (codes admin_token) in
    let u = unequal admin_token "" in
    (λ h. (u.0 (g.0 h).0, a.0 (g.0 h).1), λ h. g.1 (u.1 h.0, a.1 h.1))

-- Whoever is admitted is the one principal there is.
pub require_admin-actor :
    (admin_token header : String) {actor : String}
    → require_admin admin_token header ≡ admitted actor
    → require_admin admin_token header ≡ admitted "admin"
unfolding require_admin
require_admin-actor admin_token header =
    whoever (admin_token == "") (codes admin_token) (after_prefix (codes "Bearer ") (codes header))
