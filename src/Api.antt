-- ===== src/Api.antt =====
-- agent/api/auth.go and agent/api/hostcheck.go: who may call the agent.
--
-- Texts are compared as code points. Host and address parsing is Go's net package, a parameter.
pub mod Admin
pub mod Hosts
pub mod Tests
use qrx_node_suite.Prelude.{
  ℕ, String, Bool, true, false, not, ◌&&◌, ◌||◌, Option, none, some, List, [], ◌∷◌, eqb, codes,
  if◌then◌else◌, ◌==◌,
}

-- What a guarded handler does with a request.
pub data Answer : Type 0 where
  admitted : String → Answer
  forbidden : Answer
  unauthorized : Answer

-- TrimPrefix of a text that HasPrefix accepts.
unfoldable pub after_prefix : List ℕ → List ℕ → Option (List ℕ)
after_prefix [] s = some s
after_prefix (p ∷ ps) [] = none
after_prefix (p ∷ ps) (c ∷ s) = let rest = after_prefix ps s in if eqb p c then rest else none

pub same_bytes : List ℕ → List ℕ → Bool
same_bytes [] [] = true
same_bytes [] (d ∷ t) = false
same_bytes (c ∷ s) [] = false
same_bytes (c ∷ s) (d ∷ t) = eqb c d && same_bytes s t

pub present : List ℕ → Option (List ℕ) → Answer
unfolding same_bytes
present token none = unauthorized
present token (some presented) =
    if not (same_bytes presented token) then unauthorized else admitted "admin"

-- RequireAdmin, on the header Authorization.
pub require_admin : String → String → Answer
unfolding present after_prefix
require_admin admin_token header =
    if admin_token == ""
    then forbidden
    else present (codes admin_token) (after_prefix (codes "Bearer ") (codes header))

-- The net package: the host of a host and port, addresses, and those of the interfaces.
pub record Net : Type 1 where
  pub Ip : Type 0
  pub split_host_port : String → Option String
  pub parse_ip : String → Option Ip
  pub is_loopback : Ip → Bool
  pub is_private : Ip → Bool
  pub is_link_local_unicast : Ip → Bool
  pub equal : Ip → Ip → Bool
  pub interface_addrs : Option (List (Option Ip))

module _ (net : Net) where
  abbrev pub hostname : Option String → String → String
  hostname none host = host
  hostname (some h) host = h

  pub any_equal : List (Option net.Ip) → net.Ip → Bool
  any_equal [] ip = false
  any_equal (none ∷ addrs) ip = any_equal addrs ip
  any_equal (some a ∷ addrs) ip = net.equal a ip || any_equal addrs ip

  pub is_local_interface_ip : net.Ip → Bool
  unfolding any_equal
  is_local_interface_ip ip = elim net.interface_addrs [
    | none ↦ false
    | some addrs ↦ any_equal addrs ip
  ]

  pub is_allowed_address : Option net.Ip → Bool
  unfolding is_local_interface_ip
  is_allowed_address none = false
  is_allowed_address (some ip) =
      net.is_loopback ip
      || net.is_private ip
      || net.is_link_local_unicast ip
      || is_local_interface_ip ip

  pub is_allowed_host : String → Bool
  unfolding is_allowed_address
  is_allowed_host host =
      let name = hostname (net.split_host_port host) host in
      if host == ""
      then false
      else if name == "localhost"
      then true
      else is_allowed_address (net.parse_ip name)
