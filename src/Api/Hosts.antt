-- ===== src/Api/Hosts.antt =====
-- agent/api/hostcheck.go: which Host headers are allowed.
use qrx_node_suite.Prelude.{
  ◌≡◌, ◌≢◌, ◌⊎◌, refl, inl, inr, String, Bool, true, false, ◌||◌, Option, none, some, List, [], ◌∷◌,
  if◌then◌else◌, ◌==◌, arith, eq_iff, Bool-cases,
}
use qrx_node_suite.Api.{
  Net, hostname, any_equal, is_local_interface_ip, is_allowed_address, is_allowed_host,
}

module _ (net : Net) where
  -- The address equals that of an interface of this machine.
  pub data Local (ip : net.Ip) : List (Option net.Ip) → Type 0 where
    here :
        {a : net.Ip} {addrs : List (Option net.Ip)}
        → net.equal a ip ≡ true
        → Local ip (some a ∷ addrs)
    there :
        {o : Option net.Ip} {addrs : List (Option net.Ip)} → Local ip addrs → Local ip (o ∷ addrs)

  any_equal-Local :
      (addrs : List (Option net.Ip)) (ip : net.Ip) → any_equal net addrs ip ≡ true → Local ip addrs
  unfolding any_equal
  any_equal-Local [] ip h = cc
  any_equal-Local (none ∷ addrs) ip h = there (any_equal-Local addrs ip h)
  any_equal-Local (some a ∷ addrs) ip h = elim (Bool-cases (net.equal a ip)) [
    | inl y ↦ here y
    | inr n ↦ there (any_equal-Local addrs ip (ground arith))
  ]

  -- An address of this machine or of a private network.
  abbrev pub Near : net.Ip → Type 0
  Near ip =
      (net.is_loopback ip ≡ true)
      ⊎ (net.is_private ip ≡ true)
      ⊎ (net.is_link_local_unicast ip ≡ true)
      ⊎ ((addrs : List (Option net.Ip)) × (net.interface_addrs ≡ some addrs) × Local ip addrs)

  any_of_four :
      {P : Type 0} (a b c d : Bool)
      → (a || b || c || d) ≡ true
      → (d ≡ true → P)
      → (a ≡ true) ⊎ (b ≡ true) ⊎ (c ≡ true) ⊎ P
  any_of_four true b c d h f = inl refl
  any_of_four false true c d h f = inr (inl refl)
  any_of_four false false true d h f = inr (inr (inl refl))
  any_of_four false false false d h f = inr (inr (inr (f h)))

  interface-Local :
      (ip : net.Ip)
      → is_local_interface_ip net ip ≡ true
      → (addrs : List (Option net.Ip)) × (net.interface_addrs ≡ some addrs) × Local ip addrs
  unfolding is_local_interface_ip
  interface-Local ip = forth net.interface_addrs refl
    where
      forth :
          (o : Option (List (Option net.Ip)))
          → net.interface_addrs ≡ o
          → elim o as (λ k. Bool) [ none ↦ false | some addrs ↦ any_equal net addrs ip ] ≡ true
          → (addrs : List (Option net.Ip)) × (net.interface_addrs ≡ some addrs) × Local ip addrs
      forth none e h = cc
      forth (some addrs) e h = (addrs, e, any_equal-Local addrs ip h)

  address-Near :
      (o : Option net.Ip)
      → is_allowed_address net o ≡ true
      → (ip : net.Ip) × (o ≡ some ip) × Near ip
  unfolding is_allowed_address
  address-Near none h = cc
  address-Near (some ip) h = (ip, refl, any_of_four _ _ _ _ h (interface-Local ip))

  -- A Host header that is allowed is not empty, and names `localhost` or an address that is a loopback, a
  -- private, a link-local or one of this machine's interfaces; any other name is refused.
  pub is_allowed_host-Near :
      (host : String)
      → is_allowed_host net host ≡ true
      → let name = hostname net (net.split_host_port host) host in
        (host ≢ "")
        × ((name ≡ "localhost") ⊎ ((ip : net.Ip) × (net.parse_ip name ≡ some ip) × Near ip))
  unfolding is_allowed_host
  is_allowed_host-Near host h =
      allowed (hostname net (net.split_host_port host) host) host (host == "") refl _ refl h
    where
      allowed :
          (name host : String) (b : Bool)
          → (host == "") ≡ b
          → (c : Bool) → (name == "localhost") ≡ c
          → (if b then false else if c then true else is_allowed_address net (net.parse_ip name))
            ≡ true
          → (host ≢ "")
            × ((name ≡ "localhost") ⊎ ((ip : net.Ip) × (net.parse_ip name ≡ some ip) × Near ip))
      allowed name host true e c f k = cc
      allowed name host false e true f k =
          (λ q. ground (arith, eq_iff host ""), inl ((eq_iff name "localhost").0 f))
      allowed name host false e false f k =
          (λ q. ground (arith, eq_iff host ""), inr (address-Near (net.parse_ip name) k))
