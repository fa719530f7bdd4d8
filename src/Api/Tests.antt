-- ===== src/Api/Tests.antt =====
-- A guarded request and a Host header, and the theorems applied to them.
use qrx_node_suite.Prelude.{
  ℕ, ◌≡◌, ◌≢◌, ◌⊎◌, refl, String, true, false, none, some, eqb, if◌then◌else◌, ◌==◌,
}
use qrx_node_suite.Api.{Net, hostname, is_allowed_host, is_allowed_address, is_local_interface_ip}
use qrx_node_suite.Api.Hosts.{Near, is_allowed_host-Near}

abbrev token : String
token = "secret"

abbrev pub host : String
host = "127.0.0.1:8080"

-- Address 1 is the loopback.
abbrev pub net : Net
net = record {
  Ip = ℕ;
  split_host_port = λ host. if host == "127.0.0.1:8080" then some "127.0.0.1" else none;
  parse_ip = λ name. if name == "127.0.0.1" then some 1 else none;
  is_loopback = λ ip. eqb ip 1;
  is_private = λ ip. false;
  is_link_local_unicast = λ ip. false;
  equal = λ a b. eqb a b;
  interface_addrs = none;
}

pub allowed : is_allowed_host net host ≡ true
unfolding is_allowed_host is_allowed_address is_local_interface_ip
allowed = refl

is_allowed_host-Near_example :
    (host ≢ "")
    × ((hostname net (net.split_host_port host) host ≡ "localhost")
        ⊎ ((ip : ℕ) × (net.parse_ip "127.0.0.1" ≡ some ip) × Near net ip))
is_allowed_host-Near_example = is_allowed_host-Near net host allowed
