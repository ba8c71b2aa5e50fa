-- ===== src/Discovery.antt =====
-- crates/warren-discovery/src/relay.rs and crates/warren-discovery/src/query.rs: the relays that an exit
-- is chosen from, and what a query asks of them. Text is the list of its bytes.
pub mod Selector
pub mod First
pub mod Weighted
use warren_sdk_rs.Prelude.{
  ℕ, ◌+◌, Bool, true, false, not, ◌&&◌, ◌||◌, Option, none, some, List, [], ◌∷◌, any, leb, ◌==◌,
  if◌then◌else◌,
}
use warren_sdk_rs.Ip.{IpAddr, SocketAddr, is_ipv4, is_ipv6}

-- `str::eq_ignore_ascii_case`.
unfoldable pub to_ascii_lowercase : ℕ → ℕ
to_ascii_lowercase b = if leb 0x41 b && leb b 0x5a then b + 0x20 else b

unfoldable pub eq_ignore_ascii_case : List ℕ → List ℕ → Bool
unfolding to_ascii_lowercase
eq_ignore_ascii_case [] [] = true
eq_ignore_ascii_case [] (c ∷ cs) = false
eq_ignore_ascii_case (b ∷ bs) [] = false
eq_ignore_ascii_case (b ∷ bs) (c ∷ cs) =
    (to_ascii_lowercase b == to_ascii_lowercase c) && eq_ignore_ascii_case bs cs

pub record Location : Type 0 where
  pub country_code : List ℕ
  pub city : List ℕ

pub record Relay : Type 0 where
  pub endpoint_id : List ℕ
  pub exit_id : List ℕ
  pub addrs : List SocketAddr
  pub location : Location
  pub weight : ℕ
  pub active : Bool
  pub ipv6_egress : Bool
  pub cover_domain : Option (List ℕ)
  pub port_forward : Option Bool
  pub tcp_fallback : Option Bool

unfoldable pub has_ipv4 : Relay → Bool
unfolding any
has_ipv4 relay = any (λ addr. is_ipv4 addr.ip) relay.addrs

unfoldable pub has_ipv6 : Relay → Bool
unfolding any
has_ipv6 relay = any (λ addr. is_ipv6 addr.ip) relay.addrs

unfoldable pub supports_port_forward : Relay → Bool
supports_port_forward relay = elim relay.port_forward [ none ↦ false | some enabled ↦ enabled ]

unfoldable pub supports_tcp_fallback : Relay → Bool
supports_tcp_fallback relay = elim relay.tcp_fallback [ none ↦ false | some enabled ↦ enabled ]

pub data LocationConstraint : Type 0 where
  any_location : LocationConstraint
  country : List ℕ → LocationConstraint
  city : List ℕ → List ℕ → LocationConstraint

pub data IpAvailability : Type 0 where
  both ipv4_only ipv6_only : IpAvailability

pub record ExitQuery : Type 0 where
  pub location : LocationConstraint
  pub ip_availability : IpAvailability
  pub require_ipv6_egress : Bool
  pub require_port_forward : Bool

unfoldable pub any_query : ExitQuery
any_query = record {
  location = any_location;
  ip_availability = both;
  require_ipv6_egress = false;
  require_port_forward = false;
}

unfoldable pub with_location : ExitQuery → LocationConstraint → ExitQuery
with_location query location = record query { location = location }

unfoldable pub country_query : List ℕ → ExitQuery
unfolding any_query with_location
country_query code = with_location any_query (country code)

unfoldable pub with_ip_availability : ExitQuery → IpAvailability → ExitQuery
with_ip_availability query ip = record query { ip_availability = ip }

unfoldable pub with_require_ipv6_egress : ExitQuery → Bool → ExitQuery
with_require_ipv6_egress query require = record query { require_ipv6_egress = require }

unfoldable pub with_require_port_forward : ExitQuery → Bool → ExitQuery
with_require_port_forward query require = record query { require_port_forward = require }

unfoldable pub location_matches : LocationConstraint → Relay → Bool
unfolding eq_ignore_ascii_case
location_matches any_location relay = true
location_matches (country code) relay = eq_ignore_ascii_case relay.location.country_code code
location_matches (city country_code name) relay =
    eq_ignore_ascii_case relay.location.country_code country_code
    && eq_ignore_ascii_case relay.location.city name

unfoldable pub ip_matches : IpAvailability → Relay → Bool
unfolding has_ipv4 has_ipv6
ip_matches both relay = has_ipv4 relay || has_ipv6 relay
ip_matches ipv4_only relay = has_ipv4 relay
ip_matches ipv6_only relay = has_ipv6 relay

unfoldable pub matches : ExitQuery → Relay → Bool
unfolding location_matches ip_matches supports_port_forward
matches query relay =
    if not relay.active
    then false
    else if not (location_matches query.location relay)
    then false
    else if not (ip_matches query.ip_availability relay)
    then false
    else if query.require_ipv6_egress && not relay.ipv6_egress
    then false
    else if query.require_port_forward && not (supports_port_forward relay)
    then false
    else true
