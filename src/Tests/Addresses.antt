-- ===== src/Tests/Addresses.antt =====
-- The plan of plan.rs and the checks of conf.rs over networks that are a base and a prefix.
use Prim.Native.Nat.{bit_and}
use warren_sdk_rs.Prelude.{
  List, ap, sym, ℕ, ◌^◌, Bool, true, false, not, ◌&&◌, Option, none, some, [], ◌∷◌, ◌≡◌, ◌↔◌, refl,
  ltb, leb, ◌==◌, any, arith,
}
use warren_sdk_rs.Plan.{in_net, v4, mask, Networks, net4, net6, complement}
use warren_sdk_rs.Prelude.Outcomes.{is_ok}
use warren_sdk_rs.Plan.Prefixes.{Aligned, Lawful}
use warren_sdk_rs.Plan.Complement.{covers, Fits, complement-covers}
use warren_sdk_rs.Plan.Peers.{new, PeerPlan, address_for, gateway_v4, gateway_v6}
use warren_sdk_rs.Plan.Peers.Overlap.{Built, new-Built}
use warren_sdk_rs.Plan.Peers.Assignment.{Assigned, address_for-Assigned}
use warren_sdk_rs.Conf.{PeerConf, check_peers}
use warren_sdk_rs.Conf.Rules.{Granted}
use warren_sdk_rs.Conf.Accepted.{check_peers-Granted}

record Net (w : ℕ) : Type 0 where
  base : ℕ
  prefix : ℕ
  aligned : Aligned w (base, prefix)

abbrev accepted : ℕ → ℕ → ℕ → Bool
accepted w base prefix = leb prefix w && ltb base (2 ^ w) && (bit_and base (mask w prefix) == base)

module _ (w base prefix : ℕ) where
  accepted-Aligned : accepted w base prefix ≡ true → Aligned w (base, prefix)
  accepted-Aligned h = record {
    short = ground (arith, h);
    low = ground (arith, h);
    clear = ground (arith, h);
  }

  Aligned-accepted : Aligned w (base, prefix) → accepted w base prefix ≡ true
  Aligned-accepted h = ground (arith, h.short, h.low, h.clear)

  unfoldable make : (b : Bool) → accepted w base prefix ≡ b → Option (Net w)
  make true h = some (record { base = base; prefix = prefix; aligned = accepted-Aligned h })
  make false h = none

  make-some :
      (b : Bool) (h : accepted w base prefix ≡ b)
      → b ≡ true
      → (net : Net w) × (make b h ≡ some net) × (net.base ≡ base) × (net.prefix ≡ prefix)
  unfolding make
  make-some true h e =
      (record { base = base; prefix = prefix; aligned = accepted-Aligned h }, refl, refl, refl)
  make-some false h e = absurd (ground (arith, e))

unfoldable nets : (w : ℕ) → Networks (Net w)
unfolding make
nets w = record {
  new = λ base prefix. make w base prefix _ refl;
  network_address = λ net. net.base;
  netmask = λ net. net.prefix;
  contains = λ net a. bit_and a (mask w net.prefix) == net.base;
}

nets-Lawful : (w : ℕ) → Lawful w (nets w)
unfolding nets in_net
nets-Lawful w = record {
  valid = λ net. net.aligned;
  accepts = λ base prefix h. make-some w base prefix _ refl (Aligned-accepted w base prefix h);
  member = λ net a h. ap (λ (t : ℕ). bit_and a (mask w net.prefix) == t) (sym net.aligned.clear);
}

-- 192.168.0.0/16, 10.67.0.0/24 and fd77:6172:7265::/64.
abbrev lan : Net 32
unfolding mask
lan = record {
  base = 0xc0a80000;
  prefix = 16;
  aligned = record { short = omega arith; low = omega arith; clear = refl };
}

abbrev peers : Net 32
unfolding mask
peers = record {
  base = 0x0a430000;
  prefix = 24;
  aligned = record { short = omega arith; low = omega arith; clear = refl };
}

abbrev peers6 : Net 128
unfolding mask
peers6 = record {
  base = 0xfd776172726500000000000000000000;
  prefix = 64;
  aligned = record { short = omega arith; low = omega arith; clear = refl };
}

lan-Fits : Fits (v4 0xc0a80107)
unfolding Fits
lan-Fits = omega arith

complement-covers_example :
    any
      (covers (nets 32) (nets 128) (v4 0xc0a80107))
      (complement (nets 32) (nets 128) (net4 lan ∷ []))
    ≡ not (any (covers (nets 32) (nets 128) (v4 0xc0a80107)) (net4 lan ∷ []))
complement-covers_example =
    complement-covers (nets 32) (nets 128) (nets-Lawful 32) (nets-Lawful 128) (v4 0xc0a80107)
      (net4 lan ∷ []) lan-Fits

new-Built_example :
    Built (nets 32) (nets 128) peers peers6 (new (nets 32) (nets 128) (net4 peers) (net6 peers6))
new-Built_example = new-Built (nets 32) (nets 128) (nets-Lawful 32) (nets-Lawful 128) peers peers6

abbrev plan : PeerPlan (Net 32) (Net 128)
plan = record { subnet_v4 = peers; subnet_v6 = peers6 }

address_for-Assigned_example :
    Assigned
      (0x0a430000, 24)
      (0xfd776172726500000000000000000000, 64)
      (gateway_v4 (nets 32) (nets 128) plan, gateway_v6 (nets 32) (nets 128) plan)
      7
      (address_for (nets 32) (nets 128) plan 7)
unfolding nets peers peers6
address_for-Assigned_example =
    address_for-Assigned (nets 32) (nets 128) (nets-Lawful 32) (nets-Lawful 128) plan 7
      (omega arith)

-- Two peers of the subnet, with keys and labels of one byte.
abbrev peer_of : ℕ → PeerConf (Net 32) (Net 128)
unfolding mask
peer_of name = record {
  label = name ∷ [];
  public = name ∷ [];
  psk = none;
  allowed = net4 peers ∷ [];
}

abbrev declared : List (PeerConf (Net 32) (Net 128))
declared = peer_of 1 ∷ peer_of 2 ∷ []

check_peers-Granted_example :
    (is_ok (check_peers (nets 32) (nets 128) declared) ≡ true)
    ↔ Granted (nets 32) (nets 128) declared
check_peers-Granted_example =
    check_peers-Granted (nets 32) (nets 128) (nets-Lawful 32) (nets-Lawful 128) declared
