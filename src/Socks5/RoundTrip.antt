-- ===== src/Socks5/RoundTrip.antt =====
-- What is built is parsed back, whatever follows it.
use warren_sdk_rs.Prelude.{
  ℕ, suc, ◌+◌, ◌/◌, ◌%◌, ◌^◌, ◌≤◌, ◌<◌, ◌≡◌, ◌∙◌, refl, ap, false, inl, inr, Bool-cases, ◌==◌,
  if◌then◌else◌, List, [], ◌∷◌, ◌++◌, arith, length, length-append, get_elem?, min, ltb,
}
use mathlib.Core.List.{append_assoc}
use warren_sdk_rs.Bytes.{bytes, to_be}
use warren_sdk_rs.Bytes.Laws.{length-bytes}
use warren_sdk_rs.Ip.{IpAddr, v4, v6, SocketAddr, socket_addr}
use warren_sdk_rs.Socks5.{
  ◌>>=◌, Decoded, Command, connect, bind, udp_associate, Target, ip, domain, ok, err, panic,
  bad_domain, slice_from, parse_domain, parse_address, command_of, command_code, parse_request,
  parse_udp_datagram, encode_addr, encode_target, encode_udp_datagram, build_request,
}
use warren_sdk_rs.Socks5.Utf8.{is_utf8}
use warren_sdk_rs.Socks5.Fields.{
  IsAddr, IsName, parse_v4-encode, parse_v6-encode, parse_domain-encode, parse_domain-refused, four,
}

-- The address is read back without its flow label and its scope, whatever follows it.
module _ (flow scope : ℕ) where
  abbrev scoped : IpAddr → ℕ → SocketAddr
  scoped i port = record { ip = i; port = port; flowinfo = flow; scope_id = scope }

  addr-encode :
      (i : IpAddr) (port : ℕ) (rest : List ℕ)
      → IsAddr (scoped i port)
      → parse_address (encode_addr (scoped i port) ++ rest)
        ≡ ok (ip (socket_addr i port), length (encode_addr (scoped i port)))
  unfolding parse_address encode_addr get_elem?
  addr-encode (v4 octets) port rest h =
      let (a, b, c, d, e) = four octets h.octets in
      rw e (ground (arith, parse_v4-encode a b c d port rest h.wide))
  addr-encode (v6 octets) port rest h = rw (append_assoc octets (to_be port) rest) (
      ground (
        arith,
        parse_v6-encode octets port rest h.octets h.wide,
        length-append octets (to_be port),
        h.octets,
      ))

-- What the wire holds of a target: an address without its flow label and its scope, and a name cut after
-- 255 bytes, which is refused where it is empty or no text.
unfoldable pub wire_name : List ℕ → ℕ → Decoded Target
wire_name name port =
    if length name == 0
    then err bad_domain
    else if is_utf8 name
    then ok (domain name port)
    else err bad_domain

unfoldable pub read_back : Target → Decoded Target
unfolding wire_name
read_back (ip addr) = ok (ip (socket_addr addr.ip addr.port))
read_back (domain host port) = wire_name (bytes 0 (min (length host) 255) host) port

-- The octets of an address are those of its family, and a port has 16 bits.
unfoldable pub IsRepresentable : Target → Type 0
IsRepresentable (ip addr) = IsAddr addr
IsRepresentable (domain host port) = port < 2 ^ 16

-- A target that was read, with the bytes that it took.
abbrev with_length : ℕ → Decoded Target → Decoded (Target × ℕ)
with_length n r = r >>= λ target. ok (target, n)

parse_domain-empty : (tail : List ℕ) → parse_domain (0x03 ∷ 0 ∷ tail) ≡ err bad_domain
unfolding parse_domain get_elem?
parse_domain-empty tail = refl

-- A name of at most 255 bytes, written after its length.
wire_name-encode :
    (name : List ℕ) (port : ℕ) (rest : List ℕ)
    → length name ≤ 255
    → port < 2 ^ 16
    → parse_address (0x03 ∷ length name ∷ (name ++ ((port / 256) ∷ (port % 256) ∷ rest)))
      ≡ with_length (length name + 4) (wire_name name port)
unfolding parse_address wire_name get_elem?
wire_name-encode [] port rest short wide = ground (arith, parse_domain-empty (to_be port ++ rest))
wire_name-encode (b ∷ bs) port rest short wide = elim (Bool-cases (is_utf8 (b ∷ bs))) [
  | inl text ↦
      let h : IsName (b ∷ bs) port = record {
        named = omega arith;
        short = short;
        text = text;
        wide = wide;
      } in
      ground (arith, text, parse_domain-encode (b ∷ bs) port rest h)
  | inr bad ↦ ground (arith, bad, parse_domain-refused (b ∷ bs) port rest (omega arith) bad)
]

address-encode :
    (target : Target) (rest : List ℕ)
    → IsRepresentable target
    → parse_address (encode_target target ++ rest)
      ≡ with_length (length (encode_target target)) (read_back target)
unfolding encode_target IsRepresentable read_back
address-encode (ip addr) rest h = addr-encode addr.flowinfo addr.scope_id addr.ip addr.port rest h
address-encode (domain host port) rest h =
    let name = bytes 0 (min (length host) 255) host in
    let size : length name ≡ min (length host) 255 =
      length-bytes 0 (min (length host) 255) host (omega arith) in
    let short : length name ≤ 255 = omega (arith, size) in
    let byte : length name % 256 ≡ length name = omega (arith, short) in
    let long : length (name ++ to_be port) ≡ length name + 2 = length-append name (to_be port) in
    rw byte (
      rw (append_assoc name (to_be port) rest) (
        wire_name-encode name port rest short h
        ∙ ap (λ n. with_length n (wire_name name port)) (omega (arith, long))))

encode_target-nonempty :
    (target : Target) (rest : List ℕ) → 1 ≤ length (encode_target target ++ rest)
unfolding encode_target encode_addr
encode_target-nonempty (ip addr) rest = nonempty addr.ip addr.port
  where
    nonempty :
        (i : IpAddr) (port : ℕ)
        → 1 ≤ length (encode_addr (scoped addr.flowinfo addr.scope_id i port) ++ rest)
    nonempty (v4 octets) port = omega arith
    nonempty (v6 octets) port = omega arith
encode_target-nonempty (domain host port) rest = omega arith

slice_from-append : (xs ys : List ℕ) → slice_from (length xs) (xs ++ ys) ≡ ok ys
unfolding slice_from
slice_from-append [] ys = refl
slice_from-append (x ∷ xs) ys = slice_from-append xs ys

command_of-code : (command : Command) → command_of (command_code command) ≡ ok command
unfolding command_of command_code
command_of-code connect = refl
command_of-code bind = refl
command_of-code udp_associate = refl

length_forgotten :
    (command : Command) (n : ℕ) (r : Decoded Target)
    → ◌>>=◌ {B = Command × Target} (with_length n r) (λ x. ok (command, x.0))
      ≡ ◌>>=◌ {B = Command × Target} r (λ target. ok (command, target))
length_forgotten command n (ok target) = refl
length_forgotten command n (err e) = refl
length_forgotten command n panic = refl

-- A request that was built for a target, whose port has 16 bits and whose address, if it is one,
-- the octets of its family, is parsed, whatever bytes follow it, to its command and to what the
-- wire holds of the target. An address comes back without the flow label and the scope that an IPv6
-- one may have. A name of 1 to 255 bytes of UTF-8 comes back whole and a longer one cut after 255
-- bytes; the request is refused as `bad_domain` where the name is empty or what is left of it is
-- not UTF-8.
pub parse_request-build_request :
    (command : Command) (target : Target) (rest : List ℕ)
    → IsRepresentable target
    → parse_request (build_request command target ++ rest)
      ≡ (read_back target >>= λ t. ok (command, t))
unfolding parse_request build_request get_elem? slice_from
parse_request-build_request command target rest h =
    let long : ltb (suc (suc (suc (length (encode_target target ++ rest))))) 4 ≡ false =
      ground (arith, encode_target-nonempty target rest) in
    rw (address-encode target rest h) (
      rw (long, command_of-code command)
        (length_forgotten command (length (encode_target target)) (read_back target)))

-- A datagram that was built for an address, with the octets of its family and a 16-bit port, is parsed
-- to its payload and to that address without the flow label and the scope that an IPv6 one may have.
pub parse_udp_datagram-encode_udp_datagram :
    (src : SocketAddr) (payload : List ℕ)
    → IsAddr src
    → parse_udp_datagram (encode_udp_datagram src payload)
      ≡ ok (ip (socket_addr src.ip src.port), payload)
unfolding parse_udp_datagram encode_udp_datagram get_elem? slice_from
parse_udp_datagram-encode_udp_datagram src payload h =
    let addr = encode_addr src in
    let after : slice_from (3 + length addr) (0 ∷ 0 ∷ 0 ∷ (addr ++ payload)) ≡ ok payload =
      ap (λ n. slice_from n (0 ∷ 0 ∷ 0 ∷ (addr ++ payload))) {y = suc (suc (suc (length addr)))}
        (omega arith)
      ∙ slice_from-append (0 ∷ 0 ∷ 0 ∷ addr) payload in
    ground (arith, addr-encode src.flowinfo src.scope_id src.ip src.port payload h, after)
