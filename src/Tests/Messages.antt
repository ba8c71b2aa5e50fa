-- ===== src/Tests/Messages.antt =====
-- The codec of socks5.rs on a request and a datagram.
use warren_sdk_rs.Prelude.{ℕ, zero, suc, get_elem?, List, [], ◌∷◌, ◌++◌, ◌≡◌, refl, arith}
use warren_sdk_rs.Ip.{v6, SocketAddr, socket_addr}
use warren_sdk_rs.Socks5.{
  ◌>>=◌, connect, Target, domain, ip, ok, err, bad_domain, parse_request, build_request,
  parse_udp_datagram, encode_udp_datagram,
}
use warren_sdk_rs.Bytes.{bytes}
use warren_sdk_rs.Socks5.Utf8.{is_utf8, utf8_after}
use warren_sdk_rs.Socks5.RoundTrip.{
  IsRepresentable, read_back, parse_request-build_request, parse_udp_datagram-encode_udp_datagram,
}
use warren_sdk_rs.Socks5.Sound.{AllBytes, ReadRequest, parse_request-Read}

-- `a.b:443`.
abbrev name : Target
name = domain (0x61 ∷ 0x2e ∷ 0x62 ∷ []) 443

parse_request-build_request_example :
    parse_request (build_request connect name ++ (7 ∷ []))
    ≡ (read_back name >>= λ target. ok (connect, target))
unfolding IsRepresentable
parse_request-build_request_example =
    parse_request-build_request connect name (7 ∷ []) (omega arith)

name_whole : read_back name ≡ ok name
unfolding read_back is_utf8 utf8_after bytes get_elem?
name_whole = refl

-- A name of 255 letters, and one that ends with a character of two bytes after 254 of them.
abbrev letters : ℕ → List ℕ → List ℕ
letters zero after = after
letters (suc n) after = 0x61 ∷ letters n after

name_split : read_back (domain (letters 254 (0xc3 ∷ 0xa9 ∷ [])) 443) ≡ err bad_domain
unfolding read_back is_utf8 utf8_after bytes get_elem?
name_split = refl

-- `[fe80::1%2]:53`.
abbrev server : SocketAddr
server = record {
  ip = v6 (0xfe ∷ 0x80 ∷ 0 ∷ 0 ∷ 0 ∷ 0 ∷ 0 ∷ 0 ∷ 0 ∷ 0 ∷ 0 ∷ 0 ∷ 0 ∷ 0 ∷ 0 ∷ 1 ∷ []);
  port = 53;
  flowinfo = 0;
  scope_id = 2;
}

parse_udp_datagram-encode_udp_datagram_example :
    parse_udp_datagram (encode_udp_datagram server (1 ∷ 2 ∷ []))
    ≡ ok (ip (socket_addr server.ip 53), 1 ∷ 2 ∷ [])
parse_udp_datagram-encode_udp_datagram_example =
    parse_udp_datagram-encode_udp_datagram server (1 ∷ 2 ∷ [])
      (record { octets = refl; wide = omega arith })

-- A request for 10.0.0.1:53 with two bytes after it.
abbrev request : List ℕ
request = 5 ∷ 1 ∷ 0 ∷ 1 ∷ 10 ∷ 0 ∷ 0 ∷ 1 ∷ 0 ∷ 53 ∷ 9 ∷ 9 ∷ []

request_bytes : AllBytes request
request_bytes = (
  omega arith,
  (
    omega arith,
    (
      omega arith,
      (
        omega arith,
        (
          omega arith,
          (
            omega arith,
            (
              omega arith,
              (omega arith, (omega arith, (omega arith, (omega arith, (omega arith, tt))))),
            ),
          ),
        ),
      ),
    ),
  ),
)

parse_request-Read_example : ReadRequest request (parse_request request)
parse_request-Read_example = parse_request-Read request request_bytes
