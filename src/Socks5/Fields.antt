-- ===== src/Socks5/Fields.antt =====
-- The fields of a message of socks5.rs, as they are written and read.
use warren_sdk_rs.Prelude.{
  ℕ, suc, ◌+◌, ◌/◌, ◌%◌, ◌^◌, ◌≤◌, ◌<◌, ◌≡◌, ◌∙◌, refl, ap, true, false, List, [], ◌∷◌, ◌++◌, arith,
  length, length-append, get_elem?, get_elem?-append, some, min,
}
use warren_sdk_rs.Bytes.{bytes, to_be}
use warren_sdk_rs.Bytes.Laws.{bytes-cons, bytes-append, bytes-whole}
use warren_sdk_rs.Ip.{IpAddr, v4, v6, SocketAddr, socket_addr}
use warren_sdk_rs.Socks5.{
  Target, ip, domain, ok, err, bad_domain, slice, port_at, parse_v4, parse_v6, parse_domain,
  encode_target,
}
use warren_sdk_rs.Socks5.Utf8.{is_utf8}

-- An address has the octets of its family, a port sixteen bits.
abbrev pub octets_of : IpAddr → ℕ × List ℕ
octets_of (v4 octets) = (4, octets)
octets_of (v6 octets) = (16, octets)

pub record IsAddr (addr : SocketAddr) : Type 0 where
  pub octets : length (octets_of addr.ip).1 ≡ (octets_of addr.ip).0
  pub wide : addr.port < 2 ^ 16

-- A name that the length byte can hold.
pub record IsName (host : List ℕ) (port : ℕ) : Type 0 where
  pub named : 1 ≤ length host
  pub short : length host ≤ 255
  pub text : is_utf8 host ≡ true
  pub wide : port < 2 ^ 16

unfoldable pub IsTarget : Target → Type 0
IsTarget (ip addr) = IsAddr addr
IsTarget (domain host port) = IsName host port

pub port_at-append :
    (xs rest : List ℕ) (port : ℕ)
    → port < 2 ^ 16
    → port_at (xs ++ ((port / 256) ∷ (port % 256) ∷ rest)) (length xs) ≡ ok port
unfolding port_at get_elem?
port_at-append xs rest port h =
    let tail : List ℕ = (port / 256) ∷ (port % 256) ∷ rest in
    let high : get_elem? (xs ++ tail) (length xs) ≡ some (port / 256) =
      ap (get_elem? (xs ++ tail)) (omega arith) ∙ get_elem?-append xs tail 0 in
    let low : get_elem? (xs ++ tail) (length xs + 1) ≡ some (port % 256) =
      get_elem?-append xs tail 1 in
    ground (arith, high, low)

pub slice-append : (xs ys : List ℕ) (n : ℕ) → length xs ≡ n → slice 0 n (xs ++ ys) ≡ ok xs
unfolding slice
slice-append xs ys n e = rw (← e) (ground (arith, bytes-append xs ys, length-append xs ys))

pub slice-cons : (at n x : ℕ) (buf : List ℕ) → slice (suc at) n (x ∷ buf) ≡ slice at n buf
unfolding slice
slice-cons at n x buf = ground (arith, bytes-cons at n x buf)

pub four :
    (xs : List ℕ)
    → length xs ≡ 4
    → (a : ℕ) × (b : ℕ) × (c : ℕ) × (d : ℕ) × (xs ≡ a ∷ b ∷ c ∷ d ∷ [])
four (a ∷ b ∷ c ∷ d ∷ []) e = (a, b, c, d, refl)
four [] e = absurd (omega arith)
four (a ∷ []) e = absurd (omega arith)
four (a ∷ b ∷ []) e = absurd (omega arith)
four (a ∷ b ∷ c ∷ []) e = absurd (omega arith)
four (a ∷ b ∷ c ∷ d ∷ x ∷ xs) e = absurd (omega arith)

pub parse_v4-encode :
    (a b c d port : ℕ) (rest : List ℕ)
    → port < 2 ^ 16
    → parse_v4 (0x01 ∷ a ∷ b ∷ c ∷ d ∷ (port / 256) ∷ (port % 256) ∷ rest)
      ≡ ok (ip (socket_addr (v4 (a ∷ b ∷ c ∷ d ∷ [])) port), 7)
unfolding parse_v4 get_elem?
parse_v4-encode a b c d port rest h = ground arith

pub parse_v6-encode :
    (octets : List ℕ) (port : ℕ) (rest : List ℕ)
    → length octets ≡ 16
    → port < 2 ^ 16
    → parse_v6 (0x04 ∷ (octets ++ ((port / 256) ∷ (port % 256) ∷ rest)))
      ≡ ok (ip (socket_addr (v6 octets) port), 19)
unfolding parse_v6 get_elem?
parse_v6-encode octets port rest e h =
    let tail : List ℕ = (port / 256) ∷ (port % 256) ∷ rest in
    ground (
      arith,
      length-append octets tail,
      slice-cons 0 16 0x04 (octets ++ tail),
      slice-append octets tail 16 e,
      port_at-append (0x04 ∷ octets) rest port h,
      e,
    )

pub parse_domain-encode :
    (host : List ℕ) (port : ℕ) (rest : List ℕ)
    → IsName host port
    → parse_domain (0x03 ∷ length host ∷ (host ++ ((port / 256) ∷ (port % 256) ∷ rest)))
      ≡ ok (domain host port, 2 + length host + 2)
unfolding parse_domain get_elem?
parse_domain-encode host port rest h =
    let tail : List ℕ = (port / 256) ∷ (port % 256) ∷ rest in
    ground (
      arith,
      length-append host tail,
      slice-cons 1 (length host) 0x03 (length host ∷ (host ++ tail)),
      slice-cons 0 (length host) (length host) (host ++ tail),
      slice-append host tail (length host) refl,
      port_at-append (0x03 ∷ length host ∷ host) rest port h.wide,
      h.named,
      h.text,
    )

pub parse_domain-refused :
    (host : List ℕ) (port : ℕ) (rest : List ℕ)
    → 1 ≤ length host
    → is_utf8 host ≡ false
    → parse_domain (0x03 ∷ length host ∷ (host ++ ((port / 256) ∷ (port % 256) ∷ rest)))
      ≡ err bad_domain
unfolding parse_domain get_elem?
parse_domain-refused host port rest h u =
    let tail : List ℕ = (port / 256) ∷ (port % 256) ∷ rest in
    ground (
      arith,
      length-append host tail,
      slice-cons 1 (length host) 0x03 (length host ∷ (host ++ tail)),
      slice-cons 0 (length host) (length host) (host ++ tail),
      slice-append host tail (length host) refl,
    )

-- A name that the length byte holds is written whole.
pub encode_domain :
    (host : List ℕ) (port : ℕ)
    → IsName host port
    → encode_target (domain host port) ≡ 0x03 ∷ length host ∷ (host ++ to_be port)
unfolding encode_target
encode_domain host port h =
    let (room, named) : (length host ≤ 255) × (1 ≤ length host) = (h.short, h.named) in
    let whole : bytes 0 (min (length host) 255) host ≡ host =
      ap (λ n. bytes 0 n host) (omega arith) ∙ bytes-whole host in
    let byte : length host % 256 ≡ length host = omega arith in rw whole (rw byte refl)
