-- ===== src/Socks5.antt =====
-- crates/warren-net/src/socks5.rs: the codec of SOCKS5 messages. A message is a list of bytes, a host
-- name the bytes of its UTF-8 spelling.
pub mod Utf8
pub mod Fields
pub mod RoundTrip
pub mod Sound
use warren_sdk_rs.Prelude.{
  ℕ, zero, suc, ◌+◌, ◌-◌, ◌*◌, ◌/◌, ◌%◌, Bool, true, false, not, ◌&&◌, Option, none, some, List, [],
  ◌∷◌, ◌++◌, ltb, leb, ◌==◌, min, if◌then◌else◌, length, get_elem?,
}
use warren_sdk_rs.Bytes.{bytes, from_be, to_be}
use warren_sdk_rs.Ip.{IpAddr, v4, v6, SocketAddr, socket_addr}
use Utf8.{is_utf8}

abbrev pub version : ℕ
version = 0x05

abbrev pub userpass_version : ℕ
userpass_version = 0x01

pub data Command : Type 0 where
  connect bind udp_associate : Command

unfoldable pub is_supported : Command → Bool
is_supported connect = true
is_supported _ = false

pub data Target : Type 0 where
  ip : SocketAddr → Target
  domain : List ℕ → ℕ → Target

pub data Reply : Type 0 where
  succeeded general_failure network_unreachable host_unreachable : Reply
  connection_refused command_not_supported address_type_not_supported : Reply

unfoldable pub reply_code : Reply → ℕ
reply_code succeeded = 0x00
reply_code general_failure = 0x01
reply_code network_unreachable = 0x03
reply_code host_unreachable = 0x04
reply_code connection_refused = 0x05
reply_code command_not_supported = 0x07
reply_code address_type_not_supported = 0x08

pub data Socks5Error : Type 0 where
  truncated bad_domain fragmented : Socks5Error
  bad_version bad_command bad_atyp : ℕ → Socks5Error

-- `panic` stands for an index or a slice out of bounds.
pub data Decoded {ℓ} (A : Type ℓ) : Type ℓ where
  ok : A → Decoded A
  err : Socks5Error → Decoded A
  panic : Decoded A

infixl 5 ◌>>=◌ ◌>>◌
abbrev pub ◌>>=◌ {ℓ κ} : {A : Type ℓ} {B : Type κ} → Decoded A → (A → Decoded B) → Decoded B
ok a >>= f = f a
err e >>= f = err e
panic >>= f = panic

abbrev pub ◌>>◌ {ℓ} : {B : Type ℓ} → Decoded (Unit {0}) → Decoded B → Decoded B
m >> k = m >>= λ _. k

-- `if refused { return Err(e) }`.
abbrev pub refuse : Bool → Socks5Error → Decoded (Unit {0})
refuse true e = err e
refuse false e = ok tt

-- `buf[i]`, and `*buf.get(i).ok_or(Truncated)?`.
unfoldable pub index : List ℕ → ℕ → Decoded ℕ
index buf i = elim (get_elem? buf i) [ none ↦ panic | some b ↦ ok b ]

unfoldable pub get : List ℕ → ℕ → Decoded ℕ
get buf i = elim (get_elem? buf i) [ none ↦ err truncated | some b ↦ ok b ]

-- `&buf[at..at + n]` and `&buf[at..]`.
unfoldable pub slice : ℕ → ℕ → List ℕ → Decoded (List ℕ)
slice at n buf = if leb (at + n) (length buf) then ok (bytes at n buf) else panic

unfoldable pub slice_from : ℕ → List ℕ → Decoded (List ℕ)
slice_from zero buf = ok buf
slice_from (suc n) [] = panic
slice_from (suc n) (b ∷ buf) = slice_from n buf

-- `u16::from_be_bytes([buf[at], buf[at + 1]])`.
unfoldable pub port_at : List ℕ → ℕ → Decoded ℕ
unfolding index
port_at buf at = do high ← index buf at; low ← index buf (at + 1); ok (from_be high low)

unfoldable pub parse_greeting : List ℕ → Decoded (List ℕ)
unfolding index slice
parse_greeting buf = do
  refuse (ltb (length buf) 2) truncated
  ver ← index buf 0
  refuse (not (ver == version)) (bad_version ver)
  n ← index buf 1
  refuse (ltb (length buf) (2 + n)) truncated
  slice 2 n buf

unfoldable pub build_method_reply : ℕ → List ℕ
build_method_reply method = version ∷ method ∷ []

-- The three kinds of address of `parse_address`, with the bytes that each reads.
unfoldable pub parse_v4 : List ℕ → Decoded (Target × ℕ)
unfolding index port_at
parse_v4 buf = do
  refuse (ltb (length buf) (1 + 4 + 2)) truncated
  a ← index buf 1
  b ← index buf 2
  c ← index buf 3
  d ← index buf 4
  port ← port_at buf 5
  ok (ip (socket_addr (v4 (a ∷ b ∷ c ∷ d ∷ [])) port), 7)

unfoldable pub parse_v6 : List ℕ → Decoded (Target × ℕ)
unfolding slice port_at
parse_v6 buf = do
  refuse (ltb (length buf) (1 + 16 + 2)) truncated
  octets ← slice 1 16 buf
  port ← port_at buf 17
  ok (ip (socket_addr (v6 octets) port), 19)

unfoldable pub parse_domain : List ℕ → Decoded (Target × ℕ)
unfolding get slice port_at
parse_domain buf = do
  len ← get buf 1
  refuse (len == 0) bad_domain
  refuse (ltb (length buf) (2 + len + 2)) truncated
  host ← slice 2 len buf
  refuse (not (is_utf8 host)) bad_domain
  port ← port_at buf (2 + len)
  ok (domain host port, 2 + len + 2)

unfoldable pub parse_address : List ℕ → Decoded (Target × ℕ)
unfolding get
parse_address buf = do
  atyp ← get buf 0
  (if atyp == 0x01
      then parse_v4 buf
      else if atyp == 0x04
      then parse_v6 buf
      else if atyp == 0x03
      then parse_domain buf
      else err (bad_atyp atyp))

unfoldable pub command_of : ℕ → Decoded Command
command_of b =
    if b == 0x01
    then ok connect
    else if b == 0x02
    then ok bind
    else if b == 0x03
    then ok udp_associate
    else err (bad_command b)

unfoldable pub parse_request : List ℕ → Decoded (Command × Target)
unfolding index slice_from
parse_request buf = do
  refuse (ltb (length buf) 4) truncated
  ver ← index buf 0
  refuse (not (ver == version)) (bad_version ver)
  cmd ← index buf 1
  command ← command_of cmd
  rest ← slice_from 3 buf
  (target, consumed) ← parse_address rest
  ok (command, target)

unfoldable pub parse_udp_datagram : List ℕ → Decoded (Target × List ℕ)
unfolding index slice_from
parse_udp_datagram buf = do
  refuse (ltb (length buf) 3) truncated
  frag ← index buf 2
  refuse (not (frag == 0x00)) fragmented
  rest ← slice_from 3 buf
  (target, consumed) ← parse_address rest
  payload ← slice_from (3 + consumed) buf
  ok (target, payload)

-- `ATYP ADDR PORT` of a socket address; the flow label and the scope of an IPv6 one are not written.
unfoldable pub encode_addr : SocketAddr → List ℕ
encode_addr addr = elim addr.ip [
  | v4 octets ↦ 0x01 ∷ (octets ++ to_be addr.port)
  | v6 octets ↦ 0x04 ∷ (octets ++ to_be addr.port)
]

unfoldable pub encode_udp_datagram : SocketAddr → List ℕ → List ℕ
unfolding encode_addr
encode_udp_datagram src payload = 0x00 ∷ 0x00 ∷ 0x00 ∷ (encode_addr src ++ payload)

unfoldable pub build_reply : Reply → SocketAddr → List ℕ
unfolding encode_addr reply_code
build_reply reply bound = version ∷ reply_code reply ∷ 0x00 ∷ encode_addr bound

unfoldable pub command_code : Command → ℕ
command_code connect = 0x01
command_code bind = 0x02
command_code udp_associate = 0x03

-- `ATYP ADDR PORT` of a target; `as u8` keeps the low eight bits.
unfoldable pub encode_target : Target → List ℕ
unfolding encode_addr
encode_target (ip addr) = encode_addr addr
encode_target (domain host port) =
    let name = bytes 0 (min (length host) 255) host in
    0x03 ∷ (length name % 256) ∷ (name ++ to_be port)

unfoldable pub build_request : Command → Target → List ℕ
unfolding command_code encode_target
build_request command target = version ∷ command_code command ∷ 0x00 ∷ encode_target target

unfoldable pub build_userpass_request : List ℕ → List ℕ → List ℕ
build_userpass_request username password =
    let user = bytes 0 (min (length username) 255) username in
    let pass = bytes 0 (min (length password) 255) password in
    userpass_version ∷ (length user % 256) ∷ (user ++ (length pass % 256) ∷ pass)
