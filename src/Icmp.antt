-- ===== src/Icmp.antt =====
-- crates/warren-bolthole-core/src/icmp.rs: the packet that an ICMP error quotes, and its rewriting.
-- `rewrite_error_quote` refuses before it writes, but for its last step, the error's own checksum,
-- whose refusals its tests rule out for a header that `parse_ip` returned.
pub mod Build
use warren_sdk_rs.Prelude.{
  ℕ, ◌+◌, ◌-◌, ◌^◌, Bool, true, false, not, ◌&&◌, ◌||◌, Option, none, some, List, [], ◌∷◌, ltb, leb,
  ◌==◌, if◌then◌else◌, length, get_elem?,
}
use warren_sdk_rs.Bytes.{
  Checked, ok, err, panic, ◌>>=◌, ◌>>◌, refuse, ok_or, truncated, unsupported_protocol,
  family_mismatch, not_an_echo, not_an_icmp_error, index16, slice, get_range, copy_at, to_be,
  Checksum,
}
use warren_sdk_rs.Ip.{
  IpAddr, IpHeader, Side, is_v6, is_ipv6, is_echo, is_icmp_error, parse_ip_quote, read_ports,
  read_icmp, proto_icmpv4, proto_icmpv6, proto_tcp, proto_udp,
}
use warren_sdk_rs.Ip.Rewrite.{is_icmp, same_family, side_port, addr_place, write_addr, write_port}

pub record ErrorQuote : Type 0 where
  pub inner_offset : ℕ
  pub inner : IpHeader
  pub ports : Option (ℕ × ℕ)
  pub echo_id : Option ℕ

-- `ErrorQuote::port`.
unfoldable pub quote_port : ErrorQuote → Side → Option ℕ
quote_port q side = elim q.ports [
  | none ↦ q.echo_id
  | some (src, dst) ↦ elim side [ Side.source ↦ some src | Side.destination ↦ some dst ]
]

-- `Result::ok`.
abbrev pub to_option {ℓ} : {A : Type ℓ} → Checked A → Checked (Option A)
to_option (ok a) = ok (some a)
to_option (err e) = ok none
to_option panic = panic

-- The ports or the identifier of the quoted packet.
unfoldable pub quoted_port : List ℕ → IpHeader → Checked (Option (ℕ × ℕ) × Option ℕ)
quoted_port quote inner =
    let ports = do p ← to_option (read_ports quote inner.l4_offset); ok (p, none)
    in let identifier = do
      head ← read_icmp quote inner.l4_offset
      ok (none, if is_echo inner.protocol head.kind then head.echo_id else none)
      in if inner.protocol == proto_tcp || inner.protocol == proto_udp
        then ports
        else if is_icmp inner.protocol
        then identifier
        else ok (none, none)

unfoldable pub parse_error_quote : List ℕ → IpHeader → Checked ErrorQuote
parse_error_quote pkt outer = do
  head ← read_icmp pkt outer.l4_offset
  refuse (not (is_icmp_error outer.protocol head.kind)) not_an_icmp_error
  let inner_offset = outer.l4_offset + 8
  quote ← ok_or (get_range pkt inner_offset outer.total_len) truncated
  inner ← parse_ip_quote quote
  (ports, echo_id) ← quoted_port quote inner
  ok (record { inner_offset = inner_offset; inner = inner; ports = ports; echo_id = echo_id })

-- Where the checksum of the quoted header is, and whether it covers the addresses.
unfoldable pub quoted_checksum : ℕ → Option (ℕ × Bool)
quoted_checksum protocol =
    if protocol == proto_tcp
    then some (16, true)
    else if protocol == proto_udp
    then some (6, true)
    else if protocol == proto_icmpv4
    then some (2, false)
    else if protocol == proto_icmpv6
    then some (2, true)
    else none

-- Where the quoted port or identifier is, if one is to be written.
unfoldable pub quoted_place : List ℕ → IpHeader → ℕ → ℕ → Side → Option ℕ → Checked (Option ℕ)
quoted_place pkt inner l4 end side none = ok none
quoted_place pkt inner l4 end side (some port) =
    let identifier = do
      kind ← ok_or (get_elem? pkt l4) truncated
      refuse (not (is_echo inner.protocol kind)) not_an_echo
      refuse (ltb end (l4 + 6)) truncated
      ok (some (l4 + 4))
    in let ports = do refuse (ltb end (l4 + 4)) truncated; ok (some (side_port side l4))
      in if is_icmp inner.protocol then identifier else ports

module _ (c : Checksum) where
  -- The seed of the checksum, which for ICMPv6 covers the addresses in the buffer.
  unfoldable pub checksum_seed : List ℕ → IpHeader → Checked ℕ
  checksum_seed pkt outer =
      let pseudo = do
        src ← slice 8 16 pkt
        dst ← slice 24 16 pkt
        refuse (leb (2 ^ 32) (outer.total_len - outer.l4_offset)) truncated
        ok (c.icmpv6_pseudo_sum src dst (outer.total_len - outer.l4_offset))
      in if (outer.protocol == proto_icmpv4) && not (is_v6 outer)
        then ok 0
        else if (outer.protocol == proto_icmpv6) && is_v6 outer
        then pseudo
        else err unsupported_protocol

  unfoldable pub recompute_icmp_checksum : List ℕ → IpHeader → Checked (List ℕ)
  unfolding checksum_seed
  recompute_icmp_checksum pkt outer = do
    refuse (ltb (length pkt) outer.total_len || ltb outer.total_len (outer.l4_offset + 4)) truncated
    let ck_at = outer.l4_offset + 2
    seed ← checksum_seed pkt outer
    pkt ← copy_at ck_at (0 ∷ 0 ∷ []) pkt
    message ← slice outer.l4_offset (outer.total_len - outer.l4_offset) pkt
    copy_at ck_at (to_be (c.internet_checksum seed message)) pkt

  -- The writes of `rewrite_error_quote`, after its checks.
  unfoldable pub write_quote :
      List ℕ
      → IpHeader
      → ErrorQuote
      → Side
      → IpAddr
      → Option ℕ
      → Option ℕ
      → ℕ
      → Bool
      → ℕ
      → Checked (List ℕ)
  write_quote pkt outer q side addr port port_at ck_at pseudo end = do
    let inner = q.inner
    let reachable = leb (ck_at + 2) end
    ck ← (if reachable then index16 pkt ck_at else ok 0)
    let keep = inner.protocol == proto_udp && (not (is_v6 inner) && (reachable && ck == 0))
    let patch = reachable && not keep
    let addr_at = q.inner_offset + addr_place (is_v6 inner) side
    (pkt, ck) ← write_addr c pkt q.inner_offset addr_at addr (patch && pseudo) ck
    (pkt, ck) ← write_port c pkt port_at port patch ck
    pkt ← (if patch then copy_at ck_at (to_be ck) pkt else ok pkt)
    recompute_icmp_checksum pkt outer

  unfoldable pub rewrite_error_quote :
      List ℕ → IpHeader → ErrorQuote → Side → IpAddr → Option ℕ → Checked (List ℕ)
  rewrite_error_quote pkt outer q side addr port = do
    let inner = q.inner
    let end = q.inner_offset + inner.total_len
    let l4 = q.inner_offset + inner.l4_offset
    refuse (not (same_family (is_ipv6 addr) (is_v6 inner))) family_mismatch
    refuse (ltb (length pkt) outer.total_len) truncated
    refuse (ltb outer.total_len end) truncated
    (ck_at, pseudo) ← ok_or (quoted_checksum inner.protocol) unsupported_protocol
    port_at ← quoted_place pkt inner l4 end side port
    let addr_len = if is_v6 inner then 16 else 4
    refuse (ltb end (q.inner_offset + addr_place (is_v6 inner) side + addr_len)) truncated
    write_quote pkt outer q side addr port port_at (l4 + ck_at) pseudo end
