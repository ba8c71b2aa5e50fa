-- ===== src/Napt/Translate/Path.antt =====
-- The whole packet path leaves the counters alone, so `translate_uplink` and `translate_downlink`
-- count each packet once, under what became of it.
use warren_sdk_rs.Prelude.{ℕ, ◌≡◌, ap, Bool, true, false, Option, ◌==◌, if◌then◌else◌}
use warren_sdk_rs.Bytes.{Checksum}
use warren_sdk_rs.Ip.{IpAddr, IpHeader, is_echo, is_icmp_error, proto_tcp, proto_udp}
use warren_sdk_rs.Napt.Types.{MapProto, NatDrop, SocketAddr}
use warren_sdk_rs.Napt.Translate.{tally_uplink, tally_downlink, read_flags, icmp_of_family}
use warren_sdk_rs.Napt.Translate.Monad.{Machine, Step}
use warren_sdk_rs.Napt.Translate.Keeps.{
  Keeps, bind-Keeps, then-Keeps, pure-Keeps, refuse-Keeps, refuse_if-Keeps, require-Keeps,
  read-Keeps, get-Keeps, edit-Keeps, call-Keeps,
}
use warren_sdk_rs.Napt.Translate.Counted.{
  mapping_for_uplink-counters, touch_uplink-counters, accept_downlink-counters,
}
use warren_sdk_rs.Napt.Translate.Uplink.{
  uplink_flow, uplink_error, uplink_ports, uplink_echo, uplink_icmp, uplink, translate_uplink,
}
use warren_sdk_rs.Napt.Translate.Downlink.{
  translated, downlink_flow, downlink_error, downlink_ports, downlink_echo, downlink_icmp, downlink,
  translate_downlink,
}

module _ {R T : Type 0} where
  if-Keeps :
      {A : Type 0} (test : Bool) {m k : Step R T A}
      → Keeps m
      → Keeps k
      → Keeps (if test then m else k)
  if-Keeps true a b = a
  if-Keeps false a b = b

  read_flags-Keeps : (proto : MapProto) (l4 : ℕ) → Keeps {R = R} {T = T} (read_flags proto l4)
  read_flags-Keeps MapProto.tcp l4 = read-Keeps _
  read_flags-Keeps MapProto.udp l4 = pure-Keeps 0
  read_flags-Keeps MapProto.icmp l4 = pure-Keeps 0

module _ {R T : Type 0} (c : Checksum) (gen_range : R → ℕ → ℕ × R)
    (owner_of : T → IpAddr → Option ℕ) where
  uplink_flow-Keeps :
      (peer : ℕ) (proto : MapProto) (hdr : IpHeader) (port remote_port flags : ℕ) (address : IpAddr)
      (now : ℕ)
      → Keeps (uplink_flow c gen_range owner_of peer proto hdr port remote_port flags address now)
  unfolding uplink_flow
  uplink_flow-Keeps peer proto hdr port remote_port flags address now =
      bind-Keeps (call-Keeps _ (λ n. mapping_for_uplink-counters gen_range n peer proto _ now))
        (λ id.
          then-Keeps (call-Keeps _ (λ n. touch_uplink-counters n id hdr.dst remote_port flags now))
            (bind-Keeps (get-Keeps _) (λ outside.
              bind-Keeps (require-Keeps outside NatDrop.no_mapping) (λ outside. edit-Keeps _))))

  uplink_error-Keeps :
      (peer : ℕ) (hdr : IpHeader) (address : IpAddr)
      → Keeps (uplink_error c gen_range owner_of peer hdr address)
  unfolding uplink_error
  uplink_error-Keeps peer hdr address = bind-Keeps (read-Keeps _) (λ quote.
      bind-Keeps (require-Keeps _ _) (λ proto. bind-Keeps (require-Keeps _ _) (λ port.
        bind-Keeps (get-Keeps _) (λ id. bind-Keeps (require-Keeps id _) (λ id.
          bind-Keeps (get-Keeps _) (λ mapping. bind-Keeps (require-Keeps mapping _) (λ mapping.
            then-Keeps (refuse_if-Keeps _ _) (then-Keeps (edit-Keeps _) (edit-Keeps _)))))))))

  uplink_ports-Keeps :
      (peer : ℕ) (proto : MapProto) (hdr : IpHeader) (address : IpAddr) (now : ℕ)
      → Keeps (uplink_ports c gen_range owner_of peer proto hdr address now)
  unfolding uplink_ports
  uplink_ports-Keeps peer proto hdr address now = bind-Keeps (read-Keeps _) (λ (sport, dport).
      bind-Keeps (read_flags-Keeps proto _)
        (λ flags. uplink_flow-Keeps peer proto hdr sport dport flags address now))

  uplink_icmp-Keeps :
      (peer : ℕ) (hdr : IpHeader) (address : IpAddr) (now : ℕ)
      → Keeps (uplink_icmp c gen_range owner_of peer hdr address now)
  unfolding uplink_icmp uplink_echo
  uplink_icmp-Keeps peer hdr address now = bind-Keeps (read-Keeps _) (λ icmp.
      if-Keeps (is_echo hdr.protocol icmp.kind)
        (bind-Keeps (require-Keeps icmp.echo_id _)
          (λ id. uplink_flow-Keeps peer MapProto.icmp hdr id 0 0 address now))
        (if-Keeps (is_icmp_error hdr.protocol icmp.kind) (uplink_error-Keeps peer hdr address)
          (refuse-Keeps NatDrop.unsupported_protocol)))

  uplink-Keeps : (peer now : ℕ) → Keeps (uplink c gen_range owner_of peer now)
  unfolding uplink
  uplink-Keeps peer now = bind-Keeps (read-Keeps _) (λ hdr. bind-Keeps (get-Keeps _) (λ address.
      bind-Keeps (require-Keeps address _) (λ address. bind-Keeps (get-Keeps _) (λ owner.
        then-Keeps (refuse_if-Keeps _ _) (
          if-Keeps (hdr.protocol == proto_tcp)
            (uplink_ports-Keeps peer MapProto.tcp hdr address now)
            (if-Keeps (hdr.protocol == proto_udp)
              (uplink_ports-Keeps peer MapProto.udp hdr address now)
              (if-Keeps (icmp_of_family hdr) (uplink_icmp-Keeps peer hdr address now)
                (refuse-Keeps NatDrop.unsupported_protocol))))))))

  -- `translate_uplink` counts its packet once, under what it answers: the counters that it leaves are
  -- those before the packet with this answer tallied, and nothing else on the path bumps one.
  pub translate_uplink-counts :
      (peer now : ℕ) (s : Machine R T)
      → (translate_uplink c gen_range owner_of peer now s).1.nat.counters
        ≡ tally_uplink (translate_uplink c gen_range owner_of peer now s).0 s.nat.counters
  unfolding translate_uplink
  translate_uplink-counts peer now s =
      ap (tally_uplink (uplink c gen_range owner_of peer now s).0)
        ((uplink-Keeps peer now).counts s)

module _ {R T : Type 0} (c : Checksum) where
  translated-Keeps :
      (id : ℕ) (internal : SocketAddr) → Keeps {R = R} {T = T} (translated c id internal)
  translated-Keeps id internal =
      bind-Keeps (get-Keeps _)
        (λ mapping. bind-Keeps (require-Keeps mapping _) (λ mapping. pure-Keeps _))

  downlink_flow-Keeps :
      (proto : MapProto) (hdr : IpHeader) (port remote_port flags now : ℕ)
      → Keeps {R = R} {T = T} (downlink_flow c proto hdr port remote_port flags now)
  unfolding downlink_flow
  downlink_flow-Keeps proto hdr port remote_port flags now = bind-Keeps (get-Keeps _) (λ id.
      bind-Keeps (require-Keeps id _) (λ id.
        bind-Keeps (call-Keeps _ (λ n. accept_downlink-counters n id hdr.src remote_port flags now))
          (λ internal. then-Keeps (edit-Keeps _) (translated-Keeps id internal))))

  downlink_error-Keeps :
      (hdr : IpHeader) (address : IpAddr) → Keeps {R = R} {T = T} (downlink_error c hdr address)
  unfolding downlink_error
  downlink_error-Keeps hdr address = bind-Keeps (read-Keeps _) (λ quote.
      then-Keeps (refuse_if-Keeps _ _) (
        bind-Keeps (require-Keeps _ _) (λ proto. bind-Keeps (require-Keeps _ _) (λ port.
          bind-Keeps (get-Keeps _) (λ id. bind-Keeps (require-Keeps id _) (λ id.
            bind-Keeps (get-Keeps _) (λ mapping. bind-Keeps (require-Keeps mapping _) (λ mapping.
              then-Keeps (edit-Keeps _)
                (then-Keeps (edit-Keeps _) (translated-Keeps id mapping.internal))))))))))

  downlink_ports-Keeps :
      (proto : MapProto) (hdr : IpHeader) (now : ℕ)
      → Keeps {R = R} {T = T} (downlink_ports c proto hdr now)
  unfolding downlink_ports
  downlink_ports-Keeps proto hdr now = bind-Keeps (read-Keeps _) (λ (sport, dport).
      bind-Keeps (read_flags-Keeps proto _)
        (λ flags. downlink_flow-Keeps proto hdr dport sport flags now))

  downlink_icmp-Keeps :
      (hdr : IpHeader) (address : IpAddr) (now : ℕ)
      → Keeps {R = R} {T = T} (downlink_icmp c hdr address now)
  unfolding downlink_icmp downlink_echo
  downlink_icmp-Keeps hdr address now = bind-Keeps (read-Keeps _) (λ icmp.
      if-Keeps (is_echo hdr.protocol icmp.kind)
        (bind-Keeps (require-Keeps icmp.echo_id _)
          (λ id. downlink_flow-Keeps MapProto.icmp hdr id 0 0 now))
        (if-Keeps (is_icmp_error hdr.protocol icmp.kind) (downlink_error-Keeps hdr address)
          (refuse-Keeps NatDrop.unsupported_protocol)))

  downlink-Keeps : (now : ℕ) → Keeps {R = R} {T = T} (downlink c now)
  unfolding downlink
  downlink-Keeps now = bind-Keeps (read-Keeps _) (λ hdr. bind-Keeps (get-Keeps _) (λ address.
      bind-Keeps (require-Keeps address _) (λ address. then-Keeps (refuse_if-Keeps _ _) (
        if-Keeps (hdr.protocol == proto_tcp) (downlink_ports-Keeps MapProto.tcp hdr now) (
          if-Keeps (hdr.protocol == proto_udp) (downlink_ports-Keeps MapProto.udp hdr now) (
            if-Keeps (icmp_of_family hdr) (downlink_icmp-Keeps hdr address now)
              (refuse-Keeps NatDrop.unsupported_protocol)))))))

  -- `translate_downlink` counts its packet once, under what it answers: the counters that it leaves
  -- are those before the packet with this answer tallied, and nothing else on the path bumps one.
  pub translate_downlink-counts :
      (now : ℕ) (s : Machine R T)
      → (translate_downlink c now s).1.nat.counters
        ≡ tally_downlink (translate_downlink c now s).0 s.nat.counters
  unfolding translate_downlink
  translate_downlink-counts now s =
      ap (tally_downlink (downlink c now s).0) ((downlink-Keeps now).counts s)
