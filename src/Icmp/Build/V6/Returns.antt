-- ===== src/Icmp/Build/V6/Returns.antt =====
-- crates/warren-bolthole-core/src/icmp.rs: the builders of ICMPv6 messages do not panic on any bytes.
use warren_sdk_rs.Prelude.{
  ℕ, ◌+◌, ◌-◌, ◌≤◌, ◌≡◌, refl, subst, inl, inr, not, ◌||◌, none, List, [], ◌∷◌, Bool-cases,
  Option-cases, List-cases, arith, ltb, ◌==◌, min, length,
}
use warren_sdk_rs.Bytes.{ok, get_range, to_be, Checksum, overwrite}
use warren_sdk_rs.Bytes.Laws.{
  copy_at-overwrite, length-overwrite, Checked-cases, Returns, value, Returns-panic,
}
use warren_sdk_rs.Ip.{IpHeader, IpAddr, v4, v6, proto_icmpv6, ipv6_header, parse_ip}
use warren_sdk_rs.Icmp.Build.{quotes_an_error}
use warren_sdk_rs.Icmp.Build.Returns.{parse_ip-Returns}
use warren_sdk_rs.Icmp.Build.V6.{
  icmpv6_max, unicast_v6, frame_v6, unreachable_of, build_unreachable_v6, echo_reply_of,
  build_echo_reply_v6,
}

module _ (c : Checksum) where
  frame_v6-Returns : (src dst body : List ℕ) → 8 ≤ length body → Returns (frame_v6 c src dst body)
  unfolding frame_v6
  frame_v6-Returns src dst body h = elim (Bool-cases (ltb 65535 (length body))) [
    | inl e ↦ rw (frame_v6, e) (value none)
    | inr e ↦
        rw
          (
            frame_v6,
            e,
            copy_at-overwrite 2
                (to_be (c.internet_checksum (c.icmpv6_pseudo_sum src dst (length body)) body)) body
                (omega (arith, h)),
          )
          (value _)
  ]

  unreachable_of-Returns :
      (offending source : List ℕ) (hdr : IpHeader) → Returns (unreachable_of c offending source hdr)
  unfolding unreachable_of
  unreachable_of-Returns offending source hdr = by_family hdr.src refl
    where
      by_family : (a : IpAddr) → hdr.src ≡ a → Returns (unreachable_of c offending source hdr)
      by_family (v4 dst) e = rw (unreachable_of, e) (value none)
      by_family (v6 dst) e =
          elim (Bool-cases (not (unicast_v6 dst) || quotes_an_error offending hdr)) [
            | inl f ↦ rw (unreachable_of, e, f) (value none)
            | inr f ↦
                elim (Option-cases
                  (get_range offending 0 (min hdr.total_len (icmpv6_max - ipv6_header - 8)))) [
                    | inl g ↦ rw (unreachable_of, e, f, g) (value none)
                    | inr (quote, g) ↦
                        rw (unreachable_of, e, f, g)
                          (frame_v6-Returns source dst (1 ∷ 0 ∷ 0 ∷ 0 ∷ 0 ∷ 0 ∷ 0 ∷ 0 ∷ quote)
                            (omega arith))
                  ]
          ]

  pub build_unreachable_v6-Returns :
      (offending source : List ℕ) → Returns (build_unreachable_v6 c offending source)
  unfolding build_unreachable_v6
  build_unreachable_v6-Returns offending source = elim (Checked-cases (parse_ip offending)) [
    | inl (hdr, e) ↦ rw (build_unreachable_v6, e) (unreachable_of-Returns offending source hdr)
    | inr (inl (x, e)) ↦ rw (build_unreachable_v6, e) (value none)
    | inr (inr e) ↦ absurd (Returns-panic (subst Returns e (parse_ip-Returns offending)))
  ]

  echo_reply_of-Returns :
      (request : List ℕ) (hdr : IpHeader) (src dst : List ℕ)
      → Returns (echo_reply_of c request hdr src dst)
  unfolding echo_reply_of
  echo_reply_of-Returns request hdr src dst =
      elim (Bool-cases (not (hdr.protocol == proto_icmpv6) || not (unicast_v6 src))) [
        | inl e ↦ rw (echo_reply_of, e) (value none)
        | inr e ↦ elim (Option-cases (get_range request hdr.l4_offset hdr.total_len)) [
          | inl f ↦ rw (echo_reply_of, e, f) (value none)
          | inr (msg, f) ↦ elim (List-cases msg) [
            | inl g ↦ rw (echo_reply_of, e, f, g) (value none)
            | inr (kind, rest, g) ↦
                elim (Bool-cases (ltb (length (kind ∷ rest)) 8 || not (kind == 128))) [
                  | inl h ↦ rw (echo_reply_of, e, f, g, h) (value none)
                  | inr h ↦
                      let body = overwrite 2 (0 ∷ 0 ∷ []) (129 ∷ rest) in
                      let long : 8 ≤ length rest + 1 = ground (arith, h) in
                      rw
                        (
                          echo_reply_of,
                          e,
                          f,
                          g,
                          h,
                          copy_at-overwrite 2 (0 ∷ 0 ∷ []) (129 ∷ rest) (omega (arith, long)),
                        )
                        (frame_v6-Returns dst src body
                          (omega (arith, long, length-overwrite 2 (0 ∷ 0 ∷ []) (129 ∷ rest))))
                ]
          ]
        ]
      ]

  pub build_echo_reply_v6-Returns : (request : List ℕ) → Returns (build_echo_reply_v6 c request)
  unfolding build_echo_reply_v6
  build_echo_reply_v6-Returns request = elim (Checked-cases (parse_ip request)) [
    | inr (inl (x, e)) ↦ rw (build_echo_reply_v6, e) (value none)
    | inr (inr e) ↦ absurd (Returns-panic (subst Returns e (parse_ip-Returns request)))
    | inl (hdr, e) ↦ by_family hdr e hdr.src hdr.dst refl refl
  ]
    where
      by_family :
          (hdr : IpHeader)
          → parse_ip request ≡ ok hdr
          → (a b : IpAddr) → hdr.src ≡ a
          → hdr.dst ≡ b
          → Returns (build_echo_reply_v6 c request)
      by_family hdr e (v4 src) b f g = rw (build_echo_reply_v6, e, f) (value none)
      by_family hdr e (v6 src) (v4 dst) f g = rw (build_echo_reply_v6, e, f, g) (value none)
      by_family hdr e (v6 src) (v6 dst) f g =
          rw (build_echo_reply_v6, e, f, g) (echo_reply_of-Returns request hdr src dst)
