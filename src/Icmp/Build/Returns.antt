-- ===== src/Icmp/Build/Returns.antt =====
-- crates/warren-bolthole-core/src/{ip,icmp}.rs: reads and builders do not panic on any bytes.
use warren_sdk_rs.Prelude.{
  ℕ, ◌+◌, ◌≤◌, ◌≡◌, refl, subst, inl, inr, false, not, ◌||◌, none, List, [], ◌∷◌, Bool-cases,
  Option-cases, List-cases, arith, ltb, ◌==◌, min, length,
}
use warren_sdk_rs.Bytes.{Checked, ok, err, panic, get_range, to_be, Checksum, overwrite}
use warren_sdk_rs.Bytes.Laws.{
  index-byte, index16-bytes, copy_at-overwrite, length-overwrite, length-get_range, Checked-cases,
  Returns, value, error, then-Returns, Returns-panic, if-Returns,
}
use warren_sdk_rs.Ip.{
  IpHeader, IpAddr, v4, v6, proto_icmpv4, parse_ip, get16, read_icmp, read_ports,
}
use warren_sdk_rs.Ip.Parse.{Parsed, parse-Parsed}
use warren_sdk_rs.Icmp.Build.{
  unicast_v4, quotes_an_error, frame_v4, unreachable_of, build_unreachable_v4, echo_reply_of,
  build_echo_reply_v4,
}

pub parse_ip-Returns : (pkt : List ℕ) → Returns (parse_ip pkt)
unfolding Parsed
parse_ip-Returns pkt = go (parse_ip pkt) (parse-Parsed pkt false)
  where
    go : (r : Checked IpHeader) → Parsed pkt false r → Returns r
    go (ok hdr) h = value hdr
    go (err e) h = error e
    go panic h = absurd h

get16-Returns : (pkt : List ℕ) (at : ℕ) → Returns (get16 pkt at)
unfolding get16
get16-Returns pkt at = elim (Option-cases (get_range pkt at (at + 2))) [
  | inl e ↦ rw (get16, e) (value none)
  | inr (b, e) ↦
      rw (get16, e, index16-bytes b 0 (omega (arith, length-get_range pkt at (at + 2) e))) (value _)
]

pub read_ports-Returns : (pkt : List ℕ) (l4 : ℕ) → Returns (read_ports pkt l4)
unfolding read_ports
read_ports-Returns pkt l4 = elim (Option-cases (get_range pkt l4 (l4 + 4))) [
  | inl e ↦ rw (read_ports, e) (error _)
  | inr (head, e) ↦
      let four = length-get_range pkt l4 (l4 + 4) e in
      rw
        (
          read_ports,
          e,
          index16-bytes head 0 (omega (arith, four)),
          index16-bytes head 2 (omega (arith, four)),
        )
        (value _)
]

pub read_icmp-Returns : (pkt : List ℕ) (l4 : ℕ) → Returns (read_icmp pkt l4)
unfolding read_icmp
read_icmp-Returns pkt l4 = elim (Option-cases (get_range pkt l4 (l4 + 4))) [
  | inl e ↦ rw (read_icmp, e) (error _)
  | inr (head, e) ↦
      let four = length-get_range pkt l4 (l4 + 4) e in
      rw
        (
          read_icmp,
          e,
          index-byte head 0 (omega (arith, four)),
          index-byte head 1 (omega (arith, four)),
        )
        (then-Returns _ _ (if-Returns _ _ (ok none) (get16-Returns pkt (l4 + 4)) (value none))
          (λ id. value _))
]

module _ (c : Checksum) where
  frame_v4-Returns : (src dst body : List ℕ) → 8 ≤ length body → Returns (frame_v4 c src dst body)
  unfolding frame_v4
  frame_v4-Returns src dst body h = elim (Bool-cases (ltb 65535 (20 + length body))) [
    | inl e ↦ rw (frame_v4, e) (value none)
    | inr e ↦
        rw
          (
            frame_v4,
            e,
            copy_at-overwrite 2 (to_be (c.internet_checksum 0 body)) body (omega (arith, h)),
          )
          (value _)
  ]

  unreachable_of-Returns :
      (offending source : List ℕ) (hdr : IpHeader) → Returns (unreachable_of c offending source hdr)
  unfolding unreachable_of
  unreachable_of-Returns offending source hdr = by_family hdr.src refl
    where
      by_family : (a : IpAddr) → hdr.src ≡ a → Returns (unreachable_of c offending source hdr)
      by_family (v6 dst) e = rw (unreachable_of, e) (value none)
      by_family (v4 dst) e =
          elim (Bool-cases (not (unicast_v4 dst) || quotes_an_error offending hdr)) [
            | inl f ↦ rw (unreachable_of, e, f) (value none)
            | inr f ↦
                elim (Option-cases
                  (get_range offending 0 (min (hdr.l4_offset + 8) hdr.total_len))) [
                    | inl g ↦ rw (unreachable_of, e, f, g) (value none)
                    | inr (quote, g) ↦
                        rw (unreachable_of, e, f, g)
                          (frame_v4-Returns source dst (3 ∷ 1 ∷ 0 ∷ 0 ∷ 0 ∷ 0 ∷ 0 ∷ 0 ∷ quote)
                            (omega arith))
                  ]
          ]

  pub build_unreachable_v4-Returns :
      (offending source : List ℕ) → Returns (build_unreachable_v4 c offending source)
  unfolding build_unreachable_v4
  build_unreachable_v4-Returns offending source = elim (Checked-cases (parse_ip offending)) [
    | inl (hdr, e) ↦ rw (build_unreachable_v4, e) (unreachable_of-Returns offending source hdr)
    | inr (inl (x, e)) ↦ rw (build_unreachable_v4, e) (value none)
    | inr (inr e) ↦ absurd (Returns-panic (subst Returns e (parse_ip-Returns offending)))
  ]

  echo_reply_of-Returns :
      (request : List ℕ) (hdr : IpHeader) (src dst : List ℕ)
      → Returns (echo_reply_of c request hdr src dst)
  unfolding echo_reply_of
  echo_reply_of-Returns request hdr src dst =
      elim (Bool-cases (not (hdr.protocol == proto_icmpv4) || not (unicast_v4 src))) [
        | inl e ↦ rw (echo_reply_of, e) (value none)
        | inr e ↦ elim (Option-cases (get_range request hdr.l4_offset hdr.total_len)) [
          | inl f ↦ rw (echo_reply_of, e, f) (value none)
          | inr (msg, f) ↦ elim (List-cases msg) [
            | inl g ↦ rw (echo_reply_of, e, f, g) (value none)
            | inr (kind, rest, g) ↦
                elim (Bool-cases (ltb (length (kind ∷ rest)) 8 || not (kind == 8))) [
                  | inl h ↦ rw (echo_reply_of, e, f, g, h) (value none)
                  | inr h ↦
                      let body = overwrite 2 (0 ∷ 0 ∷ []) (0 ∷ rest) in
                      let long : 8 ≤ length rest + 1 = ground (arith, h) in
                      rw
                        (
                          echo_reply_of,
                          e,
                          f,
                          g,
                          h,
                          copy_at-overwrite 2 (0 ∷ 0 ∷ []) (0 ∷ rest) (omega (arith, long)),
                        )
                        (frame_v4-Returns dst src body
                          (omega (arith, long, length-overwrite 2 (0 ∷ 0 ∷ []) (0 ∷ rest))))
                ]
          ]
        ]
      ]

  pub build_echo_reply_v4-Returns : (request : List ℕ) → Returns (build_echo_reply_v4 c request)
  unfolding build_echo_reply_v4
  build_echo_reply_v4-Returns request = elim (Checked-cases (parse_ip request)) [
    | inr (inl (x, e)) ↦ rw (build_echo_reply_v4, e) (value none)
    | inr (inr e) ↦ absurd (Returns-panic (subst Returns e (parse_ip-Returns request)))
    | inl (hdr, e) ↦ by_family hdr e hdr.src hdr.dst refl refl
  ]
    where
      by_family :
          (hdr : IpHeader)
          → parse_ip request ≡ ok hdr
          → (a b : IpAddr) → hdr.src ≡ a
          → hdr.dst ≡ b
          → Returns (build_echo_reply_v4 c request)
      by_family hdr e (v6 src) b f g = rw (build_echo_reply_v4, e, f) (value none)
      by_family hdr e (v4 src) (v6 dst) f g = rw (build_echo_reply_v4, e, f, g) (value none)
      by_family hdr e (v4 src) (v4 dst) f g =
          rw (build_echo_reply_v4, e, f, g) (echo_reply_of-Returns request hdr src dst)
