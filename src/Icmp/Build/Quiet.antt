-- ===== src/Icmp/Build/Quiet.antt =====
-- crates/warren-bolthole-core/src/icmp.rs: no error answers an error that the gateway built.
use warren_sdk_rs.Prelude.{
  ℕ, ◌≡◌, refl, sym, ◌∙◌, subst, false, none, some, List, inl, inr, length, get_elem?, arith,
}
use warren_sdk_rs.Bytes.{ok, err, panic, PacketError, Checksum}
use warren_sdk_rs.Bytes.Laws.{Checked-cases}
use warren_sdk_rs.Ip.{IpHeader, v4, parse_ip}
use warren_sdk_rs.Ip.Parse.{Parsed, Fits, Sized, parse-Parsed}
use warren_sdk_rs.Icmp.Build.{build_unreachable_v4, unreachable_of}
use warren_sdk_rs.Icmp.Build.Frames.{
  unreachable-none, unreachable_of-built, frame_v4-Framed, unreachable_body,
}

module _ (c : Checksum) (offending source : List ℕ) where
  opened :
      (hdr : IpHeader)
      → parse_ip offending ≡ ok hdr
      → build_unreachable_v4 c offending source ≡ unreachable_of c offending source hdr
  unfolding build_unreachable_v4
  opened hdr e = rw (build_unreachable_v4, e) refl

  refused :
      (e : PacketError)
      → parse_ip offending ≡ err e
      → build_unreachable_v4 c offending source ≡ ok none
  unfolding build_unreachable_v4
  refused e f = rw (build_unreachable_v4, f) refl

  panicked : parse_ip offending ≡ panic → build_unreachable_v4 c offending source ≡ panic
  unfolding build_unreachable_v4
  panicked f = rw (build_unreachable_v4, f) refl

  sized :
      (hdr : IpHeader) (dst : List ℕ)
      → parse_ip offending ≡ ok hdr
      → hdr.src ≡ v4 dst
      → length dst ≡ 4
  unfolding Parsed Sized
  sized hdr dst e f =
      let fits : Fits offending false hdr =
        subst (Parsed offending false) e (parse-Parsed offending false) in
      subst Sized f fits.source_sized

  -- An IPv4 packet that the gateway built to report a host as unreachable, from a source of four octets,
  -- is never answered by another such report, whatever the source of that one.
  pub build_unreachable_v4-quiet :
      (other reply : List ℕ)
      → length source ≡ 4
      → build_unreachable_v4 c offending source ≡ ok (some reply)
      → build_unreachable_v4 c reply other ≡ ok none
  unfolding get_elem?
  build_unreachable_v4-quiet other reply hs h = elim (Checked-cases (parse_ip offending)) [
    | inl (hdr, e) ↦
        let (dst, quote, f, g) =
          unreachable_of-built c offending source reply hdr (sym (opened hdr e) ∙ h) in
        unreachable-none c other source dst (unreachable_body quote) reply hs (sized hdr dst e f)
          refl (frame_v4-Framed c source dst (unreachable_body quote) reply (omega arith) g)
    | inr (inl (e, f)) ↦ absurd (ground (arith, sym (refused e f) ∙ h))
    | inr (inr f) ↦ absurd (ground (arith, sym (panicked f) ∙ h))
  ]
