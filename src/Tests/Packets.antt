-- ===== src/Tests/Packets.antt =====
-- The parser of ip.rs and the builders of icmp.rs on a packet.
use warren_sdk_rs.Prelude.{ℕ, false, List, [], ◌∷◌}
use warren_sdk_rs.Ip.{parse, parse_version, parse_v4, is_icmp_error}
use warren_sdk_rs.Prelude.{◌≡◌, refl, none, some, get_elem?}
use warren_sdk_rs.Prelude.Map.{list_beq}
use warren_sdk_rs.Bytes.{ok, Checksum, bytes, index, index16, slice, copy_at, overwrite, get_range}
use warren_sdk_rs.Icmp.Build.{
  build_unreachable_v4, unreachable_of, frame_v4, quotes_an_error, unicast_v4,
}
use warren_sdk_rs.Icmp.Build.Quiet.{build_unreachable_v4-quiet}
use warren_sdk_rs.Ip.Parse.{Parsed, parse-Parsed}

-- A UDP datagram with no data, from 10.0.0.2:5000 to 10.0.0.1:53.
abbrev pub datagram : List ℕ
datagram =
    0x45 ∷ 0 ∷ 0 ∷ 28 ∷ 0 ∷ 0 ∷ 0 ∷ 0 ∷ 64 ∷ 17 ∷ 0 ∷ 0 ∷ 10 ∷ 0 ∷ 0 ∷ 2 ∷ 10 ∷ 0 ∷ 0 ∷ 1 ∷ 0x13
    ∷ 0x88 ∷ 0 ∷ 53 ∷ 0 ∷ 8 ∷ 0 ∷ 0 ∷ []

parse-Parsed_example : Parsed datagram false (parse datagram false)
parse-Parsed_example = parse-Parsed datagram false

-- Checksums that are all zero.
abbrev zeros : Checksum
zeros = record {
  incremental_checksum_update = λ ck old new. 0;
  internet_checksum = λ seed buf. 0;
  icmpv6_pseudo_sum = λ src dst len. 0;
}

-- The report, from 10.0.0.1, that the host of `datagram` is unreachable.
abbrev report : List ℕ
report =
    0x45 ∷ 0 ∷ 0 ∷ 56 ∷ 0 ∷ 0 ∷ 0 ∷ 0 ∷ 64 ∷ 1 ∷ 0 ∷ 0 ∷ 10 ∷ 0 ∷ 0 ∷ 1 ∷ 10 ∷ 0 ∷ 0 ∷ 2 ∷ 3 ∷ 1 ∷ 0
    ∷ 0 ∷ 0 ∷ 0 ∷ 0 ∷ 0 ∷ datagram

report-built : build_unreachable_v4 zeros datagram (10 ∷ 0 ∷ 0 ∷ 1 ∷ []) ≡ ok (some report)
unfolding build_unreachable_v4 unreachable_of frame_v4 quotes_an_error unicast_v4 parse
    parse_version parse_v4 is_icmp_error bytes index index16 slice copy_at overwrite get_range
    get_elem? list_beq
report-built = refl

build_unreachable_v4-quiet_example :
    build_unreachable_v4 zeros report (10 ∷ 0 ∷ 0 ∷ 2 ∷ []) ≡ ok none
build_unreachable_v4-quiet_example =
    build_unreachable_v4-quiet zeros datagram (10 ∷ 0 ∷ 0 ∷ 1 ∷ []) (10 ∷ 0 ∷ 0 ∷ 2 ∷ []) report
      refl report-built
