-- ===== src/Icmp/Build/Frames.antt =====
-- crates/warren-bolthole-core/src/icmp.rs: what the parser reads from a packet that the gateway built.
use warren_sdk_rs.Prelude.{
  ℕ, ◌+◌, ◌*◌, ◌/◌, ◌%◌, ◌≤◌, ◌≡◌, ◌⊎◌, min, refl, ap, ◌∙◌, true, false, not, ◌||◌, none, some,
  List, [], ◌∷◌, ◌++◌, inl, inr, Bool-cases, Option-cases, ltb, length, get_elem?, length-append,
  get_elem?-append, arith,
}
use warren_sdk_rs.Bytes.{ok, get_range, overwrite, bytes, slice, index, index16, to_be, Checksum}
use warren_sdk_rs.Bytes.Laws.{copy_at-overwrite, length-overwrite}
use warren_sdk_rs.Ip.{
  IpAddr, IpHeader, v4, v6, is_icmp_error, parse, parse_version, parse_v4, parse_ip, proto_icmpv4,
}
use warren_sdk_rs.Icmp.Build.{
  frame_v4, quotes_an_error, unicast_v4, unreachable_of, build_unreachable_v4,
}

abbrev framed : ℕ → ℕ → List ℕ → List ℕ → List ℕ → List ℕ
framed total ck src dst body =
    0x45
    ∷ 0
    ∷ (total / 256)
    ∷ (total % 256)
    ∷ 0
    ∷ 0
    ∷ 0
    ∷ 0
    ∷ 64
    ∷ proto_icmpv4
    ∷ (ck / 256)
    ∷ (ck % 256)
    ∷ (src ++ (dst ++ body))

module _ (total ck : ℕ) (src dst body : List ℕ) (hs : length src ≡ 4) (hd : length dst ≡ 4)
    (ht : total ≡ 20 + length body) where
  framed-length : length (framed total ck src dst body) ≡ total
  framed-length = omega (arith, length-append src (dst ++ body), length-append dst body, hs, hd, ht)

  parse-framed :
      total ≤ 65535
      → (s d : List ℕ) × (parse_ip (framed total ck src dst body)
          ≡ ok (record {
            src = v4 s;
            dst = v4 d;
            protocol = proto_icmpv4;
            l4_offset = 20;
            total_len = total;
          }))
  unfolding parse parse_version parse_v4 index16 index slice get_elem?
  parse-framed h =
      let from_total : (total / 256) * 256 + total % 256 ≡ total = omega arith in
      (
        bytes 12 4 (framed total ck src dst body),
        bytes 16 4 (framed total ck src dst body),
        ground (arith, framed-length, h, from_total),
      )

  framed-kind : get_elem? (framed total ck src dst body) 20 ≡ get_elem? body 0
  unfolding get_elem?
  framed-kind =
      ap (get_elem? (src ++ (dst ++ body))) (omega (arith, hs))
      ∙ get_elem?-append src (dst ++ body) 4
      ∙ ap (get_elem? (dst ++ body)) (omega (arith, hd))
      ∙ get_elem?-append dst body 0

-- A frame that `frame_v4` built, of a body of the same length and first byte.
pub record Framed (src dst body reply : List ℕ) : Type 0 where
  checksum : ℕ
  written : List ℕ
  same_length : length written ≡ length body
  same_kind : get_elem? written 0 ≡ get_elem? body 0
  short : 20 + length body ≤ 65535
  reply_is : reply ≡ framed (20 + length body) checksum src dst written

frame_v4-long :
    (c : Checksum) (src dst body : List ℕ)
    → ltb 65535 (20 + length body) ≡ true
    → frame_v4 c src dst body ≡ ok none
unfolding frame_v4
frame_v4-long c src dst body e = rw e refl

frame_v4-short :
    (c : Checksum) (src dst body : List ℕ)
    → 4 ≤ length body
    → ltb 65535 (20 + length body) ≡ false
    → frame_v4 c src dst body
      ≡ ok (
          some (
            framed
              (20 + length body)
              (c.internet_checksum 0 (
                0x45
                ∷ 0
                ∷ ((20 + length body) / 256)
                ∷ ((20 + length body) % 256)
                ∷ 0
                ∷ 0
                ∷ 0
                ∷ 0
                ∷ 64
                ∷ proto_icmpv4
                ∷ (0 / 256)
                ∷ (0 % 256)
                ∷ (src ++ dst)))
              src
              dst
              (overwrite 2 (to_be (c.internet_checksum 0 body)) body)))
unfolding frame_v4
frame_v4-short c src dst body hb e =
    rw (e, copy_at-overwrite 2 (to_be (c.internet_checksum 0 body)) body (omega arith)) refl

-- The header of a message that reports an error: no reply quotes it, whatever its sender.
error_refused :
    (c : Checksum) (pkt other s d : List ℕ) (total : ℕ)
    → get_elem? pkt 20 ≡ some 3
    → unreachable_of c pkt other (record {
      src = v4 s;
      dst = v4 d;
      protocol = proto_icmpv4;
      l4_offset = 20;
      total_len = total;
    })
      ≡ ok none
unfolding unreachable_of quotes_an_error is_icmp_error
error_refused c pkt other s d total k = elim (Bool-cases (unicast_v4 s)) [
  | inl u ↦ rw (unreachable_of, u, quotes_an_error, k) refl
  | inr u ↦ rw (unreachable_of, u) refl
]

overwrite-kind : (new body : List ℕ) → get_elem? (overwrite 2 new body) 0 ≡ get_elem? body 0
unfolding overwrite get_elem?
overwrite-kind new [] = refl
overwrite-kind new (b ∷ body) = refl

pub frame_v4-Framed :
    (c : Checksum) (src dst body reply : List ℕ)
    → 4 ≤ length body
    → frame_v4 c src dst body ≡ ok (some reply)
    → Framed src dst body reply
frame_v4-Framed c src dst body reply hb h = elim (Bool-cases (ltb 65535 (20 + length body))) [
  | inl e ↦ absurd (ground (arith, h, frame_v4-long c src dst body e))
  | inr e ↦
      let ck : ℕ = c.internet_checksum 0 (
        0x45
        ∷ 0
        ∷ ((20 + length body) / 256)
        ∷ ((20 + length body) % 256)
        ∷ 0
        ∷ 0
        ∷ 0
        ∷ 0
        ∷ 64
        ∷ proto_icmpv4
        ∷ (0 / 256)
        ∷ (0 % 256)
        ∷ (src ++ dst)) in
      let body' : List ℕ = overwrite 2 (to_be (c.internet_checksum 0 body)) body in
      record {
        checksum = ck;
        written = body';
        same_length = length-overwrite 2 _ body;
        same_kind = overwrite-kind _ body;
        short = ground (arith, e);
        reply_is = ground (arith, h, frame_v4-short c src dst body hb e);
      }
]

-- A frame is parsed as a message of its own length, and no reply reports its sender as unreachable.
pub unreachable-none :
    (c : Checksum) (other src dst body reply : List ℕ)
    → length src ≡ 4
    → length dst ≡ 4
    → get_elem? body 0 ≡ some 3
    → Framed src dst body reply
    → build_unreachable_v4 c reply other ≡ ok none
unfolding build_unreachable_v4
unreachable-none c other src dst body reply hs hd kind f =
    let total : ℕ = 20 + length body in
    let ht : total ≡ 20 + length f.written = omega (arith, f.same_length) in
    let (s, d, p) = parse-framed total f.checksum src dst f.written hs hd ht f.short in
    let k : get_elem? (framed total f.checksum src dst f.written) 20 ≡ some 3 =
      framed-kind total f.checksum src dst f.written hs hd ht ∙ f.same_kind ∙ kind in
    rw (build_unreachable_v4, ap parse_ip f.reply_is ∙ p)
      (error_refused c reply other s d total (ap (λ l. get_elem? l 20) f.reply_is ∙ k))

-- The message of a reply that reports a host as unreachable, for a quote.
abbrev pub unreachable_body : List ℕ → List ℕ
unreachable_body quote = 3 ∷ 1 ∷ 0 ∷ 0 ∷ 0 ∷ 0 ∷ 0 ∷ 0 ∷ quote

address_cases : (a : IpAddr) → ((o : List ℕ) × (a ≡ v4 o)) ⊎ ((o : List ℕ) × (a ≡ v6 o))
address_cases (v4 o) = inl (o, refl)
address_cases (v6 o) = inr (o, refl)

pub unreachable_of-built :
    (c : Checksum) (offending source reply : List ℕ) (hdr : IpHeader)
    → unreachable_of c offending source hdr ≡ ok (some reply)
    → (dst quote : List ℕ) × (hdr.src ≡ v4 dst)
      × (frame_v4 c source dst (unreachable_body quote) ≡ ok (some reply))
unfolding unreachable_of
unreachable_of-built c offending source reply hdr h = elim (address_cases hdr.src) [
  | inr (dst, e) ↦ absurd (ground (arith, e, h))
  | inl (dst, e) ↦ elim (Bool-cases (not (unicast_v4 dst) || quotes_an_error offending hdr)) [
    | inl b ↦ absurd (ground (arith, e, b, h))
    | inr b ↦ elim (Option-cases (get_range offending 0 (min (hdr.l4_offset + 8) hdr.total_len))) [
      | inl g ↦ absurd (ground (arith, e, b, g, h))
      | inr (quote, g) ↦ (dst, quote, e, ground (arith, e, b, g, h))
    ]
  ]
]
