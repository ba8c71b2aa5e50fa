-- ===== src/Socks5/Sound.antt =====
-- What a parser accepts is what a builder writes, and no parser panics.
use mathlib.Core.List.{append_assoc}
use warren_sdk_rs.Prelude.{
  ℕ, zero, suc, ◌+◌, ◌/◌, ◌%◌, ◌^◌, ◌≤◌, ◌<◌, ◌≡◌, ◌⊎◌, ◌∙◌, refl, ap, sym, subst, inl, inr, true,
  false, List, [], ◌∷◌, ◌++◌, arith, ltb, ◌==◌, length, length-append, get_elem?, Bool-cases,
}
use warren_sdk_rs.Bytes.{from_be, to_be}
use warren_sdk_rs.Ip.{v4, socket_addr}
use warren_sdk_rs.Socks5.{
  ◌>>=◌, Socks5Error, bad_command, Command, connect, bind, udp_associate, Target, ip, Decoded, ok,
  err, panic, truncated, bad_domain, slice_from, parse_v4, parse_v6, parse_domain, parse_address,
  command_of, command_code, parse_request, encode_addr, encode_target, version,
}
use warren_sdk_rs.Socks5.Utf8.{is_utf8}
use warren_sdk_rs.Socks5.Fields.{
  IsName, IsTarget, parse_v4-encode, parse_v6-encode, parse_domain-encode, parse_domain-refused,
  encode_domain,
}

abbrev pub AllBytes : List ℕ → Type 0
AllBytes [] = Unit {0}
AllBytes (b ∷ bs) = (b < 256) × AllBytes bs

AllBytes-append : (xs ys : List ℕ) → AllBytes (xs ++ ys) → AllBytes xs × AllBytes ys
AllBytes-append [] ys h = (tt, h)
AllBytes-append (x ∷ xs) ys h = let (a, b) = AllBytes-append xs ys h.1 in ((h.0, a), b)

-- A buffer of at least `n` bytes is split after them.
split_at :
    (n : ℕ) (buf : List ℕ)
    → n ≤ length buf
    → (xs : List ℕ) × (ys : List ℕ) × (buf ≡ xs ++ ys) × (length xs ≡ n)
split_at zero buf h = ([], buf, refl, refl)
split_at (suc n) [] h = absurd (omega arith)
split_at (suc n) (b ∷ buf) h =
    let (xs, ys, e, l) = split_at n buf (omega arith) in (b ∷ xs, ys, ap (◌∷◌ b) e, ap suc l)

split_two :
    (buf : List ℕ)
    → 2 ≤ length buf
    → (high : ℕ) × (low : ℕ) × (rest : List ℕ) × (buf ≡ high ∷ low ∷ rest)
split_two [] h = absurd (omega arith)
split_two (a ∷ []) h = absurd (omega arith)
split_two (a ∷ b ∷ rest) h = (a, b, rest, refl)

-- The address that was read stands at the front of the buffer, as `encode_target` writes it.
unfoldable pub ReadAddress : List ℕ → Decoded (Target × ℕ) → Type 0
ReadAddress buf (ok (target, consumed)) =
    IsTarget target
    × (consumed ≡ length (encode_target target))
    × (rest : List ℕ) × (buf ≡ encode_target target ++ rest)
ReadAddress buf (err e) = Unit {0}
ReadAddress buf panic = ⊥

-- Two bytes are those of the port that they spell.
port_bytes :
    (high low : ℕ)
    → high < 256
    → low < 256
    → (from_be high low < 2 ^ 16) × (from_be high low / 256 ≡ high) × (from_be high low % 256 ≡ low)
port_bytes high low h l = (omega arith, omega arith, omega arith)

parse_v4-Read : (buf : List ℕ) → AllBytes buf → ReadAddress (0x01 ∷ buf) (parse_v4 (0x01 ∷ buf))
unfolding ReadAddress encode_target encode_addr IsTarget
parse_v4-Read (a ∷ b ∷ c ∷ d ∷ high ∷ low ∷ rest) (_, (_, (_, (_, (h, (l, _)))))) =
    let (wide, top, bottom) = port_bytes high low h l in
    let read : parse_v4 (0x01 ∷ a ∷ b ∷ c ∷ d ∷ high ∷ low ∷ rest)
        ≡ ok (ip (socket_addr (v4 (a ∷ b ∷ c ∷ d ∷ [])) (from_be high low)), 7) =
      rw (top, bottom) at (parse_v4-encode a b c d (from_be high low) rest wide) in
    rw read (record { octets = refl; wide = wide }, refl, rest, rw (top, bottom) refl)
parse_v4-Read [] h = unfold parse_v4 in tt
parse_v4-Read (a ∷ []) h = unfold parse_v4 in tt
parse_v4-Read (a ∷ b ∷ []) h = unfold parse_v4 in tt
parse_v4-Read (a ∷ b ∷ c ∷ []) h = unfold parse_v4 in tt
parse_v4-Read (a ∷ b ∷ c ∷ d ∷ []) h = unfold parse_v4 in tt
parse_v4-Read (a ∷ b ∷ c ∷ d ∷ high ∷ []) h = unfold parse_v4 in tt

-- `n` octets and a port, and what follows them.
Field : ℕ → List ℕ → Type 0
Field n buf =
    (octets : List ℕ) × (port : ℕ) × (rest : List ℕ) × (buf
      ≡ octets ++ ((port / 256) ∷ (port % 256) ∷ rest))
    × (length octets ≡ n)
    × (port < 2 ^ 16)

field : (n : ℕ) (buf : List ℕ) → AllBytes buf → n + 2 ≤ length buf → Field n buf
unfolding Field
field n buf h l =
    let (octets, after, e, len) = split_at n buf (omega arith) in
    let long : 2 ≤ length after = omega (arith, length-append octets after, ap length e) in
    let (high, low, rest, e') = split_two after long in
    let all : AllBytes (high ∷ low ∷ rest) =
      subst AllBytes e' (AllBytes-append octets after (subst AllBytes e h)).1 in
    let (wide, top, bottom) = port_bytes high low all.0 all.1.0 in
    (octets, from_be high low, rest, rw (top, bottom) (e ∙ ap (◌++◌ octets) e'), len, wide)

parse_v6-short : (buf : List ℕ) → ltb (length buf) 18 ≡ true → parse_v6 (0x04 ∷ buf) ≡ err truncated
unfolding parse_v6
parse_v6-short buf h = ground arith

parse_domain-empty : parse_domain (0x03 ∷ []) ≡ err truncated
unfolding parse_domain get_elem?
parse_domain-empty = refl

parse_domain-zero : (buf : List ℕ) → parse_domain (0x03 ∷ 0 ∷ buf) ≡ err bad_domain
unfolding parse_domain get_elem?
parse_domain-zero buf = refl

parse_domain-short :
    (len : ℕ) (buf : List ℕ)
    → 1 ≤ len
    → ltb (length buf) (len + 2) ≡ true
    → parse_domain (0x03 ∷ len ∷ buf) ≡ err truncated
unfolding parse_domain get_elem?
parse_domain-short len buf h short = ground arith

parse_v6-Read : (buf : List ℕ) → AllBytes buf → ReadAddress (0x04 ∷ buf) (parse_v6 (0x04 ∷ buf))
unfolding ReadAddress encode_target encode_addr IsTarget Field
parse_v6-Read buf h = elim (Bool-cases (ltb (length buf) 18)) [
  | inl short ↦ rw (parse_v6-short buf short) tt
  | inr room ↦
      let (octets, port, rest, e, len, wide) = field 16 buf h (ground (arith, room)) in
      rw e (
        rw (parse_v6-encode octets port rest len wide) (
          record { octets = len; wide = wide },
          omega (arith, length-append octets (to_be port), len),
          rest,
          ap (◌∷◌ 0x04) (sym (append_assoc octets (to_be port) rest)),
        ))
]

parse_domain-Read :
    (buf : List ℕ) → AllBytes buf → ReadAddress (0x03 ∷ buf) (parse_domain (0x03 ∷ buf))
unfolding ReadAddress IsTarget Field
parse_domain-Read [] h = rw parse_domain-empty tt
parse_domain-Read (zero ∷ buf) h = rw (parse_domain-zero buf) tt
parse_domain-Read (suc k ∷ buf) h = elim (Bool-cases (ltb (length buf) (suc k + 2))) [
  | inl short ↦ rw (parse_domain-short (suc k) buf (omega arith) short) tt
  | inr room ↦
      let (host, port, rest, e, len, wide) = field (suc k) buf h.1 (ground (arith, room)) in
      rw e (rw (← len) (named host port rest (omega (arith, len)) (omega (arith, len, h.0)) wide))
]
  where
    named :
        (host : List ℕ) (port : ℕ) (rest : List ℕ)
        → 1 ≤ length host
        → length host ≤ 255
        → port < 2 ^ 16
        → ReadAddress
            (0x03 ∷ length host ∷ (host ++ ((port / 256) ∷ (port % 256) ∷ rest)))
            (parse_domain (0x03 ∷ length host ∷ (host ++ ((port / 256) ∷ (port % 256) ∷ rest))))
    named host port rest one short wide = elim (Bool-cases (is_utf8 host)) [
      | inr bad ↦ rw (parse_domain-refused host port rest one bad) tt
      | inl text ↦
          let h : IsName host port = record {
            named = one;
            short = short;
            text = text;
            wide = wide;
          } in
          rw (parse_domain-encode host port rest h) (
            h,
            rw (encode_domain host port h) (omega (arith, length-append host (to_be port))),
            rest,
            rw (encode_domain host port h)
                (ap (λ l. 0x03 ∷ length host ∷ l) (sym (append_assoc host (to_be port) rest))),
          )
    ]

pub parse_address-Read : (buf : List ℕ) → AllBytes buf → ReadAddress buf (parse_address buf)
unfolding ReadAddress parse_address get_elem?
parse_address-Read [] h = tt
parse_address-Read (atyp ∷ buf) h = elim (Bool-cases (atyp == 0x01)) [
  | inl is_v4 ↦
      let e : atyp ≡ 0x01 = ground (arith, is_v4) in rw is_v4 (rw e (parse_v4-Read buf h.1))
  | inr not_v4 ↦ elim (Bool-cases (atyp == 0x04)) [
    | inl is_v6 ↦
        let e : atyp ≡ 0x04 = ground (arith, is_v6) in
        rw (not_v4, is_v6) (rw e (parse_v6-Read buf h.1))
    | inr not_v6 ↦ elim (Bool-cases (atyp == 0x03)) [
      | inl is_name ↦
          let e : atyp ≡ 0x03 = ground (arith, is_name) in
          rw (not_v4, not_v6, is_name) (rw e (parse_domain-Read buf h.1))
      | inr other ↦ rw (not_v4, not_v6, other) tt
    ]
  ]
]

-- What a request that was accepted says of the buffer.
unfoldable pub ReadRequest : List ℕ → Decoded (Command × Target) → Type 0
ReadRequest buf (ok (command, target)) =
    IsTarget target
    × (reserved : ℕ) × (rest : List ℕ) × (buf
        ≡ version ∷ command_code command ∷ reserved ∷ (encode_target target ++ rest))
ReadRequest buf (err e) = Unit {0}
ReadRequest buf panic = ⊥

-- A request whose address was read, or refused.
request-Read :
    (command : Command) (reserved : ℕ) (buf : List ℕ) (r : Decoded (Target × ℕ))
    → ReadAddress buf r
    → ReadRequest
        (version ∷ command_code command ∷ reserved ∷ buf)
        (r >>= λ (target, consumed). ok (command, target))
unfolding ReadAddress ReadRequest
request-Read command reserved buf (ok (target, consumed)) (h, _, rest, e) =
    (h, reserved, rest, ap (λ l. version ∷ command_code command ∷ reserved ∷ l) e)
request-Read command reserved buf (err e) h = tt
request-Read command reserved buf panic h = elim h [ ]

command_of-Read :
    (cmd : ℕ)
    → ((command : Command) × (command_of cmd ≡ ok command) × (cmd ≡ command_code command))
      ⊎ ((e : Socks5Error) × (command_of cmd ≡ err e))
unfolding command_of command_code
command_of-Read cmd = elim (Bool-cases (cmd == 0x01)) [
  | inl a ↦ inl (connect, ground (arith, a), ground (arith, a))
  | inr a ↦ elim (Bool-cases (cmd == 0x02)) [
    | inl b ↦ inl (bind, ground (arith, a, b), ground (arith, b))
    | inr b ↦ elim (Bool-cases (cmd == 0x03)) [
      | inl c ↦ inl (udp_associate, ground (arith, a, b, c), ground (arith, c))
      | inr c ↦ inr (bad_command cmd, ground (arith, a, b, c))
    ]
  ]
]

-- Whatever the bytes, `parse_request` does not panic. A request that it accepts is a request that
-- `build_request` writes for the command and the target returned, but for its reserved byte, and
-- something after it; the target is an address, or a name of 1 to 255 bytes of UTF-8.
pub parse_request-Read : (buf : List ℕ) → AllBytes buf → ReadRequest buf (parse_request buf)
unfolding ReadRequest parse_request get_elem? slice_from
parse_request-Read (ver ∷ cmd ∷ reserved ∷ atyp ∷ buf) h =
    let long : ltb (suc (suc (suc (suc (length buf))))) 4 ≡ false = ground arith in
    elim (Bool-cases (ver == version)) [
      | inr other ↦ rw (long, other) tt
      | inl five ↦
          let e : ver ≡ version = ground (arith, five) in
          elim (command_of-Read cmd) [
            | inr (bad, c) ↦ rw (long, five, c) tt
            | inl (command, c, code) ↦
                rw (long, five, c)
                  (rw (e, code)
                    (request-Read command reserved (atyp ∷ buf) (parse_address (atyp ∷ buf))
                      (parse_address-Read (atyp ∷ buf) h.1.1.1)))
          ]
    ]
parse_request-Read [] h = tt
parse_request-Read (a ∷ []) h = tt
parse_request-Read (a ∷ b ∷ []) h = tt
parse_request-Read (a ∷ b ∷ c ∷ []) h = tt
