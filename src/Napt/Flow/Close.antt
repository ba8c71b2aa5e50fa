-- ===== src/Napt/Flow/Close.antt =====
-- When `advance` of nat.rs closes a flow.
use warren_sdk_rs.Prelude.{ℕ, ◌≡◌, Bool, false, not, ◌&&◌, ◌||◌, arith}
use warren_sdk_rs.Napt.Types.{MapProto, RemoteFlow}
use warren_sdk_rs.Napt.Flow.{flag, is_closed, advance_tcp, advance}

-- A reset, or the second of the two ends' FINs, closes a TCP flow that was open; the ends are counted
-- from the SYN that opened it.
unfoldable pub closes : RemoteFlow → ℕ → Bool → Bool
closes flow flags uplink =
    let opens = flag flags 2 && (not (flag flags 16) && uplink) in
    let up = (flow.fin_up && not opens) || (flag flags 1 && uplink) in
    let down = (flow.fin_down && not opens) || (flag flags 1 && not uplink) in
    flag flags 4 || (up && down)

advance_tcp-closes :
    (flow : RemoteFlow) (flags : ℕ) (uplink : Bool)
    → is_closed flow.state ≡ false
    → flag flags 4 ≡ false
    → is_closed (advance_tcp flow flags uplink).state ≡ closes flow flags uplink
unfolding advance_tcp closes
advance_tcp-closes flow flags uplink live quiet = ground (arith, live, quiet)

unfoldable pub ends : RemoteFlow → MapProto → ℕ → Bool → Bool
unfolding closes
ends flow MapProto.tcp flags uplink = closes flow flags uplink
ends flow _ flags uplink = false

-- A flow that was open reports that it closed exactly where its protocol is TCP and the packet is a
-- reset or brings the second FIN, and is closed then; it is open otherwise.
pub advance-Closes :
    (flow : RemoteFlow) (proto : MapProto) (flags : ℕ) (uplink : Bool)
    → is_closed flow.state ≡ false
    → ((advance flow proto flags uplink).1 ≡ ends flow proto flags uplink)
      × (is_closed (advance flow proto flags uplink).0.state ≡ ends flow proto flags uplink)
unfolding advance closes ends
advance-Closes flow MapProto.udp flags uplink live = ground (arith, live)
advance-Closes flow MapProto.icmp flags uplink live = ground (arith, live)
advance-Closes flow MapProto.tcp flags uplink live =
    ground (arith, live, advance_tcp-closes flow flags uplink live)
