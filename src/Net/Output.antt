-- ===== src/Net/Output.antt =====
-- The packets that kernel/net/net.c sends: `net_send_packet` and the functions that build a packet for
-- it. A buffer on the stack is the frame of zeros before it is filled; what of it is sent is written.
use ao_os.Base.{ℕ, ◌+◌, ◌*◌, ◌%◌, Bool, ◌&&◌, ◌||◌, not, ◌∷◌, ltb, ◌==◌, if◌then◌else◌, u32, sub32}
use ao_os.Base.Int.{ℤ, pos, negsuc}
use ao_os.Net.Wire.{
  Frame, u16, bswap16, bswap32, load16, load32, store8, store16, store32, copy, checksum,
}
use ao_os.Net.{Net, Packet, uses_ne2000, local_ip}

abbrev pub eth_type_arp : ℕ
eth_type_arp = 0x0806

abbrev pub eth_type_ipv4 : ℕ
eth_type_ipv4 = 0x0800

abbrev pub ip_proto_icmp : ℕ
ip_proto_icmp = 1

abbrev pub ip_proto_udp : ℕ
ip_proto_udp = 17

abbrev pub zeros : Frame
zeros j = 0

abbrev pub can_send : (len : ℕ) → Net → Bool
can_send len n = not (len == 0) && uses_ne2000 n.driver && not (n.io_base == 0)

-- What the card gets is the frame padded with zeros to 60 bytes.
abbrev pub padded : Frame → (len : ℕ) → Packet
padded f len = record { bytes = copy zeros 0 f 0 len; len = if ltb len 60 then 60 else len }

abbrev pub with_sent : Packet → Net → Net
with_sent p n = record n { packets_tx = u32 (n.packets_tx + 1); sent = p ∷ n.sent }

unfoldable pub net_send_packet : Frame → (len : ℕ) → Net → ℤ × Net
net_send_packet f len n =
    if can_send len n then (pos 0, with_sent (padded f len) n) else (negsuc 0, n)

-- The fields of an ARP packet that do not depend on the peer, from the sender's address on.
abbrev pub arp_header : (mac : Frame) → (op : ℕ) → Frame → Frame
arp_header mac op f =
    let f1 = copy f 6 mac 0 6 in
    let f2 = store16 f1 12 (bswap16 eth_type_arp) in
    let f3 = store16 f2 14 (bswap16 1) in
    let f4 = store16 f3 16 (bswap16 eth_type_ipv4) in
    let f5 = store8 (store8 f4 18 6) 19 4 in
    let f6 = store16 f5 20 (bswap16 op) in
    let f7 = copy f6 22 mac 0 6 in store32 f7 28 (bswap32 local_ip)

unfoldable pub arp_reply : (request mac : Frame) → Frame
arp_reply request mac =
    let f1 = arp_header mac 2 (copy zeros 0 request 6 6) in
    copy (copy f1 32 request 22 6) 38 request 28 4

abbrev pub send_arp_reply : (request : Frame) → Net → Net
send_arp_reply request n = (net_send_packet (arp_reply request n.mac) 42 n).1

-- `for (int i = 0; i < 6; i++) p[i] = 0xFF`
abbrev pub broadcast : Frame
broadcast j = if ltb j 6 then 0xff else 0

unfoldable pub arp_request : (target_ip : ℕ) → (mac : Frame) → Frame
arp_request target_ip mac = store32 (arp_header mac 1 broadcast) 38 (bswap32 target_ip)

abbrev pub send_arp_request : (target_ip : ℕ) → Net → ℤ × Net
send_arp_request target_ip n = net_send_packet (arp_request target_ip n.mac) 42 n

-- `(ip[0] & 0x0F) * 4` of the packet at 14
abbrev pub header_len : Frame → ℕ
header_len f = f 14 % 16 * 4

-- The reply to the request `f`: what `send_icmp_echo_reply` writes to `reply`.
unfoldable pub echo_reply : Frame → (mac : Frame) → Frame
echo_reply f mac =
    let ip_len = bswap16 (load16 f 16) in
    let r1 = copy (copy zeros 0 f 0 (ip_len + 14)) 0 f 6 6 in
    let r2 = copy r1 6 mac 0 6 in
    let src = bswap32 (load32 r2 26) in
    let r3 = store32 (store32 r2 26 (bswap32 local_ip)) 30 (bswap32 src) in
    let r4 = store16 r3 24 0 in
    let r5 = store16 r4 24 (checksum r4 14 (header_len r4)) in
    let icmp = 14 + header_len r5 in
    let r6 = store8 (store8 (store8 r5 icmp 0) (icmp + 2) 0) (icmp + 3) 0 in
    store16 r6 (icmp + 2) (checksum r6 icmp (sub32 ip_len (header_len r6)))

abbrev pub reply_size : ℕ
reply_size = 1514

unfoldable pub send_icmp_echo_reply : Frame → (len : ℕ) → Net → Net
send_icmp_echo_reply f len n =
    let ip_len = bswap16 (load16 f 16) in
    if ltb len (14 + 20 + 8)
    then n
    else if ltb len (ip_len + 14) || ltb reply_size (ip_len + 14)
    then n
    else (net_send_packet (echo_reply f n.mac) (u16 (ip_len + 14)) n).1
