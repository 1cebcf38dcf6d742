-- ===== src/Net/Input.antt =====
-- What kernel/net/net.c receives: the ring of the card, `net_poll`, and the handlers of ARP, IPv4, ICMP
-- and UDP packets. The memory of the card and its register CURR are arguments.
use ao_os.Base.{
  ℕ, zero, suc, ◌+◌, ◌-◌, ◌*◌, ◌/◌, ◌%◌, ◌^◌, Bool, true, false, ◌&&◌, ◌||◌, not, ltb, leb, ◌==◌,
  if◌then◌else◌, bit_and, u8, u32, sub32,
}
use ao_os.Base.Int.{ℤ, pos, negsuc}
use ao_os.Net.Wire.{Frame, u16, bswap16, bswap32, load16, load32, store8, copy, checksum}
use ao_os.Net.{Net, UdpPacket, uses_ne2000, local_ip, arp_cache_put}
use ao_os.Net.Output.{
  eth_type_arp, eth_type_ipv4, ip_proto_icmp, ip_proto_udp, send_arp_reply, send_icmp_echo_reply,
  zeros,
}

abbrev pub rx_start : ℕ
rx_start = 0x46

abbrev pub rx_stop : ℕ
rx_stop = 0x80

-- The NE2000: the register CURR, and its packet memory by the address of the remote DMA.
pub record Ring : Type 0 where
  pub curr : ℕ
  pub memory : Frame

-- `insw` reads whole words: one byte more than asked for when `n` is odd.
abbrev pub dma : Ring → (addr n : ℕ) → (i : ℕ) → Frame → Frame
dma r addr n i f = copy f i r.memory addr ((n + 1) / 2 * 2)

pub record Received : Type 0 where
  pub code : ℤ
  pub len : ℕ
  pub frame : Frame
  pub net : Net

-- The page before `page` in the ring: what `rx_boundary` becomes.
abbrev pub page_before : ℕ → ℕ
page_before page = if page == rx_start then rx_stop - 1 else sub32 page 1 % 2 ^ 8

-- `packet_page`
abbrev pub packet_page : Net → ℕ
packet_page n = let page = u8 (n.rx_boundary + 1) in if leb rx_stop page then rx_start else page

-- `next_page` and `count` of the header in front of a packet are accepted.
abbrev pub header_ok : (next_page count : ℕ) → Bool
header_ok next_page count =
    not (ltb next_page rx_start || leb rx_stop next_page || ltb count 4 || ltb 1600 count)

-- `first_payload`: the bytes of the packet before the end of the ring.
abbrev pub first_part : (page count : ℕ) → ℕ
first_part page count =
    let room = u16 ((rx_stop - page) * 256) in
    let first = if ltb count room then count else room in
    let part = if ltb 4 first then first - 4 else 0 in
    if ltb (count - 4) part then count - 4 else part

-- The two transfers of a packet that starts at the page `page`.
unfoldable pub transfer : Ring → (page count : ℕ) → Frame → Frame
transfer r page count f =
    let part = first_part page count in
    let f1 = dma r (u16 (page * 256 + 4)) part 0 f in
    if ltb part (count - 4) then dma r (rx_start * 256) (count - 4 - part) part f1 else f1

abbrev pub no_packet : ℤ → Frame → (len : ℕ) → Net → Received
no_packet code f len n = record { code = code; len = len; frame = f; net = n }

abbrev pub accept_packet : Ring → Frame → (page next_page count : ℕ) → Net → Received
accept_packet r f page next_page count n = record {
  code = pos 1;
  len = count - 4;
  frame = transfer r page count f;
  net = record n { rx_boundary = page_before next_page; packets_rx = u32 (n.packets_rx + 1) };
}

-- The rest of the ring is given up.
abbrev pub bad_header : Ring → Net → Net
bad_header r n = record n { rx_boundary = page_before r.curr; rx_errors = u32 (n.rx_errors + 1) }

unfoldable pub net_receive_packet : Ring → Frame → (len : ℕ) → Net → Received
net_receive_packet r f len n =
    let page = packet_page n in
    let next_page = r.memory (page * 256 + 1) in
    let count = r.memory (page * 256 + 2) + 256 * r.memory (page * 256 + 3) in
    if not (uses_ne2000 n.driver) || n.io_base == 0
    then no_packet (negsuc 0) f len n
    else if page == r.curr
    then no_packet (pos 0) f 0 n
    else if header_ok next_page count
    then accept_packet r f page next_page count n
    else no_packet (negsuc 0) f 0 (bad_header r n)

unfoldable pub handle_arp : Frame → (len now : ℕ) → Net → Net
handle_arp f len now n =
    let op = bswap16 (load16 f 20) in
    let spa = bswap32 (load32 f 28) in
    let tpa = bswap32 (load32 f 38) in
    let n' = arp_cache_put spa f 22 now n in
    if ltb len 42 then n else if op == 1 && (tpa == local_ip) then send_arp_reply f n' else n'

abbrev pub drop : Net → Net
drop n = record n { dropped = u32 (n.dropped + 1) }

abbrev pub bad_checksum : Net → Net
bad_checksum n = record n { checksum_errors = u32 (n.checksum_errors + 1) }

-- An echo reply from `src` whose sequence number is at `i`.
abbrev pub handle_echo_reply : Frame → (i src : ℕ) → Net → Net
handle_echo_reply f i src n =
    if src == n.pending_ping_ip && (bswap16 (load16 f i) == n.pending_ping_seq)
    then record n { last_ping_ok = true }
    else n

-- The ICMP message of `icmp_len` bytes behind an IP header of `ihl` bytes.
unfoldable pub handle_icmp : Frame → (len ihl icmp_len src : ℕ) → Net → Net
handle_icmp f len ihl icmp_len src n =
    let icmp = 14 + ihl in
    if ltb icmp_len 8
    then drop n
    else if not (checksum f icmp icmp_len == 0)
    then bad_checksum n
    else if f icmp == 8
    then send_icmp_echo_reply f len n
    else if f icmp == 0
    then handle_echo_reply f (icmp + 6) src n
    else n

-- `sizeof(last_udp.data)`
abbrev pub udp_data_size : ℕ
udp_data_size = 128

abbrev pub udp_kept : (udp_len : ℕ) → ℕ
udp_kept udp_len = if ltb (udp_data_size - 1) (udp_len - 8) then udp_data_size - 1 else udp_len - 8

abbrev pub udp_packet : Frame → (udp udp_len src : ℕ) → UdpPacket → UdpPacket
udp_packet f udp udp_len src old =
    let len = udp_kept udp_len in
    record {
      src_ip = src;
      src_port = bswap16 (load16 f udp);
      dst_port = bswap16 (load16 f (udp + 2));
      len = len;
      content = store8 (copy old.content 0 f (udp + 8) len) len 0;
      valid = true;
    }

unfoldable pub handle_udp : Frame → (ihl udp_len src : ℕ) → Net → Net
handle_udp f ihl udp_len src n =
    if ltb udp_len 8
    then drop n
    else record n { last_udp = udp_packet f (14 + ihl) udp_len src n.last_udp }

-- `handle_ipv4` from the lookup of the protocol on.
abbrev pub handle_protocol : Frame → (len ihl total src : ℕ) → Net → Net
handle_protocol f len ihl total src n =
    if f 23 == ip_proto_icmp
    then handle_icmp f len ihl (total - ihl) src n
    else if f 23 == ip_proto_udp
    then handle_udp f ihl (total - ihl) src n
    else n

unfoldable pub handle_ipv4 : Frame → (len now : ℕ) → Net → Net
handle_ipv4 f len now n =
    let ihl = f 14 % 16 * 4 in
    let total = bswap16 (load16 f 16) in
    let src = bswap32 (load32 f 26) in
    let dst = bswap32 (load32 f 30) in
    if ltb len 34
    then n
    else if ltb ihl 20 || ltb len (14 + ihl)
    then n
    else if ltb total ihl
    then drop n
    else if ltb len (14 + total)
    then drop n
    else if not (checksum f 14 ihl == 0)
    then bad_checksum n
    else if dst == local_ip
    then handle_protocol f len ihl total src (arp_cache_put src f 6 now n)
    else n

-- The dispatch on the type of the frame in `net_poll`.
abbrev pub handle_frame : Frame → (len now : ℕ) → Net → Net
handle_frame f len now n =
    let type = bswap16 (load16 f 12) in
    if type == eth_type_arp
    then handle_arp f len now n
    else if type == eth_type_ipv4
    then handle_ipv4 f len now n
    else drop n

abbrev pub is_packet : ℤ → Bool
is_packet (pos code) = ltb 0 code
is_packet (negsuc k) = false

-- The loop of `net_poll`; the receive of the round `i` finds the card as `rings i`.
unfoldable pub poll_from : (rings : ℕ → Ring) (now i n : ℕ) → Frame → (len : ℕ) → Net → ℕ × Net
poll_from rings now i zero f len s = (0, s)
poll_from rings now i (suc n) f len s =
    let r = net_receive_packet (rings i) f len s in
    let rest = poll_from rings now (i + 1) n r.frame r.len (handle_frame r.frame r.len now r.net) in
    if not (is_packet r.code) || ltb r.len 14 then (0, r.net) else (rest.0 + 1, rest.1)

unfoldable pub net_poll : (rings : ℕ → Ring) (now : ℕ) → Net → ℕ × Net
net_poll rings now s = poll_from rings now 0 8 zeros 0 s

-- `isr` is what the card's register ISR holds.
unfoldable pub net_irq_handler : (irq isr : ℕ) (rings : ℕ → Ring) (now : ℕ) → Net → Net
net_irq_handler irq isr rings now n =
    let n1 = record n { irq_count = u32 (n.irq_count + 1) } in
    let n2 = if bit_and isr 0x15 == 0 then n1 else (net_poll rings now n1).1 in
    if not (uses_ne2000 n.driver) || not (irq == n.irq) || n.io_base == 0
    then n
    else if isr == 0
    then n
    else if bit_and isr 0x10 == 0
    then n2
    else record n2 { rx_errors = u32 (n2.rx_errors + 1) }
