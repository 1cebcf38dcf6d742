-- ===== src/Net/Client.antt =====
-- The calls of kernel/net/net.c that start a session: `net_init`, `net_ping_ipv4` and `net_send_udp`.
-- They wait by polling the card; what the timer and the card show in each round is an argument.
use ao_os.Base.{
  ℕ, zero, suc, ◌+◌, ◌*◌, ◌/◌, Bool, true, false, ◌&&◌, ◌||◌, not, Option, none, some, List, [],
  ◌∷◌, ltb, leb, ◌==◌, if◌then◌else◌,
}
use ao_os.Base.Int.{ℤ, pos, negsuc}
use ao_os.Ramfs.{byte_at}
use ao_os.Net.Wire.{Frame, u16, bswap16, bswap32, store8, store16, store32, copy, checksum}
use ao_os.Net.{Net, ArpEntry, Driver, no_driver, ne2000, virtio, local_ip, arp_lookup}
use ao_os.Net.Output.{
  eth_type_ipv4, ip_proto_icmp, ip_proto_udp, zeros, net_send_packet, send_arp_request,
}
use ao_os.Net.Input.{Ring, rx_start, net_poll}

-- `pci_device_t`, as far as `net_init` reads it
pub record PciDevice : Type 0 where
  pub class_code : ℕ
  pub subclass : ℕ
  pub vendor_id : ℕ
  pub device_id : ℕ
  pub interrupt_line : ℕ
  pub bar0 : ℕ

abbrev pub is_ne2000 : (vendor device : ℕ) → Bool
is_ne2000 vendor device = vendor == 0x10ec && (device == 0x8029)

abbrev pub is_virtio_net : (vendor device : ℕ) → Bool
is_virtio_net vendor device = vendor == 0x1af4 && leb 0x1000 device && leb device 0x104f

-- `bar & ~0x3`
abbrev pub io_base_from_bar : ℕ → ℕ
io_base_from_bar bar = u16 (bar / 4 * 4)

abbrev pub own_mac : Frame
own_mac = byte_at (0x52 ∷ 0x54 ∷ 0x00 ∷ 0x12 ∷ 0x34 ∷ 0x56 ∷ [])

abbrev pub free_entry : ArpEntry
free_entry = record { ip = 0; mac = zeros; updated = 0; valid = false }

-- `net_init` clears the status and the address cache; the other static variables stay.
abbrev pub cleared : Net → Net
cleared n = record n {
  driver = no_driver;
  io_base = 0;
  irq = 0;
  irq_count = 0;
  packets_rx = 0;
  packets_tx = 0;
  rx_errors = 0;
  dropped = 0;
  checksum_errors = 0;
  arp_entries = 0;
  last_ping_ip = 0;
  last_ping_ok = false;
  last_ping_seq = 0;
  mac = own_mac;
  arp_cache = λ i. free_entry;
}

-- The driver `d` serves the device.
abbrev pub attached : Driver → PciDevice → Net → Net
attached d device n =
    let line = device.interrupt_line in
    record n {
      driver = d;
      io_base = io_base_from_bar device.bar0;
      irq = line;
      unmasked = if line == 10 || (line == 11) then line ∷ n.unmasked else n.unmasked;
    }

-- `ne2k_init` programs the card; of the state it sets `rx_boundary`.
abbrev pub ne2k_init : Net → Net
ne2k_init n = record n { rx_boundary = rx_start }

-- The loop over the devices. The line of a network card without a driver stays in `status.irq`.
unfoldable pub init_from : List PciDevice → Net → Net
init_from [] n = n
init_from (device ∷ rest) n =
    let later = init_from rest n in
    let later_irq = init_from rest (record n { irq = device.interrupt_line }) in
    if not (device.class_code == 2) || not (device.subclass == 0)
    then later
    else if is_ne2000 device.vendor_id device.device_id
    then ne2k_init (attached ne2000 device n)
    else if is_virtio_net device.vendor_id device.device_id
    then attached virtio device n
    else later_irq

unfoldable pub net_init : List PciDevice → Net → Net
net_init devices n = init_from devices (cleared n)

-- What the timer and the card show in one round of polling.
pub record Round : Type 0 where
  pub now : ℕ
  pub rings : ℕ → Ring

abbrev pub Rounds : Type 0
Rounds = ℕ → Round

abbrev pub poll_lookup : Round → (ip : ℕ) → Net → Option ℕ × Net
poll_lookup r ip n = arp_lookup ip r.now (net_poll r.rings r.now n).1

-- The outcome of waiting for an answer: the slot of the address if it came, whether the request was not
-- sent, the number of rounds that have passed, and the state.
pub record Waited : Type 0 where
  pub slot : Option ℕ
  pub refused : Bool
  pub round : ℕ
  pub net : Net

-- At most `spins` rounds of `net_poll` and `arp_lookup`
unfoldable arp_spin : Rounds → (ip k spins : ℕ) → Net → Waited
arp_spin rounds ip k zero n = record { slot = none; refused = false; round = k; net = n }
arp_spin rounds ip k (suc spins) n =
    let r = poll_lookup (rounds k) ip n in
    let rest = arp_spin rounds ip (k + 1) spins r.1 in
    elim r.0 [
      | none ↦ rest
      | some i ↦ record { slot = some i; refused = false; round = k + 1; net = r.1 }
    ]

abbrev pub ping_wait_spins : ℕ
ping_wait_spins = 120000

-- The attempts of `net_ping_ipv4` to learn the address
unfoldable arp_attempts : Rounds → (ip k spins attempts : ℕ) → Net → Waited
arp_attempts rounds ip k spins zero n = record { slot = none; refused = false; round = k; net = n }
arp_attempts rounds ip k spins (suc attempts) n =
    let request = send_arp_request ip n in
    let w = arp_spin rounds ip k spins request.1 in
    let rest = arp_attempts rounds ip w.round spins attempts w.net in
    elim request.0 [
      | negsuc e ↦ record { slot = none; refused = true; round = k; net = request.1 }
      | pos c ↦ elim w.slot [ none ↦ rest | some i ↦ w ]
    ]

-- The Ethernet and IPv4 headers of a packet of `ip_len` bytes behind the Ethernet header.
abbrev pub ipv4_header : (dst_mac mac : Frame) → (ip_len proto ip : ℕ) → Frame
ipv4_header dst_mac mac ip_len proto ip =
    let p1 = store16 (copy (copy zeros 0 dst_mac 0 6) 6 mac 0 6) 12 (bswap16 eth_type_ipv4) in
    let p2 = store16 (store8 p1 14 0x45) 16 (bswap16 ip_len) in
    let p3 = store8 (store8 p2 22 64) 23 proto in
    let p4 = store32 (store32 p3 26 (bswap32 local_ip)) 30 (bswap32 ip) in
    store16 p4 24 (checksum p4 14 20)

-- "AO-OS-PING-0000" with its NUL
abbrev pub ping_text : Frame
ping_text = byte_at (65 ∷ 79 ∷ 45 ∷ 79 ∷ 83 ∷ 45 ∷ 80 ∷ 73 ∷ 78 ∷ 71 ∷ 45 ∷ 48 ∷ 48 ∷ 48 ∷ 48 ∷ [])

unfoldable pub ping_packet : (dst_mac mac : Frame) → (ip seq : ℕ) → Frame
ping_packet dst_mac mac ip seq =
    let p1 = ipv4_header dst_mac mac (20 + 8 + 16) ip_proto_icmp ip in
    let p2 = store16 (store16 (store8 p1 34 8) 38 (bswap16 1)) 40 (bswap16 seq) in
    let p3 = copy p2 42 ping_text 0 16 in store16 p3 36 (checksum p3 34 (8 + 16))

-- The last loop of `net_ping_ipv4`
unfoldable pub wait_pong : Rounds → (k spins : ℕ) → Net → ℤ × Net
wait_pong rounds k zero n = (pos 0, n)
wait_pong rounds k (suc spins) n =
    let n' = (net_poll (rounds k).rings (rounds k).now n).1 in
    let rest = wait_pong rounds (k + 1) spins n' in if n'.last_ping_ok then (pos 1, n') else rest

-- The state in which the echo request leaves.
abbrev pub pinging : (ip : ℕ) → Net → Net
pinging ip n =
    let seq = u16 (n.icmp_seq + 1) in
    record n {
      pending_ping_ip = ip;
      icmp_seq = seq;
      pending_ping_seq = seq;
      last_ping_ip = ip;
      last_ping_ok = false;
      last_ping_seq = seq;
    }

-- `net_ping_ipv4` from the lookup of the address on: `i` is the slot of the address.
unfoldable pub ping_slot : Rounds → (ip k spins i : ℕ) → Net → ℤ × Net
ping_slot rounds ip k spins i n =
    let n1 = pinging ip n in
    let r = net_send_packet (ping_packet (n.arp_cache i).mac n.mac ip n1.pending_ping_seq) 58 n1 in
    let answer = wait_pong rounds k (spins * 3) r.1 in
    elim r.0 [ negsuc e ↦ (negsuc 0, r.1) | pos c ↦ answer ]

abbrev pub is_none : Driver → Bool
is_none no_driver = true
is_none _ = false

-- The address was not in the cache.
abbrev pub unresolved : (ip : ℕ) → Net → Net
unresolved ip n = record n { last_ping_ip = ip; last_ping_ok = false }

abbrev pub ping_waited : Rounds → (ip spins : ℕ) → Waited → ℤ × Net
ping_waited rounds ip spins w =
    if w.refused
    then (negsuc 0, w.net)
    else elim w.slot [ none ↦ (pos 0, w.net) | some i ↦ ping_slot rounds ip w.round spins i w.net ]

-- `spins` stands for PING_WAIT_SPINS.
unfoldable ping_with : (spins : ℕ) → Rounds → (ip : ℕ) → Net → ℤ × Net
ping_with spins rounds ip n =
    let r = poll_lookup (rounds 0) ip n in
    let w = arp_attempts rounds ip 1 spins 3 (unresolved ip r.1) in
    if is_none n.driver then (negsuc 0, n) else elim r.0 [
      | none ↦ ping_waited rounds ip spins w
      | some i ↦ ping_slot rounds ip 1 spins i r.1
    ]

net_ping_ipv4 : Rounds → (ip : ℕ) → Net → ℤ × Net
net_ping_ipv4 = ping_with ping_wait_spins

unfoldable pub udp_frame :
    (dst_mac mac : Frame) → (ip port : ℕ) → (content : Frame) → (len : ℕ) → Frame
udp_frame dst_mac mac ip port content len =
    let p1 = ipv4_header dst_mac mac (u16 (20 + u16 (8 + len))) ip_proto_udp ip in
    let p2 = store16 (store16 p1 34 (bswap16 49152)) 36 (bswap16 port) in
    copy (store16 p2 38 (bswap16 (u16 (8 + len)))) 42 content 0 len

abbrev pub send_udp_slot :
    (ip port : ℕ) → (content : Frame) → (len : ℕ) → (slot : Option ℕ) → Net → ℤ × Net
send_udp_slot ip port content len none n = (pos 0, n)
send_udp_slot ip port content len (some i) n =
    net_send_packet (udp_frame (n.arp_cache i).mac n.mac ip port content len)
      (u16 (14 + u16 (20 + u16 (8 + len)))) n

unfoldable send_udp_with :
    (spins : ℕ) → Rounds → (ip port : ℕ) → (content : Frame) → (len : ℕ) → Net → ℤ × Net
send_udp_with spins rounds ip port content len n =
    let r = poll_lookup (rounds 0) ip n in
    let request = send_arp_request ip r.1 in
    let w = arp_spin rounds ip 1 spins request.1 in
    if ltb 256 len || is_none n.driver then (negsuc 0, n) else elim r.0 [
      | some i ↦ send_udp_slot ip port content len (some i) r.1
      | none ↦ elim request.0 [
        | negsuc e ↦ (negsuc 0, request.1)
        | pos c ↦ send_udp_slot ip port content len w.slot w.net
      ]
    ]

net_send_udp : Rounds → (ip port : ℕ) → (content : Frame) → (len : ℕ) → Net → ℤ × Net
net_send_udp = send_udp_with ping_wait_spins
