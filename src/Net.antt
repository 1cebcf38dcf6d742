-- ===== src/Net.antt =====
-- The network stack, kernel/net/net.c: its state, the address cache and what it does with received
-- frames. The exchange with the network card is port I/O: the frames that the card hands over are an
-- argument, and those given to it are kept in `sent`, the last one first; `unmasked` has the arguments
-- of the calls of `idt_unmask_irq`.
pub mod Wire
pub mod Sums
pub mod Output
pub mod Input
pub mod Client
pub mod Text
pub mod Arp
pub mod Cached
pub mod Bounds
pub mod Buffers
mod Tests
use ao_os.Base.{
  ℕ, zero, suc, ◌+◌, ◌-◌, ◌*◌, ◌/◌, ◌%◌, ◌^◌, Bool, true, false, ◌&&◌, ◌||◌, not, Option, none,
  some, List, [], ◌∷◌, ltb, leb, ◌==◌, if◌then◌else◌, update, find_from, count_below, u8, u32, u64,
  sub32, sub64, take, length,
}
use Wire.{Frame, u16, bswap16, bswap32, load16, load32, store8, store16, store32, copy, checksum}

abbrev pub local_ip : ℕ
local_ip = 0x0a00020f

-- NET_DRIVER_NONE, NET_DRIVER_NE2000 and NET_DRIVER_VIRTIO
pub data Driver : Type 0 where
  no_driver ne2000 virtio : Driver

abbrev pub uses_ne2000 : Driver → Bool
uses_ne2000 ne2000 = true
uses_ne2000 _ = false

-- `arp_entry_t`
pub record ArpEntry : Type 0 where
  pub ip : ℕ
  pub mac : Frame
  pub updated : ℕ
  pub valid : Bool

-- `udp_packet_t`
pub record UdpPacket : Type 0 where
  pub src_ip : ℕ
  pub src_port : ℕ
  pub dst_port : ℕ
  pub len : ℕ
  pub content : Frame
  pub valid : Bool

pub record Packet : Type 0 where
  pub bytes : Frame
  pub len : ℕ

-- The fields of `net_status_t` that this part works with, and the static variables.
pub record Net : Type 0 where
  pub driver : Driver
  pub io_base : ℕ
  pub irq : ℕ
  pub irq_count : ℕ
  pub packets_rx : ℕ
  pub packets_tx : ℕ
  pub rx_errors : ℕ
  pub dropped : ℕ
  pub checksum_errors : ℕ
  pub arp_entries : ℕ
  pub last_ping_ip : ℕ
  pub last_ping_ok : Bool
  pub last_ping_seq : ℕ
  pub mac : Frame
  pub arp_cache : ℕ → ArpEntry
  pub icmp_seq : ℕ
  pub rx_boundary : ℕ
  pub pending_ping_ip : ℕ
  pub pending_ping_seq : ℕ
  pub last_udp : UdpPacket
  pub sent : List Packet
  pub unmasked : List ℕ

abbrev pub arp_slots : ℕ
arp_slots = 8

abbrev pub arp_ttl_ticks : ℕ
arp_ttl_ticks = 6000

-- `if (arp_cache[i].valid) status.arp_entries++` over the slots
abbrev pub count_valid : (ℕ → ArpEntry) → ℕ
count_valid c = count_below (λ i. (c i).valid) arp_slots

abbrev pub is_expired : (now : ℕ) → ArpEntry → Bool
is_expired now e = e.valid && ltb arp_ttl_ticks (sub64 now e.updated)

abbrev pub aged : (now : ℕ) → ArpEntry → ArpEntry
aged now e = if is_expired now e then record e { valid = false } else e

-- The loop looks at each of the 8 slots once.
unfoldable pub expire_arp : (now : ℕ) → Net → Net
expire_arp now n =
    let c : ℕ → ArpEntry = λ i. aged now (n.arp_cache i) in
    record n { arp_cache = c; arp_entries = count_valid c }

abbrev pub has_ip : (ℕ → ArpEntry) → (ip i : ℕ) → Bool
has_ip c ip i = (c i).valid && ((c i).ip == ip)

unfoldable pub arp_lookup : (ip now : ℕ) → Net → Option ℕ × Net
arp_lookup ip now n =
    let n' = expire_arp now n in (find_from (has_ip n'.arp_cache ip) 0 arp_slots, n')

abbrev pub first_free : (ℕ → ArpEntry) → (i : ℕ) → Option ℕ → Option ℕ
first_free c i none = if (c i).valid then none else some i
first_free c i (some k) = some k

-- The search of `arp_cache_put` in `n` slots from `i` on, with the first free slot seen so far.
unfoldable pub put_slot : (ℕ → ArpEntry) → (ip i n : ℕ) → Option ℕ → Option ℕ
put_slot c ip i zero slot = slot
put_slot c ip i (suc n) slot =
    let rest = put_slot c ip (i + 1) n (first_free c i slot) in
    if has_ip c ip i then some i else rest

-- `if (slot < 0) slot = 0`
abbrev pub or_first : Option ℕ → ℕ
or_first none = 0
or_first (some i) = i

-- `mac` is six bytes of the frame `f` from `k` on.
abbrev pub put_entry : (ip : ℕ) → Frame → (k now : ℕ) → ArpEntry → ArpEntry
put_entry ip f k now e = record { ip = ip; mac = copy e.mac 0 f k 6; updated = now; valid = true }

abbrev pub with_entry : (i : ℕ) → ArpEntry → Net → Net
with_entry i e n =
    let c = update n.arp_cache i e in record n { arp_cache = c; arp_entries = count_valid c }

unfoldable pub arp_cache_put : (ip : ℕ) → Frame → (k now : ℕ) → Net → Net
arp_cache_put ip f k now n =
    let i = or_first (put_slot n.arp_cache ip 0 arp_slots none) in
    with_entry i (put_entry ip f k now (n.arp_cache i)) n
