-- ===== src/Net/Tests.antt =====
-- The theorems about the network stack at concrete inputs.
use ao_os.Base.{
  ℕ, ◌+◌, ◌-◌, ◌/◌, ◌%◌, ◌<◌, ◌≡◌, ◌≢◌, refl, ◌↔◌, false, [], ◌∷◌, some, arith, ltb, ◌==◌, ◌||◌,
  if◌then◌else◌,
}
use ao_os.Base.Int.{pos}
use ao_os.Ramfs.{byte_at}
use ao_os.Net.Wire.{Frame, store16, checksum}
use ao_os.Net.{expire_arp, Net, UdpPacket, ne2000, arp_lookup, arp_cache_put}
use ao_os.Net.Output.{zeros}
use ao_os.Net.Input.{Ring, net_receive_packet, handle_frame}
use ao_os.Net.Client.{PciDevice, own_mac, free_entry, net_init}
use ao_os.Net.Text.{net_format_arp_cache, net_format_device_stats, net_format_udp}
use ao_os.Net.Sums.{stored_checksum}
use ao_os.Net.Arp.{arp_lookup-arp_cache_put, IsCached}
use ao_os.Net.Cached.{interrupt, polled, after, frames-IsCached}
use ao_os.Net.Bounds.{handle_frame_agree}
use ao_os.Net.Buffers.{Fits, Formats, net_receive_packet-Fits, format-Formats}

abbrev no_text : UdpPacket
no_text = record { src_ip = 0; src_port = 0; dst_port = 0; len = 0; content = zeros; valid = false }

abbrev idle : Net
idle = record {
  driver = ne2000;
  io_base = 0xc100;
  irq = 11;
  irq_count = 0;
  packets_rx = 0;
  packets_tx = 0;
  rx_errors = 0;
  dropped = 0;
  checksum_errors = 0;
  arp_entries = 0;
  last_ping_ip = 0;
  last_ping_ok = false;
  last_ping_seq = 0;
  mac = own_mac;
  arp_cache = λ i. free_entry;
  icmp_seq = 0;
  rx_boundary = 0x46;
  pending_ping_ip = 0;
  pending_ping_seq = 0;
  last_udp = no_text;
  sent = [];
  unmasked = [];
}

-- An ARP request of 10.0.2.2 for 10.0.2.15, in a frame of 42 bytes
abbrev request : Frame
request = byte_at (
    255 ∷ 255 ∷ 255 ∷ 255 ∷ 255 ∷ 255 ∷ 1 ∷ 2 ∷ 3 ∷ 4 ∷ 5 ∷ 6 ∷ 8 ∷ 6 ∷ 0 ∷ 1 ∷ 8 ∷ 0 ∷ 6 ∷ 4 ∷ 0
    ∷ 1 ∷ 1 ∷ 2 ∷ 3 ∷ 4 ∷ 5 ∷ 6 ∷ 10 ∷ 0 ∷ 2 ∷ 2 ∷ 0 ∷ 0 ∷ 0 ∷ 0 ∷ 0 ∷ 0 ∷ 10 ∷ 0 ∷ 2 ∷ 15 ∷ [])

-- The same frame with rubbish behind it
abbrev dirty : Frame
dirty j = if ltb j 42 then request j else 7

-- The packet memory of a card that has received the request: its header is at page 0x47.
abbrev memory : Frame
memory j =
    if j == 0x4701
    then 0x48
    else if j == 0x4702
    then 46
    else if ltb j 0x4704
    then 0
    else request (j - 0x4704)

abbrev ring : Ring
ring = record { curr = 0x48; memory = memory }

abbrev card : PciDevice
card = record {
  class_code = 2;
  subclass = 0;
  vendor_id = 0x10ec;
  device_id = 0x8029;
  interrupt_line = 11;
  bar0 = 0xc101;
}

arp_lookup-arp_cache_put_example :
    (i : ℕ) × (((arp_lookup 0x0a000202 90 (arp_cache_put 0x0a000202 request 6 50 idle)).0 ≡ some i)
      × ((j : ℕ)
          → j < 6
          → ((arp_lookup 0x0a000202 90 (arp_cache_put 0x0a000202 request 6 50 idle)).1.arp_cache
                i).mac
              j
            ≡ request (6 + j))
      × ((j : ℕ)
          → i ≢ j
          → (arp_lookup 0x0a000202 90 (arp_cache_put 0x0a000202 request 6 50 idle)).1.arp_cache j
            ≡ (expire_arp 90 idle).arp_cache j))
arp_lookup-arp_cache_put_example =
    arp_lookup-arp_cache_put 0x0a000202 request 6 50 90 idle (omega arith)

frames-IsCached_example :
    IsCached
      (after (interrupt 11 1 (λ i. ring) 5 ∷ polled (λ i. ring) 9 ∷ []) (net_init (card ∷ []) idle))
frames-IsCached_example =
    frames-IsCached (card ∷ []) (interrupt 11 1 (λ i. ring) 5 ∷ polled (λ i. ring) 9 ∷ []) idle

handle_frame_agree_example : handle_frame request 42 5 idle ≡ handle_frame dirty 42 5 idle
handle_frame_agree_example =
    handle_frame_agree request dirty 42 5 idle (omega arith) (λ j h. ground (arith, h))

received : (net_receive_packet ring zeros 0 idle).code ≡ pos 1
unfolding net_receive_packet
received = refl

net_receive_packet-Fits_example : Fits zeros (net_receive_packet ring zeros 0 idle)
net_receive_packet-Fits_example = net_receive_packet-Fits ring zeros 0 idle received

format-Formats_example :
    Formats 64 zeros (net_format_arp_cache zeros 64 7 idle)
    × (Formats 64 zeros (net_format_device_stats zeros 64 idle)
        × Formats 64 zeros (net_format_udp zeros 64 idle))
format-Formats_example = format-Formats 64 zeros 7 idle (omega arith) (omega arith)

-- The 20 bytes of an IPv4 header before its checksum is filled in
abbrev ip_header : Frame
ip_header j = if j == 10 || (j == 11) then 0 else 69

stored_checksum_example :
    (checksum (store16 ip_header 10 (checksum ip_header 0 20)) 0 20 ≡ 0)
    ↔ (checksum ip_header 0 20 % 256 ≡ checksum ip_header 0 20 / 256)
stored_checksum_example =
    stored_checksum ip_header 0 10 5 (λ j. ground arith) (omega arith) (omega arith) refl refl
