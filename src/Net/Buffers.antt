-- ===== src/Net/Buffers.antt =====
-- The buffers of kernel/net/net.c: what is written to the 1600 bytes that `net_poll` receives a packet
-- in, and to the buffers of the text functions.
use ao_os.Base.{
  ℕ, zero, suc, ◌+◌, ◌-◌, ◌*◌, ◌/◌, ◌%◌, ◌^◌, ◌≤◌, ◌<◌, ◌≡◌, refl, ◌∙◌, inl, inr, true, false, ◌||◌,
  not, Option, none, some, List, [], ◌∷◌, arith, ltb, leb, ◌==◌, if◌then◌else◌, Bool-cases,
  if_holds, u32,
}
use ao_os.Base.Int.{pos, negsuc}
use ao_os.Net.Wire.{Frame, u16, copy}
use ao_os.Net.{Net, uses_ne2000, ArpEntry, UdpPacket, arp_slots}
use ao_os.Net.Input.{
  Ring, Received, rx_start, rx_stop, dma, first_part, transfer, header_ok, packet_page, no_packet,
  accept_packet, bad_header, net_receive_packet,
}
use ao_os.Net.Text.{
  Text, put_char, append_str, append_u32, append_hex2, append_ip, append_mac_byte, append_mac_from,
  terminated, start_text, append_entry, append_entries, append_column, append_udp, decimal,
  hex_digit, net_format_arp_cache, net_format_device_stats, net_format_udp, dot, colon, space,
  newline, age_label, arp_title, eth0, stats_title, no_udp, src_label, dst_label, data_label,
  net_driver_name, string_at,
}

first_part-le : (page count : ℕ) → first_part page count ≤ count - 4
first_part-le page count = ground arith

copy_outside : (d : Frame) (i : ℕ) (src : Frame) (k n j : ℕ) → i + n ≤ j → copy d i src k n j ≡ d j
unfolding copy
copy_outside d i src k n j h = ground (arith, h)

transfer_outside :
    (r : Ring) (page count : ℕ) (f : Frame) (j : ℕ)
    → count ≤ 1600
    → 1600 ≤ j
    → transfer r page count f j ≡ f j
unfolding transfer
transfer_outside r page count f j h h' =
    let part = first_part page count in
    let rest = count - 4 - part in
    let b = first_part-le page count in
    let f1 = dma r (u16 (page * 256 + 4)) part 0 f in
    let e1 : f1 j ≡ f j =
      copy_outside f 0 r.memory (u16 (page * 256 + 4)) ((part + 1) / 2 * 2) j
        (omega (arith, b, h, h')) in
    elim (Bool-cases (ltb part (count - 4))) [
      | inl t ↦
          let l : part < count - 4 = ground (arith, t) in
          let e2 =
            copy_outside f1 part r.memory (rx_start * 256) ((rest + 1) / 2 * 2) j
              (omega (arith, b, h, h', l)) in
          rw t (e2 ∙ e1)
      | inr t ↦ rw t e1
    ]

-- A packet that was received fits into the buffer of 1600 bytes, and the ring goes on inside its pages.
pub record Fits (f : Frame) (x : Received) : Type 0 where
  pub short : x.len ≤ 1596
  pub lower : rx_start ≤ x.net.rx_boundary
  pub upper : x.net.rx_boundary < rx_stop
  pub outside : (j : ℕ) → 1600 ≤ j → x.frame j ≡ f j

accept_packet-Fits :
    (r : Ring) (f : Frame) (page next_page count : ℕ) (n : Net)
    → header_ok next_page count ≡ true
    → Fits f (accept_packet r f page next_page count n)
accept_packet-Fits r f page next_page count n h =
    let c : count ≤ 1600 = ground (arith, h) in
    record {
      short = omega (arith, c);
      lower = ground (arith, h);
      upper = ground (arith, h);
      outside = λ j l. transfer_outside r page count f j c l;
    }

-- A packet that net_receive_packet delivers has at most 1596 bytes, its two transfers write
-- below offset 1600 of the buffer only, and the boundary of the ring stays inside the pages of
-- the ring.
pub net_receive_packet-Fits :
    (r : Ring) (f : Frame) (len : ℕ) (n : Net)
    → (net_receive_packet r f len n).code ≡ pos 1
    → Fits f (net_receive_packet r f len n)
unfolding net_receive_packet
net_receive_packet-Fits r f len n =
    let page = packet_page n in
    let next_page = r.memory (page * 256 + 1) in
    let count = r.memory (page * 256 + 2) + 256 * r.memory (page * 256 + 3) in
    let holds = if_holds (λ (x : Received). x.code ≡ pos 1 → Fits f x) in
    let accepted = accept_packet r f page next_page count n in
    let rejected = no_packet (negsuc 0) f 0 (bad_header r n) in
    let later = if header_ok next_page count then accepted else rejected in
    let full = if page == r.curr then no_packet (pos 0) f 0 n else later in
    holds (not (uses_ne2000 n.driver) || n.io_base == 0) (no_packet (negsuc 0) f len n) full
      (λ t e. absurd (cc e))
      (λ t.
        holds (page == r.curr) (no_packet (pos 0) f 0 n) later (λ u e. absurd (cc e))
          (λ u.
            holds (header_ok next_page count) accepted rejected
              (λ v e. accept_packet-Fits r f page next_page count n v) (λ v e. absurd (cc e))))

-- The text ends inside the `max` bytes of the buffer, and the bytes behind them are as in `old`.
pub record Within (max : ℕ) (old : Frame) (t : Text) : Type 0 where
  pub ends : t.at < max
  pub kept : (j : ℕ) → max ≤ j → t.buffer j ≡ old j

module _ (max : ℕ) (fits : max + 1 < 2 ^ 32) (old : Frame) where
  put_char-Within :
      (t : Text) (c : ℕ) → t.at + 1 < max → Within max old t → Within max old (put_char t c)
  put_char-Within t c l h = record {
    ends = let b = h.ends in ground (arith, b, l, fits);
    kept = λ j m. let e = h.kept j m in let b = h.ends in ground (arith, e, b, m);
  }

  append_str-Within :
      (cs : List ℕ) (t : Text) → Within max old t → Within max old (append_str max cs t)
  unfolding append_str
  append_str-Within [] t h = h
  append_str-Within (c ∷ cs) t h =
      let b = h.ends in
      if_holds (Within max old) (ltb (u32 (t.at + 1)) max) (append_str max cs (put_char t c)) t
        (λ l.
          append_str-Within cs (put_char t c) (put_char-Within t c (ground (arith, l, b, fits)) h))
        (λ l. h)

  append_hex2-Within : (v : ℕ) (t : Text) → Within max old t → Within max old (append_hex2 max v t)
  append_hex2-Within v t h =
      let b = h.ends in
      if_holds (Within max old) (leb max (u32 (t.at + 2))) t _ (λ l. h)
        (λ l.
          let room : t.at + 2 < max = ground (arith, l, b, fits) in
          let h' = put_char-Within t (hex_digit (v / 16)) (omega (arith, room)) h in
          put_char-Within (put_char t (hex_digit (v / 16))) (hex_digit (v % 16))
            (ground (arith, room, fits)) h')

  append_ip-Within : (ip : ℕ) (t : Text) → Within max old t → Within max old (append_ip max ip t)
  append_ip-Within ip t h =
      let part = λ (v : ℕ) (s : Text) (k : Within max old s).
        append_str-Within dot (append_u32 max v s) (append_str-Within (decimal v) s k) in
      append_str-Within (decimal (ip % 256)) _
        (part (ip / 2 ^ 8 % 256) _ (part (ip / 2 ^ 16 % 256) _ (part (ip / 2 ^ 24 % 256) t h)))

  append_mac_from-Within :
      (mac : Frame) (i n : ℕ) (t : Text)
      → Within max old t
      → Within max old (append_mac_from max mac i n t)
  unfolding append_mac_from
  append_mac_from-Within mac i zero t h = h
  append_mac_from-Within mac i (suc n) t h =
      let s = if i == 0 then t else append_str max colon t in
      let k : Within max old s =
        if_holds (Within max old) (i == 0) t _ (λ l. h) (λ l. append_str-Within colon t h) in
      append_mac_from-Within mac (i + 1) n (append_mac_byte max mac i t)
        (append_hex2-Within (mac i) s k)

  append_entry-Within :
      (now : ℕ) (e : ArpEntry) (t : Text)
      → Within max old t
      → Within max old (append_entry max now e t)
  unfolding append_entry
  append_entry-Within now e t h =
      let h1 = append_str-Within space _ (append_ip-Within e.ip t h) in
      let h2 = append_str-Within age_label _ (append_mac_from-Within e.mac 0 6 _ h1) in
      let h3 = append_str-Within newline _ (append_str-Within _ _ h2) in
      if_holds (Within max old) e.valid _ t (λ v. h3) (λ v. h)

  append_entries-Within :
      (now : ℕ) (c : ℕ → ArpEntry) (i n : ℕ) (t : Text)
      → Within max old t
      → Within max old (append_entries max now c i n t)
  unfolding append_entries
  append_entries-Within now c i zero t h = h
  append_entries-Within now c i (suc n) t h =
      append_entries-Within now c (i + 1) n _ (append_entry-Within now (c i) t h)

  append_column-Within :
      (v : ℕ) (t : Text) → Within max old t → Within max old (append_column max v t)
  append_column-Within v t h = append_str-Within space _ (append_str-Within (decimal v) t h)

  append_udp-Within :
      (u : UdpPacket) (t : Text) → Within max old t → Within max old (append_udp max u t)
  unfolding append_udp
  append_udp-Within u t h =
      let h1 =
        append_str-Within colon _ (append_ip-Within u.src_ip _ (append_str-Within src_label t h)) in
      let h2 = append_str-Within dst_label _ (append_str-Within (decimal u.src_port) _ h1) in
      let h3 = append_str-Within data_label _ (append_str-Within (decimal u.dst_port) _ h2) in
      append_str-Within newline _ (append_str-Within (string_at u.content 0 128) _ h3)

  terminated-Within : (t : Text) → Within max old t → Within max old (terminated max t)
  terminated-Within t h = record {
    ends = h.ends;
    kept = λ j m. let e = h.kept j m in let b = h.ends in ground (arith, e, b, m);
  }

start-Within : (max : ℕ) (old : Frame) → 0 < max → Within max old (start_text old)
start-Within max old h = record { ends = h; kept = λ j m. refl }

-- The call succeeds, and its text is within the buffer.
abbrev pub Formats : (max : ℕ) → (old : Frame) → Option Text → Type 0
Formats max old o = (t : Text) × ((o ≡ some t) × Within max old t)

some-Formats :
    (max : ℕ) (old : Frame) (t : Text)
    → 0 < max
    → max + 1 < 2 ^ 32
    → Within max old t
    → Formats max old (if max == 0 then none else some (terminated max t))
some-Formats max old t h fits w =
    let room : (max == 0) ≡ false = ground (arith, h) in
    (terminated max t, (rw room refl, terminated-Within max fits old t w))

net_format_arp_cache-Formats :
    (max : ℕ) (old : Frame) (now : ℕ) (n : Net)
    → 0 < max
    → max + 1 < 2 ^ 32
    → Formats max old (net_format_arp_cache old max now n)
unfolding net_format_arp_cache
net_format_arp_cache-Formats max old now n h fits =
    let title =
      append_str-Within max fits old arp_title (start_text old) (start-Within max old h) in
    some-Formats max old _ h fits
      (append_entries-Within max fits old now n.arp_cache 0 arp_slots _ title)

net_format_device_stats-Formats :
    (max : ℕ) (old : Frame) (n : Net)
    → 0 < max
    → max + 1 < 2 ^ 32
    → Formats max old (net_format_device_stats old max n)
unfolding net_format_device_stats
net_format_device_stats-Formats max old n h fits =
    let put = append_str-Within max fits old in
    let column = append_column-Within max fits old in
    let h1 = put eth0 _ (put stats_title (start_text old) (start-Within max old h)) in
    let h2 = put space _ (put (net_driver_name n.driver) _ h1) in
    let h3 = column n.packets_tx _ (column n.packets_rx _ h2) in
    let h4 = column n.rx_errors _ (column n.irq_count _ h3) in
    let h5 = column n.checksum_errors _ (column n.dropped _ h4) in
    some-Formats max old _ h fits
      (put newline _ (append_mac_from-Within max fits old n.mac 0 6 _ h5))

net_format_udp-Formats :
    (max : ℕ) (old : Frame) (n : Net)
    → 0 < max
    → max + 1 < 2 ^ 32
    → Formats max old (net_format_udp old max n)
unfolding net_format_udp
net_format_udp-Formats max old n h fits =
    let h0 = start-Within max old h in
    some-Formats max old _ h fits (
      if_holds (Within max old) n.last_udp.valid _ _
        (λ v. append_udp-Within max fits old n.last_udp (start_text old) h0)
        (λ v. append_str-Within max fits old no_udp (start_text old) h0))

-- With a buffer of 1 to 2^32 - 2 bytes, the texts of the address cache, the device and the last
-- datagram are all produced, end inside the buffer, and no byte behind the buffer changes.
pub format-Formats :
    (max : ℕ) (old : Frame) (now : ℕ) (n : Net)
    → 0 < max
    → max + 1 < 2 ^ 32
    → Formats max old (net_format_arp_cache old max now n)
      × (Formats max old (net_format_device_stats old max n)
          × Formats max old (net_format_udp old max n))
format-Formats max old now n h fits = (
  net_format_arp_cache-Formats max old now n h fits,
  (net_format_device_stats-Formats max old n h fits, net_format_udp-Formats max old n h fits),
)
