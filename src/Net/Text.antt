-- ===== src/Net/Text.antt =====
-- The text that kernel/net/net.c prints and parses: the `append` functions, the three `net_format`
-- functions and `net_parse_ipv4`. Characters are their codes.
use ao_os.Base.{
  ℕ, zero, suc, ◌+◌, ◌-◌, ◌*◌, ◌/◌, ◌%◌, ◌^◌, ◌&&◌, Option, none, some, List, [], ◌∷◌, ltb, leb,
  ◌==◌, if◌then◌else◌, ◌>>=◌, u32, sub32,
}
use ao_os.Net.Wire.{Frame, store8}
use ao_os.Net.{Net, ArpEntry, UdpPacket, Driver, no_driver, ne2000, virtio, arp_slots}

-- "IP MAC\n"
abbrev pub arp_title : List ℕ
arp_title = 73 ∷ 80 ∷ 32 ∷ 77 ∷ 65 ∷ 67 ∷ 10 ∷ []

-- " age="
abbrev pub age_label : List ℕ
age_label = 32 ∷ 97 ∷ 103 ∷ 101 ∷ 61 ∷ []

-- "\n"
abbrev pub newline : List ℕ
newline = 10 ∷ []

-- " "
abbrev pub space : List ℕ
space = 32 ∷ []

-- "."
abbrev pub dot : List ℕ
dot = 46 ∷ []

-- ":"
abbrev pub colon : List ℕ
colon = 58 ∷ []

-- "iface driver rx tx irq rxerr drop csum mac\n"
abbrev pub stats_title : List ℕ
stats_title =
    105 ∷ 102 ∷ 97 ∷ 99 ∷ 101 ∷ 32 ∷ 100 ∷ 114 ∷ 105 ∷ 118 ∷ 101 ∷ 114 ∷ 32 ∷ 114 ∷ 120 ∷ 32 ∷ 116
    ∷ 120 ∷ 32 ∷ 105 ∷ 114 ∷ 113 ∷ 32 ∷ 114 ∷ 120 ∷ 101 ∷ 114 ∷ 114 ∷ 32 ∷ 100 ∷ 114 ∷ 111 ∷ 112
    ∷ 32 ∷ 99 ∷ 115 ∷ 117 ∷ 109 ∷ 32 ∷ 109 ∷ 97 ∷ 99 ∷ 10 ∷ []

-- "eth0 "
abbrev pub eth0 : List ℕ
eth0 = 101 ∷ 116 ∷ 104 ∷ 48 ∷ 32 ∷ []

-- "no udp packets\n"
abbrev pub no_udp : List ℕ
no_udp = 110 ∷ 111 ∷ 32 ∷ 117 ∷ 100 ∷ 112 ∷ 32 ∷ 112 ∷ 97 ∷ 99 ∷ 107 ∷ 101 ∷ 116 ∷ 115 ∷ 10 ∷ []

-- "src="
abbrev pub src_label : List ℕ
src_label = 115 ∷ 114 ∷ 99 ∷ 61 ∷ []

-- " dst="
abbrev pub dst_label : List ℕ
dst_label = 32 ∷ 100 ∷ 115 ∷ 116 ∷ 61 ∷ []

-- " data="
abbrev pub data_label : List ℕ
data_label = 32 ∷ 100 ∷ 97 ∷ 116 ∷ 97 ∷ 61 ∷ []

-- "NE2000"
abbrev pub ne2000_name : List ℕ
ne2000_name = 78 ∷ 69 ∷ 50 ∷ 48 ∷ 48 ∷ 48 ∷ []

-- "virtio-net"
abbrev pub virtio_name : List ℕ
virtio_name = 118 ∷ 105 ∷ 114 ∷ 116 ∷ 105 ∷ 111 ∷ 45 ∷ 110 ∷ 101 ∷ 116 ∷ []

-- "none"
abbrev pub none_name : List ℕ
none_name = 110 ∷ 111 ∷ 110 ∷ 101 ∷ []

-- The buffer, and the position behind the text in it.
pub record Text : Type 0 where
  pub buffer : Frame
  pub at : ℕ

abbrev pub put_char : Text → ℕ → Text
put_char t c = record { buffer = store8 t.buffer t.at c; at = u32 (t.at + 1) }

unfoldable pub append_str : (max : ℕ) → List ℕ → Text → Text
append_str max [] t = t
append_str max (c ∷ cs) t =
    let rest = append_str max cs (put_char t c) in if ltb (u32 (t.at + 1)) max then rest else t

-- `tmp[n-1]` to `tmp[0]`: the digits of `v` in front of `tail`. A number of 32 bits has 10 at most.
unfoldable pub digits : (fuel v : ℕ) → (tail : List ℕ) → List ℕ
digits zero v tail = tail
digits (suc fuel) v tail =
    let rest = digits fuel (v / 10) ((48 + v % 10) ∷ tail) in if v == 0 then tail else rest

abbrev pub decimal : ℕ → List ℕ
decimal v = if v == 0 then 48 ∷ [] else digits 16 v []

-- The digits are copied under the guard of `append_str`.
abbrev pub append_u32 : (max v : ℕ) → Text → Text
append_u32 max v t = append_str max (decimal v) t

-- `h[d]`
abbrev pub hex_digit : ℕ → ℕ
hex_digit d = if ltb d 10 then 48 + d else 87 + d

abbrev pub append_hex2 : (max v : ℕ) → Text → Text
append_hex2 max v t =
    if leb max (u32 (t.at + 2))
    then t
    else put_char (put_char t (hex_digit (v / 16))) (hex_digit (v % 16))

abbrev pub append_ip : (max ip : ℕ) → Text → Text
append_ip max ip t =
    let t1 = append_str max dot (append_u32 max (ip / 2 ^ 24 % 256) t) in
    let t2 = append_str max dot (append_u32 max (ip / 2 ^ 16 % 256) t1) in
    let t3 = append_str max dot (append_u32 max (ip / 2 ^ 8 % 256) t2) in
    append_u32 max (ip % 256) t3

-- Byte `i` of the address, with a colon in front of all but the first.
abbrev pub append_mac_byte : (max : ℕ) → (mac : Frame) → (i : ℕ) → Text → Text
append_mac_byte max mac i t = append_hex2 max (mac i) (if i == 0 then t else append_str max colon t)

unfoldable pub append_mac_from : (max : ℕ) → (mac : Frame) → (i n : ℕ) → Text → Text
append_mac_from max mac i zero t = t
append_mac_from max mac i (suc n) t =
    append_mac_from max mac (i + 1) n (append_mac_byte max mac i t)

abbrev pub append_mac : (max : ℕ) → (mac : Frame) → Text → Text
append_mac max mac t = append_mac_from max mac 0 6 t

-- `buffer[pos < max_size ? pos : max_size - 1] = '\0'`
abbrev pub terminated : (max : ℕ) → Text → Text
terminated max t = record t {
  buffer = store8 t.buffer (if ltb t.at max then t.at else sub32 max 1) 0;
}

abbrev pub start_text : Frame → Text
start_text buffer = record { buffer = buffer; at = 0 }

-- One line of the address cache
unfoldable pub append_entry : (max now : ℕ) → ArpEntry → Text → Text
append_entry max now e t =
    let t1 = append_str max space (append_ip max e.ip t) in
    let t2 = append_str max age_label (append_mac max e.mac t1) in
    let t3 = append_str max newline (append_u32 max (sub32 now e.updated) t2) in
    if e.valid then t3 else t

unfoldable pub append_entries : (max now : ℕ) → (ℕ → ArpEntry) → (i n : ℕ) → Text → Text
append_entries max now c i zero t = t
append_entries max now c i (suc n) t =
    append_entries max now c (i + 1) n (append_entry max now (c i) t)

-- The results of the format functions are the buffer and the size, or nothing if there is no room.
unfoldable pub net_format_arp_cache : Frame → (max now : ℕ) → Net → Option Text
net_format_arp_cache buffer max now n =
    let t = append_str max arp_title (start_text buffer) in
    if max == 0
    then none
    else some (terminated max (append_entries max now n.arp_cache 0 arp_slots t))

abbrev pub net_driver_name : Driver → List ℕ
net_driver_name no_driver = none_name
net_driver_name ne2000 = ne2000_name
net_driver_name virtio = virtio_name

-- A counter and the space behind it
abbrev pub append_column : (max v : ℕ) → Text → Text
append_column max v t = append_str max space (append_u32 max v t)

unfoldable pub net_format_device_stats : Frame → (max : ℕ) → Net → Option Text
net_format_device_stats buffer max n =
    let t1 = append_str max eth0 (append_str max stats_title (start_text buffer)) in
    let t2 = append_str max space (append_str max (net_driver_name n.driver) t1) in
    let t3 = append_column max n.packets_tx (append_column max n.packets_rx t2) in
    let t4 = append_column max n.rx_errors (append_column max n.irq_count t3) in
    let t5 = append_column max n.checksum_errors (append_column max n.dropped t4) in
    let t6 = append_str max newline (append_mac max n.mac t5) in
    if max == 0 then none else some (terminated max t6)

-- The C string at `i`, of at most `n` characters.
unfoldable pub string_at : Frame → (i n : ℕ) → List ℕ
string_at f i zero = []
string_at f i (suc n) = let rest = string_at f (i + 1) n in if f i == 0 then [] else f i ∷ rest

-- The received text has a NUL in its 128 bytes.
unfoldable pub append_udp : (max : ℕ) → UdpPacket → Text → Text
append_udp max u t =
    let t1 = append_str max colon (append_ip max u.src_ip (append_str max src_label t)) in
    let t2 = append_str max dst_label (append_u32 max u.src_port t1) in
    let t3 = append_str max data_label (append_u32 max u.dst_port t2) in
    append_str max newline (append_str max (string_at u.content 0 128) t3)

unfoldable pub net_format_udp : Frame → (max : ℕ) → Net → Option Text
net_format_udp buffer max n =
    let t = start_text buffer in
    let t' = if n.last_udp.valid then append_udp max n.last_udp t else append_str max no_udp t in
    if max == 0 then none else some (terminated max t')

-- The digits of one part of an address, and what follows them; nothing above 255.
unfoldable pub parse_part : List ℕ → (part : ℕ) → Option (ℕ × List ℕ)
parse_part [] part = some (part, [])
parse_part (c ∷ cs) part =
    let part' = part * 10 + (c - 48) in
    let rest = parse_part cs part' in
    if leb 48 c && leb c 57 then if ltb 255 part' then none else rest else some (part, c ∷ cs)

-- `if (*s != '.') return 0; s++;`
abbrev pub skip_dot : List ℕ → Option (List ℕ)
skip_dot [] = none
skip_dot (c ∷ cs) = if c == 46 then some cs else none

-- A part must not start at the end of the string.
abbrev pub parse_one : List ℕ → Option (ℕ × List ℕ)
parse_one [] = none
parse_one (c ∷ cs) = parse_part (c ∷ cs) 0

abbrev pub parse_dotted : List ℕ → Option (ℕ × List ℕ)
parse_dotted s = do p ← parse_one s; rest ← skip_dot p.1; some (p.0, rest)

abbrev pub parse_parts : List ℕ → Option ℕ
parse_parts s = do
  a ← parse_dotted s
  b ← parse_dotted a.1
  c ← parse_dotted b.1
  d ← parse_one c.1
  some (a.0 * 2 ^ 24 + b.0 * 2 ^ 16 + c.0 * 2 ^ 8 + d.0)

-- 0 stands for an address that is not well formed.
unfoldable net_parse_ipv4 : List ℕ → ℕ
net_parse_ipv4 s = elim (parse_parts s) [ none ↦ 0 | some ip ↦ ip ]
