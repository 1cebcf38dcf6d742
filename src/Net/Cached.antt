-- ===== src/Net/Cached.antt =====
-- The invariant of the address cache of kernel/net/net.c through everything that can be received.
use ao_os.Base.{
  ℕ, zero, suc, ◌+◌, ◌-◌, ◌*◌, ◌%◌, ◌≡◌, refl, sym, subst, Bool, true, false, ◌||◌, not, List, [],
  ◌∷◌, ltb, ◌==◌, if◌then◌else◌, bit_and, count_below_none, u32,
}
use ao_os.Base.Int.{ℤ, pos, negsuc}
use ao_os.Net.Wire.{Frame, u16, bswap16, bswap32, load16, load32, checksum}
use ao_os.Net.{Net, Driver, ne2000, virtio, arp_slots, uses_ne2000, arp_cache_put, local_ip}
use ao_os.Net.Client.{
  PciDevice, is_ne2000, is_virtio_net, ne2k_init, attached, cleared, init_from, net_init,
}
use ao_os.Net.Arp.{Cached, IsCached, arp_cache_put-IsCached}
use ao_os.Net.Output.{
  can_send, arp_reply, echo_reply, net_send_packet, send_icmp_echo_reply, with_sent, padded, zeros,
}
use ao_os.Net.Input.{
  Ring, net_receive_packet, handle_arp, handle_icmp, handle_udp, handle_ipv4, handle_frame,
  handle_echo_reply, handle_protocol, poll_from, net_poll, net_irq_handler, packet_page, drop,
  bad_checksum, udp_packet, accept_packet, no_packet, bad_header, Received,
}

if_keeps {ℓ κ} :
    {A : Type ℓ} (P : A → Type κ) (b : Bool) (x y : A) → P x → P y → P (if b then x else y)
if_keeps P true x y px py = px
if_keeps P false x y px py = py

-- The other fields do not matter.
same :
    {n m : Net}
    → IsCached n
    → m.arp_cache ≡ n.arp_cache
    → m.arp_entries ≡ n.arp_entries
    → IsCached m
same {n} {m} h c e = record {
  cache =
      subst (λ x. Cached x m.arp_entries) (sym c)
        (subst (λ x. Cached n.arp_cache x) (sym e) h.cache);
}

if-IsCached : (b : Bool) (n m : Net) → IsCached n → IsCached m → IsCached (if b then n else m)
if-IsCached = if_keeps IsCached

net_send_packet-IsCached :
    (f : Frame) (len : ℕ) (n : Net) → IsCached n → IsCached (net_send_packet f len n).1
unfolding net_send_packet
net_send_packet-IsCached f len n h =
    if_keeps (λ (r : ℤ × Net). IsCached r.1) (can_send len n) (pos 0, with_sent (padded f len) n)
      (negsuc 0, n) (same h refl refl) h

send_icmp_echo_reply-IsCached :
    (f : Frame) (len : ℕ) (n : Net) → IsCached n → IsCached (send_icmp_echo_reply f len n)
unfolding send_icmp_echo_reply
send_icmp_echo_reply-IsCached f len n h =
    let sent =
      net_send_packet-IsCached (echo_reply f n.mac) (u16 (bswap16 (load16 f 16) + 14)) n h in
    if-IsCached _ _ _ h (if-IsCached _ _ _ h sent)

handle_icmp-IsCached :
    (f : Frame) (len ihl icmp_len src : ℕ) (n : Net)
    → IsCached n
    → IsCached (handle_icmp f len ihl icmp_len src n)
unfolding handle_icmp
handle_icmp-IsCached f len ihl icmp_len src n h =
    let replied = send_icmp_echo_reply-IsCached f len n h in
    let seen : IsCached (handle_echo_reply f (14 + ihl + 6) src n) =
      if-IsCached _ (record n { last_ping_ok = true }) n (same h refl refl) h in
    if-IsCached _ (drop n) _ (same h refl refl) (
      if-IsCached _ (bad_checksum n) _ (same h refl refl)
        (if-IsCached _ _ _ replied (if-IsCached _ _ _ seen h)))

handle_udp-IsCached :
    (f : Frame) (ihl udp_len src : ℕ) (n : Net)
    → IsCached n
    → IsCached (handle_udp f ihl udp_len src n)
unfolding handle_udp
handle_udp-IsCached f ihl udp_len src n h =
    if-IsCached (ltb udp_len 8) (drop n)
      (record n { last_udp = udp_packet f (14 + ihl) udp_len src n.last_udp }) (same h refl refl)
      (same h refl refl)

handle_ipv4-IsCached :
    (f : Frame) (len now : ℕ) (n : Net) → IsCached n → IsCached (handle_ipv4 f len now n)
unfolding handle_ipv4
handle_ipv4-IsCached f len now n h =
    let ihl = f 14 % 16 * 4 in
    let total = bswap16 (load16 f 16) in
    let rest = total - ihl in
    let src = bswap32 (load32 f 26) in
    let dst = bswap32 (load32 f 30) in
    let n' = arp_cache_put src f 6 now n in
    let h' = arp_cache_put-IsCached src f 6 now n h in
    let handled : IsCached (handle_protocol f len ihl total src n') =
      if-IsCached _ _ _ (handle_icmp-IsCached f len ihl rest src n' h')
        (if-IsCached _ _ _ (handle_udp-IsCached f ihl rest src n' h') h') in
    let unchecked = if-IsCached (dst == local_ip) _ _ handled h in
    let counted =
      if-IsCached (not (checksum f 14 ihl == 0)) (bad_checksum n) _ (same h refl refl) unchecked in
    let long = if-IsCached (ltb len (14 + total)) (drop n) _ (same h refl refl) counted in
    let whole = if-IsCached (ltb total ihl) (drop n) _ (same h refl refl) long in
    if-IsCached (ltb len 34) n _ h (if-IsCached (ltb ihl 20 || ltb len (14 + ihl)) n _ h whole)

handle_arp-IsCached :
    (f : Frame) (len now : ℕ) (n : Net) → IsCached n → IsCached (handle_arp f len now n)
unfolding handle_arp
handle_arp-IsCached f len now n h =
    let n' = arp_cache_put (bswap32 (load32 f 28)) f 22 now n in
    let h' = arp_cache_put-IsCached (bswap32 (load32 f 28)) f 22 now n h in
    if-IsCached _ _ _ h
      (if-IsCached _ _ _ (net_send_packet-IsCached (arp_reply f n'.mac) 42 n' h') h')

handle_frame-IsCached :
    (f : Frame) (len now : ℕ) (n : Net) → IsCached n → IsCached (handle_frame f len now n)
handle_frame-IsCached f len now n h =
    if-IsCached _ _ _ (handle_arp-IsCached f len now n h)
      (if-IsCached _ _ _ (handle_ipv4-IsCached f len now n h) (same {m = drop n} h refl refl))

net_receive_packet-IsCached :
    (r : Ring) (f : Frame) (len : ℕ) (n : Net)
    → IsCached n
    → IsCached (net_receive_packet r f len n).net
unfolding net_receive_packet
net_receive_packet-IsCached r f len n h =
    let keeps = if_keeps (λ (x : Received). IsCached x.net) in
    let page = packet_page n in
    let next_page = r.memory (page * 256 + 1) in
    let count = r.memory (page * 256 + 2) + 256 * r.memory (page * 256 + 3) in
    let accepted = accept_packet r f page next_page count n in
    let rejected = no_packet (negsuc 0) f 0 (bad_header r n) in
    keeps _ (no_packet (negsuc 0) f len n) _ h (
      keeps _ (no_packet (pos 0) f 0 n) _ h
        (keeps _ accepted rejected (same h refl refl) (same h refl refl)))

poll_from-IsCached :
    (rings : ℕ → Ring) (now i k : ℕ) (f : Frame) (len : ℕ) (n : Net)
    → IsCached n
    → IsCached (poll_from rings now i k f len n).1
unfolding poll_from
poll_from-IsCached rings now i zero f len n h = h
poll_from-IsCached rings now i (suc k) f len n h =
    let r = net_receive_packet (rings i) f len n in
    let hr = net_receive_packet-IsCached (rings i) f len n h in
    let rest =
      poll_from-IsCached rings now (i + 1) k r.frame r.len (handle_frame r.frame r.len now r.net)
        (handle_frame-IsCached r.frame r.len now r.net hr) in
    if_keeps (λ (x : ℕ × Net). IsCached x.1) _ _ _ hr rest

net_poll-IsCached :
    (rings : ℕ → Ring) (now : ℕ) (n : Net) → IsCached n → IsCached (net_poll rings now n).1
unfolding net_poll
net_poll-IsCached rings now n h = poll_from-IsCached rings now 0 8 zeros 0 n h

net_irq_handler-IsCached :
    (irq isr : ℕ) (rings : ℕ → Ring) (now : ℕ) (n : Net)
    → IsCached n
    → IsCached (net_irq_handler irq isr rings now n)
unfolding net_irq_handler
net_irq_handler-IsCached irq isr rings now n h =
    let n1 = record n { irq_count = u32 (n.irq_count + 1) } in
    let n2 = if bit_and isr 0x15 == 0 then n1 else (net_poll rings now n1).1 in
    let h1 : IsCached n1 = same h refl refl in
    let polled : IsCached n2 =
      if-IsCached (bit_and isr 0x15 == 0) n1 _ h1 (net_poll-IsCached rings now n1 h1) in
    let n3 = record n2 { rx_errors = u32 (n2.rx_errors + 1) } in
    let counted = if-IsCached (bit_and isr 0x10 == 0) n2 n3 polled (same polled refl refl) in
    if-IsCached (not (uses_ne2000 n.driver) || not (irq == n.irq) || n.io_base == 0) n _ h
      (if-IsCached (isr == 0) n _ h counted)

attached-IsCached :
    (d : Driver) (device : PciDevice) (n : Net) → IsCached n → IsCached (attached d device n)
attached-IsCached d device n h = same h refl refl

init_from-IsCached :
    (devices : List PciDevice) (n : Net) → IsCached n → IsCached (init_from devices n)
unfolding init_from
init_from-IsCached [] n h = h
init_from-IsCached (device ∷ rest) n h =
    let vendor = device.vendor_id in
    let id = device.device_id in
    let n' = record n { irq = device.interrupt_line } in
    let later = init_from-IsCached rest n h in
    let later_irq = init_from-IsCached rest n' (same h refl refl) in
    let on_virtio =
      if-IsCached (is_virtio_net vendor id) (attached virtio device n) _
        (attached-IsCached virtio device n h) later_irq in
    let on_card =
      if-IsCached (is_ne2000 vendor id) (ne2k_init (attached ne2000 device n)) _
        (same (attached-IsCached ne2000 device n h) refl refl) on_virtio in
    if-IsCached (not (device.class_code == 2) || not (device.subclass == 0)) _ _ later on_card

net_init-IsCached : (devices : List PciDevice) (n : Net) → IsCached (net_init devices n)
unfolding net_init
net_init-IsCached devices n = init_from-IsCached devices (cleared n) (record {
  cache = record {
    single = λ ip i j bi bj hi hj. absurd (cc hi);
    counted = sym (count_below_none (λ i. false) arp_slots (λ j b. refl));
  };
})

-- What can happen to the stack: an interrupt, or a call of `net_poll`.
pub data Event : Type 0 where
  interrupt : (irq isr : ℕ) → (ℕ → Ring) → (now : ℕ) → Event
  polled : (ℕ → Ring) → (now : ℕ) → Event

abbrev pub step : Event → Net → Net
step (interrupt irq isr rings now) n = net_irq_handler irq isr rings now n
step (polled rings now) n = (net_poll rings now n).1

unfoldable pub after : List Event → Net → Net
after [] n = n
after (e ∷ es) n = after es (step e n)

step-IsCached : (e : Event) (n : Net) → IsCached n → IsCached (step e n)
step-IsCached (interrupt irq isr rings now) n h = net_irq_handler-IsCached irq isr rings now n h
step-IsCached (polled rings now) n h = net_poll-IsCached rings now n h

after-IsCached : (es : List Event) (n : Net) → IsCached n → IsCached (after es n)
unfolding after
after-IsCached [] n h = h
after-IsCached (e ∷ es) n h = after-IsCached es (step e n) (step-IsCached e n h)

-- From net_init on, through any sequence of interrupts and calls of net_poll with any frames, no
-- address stands in two valid slots of the address cache, and arp_entries is the number of its
-- valid slots.
pub frames-IsCached :
    (devices : List PciDevice) (es : List Event) (n : Net)
    → IsCached (after es (net_init devices n))
frames-IsCached devices es n = after-IsCached es (net_init devices n) (net_init-IsCached devices n)
