-- ===== src/Net/Bounds.antt =====
-- What the handlers of kernel/net/net.c read: the bytes of a received frame below its length, and no
-- other. Behind them stands what an earlier frame has left in the buffer.
use ao_os.Base.{
  ℕ, zero, suc, ◌+◌, ◌-◌, ◌*◌, ◌%◌, ◌≤◌, ◌<◌, ◌≡◌, refl, ap, inl, inr, true, ◌||◌, ◌&&◌, arith, ltb,
  leb, ◌==◌, if◌then◌else◌, Bool-cases, none,
}
use std.Path.{fun_ext}
use ao_os.Net.Wire.{Frame, u16, bswap16, bswap32, load16, load32, copy, add_words, checksum}
use ao_os.Net.{Net, put_entry, put_slot, or_first, arp_slots, with_entry, arp_cache_put, local_ip}
use ao_os.Net.Output.{
  arp_header, arp_reply, echo_reply, reply_size, net_send_packet, send_icmp_echo_reply,
  send_arp_reply, zeros,
}
use ao_os.Net.Input.{
  handle_arp, handle_icmp, handle_udp, handle_ipv4, handle_frame, handle_protocol, udp_kept,
}

abbrev pub SameBelow : (f g : Frame) (len : ℕ) → Type 0
SameBelow f g len = (j : ℕ) → j < len → f j ≡ g j

load16_agree : (f g : Frame) (len i : ℕ) → SameBelow f g len → i + 1 < len → load16 f i ≡ load16 g i
unfolding load16
load16_agree f g len i a h =
    let e0 = a i (omega (arith, h)) in let e1 = a (i + 1) h in omega (arith, e0, e1)

load32_agree : (f g : Frame) (len i : ℕ) → SameBelow f g len → i + 3 < len → load32 f i ≡ load32 g i
unfolding load32
load32_agree f g len i a h =
    let e0 = a i (omega (arith, h)) in
    let e1 = a (i + 1) (omega (arith, h)) in
    let e2 = a (i + 2) (omega (arith, h)) in let e3 = a (i + 3) h in omega (arith, e0, e1, e2, e3)

copy_agree :
    (d f g : Frame) (len i k n : ℕ)
    → SameBelow f g len
    → k + n ≤ len
    → copy d i f k n ≡ copy d i g k n
unfolding copy
copy_agree d f g len i k n a h = fun_ext (λ j. elim (Bool-cases (leb i j && ltb j (i + n))) [
  | inl t ↦ let e = a (k + (j - i)) (ground arith) in rw t e
  | inr f ↦ rw f refl
])

add_words_agree :
    (f g : Frame) (len i n sum : ℕ)
    → SameBelow f g len
    → i + n ≤ len
    → add_words f i n sum ≡ add_words g i n sum
unfolding add_words
add_words_agree f g len i zero sum a h = refl
add_words_agree f g len i (suc zero) sum a h = let e = a i (omega (arith, h)) in rw e refl
add_words_agree f g len i (suc (suc n)) sum a h =
    let e0 = a i (omega (arith, h)) in
    let e1 = a (i + 1) (omega (arith, h)) in
    rw (e0, e1) (add_words_agree f g len (i + 2) n _ a (omega (arith, h)))

checksum_agree :
    (f g : Frame) (len i n : ℕ) → SameBelow f g len → i + n ≤ len → checksum f i n ≡ checksum g i n
unfolding checksum
checksum_agree f g len i n a h = rw (add_words_agree f g len i n 0 a h) refl

arp_cache_put_agree :
    (f g : Frame) (len ip k now : ℕ) (n : Net)
    → SameBelow f g len
    → k + 6 ≤ len
    → arp_cache_put ip f k now n ≡ arp_cache_put ip g k now n
unfolding arp_cache_put
arp_cache_put_agree f g len ip k now n a h =
    let i = or_first (put_slot n.arp_cache ip 0 arp_slots none) in
    let old = n.arp_cache i in
    let e : put_entry ip f k now old ≡ put_entry ip g k now old =
      ap (λ m. record { ip = ip; mac = m; updated = now; valid = true })
        (copy_agree old.mac f g len 0 k 6 a h) in
    ap (λ x. with_entry i x n) e

arp_reply_agree :
    (f g : Frame) (len : ℕ) (mac : Frame)
    → SameBelow f g len
    → 42 ≤ len
    → arp_reply f mac ≡ arp_reply g mac
unfolding arp_reply
arp_reply_agree f g len mac a h = rw (copy_agree zeros f g len 0 6 6 a (omega (arith, h))) (
    rw (copy_agree (arp_header mac 2 (copy zeros 0 g 6 6)) f g len 32 22 6 a (omega (arith, h)))
      (copy_agree _ f g len 38 28 4 a (omega (arith, h))))

handle_arp_agree :
    (f g : Frame) (len now : ℕ) (n : Net)
    → SameBelow f g len
    → handle_arp f len now n ≡ handle_arp g len now n
unfolding handle_arp
handle_arp_agree f g len now n a = elim (Bool-cases (ltb len 42)) [
  | inl t ↦ rw t refl
  | inr t ↦
      let h : 42 ≤ len = ground (arith, t) in
      let n' = arp_cache_put (bswap32 (load32 g 28)) g 22 now n in
      let e0 = load16_agree f g len 20 a (omega (arith, h)) in
      let e1 = load32_agree f g len 28 a (omega (arith, h)) in
      let e2 = load32_agree f g len 38 a (omega (arith, h)) in
      let e3 = arp_cache_put_agree f g len (bswap32 (load32 g 28)) 22 now n a (omega (arith, h)) in
      let e4 : send_arp_reply f n' ≡ send_arp_reply g n' =
        ap (λ p. (net_send_packet p 42 n').1) (arp_reply_agree f g len n'.mac a h) in
      rw (t, e0, e1, e2, e3)
        (ap
          (λ m. if bswap16 (load16 g 20) == 1 && (bswap32 (load32 g 38) == local_ip) then m else n')
          e4)
]

echo_reply_agree :
    (f g : Frame) (len : ℕ) (mac : Frame)
    → SameBelow f g len
    → 42 ≤ len
    → bswap16 (load16 g 16) + 14 ≤ len
    → echo_reply f mac ≡ echo_reply g mac
unfolding echo_reply
echo_reply_agree f g len mac a h b = rw (load16_agree f g len 16 a (omega (arith, h))) (
    rw (copy_agree zeros f g len 0 0 (bswap16 (load16 g 16) + 14) a (omega (arith, b))) (
      rw
        (copy_agree (copy zeros 0 g 0 (bswap16 (load16 g 16) + 14)) f g len 0 6 6 a
          (omega (arith, h)))
        refl))

send_icmp_echo_reply_agree :
    (f g : Frame) (len : ℕ) (n : Net)
    → SameBelow f g len
    → send_icmp_echo_reply f len n ≡ send_icmp_echo_reply g len n
unfolding send_icmp_echo_reply
send_icmp_echo_reply_agree f g len n a = elim (Bool-cases (ltb len 42)) [
  | inl t ↦ rw t refl
  | inr t ↦
      let h : 42 ≤ len = ground (arith, t) in
      let ip_len = bswap16 (load16 g 16) in
      let e0 = load16_agree f g len 16 a (omega (arith, h)) in
      elim (Bool-cases (ltb len (ip_len + 14) || ltb reply_size (ip_len + 14))) [
        | inl u ↦ rw (t, e0, u) refl
        | inr u ↦
            let b : ip_len + 14 ≤ len = ground (arith, u) in
            let e1 = echo_reply_agree f g len n.mac a h b in
            rw (t, e0, u) (ap (λ r. (net_send_packet r (u16 (ip_len + 14)) n).1) e1)
      ]
]

handle_icmp_agree :
    (f g : Frame) (len ihl icmp_len src : ℕ) (n : Net)
    → SameBelow f g len
    → 14 + ihl + icmp_len ≤ len
    → handle_icmp f len ihl icmp_len src n ≡ handle_icmp g len ihl icmp_len src n
unfolding handle_icmp
handle_icmp_agree f g len ihl icmp_len src n a h = elim (Bool-cases (ltb icmp_len 8)) [
  | inl t ↦ rw t refl
  | inr t ↦
      let b : 8 ≤ icmp_len = ground (arith, t) in
      let e0 = checksum_agree f g len (14 + ihl) icmp_len a h in
      let e1 = a (14 + ihl) (omega (arith, h, b)) in
      let e2 = load16_agree f g len (14 + ihl + 6) a (omega (arith, h, b)) in
      let e3 = send_icmp_echo_reply_agree f g len n a in rw (t, e0, e1, e2, e3) refl
]

handle_udp_agree :
    (f g : Frame) (len ihl udp_len src : ℕ) (n : Net)
    → SameBelow f g len
    → 14 + ihl + udp_len ≤ len
    → handle_udp f ihl udp_len src n ≡ handle_udp g ihl udp_len src n
unfolding handle_udp
handle_udp_agree f g len ihl udp_len src n a h = elim (Bool-cases (ltb udp_len 8)) [
  | inl t ↦ rw t refl
  | inr t ↦
      let b : 8 ≤ udp_len = ground (arith, t) in
      let kept : udp_kept udp_len ≤ udp_len - 8 = ground arith in
      let e0 = load16_agree f g len (14 + ihl) a (omega (arith, h, b)) in
      let e1 = load16_agree f g len (14 + ihl + 2) a (omega (arith, h, b)) in
      let e2 =
        copy_agree n.last_udp.content f g len 0 (14 + ihl + 8) (udp_kept udp_len) a
          (omega (arith, h, b, kept)) in
      rw (t, e0, e1, e2) refl
]

handle_protocol_agree :
    (f g : Frame) (len ihl total src : ℕ) (n : Net)
    → SameBelow f g len
    → 34 ≤ len
    → ihl ≤ total
    → 14 + total ≤ len
    → handle_protocol f len ihl total src n ≡ handle_protocol g len ihl total src n
handle_protocol_agree f g len ihl total src n a h h' h'' =
    let fits : 14 + ihl + (total - ihl) ≤ len = omega (arith, h', h'') in
    let e0 = a 23 (omega (arith, h)) in
    let e1 = handle_icmp_agree f g len ihl (total - ihl) src n a fits in
    let e2 = handle_udp_agree f g len ihl (total - ihl) src n a fits in rw (e0, e1, e2) refl

handle_ipv4_agree :
    (f g : Frame) (len now : ℕ) (n : Net)
    → SameBelow f g len
    → handle_ipv4 f len now n ≡ handle_ipv4 g len now n
unfolding handle_ipv4
handle_ipv4_agree f g len now n a = elim (Bool-cases (ltb len 34)) [
  | inl t ↦ rw t refl
  | inr t ↦
      let h : 34 ≤ len = ground (arith, t) in
      let ihl = g 14 % 16 * 4 in
      let total = bswap16 (load16 g 16) in
      let src = bswap32 (load32 g 26) in
      let n' = arp_cache_put src g 6 now n in
      let e0 = a 14 (omega (arith, h)) in
      let e1 = load16_agree f g len 16 a (omega (arith, h)) in
      let e2 = load32_agree f g len 26 a (omega (arith, h)) in
      let e3 = load32_agree f g len 30 a (omega (arith, h)) in
      let e4 = arp_cache_put_agree f g len src 6 now n a (omega (arith, h)) in
      elim (Bool-cases (ltb ihl 20 || ltb len (14 + ihl))) [
        | inl u ↦ rw (t, e0, e1, e2, e3, u) refl
        | inr u ↦ elim (Bool-cases (ltb total ihl)) [
          | inl v ↦ rw (t, e0, e1, e2, e3, u, v) refl
          | inr v ↦ elim (Bool-cases (ltb len (14 + total))) [
            | inl w ↦ rw (t, e0, e1, e2, e3, u, v, w) refl
            | inr w ↦
                let b : 14 + ihl ≤ len = ground (arith, u) in
                let c : ihl ≤ total = ground (arith, v) in
                let d : 14 + total ≤ len = ground (arith, w) in
                let e5 = checksum_agree f g len 14 ihl a b in
                let e6 = handle_protocol_agree f g len ihl total src n' a h c d in
                rw (t, e0, e1, e2, e3, u, v, w, e5, e4, e6) refl
          ]
        ]
      ]
]

-- What the stack does with a received frame of at least 14 bytes depends on the bytes below its
-- length only: for two frames that agree there the new states are equal, the packets sent
-- included.
pub handle_frame_agree :
    (f g : Frame) (len now : ℕ) (n : Net)
    → 14 ≤ len
    → SameBelow f g len
    → handle_frame f len now n ≡ handle_frame g len now n
handle_frame_agree f g len now n h a =
    let e0 = load16_agree f g len 12 a (omega (arith, h)) in
    let e1 = handle_arp_agree f g len now n a in
    let e2 = handle_ipv4_agree f g len now n a in rw (e0, e1, e2) refl
