-- ===== src/Keyboard/Queue.antt =====
-- The ring buffer is a bounded queue, kernel/drivers/input/keyboard.c.
use ao_os.Base.{
  ℕ, zero, suc, ◌+◌, ◌-◌, ◌%◌, ◌<◌, ◌≡◌, refl, ◌∙◌, ap, ◌≢◌, inl, inr, true, false, List, [], ◌∷◌,
  ◌++◌, arith, ltb, ◌==◌, if◌then◌else◌, update, length, Bool-cases, update_self,
}
use ao_os.Keyboard.{
  Keyboard, kb_buffer_size, put, keyboard_irq_handler, keyboard_getchar, keyboard_init,
  translate_scancode, Modifiers,
}

-- `n` characters of the ring from `start` on.
window : (buffer : ℕ → ℕ) (start n : ℕ) → List ℕ
window b start zero = []
window b start (suc n) = b (start % kb_buffer_size) ∷ window b (start + 1) n

window_wraps :
    (b : ℕ → ℕ) (s t n : ℕ) → s % kb_buffer_size ≡ t % kb_buffer_size → window b s n ≡ window b t n
unfolding window
window_wraps b s t zero e = refl
window_wraps b s t (suc n) e =
    let ih = window_wraps b (s + 1) (t + 1) n (omega (arith, e)) in
    ap (λ i. b i ∷ window b (s + 1) n) e ∙ ap (λ w. b (t % kb_buffer_size) ∷ w) ih

window-update :
    (b : ℕ → ℕ) (s n i v : ℕ)
    → ((k : ℕ) → k < n → i ≢ (s + k) % kb_buffer_size)
    → window (update b i v) s n ≡ window b s n
unfolding window
window-update b s zero i v out = refl
window-update b s (suc n) i v out =
    let ih =
      window-update b (s + 1) n i v (λ k l e. out (k + 1) (omega (arith, l)) (omega (arith, e))) in
    let here : (i == s % kb_buffer_size) ≡ false = ground (arith, out 0 (omega arith)) in
    rw (here, ih) refl

window_push :
    (b : ℕ → ℕ) (s n : ℕ) → window b s (suc n) ≡ window b s n ++ (b ((s + n) % kb_buffer_size) ∷ [])
unfolding window
window_push b s zero = ap (λ i. b (i % kb_buffer_size) ∷ []) (omega arith)
window_push b s (suc n) =
    ap (λ w. b (s % kb_buffer_size) ∷ w)
      (window_push b (s + 1) n
        ∙ ap (λ i. window b (s + 1) n ++ (b (i % kb_buffer_size) ∷ [])) (omega arith))

-- The characters that wait, the oldest first.
abbrev pub count : Keyboard → ℕ
count k = (k.kb_head + kb_buffer_size - k.kb_tail) % kb_buffer_size

pending : Keyboard → List ℕ
pending k = window k.kb_buffer k.kb_tail (count k)

pub record IsValid (k : Keyboard) : Type 0 where
  pub head : k.kb_head < kb_buffer_size
  pub tail : k.kb_tail < kb_buffer_size

-- A queue that holds 255 characters at most.
abbrev pub push : ℕ → List ℕ → List ℕ
push ch q = if ltb (length q) 255 then q ++ (ch ∷ []) else q

abbrev pub pop : List ℕ → ℕ × List ℕ
pop [] = (0, [])
pop (ch ∷ q) = (ch, q)

length-window : (b : ℕ → ℕ) (s n : ℕ) → length (window b s n) ≡ n
unfolding window
length-window b s zero = refl
length-window b s (suc n) = omega (arith, length-window b (s + 1) n)

same_pending : (k : Keyboard) (m : Modifiers) → pending (record k { modifiers = m }) ≡ pending k
unfolding pending
same_pending k m = refl

module _ (ch : ℕ) (k : Keyboard) (v : IsValid k) where
  put_room :
      ((k.kb_head + 1) % kb_buffer_size == k.kb_tail) ≡ false
      → let b = update k.kb_buffer k.kb_head ch in
        let next = (k.kb_head + 1) % kb_buffer_size in
        window b k.kb_tail ((next + kb_buffer_size - k.kb_tail) % kb_buffer_size)
        ≡ window k.kb_buffer k.kb_tail (count k) ++ (ch ∷ [])
  put_room room =
      let b = update k.kb_buffer k.kb_head ch in
      let next = (k.kb_head + 1) % kb_buffer_size in
      let grows : (next + kb_buffer_size - k.kb_tail) % kb_buffer_size ≡ suc (count k) =
        ground (arith, room, v.head, v.tail) in
      let last : (k.kb_tail + count k) % kb_buffer_size ≡ k.kb_head =
        omega (arith, v.head, v.tail) in
      ap (window b k.kb_tail) grows
      ∙ window_push b k.kb_tail (count k)
      ∙ ap (λ w. w ++ (b ((k.kb_tail + count k) % kb_buffer_size) ∷ []))
          (window-update k.kb_buffer k.kb_tail (count k) k.kb_head ch
            (λ m l e. absurd (omega (arith, l, e, v.head, v.tail))))
      ∙ ap (λ i. window k.kb_buffer k.kb_tail (count k) ++ (b i ∷ [])) last
      ∙ ap (λ c. window k.kb_buffer k.kb_tail (count k) ++ (c ∷ []))
          (update_self k.kb_buffer k.kb_head ch)

  is_full : ((k.kb_head + 1) % kb_buffer_size == k.kb_tail) ≡ true → count k ≡ 255
  is_full full = ground (arith, full, v.head, v.tail)

  has_room : ((k.kb_head + 1) % kb_buffer_size == k.kb_tail) ≡ false → count k < 255
  has_room room = ground (arith, room, v.head, v.tail)

  put-pending : IsValid (put ch k) × (pending (put ch k) ≡ push ch (pending k))
  unfolding pending
  put-pending =
      let l = length-window k.kb_buffer k.kb_tail (count k) in
      elim (Bool-cases ((k.kb_head + 1) % kb_buffer_size == k.kb_tail)) [
        | inl full ↦
            let e : ltb (length (window k.kb_buffer k.kb_tail (count k))) 255 ≡ false =
              ground (arith, l, is_full full) in
            rw (full, e) (v, refl)
        | inr room ↦
            let e : ltb (length (window k.kb_buffer k.kb_tail (count k))) 255 ≡ true =
              ground (arith, l, has_room room) in
            rw (room, e) (record { head = omega arith; tail = v.tail }, put_room room)
      ]

-- The reader takes the oldest character.
getchar-pop :
    (k : Keyboard)
    → IsValid k
    → IsValid (keyboard_getchar k).1
      × ((keyboard_getchar k).0 ≡ (pop (pending k)).0)
      × (pending (keyboard_getchar k).1 ≡ (pop (pending k)).1)
unfolding pending keyboard_getchar window
getchar-pop k v = elim (Bool-cases (k.kb_tail == k.kb_head)) [
  | inl none_left ↦
      let z : count k ≡ 0 = ground (arith, none_left, v.head, v.tail) in
      rw (none_left, z) (v, refl, refl)
  | inr some_left ↦
      let after =
        (k.kb_head + kb_buffer_size - (k.kb_tail + 1) % kb_buffer_size) % kb_buffer_size in
      let e : count k ≡ suc after = ground (arith, some_left, v.head, v.tail) in
      rw (some_left, e)
        (
          record { head = v.head; tail = omega arith },
          ap k.kb_buffer (omega (arith, v.tail)),
          window_wraps k.kb_buffer _ _ after (omega arith),
        )
]

-- What the interrupt does to the queue: at most one character is put into it.
abbrev pub decoded : ℕ → Keyboard → ℕ
decoded code k = (translate_scancode code k.modifiers).0

irq-push :
    (code : ℕ) (k : Keyboard)
    → IsValid k
    → IsValid (keyboard_irq_handler code k)
      × (pending (keyboard_irq_handler code k)
          ≡ (if decoded code k == 0 then pending k else push (decoded code k) (pending k)))
unfolding keyboard_irq_handler
irq-push code k v =
    let (ch, m) = translate_scancode code k.modifiers in
    let k' : Keyboard = record k { modifiers = m } in
    let v' : IsValid k' = record { head = v.head; tail = v.tail } in
    elim (Bool-cases (ch == 0)) [
      | inl z ↦ rw z (v', same_pending k m)
      | inr n ↦
          rw n
            ((put-pending ch k' v').0, (put-pending ch k' v').1 ∙ ap (push ch) (same_pending k m))
    ]

-- The interrupt and the readers in any order.
pub data Event : Type 0 where
  key : (code : ℕ) → Event
  read : Event

-- The characters that the readers get, and the keyboard after it all.
unfoldable pub run : List Event → Keyboard → List ℕ × Keyboard
run [] k = ([], k)
run (key code ∷ es) k = run es (keyboard_irq_handler code k)
run (read ∷ es) k =
    let (ch, k') = keyboard_getchar k in let (chars, k'') = run es k' in (ch ∷ chars, k'')

-- The same on a queue, where the state of the modifiers is all else there is.
unfoldable pub run_queue : List Event → Modifiers → List ℕ → List ℕ
run_queue [] m q = []
run_queue (key code ∷ es) m q =
    let (ch, m') = translate_scancode code m in run_queue es m' (if ch == 0 then q else push ch q)
run_queue (read ∷ es) m q = (pop q).0 ∷ run_queue es m (pop q).1

irq_modifiers :
    (code : ℕ) (k : Keyboard)
    → (keyboard_irq_handler code k).modifiers ≡ (translate_scancode code k.modifiers).1
unfolding keyboard_irq_handler
irq_modifiers code k =
    let (ch, m) = translate_scancode code k.modifiers in
    elim (Bool-cases (ch == 0)) [
      | inl z ↦ rw z refl
      | inr n ↦ rw n (elim (Bool-cases ((k.kb_head + 1) % kb_buffer_size == k.kb_tail)) [
        | inl full ↦ rw full refl
        | inr room ↦ rw room refl
      ])
    ]

getchar_modifiers : (k : Keyboard) → (keyboard_getchar k).1.modifiers ≡ k.modifiers
unfolding keyboard_getchar
getchar_modifiers k = elim (Bool-cases (k.kb_tail == k.kb_head)) [
  | inl t ↦ rw t refl
  | inr f ↦ rw f refl
]

run_from :
    (es : List Event) (k : Keyboard) (q : List ℕ) (m : Modifiers)
    → IsValid k
    → pending k ≡ q
    → k.modifiers ≡ m
    → (run es k).0 ≡ run_queue es m q
unfolding run run_queue
run_from [] k q m v e f = refl
run_from (key code ∷ es) k q m v e f =
    let (v', pushed) = irq-push code k v in
    let step : pending (keyboard_irq_handler code k)
        ≡ (if (translate_scancode code m).0 == 0 then q else push (translate_scancode code m).0 q) =
      rw (← e, ← f) pushed in
    run_from es (keyboard_irq_handler code k) _ _ v' step
      (irq_modifiers code k ∙ ap (λ a. (translate_scancode code a).1) f)
run_from (read ∷ es) k q m v e f =
    let (v', got, left) = getchar-pop k v in
    ap (λ c. c ∷ (run es (keyboard_getchar k).1).0) (got ∙ ap (λ a. (pop a).0) e)
    ∙ ap (λ cs. (pop q).0 ∷ cs)
        (run_from es (keyboard_getchar k).1 _ _ v' (left ∙ ap (λ a. (pop a).1) e)
          (getchar_modifiers k ∙ f))

empty_start : (k : Keyboard) → pending (keyboard_init k) ≡ []
unfolding pending keyboard_init window
empty_start k = refl

-- From keyboard_init on, for any sequence of key interrupts and reads, the readers get what a
-- queue of at most 255 characters gives them: the decoded characters in order, 0 when none is
-- left, and a character that finds the queue full is lost.
pub run-eq-run_queue :
    (es : List Event) (k : Keyboard) → (run es (keyboard_init k)).0 ≡ run_queue es k.modifiers []
unfolding keyboard_init
run-eq-run_queue es k =
    run_from es (keyboard_init k) [] k.modifiers (record { head = omega arith; tail = omega arith })
      (empty_start k) refl
