-- ===== src/EventLoop/Fifo.antt =====
-- The ring is a bounded queue, with one place more for the timer's message.
use native.Mathlib.Nat.{mod-eq_of_lt, mod-eq-sub-mod, mod-add-mod, mod-mod, mod-lt}
use telephony_call_manager_m.Prelude.{
  ℕ, zero, suc, ◌+◌, ◌-◌, ◌%◌, ◌≤◌, ◌<◌, ◌≡◌, ◌≢◌, ◌⊎◌, inl, inr, refl, ap, sym, ◌∙◌, true, false,
  List, [], ◌∷◌, ◌++◌, arith, leb, Bool-cases, leb→le, length, get_or, set, length-set, Option,
  none, some, map, length-map, length-replicate,
}
use telephony_call_manager_m.Prelude.Eq.{◌==◌, nat_eq}
use telephony_call_manager_m.Types.{Code}
use telephony_call_manager_m.EventLoop.Queue.{Ring, Message, limit_of, enqueue, pop, new_ring}

plus_zero : (i : ℕ) → i + 0 ≡ i
plus_zero i = omega arith

plus_suc : (i j : ℕ) → i + suc j ≡ i + 1 + j
plus_suc i j = omega arith

module _ {ℓ} {B : Type ℓ} where
  -- The `n` slots from position `i` on, around the end.
  unfoldable pub window : List (Option B) → ℕ → ℕ → List (Option B)
  window xs i zero = []
  window xs i (suc n) = get_or xs (i % length xs) none ∷ window xs (i + 1) n

  window_last :
      (xs : List (Option B)) (i n : ℕ)
      → window xs i (suc n) ≡ window xs i n ++ (get_or xs ((i + n) % length xs) none ∷ [])
  unfolding window
  window_last xs i zero = let e : i + 0 ≡ i = omega arith in rw e refl
  window_last xs i (suc n) =
      let e : i + suc n ≡ i + 1 + n = omega arith in
      rw e (ap (λ l. get_or xs (i % length xs) none ∷ l) (window_last xs (i + 1) n))

  window_mod : (xs : List (Option B)) (i n : ℕ) → window xs (i % length xs) n ≡ window xs i n
  unfolding window
  window_mod xs i zero = refl
  window_mod xs i (suc n) = rw (mod-mod i (length xs)) (
      ap (λ l. get_or xs (i % length xs) none ∷ l)
        (sym (window_mod xs (i % length xs + 1) n)
          ∙ ap (λ k. window xs k n) (mod-add-mod i (length xs) 1)
          ∙ window_mod xs (i + 1) n))

  get_or-set_self :
      (xs : List (Option B)) (p : ℕ) (v : Option B) → p < length xs → get_or (set xs p v) p none ≡ v
  get_or-set_self [] p v lt = absurd (omega (arith, lt))
  get_or-set_self (x ∷ xs) zero v lt = refl
  get_or-set_self (x ∷ xs) (suc p) v lt = get_or-set_self xs p v (omega (arith, lt))

  get_or-set_ne :
      (xs : List (Option B)) (p q : ℕ) (v : Option B)
      → q ≢ p
      → get_or (set xs p v) q none ≡ get_or xs q none
  get_or-set_ne [] p q v ne = refl
  get_or-set_ne (x ∷ xs) zero zero v ne = absurd (ne refl)
  get_or-set_ne (x ∷ xs) zero (suc q) v ne = refl
  get_or-set_ne (x ∷ xs) (suc p) zero v ne = refl
  get_or-set_ne (x ∷ xs) (suc p) (suc q) v ne = get_or-set_ne xs p q v (λ e. ne (ap suc e))

  -- A write outside the window does not show in it.
  window-set :
      (xs : List (Option B)) (i n p : ℕ) (v : Option B)
      → ((j : ℕ) → j < n → (i + j) % length xs ≢ p)
      → window (set xs p v) i n ≡ window xs i n
  unfolding window
  window-set xs i zero p v out = refl
  window-set xs i (suc n) p v out =
      let first : i % length xs ≢ p = λ e. out 0 (omega arith) (rw (plus_zero i) e) in
      let rest =
        window-set xs (i + 1) n p v
          (λ j lt e. out (suc j) (omega (arith, lt)) (rw (plus_suc i j) e)) in
      rw (length-set xs p v, get_or-set_ne xs p (i % length xs) v first, rest) refl

turn_cases :
    (len x : ℕ) → x < len + len → ((x < len) × (x % len ≡ x)) ⊎ ((len ≤ x) × (x % len ≡ x - len))
turn_cases len x lt = elim (Bool-cases (leb len x)) [
  | inl e ↦
      let le = leb→le len x e in inr (le, mod-eq-sub-mod le ∙ mod-eq_of_lt (omega (arith, lt, le)))
  | inr e ↦ let less : x < len = ground (arith, e) in inl (less, mod-eq_of_lt less)
]

-- Two positions of one turn are different.
turn_ne : (len h j k : ℕ) → h < len → j < k → k < len → (h + j) % len ≢ (h + k) % len
turn_ne len h j k hl jk kl e = elim (turn_cases len (h + j) (omega (arith, hl, jk, kl))) [
  | inl (a, ja) ↦ elim (turn_cases len (h + k) (omega (arith, hl, kl))) [
    | inl (b, kb) ↦ omega (arith, a, b, ja, kb, e, jk, kl, hl)
    | inr (b, kb) ↦ omega (arith, a, b, ja, kb, e, jk, kl, hl)
  ]
  | inr (a, ja) ↦ elim (turn_cases len (h + k) (omega (arith, hl, kl))) [
    | inl (b, kb) ↦ omega (arith, a, b, ja, kb, e, jk, kl, hl)
    | inr (b, kb) ↦ omega (arith, a, b, ja, kb, e, jk, kl, hl)
  ]
]

module _ {ℓ} {A : Type ℓ} where
  -- The ring holds the queue: its occupied slots, from the head on, are the queue's messages.
  pub record IsQueue (r : Ring (Message A)) (q : List (Message A)) : Type ℓ where
    pub sized : length r.slots ≡ suc r.queue_size
    pub headed : r.head < length r.slots
    pub counted : r.count ≤ length r.slots
    pub held : window r.slots r.head r.count ≡ map some q

  -- A new ring holds the empty queue.
  pub new_ring-IsQueue : (n : ℕ) → IsQueue (new_ring n) []
  unfolding new_ring window
  new_ring-IsQueue n = record {
    sized = length-replicate (suc n) none;
    headed = omega arith;
    counted = omega arith;
    held = refl;
  }

  length-window : (xs : List (Option (Message A))) (i n : ℕ) → length (window xs i n) ≡ n
  unfolding window
  length-window xs i zero = refl
  length-window xs i (suc n) = ap suc (length-window xs (i + 1) n)

  IsQueue-count : (r : Ring (Message A)) (q : List (Message A)) → IsQueue r q → r.count ≡ length q
  IsQueue-count r q v =
      sym (length-window r.slots r.head r.count) ∙ ap length v.held ∙ length-map q some

  map-append :
      (q s : List (Message A))
      → map (λ m. some m) (q ++ s) ≡ map (λ m. some m) q ++ map (λ m. some m) s
  map-append [] s = refl
  map-append (m ∷ q) s = ap (λ l. some m ∷ l) (map-append q s)

  limit-le :
      (m : Message A) (r : Ring (Message A))
      → length r.slots ≡ suc r.queue_size
      → limit_of m r ≤ length r.slots
  limit-le (Message.async_task a) r e = omega (arith, e)
  limit-le (Message.sync_call w a) r e = omega (arith, e)
  limit-le Message.timer_fire r e = omega arith

  pushed-IsQueue :
      (m : Message A) (r : Ring (Message A)) (q : List (Message A))
      → IsQueue r q
      → r.count < length r.slots
      → IsQueue
          (record r {
            slots = set r.slots ((r.head + r.count) % length r.slots) (some m);
            count = suc r.count;
          })
          (q ++ (m ∷ []))
  pushed-IsQueue m r q v room = record {
    sized = rw (length-set r.slots at_end (some m)) v.sized;
    headed = rw (length-set r.slots at_end (some m)) v.headed;
    counted = rw (length-set r.slots at_end (some m)) room;
    held =
        rw
          (
            window_last (set r.slots at_end (some m)) r.head r.count,
            length-set r.slots at_end (some m),
            get_or-set_self r.slots at_end (some m)
                (mod-lt (r.head + r.count) (omega (arith, room))),
            window-set r.slots r.head r.count at_end (some m)
                (λ j lt. turn_ne (length r.slots) r.head j r.count v.headed lt room),
            v.held,
            map-append q (m ∷ []),
          )
          refl;
  }
    where
      at_end : ℕ
      at_end = (r.head + r.count) % length r.slots

  -- On a running loop a message is refused exactly when the queue has reached the limit for its kind,
  -- and otherwise it goes to the end of the queue.
  pub enqueue-IsQueue :
      (m : Message A) (r : Ring (Message A)) (q : List (Message A))
      → IsQueue r q
      → ((limit_of m r ≤ length q) × (enqueue true m r ≡ (r, Code.ipc_connect_stub_fail)))
        ⊎ ((length q < limit_of m r)
            × ((enqueue true m r).1 ≡ Code.success)
            × IsQueue (enqueue true m r).0 (q ++ (m ∷ [])))
  unfolding enqueue
  enqueue-IsQueue m r q v = elim (Bool-cases (leb (limit_of m r) r.count)) [
    | inl e ↦ rw e (inl (rw (sym (IsQueue-count r q v)) (leb→le _ _ e), refl))
    | inr e ↦
        let less : r.count < limit_of m r = ground (arith, e) in
        rw e (
          inr (
            rw (sym (IsQueue-count r q v)) less,
            refl,
            pushed-IsQueue m r q v (omega (arith, less, limit-le m r v.sized)),
          ))
  ]

  first_of : List (Option (Message A)) → Option (Message A)
  first_of [] = none
  first_of (x ∷ xs) = x

  rest_of : List (Option (Message A)) → List (Option (Message A))
  rest_of [] = []
  rest_of (x ∷ xs) = xs

  popped :
      (m : Message A) (r : Ring (Message A)) (q : List (Message A))
      → IsQueue r (m ∷ q)
      → window r.slots r.head (suc (length q)) ≡ some m ∷ map (λ x. some x) q
  popped m r q v = ap (window r.slots r.head) (sym (IsQueue-count r (m ∷ q) v)) ∙ v.held

  popped-first :
      (m : Message A) (r : Ring (Message A)) (q : List (Message A))
      → IsQueue r (m ∷ q)
      → get_or r.slots r.head none ≡ some m
  unfolding window first_of
  popped-first m r q v =
      ap (λ i. get_or r.slots i none) (sym (mod-eq_of_lt v.headed)) ∙ ap first_of (popped m r q v)

  popped-IsQueue :
      (m : Message A) (r : Ring (Message A)) (q : List (Message A))
      → IsQueue r (m ∷ q)
      → IsQueue
          (record r {
            slots = set r.slots r.head none;
            head = (r.head + 1) % length r.slots;
            count = r.count - 1;
          })
          q
  unfolding window rest_of
  popped-IsQueue m r q v = record {
    sized = rw (length-set r.slots r.head none) v.sized;
    headed = rw (length-set r.slots r.head none) (mod-lt (r.head + 1) (omega (arith, v.headed)));
    counted = rw (length-set r.slots r.head none) (omega (arith, v.counted));
    held =
        rw
          (
            fewer,
            window-set r.slots ((r.head + 1) % length r.slots) (length q) r.head none away,
            window_mod r.slots (r.head + 1) (length q),
          )
          (ap rest_of (popped m r q v));
  }
    where
      count_of : r.count ≡ suc (length q)
      count_of = IsQueue-count r (m ∷ q) v

      fewer : r.count - 1 ≡ length q
      fewer = omega (arith, count_of)

      away : (j : ℕ) → j < length q → ((r.head + 1) % length r.slots + j) % length r.slots ≢ r.head
      away j lt e =
          turn_ne (length r.slots) r.head 0 (suc j) v.headed (omega arith)
            (omega (arith, lt, count_of, v.counted))
            (rw (plus_zero r.head, plus_suc r.head j)
              (mod-eq_of_lt v.headed ∙ sym e ∙ mod-add-mod (r.head + 1) (length r.slots) j))

  -- What taking a message does to a ring that holds the queue.
  abbrev pub Popped :
      Ring (Message A) → List (Message A) → Ring (Message A) × Option (Message A) → Type ℓ
  Popped r [] (r', o) = (r' ≡ r) × (o ≡ none)
  Popped r (m ∷ q) (r', o) = (o ≡ some m) × IsQueue r' q

  -- `PopLocked` gives nothing and changes nothing when the queue is empty, and otherwise takes its
  -- first message and leaves the others.
  pub pop-IsQueue : (r : Ring (Message A)) (q : List (Message A)) → IsQueue r q → Popped r q (pop r)
  unfolding pop
  pop-IsQueue r [] v = let e = IsQueue-count r [] v in rw e (refl, refl)
  pop-IsQueue r (m ∷ q) v =
      let e = IsQueue-count r (m ∷ q) v in
      let some_left : (r.count == 0) ≡ false = ground (arith, e) in
      rw some_left (popped-first m r q v, popped-IsQueue m r q v)
