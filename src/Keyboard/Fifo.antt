-- ===== src/Keyboard/Fifo.antt =====
-- kernel/input/keyboard.c: the queue of a terminal as the characters it holds, oldest first.
use clks.Base.{
  ℕ, zero, suc, ◌+◌, ◌-◌, ◌%◌, ◌≤◌, ◌<◌, ◌≡◌, ◌≢◌, arith, refl, Bool, true, false, not, Option,
  none, some, ltb, leb, ◌==◌, if◌then◌else◌, Array, update, update_self, update_ne, if_elim, ap,
  ◌∙◌, sym, subst, ℕ_discrete, add64, ◌⊎◌, inl, inr, Bool-cases,
}
use clks.Keyboard.{
  input_cap, Queue, Keyboard, clamp_tty_index, pushed, popped, queue_push_for_tty, inject_from,
  inject_text_for_tty, pop_char_for_tty,
}

-- The queue holds `len` characters, of which `item i` is the one with `i` older ones.
pub record Holds (q : Queue) (len : ℕ) (item : ℕ → ℕ) : Type 0 where
  pub count : q.count ≡ len
  pub room : len ≤ input_cap
  pub tail : q.tail < input_cap
  pub head : q.head ≡ (q.tail + len) % input_cap
  pub items : (i : ℕ) → i < len → q.input ((q.tail + i) % input_cap) ≡ item i

-- The items, and behind the first `len` of them the text from `at` on
abbrev pub followed : ℕ → (ℕ → ℕ) → Array ℕ → ℕ → ℕ → ℕ
followed len item text at i = if ltb i len then item i else text (at + (i - len))

pushed-Holds :
    (ch len : ℕ) (q : Queue) (item item' : ℕ → ℕ)
    → Holds q len item
    → len < input_cap
    → ((i : ℕ) → i < len → item' i ≡ item i)
    → item' len ≡ ch
    → Holds (pushed ch q) (len + 1) item'
pushed-Holds ch len q item item' h lt same last =
    let count = h.count in
    let tail = h.tail in
    let head = h.head in
    record {
      count = omega arith;
      room = omega arith;
      tail = tail;
      head = omega arith;
      items = λ i le. elim (ℕ_discrete i len) [
        | yes e ↦
            let at : (q.tail + i) % input_cap ≡ q.head = omega arith in
            ap (update q.input q.head ch) at
            ∙ update_self q.input q.head ch
            ∙ sym last
            ∙ ap item' (sym e)
        | no ne ↦
            let less : i < len = omega arith in
            update_ne q.input q.head ((q.tail + i) % input_cap) ch (omega arith)
            ∙ h.items i less
            ∙ sym (same i less)
      ];
    }

popped-Holds :
    (len : ℕ) (q : Queue) (item : ℕ → ℕ)
    → Holds q (suc len) item
    → Holds (popped q) len (λ i. item (i + 1))
popped-Holds len q item h =
    let count = h.count in
    let room = h.room in
    let tail = h.tail in
    let head = h.head in
    record {
      count = omega arith;
      room = omega arith;
      tail = omega arith;
      head = omega arith;
      items = λ i lt. ap q.input (omega arith) ∙ h.items (i + 1) (omega arith);
    }

Holds-cong :
    (q : Queue) (len len' : ℕ) (item item' : ℕ → ℕ)
    → len ≡ len'
    → ((i : ℕ) → i < len → item i ≡ item' i)
    → Holds q len item
    → Holds q len' item'
Holds-cong q len len' item item' e same h =
    subst (λ n. Holds q n item') e
      (record {
        count = h.count;
        room = h.room;
        tail = h.tail;
        head = h.head;
        items = λ i lt. h.items i lt ∙ same i lt;
      })

room-cases : (len : ℕ) → (len < input_cap) ⊎ (input_cap ≤ len)
room-cases len = elim (Bool-cases (ltb len input_cap)) [
  | inl e ↦ inl (ground arith)
  | inr e ↦ inr (ground arith)
]

-- A push on a queue with room, and on a full one
module _ (tty_count tty_index : ℕ) where
  abbrev pub tty : ℕ
  tty = clamp_tty_index tty_count tty_index

  push_room :
      (ch : ℕ) (k : Keyboard)
      → (k.queues tty).count < input_cap
      → queue_push_for_tty tty_count tty_index ch k ≡ (
        true,
        record k {
          queues = update k.queues tty (pushed ch (k.queues tty));
          push_count = add64 k.push_count 1;
        },
      )
  unfolding queue_push_for_tty
  push_room ch k lt = ground arith

  push_full :
      (ch : ℕ) (k : Keyboard)
      → input_cap ≤ (k.queues tty).count
      → queue_push_for_tty tty_count tty_index ch k
        ≡ (false, record k { drop_count = add64 k.drop_count 1 })
  unfolding queue_push_for_tty
  push_full ch k le = ground arith

  -- Of a text of `n` characters the queue takes what it has room for, in order; the other queues are as
  -- they were.
  pub record Injected (n len at : ℕ) (item : ℕ → ℕ) (text : Array ℕ) (k : Keyboard)
      (r : Option (Bool × Keyboard)) : Type 0 where
    pub ok : Bool
    pub after : Keyboard
    pub result : r ≡ some (ok, after)
    pub all_fit : ok ≡ leb (len + n) input_cap
    pub holds :
        Holds
          (after.queues tty)
          (if leb (len + n) input_cap then len + n else input_cap)
          (followed len item text at)
    pub others : (other : ℕ) → other ≢ tty → after.queues other ≡ k.queues other

  inject_from-Injected :
      (n fuel len at : ℕ) (item : ℕ → ℕ) (text : Array ℕ) (k : Keyboard)
      → n < fuel
      → ((i : ℕ) → i < n → text (at + i) ≢ 0)
      → text (at + n) ≡ 0
      → Holds (k.queues tty) len item
      → Injected n len at item text k (inject_from fuel tty_count tty_index text at k)
  unfolding inject_from
  inject_from-Injected n zero len at item text k lt chars end h = absurd (omega arith)
  inject_from-Injected zero (suc fuel) len at item text k lt chars end h =
      let room = h.room in
      let here : text at ≡ 0 = ap text (omega arith) ∙ end in
      if_elim (Injected zero len at item text k) (text at == 0)
        (λ _. record {
          ok = true;
          after = k;
          result = refl;
          all_fit = ground arith;
          holds =
              Holds-cong (k.queues tty) len (if leb (len + 0) input_cap then len + 0 else input_cap)
                item (followed len item text at) (ground arith) (λ i less. ground arith) h;
          others = λ other ne. refl;
        })
        (λ no. absurd (ground (arith, here)))
  inject_from-Injected (suc n) (suc fuel) len at item text k lt chars end h =
      let first : text at ≢ 0 = λ z. chars 0 (omega arith) (ap text (omega arith) ∙ z) in
      if_elim (Injected (suc n) len at item text k) (text at == 0)
        (λ z. absurd (ground (arith, first)))
        (λ _. elim (room-cases len) [
          | inl room ↦
              let count : (k.queues tty).count < input_cap =
                subst (λ c. c < input_cap) (sym h.count) room in
              subst (λ b. Goal (after b)) (sym (push_room (text at) k count))
                (more room (
                  inject_from-Injected n fuel (len + 1) (at + 1) (followed len item text at) text
                    pushed_once (omega arith)
                    (λ i less z. chars (suc i) (omega arith) (ap text (omega arith) ∙ z))
                    (ap text (omega arith) ∙ end) (held room)))
          | inr full ↦
              let count : input_cap ≤ (k.queues tty).count =
                subst (λ c. input_cap ≤ c) (sym h.count) full in
              subst (λ b. Goal (after b)) (sym (push_full (text at) k count)) (refused full)
        ])
    where
      Goal : Option (Bool × Keyboard) → Type 0
      Goal = Injected (suc n) len at item text k

      after : Bool × Keyboard → Option (Bool × Keyboard)
      after b =
          if not b.0
          then some (false, b.1)
          else inject_from fuel tty_count tty_index text (at + 1) b.1

      pushed_once : Keyboard
      pushed_once = record k {
        queues = update k.queues tty (pushed (text at) (k.queues tty));
        push_count = add64 k.push_count 1;
      }

      held : len < input_cap → Holds (pushed_once.queues tty) (len + 1) (followed len item text at)
      held room =
          subst (λ q. Holds q (len + 1) (followed len item text at))
            (sym (update_self k.queues tty (pushed (text at) (k.queues tty))))
            (pushed-Holds (text at) len (k.queues tty) item (followed len item text at) h room
              (λ i less. ground arith)
              (if_elim (λ c. c ≡ text at) (ltb len len) (λ l. absurd (ground arith))
                (λ _. ap text (omega arith))))

      same :
          (i : ℕ)
          → followed (len + 1) (followed len item text at) text (at + 1) i
            ≡ followed len item text at i
      same i =
          if_elim (λ c. c ≡ followed len item text at i) (ltb i (len + 1)) (λ _. refl)
            (λ behind.
              if_elim (λ c. text (at + 1 + (i - (len + 1))) ≡ c) (ltb i len)
                (λ l. absurd (ground arith)) (λ _. ap text (ground arith)))

      more :
          len < input_cap
          → Injected n
              (len + 1)
              (at + 1)
              (followed len item text at)
              text
              pushed_once
              (inject_from fuel tty_count tty_index text (at + 1) pushed_once)
          → Goal (inject_from fuel tty_count tty_index text (at + 1) pushed_once)
      more room r =
          let total : len + 1 + n ≡ len + suc n = omega arith in
          record {
            ok = r.ok;
            after = r.after;
            result = r.result;
            all_fit = r.all_fit ∙ ap (λ m. leb m input_cap) total;
            holds =
                Holds-cong (r.after.queues tty)
                  (if leb (len + 1 + n) input_cap then len + 1 + n else input_cap)
                  (if leb (len + suc n) input_cap then len + suc n else input_cap)
                  (followed (len + 1) (followed len item text at) text (at + 1))
                  (followed len item text at)
                  (ap (λ m. if leb m input_cap then m else input_cap) total) (λ i less. same i)
                  r.holds;
            others = λ other ne.
                r.others other ne
                ∙ update_ne k.queues tty other (pushed (text at) (k.queues tty)) ne;
          }

      refused :
          input_cap ≤ len → Goal (some (false, record k { drop_count = add64 k.drop_count 1 }))
      refused full =
          let room = h.room in
          record {
            ok = false;
            after = record k { drop_count = add64 k.drop_count 1 };
            result = refl;
            all_fit = ground arith;
            holds =
                Holds-cong (k.queues tty) len
                  (if leb (len + suc n) input_cap then len + suc n else input_cap) item
                  (followed len item text at) (ground arith) (λ i less. ground arith) h;
            others = λ other ne. refl;
          }

  -- Injecting a text of `n` characters, given more fuel than that, into a terminal whose queue holds `len`:
  -- it ends, and succeeds exactly if the queue has room for all of them. The queue then holds what it held and,
  -- behind it, as much of the text as fits, in order; the queues of the other terminals are as before.
  pub inject_text_for_tty-Injected :
      (n fuel len : ℕ) (item : ℕ → ℕ) (text : Array ℕ) (k : Keyboard)
      → n < fuel
      → ((i : ℕ) → i < n → text i ≢ 0)
      → text n ≡ 0
      → Holds (k.queues tty) len item
      → Injected n len 0 item text k (inject_text_for_tty fuel tty_count tty_index (some text) k)
  unfolding inject_text_for_tty
  inject_text_for_tty-Injected n fuel len item text k lt chars end h =
      inject_from-Injected n fuel len 0 item text k lt
        (λ i less z. chars i less (ap text (omega arith) ∙ z)) (ap text (omega arith) ∙ end) h

  -- What a pop gives and leaves of a queue of `len` characters
  abbrev pub Takes : ℕ → (ℕ → ℕ) → Keyboard → Option ℕ × Keyboard → Type 0
  Takes zero item k r = r ≡ (none, k)
  Takes (suc len) item k r =
      (r.0 ≡ some (item 0))
      × Holds (r.1.queues tty) len (λ i. item (i + 1))
      × ((other : ℕ) → other ≢ tty → r.1.queues other ≡ k.queues other)

  -- A pop from a terminal whose queue is empty gives nothing and changes nothing; from one that holds
  -- characters it gives the oldest, leaves the others in their order, and the other queues as they were.
  pub pop_char_for_tty-Takes :
      (len : ℕ) (item : ℕ → ℕ) (k : Keyboard)
      → Holds (k.queues tty) len item
      → Takes len item k (pop_char_for_tty tty_count tty_index k)
  unfolding pop_char_for_tty
  pop_char_for_tty-Takes zero item k h =
      let count = h.count in
      if_elim (Takes zero item k) ((k.queues tty).count == 0) (λ _. refl)
        (λ ne. absurd (ground arith))
  pop_char_for_tty-Takes (suc len) item k h =
      let count = h.count in
      let tail = h.tail in
      if_elim (Takes (suc len) item k) ((k.queues tty).count == 0) (λ z. absurd (ground arith))
        (λ _. (
          ap some (ap (k.queues tty).input (omega arith) ∙ h.items 0 (omega arith)),
          subst (λ q. Holds q len (λ i. item (i + 1)))
              (sym (update_self k.queues tty (popped (k.queues tty))))
              (popped-Holds len (k.queues tty) item h),
          λ other ne. update_ne k.queues tty other (popped (k.queues tty)) ne,
        ))
