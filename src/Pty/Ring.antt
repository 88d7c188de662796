-- ===== src/Pty/Ring.antt =====
-- One slot of kernel/runtime/pty.c as a queue of the bytes it holds, oldest first.
use clks.Base.{
  ℕ, zero, suc, ◌+◌, ◌-◌, ◌%◌, ◌≤◌, ◌<◌, ◌≡◌, ◌≢◌, refl, arith, List, [], ◌∷◌, ◌++◌, Array, ap, ap₂,
  append-nil, append_assoc, sym, ◌∙◌, ℕ_discrete, update, update_ne, lt→ltb, take, drop, length,
  length-append,
}
use clks.Pty.{Slot, buffer_size, drop_oldest, read_loop, write_byte, write_loop}

pub record IsValid (s : Slot) : Type 0 where
  pub room : s.count ≤ buffer_size
  pub read_in : s.read_pos < buffer_size
  pub write_at : s.write_pos ≡ (s.read_pos + s.count) % buffer_size

-- `n` bytes from `at` on, going round at the end of the buffer.
pub window : Array ℕ → ℕ → ℕ → List ℕ
window f at zero = []
window f at (suc n) = f at ∷ window f ((at + 1) % buffer_size) n

unfoldable pub contents : Slot → List ℕ
unfolding window
contents s = window s.buffer s.read_pos s.count

pub length-window : (f : Array ℕ) (at n : ℕ) → length (window f at n) ≡ n
unfolding window
length-window f at zero = refl
length-window f at (suc n) = ap suc (length-window f ((at + 1) % buffer_size) n)

pub length-contents : (s : Slot) → length (contents s) ≡ s.count
unfolding contents
length-contents s = length-window s.buffer s.read_pos s.count

window_of_ne_zero :
    (f : Array ℕ) (at n : ℕ)
    → n ≢ 0
    → window f at n ≡ f at ∷ window f ((at + 1) % buffer_size) (n - 1)
unfolding window
window_of_ne_zero f at zero h = absurd (h refl)
window_of_ne_zero f at (suc n) h = ap (λ k. window f at (suc k)) (omega arith)

-- Writing just past a window extends it.
window-update :
    (f : Array ℕ) (b n at i : ℕ)
    → at < buffer_size
    → n < buffer_size
    → i ≡ (at + n) % buffer_size
    → window (update f i b) at (suc n) ≡ window f at n ++ (b ∷ [])
unfolding window
window-update f b zero at i h k e = ap (λ k. k ∷ []) (ground arith)
window-update f b (suc n) at i h k e =
    ap₂ ◌∷◌ (update_ne f i at b (omega arith))
      (window-update f b n ((at + 1) % buffer_size) i (omega arith) (omega arith) (omega arith))

drop_same : {n m : ℕ} (q : List ℕ) → n ≡ m → drop n q ≡ drop m q
drop_same q e = ap (λ k. drop k q) e

-- The abstract queue: it keeps the last `buffer_size` bytes.
unfoldable pub keep_last : List ℕ → List ℕ
keep_last q = drop (length q - buffer_size) q

pub write_byte-IsValid : (b : ℕ) (s : Slot) → IsValid s → IsValid (write_byte b s)
unfolding write_byte drop_oldest
write_byte-IsValid b s v = ground arith

write_byte-contents_room :
    (b : ℕ) (s : Slot)
    → IsValid s
    → s.count ≢ buffer_size
    → contents (write_byte b s) ≡ contents s ++ (b ∷ [])
unfolding write_byte contents
write_byte-contents_room b s v h =
    ground (arith, window-update s.buffer b s.count s.read_pos s.write_pos)

-- Dropping the oldest byte.
pub drop_oldest-IsValid : (s : Slot) → IsValid s → s.count ≢ 0 → IsValid (drop_oldest s)
unfolding drop_oldest
drop_oldest-IsValid s v h = omega arith

pub contents-drop_oldest :
    (s : Slot)
    → IsValid s
    → s.count ≢ 0
    → contents s ≡ s.buffer s.read_pos ∷ contents (drop_oldest s)
unfolding drop_oldest contents
contents-drop_oldest s v h =
    window_of_ne_zero s.buffer s.read_pos s.count h
    ∙ ap (λ k. s.buffer s.read_pos ∷ window s.buffer ((s.read_pos + 1) % buffer_size) k)
        (omega arith)

write_byte-full :
    (b : ℕ) (s : Slot) → s.count ≡ buffer_size → write_byte b s ≡ write_byte b (drop_oldest s)
unfolding write_byte drop_oldest
write_byte-full b s h = ground arith

drop-length-append : (n : ℕ) (q r : List ℕ) → n ≤ length q → drop n (q ++ r) ≡ drop n q ++ r
drop-length-append zero q r h = refl
drop-length-append (suc n) [] r h = absurd (omega arith)
drop-length-append (suc n) (x ∷ q) r h = drop-length-append n q r (omega arith)

keep_last-contents : (s : Slot) → IsValid s → keep_last (contents s) ≡ contents s
unfolding keep_last
keep_last-contents s v =
    drop_same {n = length (contents s) - buffer_size} {m = 0} (contents s)
      (omega (arith, length-contents s))

-- A write appends its byte and keeps the last bytes.
pub contents-write_byte :
    (b : ℕ) (s : Slot) → IsValid s → contents (write_byte b s) ≡ keep_last (contents s ++ (b ∷ []))
unfolding keep_last
contents-write_byte b s v = elim (ℕ_discrete s.count buffer_size) [
  | no ne ↦
      write_byte-contents_room b s v ne
      ∙ sym (
          drop_same {n = length (contents s ++ (b ∷ [])) - buffer_size} {m = 0}
            (contents s ++ (b ∷ [])) (omega (arith, len, length-contents s)))
  | yes e ↦
      let ne : s.count ≢ 0 = omega arith in
      let step = contents-drop_oldest s v ne in
      rw (write_byte-full b s e) (
        write_byte-contents_room b (drop_oldest s) (drop_oldest-IsValid s v ne) (dropped e)
        ∙ ap (λ k. drop 1 k ++ (b ∷ [])) (sym step)
        ∙ sym (drop-length-append 1 (contents s) (b ∷ []) (omega (arith, length-contents s)))
        ∙ sym (
            drop_same {n = length (contents s ++ (b ∷ [])) - buffer_size} {m = 1}
              (contents s ++ (b ∷ [])) (omega (arith, len, length-contents s))))
]
  where
    len : length (contents s ++ (b ∷ [])) ≡ length (contents s) + 1
    len = length-append (contents s) (b ∷ [])

    dropped : s.count ≡ buffer_size → (drop_oldest s).count ≢ buffer_size
    dropped e = unfold drop_oldest in omega arith

-- Keeping the last bytes after each write is keeping the last bytes of all.
drop-nil : (n : ℕ) → drop {A = ℕ} n [] ≡ []
drop-nil zero = refl
drop-nil (suc n) = refl

drop-drop : (n m : ℕ) (q : List ℕ) → drop n (drop m q) ≡ drop (m + n) q
drop-drop n zero q = drop_same {n = n} {m = 0 + n} q (omega arith)
drop-drop n (suc m) [] = drop-nil n ∙ sym (drop-nil (suc m + n))
drop-drop n (suc m) (x ∷ q) =
    drop-drop n m q ∙ drop_same {n = suc (m + n)} {m = suc m + n} (x ∷ q) (omega arith)

length-drop : (n : ℕ) (q : List ℕ) → length (drop n q) ≡ length q - n
length-drop zero q = omega arith
length-drop (suc n) [] = omega arith
length-drop (suc n) (x ∷ q) = omega (arith, length-drop n q)

keep_last-append : (q r : List ℕ) → keep_last (keep_last q ++ r) ≡ keep_last (q ++ r)
unfolding keep_last
keep_last-append q r =
    ap keep_last (sym (drop-length-append m q r (omega arith)))
    ∙ drop-drop (length (drop m (q ++ r)) - buffer_size) m (q ++ r)
    ∙ drop_same {n = m + (length (drop m (q ++ r)) - buffer_size)}
        {m = length (q ++ r) - buffer_size} (q ++ r)
        (omega (arith, length-drop m (q ++ r), length-append q r))
  where
    m : ℕ
    m = length q - buffer_size

-- `src[i..i + n)`
unfoldable pub slice : Array ℕ → ℕ → ℕ → List ℕ
slice src i zero = []
slice src i (suc n) = src i ∷ slice src (i + 1) n

pub write_loop-IsValid :
    (src : Array ℕ) (n i : ℕ) (s : Slot) → IsValid s → IsValid (write_loop src n i s)
unfolding write_loop
write_loop-IsValid src zero i s v = v
write_loop-IsValid src (suc n) i s v =
    write_loop-IsValid src n (i + 1) (write_byte (src i) s) (write_byte-IsValid (src i) s v)

-- The loop of `clks_pty_write` on a valid slot leaves it holding the last 8192 bytes of what it held
-- followed by what is written.
pub contents-write_loop :
    (src : Array ℕ) (n i : ℕ) (s : Slot)
    → IsValid s
    → contents (write_loop src n i s) ≡ keep_last (contents s ++ slice src i n)
unfolding write_loop slice
contents-write_loop src zero i s v = rw append-nil (sym (keep_last-contents s v))
contents-write_loop src (suc n) i s v =
    contents-write_loop src n (i + 1) (write_byte (src i) s) (write_byte-IsValid (src i) s v)
    ∙ ap (λ k. keep_last (k ++ slice src (i + 1) n)) (contents-write_byte (src i) s v)
    ∙ keep_last-append (contents s ++ (src i ∷ [])) (slice src (i + 1) n)
    ∙ ap keep_last (append_assoc (contents s) (src i ∷ []) (slice src (i + 1) n))

-- The loop of `clks_pty_read` on a valid slot copies out the oldest bytes, as many as asked for and
-- present, in order, and leaves the rest.
pub read_loop_lem :
    (n : ℕ) (s : Slot)
    → IsValid s
    → ((read_loop n s).0 ≡ take n (contents s))
      × (contents (read_loop n s).1 ≡ drop n (contents s))
      × IsValid (read_loop n s).1
unfolding read_loop
read_loop_lem zero s v = (refl, refl, v)
read_loop_lem (suc n) s v = elim (ℕ_discrete s.count 0) [
  | yes e ↦ ground (arith, empty e)
  | no ne ↦
      let (bytes, rest, v') = read_loop_lem n (drop_oldest s) (drop_oldest-IsValid s v ne) in
      rw (contents-drop_oldest s v ne, lt→ltb 0 s.count (omega arith))
        (ap (λ k. s.buffer s.read_pos ∷ k) bytes, rest, v')
]
  where
    empty : s.count ≡ 0 → contents s ≡ []
    empty e = unfold contents window in ap (window s.buffer s.read_pos) e

pub length-slice : (src : Array ℕ) (i n : ℕ) → length (slice src i n) ≡ n
unfolding slice
length-slice src i zero = refl
length-slice src i (suc n) = ap suc (length-slice src (i + 1) n)

pub take-slice : (src : Array ℕ) (i n : ℕ) → take n (slice src i n) ≡ slice src i n
unfolding slice
take-slice src i zero = refl
take-slice src i (suc n) = ap (λ k. src i ∷ k) (take-slice src (i + 1) n)

pub keep_last-short : (q : List ℕ) → length q ≤ buffer_size → keep_last q ≡ q
unfolding keep_last
keep_last-short q h = drop_same {n = length q - buffer_size} {m = 0} q (omega arith)
