-- ===== src/Pty/Transfer.antt =====
-- `clks_pty_write` and `clks_pty_read` of kernel/runtime/pty.c on the table.
use clks.Base.{
  ℕ, zero, suc, ◌+◌, ◌≤◌, ◌<◌, ◌≡◌, refl, arith, Bool, true, false, some, [], ◌++◌, Array, ap, take,
  drop, length, min, ◌∙◌, length-take,
}
use clks.Pty.{
  Slot, Pty, pty_max, buffer_size, find_slot, set_slot, read_loop, write_loop, drop_oldest,
  write_byte, read, write,
}
use clks.Pty.Ring
use clks.Pty.Ring.{
  contents, keep_last, slice, read_loop_lem, contents-write_loop, write_loop-IsValid,
  length-contents, keep_last-short, length-slice, take-slice,
}
use clks.Pty.Lifetime.{slots-set_slot}
use clks.Pty.Slots.{IsTable, find_slot-some, set_slot-IsTable, find_slot-set_slot}

-- The loops touch the ring only.
record SameOwner (s t : Slot) : Type 0 where
  used : t.used ≡ s.used
  id : t.id ≡ s.id
  ref_count : t.ref_count ≡ s.ref_count

write_byte-SameOwner : (b : ℕ) (s : Slot) → SameOwner s (write_byte b s)
unfolding write_byte drop_oldest
write_byte-SameOwner b s = ground arith

write_loop-SameOwner : (src : Array ℕ) (n i : ℕ) (s : Slot) → SameOwner s (write_loop src n i s)
unfolding write_loop
write_loop-SameOwner src zero i s = record { used = refl; id = refl; ref_count = refl }
write_loop-SameOwner src (suc n) i s =
    let a = write_byte-SameOwner (src i) s in
    let b = write_loop-SameOwner src n (i + 1) (write_byte (src i) s) in
    record { used = b.used ∙ a.used; id = b.id ∙ a.id; ref_count = b.ref_count ∙ a.ref_count }

read_loop-SameOwner : (n : ℕ) (s : Slot) → SameOwner s (read_loop n s).1
unfolding read_loop drop_oldest
read_loop-SameOwner zero s = record { used = refl; id = refl; ref_count = refl }
read_loop-SameOwner (suc n) s = ground (arith, read_loop-SameOwner n (drop_oldest s))

-- A slot whose ring has changed, in its table.
replaced-IsTable :
    {p : Pty} (i : ℕ) (slot : Slot)
    → IsTable p
    → i < pty_max
    → (p.slots i).used ≡ true
    → SameOwner (p.slots i) slot
    → Ring.IsValid slot
    → IsTable (set_slot i slot p)
replaced-IsTable {p} i slot t lt u o v =
    set_slot-IsTable i slot t lt u o.id (omega (arith, t.live i lt u, o.ref_count)) v

write-some :
    (src : Array ℕ) (id n i : ℕ) (p : Pty)
    → find_slot id p ≡ some i
    → 0 < n
    → write (some src) id n p ≡ (n, set_slot i (write_loop src n 0 (p.slots i)) p)
unfolding write
write-some src id n i p e h = ground arith

read-some :
    (null : Bool) (id n i : ℕ) (p : Pty)
    → find_slot id p ≡ some i
    → 0 < n
    → null ≡ false
    → read null id n p ≡ (
      length (read_loop n (p.slots i)).0,
      (read_loop n (p.slots i)).0,
      set_slot i (read_loop n (p.slots i)).1 p,
    )
unfolding read
read-some null id n i p e h k = ground arith

-- A write of `n` bytes to an open pipe takes them all: the pipe then holds the last 8192 bytes of
-- what it held and what is written; the pipe is found as before and the table stays well formed.
pub write_lem :
    (src : Array ℕ) (id n i : ℕ) (p : Pty)
    → IsTable p
    → find_slot id p ≡ some i
    → 0 < n
    → let (sent, p') = write (some src) id n p in
      (sent ≡ n)
      × (contents (p'.slots i) ≡ keep_last (contents (p.slots i) ++ slice src 0 n))
      × (find_slot id p' ≡ some i)
      × IsTable p'
write_lem src id n i p t e h =
    let (lt, u, same) = find_slot-some id i p e in
    let slot' : Slot = write_loop src n 0 (p.slots i) in
    let owner = write_loop-SameOwner src n 0 (p.slots i) in
    rw (write-some src id n i p e h) (
      refl,
      ap contents (slots-set_slot i slot' p)
          ∙ contents-write_loop src n 0 (p.slots i) (t.rings i lt),
      find_slot-set_slot id i slot' p owner.used owner.id ∙ e,
      replaced-IsTable i slot' t lt u owner (write_loop-IsValid src n 0 (p.slots i) (t.rings i lt)),
    )

-- A read of at most `n` bytes from an open pipe returns how many it copies, which are the oldest
-- bytes of the pipe in order, as many as asked for and present, and leaves the others.
pub read_lem :
    (id n i : ℕ) (p : Pty)
    → IsTable p
    → find_slot id p ≡ some i
    → 0 < n
    → let (got, bytes, p') = read false id n p in
      (got ≡ min n (p.slots i).count)
      × (bytes ≡ take n (contents (p.slots i)))
      × (contents (p'.slots i) ≡ drop n (contents (p.slots i)))
      × (find_slot id p' ≡ some i)
      × IsTable p'
read_lem id n i p t e h =
    let (lt, u, same) = find_slot-some id i p e in
    let slot' : Slot = (read_loop n (p.slots i)).1 in
    let owner = read_loop-SameOwner n (p.slots i) in
    let (bytes, rest, v) = read_loop_lem n (p.slots i) (t.rings i lt) in
    rw (read-some false id n i p e h refl) (
      ap length bytes
          ∙ omega (arith, length-take n (contents (p.slots i)), length-contents (p.slots i)),
      bytes,
      ap contents (slots-set_slot i slot' p) ∙ rest,
      find_slot-set_slot id i slot' p owner.used owner.id ∙ e,
      replaced-IsTable i slot' t lt u owner v,
    )

-- On a well formed table, what is written to an empty open pipe, from one byte up to its size,
-- is what the next read of that length returns.
pub read-write :
    (src : Array ℕ) (id n i : ℕ) (p : Pty)
    → IsTable p
    → find_slot id p ≡ some i
    → contents (p.slots i) ≡ []
    → 0 < n
    → n ≤ buffer_size
    → (read false id n (write (some src) id n p).1).1 ≡ slice src 0 n
read-write src id n i p t e empty h fits =
    let (sent, held, found, t') = write_lem src id n i p t e h in
    let (got, bytes, rest, found', t'') = read_lem id n i (write (some src) id n p).1 t' found h in
    bytes
    ∙ ap (take n) (
        held
        ∙ ap (λ k. keep_last (k ++ slice src 0 n)) empty
        ∙ keep_last-short (slice src 0 n) (omega (arith, length-slice src 0 n)))
    ∙ take-slice src 0 n
