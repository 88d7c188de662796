-- ===== src/Pty/Tests.antt =====
-- Runs of kernel/runtime/pty.c, and its theorems at concrete inputs.
use clks.Base.{
  ℕ, ◌+◌, ◌≡◌, refl, arith, true, false, none, some, [], ◌∷◌, ◌++◌, Array, update, take, drop,
  if◌then◌else◌, ltb, min, find_index,
}
use clks.Pty.{
  Pty, zero_slot, find_slot, read, write, read_loop, drop_oldest, write_loop, write_byte, set_slot,
}
use clks.Pty.Ring.{contents, keep_last, slice}
use clks.Pty.Slots.{IsTable}
use clks.Pty.Lifetime.{releases, find_slot-releases}
use clks.Pty.Transfer.{write_lem, read_lem, read-write}

-- One open pipe with two references.
abbrev shared_pipe : Pty
shared_pipe = record {
  slots = update (λ _. zero_slot) 0 (record zero_slot { used = true; id = 1; ref_count = 2 });
  next_id = 2;
}

shared_pipe-IsTable : IsTable shared_pipe
shared_pipe-IsTable = record {
  counter = omega arith;
  rings = λ i lt. ground arith;
  live = λ i lt u. ground arith;
  distinct = λ i j p q u v e. ground arith;
}

shared_pipe-found : find_slot 1 shared_pipe ≡ some 0
unfolding find_slot find_index
shared_pipe-found = refl

abbrev bytes : Array ℕ
bytes i = 65 + i

read_test : (read false 1 2 (write (some bytes) 1 3 shared_pipe).1).1 ≡ 65 ∷ 66 ∷ []
unfolding read write find_slot find_index read_loop write_loop write_byte drop_oldest set_slot
read_test = refl

find_slot-releases_example :
    find_slot 1 (releases 2 1 shared_pipe)
    ≡ (if ltb 2 (shared_pipe.slots 0).ref_count then some 0 else none)
find_slot-releases_example =
    find_slot-releases 2 1 0 shared_pipe shared_pipe-IsTable shared_pipe-found

write_lem_example :
    let (sent, p') = write (some bytes) 1 3 shared_pipe in
    (sent ≡ 3)
    × (contents (p'.slots 0) ≡ keep_last (contents (shared_pipe.slots 0) ++ slice bytes 0 3))
    × (find_slot 1 p' ≡ some 0)
    × IsTable p'
write_lem_example =
    write_lem bytes 1 3 0 shared_pipe shared_pipe-IsTable shared_pipe-found (omega arith)

read_lem_example :
    let (got, out, p') = read false 1 2 shared_pipe in
    (got ≡ min 2 (shared_pipe.slots 0).count)
    × (out ≡ take 2 (contents (shared_pipe.slots 0)))
    × (contents (p'.slots 0) ≡ drop 2 (contents (shared_pipe.slots 0)))
    × (find_slot 1 p' ≡ some 0)
    × IsTable p'
read_lem_example = read_lem 1 2 0 shared_pipe shared_pipe-IsTable shared_pipe-found (omega arith)

read-write_example : (read false 1 3 (write (some bytes) 1 3 shared_pipe).1).1 ≡ slice bytes 0 3
read-write_example =
    read-write bytes 1 3 0 shared_pipe shared_pipe-IsTable shared_pipe-found
      (unfold contents in refl) (omega arith) (omega arith)
