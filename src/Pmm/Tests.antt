-- ===== src/Pmm/Tests.antt =====
-- Runs of kernel/memory/pmm.c, and its theorems at concrete inputs.
use clks.Base.{ℕ, ◌+◌, ◌*◌, ◌≡◌, ◌≢◌, refl, arith, Option, none, some, List, [], ◌∷◌}
use clks.Base.Unique.{NotIn, Unique}
use clks.Pmm.{
  Pmm, MemmapEntry, init, alloc_page, page_size, track_entries, track_entry, track_page, align_up,
  align_down,
}
use clks.Pmm.Stack.{IsValid, contents}
use clks.Pmm.Range.{Tracks}
use clks.Pmm.Init.{Covered, init_lem}
use clks.Pmm.Ownership.{System, take_page, start, later, IsOwned, alloc_page-exclusive}
use clks.Pmm.Boot.{init-IsOwned}

-- One reserved entry, a null one, and a usable one of two and a half pages from 1 MiB + 100.
abbrev small_map : List (Option MemmapEntry)
small_map =
    some (record { base = 0; len = 0x100000; kind = 1 })
    ∷ none
    ∷ some (record { base = 0x100064; len = 0x2800; kind = 0 })
    ∷ []

abbrev two_pages : Pmm
two_pages = record {
  free_stack = λ i. 0x100000 + page_size * i;
  free_top = 2;
  managed_pages = 2;
  dropped_pages = 0;
}

two_pages-IsValid : IsValid two_pages
two_pages-IsValid = record {
  room = omega arith;
  frames = λ i lt. record { non_null = omega arith; aligned = omega arith };
}

abbrev owned : System
owned = record { pmm = two_pages; held = [] }

owned-IsOwned : IsOwned owned
unfolding contents
owned-IsOwned = record { valid = two_pages-IsValid; unique = omega arith }

-- Only the pages that lie whole within the usable entry are kept.
contents_of : Option Pmm → List ℕ
unfolding contents
contents_of none = []
contents_of (some s) = contents s

init_test : contents_of (init (some small_map)) ≡ 0x101000 ∷ []
unfolding contents_of init track_entries track_entry track_page align_up align_down
init_test = refl

init_lem_example :
    (s : Pmm) × (init (some small_map) ≡ some s) × Tracks (Covered small_map) s × IsValid s
init_lem_example = init_lem small_map (omega arith)

init-IsOwned_example :
    (s : Pmm) × (init (some small_map) ≡ some s) × IsOwned (record { pmm = s; held = [] })
init-IsOwned_example = init-IsOwned small_map (omega arith) (omega arith)

alloc_page-exclusive_example :
    Unique ((alloc_page two_pages).0 ∷ [])
    × ((alloc_page two_pages).1.free_top ≢ 0
        → NotIn (alloc_page (alloc_page two_pages).1).0 ((alloc_page two_pages).0 ∷ []))
alloc_page-exclusive_example =
    alloc_page-exclusive owned-IsOwned (later start (take_page two_pages [] (omega arith)))
