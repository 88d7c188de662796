-- ===== src/Disk/Clusters/Keeping.antt =====
-- kernel/storage/disk/fat_alloc.inc: what a search keeps.
use clks.Base.{ℕ, ◌%◌, ◌^◌, ◌≡◌, refl, Array, ap, ◌∙◌}
use clks.Disk.{Disk, Fat32Layout, read_u32}
use clks.Disk.Cache.Loading.{IsBacked-with, IsCoherent, Loads}
use clks.Disk.Cache.{loaded_test}
use clks.Disk.Fat.Place.{position}
use clks.Disk.Fat.Entries.{IsSound, Loads-IsSound, link}

-- The step to `e` changed neither the drive nor the layout, and the disk is sound.
pub record Keeps (d e : Disk) : Type 0 where
  pub layout : e.fat32 ≡ d.fat32
  pub media : e.drive.media ≡ d.drive.media
  pub outcomes : e.drive.stops ≡ d.drive.stops
  pub sound : IsSound e

pub Keeps-link : (d e : Disk) → Keeps d e → (cluster : ℕ) → link e cluster ≡ link d cluster
Keeps-link d e k cluster =
    ap (λ (l : Fat32Layout). read_u32 e.drive.media (position l 0 cluster) % 2 ^ 28) k.layout
    ∙ ap (λ (m : Array ℕ). read_u32 m (position d.fat32 0 cluster) % 2 ^ 28) k.media

pub Keeps-trans : {d e f : Disk} → Keeps d e → Keeps e f → Keeps d f
Keeps-trans p q = record {
  layout = q.layout ∙ p.layout;
  media = q.media ∙ p.media;
  outcomes = q.outcomes ∙ p.outcomes;
  sound = q.sound;
}

pub Loads-Keeps : (d e : Disk) → IsSound d → Loads d e → Keeps d e
Loads-Keeps d e s p = record {
  layout = ap (λ (y : Disk). y.fat32) p.frame;
  media = p.content;
  outcomes = p.outcomes;
  sound = Loads-IsSound d e p s;
}

pub hint-Keeps : (d : Disk) (hint : ℕ) → IsSound d → Keeps d (record d { alloc_hint = hint })
unfolding IsCoherent loaded_test
hint-Keeps d hint s = record {
  layout = refl;
  media = refl;
  outcomes = refl;
  sound = record { backed = IsBacked-with (s.backed); coherent = s.coherent; sized = s.sized };
}
