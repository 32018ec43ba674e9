-- ===== src/Kernel/MappingTests.antt =====
-- The theorems about page tables at a concrete machine: a root of zeros, and frames given in a row.
use Prim.Native.Nat.{bit_or}
use nikka.Common.{
  ℕ, ◌+◌, ◌-◌, ◌*◌, ◌%◌, ◌^◌, ◌≡◌, ◌≢◌, refl, ◌∙◌, Bool, ◌&&◌, some, none, [], leb, ◌==◌, ok, err,
  no_page, arith,
}
use nikka.Memory.Mmu.{set_frame, frame, flags, take, present, clear}
use nikka.Memory.Mmu.Entry.{set_frame-frame}
use nikka.Kernel.Mapping.{zeroed, Frames, Machine, PagePath, map_page, resolve, root_level}
use nikka.Kernel.Mapping.Tree.{Place, IsTree, look, resolve_lem}
use nikka.Kernel.Mapping.Changes.{indexes, look-nothing}
use nikka.Kernel.Mapping.Grow.{IsTree-zeroed, placed}
use nikka.Kernel.Mapping.Arrival.{IsAllocator, IsMapping}
use nikka.Kernel.Mapping.MapPage.{map_page_lem}

set_frame-frame_example :
    (w : ℕ) × (set_frame 8192 5 ≡ ok w)
    × (frame w ≡ ok 8192)
    × (flags w ≡ ok (bit_or 5 present))
    × (take w ≡ ok (8192, clear))
set_frame-frame_example =
    set_frame-frame 8192 5 (refl, omega arith) (record { fits = omega arith; known = refl }) refl

-- The state is the number of frames given; there are a thousand.
abbrev in_a_row : Frames ℕ
in_a_row = record { allocate = λ s. (s + 1, ok ((s + 1) * 2 ^ 12)); deallocate = λ s n. (s, ok tt) }

abbrev given : ℕ → ℕ → Bool
given s x = (x % 2 ^ 12 == 0) && leb x (s * 2 ^ 12)

abbrev left : ℕ → ℕ
left s = 1000 - s

in_a_row-IsAllocator : IsAllocator in_a_row given left
in_a_row-IsAllocator = record {
  allocates = λ s h. (
    s + 1,
    (s + 1) * 2 ^ 12,
    refl,
    (omega arith, omega arith),
    ground arith,
    λ x. ground arith,
    omega arith,
  );
}

no_tables : IsTree (λ f i. 0) (λ x. none)
no_tables = record {
  entries = λ f l q i p. ground arith;
  leaves = λ f q i p. ground arith;
  empty = λ f l q i p. ground arith;
  below = λ f l q i p. ground arith;
}

abbrev one_table : Machine ℕ
one_table = record { tables = zeroed (λ f i. 0) 4096; frames = 1 }

abbrev one_place : Place
one_place = placed (λ x. none) 4096 root_level []

one_table-IsMapping : IsMapping in_a_row given left in_a_row-IsAllocator one_table one_place
one_table-IsMapping = record {
  tree = IsTree-zeroed (λ f i. 0) (λ x. none) 4096 root_level [] no_tables refl;
  in_use = λ x y p. ground arith;
}

resolve_lem_example :
    resolve one_table.tables 4096 7000 ≡ look one_table.tables 7000 root_level 4096
resolve_lem_example =
    resolve_lem (zeroed (λ f i. 0) 4096) one_place
      (IsTree-zeroed (λ f i. 0) (λ x. none) 4096 root_level [] no_tables refl) 7000 4096 refl

one_table_empty : resolve one_table.tables 4096 7000 ≡ err no_page
one_table_empty =
    resolve_lem (zeroed (λ f i. 0) 4096) one_place
      (IsTree-zeroed (λ f i. 0) (λ x. none) 4096 root_level [] no_tables refl) 7000 4096 refl
    ∙ look-nothing (zeroed (λ f i. 0) 4096) 4096 7000 root_level (λ j. refl)

map_page_lem_example :
    (after : Machine ℕ) × (found : PagePath) × (more : Place) × (map_page in_a_row one_table 4096
        7000 8192000 5
      ≡ (after, ok found))
    × IsMapping in_a_row given left in_a_row-IsAllocator after more
    × (more 4096 ≡ some (root_level, []))
    × (resolve after.tables 4096 7000 ≡ ok (8192000, bit_or 5 present))
    × ((u : ℕ)
        → indexes u root_level [] ≢ indexes 7000 root_level []
        → resolve after.tables 4096 u ≡ resolve one_table.tables 4096 u)
map_page_lem_example =
    map_page_lem in_a_row given left in_a_row-IsAllocator one_table one_place 4096 7000 8192000 5
      one_table-IsMapping refl (omega arith) (refl, omega arith)
      (record { fits = omega arith; known = refl }) refl one_table_empty
