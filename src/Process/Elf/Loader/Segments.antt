-- ===== src/Process/Elf/Loader/Segments.antt =====
-- The loader from the first segment to the last.
use nikka.Common.{Bool, true, false, ℕ, ◌+◌, ◌*◌, ◌^◌, ◌<◌, ◌≤◌, ◌≡◌, List, [], ◌∷◌}
use nikka.Memory.Block.{Block}
use nikka.Process.Elf.Combine.{first_page, end_page}
use nikka.Process.Elf.Loader.{BigAllocatorPair, FileRange, Loader}
use nikka.Process.Elf.Loader.Views.{inside, image_of, View}
use nikka.Process.Elf.Loader.Steps.{IsLoadable}
use nikka.Process.Elf.Loader.NewPages.{pages_of}

-- The segments are in the order of their addresses, after `end`, and do not overlap.
abbrev pub Follows : ℕ → List FileRange → Type 0
Follows end [] = Unit {0}
Follows end (r ∷ ranges) =
    (end ≤ r.virt_range.memory.start) × Follows r.virt_range.memory.end ranges

abbrev pub AllLoadable : List ℕ → List FileRange → Type 0
AllLoadable file [] = Unit {0}
AllLoadable file (r ∷ ranges) = IsLoadable file r × AllLoadable file ranges

-- The pages of the segments are not reserved in the target, and end at `last` at most.
abbrev pub AllFresh : (ℕ → Bool) → ℕ → List FileRange → Type 0
AllFresh taken last [] = Unit {0}
AllFresh taken last (r ∷ ranges) =
    ((p : ℕ) → inside (pages_of r.virt_range) p ≡ true → taken p ≡ false)
    × (end_page r.virt_range ≤ last)
    × AllFresh taken last ranges

-- The page that `n` pages from the first one of the segments end at.
abbrev pub reach : List FileRange → ℕ → ℕ
reach [] n = n
reach (r ∷ ranges) n = first_page r.virt_range + n

-- The bytes of memory with all segments in it.
unfoldable pub memory_of : List ℕ → List FileRange → (ℕ → ℕ) → ℕ → ℕ
memory_of file [] before = before
memory_of file (r ∷ ranges) before = memory_of file ranges (image_of file r before)

module _ {A : Type 0} (pair : BigAllocatorPair A) (v : View A) where
  -- The page has the frame of a page in the current address space, which holds these bytes.
  abbrev pub HasBytes : A → ℕ → (ℕ → ℕ) → Type 0
  HasBytes a p bytes =
      (k : ℕ) × v.shares a p k
      × ((j : ℕ) → j < 2 ^ 12 → v.byte a (k * 2 ^ 12 + j) ≡ bytes (p * 2 ^ 12 + j))
