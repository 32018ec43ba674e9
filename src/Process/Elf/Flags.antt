-- ===== src/Process/Elf/Flags.antt =====
-- Which flags the pages of the segments get.
use Prim.Native.Nat.{bit_or}
use nikka.Common.{
  ℕ, ◌≤◌, ◌≡◌, true, false, Bool, arith, Option, some, none, ltb, leb, ◌&&◌, if◌then◌else◌, ok,
  List, [], ◌∷◌,
}
use nikka.Process.Elf.{MemoryRange, Combined, combine}
use nikka.Process.Elf.Loader.{FileRange}
use nikka.Process.Elf.Combine.{IsSegment, first_page, end_page, after_combine, combine_lem}

-- A page of the range, by its number.
abbrev pub touches : MemoryRange → ℕ → Bool
touches r p = leb (first_page r) p && ltb p (end_page r)

abbrev pub flags_at : MemoryRange → ℕ → Option ℕ
flags_at r p = if touches r p then some r.flags else none

abbrev pub join : Option ℕ → Option ℕ → Option ℕ
join none g = g
join (some f) none = some f
join (some f) (some g) = some (bit_or f g)

-- The flags that the segments ask for on the page `p`, all together.
unfoldable pub wanted : List FileRange → Option ℕ → ℕ → Option ℕ
wanted [] w p = w
wanted (r ∷ rs) w p = wanted rs (join w (flags_at r.virt_range p)) p

-- What a page is mapped with: with what is asked for and the flags `d` of the target, or as before.
abbrev pub shown : ℕ → Option ℕ → Option ℕ → Option ℕ
shown d before none = before
shown d before (some f) = some (bit_or f d)

-- The state of the page `p` after the pages `r` have been moved.
abbrev pub put : ℕ → MemoryRange → Option ℕ → ℕ → Option ℕ
put d r m p = if leb r.memory.start p && ltb p r.memory.end then some (bit_or r.flags d) else m

abbrev pub put_if : ℕ → Option MemoryRange → Option ℕ → ℕ → Option ℕ
put_if d none m p = m
put_if d (some r) m p = put d r m p

-- The page `p`, which is mapped with `m` and was with `before`, agrees with the flags `w` that the
-- segments up to now ask for, but for the pages of `curr`, which are still to be moved.
pub record Agrees (d : ℕ) (before w m : Option ℕ) (curr : MemoryRange) (p : ℕ) : Type 0 where
  pub inside : touches curr p ≡ true → w ≡ some curr.flags
  pub outside : touches curr p ≡ false → m ≡ shown d before w
  pub beyond : end_page curr ≤ p → w ≡ none

module _ (d : ℕ) (before w m : Option ℕ) (curr next : MemoryRange) (p : ℕ) where
  pub Agrees-after_combine :
      IsSegment curr
      → IsSegment next
      → curr.memory.end ≤ next.memory.start
      → Agrees d before w m curr p
      → Agrees d before
          (join w (flags_at next p))
          (put_if d
            (after_combine curr next).boundary
            (put_if d (after_combine curr next).curr_minus_next m p)
            p)
          (after_combine curr next).updated_next
          p
  unfolding after_combine
  Agrees-after_combine c n o a = record {
    inside = ground arith;
    outside = ground arith;
    beyond = ground arith;
  }

  -- If two segments follow each other below the last page of the lower half, and a page agrees with
  -- the flags that the segments up to the first one ask for, then `combine` succeeds, and after the
  -- two pieces that it gives to be moved, the page agrees with those flags joined with the flags of
  -- the second segment, of which the updated range is still to be moved.
  pub combine-Agrees :
      IsSegment curr
      → IsSegment next
      → curr.memory.end ≤ next.memory.start
      → Agrees d before w m curr p
      → (c : Combined) × (combine curr next ≡ ok c)
        × Agrees d before
            (join w (flags_at next p))
            (put_if d c.boundary (put_if d c.curr_minus_next m p) p)
            c.updated_next
            p
  combine-Agrees c n o a =
      (after_combine curr next, combine_lem curr next c n o, Agrees-after_combine c n o a)
