-- ===== src/Process/Elf/Loader/NewPages.antt =====
-- Which pages the loader reserves for a segment: those that the segment before has not reserved yet.
use nikka.Common.{
  false, ℕ, ◌≤◌, ◌≡◌, refl, arith, some, ltb, leb, ok, Bool-cases, inl, inr, min, if◌then◌else◌,
}
use nikka.Memory.Block.{Block, block, zero_block}
use nikka.Memory.Block.Valid.{IsValid-from_index}
use nikka.Kernel.Range.{page}
use nikka.Process.Elf.{MemoryRange}
use nikka.Process.Elf.Combine.{
  IsSegment, first_page, end_page, pages-IsValid, enclosing_segment, disjoint_lem,
}
use nikka.Process.Elf.Loader.{dst_new_pages}
use nikka.Process.Elf.Loader.Views.{inside}

abbrev pub pages_of : MemoryRange → Block
pages_of r = block (first_page r) (end_page r)

-- Of two segments that follow each other below the last page of the lower half, the pages that are
-- new for the second one are a block without an error, and a page is in this block exactly if the
-- second segment touches it and the first one does not.
pub dst_new_pages_lem :
    (curr next : MemoryRange)
    → IsSegment curr
    → IsSegment next
    → curr.memory.end ≤ next.memory.start
    → (b : Block) × (dst_new_pages (some curr) (pages_of next) ≡ ok b)
      × ((p : ℕ)
          → inside b p ≡ (if inside (pages_of curr) p then false else inside (pages_of next) p))
unfolding dst_new_pages
dst_new_pages_lem curr next c n o =
    let page_end = min (end_page curr) (end_page next) in
    let disjoint = disjoint_lem curr next c n o in
    elim (Bool-cases (leb (end_page curr) (first_page next))) [
      | inl h ↦ (
        pages_of next,
        rw (enclosing_segment curr c, disjoint, h) refl,
        λ p. ground (arith, h, c.nonempty, n.nonempty),
      )
      | inr h ↦ elim (Bool-cases (ltb page_end (end_page next))) [
        | inl b ↦ (
          block page_end (end_page next),
          rw
              (
                enclosing_segment curr c,
                disjoint,
                h,
                b,
                IsValid-from_index page page_end (end_page next) (
                    pages-IsValid page_end (end_page next) (ground arith)
                      (omega (arith, n.lower, n.nonempty))),
              )
              refl,
          λ p. ground (arith, h, b, c.nonempty, n.nonempty),
        )
        | inr b ↦ (
          zero_block,
          rw (enclosing_segment curr c, disjoint, h, b) refl,
          λ p. ground (arith, h, b, c.nonempty, n.nonempty),
        )
      ]
    ]
