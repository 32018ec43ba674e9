-- ===== src/Process/Elf/Combine.antt =====
-- What `combine` makes of two segments that follow each other in the lower half.
use Prim.Native.Nat.{bit_or}
use nikka.Common.{
  ℕ, ◌+◌, ◌-◌, ◌*◌, ◌/◌, ◌^◌, ◌≤◌, ◌<◌, ◌≡◌, refl, ap, true, false, ◌∙◌, arith, Option, some, none,
  ltb, leb, if◌then◌else◌, ok, max, Bool-cases, inl, inr, min,
}
use nikka.Memory.Addr.{virt, half_size}
use nikka.Memory.Frage.{l0, bytes}
use nikka.Memory.Frage
use nikka.Memory.Frage.Index.{from_index_lem, add-index}
use nikka.Memory.Block.{
  addr, frage, Block, block, enclosing, is_disjoint, partial_cmp, Ordering, less,
}
use nikka.Memory.Block
use nikka.Memory.Block.Valid.{IsValid, address_by_index_lem, IsValid-from_index}
use nikka.Memory.Block.Pages.{enclosing-covering}
use nikka.Memory.Block.Contains.{is_disjoint-Apart}
use nikka.Kernel.Range.{page}
use nikka.Process.Elf.{
  MemoryRange, is_less, range_of, Combined, combine, combine_overlapping, validate_order,
  minus_next, shared_page, updated_start, updated_flags,
}

-- A range with an address in it, below the last page of the lower half.
pub record IsSegment (r : MemoryRange) : Type 0 where
  pub nonempty : r.memory.start < r.memory.end
  pub lower : r.memory.end + 2 ^ 12 ≤ half_size

-- The first page of a range, and the page behind its last one.
abbrev pub first_page : MemoryRange → ℕ
first_page r = r.memory.start / 2 ^ 12

abbrev pub end_page : MemoryRange → ℕ
end_page r = (r.memory.end - 1) / 2 ^ 12 + 1

pub IsSegment-IsValid : (r : MemoryRange) → IsSegment r → IsValid (addr virt) r.memory
IsSegment-IsValid r s = ground arith

pub enclosing_segment :
    (r : MemoryRange)
    → IsSegment r
    → enclosing virt r.memory ≡ ok (block (first_page r) (end_page r))
enclosing_segment r s = ground (arith, enclosing-covering virt r.memory (IsSegment-IsValid r s))

pub pages-IsValid : (s e : ℕ) → s < e → e * 2 ^ 12 ≤ half_size → IsValid page (block s e)
pages-IsValid s e h k = ground arith

addresses-IsValid : (s e : ℕ) → s ≤ e → e < half_size → IsValid (addr virt) (block s e)
addresses-IsValid s e h k = ground arith

-- What `combine` is to compute of segments that follow each other.
unfoldable pub after_combine : MemoryRange → MemoryRange → Combined
after_combine curr next =
    let last = first_page next in
    let both = bit_or curr.flags next.flags in
    let before =
      if ltb (first_page curr) last
      then some (range_of curr.flags (block (first_page curr) last))
      else none in
    let from = if ltb (first_page curr) last then last * 2 ^ 12 else curr.memory.start in
    if leb (end_page curr) last
    then record {
      curr_minus_next = some (range_of curr.flags (block (first_page curr) (end_page curr)));
      boundary = none;
      updated_next = next;
    }
    else if ltb (last + 1) (end_page next)
    then record {
      curr_minus_next = before;
      boundary = some (range_of both (block last (last + 1)));
      updated_next = range_of next.flags (block ((last + 1) * 2 ^ 12) next.memory.end);
    }
    else record {
      curr_minus_next = before;
      boundary = none;
      updated_next = range_of both (block from next.memory.end);
    }

minus_next_lem :
    (curr next : MemoryRange)
    → IsSegment curr
    → IsSegment next
    → curr.memory.end ≤ next.memory.start
    → first_page next < end_page curr
    → minus_next curr (block (first_page curr) (end_page curr)) (first_page next + 1)
      ≡ ok (
          if ltb (first_page curr) (first_page next)
          then some (range_of curr.flags (block (first_page curr) (first_page next)))
          else none)
unfolding minus_next
minus_next_lem curr next c n o h = ground (
  arith,
  IsValid-from_index page (first_page curr) (first_page next),
  pages-IsValid (first_page curr) (first_page next),
)

pub from_index-page :
    (i : ℕ) → i * 2 ^ 12 < half_size → Frage.from_index virt l0 i ≡ ok (i * 2 ^ 12)
from_index-page i h = ground (arith, from_index_lem virt l0 i)

from_index-index-page :
    (i : ℕ)
    → (i + 1) * 2 ^ 12 < half_size
    → Frage.from_index virt l0 (Frage.index l0 (i * 2 ^ 12) + 1) ≡ ok ((i + 1) * 2 ^ 12)
unfolding Frage.index
from_index-index-page i h =
    let e : i * 2 ^ 12 / 2 ^ 12 ≡ i = omega arith in rw e (from_index-page (i + 1) h)

add-page :
    (i : ℕ)
    → (i + 1) * 2 ^ 12 < half_size
    → Frage.add virt l0 (i * 2 ^ 12) 1 ≡ ok ((i + 1) * 2 ^ 12)
add-page i h =
    add-index virt l0 (i * 2 ^ 12) 1 (ground arith, ground arith) (ground arith)
    ∙ from_index-index-page i h

end_address-segment :
    (r : MemoryRange) → IsSegment r → Block.end_address (addr virt) r.memory ≡ ok r.memory.end
end_address-segment r s = ground (arith, address_by_index_lem (addr virt) r.memory.end)

add_sub_1 : (n : ℕ) → n + 1 - 1 ≡ n
add_sub_1 n = omega arith

shared_page_lem :
    (flags : ℕ) (next : MemoryRange)
    → IsSegment next
    → shared_page flags next (first_page next) (first_page next + 1)
      ≡ ok (
          if ltb (first_page next + 1) (end_page next)
          then some (range_of flags (block (first_page next) (first_page next + 1)))
          else none)
unfolding shared_page
shared_page_lem flags next n =
    let e : Frage.from_index virt l0 (first_page next) ≡ ok (first_page next * 2 ^ 12) =
      from_index-page (first_page next) (ground arith) in
    rw
      (
        add_sub_1 (first_page next),
        e,
        add-page (first_page next) (ground arith),
        end_address-segment next n,
      )
      ground
      (
        arith,
        IsValid-from_index page (first_page next) (first_page next + 1),
        pages-IsValid (first_page next) (first_page next + 1),
      )

updated_start_lem :
    (curr next : MemoryRange) (before boundary : Option MemoryRange)
    → IsSegment curr
    → IsSegment next
    → updated_start curr before boundary (first_page next + 1)
      ≡ ok (elim boundary [
        | some _ ↦ (first_page next + 1) * 2 ^ 12
        | none ↦ elim before [ some _ ↦ first_page next * 2 ^ 12 | none ↦ curr.memory.start ]
      ])
unfolding updated_start
updated_start_lem curr next before (some _) c n =
    from_index-page (first_page next + 1) (ground arith)
updated_start_lem curr next (some _) none c n =
    rw (add_sub_1 (first_page next)) (from_index-page (first_page next) (ground arith))
updated_start_lem curr next none none c n = ap ok (omega arith)

-- The three ways in which the ranges come out.
module _ (curr next : MemoryRange) (c : IsSegment curr) (n : IsSegment next) where
  range_to_end :
      (start : ℕ)
      → start < next.memory.end
      → Block.from_index (addr virt) start next.memory.end ≡ ok (block start next.memory.end)
  range_to_end start h =
      IsValid-from_index (addr virt) start next.memory.end
        (addresses-IsValid start next.memory.end (omega arith) (ground arith))

  module _ (o : curr.memory.end ≤ next.memory.start) (h : first_page next < end_page curr) where
    same_page : ltb (first_page next) (first_page next + 1) ≡ true
    same_page = ground arith

    not_before : leb (end_page curr) (first_page next) ≡ false
    not_before = ground arith

    overlapping_lem :
        combine_overlapping curr next
          (block (first_page curr) (end_page curr))
          (block (first_page next) (end_page next))
        ≡ ok (after_combine curr next)
    unfolding combine_overlapping updated_flags after_combine
    overlapping_lem =
        let s : max (first_page curr) (first_page next) ≡ first_page next = omega arith in
        let e : min (end_page curr) (end_page next) ≡ first_page next + 1 = omega arith in
        rw
          (
            s,
            e,
            minus_next_lem curr next c n o h,
            shared_page_lem (bit_or curr.flags next.flags) next n,
            updated_start_lem curr next _ _ c n,
            end_address-segment next n,
          )
          (elim (Bool-cases (ltb (first_page next + 1) (end_page next))) [
            | inl b ↦
                rw (b, not_before, range_to_end ((first_page next + 1) * 2 ^ 12) (ground arith))
                  refl
            | inr b ↦ elim (Bool-cases (ltb (first_page curr) (first_page next))) [
              | inl d ↦
                  rw
                    (
                      b,
                      d,
                      same_page,
                      not_before,
                      range_to_end (first_page next * 2 ^ 12) (ground arith),
                    )
                    refl
              | inr d ↦
                  rw (b, d, same_page, not_before, range_to_end curr.memory.start (omega arith))
                    refl
            ]
          ])

pub pages_of-IsValid :
    (r : MemoryRange) → IsSegment r → IsValid page (block (first_page r) (end_page r))
pages_of-IsValid r s = pages-IsValid (first_page r) (end_page r) (omega arith) (ground arith)

validate_order_lem :
    (curr next : MemoryRange)
    → curr.memory.end ≤ next.memory.start
    → validate_order curr next ≡ ok tt
unfolding validate_order partial_cmp is_less
validate_order_lem curr next o = ground arith

pub disjoint_lem :
    (curr next : MemoryRange)
    → IsSegment curr
    → IsSegment next
    → curr.memory.end ≤ next.memory.start
    → is_disjoint page
        (block (first_page curr) (end_page curr))
        (block (first_page next) (end_page next))
      ≡ leb (end_page curr) (first_page next)
disjoint_lem curr next c n o = ground (
  arith,
  is_disjoint-Apart page (block (first_page curr) (end_page curr))
      (block (first_page next) (end_page next)) (pages_of-IsValid curr c) (pages_of-IsValid next n),
)

-- Of two segments that follow each other below the last page of the lower half, `combine` gives the
-- ranges that `after_combine` describes, and neither fails nor panics.
pub combine_lem :
    (curr next : MemoryRange)
    → IsSegment curr
    → IsSegment next
    → curr.memory.end ≤ next.memory.start
    → combine curr next ≡ ok (after_combine curr next)
unfolding combine after_combine
combine_lem curr next c n o =
    rw
      (
        validate_order_lem curr next o,
        enclosing_segment curr c,
        enclosing_segment next n,
        disjoint_lem curr next c n o,
      )
      (elim (Bool-cases (leb (end_page curr) (first_page next))) [
        | inl h ↦ rw h refl
        | inr h ↦ rw h (rw (overlapping_lem curr next c n o (ground arith)) (rw h refl))
      ])
