-- ===== src/Memory/Block/Parts.antt =====
-- Blocks that are made of other blocks.
use nikka.Common.{
  ℕ, ◌+◌, ◌-◌, ◌≤◌, ◌<◌, ◌≡◌, ◌≢◌, ◌⊎◌, ◌&&◌, arith, Bool-cases, inl, inr, leb, ◌==◌, if◌then◌else◌,
  ok, err, some, none, min, max, refl, invalid_argument,
}
use nikka.Memory.Addr.{phys, virt}
use nikka.Memory.Frage.{l0}
use nikka.Memory.Block.{
  Memory, addr, frage, Block, block, zero_block, count, contains_index, intersection, coalesce,
  slice, tail, is_adjacent,
}
use nikka.Memory.Block.Valid.{IsValid, address_by_index_lem, IsValid-from_index}

-- A block within a valid one is valid, if it starts at an address.
pub IsValid-sub :
    (memory : Memory) (b : Block) (start end : ℕ)
    → IsValid memory b
    → b.start ≤ start
    → start ≤ end
    → end ≤ b.end
    → start < b.end
    → IsValid memory (block start end)
IsValid-sub (addr phys) b start end v p q r s = ground arith
IsValid-sub (frage phys l0) b start end v p q r s = ground arith
IsValid-sub (frage virt l0) b start end v p q r s = ground arith
IsValid-sub memory b start end v p q r s = ground arith

zero_block-IsValid : (memory : Memory) → IsValid memory zero_block
zero_block-IsValid (addr phys) = omega arith
zero_block-IsValid (frage phys l0) = omega arith
zero_block-IsValid (frage virt l0) = omega arith
zero_block-IsValid memory = omega arith

-- The bounds that two blocks have in common.
abbrev pub common : Block → Block → Block
common b c =
    if leb (max b.start c.start) (min b.end c.end)
    then block (max b.start c.start) (min b.end c.end)
    else zero_block

common-IsValid :
    (memory : Memory) (b c : Block)
    → IsValid memory b
    → IsValid memory c
    → max b.start c.start ≤ min b.end c.end
    → IsValid memory (block (max b.start c.start) (min b.end c.end))
common-IsValid (addr phys) b c v w h = ground arith
common-IsValid (frage phys l0) b c v w h = ground arith
common-IsValid (frage virt l0) b c v w h = ground arith
common-IsValid memory b c v w h = ground arith

intersection-common :
    (memory : Memory) (b c : Block)
    → IsValid memory b
    → IsValid memory c
    → (intersection memory b c ≡ ok (common b c)) × IsValid memory (common b c)
unfolding intersection
intersection-common memory b c v w =
    elim (Bool-cases (leb (max b.start c.start) (min b.end c.end))) [
      | inl t ↦
          let valid = common-IsValid memory b c v w (ground arith) in
          rw t (rw (IsValid-from_index memory _ _ valid) refl, valid)
      | inr f ↦ rw f (refl, zero_block-IsValid memory)
    ]

-- The intersection of valid blocks never panics. It is a valid block that contains exactly the
-- indexes that both blocks contain.
pub intersection_lem :
    (memory : Memory) (b c : Block)
    → IsValid memory b
    → IsValid memory c
    → (d : Block) × (intersection memory b c ≡ ok d)
      × IsValid memory d
      × ((i : ℕ) → contains_index d i ≡ (contains_index b i && contains_index c i))
intersection_lem memory b c v w =
    let (made, valid) = intersection-common memory b c v w in
    (common b c, made, valid, λ i. ground arith)

-- `slice` of a valid block, by a range that starts within it, is that part of the block, and valid.
-- A range that is reversed or that ends outside the block has none.
pub slice_lem :
    (memory : Memory) (b : Block) (s e : ℕ)
    → IsValid memory b
    → (s ≤ e
        → e ≤ count b
        → s < count b
        → (slice memory b s e ≡ ok (some (block (b.start + s) (b.start + e))))
          × IsValid memory (block (b.start + s) (b.start + e)))
      × ((e < s) ⊎ (count b < e) → slice memory b s e ≡ ok none)
unfolding slice
slice_lem memory b s e v = (
  λ p q r.
      let valid =
        IsValid-sub memory b (b.start + s) (b.start + e) v (omega arith) (omega arith) (omega arith)
          (omega arith) in
      (ground (arith, IsValid-from_index memory (b.start + s) (b.start + e) valid), valid),
  λ h. ground arith,
)

-- `tail` cuts the last `n` elements, at least one, off a valid block: the block that is left and the
-- new one are valid, and meet where the old one is cut. A block of fewer elements stays whole.
pub tail_lem :
    (memory : Memory) (b : Block) (n : ℕ)
    → IsValid memory b
    → (0 < n
        → n ≤ count b
        → (tail memory b n ≡ ok (block b.start (b.end - n), some (block (b.end - n) b.end)))
          × IsValid memory (block b.start (b.end - n))
          × IsValid memory (block (b.end - n) b.end))
      × (count b < n → tail memory b n ≡ ok (b, none))
unfolding tail
tail_lem memory b n v = (
  λ p q.
      let left =
        IsValid-sub memory b b.start (b.end - n) v (omega arith) (omega arith) (omega arith)
          (omega arith) in
      let cut =
        IsValid-sub memory b (b.end - n) b.end v (omega arith) (omega arith) (omega arith)
          (omega arith) in
      (ground (arith, IsValid-from_index memory (b.end - n) b.end cut), left, cut),
  λ h. ground arith,
)

is_adjacent_lem :
    (memory : Memory) (b c : Block)
    → IsValid memory b
    → IsValid memory c
    → is_adjacent memory b c ≡ (b.end == c.start)
unfolding is_adjacent
is_adjacent_lem (addr phys) b c v w = ground (arith, address_by_index_lem (addr phys) b.end v.fits)
is_adjacent_lem (frage phys l0) b c v w =
    ground (arith, address_by_index_lem (frage phys l0) b.end v.fits)
is_adjacent_lem (frage virt l0) b c v w =
    ground (arith, address_by_index_lem (frage virt l0) b.end v.fits)
is_adjacent_lem memory b c v w = ground (arith, address_by_index_lem memory b.end v.fits)

joined-IsValid :
    (memory : Memory) (b c : Block)
    → IsValid memory b
    → IsValid memory c
    → b.end ≡ c.start
    → IsValid memory (block b.start c.end)
joined-IsValid (addr phys) b c v w h = ground arith
joined-IsValid (frage phys l0) b c v w h = ground arith
joined-IsValid (frage virt l0) b c v w h = ground arith
joined-IsValid memory b c v w h = ground arith

-- Valid blocks coalesce exactly if the second starts where the first ends, into the valid block from
-- the start of the one to the end of the other. Else `coalesce` fails; it never panics.
pub coalesce_lem :
    (memory : Memory) (b c : Block)
    → IsValid memory b
    → IsValid memory c
    → (b.end ≡ c.start
        → (coalesce memory b c ≡ ok (block b.start c.end)) × IsValid memory (block b.start c.end))
      × (b.end ≢ c.start → coalesce memory b c ≡ err invalid_argument)
unfolding coalesce
coalesce_lem memory b c v w = (
  λ h.
      let valid = joined-IsValid memory b c v w h in
      (
        ground
            (arith, is_adjacent_lem memory b c v w, IsValid-from_index memory b.start c.end valid),
        valid,
      ),
  λ h. ground (arith, is_adjacent_lem memory b c v w),
)
