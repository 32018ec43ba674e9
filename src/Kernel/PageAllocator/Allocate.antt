-- ===== src/Kernel/PageAllocator/Allocate.antt =====
-- `allocate` gives out pages from the end of the free block, aligned as the layout wants.
use nikka.Common.{
  ℕ, zero, suc, ◌+◌, ◌-◌, ◌*◌, ◌/◌, ◌%◌, ◌^◌, ◌≤◌, ◌<◌, ◌≡◌, inl, inr, refl, sym, arith, ◌==◌,
  if◌then◌else◌, Bool-cases, ok, err, no_page,
}
use native.Mathlib.Decide.{dec_lt}
use native.Mathlib.Nat.{
  add-zero, mul-mod_right, mul-one, mul_assoc, pow-zero, pow-suc, pow-le-pow_right,
}
use nikka.Kernel.PageAllocator.{
  PageAllocator, div_ceil, enough, align_start, trim_end, extra_pages, allocate_tail, allocate,
}
use nikka.Kernel.Range.{page}
use nikka.Memory.Frage.{l0, bytes}
use nikka.Memory.Block.{Block, block, count, zero_block}
use nikka.Memory.Block.Valid.{IsValid, IsValid-from_index}
use nikka.Memory.Block.Parts.{IsValid-sub, tail_lem}

div_ceil-pages : (n : ℕ) → div_ceil (n * 4096) 4096 ≡ n
div_ceil-pages n = omega arith

page_mod : (s k : ℕ) → 0 < k → (s * 4096) % (k * 4096) ≡ (s % k) * 4096
page_mod s k h = grind arith

-- The number of pages to the next multiple of `k`.
abbrev pages_to_skip : ℕ → ℕ → ℕ
pages_to_skip s k = if s % k == 0 then 0 else k - s % k

aligned : (s k : ℕ) → 0 < k → (s + pages_to_skip s k) % k ≡ 0
aligned s k h = elim (Bool-cases (s % k == 0)) [
  | inl e ↦ rw e (ground arith)
  | inr e ↦
      let next : s + (k - s % k) ≡ k * (s / k + 1) = grind arith in
      rw (e, next, mul-mod_right k (s / k + 1)) refl
]

align_start_lem :
    (k needed : ℕ) (b : Block)
    → 1 < k
    → 0 < needed
    → IsValid page b
    → count b ≡ needed + k
    → (align_start needed (k * 4096) b ≡ ok (block (b.start + pages_to_skip b.start k) b.end))
      × IsValid page (block (b.start + pages_to_skip b.start k) b.end)
unfolding align_start enough
align_start_lem k needed b p h v c =
    let skip : div_ceil (k * 4096 - (b.start % k) * 4096) 4096 ≡ k - b.start % k = omega arith in
    let below : b.start % k < k = omega arith in
    let valid : IsValid page (block (b.start + pages_to_skip b.start k) b.end) =
      IsValid-sub page b (b.start + pages_to_skip b.start k) b.end v (omega arith) (ground arith)
        (omega arith) (ground arith) in
    (
      ground (
        arith,
        page_mod b.start k,
        skip,
        IsValid-from_index page (b.start + pages_to_skip b.start k) b.end valid,
      ),
      valid,
    )

trim_end_lem :
    (needed : ℕ) (b : Block)
    → IsValid page b
    → 0 < needed
    → needed ≤ count b
    → (trim_end needed b ≡ ok (block b.start (b.start + needed)))
      × IsValid page (block b.start (b.start + needed))
unfolding trim_end
trim_end_lem needed b v h p =
    let valid =
      IsValid-sub page b b.start (b.start + needed) v (omega arith) (omega arith) (omega arith)
        (omega arith) in
    (ground (arith, IsValid-from_index page b.start (b.start + needed) valid), valid)

-- The pages that a request takes off the free block, those for its alignment included.
abbrev pub taken : ℕ → ℕ → ℕ
taken size alignment = div_ceil size (bytes l0) + extra_pages alignment

-- What a request for `size` bytes got of the allocator `self`.
pub record Gives (self : PageAllocator) (size alignment : ℕ) (b : Block) : Type 0 where
  pub given : allocate self size alignment ≡ (
    record self { block = block self.block.start (self.block.end - taken size alignment) },
    ok b,
  )
  pub is_valid : IsValid page b
  pub rest_is_valid : IsValid page (block self.block.start (self.block.end - taken size alignment))
  pub is_exact : count b ≡ div_ceil size (bytes l0)
  pub behind_rest : self.block.end - taken size alignment ≤ b.start
  pub within_block : b.end ≤ self.block.end
  pub is_aligned : (b.start * bytes l0) % alignment ≡ 0

pow_add : (x a b : ℕ) → x ^ (a + b) ≡ x ^ a * x ^ b
pow_add x a zero = grind (arith, pow-zero x, mul-one (x ^ a))
pow_add x a (suc b) =
    let e : a + suc b ≡ suc (a + b) = omega arith in
    rw (e, pow-suc x (a + b), pow-suc x b, pow_add x a b) (mul_assoc (x ^ a) (x ^ b) x)

page_aligned : (j s : ℕ) → j ≤ 12 → (s * 4096) % 2 ^ j ≡ 0
page_aligned j s h =
    let at : j + (12 - j) ≡ 12 = omega arith in
    let whole : 4096 ≡ 2 ^ j * 2 ^ (12 - j) = rw at at (pow_add 2 j (12 - j)) in
    let e : s * 4096 ≡ 2 ^ j * (2 ^ (12 - j) * s) = grind arith in
    rw (e, mul-mod_right (2 ^ j) (2 ^ (12 - j) * s)) refl

allocate-small :
    (self : PageAllocator) (size j : ℕ)
    → j ≤ 12
    → IsValid page self.block
    → 0 < size
    → taken size (2 ^ j) ≤ count self.block
    → (b : Block) × Gives self size (2 ^ j) b
unfolding allocate allocate_tail align_start
allocate-small self size j q v p fits =
    let needed = div_ceil size 4096 in
    let some : 0 < needed = omega arith in
    let low : 2 ^ j ≤ 2 ^ 12 = pow-le-pow_right (omega arith) q in
    let extra : extra_pages (2 ^ j) ≡ 0 = ground arith in
    let cut = (tail_lem page self.block needed v).0 some (omega arith) in
    (
      block (self.block.end - needed) self.block.end,
      record {
        given = rw (extra, add-zero needed, cut.0) (ground arith);
        is_valid = cut.2;
        rest_is_valid = rw (extra, add-zero needed) cut.1;
        is_exact = omega arith;
        behind_rest = omega arith;
        within_block = omega arith;
        is_aligned = page_aligned j (self.block.end - needed) q;
      },
    )

allocate-large :
    (self : PageAllocator) (size k : ℕ)
    → 1 < k
    → IsValid page self.block
    → 0 < size
    → taken size (k * 4096) ≤ count self.block
    → (b : Block) × Gives self size (k * 4096) b
unfolding allocate allocate_tail
allocate-large self size k q v p fits =
    let needed = div_ceil size 4096 in
    let some : 0 < needed = omega arith in
    let extra : extra_pages (k * 4096) ≡ k = ground (arith, div_ceil-pages k) in
    let enough : needed + k ≤ count self.block = omega arith in
    let cut = (tail_lem page self.block (needed + k) v).0 (omega arith) enough in
    let s = self.block.end - (needed + k) in
    let start = s + pages_to_skip s k in
    let start_lem = align_start_lem k needed (block s self.block.end) q some cut.2 (omega arith) in
    let below : s % k < k = omega arith in
    let end_lem =
      trim_end_lem needed (block start self.block.end) start_lem.1 some (ground arith) in
    (
      block start (start + needed),
      record {
        given = rw (extra, cut.0, start_lem.0, end_lem.0) (ground arith);
        is_valid = end_lem.1;
        rest_is_valid = rw extra cut.1;
        is_exact = omega arith;
        behind_rest = omega arith;
        within_block = ground arith;
        is_aligned = rw (page_mod start k (omega arith), aligned s k (omega arith)) refl;
      },
    )

-- A request for bytes that fits the valid free block, for any power of two as its alignment, gets a
-- valid block of exactly the pages it needs, aligned as it asks. The block lies in what was cut off
-- the end of the free block, which stays valid.
pub allocate-Gives :
    (self : PageAllocator) (size j : ℕ)
    → IsValid page self.block
    → 0 < size
    → taken size (2 ^ j) ≤ count self.block
    → (b : Block) × Gives self size (2 ^ j) b
allocate-Gives self size j v p fits = elim (dec_lt 12 j) [
  | no q ↦ allocate-small self size j (omega arith) v p fits
  | yes q ↦
      let at : j - 12 + 12 ≡ j = omega arith in
      let e : 2 ^ (j - 12) * 4096 ≡ 2 ^ j = sym (rw at at (pow_add 2 (j - 12) 12)) in
      let two : 2 ^ 1 ≤ 2 ^ (j - 12) = pow-le-pow_right (omega arith) {i = 1} (omega arith) in
      rw e at (allocate-large self size (2 ^ (j - 12)) two v p (rw e fits))
]

-- A request for no bytes gets the empty block, one that does not fit fails, and neither changes the
-- allocator.
pub allocate-refused :
    (self : PageAllocator) (size alignment : ℕ)
    → (size ≡ 0 → allocate self size alignment ≡ (self, ok zero_block))
      × (0 < size
          → count self.block < taken size alignment
          → allocate self size alignment ≡ (self, err no_page))
unfolding allocate
allocate-refused self size alignment = (λ p. ground arith, λ p q. ground arith)
