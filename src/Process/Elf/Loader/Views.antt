-- ===== src/Process/Elf/Loader/Views.antt =====
-- What the loader's pair of allocators promises, for two different address spaces, in terms of what can
-- be seen of it.
use nikka.Common.{
  Bool, false, ℕ, ◌+◌, ◌-◌, ◌*◌, ◌^◌, ◌≤◌, ◌<◌, ◌≡◌, refl, zero, suc, [], ◌∷◌, ◌∙◌, true, ◌&&◌,
  Option, some, List, ltb, leb, if◌then◌else◌, ok, length,
}
use nikka.Memory.Addr.{half_size}
use nikka.Memory.Block.{Block, block, count, size}
use nikka.Kernel.Range.{page}
use nikka.Process.Elf.Loader.{BigAllocatorPair, FileRange}

-- Pages of the lower half; the page of the null pointer is not among them.
pub record IsLower (b : Block) : Type 0 where
  pub ordered : b.start ≤ b.end
  pub lower : b.end * 2 ^ 12 ≤ half_size
  pub placed : b.start < b.end → 0 < b.start

abbrev pub inside : Block → ℕ → Bool
inside b p = leb b.start p && ltb p b.end

-- The byte of a list, and 0 beyond it.
abbrev pub byte_at : List ℕ → ℕ → ℕ
byte_at [] k = 0
byte_at (x ∷ xs) zero = x
byte_at (x ∷ xs) (suc k) = byte_at xs k

-- The bytes of memory with a segment in it: its bytes of the file, and behind them zeros.
abbrev pub image_of : List ℕ → FileRange → (ℕ → ℕ) → ℕ → ℕ
image_of file r before x =
    let start = r.virt_range.memory.start in
    if inside r.virt_range.memory x
    then (if ltb (x - start) (r.file_end - r.file_start)
        then byte_at file (r.file_start + (x - start))
        else 0)
    else before x

-- What can be seen of the two address spaces.
pub record View (A : Type 0) : Type 1 where
  -- The flags that a page of the target is mapped with, and whether it is reserved.
  pub mapped : A → ℕ → Option ℕ
  pub taken : A → ℕ → Bool
  -- How many pages the current address space can still get.
  pub room : A → ℕ
  -- A block that `grow` has given, and the byte at an address of the current address space.
  pub own : A → Block → Type 0
  pub byte : A → ℕ → ℕ
  -- A page of the target has the frame of a page of the current address space.
  pub shares : A → ℕ → ℕ → Type 0

module _ {A : Type 0} (pair : BigAllocatorPair A) (v : View A) where
  -- Neither the mapped pages of the target nor its flags differ.
  pub record IsSame (a b : A) : Type 0 where
    pub pages : (p : ℕ) → v.mapped b p ≡ v.mapped a p
    pub flags : pair.dst_flags b ≡ pair.dst_flags a

  abbrev pub SameTaken : A → A → Type 0
  SameTaken a c = (p : ℕ) → v.taken c p ≡ v.taken a p

  -- The same pages of the target have the frames of the pages of a block, which may be another one.
  abbrev pub Follow : A → A → Block → Block → Type 0
  Follow a c b d = (p i : ℕ) → i < count b → v.shares a p (b.start + i) → v.shares c p (d.start + i)

  -- The bytes of a block, by their offset.
  abbrev pub at : A → Block → ℕ → ℕ
  at a d j = v.byte a (d.start * 2 ^ 12 + j)

  -- A block was written: what was at the offset is now that of `now`.
  pub record Writes (a c : A) (d : Block) (now : ℕ → ℕ) : Type 0 where
    pub same : IsSame a c
    pub taken : SameTaken a c
    pub room : v.room c ≡ v.room a
    pub own : v.own c d
    pub bytes : (j : ℕ) → j < size page d → at c d j ≡ now j
    pub follow : Follow a c d d

  -- What the documentation of the traits says, while there is room: `reserve_fixed` succeeds for pages
  -- that are not reserved, `grow` while the pages suffice, and `copy_mapping` to reserved pages.
  pub record HasRoom : Type 0 where
    pub starts_own : (a : A) → v.own a (block 0 0)
    pub reserves :
        (a : A) (b : Block)
        → ((p : ℕ) → inside b p ≡ true → v.taken a p ≡ false)
        → (c : A) × (pair.reserve_fixed a b ≡ ok c)
          × IsSame a c
          × ((p : ℕ) → v.taken c p ≡ (if inside b p then true else v.taken a p))
          × (v.room c ≡ v.room a)
          × ((d : Block)
              → v.own a d
              → v.own c d × ((j : ℕ) → j < size page d → at c d j ≡ at a d j) × Follow a c d d)
    pub grows :
        (a : A) (b : Block) (n f : ℕ)
        → v.own a b
        → count b < n
        → n * 2 ^ 12 ≤ half_size
        → n - count b ≤ v.room a
        → (c : A) × (d : Block) × (pair.grow a b n f ≡ ok (c, d))
          × IsLower d
          × (count d ≡ n)
          × IsSame a c
          × SameTaken a c
          × (v.room a ≤ v.room c + (n - count b))
          × v.own c d
          × ((j : ℕ) → j < size page b → at c d j ≡ at a b j)
          × Follow a c b d
    pub slices :
        (a : A) (b : Block) → IsLower b → b.start < b.end → pair.try_into_mut_slice a b ≡ ok tt
    pub copies :
        (a : A) (d : Block) (from : ℕ) (bytes : List ℕ)
        → v.own a d
        → from + length bytes ≤ size page d
        → Writes a (pair.copy_from_slice a d from bytes) d (λ j.
          if leb from j && ltb j (from + length bytes) then byte_at bytes (j - from) else at a d j)
    -- Of a part of the block, which starts at the page `k` of it.
    pub fills :
        (a : A) (d : Block) (k from to byte : ℕ)
        → v.own a d
        → k ≤ count d
        → k * 2 ^ 12 + to ≤ size page d
        → Writes a
            (pair.fill a (block (d.start + k) d.end) from to byte)
            d
            (λ j. if leb (k * 2 ^ 12 + from) j && ltb j (k * 2 ^ 12 + to) then byte else at a d j)
    pub maps :
        (a : A) (d : Block) (k n : ℕ) (dst : Block) (f : ℕ)
        → v.own a d
        → k + n ≤ count d
        → count dst ≡ n
        → ((p : ℕ) → inside dst p ≡ true → v.taken a p ≡ true)
        → (c : A) × (pair.copy_mapping a (block (d.start + k) (d.start + k + n)) dst f ≡ ok c)
          × ((p : ℕ) → v.mapped c p ≡ (if inside dst p then some f else v.mapped a p))
          × (pair.dst_flags c ≡ pair.dst_flags a)
          × SameTaken a c
          × (v.room c ≡ v.room a)
          × v.own c d
          × ((j : ℕ) → j < size page d → at c d j ≡ at a d j)
          × ((i : ℕ) → i < n → v.shares c (dst.start + i) (d.start + k + i))
          × ((p i : ℕ) → inside dst p ≡ false → v.shares a p i → v.shares c p i)

  pub IsSame-refl : (a : A) → IsSame a a
  IsSame-refl a = record { pages = λ p. refl; flags = refl }

  pub IsSame-trans : (a b c : A) → IsSame a b → IsSame b c → IsSame a c
  IsSame-trans a b c h k = record { pages = λ p. k.pages p ∙ h.pages p; flags = k.flags ∙ h.flags }

  -- The state of the block in the current address space, whose first page stands for the page `s` of the
  -- target: it holds the bytes `image` of the target, the pages of the target that are `done` have
  -- its frames, and with the pages that are left it can grow to `limit`.
  pub record Holds (a : A) (d : Block) (s : ℕ) (image : ℕ → ℕ) (done : ℕ → Type 0) (limit : ℕ)
      : Type 0 where
    pub lower : IsLower d
    pub own : v.own a d
    pub bytes : (j : ℕ) → j < size page d → at a d j ≡ image (s * 2 ^ 12 + j)
    pub shown : (p : ℕ) → done p → (s ≤ p) × (p - s < count d) × v.shares a p (d.start + (p - s))
    pub enough : limit ≤ v.room a + count d
