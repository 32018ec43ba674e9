-- ===== src/Process/Elf/Loader/Steps.antt =====
-- The loader reserves and grows.
use Prim.Native.Nat.{bit_or}
use nikka.Common.{
  false, sym, ℕ, ◌+◌, ◌-◌, ◌*◌, ◌/◌, ◌^◌, ◌≤◌, ◌<◌, ◌≡◌, refl, zero, suc, [], ◌∷◌, sub_usize, ◌∙◌,
  true, ◌&&◌, arith, some, List, ltb, leb, if◌then◌else◌, ok, length, add_usize, Bool-cases, inl,
  inr,
}
use nikka.Memory.Addr.{virt, half_size}
use nikka.Memory.Frage.{l0}
use nikka.Memory.Frage
use nikka.Memory.Frage.Index.{containing_lem}
use nikka.Memory.Block.{Block, block, addr, enclosing, is_disjoint, is_empty, count, size}
use nikka.Memory.Block
use nikka.Memory.Block.Valid.{IsValid-from_index}
use nikka.Kernel.Range.{page}
use nikka.Process.Elf.Combine.{IsSegment, first_page, end_page, enclosing_segment, pages-IsValid}
use nikka.Process.Elf.Loader.{
  BigAllocatorPair, FileRange, Loader, get_range, skip, first, dst_new_pages, first_start_addr,
  reserve_new_pages, grow_src_block, extend_mapping, writable,
}
use nikka.Process.Elf.Loader.Views.{
  IsLower, inside, byte_at, View, IsSame, SameTaken, at, HasRoom, IsSame-refl, IsSame-trans, Holds,
}

-- A segment whose bytes stand in the file and fill its memory at most.
pub record IsLoadable (file : List ℕ) (r : FileRange) : Type 0 where
  pub segment : IsSegment r.virt_range
  pub ordered : r.file_start ≤ r.file_end
  pub present : r.file_end ≤ length file
  pub no_longer : r.file_end - r.file_start ≤ count r.virt_range.memory

length-skip : (n : ℕ) (xs : List ℕ) → length (skip n xs) ≡ length xs - n
unfolding skip
length-skip zero xs = omega arith
length-skip (suc n) [] = omega arith
length-skip (suc n) (x ∷ xs) = omega (arith, length-skip n xs)

length-first : (n : ℕ) (xs : List ℕ) → n ≤ length xs → length (first n xs) ≡ n
unfolding first
length-first zero xs h = refl
length-first (suc n) [] h = absurd (omega arith)
length-first (suc n) (x ∷ xs) h = omega (arith, length-first n xs)

byte_at-skip : (n : ℕ) (xs : List ℕ) (k : ℕ) → byte_at (skip n xs) k ≡ byte_at xs (n + k)
unfolding skip
byte_at-skip zero xs k = let e : 0 + k ≡ k = omega arith in rw e refl
byte_at-skip (suc n) [] k = refl
byte_at-skip (suc n) (x ∷ xs) k =
    let e : suc n + k ≡ suc (n + k) = omega arith in rw e (byte_at-skip n xs k)

byte_at-first : (n : ℕ) (xs : List ℕ) (k : ℕ) → k < n → byte_at (first n xs) k ≡ byte_at xs k
unfolding first
byte_at-first zero xs k lt = absurd (omega arith)
byte_at-first (suc n) [] k lt = refl
byte_at-first (suc n) (x ∷ xs) zero lt = refl
byte_at-first (suc n) (x ∷ xs) (suc k) lt = byte_at-first n xs k (omega arith)

pub get_range_lem :
    (file : List ℕ) (r : FileRange)
    → IsLoadable file r
    → (bytes : List ℕ) × (get_range file r.file_start r.file_end ≡ some bytes)
      × (length bytes ≡ r.file_end - r.file_start)
      × ((k : ℕ)
          → k < r.file_end - r.file_start
          → byte_at bytes k ≡ byte_at file (r.file_start + k))
unfolding get_range
get_range_lem file r l =
    let start : leb r.file_start r.file_end ≡ true = ground arith in
    let end : leb r.file_end (length file) ≡ true = ground arith in
    (
      first (r.file_end - r.file_start) (skip r.file_start file),
      rw (start, end) refl,
      length-first (r.file_end - r.file_start) (skip r.file_start file)
          (omega (arith, length-skip r.file_start file)),
      λ k lt.
          byte_at-first (r.file_end - r.file_start) (skip r.file_start file) k lt
          ∙ byte_at-skip r.file_start file k,
    )

-- The loader with a new block, whose first page stands for the page `s` of the target.
abbrev pub extended : {A : Type 0} → Loader A → ℕ → A → Block → Loader A
extended self s a d = record self {
  allocator = a;
  src_block = d;
  src_block_start_addr = some (s * 2 ^ 12);
}

-- The page of a multiple of the page size.
pub containing-page :
    (s : ℕ) → s * 2 ^ 12 < half_size → Frage.containing virt l0 (s * 2 ^ 12) ≡ ok (s * 2 ^ 12)
containing-page s h = ground (arith, containing_lem virt l0 (s * 2 ^ 12))

pub index-page : (s : ℕ) → Frage.index l0 (s * 2 ^ 12) ≡ s
unfolding Frage.index
index-page s = omega arith

module _ {A : Type 0} (pair : BigAllocatorPair A) (v : View A) (room : HasRoom pair v) where
  -- The new pages are taken, and nothing else differs.
  abbrev pub Takes : Block → A → A → Type 0
  Takes b a c = (p : ℕ) → v.taken c p ≡ (if inside b p then true else v.taken a p)

  -- A block of `n` pages, of which all but the first are filled with 0.
  filled_lem :
      (a c : A) (b d : Block) (n : ℕ) (image : ℕ → ℕ) (s j : ℕ)
      → count d ≡ n
      → j < size page d
      → ((j : ℕ) → j < size page b → at pair v c d j ≡ at pair v a b j)
      → ((j : ℕ) → j < size page b → at pair v a b j ≡ image (s * 2 ^ 12 + j))
      → ((x : ℕ) → (s + count b) * 2 ^ 12 ≤ x → image x ≡ 0)
      → (if leb (count b * 2 ^ 12 + 0) j
            && ltb j (count b * 2 ^ 12 + size page (block (d.start + count b) d.end))
          then 0
          else at pair v c d j)
        ≡ image (s * 2 ^ 12 + j)
  filled_lem a c b d n image s j e lt same held blank = elim (Bool-cases (ltb j (size page b))) [
    | inl old ↦
        let k : j < size page b = ground arith in
        let out : leb (count b * 2 ^ 12 + 0) j ≡ false = ground arith in
        rw out (same j k ∙ held j k)
    | inr new ↦
        let low : leb (count b * 2 ^ 12 + 0) j ≡ true = ground arith in
        let high : ltb j (count b * 2 ^ 12 + size page (block (d.start + count b) d.end)) ≡ true =
          ground arith in
        rw (low, high) (sym (blank (s * 2 ^ 12 + j) (ground arith)))
  ]

  module _ (s : ℕ) (image : ℕ → ℕ) (done : ℕ → Type 0) (limit : ℕ) where
    reserve_lem :
        (a : A) (b d : Block)
        → Holds pair v a d s image done limit
        → ((p : ℕ) → inside b p ≡ true → v.taken a p ≡ false)
        → (c : A) × (reserve_new_pages pair a b ≡ ok c)
          × IsSame pair v a c
          × Takes b a c
          × Holds pair v c d s image done limit
    unfolding reserve_new_pages
    reserve_lem a b d g free = elim (Bool-cases (is_empty b)) [
      | inl h ↦ (
        a,
        rw h refl,
        IsSame-refl pair v a,
        λ p. let e : inside b p ≡ false = ground arith in rw e refl,
        g,
      )
      | inr h ↦
          let (c, e, same, taken, left, keep) = room.reserves a b free in
          let (own, bytes, follow) = keep d g.own in
          (
            c,
            rw (h, e) refl,
            same,
            taken,
            record {
              lower = g.lower;
              own = own;
              bytes = λ j lt. bytes j lt ∙ g.bytes j lt;
              shown = λ p q. let (le, lt, sh) = g.shown p q in (le, lt, follow p (p - s) lt sh);
              enough = rw left g.enough;
            },
          )
    ]

    grow_lem :
        (a : A) (b : Block) (n : ℕ)
        → Holds pair v a b s image done limit
        → n * 2 ^ 12 ≤ half_size
        → n ≤ limit
        → ((x : ℕ) → (s + count b) * 2 ^ 12 ≤ x → image x ≡ 0)
        → (c : A) × (d : Block) × (grow_src_block pair a b n ≡ ok (c, d))
          × (n ≤ count d)
          × IsSame pair v a c
          × SameTaken pair v a c
          × Holds pair v c d s image done limit
    unfolding grow_src_block
    grow_lem a b n g h le blank = elim (Bool-cases (ltb (count b) n)) [
      | inl k ↦
          let enough = g.enough in
          let (c, d, e, w, f, same, taken, left, own, bytes, follow) =
            room.grows a b n (bit_or (pair.src_flags a) writable) g.own (ground arith) h
              (omega arith) in
          let ordered = w.ordered in
          let lower = w.lower in
          let more : count b < n = ground arith in
          let placed = w.placed (omega arith) in
          let fits : leb n ((2 ^ 63 - 1) / 2 ^ 12) ≡ true = ground arith in
          let start : add_usize d.start (count b) ≡ ok (d.start + count b) = ground arith in
          let new = block (d.start + count b) d.end in
          let new_IsLower : IsLower new = record {
            ordered = omega arith;
            lower = lower;
            placed = λ z. omega arith;
          } in
          let tail : Block.from_index page (d.start + count b) d.end ≡ ok new =
            IsValid-from_index page (d.start + count b) d.end
              (pages-IsValid (d.start + count b) d.end (ground arith) w.lower) in
          let wrote =
            room.fills c d (count b) 0 (size page new) 0 own (omega arith) (omega arith) in
          (
            pair.fill c new 0 (size page new) 0,
            d,
            rw (k, fits, e, start, tail, room.slices c new new_IsLower (omega arith)) refl,
            omega arith,
            IsSame-trans pair v a c _ same wrote.same,
            λ p. wrote.taken p ∙ taken p,
            record {
              lower = w;
              own = wrote.own;
              bytes = λ j lt.
                  wrote.bytes j lt
                  ∙ filled_lem a c b d n image s j (omega arith) lt bytes g.bytes blank;
              shown = λ p q.
                  let (less, lt, sh) = g.shown p q in
                  (
                    less,
                    omega arith,
                    wrote.follow p (p - s) (omega arith) (follow p (p - s) lt sh),
                  );
              enough = omega (arith, wrote.room);
            },
          )
      | inr k ↦ (a, b, rw k refl, ground arith, IsSame-refl pair v a, λ p. refl, g)
    ]

    module _ (self : Loader A) (next : FileRange)
        (held : Holds pair v self.allocator self.src_block s image done limit) where
      abbrev pub pages : Block
      pages = block (first_page next.virt_range) (end_page next.virt_range)

      pub extend_lem :
          (new : Block)
          → IsSegment next.virt_range
          → dst_new_pages self.curr pages ≡ ok new
          → first_start_addr self.curr self.src_block_start_addr pages ≡ some (s * 2 ^ 12)
          → s ≤ first_page next.virt_range
          → end_page next.virt_range ≤ s + limit
          → ((p : ℕ) → inside new p ≡ true → v.taken self.allocator p ≡ false)
          → ((x : ℕ) → (s + count self.src_block) * 2 ^ 12 ≤ x → image x ≡ 0)
          → (a : A) × (d : Block) × (extend_mapping pair self next ≡ ok (extended self s a d))
            × (end_page next.virt_range - s ≤ count d)
            × IsSame pair v self.allocator a
            × Takes new self.allocator a
            × Holds pair v a d s image done limit
      unfolding extend_mapping
      extend_lem new n e f h within free blank =
          let (b, r, sb, taken, held_b) = reserve_lem self.allocator new self.src_block held free in
          let (c, d, g, k, sc, kept, held_c) =
            grow_lem b self.src_block (end_page next.virt_range - s) held_b (ground arith)
              (omega arith) blank in
          let total : sub_usize (end_page next.virt_range) s ≡ ok (end_page next.virt_range - s) =
            ground arith in
          (
            c,
            d,
            rw
                (
                  enclosing_segment next.virt_range n,
                  e,
                  f,
                  r,
                  containing-page s (ground arith),
                  index-page s,
                  total,
                  g,
                )
                refl,
            k,
            IsSame-trans pair v self.allocator b c sb sc,
            λ p. kept p ∙ taken p,
            held_c,
          )
