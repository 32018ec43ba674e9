-- ===== src/Process/Elf/Loader/Moves.antt =====
-- The loader copies a segment, and moves pages to the target.
use Prim.Native.Nat.{bit_or}
use nikka.Common.{
  false, List, ltb, leb, ◌&&◌, if◌then◌else◌, subst, ap, ◌∙◌, ◌<◌, ◌⊎◌, ℕ, ◌+◌, ◌-◌, ◌*◌, ◌^◌, ◌≤◌,
  ◌≡◌, refl, true, arith, some, ok, length, Bool-cases, inl, inr, add_usize, sub_usize,
}
use nikka.Memory.Addr.{virt}
use nikka.Memory.Block.{Block, block, addr, is_empty, count, size, start_address}
use nikka.Memory.Block
use nikka.Memory.Block.Valid.{IsValid-from_index}
use nikka.Kernel.Range.{page}
use nikka.Process.Elf.{MemoryRange}
use nikka.Process.Elf.Combine.{IsSegment, first_page, end_page, pages-IsValid}
use nikka.Process.Elf.Flags.{put}
use nikka.Process.Elf.Loader.{
  BigAllocatorPair, FileRange, Loader, within_slice, copy_to_memory, finalize_mapping,
}
use nikka.Process.Elf.Loader.Views.{
  inside, byte_at, image_of, View, IsSame, SameTaken, at, Writes, HasRoom, IsSame-trans, Holds,
}
use nikka.Process.Elf.Loader.Steps.{IsLoadable, get_range_lem, containing-page, index-page}

-- The bytes of a segment between those before it.
segment_lem :
    (file bytes : List ℕ) (r : FileRange) (image : ℕ → ℕ) (s o j : ℕ)
    → o + s * 2 ^ 12 ≡ r.virt_range.memory.start
    → r.virt_range.memory.start ≤ r.virt_range.memory.end
    → length bytes ≡ r.file_end - r.file_start
    → length bytes ≤ count r.virt_range.memory
    → ((k : ℕ) → k < r.file_end - r.file_start → byte_at bytes k ≡ byte_at file (r.file_start + k))
    → (if leb (o + length bytes) j && ltb j (o + count r.virt_range.memory)
        then 0
        else if leb o j && ltb j (o + length bytes)
        then byte_at bytes (j - o)
        else image (s * 2 ^ 12 + j))
      ≡ image_of file r image (s * 2 ^ 12 + j)
segment_lem file bytes r image s o j e ordered len fits same =
    elim (Bool-cases (ltb (s * 2 ^ 12 + j) r.virt_range.memory.start)) [
      | inl before ↦
          let p : leb (o + length bytes) j ≡ false = ground arith in
          let q : leb o j ≡ false = ground arith in
          let out : inside r.virt_range.memory (s * 2 ^ 12 + j) ≡ false = ground arith in
          rw (p, q, out) refl
      | inr later ↦ elim (Bool-cases (ltb j (o + length bytes))) [
        | inl in_file ↦
            let p : leb (o + length bytes) j ≡ false = ground arith in
            let q : leb o j ≡ true = ground arith in
            let within : inside r.virt_range.memory (s * 2 ^ 12 + j) ≡ true = ground arith in
            let place : s * 2 ^ 12 + j - r.virt_range.memory.start ≡ j - o = ground arith in
            let lt : j - o < r.file_end - r.file_start = ground arith in
            let test : ltb (j - o) (r.file_end - r.file_start) ≡ true = ground arith in
            rw (p, q, in_file, within, place, test) (same (j - o) lt)
        | inr behind ↦
            let p : leb (o + length bytes) j ≡ true = ground arith in
            elim (Bool-cases (ltb j (o + count r.virt_range.memory))) [
              | inl zeros ↦
                  let within : inside r.virt_range.memory (s * 2 ^ 12 + j) ≡ true = ground arith in
                  let test : ltb (s * 2 ^ 12 + j - r.virt_range.memory.start)
                        (r.file_end - r.file_start)
                      ≡ false =
                    ground arith in
                  rw (p, zeros, within, test) refl
              | inr after ↦
                  let out : inside r.virt_range.memory (s * 2 ^ 12 + j) ≡ false = ground arith in
                  rw (p, after, behind, out) (ground arith)
            ]
      ]
    ]

module _ {A : Type 0} (pair : BigAllocatorPair A) (v : View A) (room : HasRoom pair v) where
  within_lem :
      (b : Block) (from to : ℕ) (a : A)
      → from ≤ to
      → to ≤ size page b
      → within_slice pair b from to a ≡ ok a
  unfolding within_slice
  within_lem b from to a h k =
      let p : leb from to ≡ true = ground arith in
      let q : leb to (size page b) ≡ true = ground arith in rw (p, q) refl

  module _ (self : Loader A) (next : FileRange) (s : ℕ)
      (start : self.src_block_start_addr ≡ some (s * 2 ^ 12)) (low : s ≤ first_page next.virt_range)
      (long : end_page next.virt_range - s ≤ count self.src_block) (image : ℕ → ℕ)
      (done : ℕ → Type 0) (limit : ℕ)
      (held : Holds pair v self.allocator self.src_block s image done limit) where
    offset : ℕ
    offset = next.virt_range.memory.start - s * 2 ^ 12

    fits :
        (n : ℕ)
        → IsSegment next.virt_range
        → n ≤ count next.virt_range.memory
        → offset + n ≤ size page self.src_block
    unfolding offset
    fits n g h = omega (arith, g.nonempty)

    -- The state after a write to the block.
    written :
        (a c : A) (now : ℕ → ℕ) (image' : ℕ → ℕ)
        → Holds pair v a self.src_block s image done limit
        → Writes pair v a c self.src_block now
        → ((j : ℕ) → j < size page self.src_block → now j ≡ image' (s * 2 ^ 12 + j))
        → Holds pair v c self.src_block s image' done limit
    written a c now image' g w e = record {
      lower = g.lower;
      own = w.own;
      bytes = λ j lt. w.bytes j lt ∙ e j lt;
      shown = λ p q. let (le, lt, sh) = g.shown p q in (le, lt, w.follow p (p - s) lt sh);
      enough = rw w.room g.enough;
    }

    pub copy_lem :
        IsLoadable self.file next
        → (a : A) × (copy_to_memory pair self next
            ≡ ok (record self { allocator = a }, next.virt_range))
          × IsSame pair v self.allocator a
          × SameTaken pair v self.allocator a
          × Holds pair v a self.src_block s (image_of self.file next image) done limit
    unfolding copy_to_memory offset
    copy_lem l =
        let (bytes, e, k, same_bytes) = get_range_lem self.file next l in
        let d = self.src_block in
        let seg = l.segment in
        let sub : sub_usize (start_address (addr virt) next.virt_range.memory) (s * 2 ^ 12)
            ≡ ok offset =
          ground (arith, l.segment) in
        let mem_size = size (addr virt) next.virt_range.memory in
        let mem_is : mem_size ≡ count next.virt_range.memory = omega arith in
        let no_longer : length bytes ≤ count next.virt_range.memory = omega (arith, l.no_longer) in
        let place : offset + s * 2 ^ 12 ≡ next.virt_range.memory.start = omega arith in
        let room_bytes = fits (length bytes) l.segment no_longer in
        let room_mem = fits mem_size l.segment (omega arith) in
        let copied = pair.copy_from_slice self.allocator d offset bytes in
        let wrote = room.copies self.allocator d offset bytes held.own room_bytes in
        let w = within_lem d offset (offset + length bytes) copied (omega arith) room_bytes in
        let nonempty : d.start < d.end = omega (arith, seg.nonempty) in
        let slice = room.slices self.allocator d held.lower nonempty in
        let filled = pair.fill copied d (offset + length bytes) (offset + mem_size) 0 in
        let now : ℕ → ℕ = λ j.
          if leb offset j && ltb j (offset + length bytes)
          then byte_at bytes (j - offset)
          else image (s * 2 ^ 12 + j) in
        let copied_now : (j : ℕ) → j < size page d → at pair v copied d j ≡ now j =
          λ j lt. wrote.bytes j lt ∙ rw (held.bytes j lt) refl in
        let all : (j : ℕ)
            → (if leb (offset + length bytes) j && ltb j (offset + count next.virt_range.memory)
                then 0
                else now j)
              ≡ image_of self.file next image (s * 2 ^ 12 + j) =
          λ j.
            segment_lem self.file bytes next image s offset j place (omega (arith, seg.nonempty)) k
              no_longer same_bytes in
        elim (Bool-cases (ltb (length bytes) mem_size)) [
          | inl h ↦
              let z =
                within_lem d (offset + length bytes) (offset + mem_size) filled (ground arith)
                  room_mem in
              let whole : block (d.start + 0) d.end ≡ d = ap (λ x. block x d.end) (omega arith) in
              let fill_law =
                room.fills copied d 0 (offset + length bytes) (offset + mem_size) 0 wrote.own
                  (omega arith) (omega arith) in
              let fill_law' =
                subst
                  (λ x.
                    Writes pair v copied
                      (pair.fill copied x (offset + length bytes) (offset + mem_size) 0) d
                      (λ j.
                        if leb (0 * 2 ^ 12 + (offset + length bytes)) j
                          && ltb j (0 * 2 ^ 12 + (offset + mem_size))
                        then 0
                        else at pair v copied d j))
                  whole fill_law in
              (
                filled,
                rw (e, start, sub, slice, w, h, z) refl,
                IsSame-trans pair v self.allocator copied filled wrote.same fill_law'.same,
                λ p. fill_law'.taken p ∙ wrote.taken p,
                record {
                  lower = held.lower;
                  own = fill_law'.own;
                  bytes = λ j lt.
                      fill_law'.bytes j lt
                      ∙ (let e1 : 0 * 2 ^ 12 + (offset + length bytes) ≡ offset + length bytes =
                            omega arith in
                          let e2 : 0 * 2 ^ 12 + (offset + mem_size)
                              ≡ offset + count next.virt_range.memory =
                            omega arith in
                          rw (e1, e2, copied_now j lt) (all j));
                  shown = λ p q.
                      let (le, lt, sh) = held.shown p q in
                      (le, lt, fill_law'.follow p (p - s) lt (wrote.follow p (p - s) lt sh));
                  enough = rw (fill_law'.room, wrote.room) held.enough;
                },
              )
          | inr h ↦ (
            copied,
            rw (e, start, sub, slice, w, h) refl,
            wrote.same,
            wrote.taken,
            record {
              lower = held.lower;
              own = wrote.own;
              bytes = λ j lt.
                  copied_now j lt
                  ∙ (let none_left : leb (offset + length bytes) j
                            && ltb j (offset + count next.virt_range.memory)
                          ≡ false =
                        ground (arith, h, mem_is, no_longer) in
                      subst
                        (λ t.
                          (if t then 0 else now j) ≡ image_of self.file next image (s * 2 ^ 12 + j))
                        none_left (all j));
              shown = λ p q.
                  let (le, lt, sh) = held.shown p q in (le, lt, wrote.follow p (p - s) lt sh);
              enough = rw wrote.room held.enough;
            },
          )
        ]

    -- The pages of a range are moved: they are done, and the others as before.
    abbrev pub AndInside : MemoryRange → ℕ → Type 0
    AndInside r p = (inside r.memory p ≡ true) ⊎ done p

    pub finalize_lem :
        (r : MemoryRange)
        → r.memory.start ≤ r.memory.end
        → s ≤ r.memory.start
        → r.memory.end ≤ end_page next.virt_range
        → IsSegment next.virt_range
        → ((p : ℕ) → inside r.memory p ≡ true → v.taken self.allocator p ≡ true)
        → (a : A) × (finalize_mapping pair self r ≡ ok (record self { allocator = a }))
          × ((p : ℕ)
              → v.mapped a p ≡ put (pair.dst_flags self.allocator) r (v.mapped self.allocator p) p)
          × (pair.dst_flags a ≡ pair.dst_flags self.allocator)
          × SameTaken pair v self.allocator a
          × Holds pair v a self.src_block s image (AndInside r) limit
    unfolding finalize_mapping
    finalize_lem r o h k g reserved = elim (Bool-cases (is_empty r.memory)) [
      | inl b ↦ (
        self.allocator,
        rw b refl,
        λ p. ground arith,
        refl,
        λ p. refl,
        record {
          lower = held.lower;
          own = held.own;
          bytes = held.bytes;
          shown = λ p q. elim q [ inl i ↦ absurd (ground (arith, i, b)) | inr d ↦ held.shown p d ];
          enough = held.enough;
        },
      )
      | inr b ↦
          let w = held.lower in
          let d = self.src_block in
          let from = d.start + (r.memory.start - s) in
          let to = from + count r.memory in
          let sub : sub_usize r.memory.start s ≡ ok (r.memory.start - s) = ground arith in
          let start_add : add_usize d.start (r.memory.start - s) ≡ ok from = ground (arith, w, g) in
          let end_add : add_usize from (count r.memory) ≡ ok to = ground (arith, w, g) in
          let made : Block.from_index page from to ≡ ok (block from to) =
            IsValid-from_index page from to
              (pages-IsValid from to (ground arith) (omega (arith, w.lower, w.ordered))) in
          let (a, e, m, f, t, left, own, bytes, shares, others) =
            room.maps self.allocator d (r.memory.start - s) (count r.memory) r.memory
              (bit_or r.flags (pair.dst_flags self.allocator)) held.own (omega arith) refl
              reserved in
          (
            a,
            rw
                (
                  b,
                  start,
                  containing-page s (omega (arith, g.lower, g.nonempty)),
                  index-page s,
                  sub,
                  start_add,
                  end_add,
                  made,
                  e,
                )
                refl,
            m,
            f,
            t,
            record {
              lower = w;
              own = own;
              bytes = λ j lt. bytes j lt ∙ held.bytes j lt;
              shown = λ p q. elim (Bool-cases (inside r.memory p)) [
                | inl i ↦
                    let low : r.memory.start ≤ p = ground (arith, i) in
                    let high : p < r.memory.end = ground (arith, i) in
                    let at_p : r.memory.start + (p - r.memory.start) ≡ p = omega arith in
                    let at_d : from + (p - r.memory.start) ≡ d.start + (p - s) = omega arith in
                    (
                      omega arith,
                      omega arith,
                      subst (λ x. v.shares a x (d.start + (p - s))) at_p
                          (subst (λ x. v.shares a (r.memory.start + (p - r.memory.start)) x) at_d
                            (shares (p - r.memory.start) (omega arith))),
                    )
                | inr i ↦ elim q [
                  | inl j ↦ absurd (ground (arith, i, j))
                  | inr done_p ↦
                      let (le, lt, sh) = held.shown p done_p in
                      (le, lt, others p (d.start + (p - s)) i sh)
                ]
              ];
              enough = rw left held.enough;
            },
          )
    ]
