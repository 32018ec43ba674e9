-- ===== src/Kernel/AddressSpace.antt =====
-- kernel/src/memory/address_space.rs: pages of an address space are mapped one by one and in blocks,
-- and a block that a process names is checked before the kernel uses it. Its `mapping` is the root.
pub mod Permission
use Prim.Native.Nat.{bit_or}
use nikka.Common.{
  ℕ, zero, suc, ◌+◌, ◌-◌, ◌^◌, Bool, true, false, not, if◌then◌else◌, Outcome, ok, err, panic,
  permission_denied, ◌>>=◌, ◌>>◌, to_option, Option, some, none,
}
use nikka.Memory.Addr.{virt}
use nikka.Memory.Frage
use nikka.Memory.Frage.{l0}
use nikka.Memory.Block.{Block, enclosing, count}
use nikka.Memory.Mmu.{flags, set_flags, contains, present}
use nikka.Kernel.Range.{is_user_block, validate_page_flags, validate_block_flags, validate_block}
use nikka.Kernel.Mapping.{
  Tables, Node, entry_at, PagePath, path, translate, write, Frames, Machine, and_then, with_guard,
  drop_guard, put, map, map_page, unmap,
}

-- `PageTableFlags::USER`
abbrev pub user : ℕ
user = 2 ^ 2

-- `PRESENT | USER | flags`
abbrev pub required_flags : ℕ → ℕ
required_flags bits = bit_or (bit_or present user) bits

-- `IntoIter::next` of a block of pages: without a page for the number, the loop ends.
abbrev pub page_at : ℕ → Outcome (Option ℕ)
page_at index = to_option (Frage.from_index virt l0 index)

abbrev pub with_page : Option ℕ → (ℕ → Outcome (Unit {0})) → Outcome (Unit {0})
with_page none body = ok tt
with_page (some page) body = body page

-- The rest of the check, or the error.
abbrev pub permitted : Bool → Outcome (Unit {0}) → Outcome (Unit {0})
permitted true rest = rest
permitted false rest = err permission_denied

-- The body of the loop over the pages, with the turns that are left.
unfoldable pub check_page : Tables → ℕ → ℕ → ℕ → Outcome (Unit {0}) → Outcome (Unit {0})
check_page tables root required page rest = do
  leaf ← translate tables root page
  bits ← flags (entry_at tables leaf)
  permitted (contains bits required) rest

-- The loop over the pages from number `index` on.
unfoldable pub check_pages : Tables → ℕ → ℕ → ℕ → ℕ → Outcome (Unit {0})
unfolding check_page
check_pages tables root required index zero = ok tt
check_pages tables root required index (suc n) = do
  next ← page_at index
  with_page next
      λ page. check_page tables root required page (check_pages tables root required (index + 1) n)

unfoldable pub check_permission_common : Tables → ℕ → Block → ℕ → Outcome (Unit {0})
unfolding check_pages
check_permission_common tables root block bits = do
  pages ← enclosing virt block
  in_user ← is_user_block pages
  permitted in_user (check_pages tables root (required_flags bits) pages.start (count pages))

-- The frame allocator, with `reference`.
pub record SharedFrames (F : Type 0) : Type 0 where
  pub frames : Frames F
  pub reference : F → ℕ → F × Outcome ℕ

module _ {F : Type 0} (allocator : SharedFrames F) where
  abbrev pub use_frames : {A : Type 0} → Machine F → F × Outcome A → Machine F × Outcome A
  use_frames m (frames, result) = (record m { frames = frames }, result)

  abbrev pub forget : {A : Type 0} → Machine F × Outcome A → Machine F × Outcome (Unit {0})
  forget (m, ok _) = (m, ok tt)
  forget (m, err e) = (m, err e)
  forget (m, panic) = (m, panic)

  pub map_page_to_frame : Machine F → ℕ → ℕ → ℕ → ℕ → Machine F × Outcome (Unit {0})
  map_page_to_frame m root page frame_address bits =
      and_then (m, validate_page_flags page bits)
        λ m _.
          and_then (use_frames m (allocator.reference m.frames frame_address))
            λ m guard. forget (map_page allocator.frames m root page guard bits)

  -- `AddressSpace::map_page`: the guard of the new frame is dropped at the end.
  pub map_new_page : Machine F → ℕ → ℕ → ℕ → Machine F × Outcome ℕ
  unfolding map_page_to_frame
  map_new_page m root page bits =
      and_then (use_frames m (allocator.frames.allocate m.frames)) λ m new.
        with_guard allocator.frames new (map_page_to_frame m root page new bits)
          λ m _. and_then (drop_guard allocator.frames m new) λ m _. (m, ok new)

  pub unmap_page : Machine F → ℕ → ℕ → Machine F × Outcome (Unit {0})
  unmap_page m root page =
      and_then (m, path m.tables root page) λ m found. unmap allocator.frames m found

  abbrev pub in_page :
      Machine F → Option ℕ → (ℕ → Machine F × Outcome (Unit {0})) → Machine F × Outcome (Unit {0})
  in_page m none body = (m, ok tt)
  in_page m (some page) body = body page

  -- The loops of `map_block`, `unmap_block` and `remap_block` over the pages from number `index` on.
  pub map_pages : Machine F → ℕ → ℕ → ℕ → ℕ → Machine F × Outcome (Unit {0})
  unfolding map_new_page
  map_pages m root bits index zero = (m, ok tt)
  map_pages m root bits index (suc n) =
      and_then (m, page_at index)
        λ m next. in_page m next λ page.
          and_then (map_new_page m root page bits) λ m _. map_pages m root bits (index + 1) n

  pub map_block : Machine F → ℕ → Block → ℕ → Machine F × Outcome (Unit {0})
  unfolding map_pages
  map_block m root pages bits =
      and_then (m, validate_block_flags pages bits)
        λ m _. map_pages m root bits pages.start (count pages)

  pub unmap_pages : Machine F → ℕ → ℕ → ℕ → Machine F × Outcome (Unit {0})
  unfolding unmap_page
  unmap_pages m root index zero = (m, ok tt)
  unmap_pages m root index (suc n) =
      and_then (m, page_at index)
        λ m next.
          in_page m next
            λ page. and_then (unmap_page m root page) λ m _. unmap_pages m root (index + 1) n

  pub unmap_block : Machine F → ℕ → Block → Machine F × Outcome (Unit {0})
  unfolding unmap_pages
  unmap_block m root pages =
      and_then (m, validate_block pages) λ m _. unmap_pages m root pages.start (count pages)

  pub remap_pages : Machine F → ℕ → ℕ → ℕ → ℕ → Machine F × Outcome (Unit {0})
  remap_pages m root bits index zero = (m, ok tt)
  remap_pages m root bits index (suc n) =
      and_then (m, page_at index)
        λ m next. in_page m next λ page.
          and_then (m, translate m.tables root page)
            λ m leaf.
              and_then (m, set_flags (entry_at m.tables leaf) (bit_or bits present))
                λ m entry.
                  remap_pages (put allocator.frames m leaf.table leaf.index entry) root bits
                    (index + 1) n

  pub remap_block : Machine F → ℕ → Block → ℕ → Machine F × Outcome (Unit {0})
  unfolding remap_pages
  remap_block m root pages bits =
      and_then (m, validate_block_flags pages bits)
        λ m _. remap_pages m root bits pages.start (count pages)
