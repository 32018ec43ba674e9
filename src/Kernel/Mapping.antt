-- ===== src/Kernel/Mapping.antt =====
-- kernel/src/memory/mapping.rs and path.rs: the tree of page tables. Physical memory holds the tables:
-- a function from the frame, by its address, and the index to the entry. The flush of the translation
-- buffer is left out.
pub mod Tree
pub mod Changes
pub mod Grow
pub mod Entries
pub mod Descent
pub mod Arrival
pub mod MapPage
use Prim.Native.Nat.{bit_and, bit_or}
use nikka.Common.{
  ℕ, zero, suc, ◌+◌, ◌-◌, ◌*◌, ◌/◌, ◌%◌, ◌^◌, Bool, true, false, not, ◌&&◌, Option, some, none,
  List, [], ◌∷◌, ◌==◌, if◌then◌else◌, bool_eq, Outcome, ok, err, panic, no_page, unimplemented,
  ◌>>=◌, ◌>>◌, assert,
}
use nikka.Memory.Addr.{page_table_index}
use nikka.Memory.Mmu.{
  flags, is_present, is_huge, frame, set_frame, set_flags, take, clear, full_access, present,
}

abbrev pub Tables : Type 0
Tables = ℕ → ℕ → ℕ

abbrev pub write : Tables → ℕ → ℕ → ℕ → Tables
write tables table index entry f i = if f == table && i == index then entry else tables f i

abbrev pub zeroed : Tables → ℕ → Tables
zeroed tables table f i = if f == table then 0 else tables f i

-- A pointer to an entry: the frame of the table, and the index.
pub record Node : Type 0 where
  pub table : ℕ
  pub index : ℕ

abbrev pub node : ℕ → ℕ → Node
node table index = record { table = table; index = index }

abbrev pub entry_at : Tables → Node → ℕ
entry_at tables n = tables n.table n.index

-- `Path`. Its `nodes` are `above`, from the root on, and `deepest` at `level`; those below are `None`.
pub record PagePath : Type 0 where
  pub virt : ℕ
  pub above : List Node
  pub level : ℕ
  pub deepest : Node

-- Of an entry on the way, the frame of the table below, if the walk goes on.
abbrev pub child_if : Bool → Outcome ℕ → Outcome (Option ℕ)
child_if false child = ok none
child_if true (ok child) = ok (some child)
child_if true (err _) = ok none
child_if true panic = panic

unfoldable pub child_of : ℕ → Outcome (Option ℕ)
child_of entry = do
  there ← is_present entry
  large ← is_huge entry
  child_if (there && not large) (frame entry)

-- The loop of `Mapping::path`, from the table `table` at `level` downwards.
unfoldable pub walk : Tables → ℕ → ℕ → ℕ → Outcome PagePath
unfolding child_of
walk tables virt zero table = do
  index ← page_table_index virt 0
  ok (record { virt = virt; above = []; level = 0; deepest = node table index })
walk tables virt (suc level) table = do
  index ← page_table_index virt (suc level)
  child ← child_of (tables table index)
  elim child [
    | some child ↦ do
      path ← walk tables virt level child
      ok (record path { above = node table index ∷ path.above })
    | none ↦ ok (record { virt = virt; above = []; level = suc level; deepest = node table index })
  ]

unfoldable pub all_present : Tables → List Node → Outcome Bool
all_present tables [] = ok true
all_present tables (n ∷ nodes) = do
  there ← is_present (entry_at tables n)
  elim there [ true ↦ all_present tables nodes | false ↦ ok false ]

unfoldable pub validate_deepest : Tables → ℕ → ℕ → Outcome (Unit {0})
validate_deepest tables zero entry = ok tt
validate_deepest tables (suc level) entry = do
  there ← is_present entry
  large ← is_huge entry
  assert (bool_eq there large)

unfoldable pub validate : Tables → PagePath → Outcome (Unit {0})
unfolding all_present validate_deepest
validate tables self = do
  above ← all_present tables self.above
  assert above
  validate_deepest tables self.level (entry_at tables self.deepest)

abbrev pub root_level : ℕ
root_level = 3

-- `Mapping::path`
unfoldable pub path : Tables → ℕ → ℕ → Outcome PagePath
unfolding walk validate
path tables root virt = do found ← walk tables virt root_level root; validate tables found; ok found

-- `Path::get_mut`: the node of the leaf.
unfoldable pub get_deepest : Tables → ℕ → Node → Outcome Node
get_deepest tables zero deepest = ok deepest
get_deepest tables (suc level) deepest = do
  large ← is_huge (entry_at tables deepest)
  if large then err unimplemented else err no_page

unfoldable pub get : Tables → PagePath → Outcome Node
unfolding get_deepest
get tables self = get_deepest tables self.level self.deepest

-- `Translate::translate`
unfoldable pub translate : Tables → ℕ → ℕ → Outcome Node
unfolding path get
translate tables root virt = do found ← path tables root virt; get tables found

-- The frame allocator, as far as `FrameGuard` uses it.
pub record Frames (F : Type 0) : Type 0 where
  pub allocate : F → F × Outcome ℕ
  pub deallocate : F → ℕ → F × Outcome (Unit {0})

pub record Machine (F : Type 0) : Type 0 where
  pub tables : Tables
  pub frames : F

-- A step after another, in the state that this has left.
abbrev pub and_then : {M A B : Type 0} → M × Outcome A → (M → A → M × Outcome B) → M × Outcome B
and_then (m, ok a) f = f m a
and_then (m, err e) f = (m, err e)
and_then (m, panic) f = (m, panic)

abbrev pub intermediate_flags : ℕ → ℕ
intermediate_flags bits = bit_or (bit_and bits full_access) present

-- The flags of an entry on the way, with all that are required.
pub widen : ℕ → ℕ → Outcome ℕ
widen entry required = do
  current ← flags entry
  if bit_and current required == required
      then ok entry
      else set_flags entry (bit_or current required)

module _ {F : Type 0} (allocator : Frames F) where
  abbrev pub put : Machine F → ℕ → ℕ → ℕ → Machine F
  put m table index entry = record m { tables = write m.tables table index entry }

  abbrev pub node_of : Machine F → F × Outcome ℕ → Machine F × Outcome ℕ
  node_of m (frames, ok new) = (record { tables = zeroed m.tables new; frames = frames }, ok new)
  node_of m (frames, err e) = (record m { frames = frames }, err e)
  node_of m (frames, panic) = (record m { frames = frames }, panic)

  pub allocate_node : Machine F → Machine F × Outcome ℕ
  allocate_node m = node_of m (allocator.allocate m.frames)

  -- The first loop of `Path::map`, which leads to the table of the leaf and makes it where needed.
  pub descend : ℕ → ℕ → ℕ → Machine F → ℕ → Machine F × Outcome ℕ
  unfolding allocate_node widen
  descend virt bits zero m table = (m, ok table)
  descend virt bits (suc level) m table =
      and_then (m, page_table_index virt (suc level))
        λ m index.
          and_then (m, is_present (m.tables table index))
            λ m there.
              and_then (m, is_huge (m.tables table index))
                λ m large. elim there [
                  | false ↦ and_then (allocate_node m) λ m new.
                      and_then (m, set_frame new (intermediate_flags bits))
                        λ m entry. descend virt bits level (put m table index entry) new
                  | true ↦ elim large [
                    | true ↦ (m, err unimplemented)
                    | false ↦
                        and_then (m, frame (m.tables table index))
                          λ m child.
                            and_then (m, widen (m.tables table index) (intermediate_flags bits))
                              λ m entry. descend virt bits level (put m table index entry) child
                  ]
                ]

  -- `FrameGuard::drop`
  pub drop_guard : Machine F → ℕ → Machine F × Outcome (Unit {0})
  drop_guard m frame_address =
      let (frames, result) = allocator.deallocate m.frames frame_address in
      (record m { frames = frames }, result)

  -- A step that owns the guard of a frame: it drops the guard if the step before has failed.
  abbrev pub with_guard :
      {A B : Type 0}
      → ℕ
      → Machine F × Outcome A
      → (Machine F → A → Machine F × Outcome B)
      → Machine F × Outcome B
  with_guard guard (m, ok a) f = f m a
  with_guard guard (m, err e) f = and_then (drop_guard m guard) λ m _. (m, err e)
  with_guard guard (m, panic) f = (m, panic)

  -- `FrameGuard::load(pte).ok()`
  abbrev pub old_frame : Outcome (ℕ × ℕ) → Outcome (Option ℕ)
  old_frame (ok (old, _)) = ok (some old)
  old_frame (err _) = ok none
  old_frame panic = panic

  -- The entry of the leaf gets the frame; the one that stood there is given back.
  pub map_leaf : ℕ → ℕ → ℕ → Machine F → ℕ → Machine F × Outcome (Option ℕ)
  map_leaf virt bits new m table =
      and_then (m, page_table_index virt 0)
        λ m index.
          and_then (m, old_frame (take (m.tables table index)))
            λ m old. and_then (m, set_frame new bits) λ m entry. (put m table index entry, ok old)

  pub drop_old : Machine F → Option ℕ → Machine F × Outcome (Unit {0})
  unfolding drop_guard
  drop_old m none = (m, ok tt)
  drop_old m (some old) = drop_guard m old

  -- `Path::map`; the second loop is that of `path` again.
  pub map : Machine F → ℕ → PagePath → ℕ → ℕ → Machine F × Outcome PagePath
  unfolding drop_old drop_guard
  map m root self new bits =
      with_guard new (m, is_huge (entry_at m.tables self.deepest))
        λ m large. elim large [
          | true ↦ and_then (drop_guard m new) λ m _. (m, err unimplemented)
          | false ↦ with_guard new (descend self.virt bits root_level m root) λ m table.
              and_then (map_leaf self.virt bits new m table) λ m old.
                and_then (m, path m.tables root self.virt)
                  λ m found. and_then (drop_old m old) λ m _. (m, ok found)
        ]

  -- `mapping.path(page).map(frame, flags)`
  pub map_page : Machine F → ℕ → ℕ → ℕ → ℕ → Machine F × Outcome PagePath
  unfolding map
  map_page m root virt new bits =
      and_then (m, path m.tables root virt) λ m found. map m root found new bits

  -- `Path::unmap`
  pub unmap : Machine F → PagePath → Machine F × Outcome (Unit {0})
  unfolding drop_guard validate get
  unmap m self =
      and_then (m, get m.tables self)
        λ m leaf.
          and_then (m, take (entry_at m.tables leaf))
            λ m taken.
              and_then
                (
                  put m leaf.table leaf.index taken.1,
                  validate (write m.tables leaf.table leaf.index taken.1) self,
                )
                λ m _. drop_guard m taken.0

-- What a reader of the leaf finds: the frame and the flags.
pub read : Tables → Node → Outcome (ℕ × ℕ)
read tables leaf = do
  frame_address ← frame (entry_at tables leaf)
  bits ← flags (entry_at tables leaf)
  ok (frame_address, bits)

pub resolve : Tables → ℕ → ℕ → Outcome (ℕ × ℕ)
unfolding translate read
resolve tables root virt = do leaf ← translate tables root virt; read tables leaf
