-- ===== src/Heap/Info.antt =====
-- ku/src/allocator/info.rs: the counters of an allocator. Each operation returns the changed counters.
pub mod Balance
use nikka.Common.{
  ℕ, ◌+◌, ◌-◌, ◌*◌, ◌^◌, Bool, true, false, ◌&&◌, leb, if◌then◌else◌, Outcome, ok, err, panic,
  overflow, ◌>>=◌, ok_or, checked_sub, add_usize, sub_usize, mul_usize,
}
use nikka.Memory.Frage.{l0, bytes}

pub record Counter : Type 0 where
  pub negative : ℕ
  pub positive : ℕ

abbrev pub zero_counter : Counter
zero_counter = record { negative = 0; positive = 0 }

pub balance : Counter → Outcome ℕ
balance self = sub_usize self.positive self.negative

abbrev pub is_valid_counter : Counter → Bool
is_valid_counter self = leb self.negative self.positive

abbrev pub increase : ℕ → Counter → Outcome Counter
increase value self = do
  positive ← add_usize self.positive value
  ok (record self { positive = positive })

abbrev pub decrease : ℕ → Counter → Outcome Counter
decrease value self = do
  negative ← add_usize self.negative value
  ok (record self { negative = negative })

abbrev pub add_assign_counter : Counter → Counter → Outcome Counter
add_assign_counter self other = do
  negative ← add_usize self.negative other.negative
  positive ← add_usize self.positive other.positive
  ok (record { negative = negative; positive = positive })

abbrev pub sub_counter : Counter → Counter → Outcome Counter
sub_counter self rhs = do
  negative ← ok_or (checked_sub self.negative rhs.negative) overflow
  positive ← ok_or (checked_sub self.positive rhs.positive) overflow
  ok (record { negative = negative; positive = positive })

pub record Info : Type 0 where
  pub allocated : Counter
  pub allocations : Counter
  pub pages : Counter
  pub requested : Counter

abbrev pub new : Info
new = record {
  allocated = zero_counter;
  allocations = zero_counter;
  pages = zero_counter;
  requested = zero_counter;
}

pub fragmentation_loss : Info → Outcome ℕ
unfolding balance
fragmentation_loss self = do
  pages ← balance self.pages
  size ← mul_usize pages (bytes l0)
  requested ← balance self.requested
  ok (size - requested)

-- The tests in the order of the source: a balance is read only of counters that are valid.
pub is_valid : Info → Outcome Bool
unfolding balance
is_valid self =
    let in_pages = do
      allocated ← balance self.allocated
      pages ← balance self.pages
      size ← mul_usize pages (bytes l0)
      ok (leb allocated size)
    in let within = do
      requested ← balance self.requested
      allocated ← balance self.allocated
      if leb requested allocated && leb self.requested.negative self.allocated.negative
          then in_pages
          else ok false
      in if is_valid_counter self.allocated
          && is_valid_counter self.allocations
          && is_valid_counter self.pages
          && is_valid_counter self.requested
        then within
        else ok false

pub allocation : ℕ → ℕ → ℕ → Info → Outcome Info
allocation requested allocated allocated_pages self = do
  allocated' ← increase allocated self.allocated
  allocations' ← increase 1 self.allocations
  pages' ← increase allocated_pages self.pages
  requested' ← increase requested self.requested
  ok (record {
    allocated = allocated';
    allocations = allocations';
    pages = pages';
    requested = requested';
  })

pub deallocation : ℕ → ℕ → ℕ → Info → Outcome Info
deallocation requested deallocated deallocated_pages self = do
  allocated' ← decrease deallocated self.allocated
  allocations' ← decrease 1 self.allocations
  pages' ← decrease deallocated_pages self.pages
  requested' ← decrease requested self.requested
  ok (record {
    allocated = allocated';
    allocations = allocations';
    pages = pages';
    requested = requested';
  })

pub pages_allocation : ℕ → Info → Outcome Info
pages_allocation allocated_pages self = do
  pages' ← increase allocated_pages self.pages
  ok (record self { pages = pages' })

pub pages_deallocation : ℕ → Info → Outcome Info
pages_deallocation allocated_pages self = do
  pages' ← decrease allocated_pages self.pages
  ok (record self { pages = pages' })

pub add_assign : Info → Info → Outcome Info
add_assign self other = do
  allocated' ← add_assign_counter self.allocated other.allocated
  allocations' ← add_assign_counter self.allocations other.allocations
  pages' ← add_assign_counter self.pages other.pages
  requested' ← add_assign_counter self.requested other.requested
  ok (record {
    allocated = allocated';
    allocations = allocations';
    pages = pages';
    requested = requested';
  })

pub sub : Info → Info → Outcome Info
sub self rhs = do
  allocated' ← sub_counter self.allocated rhs.allocated
  allocations' ← sub_counter self.allocations rhs.allocations
  pages' ← sub_counter self.pages rhs.pages
  requested' ← sub_counter self.requested rhs.requested
  ok (record {
    allocated = allocated';
    allocations = allocations';
    pages = pages';
    requested = requested';
  })
