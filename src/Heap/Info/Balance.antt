-- ===== src/Heap/Info/Balance.antt =====
-- What the counters say after a sum and after an allocation.
use nikka.Common.{ℕ, ◌+◌, ◌-◌, ◌*◌, ◌^◌, ◌≤◌, ◌<◌, ◌≡◌, ◌↔◌, refl, true, ok, arith}
use nikka.Memory.Frage.{l0, bytes}
use nikka.Heap.Info.{
  Counter, Info, balance, add_assign_counter, sub_counter, add_assign, sub, is_valid, allocation,
  deallocation, increase, decrease,
}

-- The sum of two counters, and that it fits.
abbrev pub plus : Counter → Counter → Counter
plus a b = record { negative = a.negative + b.negative; positive = a.positive + b.positive }

abbrev pub Fits : Counter → Counter → Type 0
Fits a b = (a.negative + b.negative < 2 ^ 64) × (a.positive + b.positive < 2 ^ 64)

plus-sub_counter :
    (a b : Counter)
    → Fits a b
    → (add_assign_counter a b ≡ ok (plus a b)) × (sub_counter (plus a b) b ≡ ok a)
plus-sub_counter a b f = (ground arith, ground arith)

abbrev pub sum : Info → Info → Info
sum a b = record {
  allocated = plus a.allocated b.allocated;
  allocations = plus a.allocations b.allocations;
  pages = plus a.pages b.pages;
  requested = plus a.requested b.requested;
}

-- If all sums fit a `usize`, `+=` of counters adds them all, and to subtract the one operand gives
-- back the other.
pub sub-add_assign :
    (a b : Info)
    → Fits a.allocated b.allocated
    → Fits a.allocations b.allocations
    → Fits a.pages b.pages
    → Fits a.requested b.requested
    → (add_assign a b ≡ ok (sum a b)) × (sub (sum a b) b ≡ ok a)
unfolding add_assign sub
sub-add_assign a b p q r s =
    let p' = plus-sub_counter a.allocated b.allocated p in
    let q' = plus-sub_counter a.allocations b.allocations q in
    let r' = plus-sub_counter a.pages b.pages r in
    let s' = plus-sub_counter a.requested b.requested s in
    (rw (p'.0, q'.0, r'.0, s'.0) refl, rw (p'.1, q'.1, r'.1, s'.1) refl)

-- What `is_valid` accepts.
pub record IsSound (self : Info) : Type 0 where
  pub allocated : self.allocated.negative ≤ self.allocated.positive
  pub allocations : self.allocations.negative ≤ self.allocations.positive
  pub pages : self.pages.negative ≤ self.pages.positive
  pub requested : self.requested.negative ≤ self.requested.positive
  pub within :
      self.requested.positive - self.requested.negative
      ≤ self.allocated.positive - self.allocated.negative
  pub returned : self.requested.negative ≤ self.allocated.negative
  pub in_pages :
      self.allocated.positive - self.allocated.negative
      ≤ (self.pages.positive - self.pages.negative) * bytes l0
  pub fits : (self.pages.positive - self.pages.negative) * bytes l0 < 2 ^ 64

IsSound-is_valid : (self : Info) → IsSound self → is_valid self ≡ ok true
unfolding is_valid balance
IsSound-is_valid self v = ground arith

is_valid-IsSound : (self : Info) → is_valid self ≡ ok true → IsSound self
unfolding is_valid balance
is_valid-IsSound self h = ground arith

-- `is_valid` accepts exactly the counters that are sound, whose pages have a size that fits.
pub is_valid_iff : (self : Info) → (is_valid self ≡ ok true) ↔ IsSound self
is_valid_iff self = (is_valid-IsSound self, IsSound-is_valid self)

-- All counters have room for these amounts.
pub record HasRoom (self : Info) (requested allocated pages : ℕ) : Type 0 where
  pub allocated_up : self.allocated.positive + allocated < 2 ^ 64
  pub allocated_down : self.allocated.negative + allocated < 2 ^ 64
  pub allocations_up : self.allocations.positive + 1 < 2 ^ 64
  pub allocations_down : self.allocations.negative + 1 < 2 ^ 64
  pub pages_up : self.pages.positive + pages < 2 ^ 64
  pub pages_down : self.pages.negative + pages < 2 ^ 64
  pub requested_up : self.requested.positive + requested < 2 ^ 64
  pub requested_down : self.requested.negative + requested < 2 ^ 64

abbrev pub up : ℕ → Counter → Counter
up n c = record { negative = c.negative; positive = c.positive + n }

abbrev pub down : ℕ → Counter → Counter
down n c = record { negative = c.negative + n; positive = c.positive }

abbrev pub changed : (ℕ → Counter → Counter) → ℕ → ℕ → ℕ → Info → Info
changed f requested allocated pages self = record {
  allocated = f allocated self.allocated;
  allocations = f 1 self.allocations;
  pages = f pages self.pages;
  requested = f requested self.requested;
}

up-increase : (n : ℕ) (c : Counter) → c.positive + n < 2 ^ 64 → increase n c ≡ ok (up n c)
up-increase n c h = ground arith

down-decrease : (n : ℕ) (c : Counter) → c.negative + n < 2 ^ 64 → decrease n c ≡ ok (down n c)
down-decrease n c h = ground arith

-- An allocation of no less than was requested, within the pages there are then, keeps valid counters
-- valid, if they have room for it. To give it back then brings all balances back to what they were,
-- and the counters are valid again.
pub deallocation-allocation :
    (self : Info) (requested allocated pages : ℕ)
    → is_valid self ≡ ok true
    → HasRoom self requested allocated pages
    → requested ≤ allocated
    → self.allocated.positive + allocated
      ≤ self.allocated.negative + (self.pages.positive + pages - self.pages.negative) * bytes l0
    → (self.pages.positive + pages - self.pages.negative) * bytes l0 < 2 ^ 64
    → (later : Info) × (after : Info) × (allocation requested allocated pages self ≡ ok later)
      × (is_valid later ≡ ok true)
      × (deallocation requested allocated pages later ≡ ok after)
      × (is_valid after ≡ ok true)
      × (balance after.allocated ≡ balance self.allocated)
      × (balance after.allocations ≡ balance self.allocations)
      × (balance after.pages ≡ balance self.pages)
      × (balance after.requested ≡ balance self.requested)
unfolding allocation deallocation balance
deallocation-allocation self requested allocated pages valid room le within fits =
    let v = is_valid-IsSound self valid in
    let later = changed up requested allocated pages self in
    (
      later,
      changed down requested allocated pages later,
      rw
          (
            up-increase allocated self.allocated room.allocated_up,
            up-increase 1 self.allocations room.allocations_up,
            up-increase pages self.pages room.pages_up,
            up-increase requested self.requested room.requested_up,
          )
          refl,
      IsSound-is_valid later (omega (arith, v, room)),
      rw
          (
            down-decrease allocated later.allocated room.allocated_down,
            down-decrease 1 later.allocations room.allocations_down,
            down-decrease pages later.pages room.pages_down,
            down-decrease requested later.requested room.requested_down,
          )
          refl,
      IsSound-is_valid (changed down requested allocated pages later) (omega (arith, v, room)),
      ground arith,
      ground arith,
      ground arith,
      ground arith,
    )
