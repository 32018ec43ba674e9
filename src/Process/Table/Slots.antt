-- ===== src/Process/Table/Slots.antt =====
-- The well-formed process tables.
use nikka.Common.{
  ℕ, zero, suc, ◌+◌, ◌<◌, ◌≡◌, ◌≢◌, inl, inr, refl, sym, ◌∙◌, Option, some, none, List, [], ◌∷◌,
  arith, ◌==◌, if◌then◌else◌, Bool-cases, length, get_elem?, set, get_elem?-set_self,
  get_elem?-set_ne,
}
use mathlib.Core.Option.{some-injective}
use nikka.Common.FreeList.{IsFreeList}
use nikka.Process.Pid.{Pid, current, id, same}
use nikka.Process.Pid.Words.{same_iff, Fits}
use nikka.Process.Table.{Process, Slot, free, used, Table}

module _ {A : Type 0} where
  -- What the slot of a free identifier links to.
  abbrev pub link : Pid → Option (Slot A) → Option (Option Pid)
  link p (some (free q next)) = if same p q then some next else none
  link p _ = none

  abbrev pub next_of : List (Slot A) → Pid → Option (Option Pid)
  next_of slots current = none
  next_of slots (id e s) = link (id e s) (get_elem? slots s)

  abbrev pub used_count : List (Slot A) → ℕ
  used_count [] = 0
  used_count (free p n ∷ slots) = used_count slots
  used_count (used p ∷ slots) = suc (used_count slots)

  abbrev pub pid_of : Slot A → Pid
  pid_of (free pid next) = pid
  pid_of (used process) = process.pid

  -- Each slot has an identifier of its own number; the free list holds the identifiers of all free
  -- slots; the processes are counted.
  pub record IsValid (self : Table A) : Type 0 where
    pub free_pids : List Pid
    pub is_list : IsFreeList same same_iff (next_of self.table) self.free_slots free_pids
    pub own :
        (i : ℕ) (slot : Slot A)
        → get_elem? self.table i ≡ some slot
        → (e : ℕ) × (pid_of slot ≡ id e i) × Fits (id e i)
    pub counted : self.process_count ≡ used_count self.table

  pub used_count-use :
      (slots : List (Slot A)) (i : ℕ) (p : Pid) (n : Option Pid) (process : Process A)
      → get_elem? slots i ≡ some (free p n)
      → used_count (set slots i (used process)) ≡ used_count slots + 1
  used_count-use [] i p n process h = ground arith
  used_count-use (free q m ∷ slots) zero p n process h = omega arith
  used_count-use (used q ∷ slots) zero p n process h = ground arith
  used_count-use (free q m ∷ slots) (suc i) p n process h = used_count-use slots i p n process h
  used_count-use (used q ∷ slots) (suc i) p n process h =
      omega (arith, used_count-use slots i p n process h)

  pub used_count-free :
      (slots : List (Slot A)) (i : ℕ) (p : Pid) (n : Option Pid) (process : Process A)
      → get_elem? slots i ≡ some (used process)
      → used_count slots ≡ used_count (set slots i (free p n)) + 1
  used_count-free [] i p n process h = ground arith
  used_count-free (free q m ∷ slots) zero p n process h = ground arith
  used_count-free (used q ∷ slots) zero p n process h = omega arith
  used_count-free (free q m ∷ slots) (suc i) p n process h = used_count-free slots i p n process h
  used_count-free (used q ∷ slots) (suc i) p n process h =
      omega (arith, used_count-free slots i p n process h)

  -- A write to a slot leaves the identifiers as they should be.
  pub own-set :
      (slots : List (Slot A)) (i e : ℕ) (slot : Slot A)
      → ((j : ℕ) (s : Slot A)
          → get_elem? slots j ≡ some s
          → (e : ℕ) × (pid_of s ≡ id e j) × Fits (id e j))
      → i < length slots
      → pid_of slot ≡ id e i
      → Fits (id e i)
      → (j : ℕ) (s : Slot A) → get_elem? (set slots i slot) j ≡ some s
      → (e : ℕ) × (pid_of s ≡ id e j) × Fits (id e j)
  own-set slots i e slot own below is fits j s h = elim (Bool-cases (i == j)) [
    | inl here ↦
        let at : j ≡ i = ground arith in
        let found : slot ≡ s =
          some-injective slot s (sym (get_elem?-set_self slots i slot below) ∙ rw at at h) in
        (e, rw (sym found, at) is, rw at fits)
    | inr other ↦
        let ne : i ≢ j = λ p. ground arith in own j s (sym (get_elem?-set_ne slots i j slot ne) ∙ h)
  ]

  -- The slot that a free identifier links from.
  link_free :
      (p : Pid) (o : Option (Slot A)) (n : Option Pid) → link p o ≡ some n → o ≡ some (free p n)
  link_free p none n h = ground arith
  link_free p (some (used q)) n h = ground arith
  link_free p (some (free q m)) n h = elim (Bool-cases (same p q)) [
    | inl e ↦
        let next : m ≡ n = some-injective m n (rw e at h) in rw ((same_iff p q).0 e, next) refl
    | inr e ↦ ground arith
  ]

  pub next_of-free :
      (slots : List (Slot A)) (p : Pid) (n : Option Pid)
      → next_of slots p ≡ some n
      → (e : ℕ) × (s : ℕ) × (p ≡ id e s) × (get_elem? slots s ≡ some (free p n))
  next_of-free slots current n h = ground arith
  next_of-free slots (id e s) n h = (e, s, refl, link_free (id e s) (get_elem? slots s) n h)
