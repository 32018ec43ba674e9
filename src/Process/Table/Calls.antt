-- ===== src/Process/Table/Calls.antt =====
-- `allocate`, `free` and `get` of a well-formed table of processes.
use nikka.Common.{
  ℕ, ◌+◌, ◌^◌, ◌≤◌, ◌<◌, ◌≡◌, ◌≢◌, inl, inr, refl, sym, ◌∙◌, ap, subst, true, false, Option, some,
  none, List, [], ◌∷◌, arith, ltb, ◌==◌, Bool-cases, Error, Outcome, ok, err, panic, no_process,
  no_process_slot, get_elem?, set, get_elem?-set_self, get_elem?-set_ne, lt_of_get_elem?,
}
use mathlib.Core.Option.{some-injective, none-ne-some}
use nikka.Common.FreeList.{IsFreeList-pop, IsFreeList-push}
use nikka.Process.Pid.{Pid, current, id, same}
use nikka.Process.Pid.Words.{same_iff, Fits}
use nikka.Process.Table.{
  Process, Slot, free, used, Table, use_slot, allocate_slot, allocate, free_slot, free_process,
  free_pid, get_process, get,
}
use nikka.Process.Table.Slots.{
  IsValid, link, next_of, next_of-free, used_count-use, used_count-free, own-set,
}

same_self : (p : Pid) → same p p ≡ true
same_self p = (same_iff p p).1 refl

abbrev to_some : {A : Type 0} → Outcome A → Option A
to_some (ok a) = some a
to_some _ = none

err_ne_ok : {A : Type 0} {e : Error} {a : A} → err e ≢ ok a
err_ne_ok h = none-ne-some _ (ap to_some h)

module _ {A : Type 0} where
  next_of-set :
      (slots : List (Slot A)) (e s : ℕ) (old new : Slot A)
      → get_elem? slots s ≡ some old
      → ((d : ℕ)
          → same (id d s) (id e s) ≡ false
          → (link (id d s) (some old) ≡ none) × (link (id d s) (some new) ≡ none))
      → (q : Pid) → same q (id e s) ≡ false
      → next_of slots q ≡ next_of (set slots s new) q
  next_of-set slots e s old new at gone current h = refl
  next_of-set slots e s old new at gone (id d t) h = elim (Bool-cases (s == t)) [
    | inl here ↦
        let t_is : t ≡ s = ground arith in
        let none_at = gone d (rw t_is at h) in
        let written = get_elem?-set_self slots s new (lt_of_get_elem? slots s at) in
        rw (t_is, at, written) (none_at.0 ∙ sym none_at.1)
    | inr other ↦
        let ne : s ≢ t = λ p. ground arith in
        ap (link (id d t)) (sym (get_elem?-set_ne slots s t new ne))
  ]

  -- What `allocate` gives of the table `self`.
  pub record Gives (self : Table A) (process : Process A) : Type 0 where
    pub epoch : ℕ
    pub slot : ℕ
    pub next : Option Pid
    pub was_free : get_elem? self.table slot ≡ some (free (id epoch slot) next)
    pub given :
        allocate self process
        ≡ (use_slot self process (id epoch slot) slot next, ok (id epoch slot))
    pub is_valid : IsValid (use_slot self process (id epoch slot) slot next)
    pub is_found :
        get (use_slot self process (id epoch slot) slot next) (id epoch slot)
        ≡ ok (record process { pid = id epoch slot })

  use_slot-IsValid :
      (self : Table A) (process : Process A) (v : IsValid self) (e s : ℕ) (ps : List Pid)
      (n : Option Pid)
      → v.free_pids ≡ id e s ∷ ps
      → self.free_slots ≡ some (id e s)
      → get_elem? self.table s ≡ some (free (id e s) n)
      → IsValid (use_slot self process (id e s) s n)
  use_slot-IsValid self process v e s ps n pids head at =
      let below = lt_of_get_elem? self.table s at in
      let new : Slot A = used (record process { pid = id e s }) in
      let written = get_elem?-set_self self.table s new below in
      let (d, is, fits) = v.own s (free (id e s) n) at in
      record {
        free_pids = ps;
        is_list =
            IsFreeList-pop same same_iff (next_of self.table) (next_of (set self.table s new))
              (id e s) n ps (rw head at (rw pids at v.is_list)) (rw (at, same_self (id e s)) refl)
              (rw written refl)
              (next_of-set self.table e s (free (id e s) n) new at (λ d h. (rw h refl, refl)));
        own = own-set self.table s e new v.own below refl (subst Fits (sym is) fits);
        counted = omega (
          arith,
          v.counted,
          used_count-use self.table s (id e s) n (record process { pid = id e s }) at,
        );
      }

  gives :
      (self : Table A) (process : Process A) (v : IsValid self) (e s : ℕ) (ps : List Pid)
      (n : Option Pid)
      → v.free_pids ≡ id e s ∷ ps
      → self.free_slots ≡ some (id e s)
      → get_elem? self.table s ≡ some (free (id e s) n)
      → Gives self process
  unfolding allocate allocate_slot get get_process
  gives self process v e s ps n pids head at =
      let new : Slot A = used (record process { pid = id e s }) in
      let written = get_elem?-set_self self.table s new (lt_of_get_elem? self.table s at) in
      record {
        epoch = e;
        slot = s;
        next = n;
        was_free = at;
        given = rw (head, at) refl;
        is_valid = use_slot-IsValid self process v e s ps n pids head at;
        is_found = rw (written, get_process, same_self (id e s)) refl;
      }

  allocate_some :
      (self : Table A) (process : Process A) (v : IsValid self) (p : Pid) (ps : List Pid)
      → v.free_pids ≡ p ∷ ps
      → Gives self process
  allocate_some self process v p ps pids =
      let (head, n, linked, rest) = (rw pids at v.is_list).chain in
      let (e, s, p_is, at) = next_of-free self.table p n linked in
      gives self process v e s ps n (rw p_is at pids) (rw p_is at head) (rw p_is at at)

  -- `allocate` of a valid table fails with `NoProcessSlot` exactly if no slot is free, and then
  -- changes nothing. Else it puts the process into a free slot under that slot's identifier, by which `get` finds
  -- it, and the table stays valid. It never panics.
  pub allocate-get :
      (self : Table A) (process : Process A) (v : IsValid self)
      → (v.free_pids ≡ [] → allocate self process ≡ (self, err no_process_slot))
        × ((p : Pid) (ps : List Pid) → v.free_pids ≡ p ∷ ps → Gives self process)
  unfolding allocate
  allocate-get self process v = (
    λ h. let none_left = (rw h at v.is_list).chain in rw none_left refl,
    allocate_some self process v,
  )

  -- What `free` makes of the slot `s` of a process in use.
  free_slot-IsValid :
      (self : Table A) (process : Process A) (v : IsValid self) (e s : ℕ)
      → get_elem? self.table s ≡ some (used process)
      → e + 1 < 2 ^ 32
      → IsValid (free_slot self (id (e + 1) s) s)
  free_slot-IsValid self process v e s at fits =
      let below = lt_of_get_elem? self.table s at in
      let new : Slot A = free (id (e + 1) s) self.free_slots in
      let written = get_elem?-set_self self.table s new below in
      let (d, is, small) = v.own s (used process) at in
      record {
        free_pids = id (e + 1) s ∷ v.free_pids;
        is_list =
            IsFreeList-push same same_iff (next_of self.table) (next_of (set self.table s new))
              self.free_slots (id (e + 1) s) v.free_pids v.is_list (rw at refl)
              (rw (written, same_self (id (e + 1) s)) refl)
              (next_of-set self.table (e + 1) s (used process) new at (λ d h. (refl, rw h refl)));
        own = own-set self.table s (e + 1) new v.own below refl (fits, small.1);
        counted = omega (
          arith,
          v.counted,
          used_count-free self.table s (id (e + 1) s) self.free_slots process at,
        );
      }

  -- What `free` does to the table `self` for the identifier of a process in it.
  pub record Frees (self : Table A) (e s : ℕ) : Type 0 where
    pub freed : free_pid self (id e s) ≡ (free_slot self (id (e + 1) s) s, ok tt)
    pub is_valid : IsValid (free_slot self (id (e + 1) s) s)
    pub is_gone : get (free_slot self (id (e + 1) s) s) (id e s) ≡ err no_process

  ok_injective : (p q : Process A) → ok p ≡ ok q → p ≡ q
  ok_injective p q h = some-injective p q (ap to_some h)

  pub found :
      (pid : Pid) (o : Option (Slot A)) (process : Process A)
      → get_process pid o ≡ ok process
      → (o ≡ some (used process)) × (same process.pid pid ≡ true)
  unfolding get_process
  found pid none process h = ground arith
  found pid (some (free q n)) process h = ground arith
  found pid (some (used q)) process h = elim (Bool-cases (same q.pid pid)) [
    | inl e ↦
        let at : q ≡ process = ok_injective q process (rw e at h) in
        (ap (λ r. some (used r)) at, rw at at e)
    | inr e ↦ absurd (err_ne_ok (rw e at h))
  ]

  missing :
      (self : Table A) (pid : Pid) (s : ℕ) (o : Option (Slot A))
      → get_process pid o ≡ err no_process
      → free_process self pid s o ≡ (self, err no_process)
  unfolding get_process free_process
  missing self pid s none h = refl
  missing self pid s (some (free q n)) h = refl
  missing self pid s (some (used q)) h = elim (Bool-cases (same q.pid pid)) [
    | inl e ↦ absurd (err_ne_ok (sym (rw e at h)))
    | inr e ↦ rw e refl
  ]

  -- If `get` of a valid table finds a process, `free` of the same identifier puts its slot before
  -- the free ones with the next epoch: the table stays valid, and the old identifier finds no
  -- process. Only if the epoch does not fit a `u32` does it panic. If `get` finds none, `free` fails with
  -- `NoProcess` and changes nothing.
  pub free_lem :
      (self : Table A) (e s : ℕ)
      → IsValid self
      → ((process : Process A)
          → get self (id e s) ≡ ok process
          → (e + 1 < 2 ^ 32 → Frees self e s)
            × (2 ^ 32 ≤ e + 1 → free_pid self (id e s) ≡ (self, panic)))
        × (get self (id e s) ≡ err no_process → free_pid self (id e s) ≡ (self, err no_process))
  unfolding get get_process free_pid free_process
  free_lem self e s v = (
    λ process h.
        let (at, own) = found (id e s) (get_elem? self.table s) process h in
        let some_process = used_count-free self.table s current none process at in
        let counted : (self.process_count == 0) ≡ false = ground (arith, v.counted) in
        (
          λ fits.
              let small : ltb (e + 1) (2 ^ 32) ≡ true = ground arith in
              let new : Slot A = free (id (e + 1) s) self.free_slots in
              let written = get_elem?-set_self self.table s new (lt_of_get_elem? self.table s at) in
              record {
                freed = rw (at, free_process, own, counted, small) refl;
                is_valid = free_slot-IsValid self process v e s at fits;
                is_gone = rw (written) refl;
              },
          λ big.
              let large : ltb (e + 1) (2 ^ 32) ≡ false = ground arith in
              rw (at, free_process, own, counted, large) refl,
        ),
    missing self (id e s) s (get_elem? self.table s),
  )
