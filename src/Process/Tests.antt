-- ===== src/Process/Tests.antt =====
-- Runs of the process code, and the theorems about it at concrete arguments.
use nikka.Common.{
  ℕ, zero, suc, ◌≡◌, refl, sym, ap, Bool, true, Option, some, none, [], ◌∷◌, arith, ok, err,
  no_process, get_elem?,
}
use mathlib.Core.Option.{some-injective, none-ne-some}
use nikka.Common.FreeList.{has}
use nikka.Process.Pid.{Pid, current, id, same}
use nikka.Process.Pid.Words.{Fits, same_iff}
use nikka.Process.Table.{Process, Slot, free, used, Table, allocate, free_pid, get, get_process}
use nikka.Process.Table.Slots.{IsValid, next_of, pid_of}
use nikka.Process.Table.Calls.{Gives, Frees, allocate-get, free_lem}
use nikka.Process.Table.Stale.{allocated, start, next, get-free}
use nikka.Process.Scheduler.{Scheduler, run_many, run_many-rotate}

abbrev two_slots : Table ℕ
two_slots = record {
  free_slots = some (id 5 1);
  process_count = 1;
  table = used (record { pid = id 3 0; state = 7 }) ∷ free (id 5 1) none ∷ [];
}

two_slots_complete :
    (i : Pid) (n : Option Pid)
    → next_of two_slots.table i ≡ some n
    → has same same_iff i (id 5 1 ∷ []) ≡ true
two_slots_complete current n h = ground arith
two_slots_complete (id e zero) n h = ground arith
two_slots_complete (id e (suc zero)) n h = ground arith
two_slots_complete (id e (suc (suc s))) n h = ground arith

two_slots_own :
    (i : ℕ) (slot : Slot ℕ)
    → get_elem? two_slots.table i ≡ some slot
    → (e : ℕ) × (pid_of slot ≡ id e i) × Fits (id e i)
two_slots_own zero slot h =
    (3, ap pid_of (sym (some-injective _ slot h)), (omega arith, omega arith))
two_slots_own (suc zero) slot h =
    (5, ap pid_of (sym (some-injective _ slot h)), (omega arith, omega arith))
two_slots_own (suc (suc i)) slot h = absurd (none-ne-some slot h)

two_slots-IsValid : IsValid two_slots
two_slots-IsValid = record {
  free_pids = id 5 1 ∷ [];
  is_list = record {
    chain = (refl, none, refl, refl);
    distinct = (refl, tt);
    complete = two_slots_complete;
  };
  own = two_slots_own;
  counted = refl;
}

allocate-get_example : Gives two_slots (record { pid = current; state = 9 })
unfolding two_slots-IsValid
allocate-get_example =
    (allocate-get two_slots (record { pid = current; state = 9 }) two_slots-IsValid).1 (id 5 1) []
      refl

found : get two_slots (id 3 0) ≡ ok (record { pid = id 3 0; state = 7 })
unfolding get get_process
found = refl

free_lem_example : Frees two_slots 3 0
free_lem_example =
    ((free_lem two_slots 3 0 two_slots-IsValid).0 (record { pid = id 3 0; state = 7 }) found).0
      (omega arith)

abbrev after_free : Table ℕ
after_free = (free_pid two_slots (id 3 0)).0

abbrev after_allocate : Table ℕ
after_allocate = (allocate after_free (record { pid = current; state = 9 })).0

get-free_example : (get after_allocate (id 3 0) ≡ err no_process) × IsValid after_allocate
get-free_example =
    get-free two_slots after_allocate (record { pid = id 3 0; state = 7 }) 3 0 two_slots-IsValid
      found (omega arith) (next start (allocated after_free (record { pid = current; state = 9 })))

-- A process that is preempted at once.
abbrev spin : Process ℕ → Scheduler ℕ → Scheduler ℕ × Bool
spin process self = (self, true)

abbrev waiting : Scheduler ℕ
waiting = record { queue = id 3 0 ∷ id 8 1 ∷ []; table = two_slots }

run_many-rotate_example : (run_many spin 1 waiting).queue ≡ id 8 1 ∷ id 3 0 ∷ []
run_many-rotate_example =
    run_many-rotate spin waiting (id 3 0 ∷ []) (id 8 1 ∷ []) refl
      ((record { pid = id 3 0; state = 7 }, found, refl, refl), tt)
