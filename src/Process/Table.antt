-- ===== src/Process/Table.antt =====
-- kernel/src/process/table.rs: the table of processes. Of a process it reads and sets the identifier;
-- `A` is the rest of it. The global table under its lock is the state that the calls pass on.
pub mod Slots
pub mod Calls
pub mod Stale
use nikka.Common.{
  ℕ, zero, suc, ◌+◌, ◌-◌, ◌≤◌, ◌<◌, ◌≡◌, Bool, true, false, not, Option, some, none, List, [], ◌∷◌,
  ltb, leb, ◌==◌, if◌then◌else◌, Outcome, ok, err, panic, no_process, no_process_slot, ◌>>=◌,
  length, get_elem?, set,
}
use nikka.Process.Pid
use nikka.Process.Pid.{Pid, same}

module _ (A : Type 0) where
  pub record Process : Type 0 where
    pub pid : Pid
    pub state : A

  pub data Slot : Type 0 where
    free : (pid : Pid) → (next : Option Pid) → Slot
    used : (process : Process) → Slot

  pub record Table : Type 0 where
    pub free_slots : Option Pid
    pub process_count : ℕ
    pub table : List Slot

module _ {A : Type 0} where
  -- The loop of `new` that pushes the slots from `slot` on.
  pub new_slots : ℕ → ℕ → ℕ → Outcome (List (Slot A))
  new_slots zero slot len = ok []
  new_slots (suc rounds) slot len =
      let rest = new_slots rounds (slot + 1) len in
      do
        next ← if ltb (slot + 1) len then (Pid.new (slot + 1) >>= λ pid. ok (some pid)) else ok none
        pid ← Pid.new slot
        slots ← rest
        ok (free pid next ∷ slots)

  pub new : ℕ → Outcome (Table A)
  unfolding new_slots
  new len = do
    slots ← new_slots len 0 len
    first ← if ltb 0 len then (Pid.new 0 >>= λ pid. ok (some pid)) else ok none
    ok (record { free_slots = first; process_count = 0; table = slots })

  abbrev pub use_slot : Table A → Process A → Pid → ℕ → Option Pid → Table A
  use_slot self process pid slot next = record {
    free_slots = next;
    process_count = self.process_count + 1;
    table = set self.table slot (used (record process { pid = pid }));
  }

  -- What `allocate` does with the slot of the first free identifier.
  pub allocate_slot : Table A → Process A → Pid → ℕ → Option (Slot A) → Table A × Outcome Pid
  allocate_slot self process pid slot (some (free _ next)) =
      (use_slot self process pid slot next, ok pid)
  allocate_slot self process pid slot (some (used _)) = (self, err no_process_slot)
  allocate_slot self process pid slot none = (self, panic)

  pub allocate : Table A → Process A → Table A × Outcome Pid
  unfolding allocate_slot
  allocate self process = elim self.free_slots [
    | none ↦ (self, err no_process_slot)
    | some pid ↦ elim (Pid.slot pid) [
      | ok slot ↦ allocate_slot self process pid slot (get_elem? self.table slot)
      | err e ↦ (self, err e)
      | panic ↦ (self, panic)
    ]
  ]

  abbrev pub free_slot : Table A → Pid → ℕ → Table A
  free_slot self pid slot = record {
    free_slots = some pid;
    process_count = self.process_count - 1;
    table = set self.table slot (free pid self.free_slots);
  }

  -- What `free` does with the slot of the identifier. `process_count - 1` panics below zero.
  pub free_process : Table A → Pid → ℕ → Option (Slot A) → Table A × Outcome (Unit {0})
  free_process self pid slot (some (used process)) =
      if same process.pid pid
      then if self.process_count == 0 then (self, panic) else elim (Pid.next_epoch pid) [
        | ok next ↦ (free_slot self next slot, ok tt)
        | err e ↦ (self, err e)
        | panic ↦ (self, panic)
      ]
      else (self, err no_process)
  free_process self pid slot (some (free _ _)) = (self, err no_process)
  free_process self pid slot none = (self, err no_process)

  pub free_pid : Table A → Pid → Table A × Outcome (Unit {0})
  unfolding free_process
  free_pid self pid = elim (Pid.slot pid) [
    | ok slot ↦ free_process self pid slot (get_elem? self.table slot)
    | err e ↦ (self, err e)
    | panic ↦ (self, panic)
  ]

  unfoldable pub get_process : Pid → Option (Slot A) → Outcome (Process A)
  get_process pid (some (used process)) =
      if same process.pid pid then ok process else err no_process
  get_process pid (some (free _ _)) = err no_process
  get_process pid none = err no_process

  unfoldable pub get : Table A → Pid → Outcome (Process A)
  unfolding get_process
  get self pid = do slot ← Pid.slot pid; get_process pid (get_elem? self.table slot)
