-- ===== src/Process/Scheduler.antt =====
-- kernel/src/process/scheduler.rs: the round-robin queue of processes.
use nikka.Common.{
  ℕ, zero, suc, ◌≡◌, refl, sym, ◌∙◌, length, append_nil, append_assoc, Bool, true, false, Option,
  some, none, List, [], ◌∷◌, ◌++◌, Outcome, ok, err, panic, if◌then◌else◌,
}
use nikka.Process.Pid.{Pid}
use nikka.Process.Table.{Process, Table, get}

module _ (A : Type 0) where
  pub record Scheduler : Type 0 where
    pub queue : List Pid
    pub table : Table A

module _ {A : Type 0} where
  abbrev pub enqueue : Pid → Scheduler A → Scheduler A
  enqueue pid self = record self { queue = self.queue ++ (pid ∷ []) }

  abbrev pub dequeue : Scheduler A → Scheduler A × Option Pid
  dequeue self = elim self.queue [
    | [] ↦ (self, none)
    | pid ∷ rest ↦ (record self { queue = rest }, some pid)
  ]

  -- `enter_user_mode` runs a process and tells whether it was preempted. Meanwhile the process may
  -- change the table and the queue by its system calls.
  module _ (enter_user_mode : Process A → Scheduler A → Scheduler A × Bool) where
    -- What `run_one` does for the identifier that it has dequeued.
    pub run_pid : Pid → Scheduler A → Outcome (Process A) → Scheduler A × Outcome Bool
    run_pid pid self (ok process) =
        let (after, preempted) = enter_user_mode process self in
        (if preempted then enqueue pid after else after, ok true)
    run_pid pid self (err e) = (self, ok true)
    run_pid pid self panic = (self, panic)

    pub run_one : Scheduler A → Scheduler A × Outcome Bool
    unfolding run_pid
    run_one self =
        let (rest, found) = dequeue self in
        elim found [ none ↦ (self, ok false) | some pid ↦ run_pid pid rest (get rest.table pid) ]

    -- What the process with the identifier `pid` comes to when it is run with the queue `rest`.
    abbrev Runs : Scheduler A → Pid → List Pid → Type 0
    Runs self pid rest =
        (process : Process A) × (get self.table pid ≡ ok process)
        × ((enter_user_mode process (record self { queue = rest })).0.queue ≡ rest)
        × ((enter_user_mode process (record self { queue = rest })).1 ≡ true)

    pub run_many : ℕ → Scheduler A → Scheduler A
    unfolding run_one
    run_many zero self = self
    run_many (suc rounds) self = run_many rounds (run_one self).0

    run_one_lem :
        (self : Scheduler A) (pid : Pid) (rest : List Pid)
        → self.queue ≡ pid ∷ rest
        → Runs self pid rest
        → (run_one self).0.queue ≡ rest ++ (pid ∷ [])
    unfolding run_one run_pid
    run_one_lem self pid rest h (process, found, kept, preempted) =
        rw (h, found, preempted, kept) refl

    -- Each process of `front` runs and is preempted when its turn comes, and leaves the queue to itself.
    abbrev pub AllRun : Scheduler A → List Pid → List Pid → Type 0
    AllRun self [] behind = Unit
    AllRun self (pid ∷ front) behind =
        Runs self pid (front ++ behind) × AllRun (run_one self).0 front (behind ++ (pid ∷ []))

    -- As many rounds of `run_one` as there are processes at the front of the queue, if each of them
    -- is found and preempted in its turn and leaves the queue as it is, put these behind the others
    -- in the same order.
    pub run_many-rotate :
        (self : Scheduler A) (front behind : List Pid)
        → self.queue ≡ front ++ behind
        → AllRun self front behind
        → (run_many (length front) self).queue ≡ behind ++ front
    unfolding run_many
    run_many-rotate self [] behind h r = h ∙ sym (append_nil behind)
    run_many-rotate self (pid ∷ front) behind h r =
        let turn = run_one_lem self pid (front ++ behind) h r.0 in
        run_many-rotate (run_one self).0 front (behind ++ (pid ∷ []))
          (turn ∙ append_assoc front behind (pid ∷ [])) r.1
        ∙ append_assoc behind (pid ∷ []) front
