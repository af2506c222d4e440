-- ===== src/Kernel.antt =====
-- Proyecto3/kernel/proc.h and the global variables of Proyecto3/kernel/proc.c: the state of the whole
-- kernel, and the monad of the functions that work on it. `traced_syscall` is the field that
-- Proyecto2/kernel/proc.h has in the place of `usyscall`.
--
-- A process is named by its index in `proc[]`; a null `struct proc *` is `none`. A lock is not part of
-- the state: what the source does between `acquire` and `release` is one step here.
use oscraft.Common.{
  ℕ, zero, suc, ◌+◌, Bool, true, false, Option, none, some, List, ◌∷◌, ◌==◌, if◌then◌else◌,
}
use oscraft.Monad.{Outcome, ok, panic, out_of_fuel, pure, ◌>>◌}
use oscraft.Machine.{Machine, M}

pub data ProcState : Type 0 where
  unused used sleeping runnable running zombie : ProcState

abbrev pub is_unused : ProcState → Bool
is_unused unused = true
is_unused _ = false

abbrev pub is_sleeping : ProcState → Bool
is_sleeping sleeping = true
is_sleeping _ = false

abbrev pub is_runnable : ProcState → Bool
is_runnable runnable = true
is_runnable _ = false

abbrev pub is_running : ProcState → Bool
is_running running = true
is_running _ = false

abbrev pub is_zombie : ProcState → Bool
is_zombie zombie = true
is_zombie _ = false

-- The address that a sleeping process waits on: a `struct proc`, `&ticks`, or another object.
pub data Channel : Type 0 where
  at_proc : ℕ → Channel
  at_ticks : Channel
  at_object : ℕ → Channel

abbrev pub same_channel : Channel → Channel → Bool
same_channel (at_proc i) (at_proc j) = i == j
same_channel at_ticks at_ticks = true
same_channel (at_object a) (at_object b) = a == b
same_channel _ _ = false

-- `p->chan == chan`, where either may be null
abbrev pub same_chan : Option Channel → Option Channel → Bool
same_chan none none = true
same_chan (some a) (some b) = same_channel a b
same_chan _ _ = false

-- `p == q` for `struct proc *`
abbrev pub same_proc : Option ℕ → Option ℕ → Bool
same_proc none none = true
same_proc (some a) (some b) = a == b
same_proc _ _ = false

pub record Proc : Type 0 where
  pub state : ProcState
  pub chan : Option Channel
  pub killed : Bool
  pub xstate : ℕ  -- int, as its 32-bit pattern
  pub pid : ℕ
  pub parent : Option ℕ
  pub kstack : ℕ
  pub sz : ℕ
  pub pagetable : ℕ
  pub trapframe : ℕ
  pub usyscall : ℕ
  pub traced_syscall : ℕ
  pub context_ra : ℕ
  pub context_sp : ℕ
  pub ofile : ℕ → ℕ
  pub cwd : ℕ
  pub name : List ℕ

-- What the kernel prints: a line of `procdump`, the report of a traced call, an unknown call, and
-- a name that `trace` does not know.
pub data Message : Type 0 where
  process : (pid : ℕ) (state : ProcState) (name : List ℕ) → Message
  traced : (pid : ℕ) (syscall : List ℕ) (result s0 s1 a0 a1 : ℕ) → Message
  unknown_syscall : (pid : ℕ) (name : List ℕ) (num : ℕ) → Message
  unknown_trace : List ℕ → Message

pub record Kernel : Type 0 where
  pub mem : Machine
  pub procs : ℕ → Proc
  pub nextpid : ℕ
  pub initproc : Option ℕ
  pub cpu_proc : ℕ → Option ℕ
  pub ticks : ℕ
  pub messages : List Message

abbrev pub K : Type 0 → Type 0
K A = Kernel → Outcome Kernel A

-- What the linker, param.h, vm.h and the file system give: `end`, the trampoline's physical address,
-- `forkret`, NPROC, NOFILE, SBRK_EAGER, and the pointers that `filedup`, `idup` and `namei("/")`
-- return. The reference counts behind those pointers belong to the file system.
pub record Config : Type 0 where
  pub kernel_end : ℕ
  pub trampoline_pa : ℕ
  pub forkret : ℕ
  pub nproc : ℕ
  pub nofile : ℕ
  pub sbrk_eager : ℕ
  pub filedup : ℕ → ℕ
  pub idup : ℕ → ℕ
  pub root_inode : ℕ

abbrev pub on_memory : {A : Type 0} → Kernel → Outcome Machine A → Outcome Kernel A
on_memory k (ok a m) = ok a (record k { mem = m })
on_memory k (panic p) = panic p
on_memory k out_of_fuel = out_of_fuel

-- A function on memory, as a function of the kernel.
abbrev pub mem : {A : Type 0} → M A → K A
mem f k = on_memory k (f k.mem)

abbrev pub get_proc : ℕ → K Proc
get_proc i k = ok (k.procs i) k

abbrev pub put : (ℕ → Proc) → ℕ → Proc → ℕ → Proc
put t i p j = if i == j then p else t j

-- `proc[i]` changed by `f`
abbrev pub set_proc : ℕ → (Proc → Proc) → K (Unit {0})
set_proc i f k = ok tt (record k { procs = put k.procs i (f (k.procs i)) })

abbrev pub get_initproc : K (Option ℕ)
get_initproc k = ok k.initproc k

abbrev pub set_initproc : Option ℕ → K (Unit {0})
set_initproc p k = ok tt (record k { initproc = p })

abbrev pub print : Message → K (Unit {0})
print line k = ok tt (record k { messages = line ∷ k.messages })

-- `for (p = &proc[i]; p < &proc[i + n]; p++) body`
unfoldable pub for_procs : ℕ → ℕ → (ℕ → K (Unit {0})) → K (Unit {0})
for_procs zero i body = pure tt
for_procs (suc n) i body = body i >> for_procs n (i + 1) body
