-- ===== src/Proc/Free.antt =====
-- `freeproc` of Proyecto3/kernel/proc.c: a slot of the process table is cleared and all its memory freed.
use oscraft.Common.{
  none, [], false, ℕ, suc, ◌≡◌, ◌≢◌, ◌⊎◌, refl, ◌∙◌, List, ◌∷◌, arith, ◌==◌, if◌then◌else◌,
  Bool-cases, inl, inr,
}
use oscraft.Monad.{Outcome, ok, panic, out_of_fuel, pure, Returns, Returns-bind}
use oscraft.Machine.{Machine}
use oscraft.Kalloc.{kfree}
use oscraft.Kalloc.FreeList.{freed, kfree-ok}
use oscraft.PageTable.Shape.{Kind, lookup}
use oscraft.PageTable.Well.{IsWell}
use oscraft.PageTable.Map.{IsRoot}
use oscraft.PageTable.Frame.{IsFreeable, freed_tables, freed-IsWell, lookup-frame}
use oscraft.UserMemory.Free.{SpaceFreed}
use oscraft.Kernel.{unused, Kernel, Config, Proc, mem, on_memory, put}
use oscraft.Proc.Alloc.{freeproc, cleared, proc_freepagetable}
use oscraft.Proc.Space.{
  IsSpace, space_freed, SameBelow, IsSpace-same, space_freed-same, SpaceFreed-same,
  proc_freepagetable_lem,
}

-- The free pages and the machine after the page at `p`, where there is one, was given back.
abbrev pub give : ℕ → List ℕ → List ℕ
give p pages = if p == 0 then pages else p ∷ pages

abbrev given : ℕ → Machine → Machine
given p m = if p == 0 then m else freed p m

-- The page at `p`, where there is one, may be given back.
abbrev pub MayGive : ℕ → (ℕ → Kind) → List ℕ → ℕ → Type 0
MayGive kernel_end own pages p = p ≢ 0 → IsFreeable kernel_end own pages p

module _ (kernel_end : ℕ) (own : ℕ → Kind) (pages : List ℕ) (p : ℕ)
    (free : MayGive kernel_end own pages p) where
  give-ok :
      (k : Kernel)
      → (if p == 0 then pure tt else mem (kfree kernel_end p)) k
        ≡ ok tt (record k { mem = given p k.mem })
  give-ok k = elim (Bool-cases (p == 0)) [
    | inl null ↦ rw null
    | inr there ↦
        let ne : p ≢ 0 = ground arith in
        let f = free ne in rw (there, kfree-ok kernel_end p k.mem f.page)
  ]

  given-IsWell :
      (m : Machine)
      → IsWell kernel_end own pages m
      → IsWell kernel_end own (give p pages) (given p m)
  given-IsWell m well = elim (Bool-cases (p == 0)) [
    | inl null ↦ rw null well
    | inr there ↦
        let ne : p ≢ 0 = ground arith in
        rw there (freed-IsWell kernel_end own pages m well p (free ne))
  ]

  given-SameBelow :
      (root : ℕ) (m : Machine) → IsWell kernel_end own pages m → SameBelow own root m (given p m)
  given-SameBelow root m well = elim (Bool-cases (p == 0)) [
    | inl null ↦ rw null (record { upper = λ q k e i h hi. refl; maps = λ pt vb h lt out. refl })
    | inr there ↦
        let ne : p ≢ 0 = ground arith in
        let tables = freed_tables kernel_end own pages m well p (free ne) in
        rw there (record {
          upper = λ q k e i h hi. tables q (suc k) e i h hi;
          maps = λ pt vb h lt out.
              lookup-frame kernel_end own m.cell (freed p m).cell well.tree tables 2 pt h.0 vb h.1;
        })
  ]

  given-lookup :
      (m : Machine)
      → IsWell kernel_end own pages m
      → (pt vb : ℕ) → IsRoot own pt
      → lookup (given p m).cell 2 pt vb ≡ lookup m.cell 2 pt vb
  given-lookup m well pt vb h = elim (Bool-cases (p == 0)) [
    | inl null ↦ rw null
    | inr there ↦
        let ne : p ≢ 0 = ground arith in
        let tables = freed_tables kernel_end own pages m well p (free ne) in
        rw there
          (lookup-frame kernel_end own m.cell (freed p m).cell well.tree tables 2 pt h.0 vb h.1)
  ]

pub on_memory-Returns :
    {A : Type 0} (P : A → Machine → Type 0) (k : Kernel) (r : Outcome Machine A)
    → Returns P r
    → Returns (λ a k'. (k' ≡ record k { mem = k'.mem }) × P a k'.mem) (on_memory k r)
on_memory-Returns P k (ok a m) h = (refl, h)
on_memory-Returns P k (panic p) h = h
on_memory-Returns P k out_of_fuel h = h

-- The free pages once the trapframe and the shared page of a process were given back.
abbrev pub two_given : Proc → List ℕ → List ℕ
two_given p pages = give p.usyscall (give p.trapframe pages)

-- What `freeproc` does to memory for a process: without a page table all spaces map the same, and with
-- one its space is given back, too.
abbrev pub MemoryFreed : ℕ → (ℕ → Kind) → List ℕ → Proc → Machine → Machine → Type 0
MemoryFreed kernel_end own pages p m o =
    ((p.pagetable ≡ 0)
      × IsWell kernel_end own (two_given p pages) o
      × ((pt vb : ℕ) → IsRoot own pt → lookup o.cell 2 pt vb ≡ lookup m.cell 2 pt vb))
    ⊎ ((p.pagetable ≢ 0)
        × SpaceFreed kernel_end own (space_freed m.cell p.pagetable p.sz (two_given p pages))
            p.pagetable m o)

-- A slot without a process: unused, without a pid, a name, a channel, a kill, a status or memory.
abbrev pub emptied : Proc → Proc
emptied p = record p {
  state = unused;
  pid = 0;
  name = [];
  chan = none;
  killed = false;
  xstate = 0;
  sz = 0;
  pagetable = 0;
  trapframe = 0;
  usyscall = 0;
}

module _ (c : Config) (own : ℕ → Kind) (pages : List ℕ) (i : ℕ) (k : Kernel) where
  abbrev proc : Proc
  proc = k.procs i

  -- what is left once the space was given back is to clear the slot
  freed_end :
      (m n : Machine) (k' : Kernel) (list mid list' : List ℕ)
      → IsWell c.kernel_end own mid k.mem
      → IsWell c.kernel_end own list m
      → SameBelow own proc.pagetable k.mem m
      → SameBelow own proc.pagetable m n
      → SpaceFreed c.kernel_end own list' proc.pagetable n k'.mem
      → SpaceFreed c.kernel_end own list' proc.pagetable k.mem k'.mem
  freed_end m n k' list mid list' well well' x y z =
      SpaceFreed-same c.kernel_end own mid proc.pagetable proc.sz k.mem m well x list' k'.mem
        (SpaceFreed-same c.kernel_end own list proc.pagetable proc.sz m n well' y list' k'.mem z)

  -- Where the free list and the page tables are well formed: for a process whose trapframe and shared page,
  -- so far as it has them, may be freed, and whose page table, if it has one, is a space, `freeproc`
  -- returns. The slot is unused, with no pid, name, channel, kill, status or memory, its other fields and the
  -- other slots are as before. The trapframe, the shared
  -- page, the frames of the process and the tables of its space are put in front of the free pages in this
  -- order, every other space maps the same, and all stays well formed.
  pub freeproc_lem :
      IsWell c.kernel_end own pages k.mem
      → MayGive c.kernel_end own pages proc.trapframe
      → MayGive c.kernel_end own (give proc.trapframe pages) proc.usyscall
      → (proc.pagetable ≢ 0
          → IsSpace c.kernel_end own (two_given proc pages) k.mem.cell proc.pagetable proc.sz)
      → Returns
          (λ _ k'.
            (k' ≡ record k { mem = k'.mem; procs = put k.procs i (emptied proc) })
            × MemoryFreed c.kernel_end own pages proc k.mem k'.mem)
          (freeproc c i k)
  unfolding freeproc cleared
  freeproc_lem well first second space =
      let m = given proc.trapframe k.mem in
      let n = given proc.usyscall m in
      let root = proc.pagetable in
      let end = c.kernel_end in
      let mid = give proc.trapframe pages in
      let well' = given-IsWell end own pages proc.trapframe first k.mem well in
      let well'' = given-IsWell end own mid proc.usyscall second m well' in
      rw
        (
          give-ok end own pages proc.trapframe first k,
          give-ok end own mid proc.usyscall second (record k { mem = m }),
        )
        (elim (Bool-cases (root == 0)) [
          | inl null ↦
              let none : root ≡ 0 = ground arith in
              rw null (
                refl,
                inl (
                  none,
                  well'',
                  λ pt vb h.
                      given-lookup end own mid proc.usyscall second m well' pt vb h
                      ∙ given-lookup end own pages proc.trapframe first k.mem well pt vb h,
                ),
              )
          | inr there ↦
              let ne : root ≢ 0 = ground arith in
              let x = given-SameBelow end own pages proc.trapframe first root k.mem well in
              let y = given-SameBelow end own mid proc.usyscall second root m well' in
              let list = two_given proc pages in
              let s = IsSpace-same end own pages root proc.sz k.mem m well x list (space ne) in
              let t = IsSpace-same end own mid root proc.sz m n well' y list s in
              let e = space_freed-same end own pages root proc.sz k.mem m well x list (space ne) in
              let d = space_freed-same end own mid root proc.sz m n well' y list s in
              rw there (
                Returns-bind _
                  (on_memory (record k { mem = n }) (proc_freepagetable c root proc.sz n)) _
                  (on_memory-Returns _ (record k { mem = n }) (proc_freepagetable c root proc.sz n)
                    (proc_freepagetable_lem c own list root proc.sz n well'' t))
                  λ _ k' (same, z).
                    rw same (
                      refl,
                      inr (ne, freed_end m n k' mid pages _ well well' x y (rw (d, e) at z)),
                    ))
        ])
