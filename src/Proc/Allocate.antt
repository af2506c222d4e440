-- ===== src/Proc/Allocate.antt =====
-- `allocproc` of Proyecto3/kernel/proc.c: a slot of the process table gets its memory, or all is given back.
use oscraft.Common.{
  ℕ, suc, take, Bool-cases, ==_iff, [], ◌+◌, ◌-◌, ◌%◌, ◌≤◌, ◌<◌, ◌≡◌, ◌≢◌, ◌⊎◌, refl, ◌∙◌, true,
  false, Option, none, some, List, ◌∷◌, arith, ap, ◌==◌, ==_ne, ==_refl, if◌then◌else◌, inl, inr,
  has,
}
use oscraft.Riscv.{word, pgsize, sv39}
use oscraft.Monad.{ok, pure, ◌>>◌, ◌>>=◌, Returns, Returns-bind, Returns-mono}
use oscraft.Machine.{Machine, in_page, update, splat}
use oscraft.Machine.Cells.{load-ok, store-ok}
use mathlib.Core.Bool.{false≢true}
use oscraft.Kalloc.Contract.{IsFree}
use oscraft.Kalloc.FreeList.{FreeList-unique, taken}
use oscraft.PageTable.Shape.{Kind, lookup}
use oscraft.PageTable.Well.{IsWell}
use oscraft.PageTable.Map.{IsRoot}
use oscraft.PageTable.Frame.{IsFreeable}
use oscraft.PageTable.Fresh.{Filled, filled-IsWell, lookup-filled}
use oscraft.Kernel.{K, set_proc, get_proc, Kernel, Config, Proc, put, mem, on_memory}
use oscraft.Proc.Alloc.{abandon, freeproc, store_int, proc_pagetable}
use oscraft.Proc.NewSpace.{KeepsPlain, FewFree, HasNewSpace}
use oscraft.Proc.Pagetable.{start_entries, Pagetable, proc_pagetable_lem}
use oscraft.Proc.Free.{
  emptied, give, two_given, MayGive, MemoryFreed, freeproc_lem, on_memory-Returns,
}

-- From `k` to `q` the slot `i` has become `p`, memory is `m`, one pid was given, and the other slots are the
-- same.
pub record IsStage (k : Kernel) (i : ℕ) (p : Proc) (m : Machine) (q : Kernel) : Type 0 where
  pub memory : q.mem ≡ m
  pub here : q.procs i ≡ p
  pub others : (j : ℕ) → i ≢ j → q.procs j ≡ k.procs j
  pub pid : q.nextpid ≡ (k.nextpid + 1) % 4294967296

module _ (k : Kernel) (i : ℕ) where
  pub IsStage-set :
      (f : Proc → Proc) (p : Proc) (m : Machine) (q : Kernel)
      → IsStage k i p m q
      → IsStage k i (f p) m (record q { procs = put q.procs i (f (q.procs i)) })
  IsStage-set f p m q x = record {
    memory = x.memory;
    here = rw (==_refl i) (ap f x.here);
    others = λ j ne. rw (==_ne i j ne) (x.others j ne);
    pid = x.pid;
  }

  pub IsStage-mem :
      (p : Proc) (m n : Machine) (q : Kernel)
      → IsStage k i p m q
      → IsStage k i p n (record q { mem = n })
  IsStage-mem p m n q x = record { memory = refl; here = x.here; others = x.others; pid = x.pid }

module _ (c : Config) (k : Kernel) (i : ℕ) where
  -- A process without a page table is abandoned: its slot is cleared and its pages are given back.
  pub abandon_lem :
      (own : ℕ → Kind) (pages : List ℕ) (p : Proc) (q : Kernel)
      → IsWell c.kernel_end own pages q.mem
      → MayGive c.kernel_end own pages p.trapframe
      → MayGive c.kernel_end own (give p.trapframe pages) p.usyscall
      → p.pagetable ≡ 0
      → IsStage k i p q.mem q
      → Returns
          (λ r k'.
            (r ≡ none)
            × IsStage k i (emptied p) k'.mem k'
            × IsWell c.kernel_end own (two_given p pages) k'.mem
            × ((pt vb : ℕ)
                → IsRoot own pt
                → lookup k'.mem.cell 2 pt vb ≡ lookup q.mem.cell 2 pt vb))
          (abandon c i q)
  unfolding abandon
  abandon_lem own pages p q well first second null x =
      let e = x.here in
      Returns-bind _ (freeproc c i q) _
        (freeproc_lem c own pages i q well (rw e first) (rw e second)
          (λ ne. absurd (ne (rw e null))))
        λ _ k' (same, freed). (
          refl,
          rw same
              (IsStage-mem k i (emptied p) q.mem k'.mem _ (IsStage-set k i emptied p q.mem q x)),
          (left k' freed).0,
          (left k' freed).1,
        )
    where
      left :
          (k' : Kernel)
          → MemoryFreed c.kernel_end own pages (q.procs i) q.mem k'.mem
          → IsWell c.kernel_end own (two_given p pages) k'.mem
            × ((pt vb : ℕ) → IsRoot own pt → lookup k'.mem.cell 2 pt vb ≡ lookup q.mem.cell 2 pt vb)
      left k' (inl (z, well', maps)) = (rw x.here at well', maps)
      left k' (inr (ne, z)) = absurd (ne (rw x.here null))

-- A page that is given is free, and so are those that were.
pub has-give : (p : ℕ) (pages : List ℕ) → p ≢ 0 → has p (give p pages) ≡ true
has-give p pages ne = rw (==_ne p 0 ne, ==_refl p)

give-keeps : (p a : ℕ) (pages : List ℕ) → has a pages ≡ true → has a (give p pages) ≡ true
give-keeps p a pages h = elim (Bool-cases (p == 0)) [
  | inl null ↦ rw null h
  | inr there ↦ rw there (ground arith)
]

-- From `m` to `o` every space is one still and maps the same. Fewer than `n` + 7 pages were free, and the
-- first `n` of them are free again.
pub record Restored (kernel_end : ℕ) (own : ℕ → Kind) (n : ℕ) (pages' : List ℕ) (m o : Machine)
    : Type 0 where
  pub own' : ℕ → Kind
  pub well : IsWell kernel_end own' pages' o
  pub back :
      (a : ℕ) (l : List ℕ) → IsFree kernel_end l m → has a (take n l) ≡ true → has a pages' ≡ true
  pub few : FewFree kernel_end (n + 6) m
  pub roots : (pt : ℕ) → IsRoot own pt → IsRoot own' pt
  pub maps : (pt vb : ℕ) → IsRoot own pt → vb < sv39 → lookup o.cell 2 pt vb ≡ lookup m.cell 2 pt vb

-- A change to a free page that is taken shows in no space.
module _ (kernel_end : ℕ) (own : ℕ → Kind) (pages : List ℕ) (r : ℕ) (m g : Machine)
    (well : IsWell kernel_end own (r ∷ pages) m) (fill : Filled r m g) where
  keeps_before :
      (own' : ℕ → Kind) (pages' : List ℕ)
      → KeepsPlain kernel_end own own' pages' g
      → KeepsPlain kernel_end own own' pages' m
  keeps_before own' pages' keeps q l h out plain' =
      let all = FreeList-unique m.cell kernel_end m.freelist l (r ∷ pages) h well.free in
      let out' : has q (r ∷ pages) ≡ false = rw all at out in
      keeps q pages (filled-IsWell kernel_end own pages r m g well fill).free (ground arith) plain'

  rest : IsFree kernel_end pages g
  rest = (filled-IsWell kernel_end own pages r m g well fill).free

  again :
      (pages' : List ℕ) (a n : ℕ)
      → has r pages' ≡ true
      → (has a (take n pages) ≡ true → has a pages' ≡ true)
      → has a (r ∷ take n pages) ≡ true
      → has a pages' ≡ true
  again pages' a n there next h = elim (Bool-cases (a == r)) [
    | inl same ↦ rw ((==_iff a r).0 same) there
    | inr ne ↦ next (ground arith)
  ]

  pub Restored-Filled :
      (n : ℕ) (pages' : List ℕ) (o : Machine)
      → Restored kernel_end own n pages' g o
      → has r pages' ≡ true
      → Restored kernel_end own (suc n) pages' m o
  Restored-Filled n pages' o x there = record {
    own' = x.own';
    well = x.well;
    back = λ a l free h.
        let all = FreeList-unique m.cell kernel_end m.freelist l (r ∷ pages) free well.free in
        again pages' a n there (x.back a pages rest) (rw all at h);
    few = λ l free.
        let h = x.few pages rest in
        rw (FreeList-unique m.cell kernel_end m.freelist l (r ∷ pages) free well.free)
          (omega (arith, h));
    roots = x.roots;
    maps = λ pt vb h lt.
        x.maps pt vb h lt ∙ lookup-filled kernel_end own pages r m g well fill pt vb h;
  }

-- The machine after the page at `u` was taken and cleared and the number `v` was written to its start.
abbrev pub shared_page : ℕ → ℕ → Machine → Machine
shared_page u v m =
    let cell = λ (a : ℕ). if in_page u a then splat 0 else (taken u m).cell a in
    record m {
      cell = update cell u (cell u - cell u % 4294967296 + v % 4294967296);
      freelist = m.cell u;
    }

pub store_int-ok :
    (u v : ℕ) (m : Machine)
    → u ≢ 0
    → store_int u v m
      ≡ ok tt
          (record m { cell = update m.cell u (m.cell u - m.cell u % 4294967296 + v % 4294967296) })
unfolding store_int
store_int-ok u v m ne =
    rw (load-ok u m ne, store-ok u (m.cell u - m.cell u % 4294967296 + v % 4294967296) m ne) refl

pub taken-Filled : (r : ℕ) (m : Machine) → Filled r m (taken r m)
taken-Filled r m = record { freelist = refl; outside = λ a out. rw out }

pub shared-Filled : (u pid : ℕ) (m : Machine) → Filled u m (shared_page u pid m)
shared-Filled u pid m = record {
  freelist = refl;
  outside = λ a out. let ne : u ≢ a = λ z. ground arith in rw (==_ne u a ne, out);
}

-- The slot of a process that was allocated.
abbrev pub allocated : Config → ℕ → Proc → Proc
allocated c root p = record p {
  pagetable = root;
  context_ra = c.forkret;
  context_sp = p.kstack + pgsize;
}

-- Slot `i` has a space of its own, in which its trapframe and shared page are mapped; these two may be freed
-- again and are distinct.
pub record HasProcess (c : Config) (own : ℕ → Kind) (n : ℕ) (k : Kernel) (i : ℕ) (p : Proc)
    (m : Machine) (k' : Kernel) : Type 0 where
  pub root : ℕ
  pub stage : IsStage k i (allocated c root p) k'.mem k'
  pub space : HasNewSpace c.kernel_end own root m (n + 6) (start_entries c p) k'.mem
  pub frame : IsFreeable c.kernel_end space.own' space.pages' p.trapframe
  pub shared : IsFreeable c.kernel_end space.own' space.pages' p.usyscall
  pub apart : p.trapframe ≢ p.usyscall

-- Either the slot `i` is given to the process `p`, or it is cleared, its two pages are free and all spaces are
-- as before.
abbrev pub Allocated :
    Config → (ℕ → Kind) → ℕ → Kernel → ℕ → Proc → Machine → Option ℕ → Kernel → Type 0
Allocated c own n k i p m r k' =
    ((r ≡ some i) × HasProcess c own n k i p m k')
    ⊎ ((r ≡ none)
        × IsStage k i (emptied p) k'.mem k'
        × ((pages' : List ℕ) × Restored c.kernel_end own n pages' m k'.mem
            × (has p.trapframe pages' ≡ true)
            × (has p.usyscall pages' ≡ true)))

pub Allocated-Filled :
    (c : Config) (own : ℕ → Kind) (pages : List ℕ) (r : ℕ) (m g : Machine) (n : ℕ) (k : Kernel)
    (i : ℕ) (p : Proc)
    → IsWell c.kernel_end own (r ∷ pages) m
    → Filled r m g
    → ((l : List ℕ) → has p.trapframe l ≡ true → has p.usyscall l ≡ true → has r l ≡ true)
    → (result : Option ℕ) (k' : Kernel) → Allocated c own n k i p g result k'
    → Allocated c own (suc n) k i p m result k'
Allocated-Filled c own pages r m g n k i p well fill given result k' (inl (e, x)) = inl (
  e,
  record {
    root = x.root;
    stage = x.stage;
    space = record {
      own' = x.space.own';
      pages' = x.space.pages';
      well = x.space.well;
      free = λ l h.
          let all = FreeList-unique m.cell c.kernel_end m.freelist l (r ∷ pages) h well.free in
          let later =
            x.space.free pages (filled-IsWell c.kernel_end own pages r m g well fill).free in
          rw all (ground arith);
      spent = λ l h.
          let all = FreeList-unique m.cell c.kernel_end m.freelist l (r ∷ pages) h well.free in
          let later =
            x.space.spent pages (filled-IsWell c.kernel_end own pages r m g well fill).free in
          rw all (omega (arith, later));
      new = x.space.new;
      here = x.space.here;
      roots = x.space.roots;
      keeps =
          keeps_before c.kernel_end own pages r m g well fill x.space.own' x.space.pages'
            x.space.keeps;
      maps = λ pt vb h lt.
          x.space.maps pt vb h lt ∙ lookup-filled c.kernel_end own pages r m g well fill pt vb h;
      space = x.space.space;
    };
    frame = x.frame;
    shared = x.shared;
    apart = x.apart;
  },
)
Allocated-Filled c own pages r m g n k i p well fill given result k'
      (inr (e, stage, (pages', x, t, u))) =
    inr (
      e,
      stage,
      (
        pages',
        Restored-Filled c.kernel_end own pages r m g well fill n pages' k'.mem x (given pages' t u),
        t,
        u,
      ),
    )

-- the first free page is among the first free pages
first_back :
    (kernel_end : ℕ) (pages' : List ℕ) (m : Machine)
    → ((r : ℕ) (l : List ℕ) → IsFree kernel_end (r ∷ l) m → has r pages' ≡ true)
    → (a : ℕ) (l : List ℕ) → IsFree kernel_end l m
    → has a (take 1 l) ≡ true
    → has a pages' ≡ true
first_back kernel_end pages' m back a [] free h = absurd (false≢true h)
first_back kernel_end pages' m back a (b ∷ l) free h =
    let same : a ≡ b = ground arith in rw same (back b l free)

module _ (c : Config) (k : Kernel) (i : ℕ) (own : ℕ → Kind) (pages : List ℕ) (p : Proc) (q : Kernel)
    (well : IsWell c.kernel_end own pages q.mem) (x : IsStage k i p q.mem q)
    (frame : IsFreeable c.kernel_end own pages p.trapframe)
    (shared : IsFreeable c.kernel_end own pages p.usyscall) (apart : p.trapframe ≢ p.usyscall) where
  still_free :
      (own' : ℕ → Kind) (pages' : List ℕ) (a : ℕ)
      → KeepsPlain c.kernel_end own own' pages' q.mem
      → IsFreeable c.kernel_end own pages a
      → IsFreeable c.kernel_end own' pages' a
  still_free own' pages' a keeps f =
      let (plain', out) = keeps a pages well.free f.taken f.plain in
      record { page = f.page; taken = out; plain = plain' }

  -- what `found` does with the page table that it has made
  abbrev with_pagetable : ℕ → K (Option ℕ)
  with_pagetable pagetable = do
    set_proc i λ p. record p { pagetable = pagetable }
    if pagetable == 0 then abandon c i else do
      set_proc i λ p. record p { context_ra = c.forkret; context_sp = p.kstack + pgsize }
      pure (some i)

  with_pagetable_lem :
      (r : ℕ) (q' : Kernel)
      → q' ≡ record q { mem = q'.mem }
      → Pagetable c own p q.mem r q'.mem
      → Returns (Allocated c own 1 k i p q.mem) (with_pagetable r q')
  with_pagetable_lem r q' same (inl (ne, y)) =
      let z =
        IsStage-set k i (λ p. record p { pagetable = r }) p q'.mem q'
          (rw same (IsStage-mem k i p q.mem q'.mem q x)) in
      let w =
        IsStage-set k i (λ p. record p { context_ra = c.forkret; context_sp = p.kstack + pgsize }) _
          q'.mem _ z in
      rw (==_ne r 0 ne) (
        inl (
          refl,
          record {
            root = r;
            stage = w;
            space = y;
            frame = still_free y.own' y.pages' p.trapframe y.keeps frame;
            shared = still_free y.own' y.pages' p.usyscall y.keeps shared;
            apart = apart;
          },
        ))
  with_pagetable_lem r q' same (inr (null, y)) =
      let z =
        IsStage-set k i (λ p. record p { pagetable = r }) p q'.mem q'
          (rw same (IsStage-mem k i p q.mem q'.mem q x)) in
      let f = still_free y.own' y.pages' p.trapframe y.keeps frame in
      let s = still_free y.own' y.pages' p.usyscall y.keeps shared in
      let listed : has p.usyscall (give p.trapframe y.pages') ≡ false =
        let out = s.taken in ground arith in
      let test : (r == 0) ≡ true = ground arith in
      rw test (
        Returns-mono
          (abandon c i
            (record q' { procs = put q'.procs i (record (q'.procs i) { pagetable = r }) }))
          (abandon_lem c k i y.own' y.pages' (record p { pagetable = r }) _ y.well (λ _. f)
            (λ _. record { page = s.page; taken = listed; plain = s.plain }) null z)
          λ result k' (none', stage, well', maps). inr (
            none',
            stage,
            (
              two_given p y.pages',
              record {
                own' = y.own';
                well = well';
                back = λ a l free h. give-keeps p.usyscall a (give p.trapframe y.pages') (
                    give-keeps p.trapframe a y.pages'
                      (first_back c.kernel_end y.pages' q.mem y.back a l free h));
                few = y.few;
                roots = y.roots;
                maps = λ pt vb h lt. maps pt vb (y.roots pt h) ∙ y.maps pt vb h lt;
              },
              give-keeps p.usyscall p.trapframe (give p.trapframe y.pages')
                  (has-give p.trapframe y.pages' frame.page.not_null),
              has-give p.usyscall (give p.trapframe y.pages') shared.page.not_null,
            ),
          ))

  -- what `found` does with its two pages
  abbrev pub with_pages : K (Option ℕ)
  with_pages = do p ← get_proc i; pagetable ← mem (proc_pagetable c p); with_pagetable pagetable

  pub with_pages_lem :
      c.trampoline_pa + 4096 ≤ word → Returns (Allocated c own 1 k i p q.mem) (with_pages q)
  with_pages_lem text =
      let low = frame.page.below in
      let low' = shared.page.below in
      rw x.here (
        Returns-bind _ (on_memory q (proc_pagetable c p q.mem)) _
          (on_memory-Returns _ q (proc_pagetable c p q.mem)
            (proc_pagetable_lem c p own pages q.mem well text (omega arith) (omega arith)))
          λ r q' (same, y). with_pagetable_lem r q' same y)
