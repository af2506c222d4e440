-- ===== src/Proc/Found.antt =====
-- `allocproc` of Proyecto3/kernel/proc.c from the label `found`.
use oscraft.Common.{
  take, ◌%◌, ℕ, zero, suc, ◌+◌, ◌≤◌, ◌<◌, ◌≡◌, ◌≢◌, ◌⊎◌, refl, sym, true, false, Option, none, some,
  List, [], ◌∷◌, arith, ap, ◌==◌, ==_ne, ==_refl, if◌then◌else◌, inl, inr, has, Bool-cases, ==_iff,
}
use oscraft.Riscv.{word}
use oscraft.Monad.{Outcome, ok, Returns, Returns-mono}
use oscraft.Machine.{Machine, in_page, splat}
use oscraft.Machine.Cells.{memset_page-ok}
use mathlib.Core.Bool.{false≢true}
use oscraft.Kalloc.Contract.{IsFree}
use oscraft.Kalloc.FreeList.{FreeList-unique, kalloc-nil, kalloc-ok, taken}
use oscraft.PageTable.Shape.{Kind}
use oscraft.PageTable.Well.{IsWell}
use oscraft.PageTable.Frame.{IsFreeable}
use oscraft.PageTable.Fresh.{filled-IsWell, plain}
use oscraft.Kernel.{Kernel, Config, Proc, used, put, is_unused}
use oscraft.Proc.Alloc.{found, abandon, allocpid, find_unused, allocproc}
use oscraft.Proc.Free.{emptied, two_given, MayGive}
use oscraft.Proc.Allocate.{
  IsStage, IsStage-set, IsStage-mem, abandon_lem, Allocated, HasProcess, Allocated-Filled, Restored,
  store_int-ok, shared_page, taken-Filled, shared-Filled, with_pages, with_pages_lem,
  Restored-Filled, has-give,
}

-- A process in the slot with its pid, a trapframe and a shared page.
abbrev pub begun : Kernel → ℕ → (t u : ℕ) → Proc
begun k i t u = record (k.procs i) { pid = k.nextpid; state = used; trapframe = t; usyscall = u }

-- Either the slot is given to a process with two pages that were free, or it is cleared and all spaces are as
-- before.
abbrev pub HasFound : Config → Kernel → ℕ → (ℕ → Kind) → Option ℕ → Kernel → Type 0
HasFound c k i own r k' =
    ((r ≡ some i)
      × ((t u : ℕ) × HasProcess c own 3 k i (begun k i t u) k.mem k'
          × ((l : List ℕ) → IsFree c.kernel_end l k.mem → (has t l ≡ true) × (has u l ≡ true))))
    ⊎ ((r ≡ none)
        × IsStage k i (emptied (k.procs i)) k'.mem k'
        × ((pages' : List ℕ) × Restored c.kernel_end own 3 pages' k.mem k'.mem))

-- what is among the first pages is in the list
listed : (a n : ℕ) (l : List ℕ) → has a (take n l) ≡ true → has a l ≡ true
listed a zero l h = absurd (false≢true h)
listed a (suc n) [] h = h
listed a (suc n) (b ∷ l) h = let later = listed a n l in ground arith

module _ (c : Config) (k : Kernel) (i : ℕ) (own : ℕ → Kind) (text : c.trampoline_pa + 4096 ≤ word)
    (no_shared : (k.procs i).usyscall ≡ 0) (no_space : (k.procs i).pagetable ≡ 0) where
  abbrev numbered : Proc
  numbered = record (k.procs i) { pid = k.nextpid; state = used }

  abbrev start : Kernel
  start = record k { nextpid = (k.nextpid + 1) % 4294967296; procs = put k.procs i numbered }

  start-IsStage : IsStage k i numbered k.mem start
  start-IsStage = record {
    memory = refl;
    here = rw (==_refl i);
    others = λ j ne. rw (==_ne i j ne);
    pid = refl;
  }

  abbrev with_frame : ℕ → Machine → Kernel
  with_frame t m = record start {
    mem = m;
    procs = put start.procs i (record (start.procs i) { trapframe = t });
  }

  with_frame-IsStage :
      (t : ℕ) (m : Machine) → IsStage k i (record numbered { trapframe = t }) m (with_frame t m)
  with_frame-IsStage t m =
      IsStage-set k i (λ p. record p { trapframe = t }) numbered m (record start { mem = m })
        (IsStage-mem k i numbered k.mem m start start-IsStage)

  -- With no page free, the process is abandoned with the pages that it has.
  give_up :
      (n : ℕ) (p : Proc) (q : Kernel)
      → IsWell c.kernel_end own [] q.mem
      → MayGive c.kernel_end own [] p.trapframe
      → p.usyscall ≡ 0
      → p.pagetable ≡ 0
      → emptied p ≡ emptied (k.procs i)
      → IsStage k i p q.mem q
      → Returns
          (λ r k'.
            (r ≡ none)
            × IsStage k i (emptied (k.procs i)) k'.mem k'
            × Restored c.kernel_end own n (two_given p []) q.mem k'.mem)
          (abandon c i q)
  give_up n p q well free null null' same x =
      Returns-mono (abandon c i q)
        (abandon_lem c k i own [] p q well free (λ ne. absurd (ne null)) null' x)
        λ r k' (none', stage, well', maps). (
          none',
          rw (sym same) stage,
          record {
            own' = own;
            well = well';
            back = λ a l h first.
                let none_free =
                  FreeList-unique q.mem.cell c.kernel_end q.mem.freelist l [] h well.free in
                absurd (false≢true (rw none_free at (listed a n l first)));
            few = λ l h.
                rw (FreeList-unique q.mem.cell c.kernel_end q.mem.freelist l [] h well.free)
                  (omega arith);
            roots = λ pt h. h;
            maps = λ pt vb h lt. maps pt vb h;
          },
        )

  two_pages :
      (t u : ℕ) (r : Option ℕ) (k' : Kernel)
      → ((l : List ℕ) → IsFree c.kernel_end l k.mem → (has t l ≡ true) × (has u l ≡ true))
      → Allocated c own 3 k i (begun k i t u) k.mem r k'
      → HasFound c k i own r k'
  two_pages t u r k' before (inl (e, x)) = inl (e, (t, u, x, before))
  two_pages t u r k' before (inr (e, stage, (pages', x, frame, shared))) =
      inr (e, stage, (pages', x))

  -- with two free pages
  found_both :
      (t u : ℕ) (pages : List ℕ)
      → IsWell c.kernel_end own (t ∷ u ∷ pages) k.mem
      → Returns (HasFound c k i own) (found c i k)
  unfolding found allocpid
  found_both t u pages well =
      let end = c.kernel_end in
      let m = taken t k.mem in
      let fill = taken-Filled t k.mem in
      let well' = filled-IsWell end own (u ∷ pages) t k.mem m well fill in
      let n = shared_page u k.nextpid m in
      let fill' = shared-Filled u k.nextpid m in
      let well'' = filled-IsWell end own pages u m n well' fill' in
      let ne = well.free.1.not_null in
      let ne' = well'.free.1.not_null in
      let apart : t ≢ u = let out = well.free.2 in λ z. ground arith in
      let unlisted : has t pages ≡ false = let out = well.free.2 in ground arith in
      let q = record (with_frame t n) {
        procs = put (with_frame t n).procs i (record ((with_frame t n).procs i) { usyscall = u });
      } in
      let x =
        IsStage-set k i (λ p. record p { usyscall = u }) (record numbered { trapframe = t }) n
          (with_frame t n) (with_frame-IsStage t n) in
      let frame : IsFreeable end own pages t = record {
        page = well.free.1;
        taken = unlisted;
        plain = plain end own (u ∷ pages) t k.mem m well fill;
      } in
      let shared : IsFreeable end own pages u = record {
        page = well'.free.1;
        taken = well'.free.2;
        plain = plain end own pages u m n well' fill';
      } in
      rw
        (
          kalloc-ok end t k.mem well.free.0 ne,
          ==_ne t 0 ne,
          kalloc-ok end u m well'.free.0 ne',
          ==_ne u 0 ne',
          memset_page-ok u 0 (taken u m) ne',
          store_int-ok u k.nextpid
              (record (taken u m) {
                cell = λ a. if in_page u a then splat 0 else (taken u m).cell a;
              })
              ne',
        )
        (Returns-mono (with_pages c k i own pages (begun k i t u) q well'' x frame shared apart q)
          (with_pages_lem c k i own pages (begun k i t u) q well'' x frame shared apart text)
          λ r k' y. two_pages t u r k' before (
            Allocated-Filled c own (u ∷ pages) t k.mem m 2 k i (begun k i t u) well fill
              (λ l frame shared. frame) r k'
              (Allocated-Filled c own pages u m n 1 k i (begun k i t u) well' fill'
                (λ l frame shared. shared) r k' y)))
    where
      before : (l : List ℕ) → IsFree c.kernel_end l k.mem → (has t l ≡ true) × (has u l ≡ true)
      before l h =
          rw
            (
              FreeList-unique k.mem.cell c.kernel_end k.mem.freelist l (t ∷ u ∷ pages) h well.free,
              ==_refl t,
              ==_refl u,
            )
            (refl, ground arith)

  -- Where the free list and the page tables are well formed, for a slot without a shared page and a page
  -- table, and a trampoline that does not wrap past 2 ^ 64: `allocproc` returns from its label `found`.
  pub found_lem :
      (pages : List ℕ)
      → IsWell c.kernel_end own pages k.mem
      → Returns (HasFound c k i own) (found c i k)
  unfolding found allocpid
  found_lem [] well = rw (kalloc-nil c.kernel_end k.mem well.free) (
      Returns-mono (abandon c i (with_frame 0 k.mem))
        (give_up 3 (record numbered { trapframe = 0 }) (with_frame 0 k.mem) well
          (λ ne. absurd (ne refl)) no_shared no_space refl (with_frame-IsStage 0 k.mem))
        λ r k' (none', stage, x). inr (none', stage, (_, x)))
  found_lem (t ∷ []) well =
      let end = c.kernel_end in
      let m = taken t k.mem in
      let fill = taken-Filled t k.mem in
      let well' = filled-IsWell end own [] t k.mem m well fill in
      let ne = well.free.1.not_null in
      let q = record (with_frame t m) {
        procs = put (with_frame t m).procs i (record ((with_frame t m).procs i) { usyscall = 0 });
      } in
      let x =
        IsStage-set k i (λ p. record p { usyscall = 0 }) (record numbered { trapframe = t }) m
          (with_frame t m) (with_frame-IsStage t m) in
      rw (kalloc-ok end t k.mem well.free.0 ne, ==_ne t 0 ne, kalloc-nil end m well'.free)
        (Returns-mono (abandon c i q)
          (give_up 2 (begun k i t 0) q well'
            (λ _. record {
              page = well.free.1;
              taken = refl;
              plain = plain end own [] t k.mem m well fill;
            })
            refl no_space refl x)
          λ r k' (none', stage, y). inr (
            none',
            stage,
            (_, Restored-Filled end own [] t k.mem m well fill 2 _ k'.mem y (has-give t [] ne)),
          ))
  found_lem (t ∷ u ∷ pages) well = found_both t u pages well

-- The first unused slot among `n` from `i`, or that there is none.
find_unused_lem :
    (n i : ℕ) (t : ℕ → Proc)
    → ((find_unused n i t ≡ none) × ((j : ℕ) → i ≤ j → j < i + n → is_unused (t j).state ≡ false))
      ⊎ ((j : ℕ) × (find_unused n i t ≡ some j)
          × (j < i + n)
          × (is_unused (t j).state ≡ true)
          × ((l : ℕ) → i ≤ l → l < j → is_unused (t l).state ≡ false))
unfolding find_unused
find_unused_lem zero i t = inl (refl, λ j le lt. absurd (omega arith))
find_unused_lem (suc n) i t = elim (Bool-cases (is_unused (t i).state)) [
  | inl free ↦ inr (i, rw free, omega arith, free, λ l le lt. absurd (omega arith))
  | inr taken ↦ elim (find_unused_lem n (i + 1) t) [
    | inl (e, all) ↦
        inl (rw taken e, λ j le lt. later i taken j le (λ le'. all j le' (omega (arith, lt))))
    | inr (j, e, lt, free, all) ↦ inr (
      j,
      rw taken e,
      omega (arith, lt),
      free,
      λ l le lt'. later i taken l le (λ le'. all l le' lt'),
    )
  ]
]
  where
    later :
        (i : ℕ)
        → is_unused (t i).state ≡ false
        → (j : ℕ) → i ≤ j
        → (i + 1 ≤ j → is_unused (t j).state ≡ false)
        → is_unused (t j).state ≡ false
    later i taken j le next = elim (Bool-cases (i == j)) [
      | inl same ↦ rw (← (==_iff i j).0 same) taken
      | inr ne ↦ next (ground arith)
    ]

allocproc-none :
    (c : Config) (k : Kernel) → find_unused c.nproc 0 k.procs ≡ none → allocproc c k ≡ ok none k
unfolding allocproc
allocproc-none c k e =
    ap (λ o. elim o as (λ _. Outcome Kernel (Option ℕ)) [ none ↦ ok none k | some i ↦ found c i k ])
      e

allocproc-some :
    (c : Config) (k : Kernel) (i : ℕ)
    → find_unused c.nproc 0 k.procs ≡ some i
    → allocproc c k ≡ found c i k
unfolding allocproc
allocproc-some c k i e =
    ap (λ o. elim o as (λ _. Outcome Kernel (Option ℕ)) [ none ↦ ok none k | some i ↦ found c i k ])
      e

-- Where the free list and the page tables are well formed, the unused slots have no shared page and no page
-- table, and the trampoline does not wrap past 2 ^ 64: `allocproc` returns. Without an unused slot the result
-- is null and nothing has changed. Else it works on the first unused slot and no other. Either it returns
-- the slot, and the process in it has the next pid and a new space in which the trampoline, its trapframe and
-- its shared page are mapped and nothing else. The root of the space, the trapframe and the shared page were free
-- pages; the last two are distinct, are free no longer and are no page table, and every old space maps the same.
-- Or the result is null, fewer than 10 pages were free, the slot is cleared, the first three free pages, from
-- which the trapframe, the shared page and the root are taken, are free again, every old space maps the same, and
-- all stays well formed.
pub allocproc_lem :
    (c : Config) (own : ℕ → Kind) (pages : List ℕ) (k : Kernel)
    → IsWell c.kernel_end own pages k.mem
    → c.trampoline_pa + 4096 ≤ word
    → ((j : ℕ)
        → j < c.nproc
        → is_unused (k.procs j).state ≡ true
        → ((k.procs j).usyscall ≡ 0) × ((k.procs j).pagetable ≡ 0))
    → Returns
        (λ r k'.
          (((j : ℕ) → j < c.nproc → is_unused (k.procs j).state ≡ false) × (r ≡ none) × (k' ≡ k))
          ⊎ ((i : ℕ) × (i < c.nproc)
              × (is_unused (k.procs i).state ≡ true)
              × ((j : ℕ) → j < i → is_unused (k.procs j).state ≡ false)
              × HasFound c k i own r k'))
        (allocproc c k)
allocproc_lem c own pages k well text blank = elim (find_unused_lem c.nproc 0 k.procs) [
  | inl (e, all) ↦
      rw (allocproc-none c k e) (inl (λ j lt. all j (omega arith) (omega (arith, lt)), refl, refl))
  | inr (i, e, lt, free, all) ↦
      let small : i < c.nproc = omega (arith, lt) in
      let (no_shared, no_space) = blank i small free in
      rw (allocproc-some c k i e) (
        Returns-mono (found c i k) (found_lem c k i own text no_shared no_space pages well)
          λ r k' x. inr (i, small, free, λ j lt'. all j (omega arith) lt', x))
]
