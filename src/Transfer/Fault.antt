-- ===== src/Transfer/Fault.antt =====
-- `vmfault` of Proyecto3/kernel/vm.c: lazily allocated memory gets its page on the first use.
use oscraft.Common.{
  ℕ, ◌/◌, ◌≤◌, ◌<◌, ◌≡◌, refl, ◌∙◌, Bool, true, false, ◌⊎◌, List, [], ◌∷◌, arith, leb, ◌==◌, ==_ne,
  if◌then◌else◌, Bool-cases, inl, inr, bit_or, length,
}
use oscraft.Riscv.{is_valid, pa2pte, pte_v, maxva, sv39, pgrounddown}
use oscraft.Monad.{Returns, Returns-bind, pure, ◌>>◌}
use oscraft.Machine.{Machine, in_page, splat}
use oscraft.Machine.Cells.{memset_page-ok}
use oscraft.Kalloc.{kfree}
use oscraft.Kalloc.FreeList.{taken, freed, kfree-ok, kalloc-nil, kalloc-ok}
use oscraft.PageTable.{mappages}
use oscraft.PageTable.Shape.{Kind, table, lookup}
use oscraft.PageTable.Well.{IsWell}
use oscraft.PageTable.Frame.{lookup-page, lookup-frame, IsFreeable, freed_tables, freed-IsWell}
use oscraft.PageTable.Map.{IsRoot, PageMapped, at_page}
use oscraft.PageTable.Fresh.{Filled, filled-IsWell, lookup-filled, frame-IsFreeable, frame_words}
use oscraft.PageTable.Single.{mappages-page}
use oscraft.PageTable.Access.{ismapped-is_valid}
use oscraft.Transfer.{vmfault}

-- the entry of a page that a fault brings in: readable, writable and for the user
abbrev pub fault_pte : ℕ → ℕ
fault_pte r = bit_or (bit_or (pa2pte r) 22) pte_v

-- How a fault at `va` ends, from `m` to `n` with the result `r`: it is refused; or memory runs out, with
-- at most one page left and nothing mapped; or the page has a zeroed frame, and all else is mapped as
-- before.
pub data Faulted (kernel_end : ℕ) (own : ℕ → Kind) (root psz va : ℕ) (m : Machine)
    : ℕ → Machine → Type 0 where
  refused :
      (psz ≤ va) ⊎ (is_valid (lookup m.cell 2 root va) ≡ true)
      → Faulted kernel_end own root psz va m 0 m
  spent :
      {n : Machine} (own' : ℕ → Kind) (pages' : List ℕ)
      → va < psz
      → is_valid (lookup m.cell 2 root va) ≡ false
      → IsWell kernel_end own' pages' n
      → ((p k e : ℕ) → own p ≡ table k e → own' p ≡ table k e)
      → length pages' ≤ 1
      → ((pt vb : ℕ) → IsRoot own pt → vb < sv39 → lookup n.cell 2 pt vb ≡ lookup m.cell 2 pt vb)
      → Faulted kernel_end own root psz va m 0 n
  served :
      {r : ℕ} {n : Machine} (own' : ℕ → Kind) (pages' : List ℕ)
      → va < psz
      → is_valid (lookup m.cell 2 root va) ≡ false
      → IsWell kernel_end own' pages' n
      → ((p k e : ℕ) → own p ≡ table k e → own' p ≡ table k e)
      → IsFreeable kernel_end own' pages' r
      → ((a : ℕ) → in_page r a ≡ true → n.cell a ≡ 0)
      → ((pt vb : ℕ)
          → IsRoot own pt
          → vb < sv39
          → lookup n.cell 2 pt vb
            ≡ (if at_page root va pt vb then fault_pte r else lookup m.cell 2 pt vb))
      → Faulted kernel_end own root psz va m r n

-- the machine with the first free page taken and zeroed
abbrev zeroed : ℕ → Machine → Machine
zeroed r m = record (taken r m) { cell = λ a. if in_page r a then splat 0 else (taken r m).cell a }

module _ (kernel_end : ℕ) (own : ℕ → Kind) (pages : List ℕ) (r : ℕ) (m : Machine)
    (well : IsWell kernel_end own (r ∷ pages) m) where
  fill : Filled r m (zeroed r m)
  fill = record { freelist = refl; outside = λ a h. rw h }

  lookup_same :
      (pt vb : ℕ) → IsRoot own pt → lookup (zeroed r m).cell 2 pt vb ≡ lookup m.cell 2 pt vb
  lookup_same = lookup-filled kernel_end own pages r m (zeroed r m) well fill

  frame :
      {root va : ℕ} (v : ℕ) (n : Machine) (done : Bool)
      → (x : PageMapped kernel_end own root va v (zeroed r m) done n)
      → IsFreeable kernel_end x.own' x.pages' r
  frame v n done x = frame-IsFreeable kernel_end own pages r m (zeroed r m) well fill _ _ v n done x

  -- The frame that is mapped, or given back.
  finish :
      (root psz va : ℕ)
      → IsRoot own root
      → va < psz
      → va < maxva
      → is_valid (lookup m.cell 2 root va) ≡ false
      → (done : Bool) (n : Machine)
      → PageMapped kernel_end own root (pgrounddown va) (fault_pte r) (zeroed r m) done n
      → Returns
          (Faulted kernel_end own root psz va m)
          ((if done then pure r else (do kfree kernel_end r; pure 0)) n)
  finish root psz va hr inside small empty true n x =
      let page : pgrounddown va / 4096 ≡ va / 4096 = omega arith in
      served x.own' x.pages' inside empty x.well x.grows (frame _ n true x)
        (λ a i.
          frame_words kernel_end own pages r m (zeroed r m) well fill root _ _ n true x a i ∙ rw i)
        (λ pt vb hp hb. rw (← lookup_same pt vb hp, ← page) (x.after pt vb hp hb))
  finish root psz va hr inside small empty false n x =
      let h = frame _ n false x in
      let none = x.fails refl in
      rw (kfree-ok kernel_end r n well.free.1) (
        spent x.own' (r ∷ x.pages') inside empty
          (freed-IsWell kernel_end x.own' x.pages' n x.well r h) x.grows (rw none (omega arith))
          (λ pt vb hp hb.
            lookup-frame kernel_end x.own' n.cell (freed r n).cell x.well.tree
              (freed_tables kernel_end x.own' x.pages' n x.well r h) 2 pt hp.0 vb
              (x.grows pt 2 hp.0 hp.1)
            ∙ x.after pt vb hp hb
            ∙ lookup_same pt vb hp))

  fault_free :
      (root psz va : ℕ) (read : Bool)
      → IsRoot own root
      → va < psz
      → va < maxva
      → is_valid (lookup m.cell 2 root va) ≡ false
      → Returns (Faulted kernel_end own root psz va m) (vmfault kernel_end root psz va read m)
  unfolding vmfault
  fault_free root psz va read hr inside small empty =
      let beyond : leb psz va ≡ false = ground arith in
      let there : (r == 0) ≡ false = ==_ne r 0 well.free.1.not_null in
      let page : lookup m.cell 2 root (pgrounddown va) ≡ lookup m.cell 2 root va =
        lookup-page m.cell root (pgrounddown va) va (omega arith) in
      rw
        (
          beyond,
          ismapped-is_valid kernel_end own m root (pgrounddown va) well.tree hr (omega arith),
          page,
          empty,
          kalloc-ok kernel_end r m well.free.0 well.free.1.not_null,
          there,
          memset_page-ok r 0 (taken r m) well.free.1.not_null,
        )
        (Returns-bind _ (mappages root (pgrounddown va) 4096 r 22 (zeroed r m)) _
          (mappages-page kernel_end own pages (zeroed r m) root (pgrounddown va) r 22
            (filled-IsWell kernel_end own pages r m (zeroed r m) well fill) hr (omega arith)
            (omega arith) (let b = well.free.1.below in omega arith)
            (rw (lookup_same root (pgrounddown va) hr, page) empty))
          (finish root psz va hr inside small empty))

-- Where the free list and the page tables are well formed, and for a process size of at most MAXVA:
-- `vmfault` returns, and one of three things has happened. The address is outside of the process or its
-- page is mapped; the result is 0 and nothing has changed. Or the address is inside and its page is not
-- mapped, but memory runs out; the result is 0, at most one page is free, and every page of every space
-- is mapped as before. Or the result is a frame that no table and no free page uses, filled with zeros;
-- the page is mapped to it, readable, writable and for the user, and every other page of every space is
-- mapped as before. All stays well formed.
pub vmfault_lem :
    (kernel_end : ℕ) (own : ℕ → Kind) (pages : List ℕ) (m : Machine) (root psz va : ℕ) (read : Bool)
    → IsWell kernel_end own pages m
    → IsRoot own root
    → psz ≤ maxva
    → Returns (Faulted kernel_end own root psz va m) (vmfault kernel_end root psz va read m)
unfolding vmfault
vmfault_lem kernel_end own pages m root psz va read well hr fits = elim (Bool-cases (leb psz va)) [
  | inl out ↦ rw out (refused (inl (ground arith)))
  | inr inside ↦ elim (Bool-cases (is_valid (lookup m.cell 2 root va))) [
    | inl v ↦
        let page = lookup-page m.cell root (pgrounddown va) va (omega arith) in
        rw
          (
            inside,
            ismapped-is_valid kernel_end own m root (pgrounddown va) well.tree hr (ground arith),
            page,
            v,
          )
          (refused (inr v))
    | inr v ↦ enter pages well (ground arith) (ground arith) v
  ]
]
  where
    enter :
        (pages : List ℕ)
        → IsWell kernel_end own pages m
        → va < psz
        → va < maxva
        → is_valid (lookup m.cell 2 root va) ≡ false
        → Returns (Faulted kernel_end own root psz va m) (vmfault kernel_end root psz va read m)
    enter [] well inside small v =
        let page = lookup-page m.cell root (pgrounddown va) va (omega arith) in
        let beyond : leb psz va ≡ false = ground arith in
        rw
          (
            beyond,
            ismapped-is_valid kernel_end own m root (pgrounddown va) well.tree hr (omega arith),
            page,
            v,
            kalloc-nil kernel_end m well.free,
          )
          (spent own [] inside v well (λ p k e t. t) (omega arith) (λ pt vb hp hb. refl))
    enter (r ∷ rest) well inside small v =
        fault_free kernel_end own rest r m well root psz va read hr inside small v
