-- ===== src/PageTable/Map.antt =====
-- `map_page`, the step of `mappages`: it adds one page to one address space.
use oscraft.Common.{
  ℕ, zero, ◌+◌, ◌*◌, ◌/◌, ◌≤◌, length, ◌<◌, ◌≡◌, ◌≢◌, sym, ◌∙◌, Bool, true, false, ◌&&◌, List, [],
  arith, ap, ◌==◌, ==_iff, ==_ne, if◌then◌else◌, Bool-cases, inl, inr, has, bit_or,
}
use mathlib.Core.Bool.{false≢true}
use oscraft.Riscv.{px, is_valid, pa2pte, pte_v, maxva, sv39}
use oscraft.Riscv.Address.{px_injective}
use oscraft.Monad.{Returns, Returns-bind}
use oscraft.Machine.{Machine, update, in_page}
use oscraft.Machine.Cells.{load-ok, store-ok}
use oscraft.Kalloc.FreeList.{FreeList-frame, FreeList-IsPage}
use oscraft.Kalloc.Contract.{IsFree}
use oscraft.PageTable.{walk, map_page}
use oscraft.PageTable.Shape.{Kind, table, IsTree, lookup, entry_at, px-lt}
use oscraft.PageTable.Grow.{own_inside}
use oscraft.PageTable.Write.{
  entry_at-table, lookup-entry_at, entry_at-injective, IsTree-write, lookup-write,
}
use oscraft.PageTable.Well.{IsWell, OutsideTables, TakesFree, KeepsFree, Extends}
use oscraft.PageTable.Walk.{walk-alloc}

-- Addresses in one page use the same entries.
entry_at-page :
    (f : ℕ → ℕ) (pt va vb : ℕ) → va / 4096 ≡ vb / 4096 → entry_at f 2 pt va ≡ entry_at f 2 pt vb
unfolding entry_at
entry_at-page f pt va vb e =
    let two : px 2 va ≡ px 2 vb = omega arith in
    let one : px 1 va ≡ px 1 vb = omega arith in
    let none : px 0 va ≡ px 0 vb = omega arith in rw (two, one, none)

-- whether the address `vb` of the space `pt` lies in the page of `va` of the space `root`
abbrev pub at_page : ℕ → ℕ → ℕ → ℕ → Bool
at_page root va pt vb = (pt == root) && (vb / 4096 == va / 4096)

-- the tables of a whole address space
abbrev pub IsRoot : (ℕ → Kind) → ℕ → Type 0
IsRoot own pt = (e : ℕ) × (own pt ≡ table 2 e)

-- The entry that `walk` returns is that of one page of one space.
pub entry_at-at_page :
    (kernel_end : ℕ) (own : ℕ → Kind) (f : ℕ → ℕ) (root va pt vb : ℕ)
    → IsTree kernel_end own f
    → IsRoot own root
    → IsRoot own pt
    → va < maxva
    → vb < sv39
    → entry_at f 2 root va ≢ 0
    → (entry_at f 2 root va == entry_at f 2 pt vb) ≡ at_page root va pt vb
entry_at-at_page kernel_end own f root va pt vb tree hr hp small small' ne =
    elim (Bool-cases (entry_at f 2 root va == entry_at f 2 pt vb)) [
      | inl e ↦
          let joined =
            entry_at-injective kernel_end own f tree 2 root pt hr.0 hp.0 va vb hr.1 hp.1 ne
              ((==_iff _ _).0 e) in
          let pages =
            px_injective va vb (omega arith) (omega arith) joined.1.0 joined.1.1.0 joined.1.1.1 in
          rw e (ground arith)
      | inr e ↦ elim (Bool-cases (at_page root va pt vb)) [
        | inl p ↦
            let same : pt ≡ root = ground arith in
            let page : va / 4096 ≡ vb / 4096 = ground arith in
            let same_entry : entry_at f 2 root va ≡ entry_at f 2 pt vb =
              rw same (entry_at-page f root va vb page) in
            absurd (false≢true (sym e ∙ (==_iff _ _).1 same_entry))
        | inr p ↦ rw (e, p)
      ]
    ]

-- What `map_page` does from `m` to `n`: where it is `done`, the page of `va` in `root` has the entry
-- `pte`; all else is mapped as before. It fails only when no page is free.
pub record PageMapped (kernel_end : ℕ) (own : ℕ → Kind) (root va pte : ℕ) (m : Machine)
    (done : Bool) (n : Machine) : Type 0 where
  pub own' : ℕ → Kind
  pub pages' : List ℕ
  pub well : IsWell kernel_end own' pages' n
  pub grows : (p k e : ℕ) → own p ≡ table k e → own' p ≡ table k e
  pub rest : (a : ℕ) → OutsideTables own' a → n.cell a ≡ m.cell a
  pub fresh : TakesFree kernel_end own own' pages' m
  pub saved : KeepsFree kernel_end own' pages' m
  pub fails : done ≡ false → pages' ≡ []
  pub spent : (l : List ℕ) → IsFree kernel_end l m → length l ≤ length pages' + 2
  pub after :
      (pt vb : ℕ)
      → IsRoot own pt
      → vb < sv39
      → lookup n.cell 2 pt vb
        ≡ (if done && at_page root va pt vb then pte else lookup m.cell 2 pt vb)

abbrev pub stored : ℕ → ℕ → Machine → Machine
stored a v m = record m { cell = update m.cell a v }

module _ (kernel_end : ℕ) where
  -- A write to the entry of a page keeps the free list.
  pub stored-IsWell :
      (own : ℕ → Kind) (pages : List ℕ) (m : Machine) (q e j v : ℕ)
      → IsWell kernel_end own pages m
      → own q ≡ table 0 e
      → j < 512
      → IsWell kernel_end own pages (stored (q + 8 * j) v m)
  stored-IsWell own pages m q e j v well low small = record {
    free =
        FreeList-frame m.cell (stored (q + 8 * j) v m).cell kernel_end m.freelist pages kept
          well.free;
    tree = IsTree-write kernel_end own m.cell well.tree q e j v low small;
    spare = well.spare;
  }
    where
      apart : (a : ℕ) → has a pages ≡ true → q + 8 * j ≢ a
      apart a h z =
          let p = FreeList-IsPage m.cell kernel_end m.freelist a pages well.free h in
          let t = well.tree.is_page q zero e low in
          let joined : a ≡ q = omega arith in ground (arith, well.spare a h, low, ap own joined)

      kept : (a : ℕ) → has a pages ≡ true → update m.cell (q + 8 * j) v a ≡ m.cell a
      kept a h = rw (==_ne (q + 8 * j) a (apart a h))

  stored-after :
      (own own' : ℕ → Kind) (pages' : List ℕ) (m n : Machine) (root va v : ℕ)
      → ((l : List ℕ) → IsFree kernel_end l m → length l ≤ length pages' + 2)
      → IsRoot own root
      → va < maxva
      → Extends kernel_end own own' pages' m n
      → entry_at n.cell 2 root va ≢ 0
      → PageMapped kernel_end own root va v m true (stored (entry_at n.cell 2 root va) v n)
  stored-after own own' pages' m n root va v used hr small x ne =
      let root' : own' root ≡ table 2 hr.0 = x.grows root 2 hr.0 hr.1 in
      let (q, e, low, place) =
        entry_at-table kernel_end own' n.cell x.well.tree 2 root hr.0 va root' ne in
      record {
        own' = own';
        pages' = pages';
        well = rw place (stored-IsWell own' pages' n q e (px 0 va) v x.well low (px-lt 0 va));
        grows = x.grows;
        rest = λ a h.
            rw (==_ne (entry_at n.cell 2 root va) a (outside q e low place a h)) (x.rest a h);
        fresh = x.fresh;
        saved = x.saved;
        fails = λ z. absurd (false≢true (sym z));
        spent = used;
        after = λ pt vb hp hb.
            let pt' : own' pt ≡ table 2 hp.0 = x.grows pt 2 hp.0 hp.1 in
            rw (← place) at (
              lookup-write kernel_end own' n.cell x.well.tree q e (px 0 va) v low (px-lt 0 va) 2 pt
                hp.0 vb pt')
            ∙ rw (
              entry_at-at_page kernel_end own' n.cell root va pt vb x.well.tree (hr.0, root')
                  (hp.0, pt') small hb ne,
              x.maps 2 pt hp.0 vb hp.1,
            );
      }
    where
      outside :
          (q e : ℕ)
          → own' q ≡ table 0 e
          → entry_at n.cell 2 root va ≡ q + 8 * px 0 va
          → (a : ℕ) → OutsideTables own' a
          → entry_at n.cell 2 root va ≢ a
      outside q e low place a h z =
          let inside : in_page q (q + 8 * px 0 va) ≡ true = own_inside q (px 0 va) (px-lt 0 va) in
          false≢true (sym (h q 0 e low) ∙ ap (in_page q) (sym z ∙ place) ∙ inside)

  -- Where the free list and the page tables are well formed: for a page of the space `root` below
  -- MAXVA that is not mapped yet, `map_page` returns. If it is done, the page has the new entry and
  -- every other page of every space is mapped as before; if not, no page is free, and every page of
  -- every space is mapped as before. Words outside of page tables do not change, and all stays well
  -- formed.
  pub map_page_lem :
      (own : ℕ → Kind) (pages : List ℕ) (m : Machine) (root va pa perm : ℕ)
      → IsWell kernel_end own pages m
      → IsRoot own root
      → va < maxva
      → is_valid (lookup m.cell 2 root va) ≡ false
      → Returns
          (PageMapped kernel_end own root va (bit_or (bit_or (pa2pte pa) perm) pte_v) m)
          (map_page root va pa perm m)
  unfolding map_page
  map_page_lem own pages m root va pa perm well hr small empty =
      Returns-bind _ (walk root va true m) _
        (walk-alloc kernel_end root hr.0 va own pages m well hr.1 small)
        λ a n w. elim w.result [
          | inl (null, none) ↦ rw null (record {
            own' = w.own';
            pages' = w.pages';
            well = w.extends.well;
            grows = w.extends.grows;
            rest = w.extends.rest;
            fresh = w.extends.fresh;
            saved = w.extends.saved;
            fails = λ z. none;
            spent = w.spent;
            after = λ pt vb hp hb. w.extends.maps 2 pt hp.0 vb hp.1;
          })
          | inr (there, place) ↦
              let unmapped : is_valid (n.cell a) ≡ false = rw place (
                rw
                  (
                    ← lookup-entry_at kernel_end w.own' n.cell w.extends.well.tree 2 root va
                        (λ z. there (place ∙ z)),
                    w.extends.maps 2 root hr.0 va hr.1,
                  )
                  empty) in
              rw (==_ne a 0 there, load-ok a n there, unmapped, store-ok a _ n there)
                (rw place (
                  stored-after own w.own' w.pages' m n root va
                    (bit_or (bit_or (pa2pte pa) perm) pte_v) w.spent hr small w.extends
                    (λ z. there (place ∙ z))))
        ]
