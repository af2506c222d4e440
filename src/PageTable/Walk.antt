-- ===== src/PageTable/Walk.antt =====
-- `walk` with `alloc`: it may add tables, and changes nothing that any table maps.
use oscraft.Common.{
  ℕ, zero, suc, ◌+◌, ◌*◌, ◌≤◌, ◌<◌, length, ◌≡◌, ◌≢◌, refl, ◌∙◌, Bool, true, false, List, [], ◌∷◌,
  arith, leb, ◌==◌, ==_ne, Bool-cases, ◌⊎◌, inl, inr, bit_or,
}
use oscraft.Riscv.{px, is_valid, pte2pa, pa2pte, pte_v, maxva}
use oscraft.Monad.{ok, Returns, Returns-mono}
use oscraft.Machine.{Machine}
use oscraft.Machine.Cells.{load-ok, store-ok, memset_page-ok}
use oscraft.Kalloc.Contract.{IsFree}
use oscraft.Kalloc.FreeList.{FreeList-unique, taken, kalloc-ok, kalloc-nil}
use oscraft.PageTable.{walk_from, walk}
use oscraft.PageTable.Shape.{Kind, table, IsTree, entry_at, px-lt, walk_from-read}
use oscraft.PageTable.Well.{
  IsWell, Extends, table_entry, linked, at_slot, owner, link-IsWell, link-owner, link-Extends,
  Extends-refl, Extends-trans,
}

-- Null and no page left, or the address of the entry.
abbrev Ends : List ℕ → (level pt va a : ℕ) → Machine → Type 0
Ends pages' level pt va a n =
    ((a ≡ 0) × (pages' ≡ [])) ⊎ ((a ≢ 0) × (a ≡ entry_at n.cell level pt va))

Ends-suc :
    (pages' : List ℕ) (level pt va a v : ℕ) (n : Machine)
    → n.cell (pt + 8 * px (suc level) va) ≡ v
    → is_valid v ≡ true
    → Ends pages' level (pte2pa v) va a n
    → Ends pages' (suc level) pt va a n
unfolding entry_at
Ends-suc pages' level pt va a v n stays valid h = rw (stays, valid) h

module _ (kernel_end : ℕ) where
  -- How `walk` with `alloc` ends at a table: with the entry, or with null and no page left.
  pub record Walked (own : ℕ → Kind) (level pt va : ℕ) (m : Machine) (a : ℕ) (n : Machine)
      : Type 0 where
    pub own' : ℕ → Kind
    pub pages' : List ℕ
    pub extends : Extends kernel_end own own' pages' m n
    pub spent : (l : List ℕ) → IsFree kernel_end l m → length l ≤ length pages' + level
    pub result : Ends pages' level pt va a n

  -- a valid entry leads on to the table below
  below :
      (own : ℕ → Kind) (level pt ptr va : ℕ) (m n : Machine) (a : ℕ)
      → own pt ≡ table (suc level) ptr
      → is_valid (m.cell (pt + 8 * px (suc level) va)) ≡ true
      → Walked own level (pte2pa (m.cell (pt + 8 * px (suc level) va))) va m a n
      → Walked own (suc level) pt va m a n
  below own level pt ptr va m n a h valid w =
      let stays = w.extends.keeps pt level ptr (px (suc level) va) h (px-lt (suc level) va) valid in
      record {
        own' = w.own';
        pages' = w.pages';
        extends = w.extends;
        spent = λ l free. let h = w.spent l free in omega (arith, h);
        result = Ends-suc w.pages' level pt va a _ n stays valid w.result;
      }

  -- so does an entry that was just linked to a new table
  through_link :
      (own : ℕ → Kind) (pages : List ℕ) (level pt ptr va r : ℕ) (m n : Machine) (a : ℕ)
      (well : IsWell kernel_end own (r ∷ pages) m) (h : own pt ≡ table (suc level) ptr)
      (empty : is_valid (m.cell (pt + 8 * px (suc level) va)) ≡ false)
      → Walked
          (owner kernel_end own m pt ptr level
            (px (suc level) va)
            r
            pages
            well
            h
            (px-lt (suc level) va)
            empty)
          level
          r
          va
          (linked r (pt + 8 * px (suc level) va) m)
          a
          n
      → Walked own (suc level) pt va m a n
  through_link own pages level pt ptr va r m n a well h empty w =
      let i = px (suc level) va in
      let l =
        link-Extends kernel_end own m pt ptr level i r pages well h (px-lt (suc level) va) empty in
      let entry = table_entry r well.free.1.aligned well.free.1.below in
      let set =
        at_slot kernel_end own m pt ptr level i r pages well h (px-lt (suc level) va) empty in
      let stays =
        w.extends.keeps pt level ptr i (l.grows pt (suc level) ptr h) (px-lt (suc level) va)
          (rw set entry.0) in
      record {
        own' = w.own';
        pages' = w.pages';
        extends =
            Extends-trans kernel_end own
              (owner kernel_end own m pt ptr level i r pages well h (px-lt (suc level) va) empty)
              w.own' pages w.pages' m (linked r (pt + 8 * i) m) n l w.extends;
        spent = λ before free.
            let same =
              FreeList-unique m.cell kernel_end m.freelist before (r ∷ pages) free well.free in
            let h : length pages ≤ length w.pages' + level = w.spent pages l.well.free in
            rw same (omega (arith, h));
        result = Ends-suc w.pages' level pt va a _ n (stays ∙ set) entry.0 (rw (entry.1) w.result);
      }

  walk_from-alloc :
      (level pt ptr va : ℕ) (own : ℕ → Kind) (pages : List ℕ) (m : Machine)
      → IsWell kernel_end own pages m
      → own pt ≡ table level ptr
      → Returns (Walked own level pt va m) (walk_from level pt va true m)
  unfolding walk_from entry_at
  walk_from-alloc zero pt ptr va own pages m well h =
      let page = well.tree.is_page pt zero ptr h in
      record {
        own' = own;
        pages' = pages;
        extends = Extends-refl kernel_end own pages m well;
        spent = λ l free.
            rw (FreeList-unique m.cell kernel_end m.freelist l pages free well.free) (omega arith);
        result = inr (omega arith, refl);
      }
  walk_from-alloc (suc level) pt ptr va own [] m well h =
      let page = well.tree.is_page pt (suc level) ptr h in
      let slot = pt + 8 * px (suc level) va in
      elim (Bool-cases (is_valid (m.cell slot))) [
        | inl valid ↦
            rw (load-ok slot m (omega arith), valid)
              (Returns-mono (walk_from level (pte2pa (m.cell slot)) va true m)
                (walk_from-alloc level (pte2pa (m.cell slot)) slot va own [] m well
                  (well.tree.child pt level ptr (px (suc level) va) h (px-lt (suc level) va) valid))
                (λ a n. below own level pt ptr va m n a h valid))
        | inr empty ↦
            rw (load-ok slot m (omega arith), empty, kalloc-nil kernel_end m well.free)
              (record {
                own' = own;
                pages' = [];
                extends = Extends-refl kernel_end own [] m well;
                spent = λ l free.
                    rw (FreeList-unique m.cell kernel_end m.freelist l [] free well.free)
                      (omega arith);
                result = inl (refl, refl);
              })
      ]
  walk_from-alloc (suc level) pt ptr va own (r ∷ pages) m well h =
      let page = well.tree.is_page pt (suc level) ptr h in
      let slot = pt + 8 * px (suc level) va in
      elim (Bool-cases (is_valid (m.cell slot))) [
        | inl valid ↦
            rw (load-ok slot m (omega arith), valid)
              (Returns-mono (walk_from level (pte2pa (m.cell slot)) va true m)
                (walk_from-alloc level (pte2pa (m.cell slot)) slot va own (r ∷ pages) m well
                  (well.tree.child pt level ptr (px (suc level) va) h (px-lt (suc level) va) valid))
                (λ a n. below own level pt ptr va m n a h valid))
        | inr empty ↦
            let there : (r == 0) ≡ false = ==_ne r 0 well.free.1.not_null in
            rw
              (
                load-ok slot m (omega arith),
                empty,
                kalloc-ok kernel_end r m well.free.0 well.free.1.not_null,
                there,
                memset_page-ok r 0 (taken r m) well.free.1.not_null,
                store-ok slot (bit_or (pa2pte r) pte_v) _ (omega arith),
              )
              (Returns-mono (walk_from level r va true (linked r slot m))
                (walk_from-alloc level r slot va
                  (owner kernel_end own m pt ptr level (px (suc level) va) r pages well h
                    (px-lt (suc level) va) empty)
                  pages (linked r slot m)
                  (link-IsWell kernel_end own m pt ptr level (px (suc level) va) r pages well h
                    (px-lt (suc level) va) empty)
                  (link-owner kernel_end own m pt ptr level (px (suc level) va) r pages well h
                    (px-lt (suc level) va) empty))
                (λ a n. through_link own pages level pt ptr va r m n a well h empty))
      ]

  -- below MAXVA, `walk` is its loop
  walk_lem :
      (root va : ℕ) (alloc : Bool) (m : Machine)
      → va < maxva
      → walk root va alloc m ≡ walk_from 2 root va alloc m
  unfolding walk
  walk_lem root va alloc m h = let low : leb maxva va ≡ false = ground arith in rw low

  -- Where the free list and the page tables are well formed: for an address below MAXVA of a space,
  -- `walk` with `alloc` returns the address of its PTE, or null with no page left free. It may have
  -- made tables out of free pages; what every table maps and the words outside of tables are as
  -- before, and all stays well formed.
  pub walk-alloc :
      (root ptr va : ℕ) (own : ℕ → Kind) (pages : List ℕ) (m : Machine)
      → IsWell kernel_end own pages m
      → own root ≡ table 2 ptr
      → va < maxva
      → Returns (Walked own 2 root va m) (walk root va true m)
  walk-alloc root ptr va own pages m well h small =
      rw (walk_lem root va true m small) (walk_from-alloc 2 root ptr va own pages m well h)

  -- Where the page tables are well formed: for an address below MAXVA of a space, `walk` without
  -- `alloc` returns the address of its PTE, or null where a table is missing, and changes nothing.
  pub walk-read :
      (root ptr va : ℕ) (own : ℕ → Kind) (m : Machine)
      → IsTree kernel_end own m.cell
      → own root ≡ table 2 ptr
      → va < maxva
      → walk root va false m ≡ ok (entry_at m.cell 2 root va) m
  walk-read root ptr va own m tree h small =
      walk_lem root va false m small ∙ walk_from-read kernel_end own 2 root ptr va m tree h
