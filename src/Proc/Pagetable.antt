-- ===== src/Proc/Pagetable.antt =====
-- `proc_pagetable` of Proyecto3/kernel/proc.c: the page table of a new process.
use oscraft.Common.{
  ℕ, ◌+◌, ◌/◌, ◌≤◌, ◌<◌, ◌≡◌, ◌≢◌, ◌⊎◌, refl, sym, ap, ◌∙◌, true, false, ◌&&◌, not, List, [], ◌∷◌,
  arith, ◌==◌, ==_ne, ==_refl, has, if◌then◌else◌, inl, inr, bit_or,
}
use oscraft.Riscv.{
  is_valid, pte_r, pte_w, pte_x, pte_u, sv39, word, trampoline, trapframe, usyscall,
}
use oscraft.Monad.{pure, ◌>>=◌, ◌>>◌, Returns, Returns-bind}
use oscraft.Machine.{M, Machine}
use oscraft.PageTable.{mappages, uvmcreate, uvmunmap}
use oscraft.PageTable.Shape.{Kind}
use oscraft.PageTable.Well.{IsWell}
use oscraft.PageTable.Map.{at_page}
use oscraft.PageTable.Range.{in_range}
use oscraft.PageTable.Fresh.{page_pte}
use oscraft.PageTable.Create.{uvmcreate_lem}
use oscraft.UserMemory.{uvmfree}
use oscraft.Kalloc.FreeList.{FreeList-unique}
use oscraft.Kalloc.Contract.{IsFree}
use oscraft.Kernel.{Config, Proc}
use oscraft.Proc.Alloc.{proc_pagetable}
use oscraft.Proc.NewSpace.{
  HasNewSpace, HasOldSpaces, FewFree, new-HasNewSpace, map-HasNewSpace, unmap-HasNewSpace,
  free-HasOldSpaces,
}

-- The entries of the space of a new process: the trampoline, the trapframe and the shared page.
abbrev pub start_entries : Config → Proc → ℕ → ℕ
start_entries c p vb =
    if vb / 4096 == usyscall / 4096
    then page_pte p.usyscall (bit_or pte_r pte_u)
    else if vb / 4096 == trapframe / 4096
    then page_pte p.trapframe (bit_or pte_r pte_w)
    else if vb / 4096 == trampoline / 4096
    then page_pte c.trampoline_pa (bit_or pte_r pte_x)
    else 0

-- Either the page table is there, or no space was added.
abbrev pub Pagetable : Config → (ℕ → Kind) → Proc → Machine → ℕ → Machine → Type 0
Pagetable c own p m r o =
    ((r ≢ 0) × HasNewSpace c.kernel_end own r m 7 (start_entries c p) o)
    ⊎ ((r ≡ 0) × HasOldSpaces c.kernel_end own m o)

has-first : (a : ℕ) (l : List ℕ) → has a (a ∷ l) ≡ true
has-first a l = rw (==_refl a)

HasNewSpace-same :
    (kernel_end : ℕ) (own : ℕ → Kind) (root : ℕ) (m : Machine) (used : ℕ) (spec spec' : ℕ → ℕ)
    (o : Machine)
    → ((vb : ℕ) → spec vb ≡ spec' vb)
    → HasNewSpace kernel_end own root m used spec o
    → HasNewSpace kernel_end own root m used spec' o
HasNewSpace-same kernel_end own root m used spec spec' o same x = record {
  own' = x.own';
  pages' = x.pages';
  well = x.well;
  free = x.free;
  spent = x.spent;
  new = x.new;
  here = x.here;
  roots = x.roots;
  keeps = x.keeps;
  maps = x.maps;
  space = λ vb lt. x.space vb lt ∙ same vb;
}

module _ (c : Config) (p : Proc) (own : ℕ → Kind) (m : Machine)
    (text : c.trampoline_pa + 4096 ≤ word) (frame : p.trapframe + 4096 ≤ word)
    (shared : p.usyscall + 4096 ≤ word) (root : ℕ)
    (first : (l : List ℕ) × IsFree c.kernel_end (root ∷ l) m) where
  more : (n : ℕ) → n ≤ 7 → FewFree c.kernel_end n m → FewFree c.kernel_end 7 m
  more n le few l free = let h = few l free in omega (arith, h)

  -- `goto bad`, as it were
  give_up :
      (used : ℕ) (spec : ℕ → ℕ) (n : Machine)
      → FewFree c.kernel_end 7 m
      → ((vb : ℕ) → vb < sv39 → is_valid (spec vb) ≡ false)
      → HasNewSpace c.kernel_end own root m used spec n
      → Returns (Pagetable c own p m) ((uvmfree c.kernel_end root 0 >> pure 0) n)
  give_up used spec n few empty x =
      Returns-bind _ (uvmfree c.kernel_end root 0 n) _
        (free-HasOldSpaces c.kernel_end own root m used spec n first few empty x)
        λ _ o y. inr (refl, y)

  abbrev one : ℕ → ℕ
  one vb =
      if at_page root trampoline root vb then page_pte c.trampoline_pa (bit_or pte_r pte_x) else 0

  abbrev two : ℕ → ℕ
  two vb =
      if at_page root trapframe root vb then page_pte p.trapframe (bit_or pte_r pte_w) else one vb

  abbrev unmapped : ℕ → (ℕ → ℕ) → ℕ → ℕ
  unmapped va spec vb = if in_range root va 1 root vb && is_valid (spec vb) then 0 else spec vb

  one_unmapped : (vb : ℕ) → is_valid (unmapped trampoline one vb) ≡ false
  one_unmapped vb = ground arith

  two_unmapped : (vb : ℕ) → is_valid (unmapped trampoline (unmapped trapframe two) vb) ≡ false
  two_unmapped vb = ground arith

  all_mapped :
      (vb : ℕ)
      → (if at_page root usyscall root vb then page_pte p.usyscall (bit_or pte_r pte_u) else two vb)
        ≡ start_entries c p vb
  all_mapped vb = ground arith

  -- what `proc_pagetable` does once the trampoline, and once the trapframe is mapped
  abbrev map_shared : M ℕ
  map_shared = do
    shared ← mappages root usyscall 4096 p.usyscall (bit_or pte_r pte_u)
    if not shared
        then (do
          uvmunmap c.kernel_end root trapframe 1 false
          uvmunmap c.kernel_end root trampoline 1 false
          uvmfree c.kernel_end root 0
          pure 0)
        else pure root

  abbrev map_frame : M ℕ
  map_frame = do
    frame ← mappages root trapframe 4096 p.trapframe (bit_or pte_r pte_w)
    if not frame
        then (do uvmunmap c.kernel_end root trampoline 1 false; uvmfree c.kernel_end root 0; pure 0)
        else map_shared

  map_shared_lem :
      (n : Machine)
      → root ≢ 0
      → HasNewSpace c.kernel_end own root m 5 two n
      → Returns (Pagetable c own p m) (map_shared n)
  map_shared_lem n ne x =
      Returns-bind _ (mappages root usyscall 4096 p.usyscall (bit_or pte_r pte_u) n) _
        (map-HasNewSpace c.kernel_end own root m 5 two usyscall p.usyscall (bit_or pte_r pte_u) n
          refl (omega arith) shared (ground arith) x)
        (elim [
          | true ↦ λ o (y, few).
              inl (
                ne,
                HasNewSpace-same c.kernel_end own root m 7 _ (start_entries c p) o all_mapped y,
              )
          | false ↦ λ o (y, few).
              Returns-bind _ (uvmunmap c.kernel_end root trapframe 1 false o) _
                (unmap-HasNewSpace c.kernel_end own root m 7 two trapframe o refl (omega arith) y)
                λ _ q z.
                  Returns-bind _ (uvmunmap c.kernel_end root trampoline 1 false q) _
                    (unmap-HasNewSpace c.kernel_end own root m 7 (unmapped trapframe two) trampoline
                      q refl (omega arith) z)
                    λ _ r w.
                      give_up 7 (unmapped trampoline (unmapped trapframe two)) r (few refl)
                        (λ vb lt. two_unmapped vb) w
        ])

  map_frame_lem :
      (n : Machine)
      → root ≢ 0
      → HasNewSpace c.kernel_end own root m 3 one n
      → Returns (Pagetable c own p m) (map_frame n)
  map_frame_lem n ne x =
      Returns-bind _ (mappages root trapframe 4096 p.trapframe (bit_or pte_r pte_w) n) _
        (map-HasNewSpace c.kernel_end own root m 3 one trapframe p.trapframe (bit_or pte_r pte_w) n
          refl (omega arith) frame (ground arith) x)
        (elim [
          | true ↦ λ o (y, few). map_shared_lem o ne y
          | false ↦ λ o (y, few).
              Returns-bind _ (uvmunmap c.kernel_end root trampoline 1 false o) _
                (unmap-HasNewSpace c.kernel_end own root m 5 one trampoline o refl (omega arith) y)
                λ _ r w.
                  give_up 5 (unmapped trampoline one) r (more 5 (omega arith) (few refl))
                    (λ vb lt. one_unmapped vb) w
        ])

  map_text_lem :
      (n : Machine)
      → root ≢ 0
      → HasNewSpace c.kernel_end own root m 1 (λ _. 0) n
      → Returns (Pagetable c own p m) (
          (mappages root trampoline 4096 c.trampoline_pa (bit_or pte_r pte_x)
              >>= (λ text. if not text then (uvmfree c.kernel_end root 0 >> pure 0) else map_frame))
            n)
  map_text_lem n ne x =
      Returns-bind _ (mappages root trampoline 4096 c.trampoline_pa (bit_or pte_r pte_x) n) _
        (map-HasNewSpace c.kernel_end own root m 1 (λ _. 0) trampoline c.trampoline_pa
          (bit_or pte_r pte_x) n refl (omega arith) text refl x)
        (elim [
          | true ↦ λ o (y, few). map_frame_lem o ne y
          | false ↦
              λ o (y, few). give_up 3 (λ _. 0) o (more 3 (omega arith) (few refl)) (λ vb lt. refl) y
        ])

-- Where the free list and the page tables are well formed, and the trampoline, the trapframe and the shared
-- page do not wrap past 2 ^ 64: `proc_pagetable` returns. Either the result is the root of a new space in
-- which the trampoline, the trapframe and the shared page are mapped below MAXVA, with their permissions,
-- and nothing else is, and the root was a free page; or it is 0, there were at most 7 free pages, and
-- the first of them, which is the root of the space that was begun where one was begun, is free again. In both
-- cases every old space is one still and maps the same, a page that was neither free nor a table stays so, and
-- all stays well formed.
pub proc_pagetable_lem :
    (c : Config) (p : Proc) (own : ℕ → Kind) (pages : List ℕ) (m : Machine)
    → IsWell c.kernel_end own pages m
    → c.trampoline_pa + 4096 ≤ word
    → p.trapframe + 4096 ≤ word
    → p.usyscall + 4096 ≤ word
    → Returns (Pagetable c own p m) (proc_pagetable c p m)
unfolding proc_pagetable
proc_pagetable_lem c p own [] m well text frame shared =
    Returns-bind _ (uvmcreate m) _ (uvmcreate_lem c.kernel_end own [] m well) λ r o (null, same).
      rw null (
        inr (
          refl,
          rw same (record {
            own' = own;
            pages' = [];
            well = well;
            back = λ a l free.
                let same =
                  FreeList-unique m.cell c.kernel_end m.freelist (a ∷ l) [] free well.free in
                sym (ap (has a) same) ∙ has-first a l;
            few = λ l free.
                rw (FreeList-unique m.cell c.kernel_end m.freelist l [] free well.free)
                  (omega arith);
            roots = λ pt h. h;
            keeps = λ q l h out plain. (
              plain,
              rw (FreeList-unique m.cell c.kernel_end m.freelist l [] h well.free) at out,
            );
            maps = λ pt vb h lt. refl;
          }),
        ))
proc_pagetable_lem c p own (a ∷ pages) m well text frame shared =
    Returns-bind _ (uvmcreate m) _ (uvmcreate_lem c.kernel_end own (a ∷ pages) m well)
      λ r o (first, x).
        let ne : a ≢ 0 = well.free.1.not_null in
        rw (first, ==_ne a 0 ne)
          (map_text_lem c p own m text frame shared a (pages, x.free) o ne
            (new-HasNewSpace c.kernel_end own a m pages o x))
