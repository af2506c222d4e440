-- ===== src/Proc/NewSpace.antt =====
-- A new address space while `proc_pagetable` of Proyecto3/kernel/proc.c fills it: one more page is mapped or
-- unmapped, or the space is given back.
use oscraft.Common.{
  ℕ, has, ◌+◌, ◌%◌, ◌≤◌, ◌<◌, ◌≡◌, ◌≢◌, sym, ◌∙◌, Bool, true, length, false, ◌&&◌, List, ◌∷◌, arith,
  ap, ==_ne, ==_refl, if◌then◌else◌,
}
use oscraft.Riscv.{is_valid, maxva, sv39, word}
use oscraft.Monad.{Returns, Returns-mono}
use oscraft.Machine.{Machine}
use oscraft.PageTable.{mappages, uvmunmap}
use oscraft.PageTable.Shape.{Kind, other, table, lookup}
use oscraft.PageTable.Well.{IsWell, OutsideTables}
use oscraft.PageTable.Map.{IsRoot, at_page, PageMapped}
use oscraft.PageTable.Range.{in_range}
use oscraft.PageTable.Single.{mappages-page}
use oscraft.PageTable.Fresh.{page_pte}
use oscraft.PageTable.Create.{rooted, NewSpace}
use oscraft.PageTable.Release.{HasFrames, RangeUnmapped, uvmunmap_keep}
use oscraft.UserMemory.{uvmfree}
use oscraft.UserMemory.Free.{uvmfree_lem}
use oscraft.UserMemory.Tables.{has-tree_freed, root_freed}
use oscraft.Kalloc.FreeList.{FreeList-unique}
use oscraft.Kalloc.Contract.{IsFree}

-- A page that is neither free nor a table stays so.
abbrev pub KeepsPlain : ℕ → (own own' : ℕ → Kind) → List ℕ → Machine → Type 0
KeepsPlain kernel_end own own' pages' m =
    (q : ℕ) (l : List ℕ)
    → IsFree kernel_end l m
    → has q l ≡ false
    → own q ≡ other
    → (own' q ≡ other) × (has q pages' ≡ false)

-- At most `n` pages are free.
abbrev pub FewFree : ℕ → ℕ → Machine → Type 0
FewFree kernel_end n m = (l : List ℕ) → IsFree kernel_end l m → length l ≤ n

-- From `m` to `o` a free page has become a new space `root`, whose entries are `spec`, and `used`
-- pages at most were taken; every old space is one still and maps the same.
pub record HasNewSpace (kernel_end : ℕ) (own : ℕ → Kind) (root : ℕ) (m : Machine) (used : ℕ)
    (spec : ℕ → ℕ) (o : Machine) : Type 0 where
  pub own' : ℕ → Kind
  pub pages' : List ℕ
  pub well : IsWell kernel_end own' pages' o
  pub free : (l : List ℕ) → IsFree kernel_end l m → has root l ≡ true
  pub spent : (l : List ℕ) → IsFree kernel_end l m → length l ≤ length pages' + used
  pub new : own root ≡ other
  pub here : own' root ≡ table 2 0
  pub roots : (pt : ℕ) → IsRoot own pt → IsRoot own' pt
  pub keeps : KeepsPlain kernel_end own own' pages' m
  pub maps : (pt vb : ℕ) → IsRoot own pt → vb < sv39 → lookup o.cell 2 pt vb ≡ lookup m.cell 2 pt vb
  pub space : (vb : ℕ) → vb < sv39 → lookup o.cell 2 root vb ≡ spec vb

-- From `m` to `o` no space was added, the first free page is free again, and few pages were free; every old
-- space is one still and maps the same.
pub record HasOldSpaces (kernel_end : ℕ) (own : ℕ → Kind) (m o : Machine) : Type 0 where
  pub own' : ℕ → Kind
  pub pages' : List ℕ
  pub well : IsWell kernel_end own' pages' o
  pub back : (r : ℕ) (l : List ℕ) → IsFree kernel_end (r ∷ l) m → has r pages' ≡ true
  pub few : FewFree kernel_end 7 m
  pub roots : (pt : ℕ) → IsRoot own pt → IsRoot own' pt
  pub keeps : KeepsPlain kernel_end own own' pages' m
  pub maps : (pt vb : ℕ) → IsRoot own pt → vb < sv39 → lookup o.cell 2 pt vb ≡ lookup m.cell 2 pt vb

module _ (kernel_end : ℕ) (own : ℕ → Kind) (root : ℕ) (m : Machine) where
  -- an old space is not the new one
  old_ne : (pt : ℕ) → own root ≡ other → IsRoot own pt → pt ≢ root
  old_ne pt new (e, h) z = ground (arith, new, h, ap own z)

  pub new-HasNewSpace :
      (pages' : List ℕ) (o : Machine)
      → NewSpace kernel_end own pages' root m o
      → HasNewSpace kernel_end own root m 1 (λ _. 0) o
  new-HasNewSpace pages' o x = record {
    own' = rooted own root;
    pages' = pages';
    well = x.well;
    free = λ l h.
        rw (FreeList-unique m.cell kernel_end m.freelist l (root ∷ pages') h x.free, ==_refl root);
    spent = λ l free.
        rw (FreeList-unique m.cell kernel_end m.freelist l (root ∷ pages') free x.free)
          (omega arith);
    new = x.new;
    here = rw (==_refl root);
    roots = λ pt (e, h). (e, rw (==_ne root pt (λ z. old_ne pt x.new (e, h) (sym z))) h);
    keeps = λ q l h out plain.
        let out' : has q (root ∷ pages') ≡ false =
          rw (FreeList-unique m.cell kernel_end m.freelist l (root ∷ pages') h x.free) at out in
        let apart : root ≢ q = λ z. ground arith in (rw (==_ne root q apart) plain, ground arith);
    maps = λ pt vb h lt. x.maps pt vb h;
    space = λ vb lt. x.empty vb;
  }

  -- One more page is mapped.
  mapped-HasNewSpace :
      (used : ℕ) (spec : ℕ → ℕ) (va pte : ℕ) (done : Bool) (n o : Machine)
      → (x : HasNewSpace kernel_end own root m used spec n)
      → PageMapped kernel_end x.own' root va pte n done o
      → HasNewSpace kernel_end own root m
          (used + 2)
          (λ vb. if done && at_page root va root vb then pte else spec vb)
          o
  mapped-HasNewSpace used spec va pte done n o x y = record {
    own' = y.own';
    pages' = y.pages';
    well = y.well;
    free = x.free;
    spent = λ l free.
        let before = x.spent l free in
        let step = y.spent x.pages' x.well.free in omega (arith, before, step);
    new = x.new;
    here = y.grows root 2 0 x.here;
    roots = λ pt h. let (e, t) = x.roots pt h in (e, y.grows pt 2 e t);
    keeps = λ q l h out plain.
        let (other', out') = x.keeps q l h out plain in
        let (same, unlisted) = y.fresh q x.pages' x.well.free out' in (same ∙ other', unlisted);
    maps = λ pt vb h lt.
        let ne = old_ne pt x.new h in
        let apart : (done && at_page root va pt vb) ≡ false = ground arith in
        y.after pt vb (x.roots pt h) lt ∙ rw apart (x.maps pt vb h lt);
    space = λ vb lt. y.after root vb (0, x.here) lt ∙ rw (x.space vb lt);
  }

  -- A page is unmapped.
  unmapped-HasNewSpace :
      (used : ℕ) (spec : ℕ → ℕ) (va : ℕ) (n o : Machine)
      → (x : HasNewSpace kernel_end own root m used spec n)
      → RangeUnmapped kernel_end x.own' x.pages' root va 1 n o
      → HasNewSpace kernel_end own root m used
          (λ vb. if in_range root va 1 root vb && is_valid (spec vb) then 0 else spec vb)
          o
  unmapped-HasNewSpace used spec va n o x y = record {
    own' = x.own';
    pages' = x.pages';
    well = y.well;
    free = x.free;
    spent = x.spent;
    new = x.new;
    here = x.here;
    roots = x.roots;
    keeps = x.keeps;
    maps = λ pt vb h lt.
        let ne = old_ne pt x.new h in
        let apart : in_range root va 1 pt vb ≡ false = ground arith in
        y.after pt vb (x.roots pt h) lt ∙ rw apart (x.maps pt vb h lt);
    space = λ vb lt. y.after root vb (0, x.here) lt ∙ rw (x.space vb lt);
  }

  -- `mappages` and `uvmunmap` of one page, in these words
  pub map-HasNewSpace :
      (used : ℕ) (spec : ℕ → ℕ) (va pa perm : ℕ) (n : Machine)
      → va % 4096 ≡ 0
      → va < maxva
      → pa + 4096 ≤ word
      → is_valid (spec va) ≡ false
      → HasNewSpace kernel_end own root m used spec n
      → Returns
          (λ done o.
            HasNewSpace kernel_end own root m
              (used + 2)
              (λ vb. if done && at_page root va root vb then page_pte pa perm else spec vb)
              o
            × (done ≡ false → FewFree kernel_end (used + 2) m))
          (mappages root va 4096 pa perm n)
  map-HasNewSpace used spec va pa perm n al small fits empty x =
      Returns-mono (mappages root va 4096 pa perm n)
        (mappages-page kernel_end x.own' x.pages' n root va pa perm x.well (0, x.here) al small fits
          (rw (x.space va (omega arith)) empty))
        λ done o y.
          let z = mapped-HasNewSpace used spec va (page_pte pa perm) done n o x y in
          (
            z,
            λ failed l free.
                let before = x.spent l free in
                let step = y.spent x.pages' x.well.free in
                let none : length y.pages' ≡ 0 = ap length (y.fails failed) in
                omega (arith, before, step, none),
          )

  pub unmap-HasNewSpace :
      (used : ℕ) (spec : ℕ → ℕ) (va : ℕ) (n : Machine)
      → va % 4096 ≡ 0
      → va + 4096 ≤ maxva
      → HasNewSpace kernel_end own root m used spec n
      → Returns
          (λ _ o.
            HasNewSpace kernel_end own root m used
              (λ vb. if in_range root va 1 root vb && is_valid (spec vb) then 0 else spec vb)
              o)
          (uvmunmap kernel_end root va 1 false n)
  unmap-HasNewSpace used spec va n al fits x =
      Returns-mono (uvmunmap kernel_end root va 1 false n)
        (uvmunmap_keep kernel_end x.own' root (0, x.here) 1 va x.pages' n x.well al
          (omega (arith, fits)))
        λ _ o y. unmapped-HasNewSpace used spec va n o x y

  -- A new space that maps nothing is given back.
  pub free-HasOldSpaces :
      (used : ℕ) (spec : ℕ → ℕ) (n : Machine)
      → (l : List ℕ) × IsFree kernel_end (root ∷ l) m
      → FewFree kernel_end 7 m
      → ((vb : ℕ) → vb < sv39 → is_valid (spec vb) ≡ false)
      → HasNewSpace kernel_end own root m used spec n
      → Returns (λ _ o. HasOldSpaces kernel_end own m o) (uvmfree kernel_end root 0 n)
  free-HasOldSpaces used spec n first few empty x =
      Returns-mono (uvmfree kernel_end root 0 n)
        (uvmfree_lem kernel_end x.own' root 0 x.here top 0 x.pages' n x.well
          (λ va lo hi. rw (x.space va hi) (empty va hi)) (omega arith) none)
        λ _ o y. record {
          own' = y.own';
          pages' = _;
          well = y.well;
          back = λ r l free.
              let same : r ≡ root = sym free.0 ∙ (first.1).0 in
              rw (same, root_freed n.cell 2 root x.pages');
          few = few;
          roots = λ pt h. y.root_kept pt (x.roots pt h) (old_ne pt x.new h);
          keeps = λ q l h out plain.
              let (other', out') = x.keeps q l h out plain in
              (
                y.plain q other',
                has-tree_freed kernel_end x.own' n.cell x.well.tree q other' 2 root 0 x.pages'
                      x.here
                    ∙ out',
              );
          maps =
              λ pt vb h lt. y.maps pt vb (x.roots pt h) (old_ne pt x.new h) lt ∙ x.maps pt vb h lt;
        }
    where
      top : OutsideTables x.own' 0
      top p k e t = let page = x.well.tree.is_page p k e t in let ne = page.not_null in ground arith

      none : HasFrames kernel_end x.own' x.pages' n.cell root 0 0
      none = record {
        frame = λ i lt v. absurd (omega arith);
        apart = λ i j lt lt'. absurd (omega arith);
      }
