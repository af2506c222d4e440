-- ===== src/PageTable/Single.antt =====
-- `mappages` of a single page.
use mathlib.Core.Bool.{false≢true}
use oscraft.Common.{
  ℕ, ◌+◌, ◌%◌, ◌≤◌, ◌<◌, ◌≡◌, refl, sym, ◌∙◌, Bool, true, false, List, arith, bit_or,
}
use oscraft.Riscv.{is_valid, pa2pte, pte_v, maxva, word}
use oscraft.Monad.{Returns, Returns-mono}
use oscraft.Machine.{Machine}
use oscraft.PageTable.{mappages}
use oscraft.PageTable.Shape.{Kind, lookup}
use oscraft.PageTable.Well.{IsWell}
use oscraft.PageTable.Frame.{lookup-page}
use oscraft.PageTable.Map.{IsRoot, PageMapped}
use oscraft.PageTable.Range.{RangeMapped, alone, test_none, mappages_lem}

module _ (kernel_end : ℕ) where
  -- one page
  as_page :
      (own : ℕ → Kind) (root a pa perm : ℕ) (m o : Machine) (done : Bool)
      → a % 4096 ≡ 0
      → RangeMapped kernel_end own root a 1 pa perm m done o
      → PageMapped kernel_end own root a (bit_or (bit_or (pa2pte pa) perm) pte_v) m done o
  as_page own root a pa perm m o true al x = record {
    own' = x.own';
    pages' = x.pages';
    well = x.well;
    grows = x.grows;
    rest = x.rest;
    fresh = x.fresh;
    saved = x.saved;
    spent = x.spent;
    fails = λ z. absurd (false≢true (sym z));
    after = λ pt vb hp hb.
        x.after pt vb hp hb
        ∙ rw (x.whole refl) (sym (alone root a pa perm pt vb al (lookup m.cell 2 pt vb)));
  }
  as_page own root a pa perm m o false al x = record {
    own' = x.own';
    pages' = x.pages';
    well = x.well;
    grows = x.grows;
    rest = x.rest;
    fresh = x.fresh;
    saved = x.saved;
    spent = x.spent;
    fails = λ z. (x.part refl).1;
    after = λ pt vb hp hb.
        let none : x.count ≡ 0 = let lt = (x.part refl).0 in omega arith in
        x.after pt vb hp hb ∙ rw (none, test_none root a pa perm pt vb al);
  }

  -- `mappages` of one page.
  pub mappages-page :
      (own : ℕ → Kind) (pages : List ℕ) (m : Machine) (root va pa perm : ℕ)
      → IsWell kernel_end own pages m
      → IsRoot own root
      → va % 4096 ≡ 0
      → va < maxva
      → pa + 4096 ≤ word
      → is_valid (lookup m.cell 2 root va) ≡ false
      → Returns
          (PageMapped kernel_end own root va (bit_or (bit_or (pa2pte pa) perm) pte_v) m)
          (mappages root va 4096 pa perm m)
  mappages-page own pages m root va pa perm well hr al small fits empty =
      Returns-mono (mappages root va 4096 pa perm m)
        (mappages_lem kernel_end 1 own pages m root va pa perm well hr (omega arith) al
          (omega arith) (omega arith)
          λ vb lo hi. rw (← lookup-page m.cell root va vb (omega arith)) empty)
        λ done o x. as_page own root va pa perm m o done al x
