-- ===== src/PageTable/Range.antt =====
-- `mappages`, for a range of any number of pages.
use mathlib.Core.Bool.{false≢true}
use oscraft.Common.{
  ℕ, zero, suc, ◌+◌, ◌-◌, ◌*◌, ◌%◌, ◌/◌, ◌≤◌, ◌<◌, ◌≡◌, refl, sym, ◌∙◌, Bool, true, false, ◌&&◌,
  not, length, List, [], arith, ap, leb, ltb, ◌==◌, if◌then◌else◌, Bool-cases, inl, inr, bit_or,
}
use oscraft.Riscv.{is_valid, pa2pte, pte_v, maxva, sv39, word, u64, pgsize}
use oscraft.Monad.{Returns, Returns-bind, Returns-mono}
use oscraft.Machine.{Machine}
use oscraft.Kalloc.Contract.{IsFree}
use oscraft.PageTable.{map_page, map_from, mappages}
use oscraft.PageTable.Shape.{Kind, table, lookup}
use oscraft.PageTable.Well.{IsWell, OutsideTables, TakesFree, KeepsFree}
use oscraft.PageTable.Map.{IsRoot, PageMapped, at_page, map_page_lem}

-- the PTE of `vb` in a range that starts at `a` and is mapped to `pa`
abbrev pub range_pte : ℕ → ℕ → ℕ → ℕ → ℕ
range_pte a pa perm vb = bit_or (bit_or (pa2pte (pa + (vb / 4096 * 4096 - a))) perm) pte_v

-- whether `vb` of the space `pt` is one of the `count` pages from `a` on of the space `root`
abbrev pub in_range : ℕ → ℕ → ℕ → ℕ → ℕ → Bool
in_range root a count pt vb = (pt == root) && (leb a vb && ltb vb (a + count * 4096))

-- What `mappages` of `n` pages from `a` does from `m` to `o`: `count` pages have their new entries and
-- all else is mapped as before. That is all `n` if it is done, and fewer, with no free page left, if not.
pub record RangeMapped (kernel_end : ℕ) (own : ℕ → Kind) (root a n pa perm : ℕ) (m : Machine)
    (done : Bool) (o : Machine) : Type 0 where
  pub count : ℕ
  pub own' : ℕ → Kind
  pub pages' : List ℕ
  pub well : IsWell kernel_end own' pages' o
  pub grows : (p k e : ℕ) → own p ≡ table k e → own' p ≡ table k e
  pub rest : (x : ℕ) → OutsideTables own' x → o.cell x ≡ m.cell x
  pub fresh : TakesFree kernel_end own own' pages' m
  pub saved : KeepsFree kernel_end own' pages' m
  pub spent : (l : List ℕ) → IsFree kernel_end l m → length l ≤ length pages' + 2 * n
  pub whole : done ≡ true → count ≡ n
  pub part : done ≡ false → (count < n) × (pages' ≡ [])
  pub after :
      (pt vb : ℕ)
      → IsRoot own pt
      → vb < sv39
      → lookup o.cell 2 pt vb
        ≡ (if in_range root a count pt vb then range_pte a pa perm vb else lookup m.cell 2 pt vb)

-- No page of the range is mapped.
abbrev pub IsUnmapped : (ℕ → ℕ) → ℕ → ℕ → ℕ → Type 0
IsUnmapped f root a n =
    (vb : ℕ) → a ≤ vb → vb < a + n * 4096 → is_valid (lookup f 2 root vb) ≡ false

module _ (root a pa perm pt vb : ℕ) (al : a % 4096 ≡ 0) where
  test_one : in_range root a 1 pt vb ≡ at_page root a pt vb
  test_one = ground arith

  pub test_none : in_range root a 0 pt vb ≡ false
  test_none = ground arith

  pte_one :
      at_page root a pt vb ≡ true → range_pte a pa perm vb ≡ bit_or (bit_or (pa2pte pa) perm) pte_v
  pte_one h =
      let page : vb / 4096 ≡ a / 4096 = ground arith in
      let here : pa + (vb / 4096 * 4096 - a) ≡ pa = omega arith in rw here

  pte_next :
      (n : ℕ)
      → in_range root (a + 4096) n pt vb ≡ true
      → range_pte (a + 4096) (pa + 4096) perm vb ≡ range_pte a pa perm vb
  pte_next n h =
      let beyond : a + 4096 ≤ vb = ground arith in
      let there : pa + 4096 + (vb / 4096 * 4096 - (a + 4096)) ≡ pa + (vb / 4096 * 4096 - a) =
        omega arith in
      rw there

  range_next :
      (n : ℕ) → in_range root (a + 4096) n pt vb ≡ true → in_range root a (suc n) pt vb ≡ true
  range_next n h = ground arith

  range_first : (n : ℕ) → at_page root a pt vb ≡ true → in_range root a (suc n) pt vb ≡ true
  range_first n h = ground arith

  range_neither :
      (n : ℕ)
      → in_range root (a + 4096) n pt vb ≡ false
      → at_page root a pt vb ≡ false
      → in_range root a (suc n) pt vb ≡ false
  range_neither n h h' = ground arith

  -- a first page and a range behind it are one range
  joined :
      (n old first : ℕ)
      → first ≡ (if at_page root a pt vb then bit_or (bit_or (pa2pte pa) perm) pte_v else old)
      → (if in_range root (a + 4096) n pt vb
          then range_pte (a + 4096) (pa + 4096) perm vb
          else first)
        ≡ (if in_range root a (suc n) pt vb then range_pte a pa perm vb else old)
  joined n old first e = elim (Bool-cases (in_range root (a + 4096) n pt vb)) [
    | inl h ↦ rw (h, range_next n h) (pte_next n h)
    | inr h ↦ elim (Bool-cases (at_page root a pt vb)) [
      | inl p ↦ rw (h, range_first n p, e, p) (sym (pte_one p))
      | inr p ↦ rw (h, range_neither n h p, e, p)
    ]
  ]

  pub alone :
      (old : ℕ)
      → (if at_page root a pt vb then bit_or (bit_or (pa2pte pa) perm) pte_v else old)
        ≡ (if in_range root a 1 pt vb then range_pte a pa perm vb else old)
  alone old = elim (Bool-cases (at_page root a pt vb)) [
    | inl p ↦ rw (test_one, p) (sym (pte_one p))
    | inr p ↦ rw (test_one, p)
  ]

module _ (kernel_end : ℕ) where
  -- the first page is the last
  only :
      (own : ℕ → Kind) (root a pa perm : ℕ) (m o : Machine)
      → a % 4096 ≡ 0
      → PageMapped kernel_end own root a (bit_or (bit_or (pa2pte pa) perm) pte_v) m true o
      → RangeMapped kernel_end own root a 1 pa perm m true o
  only own root a pa perm m o al x = record {
    count = 1;
    own' = x.own';
    pages' = x.pages';
    well = x.well;
    grows = x.grows;
    rest = x.rest;
    fresh = x.fresh;
    saved = x.saved;
    spent = λ l free. let h = x.spent l free in omega (arith, h);
    whole = λ z. refl;
    part = λ z. absurd (false≢true (sym z));
    after =
        λ pt vb hp hb. x.after pt vb hp hb ∙ alone root a pa perm pt vb al (lookup m.cell 2 pt vb);
  }

  failed :
      (own : ℕ → Kind) (root a n pa perm v : ℕ) (m o : Machine)
      → a % 4096 ≡ 0
      → 0 < n
      → PageMapped kernel_end own root a v m false o
      → RangeMapped kernel_end own root a n pa perm m false o
  failed own root a n pa perm v m o al pos x = record {
    count = 0;
    own' = x.own';
    pages' = x.pages';
    well = x.well;
    grows = x.grows;
    rest = x.rest;
    fresh = x.fresh;
    saved = x.saved;
    spent = λ l free. let h = x.spent l free in omega (arith, h);
    whole = λ z. absurd (false≢true z);
    part = λ z. (pos, x.fails refl);
    after = λ pt vb hp hb. x.after pt vb hp hb ∙ rw (test_none root a pa perm pt vb al);
  }

  further :
      (own : ℕ → Kind) (root a n pa perm : ℕ) (m o r : Machine) (done : Bool)
      → a % 4096 ≡ 0
      → (x : PageMapped kernel_end own root a (bit_or (bit_or (pa2pte pa) perm) pte_v) m true o)
      → RangeMapped kernel_end x.own' root (a + 4096) n (pa + 4096) perm o done r
      → RangeMapped kernel_end own root a (suc n) pa perm m done r
  further own root a n pa perm m o r done al x y = record {
    count = suc y.count;
    own' = y.own';
    pages' = y.pages';
    well = y.well;
    grows = λ p k e h. y.grows p k e (x.grows p k e h);
    rest = λ w h. y.rest w h ∙ x.rest w (λ p k e t. h p k e (y.grows p k e t));
    fresh = λ p l h absent.
        let before = x.fresh p l h absent in
        let after = y.fresh p x.pages' x.well.free before.1 in (after.0 ∙ before.0, after.1);
    saved = λ p l h inside. elim (x.saved p l h inside) [
      | inl z ↦ y.saved p x.pages' x.well.free z
      | inr (k, e, t) ↦ inr (k, e, y.grows p k e t)
    ];
    spent = λ l free.
        let first = x.spent l free in
        let next = y.spent x.pages' x.well.free in omega (arith, first, next);
    whole = λ z. ap suc (y.whole z);
    part = λ z. (omega (arith, (y.part z).0), (y.part z).1);
    after = λ pt vb hp hb.
        y.after pt vb (hp.0, x.grows pt 2 hp.0 hp.1) hb
        ∙ joined root a pa perm pt vb al y.count (lookup m.cell 2 pt vb) (lookup o.cell 2 pt vb)
            (x.after pt vb hp hb);
  }

  -- the pages behind the first are still unmapped
  still-IsUnmapped :
      (own : ℕ → Kind) (root a n v : ℕ) (m o : Machine)
      → IsRoot own root
      → a + suc n * 4096 ≤ maxva
      → IsUnmapped m.cell root a (suc n)
      → PageMapped kernel_end own root a v m true o
      → IsUnmapped o.cell root (a + 4096) n
  still-IsUnmapped own root a n v m o hr fits empty x vb lo hi =
      let apart : at_page root a root vb ≡ false = ground arith in
      let before = empty vb (omega arith) (omega arith) in
      rw (x.after root vb hr (omega arith), apart) before

  -- the loop over `suc k` pages
  map_from_lem :
      (k : ℕ) (own : ℕ → Kind) (pages : List ℕ) (m : Machine) (root a pa perm last : ℕ)
      → IsWell kernel_end own pages m
      → IsRoot own root
      → a % 4096 ≡ 0
      → last ≡ a + k * 4096
      → a + suc k * 4096 ≤ maxva
      → pa + suc k * 4096 ≤ word
      → IsUnmapped m.cell root a (suc k)
      → Returns
          (RangeMapped kernel_end own root a (suc k) pa perm m)
          (map_from (suc k) root a last pa perm m)
  unfolding map_from
  map_from_lem zero own pages m root a pa perm last well hr al e fits pfits empty =
      let ends : (a == last) ≡ true = ground arith in
      Returns-bind _ (map_page root a pa perm m) _
        (map_page_lem kernel_end own pages m root a pa perm well hr (omega arith)
          (empty a (omega arith) (omega arith)))
        (elim [
          | true ↦ λ o x. rw ends (only own root a pa perm m o al x)
          | false ↦ λ o x. failed own root a 1 pa perm _ m o al (omega arith) x
        ])
  map_from_lem (suc k) own pages m root a pa perm last well hr al e fits pfits empty =
      let goes : (a == last) ≡ false = ground arith in
      let up : u64 (a + pgsize) ≡ a + 4096 = omega arith in
      let pup : u64 (pa + pgsize) ≡ pa + 4096 = omega arith in
      Returns-bind _ (map_page root a pa perm m) _
        (map_page_lem kernel_end own pages m root a pa perm well hr (omega arith)
          (empty a (omega arith) (omega arith)))
        (elim [
          | true ↦ λ o x.
              rw (goes, up, pup)
                (Returns-mono (map_from (suc k) root (a + 4096) last (pa + 4096) perm o)
                  (map_from_lem k x.own' x.pages' o root (a + 4096) (pa + 4096) perm last x.well
                    (hr.0, x.grows root 2 hr.0 hr.1) (omega arith) (omega arith) (omega arith)
                    (omega arith) (still-IsUnmapped own root a (suc k) _ m o hr fits empty x))
                  (λ done r y. further own root a (suc k) pa perm m o r done al x y))
          | false ↦ λ o x. failed own root a (suc (suc k)) pa perm _ m o al (omega arith) x
        ])

  -- Where the free list and the page tables are well formed: for a range of one or more whole pages
  -- of the space `root` below MAXVA, none of which is mapped, and frames that do not wrap past 2 ^
  -- 64, `mappages` returns. If it returns 0, each page of the range is mapped to its frame from `pa`
  -- on with the given permissions, and every other page of every space is mapped as before. If it
  -- returns -1, no page is free, fewer pages than asked for have been mapped, and all else is mapped
  -- as before. Words outside of page tables do not change, and all stays well formed.
  pub mappages_lem :
      (n : ℕ) (own : ℕ → Kind) (pages : List ℕ) (m : Machine) (root va pa perm : ℕ)
      → IsWell kernel_end own pages m
      → IsRoot own root
      → 0 < n
      → va % 4096 ≡ 0
      → va + n * 4096 ≤ maxva
      → pa + n * 4096 ≤ word
      → IsUnmapped m.cell root va n
      → Returns
          (RangeMapped kernel_end own root va n pa perm m)
          (mappages root va (n * 4096) pa perm m)
  unfolding mappages
  mappages_lem zero own pages m root va pa perm well hr pos al fits pfits empty =
      absurd (omega arith)
  mappages_lem (suc k) own pages m root va pa perm well hr pos al fits pfits empty =
      let aligned : not (va % pgsize == 0) ≡ false = ground arith in
      let sized : not (suc k * 4096 % pgsize == 0) ≡ false = ground arith in
      let some_size : (suc k * 4096 == 0) ≡ false = ground arith in
      let rounds : suc k * 4096 / pgsize ≡ suc k = omega arith in
      let last : u64 (va + suc k * 4096 - pgsize) ≡ va + k * 4096 = omega arith in
      rw (aligned, sized, some_size, rounds, last)
        (map_from_lem k own pages m root va pa perm (va + k * 4096) well hr al refl fits pfits
          empty)
