-- ===== src/UserMemory/Undone.antt =====
-- How `uvmalloc` and `uvmcopy` of Proyecto3/kernel/vm.c take back the pages that they have placed when
-- memory runs out.
use mathlib.Core.Bool.{false≢true}
use oscraft.Common.{
  ℕ, zero, suc, ◌+◌, ◌-◌, ◌*◌, ◌%◌, ◌/◌, ◌≤◌, ◌<◌, ◌≡◌, refl, sym, ◌∙◌, Bool, true, false, ◌&&◌,
  List, [], ◌∷◌, arith, ◌==◌, ==_ne, if◌then◌else◌, Bool-cases, inl, inr, length, has, ap, ==_refl,
  bit_or, bit_or-one, ◌⊎◌,
}
use oscraft.Riscv.{is_valid, pa2pte, pte2pa, maxva, sv39}
use oscraft.Machine.{Machine}
use oscraft.Kalloc.FreeList.{freed}
use oscraft.PageTable.Shape.{Kind, table, lookup}
use oscraft.PageTable.Well.{IsWell, IsTable, KeepsFree}
use oscraft.Kalloc.Contract.{IsFree}
use oscraft.PageTable.Map.{IsRoot, PageMapped}
use oscraft.PageTable.Range.{in_range, IsUnmapped}
use oscraft.PageTable.Frame.{IsFreeable, lookup-frame, freed_tables, freed-IsWell}
use oscraft.PageTable.Fresh.{
  Filled, filled-IsWell, page_pte, frame-IsFreeable, other_frame, lookup-filled,
}
use oscraft.PageTable.Release.{HasFrames, released, RangeUnmapped}
use oscraft.UserMemory.Placed.{Placed, IsSaved, frame_of, is_placed}

-- From `m` to `o` nothing is mapped that was not: the `n` pages from `base` on are still unmapped and
-- every other page of every space is mapped as before. At most `limit` pages are free, and every page that
-- was free is free again or has become a table.
pub record Undone (kernel_end : ℕ) (own : ℕ → Kind) (m : Machine) (root base n limit : ℕ)
    (o : Machine) : Type 0 where
  pub own' : ℕ → Kind
  pub pages' : List ℕ
  pub well : IsWell kernel_end own' pages' o
  pub grows : (p k e : ℕ) → own p ≡ table k e → own' p ≡ table k e
  pub few : length pages' ≤ limit
  pub saved : KeepsFree kernel_end own' pages' m
  pub unmapped :
      (pt vb : ℕ)
      → IsRoot own pt
      → vb < sv39
      → in_range root base n pt vb ≡ true
      → is_valid (lookup o.cell 2 pt vb) ≡ false
  pub after :
      (pt vb : ℕ)
      → IsRoot own pt
      → vb < sv39
      → in_range root base n pt vb ≡ false
      → lookup o.cell 2 pt vb ≡ lookup m.cell 2 pt vb

invalid :
    (b : Bool) (x : ℕ) → is_valid x ≡ false → is_valid (if b && is_valid x then 0 else x) ≡ false
invalid true x h = rw h h
invalid false x h = h

length-released :
    (f : ℕ → ℕ) (root n a : ℕ) (pages : List ℕ)
    → length (released f root a n pages) ≤ length pages + n
length-released f root zero a pages = omega arith
length-released f root (suc n) a pages = elim (Bool-cases (is_valid (lookup f 2 root a))) [
  | inl v ↦ rw v (
      let le = length-released f root n (a + 4096) (pte2pa (lookup f 2 root a) ∷ pages) in
      omega arith)
  | inr v ↦ rw v (let le = length-released f root n (a + 4096) pages in omega arith)
]

-- What is free stays so when frames are given back, and the frames that are given back are free.
released-keeps :
    (f : ℕ → ℕ) (root n a q : ℕ) (pages : List ℕ)
    → has q pages ≡ true
    → has q (released f root a n pages) ≡ true
released-keeps f root zero a q pages h = h
released-keeps f root (suc n) a q pages h = released-keeps f root n (a + 4096) q _ (more h)
  where
    more :
        has q pages ≡ true
        → has q (if is_valid (lookup f 2 root a) then pte2pa (lookup f 2 root a) ∷ pages else pages)
          ≡ true
    more h = elim (Bool-cases (is_valid (lookup f 2 root a))) [
      | inl v ↦ rw v (ground arith)
      | inr v ↦ rw v h
    ]

has-released :
    (f : ℕ → ℕ) (root n a i : ℕ) (pages : List ℕ)
    → i < n
    → is_valid (lookup f 2 root (a + i * 4096)) ≡ true
    → has (pte2pa (lookup f 2 root (a + i * 4096))) (released f root a n pages) ≡ true
has-released f root zero a i pages lt v = absurd (omega arith)
has-released f root (suc n) a zero pages lt v =
    let here : a + 0 * 4096 ≡ a = omega arith in
    let v' = rw here at v in
    rw (here, v')
      (released-keeps f root n (a + 4096) (pte2pa (lookup f 2 root a)) _
        (rw (==_refl (pte2pa (lookup f 2 root a)))))
has-released f root (suc n) a (suc i) pages lt v =
    let e : a + suc i * 4096 ≡ a + 4096 + i * 4096 = omega arith in
    let v' = rw e at v in rw e (has-released f root n (a + 4096) i _ (omega arith) v')

page_pte-valid : (r perm : ℕ) → is_valid (page_pte r perm) ≡ true
page_pte-valid r perm = rw (bit_or-one (bit_or (pa2pte r) perm)) (ground arith)

module _ (kernel_end : ℕ) (own : ℕ → Kind) (pages : List ℕ) (m : Machine) (root base : ℕ)
    (present : ℕ → Bool) (flags : ℕ → ℕ) (word : ℕ → ℕ → ℕ) (hr : IsRoot own root)
    (al : base % 4096 ≡ 0) (limit : ℕ) (fits : base + limit * 4096 ≤ maxva)
    (empty : IsUnmapped m.cell root base limit) where
  -- A state in which the first `n` pages are placed, and the frames may be freed.
  pub record Stopped (n : ℕ) (s q : Machine) : Type 0 where
    pub placed : Placed kernel_end own pages m root base present flags word n s
    pub own' : ℕ → Kind
    pub pages' : List ℕ
    pub well : IsWell kernel_end own' pages' q
    pub grows : (p k e : ℕ) → own p ≡ table k e → own' p ≡ table k e
    pub few : length pages' ≤ 1
    pub same :
        (pt vb : ℕ) → IsRoot own pt → vb < sv39 → lookup q.cell 2 pt vb ≡ lookup s.cell 2 pt vb
    pub frame :
        (i : ℕ)
        → i < n
        → present i ≡ true
        → IsFreeable kernel_end own' pages'
            (frame_of kernel_end own pages m root base present flags word s i)
    pub saved :
        (a : ℕ) (l : List ℕ)
        → IsFree kernel_end l m
        → has a l ≡ true
        → IsSaved kernel_end own pages m root base present flags word n s own' pages' a

  module _ (n : ℕ) (s q : Machine) (below : n < limit) (x : Stopped n s q) where
    -- a page that is mapped was placed
    was_placed :
        (i : ℕ)
        → i < n
        → is_valid (lookup q.cell 2 root (base + i * 4096)) ≡ true
        → present i ≡ true
    was_placed i lt v = elim (Bool-cases (present i)) [
      | inl z ↦ z
      | inr z ↦
          let index : (base + i * 4096 - base) / 4096 ≡ i = omega arith in
          let out : is_placed kernel_end own pages m root base present flags word n root
                (base + i * 4096)
              ≡ false =
            rw (index, z) (ground arith) in
          let old =
            x.same root (base + i * 4096) hr (omega arith)
            ∙ x.placed.after root (base + i * 4096) hr (omega arith) out in
          absurd
            (false≢true (sym (empty (base + i * 4096) (omega arith) (omega arith)) ∙ rw old at v))
    ]

    pub stopped-HasFrames : HasFrames kernel_end x.own' x.pages' q.cell root base n
    stopped-HasFrames = record {
      frame = λ i lt v.
          let e = x.same root (base + i * 4096) hr (omega arith) in
          rw e (x.frame i lt (was_placed i lt v));
      apart = λ i j lt lt' v w.
          let e = x.same root (base + i * 4096) hr (omega arith) in
          let d = x.same root (base + j * 4096) hr (omega arith) in
          rw (e, d) (x.placed.apart i j lt lt' (was_placed i (omega arith) v) (was_placed j lt' w));
    }

    pub undo :
        (o : Machine)
        → RangeUnmapped kernel_end x.own' (released q.cell root base n x.pages') root base n q o
        → Undone kernel_end own m root base limit limit o
    undo o y = record {
      own' = x.own';
      pages' = released q.cell root base n x.pages';
      well = y.well;
      grows = x.grows;
      few = let le = length-released q.cell root n base x.pages' in let f = x.few in omega arith;
      saved = λ a l h inside. free_again a (x.saved a l h inside);
      unmapped = λ pt vb hp hb inside. rw (y.after pt vb (up pt hp) hb) (gone pt vb hp hb inside);
      after = λ pt vb hp hb outside.
          let out : in_range root base n pt vb ≡ false = ground arith in
          let unplaced : is_placed kernel_end own pages m root base present flags word n pt vb
              ≡ false =
            rw out in
          y.after pt vb (up pt hp) hb
          ∙ rw out (x.same pt vb hp hb ∙ x.placed.after pt vb hp hb unplaced);
    }
      where
        free_again :
            (a : ℕ)
            → IsSaved kernel_end own pages m root base present flags word n s x.own' x.pages' a
            → (has a (released q.cell root base n x.pages') ≡ true) ⊎ IsTable x.own' a
        free_again a (inl z) = inl (released-keeps q.cell root n base a x.pages' z)
        free_again a (inr (inl t)) = inr t
        free_again a (inr (inr (i, lt, p, f))) =
            let same = x.same root (base + i * 4096) hr (omega arith) in
            let valid : is_valid (lookup q.cell 2 root (base + i * 4096)) ≡ true =
              rw (same, x.placed.entry i lt p) (page_pte-valid _ (flags i)) in
            let found = has-released q.cell root n base i x.pages' lt valid in
            inl (rw (ap pte2pa same ∙ f) at found)

        up : (pt : ℕ) → IsRoot own pt → IsRoot x.own' pt
        up pt hp = (hp.0, x.grows pt 2 hp.0 hp.1)

        gone :
            (pt vb : ℕ)
            → IsRoot own pt
            → vb < sv39
            → in_range root base limit pt vb ≡ true
            → is_valid (
                if in_range root base n pt vb && is_valid (lookup q.cell 2 pt vb)
                then 0
                else lookup q.cell 2 pt vb)
              ≡ false
        gone pt vb hp hb inside = elim (Bool-cases (is_valid (lookup q.cell 2 pt vb))) [
          | inl v ↦ elim (Bool-cases (in_range root base n pt vb)) [
            | inl z ↦ rw (z, v)
            | inr z ↦
                let unplaced : is_placed kernel_end own pages m root base present flags word n pt vb
                    ≡ false =
                  rw z in
                let old = x.same pt vb hp hb ∙ x.placed.after pt vb hp hb unplaced in
                let space : pt ≡ root = ground arith in
                rw (z, old, space) (empty vb (ground arith) (ground arith))
          ]
          | inr v ↦ invalid (in_range root base n pt vb) (lookup q.cell 2 pt vb) v
        ]

  -- no page is free for the next frame
  pub stop_spent :
      (n : ℕ) (s : Machine)
      → (x : Placed kernel_end own pages m root base present flags word n s) → x.pages' ≡ []
      → Stopped n s s
  stop_spent n s x none = record {
    placed = x;
    own' = x.own';
    pages' = x.pages';
    well = x.well;
    grows = x.grows;
    few = rw none (omega arith);
    same = λ pt vb hp hb. refl;
    frame = x.frame;
    saved = x.saved;
  }

  -- no page is free for a table, and the frame goes back
  pub stop_full :
      (n v r : ℕ) (rest : List ℕ) (s g o : Machine)
      → (x : Placed kernel_end own pages m root base present flags word n s) → x.pages' ≡ r ∷ rest
      → Filled r s g
      → PageMapped kernel_end x.own' root (base + n * 4096) v g false o
      → Stopped n s (freed r o)
  stop_full n v r rest s g o x e fill y = record {
    placed = x;
    own' = y.own';
    pages' = r ∷ y.pages';
    well = freed-IsWell kernel_end y.own' y.pages' o y.well r mine;
    grows = λ p k t h. y.grows p k t (x.grows p k t h);
    few = let none = y.fails refl in rw none (omega arith);
    same = λ pt vb hp hb.
        let hp' : IsRoot x.own' pt = (hp.0, x.grows pt 2 hp.0 hp.1) in
        lookup-frame kernel_end y.own' o.cell (freed r o).cell y.well.tree
          (freed_tables kernel_end y.own' y.pages' o y.well r mine) 2 pt hp.0 vb
          (y.grows pt 2 hp.0 hp'.1)
        ∙ y.after pt vb hp' hb
        ∙ lookup-filled kernel_end x.own' rest r s g start fill pt vb hp';
    saved = λ a l h inside. saved a (x.saved a l h inside);
    frame = λ i lt h.
        let q = frame_of kernel_end own pages m root base present flags word s i in
        let k =
          other_frame kernel_end x.own' rest r s g start fill root _ v o false y q
            (rw e at (x.frame i lt h)) in
        record {
          page = k.0.page;
          taken =
              let t = k.0.taken in
              let ne : (q == r) ≡ false = ==_ne q r (λ z. k.1 (sym z)) in rw ne t;
          plain = k.0.plain;
        };
  }
    where
      start : IsWell kernel_end x.own' (r ∷ rest) s
      start = rw e at x.well

      saved :
          (a : ℕ)
          → IsSaved kernel_end own pages m root base present flags word n s x.own' x.pages' a
          → IsSaved kernel_end own pages m root base present flags word n s y.own' (r ∷ y.pages') a
      saved a (inl z) = elim (Bool-cases (a == r)) [
        | inl same ↦ inl (rw same)
        | inr ne ↦
            let rest_free = (filled-IsWell kernel_end x.own' rest r s g start fill).free in
            let z' = rw e at z in
            elim (y.saved a rest rest_free (ground arith)) [
              | inl there ↦ inl (rw ne there)
              | inr t ↦ inr (inl t)
            ]
      ]
      saved a (inr (inl (k, t, is))) = inr (inl (k, t, y.grows a k t is))
      saved a (inr (inr f)) = inr (inr f)

      mine : IsFreeable kernel_end y.own' y.pages' r
      mine = frame-IsFreeable kernel_end x.own' rest r s g start fill root _ v o false y
