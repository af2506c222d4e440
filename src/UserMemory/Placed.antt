-- ===== src/UserMemory/Placed.antt =====
-- Pages with frames of their own, placed one after the other in an address space: the loops of `uvmalloc`
-- and `uvmcopy` of Proyecto3/kernel/vm.c.
use mathlib.Core.Bool.{false≢true}
use oscraft.Common.{
  ℕ, suc, ◌+◌, ◌-◌, ◌*◌, ◌%◌, ◌/◌, ◌≤◌, ◌<◌, ◌≡◌, ◌≢◌, refl, sym, ◌∙◌, Bool, true, false, ◌&&◌, ◌⊎◌,
  List, ◌∷◌, arith, ◌==◌, ==_iff, if◌then◌else◌, Bool-cases, inl, inr, has,
}
use oscraft.Riscv.{pte2pa, maxva, sv39}
use oscraft.Machine.{Machine, in_page}
use oscraft.PageTable.Shape.{Kind, table, lookup}
use oscraft.PageTable.Well.{IsWell, IsTable}
use oscraft.Kalloc.Contract.{IsFree}
use oscraft.Kalloc.FreeList.{FreeList-unique}
use oscraft.PageTable.Map.{IsRoot, PageMapped, at_page}
use oscraft.PageTable.Range.{in_range}
use oscraft.PageTable.Frame.{IsFreeable}
use oscraft.PageTable.Fresh.{
  page_pte, page_pte_lem, Filled, filled-IsWell, frame-IsFreeable, frame_words, other_frame,
  lookup-filled,
}

module _ (kernel_end : ℕ) (own : ℕ → Kind) (pages : List ℕ) (m : Machine) (root base : ℕ)
    (present : ℕ → Bool) (flags : ℕ → ℕ) (word : ℕ → ℕ → ℕ) where
  -- the frame of the page `i` in `s`
  abbrev pub frame_of : Machine → ℕ → ℕ
  frame_of s i = pte2pa (lookup s.cell 2 root (base + i * 4096))

  -- whether `vb` of the space `pt` is in one of the first `n` pages, and that page is present
  abbrev pub is_placed : (n pt vb : ℕ) → Bool
  is_placed n pt vb = in_range root base n pt vb && present ((vb - base) / 4096)

  -- A page is one of `pages'`, a table, or the frame in `s` of one of the first `n` pages.
  abbrev pub IsSaved : (n : ℕ) → Machine → (ℕ → Kind) → List ℕ → ℕ → Type 0
  IsSaved n s own' pages' q =
      (has q pages' ≡ true)
      ⊎ (IsTable own' q ⊎ ((i : ℕ) × (i < n) × (present i ≡ true) × (frame_of s i ≡ q)))

  -- From `m` to `s` the first `n` pages from `base` on, as far as they are present, have got entries with
  -- their flags and distinct frames with their words, and no page that was free is lost. Every other page of every space is mapped as
  -- before, and the frames that were in use stay in use and keep their words.
  pub record Placed (n : ℕ) (s : Machine) : Type 0 where
    pub own' : ℕ → Kind
    pub pages' : List ℕ
    pub well : IsWell kernel_end own' pages' s
    pub grows : (p k e : ℕ) → own p ≡ table k e → own' p ≡ table k e
    pub entry :
        (i : ℕ)
        → i < n
        → present i ≡ true
        → lookup s.cell 2 root (base + i * 4096) ≡ page_pte (frame_of s i) (flags i)
    pub frame :
        (i : ℕ) → i < n → present i ≡ true → IsFreeable kernel_end own' pages' (frame_of s i)
    pub apart :
        (i j : ℕ)
        → i < j
        → j < n
        → present i ≡ true
        → present j ≡ true
        → frame_of s i ≢ frame_of s j
    pub words :
        (i a : ℕ)
        → i < n
        → present i ≡ true
        → in_page (frame_of s i) a ≡ true
        → s.cell a ≡ word i (a - frame_of s i)
    pub after :
        (pt vb : ℕ)
        → IsRoot own pt
        → vb < sv39
        → is_placed n pt vb ≡ false
        → lookup s.cell 2 pt vb ≡ lookup m.cell 2 pt vb
    pub others :
        (q : ℕ)
        → IsFreeable kernel_end own pages q
        → IsFreeable kernel_end own' pages' q × ((a : ℕ) → in_page q a ≡ true → s.cell a ≡ m.cell a)
    pub saved :
        (q : ℕ) (l : List ℕ) → IsFree kernel_end l m → has q l ≡ true → IsSaved n s own' pages' q

  pub place_none : IsWell kernel_end own pages m → Placed 0 m
  place_none well = record {
    own' = own;
    pages' = pages;
    well = well;
    grows = λ p k e h. h;
    entry = λ i lt. absurd (omega arith);
    frame = λ i lt. absurd (omega arith);
    apart = λ i j lt lt'. absurd (omega arith);
    words = λ i a lt. absurd (omega arith);
    after = λ pt vb hp hb out. refl;
    others = λ q h. (h, λ a i. refl);
    saved = λ q l h inside.
        inl (rw (FreeList-unique m.cell kernel_end m.freelist l pages h well.free) at inside);
  }

  -- a page that is not present
  pub place_absent : (n : ℕ) (s : Machine) → present n ≡ false → Placed n s → Placed (suc n) s
  place_absent n s missing x = record {
    own' = x.own';
    pages' = x.pages';
    well = x.well;
    grows = x.grows;
    entry = λ i lt h. x.entry i (below i lt h) h;
    frame = λ i lt h. x.frame i (below i lt h) h;
    apart = λ i j lt lt' h h'. x.apart i j lt (below j lt' h') h h';
    words = λ i a lt h. x.words i a (below i lt h) h;
    after = λ pt vb hp hb out. x.after pt vb hp hb (ground arith);
    others = x.others;
    saved = λ q l h inside. elim (x.saved q l h inside) [
      | inl z ↦ inl z
      | inr (inl t) ↦ inr (inl t)
      | inr (inr (i, lt, p, f)) ↦ inr (inr (i, omega arith, p, f))
    ];
  }
    where
      below : (i : ℕ) → i < suc n → present i ≡ true → i < n
      below i lt h = elim (Bool-cases (i == n)) [
        | inl z ↦ absurd (false≢true (sym missing ∙ rw ((==_iff i n).0 z) at h))
        | inr z ↦ ground arith
      ]

  module _ (n : ℕ) (s g o : Machine) (r : ℕ) (rest : List ℕ) (hr : IsRoot own root)
      (al : base % 4096 ≡ 0) (fits : base + suc n * 4096 ≤ maxva) (small : flags n < 1024)
      (there : present n ≡ true) (x : Placed n s) (e : x.pages' ≡ r ∷ rest) (fill : Filled r s g)
      (filled : (a : ℕ) → in_page r a ≡ true → g.cell a ≡ word n (a - r))
      (y : PageMapped kernel_end x.own' root
        (base + n * 4096)
        (page_pte r (flags n))
        g
        true
        o) where
    start : IsWell kernel_end x.own' (r ∷ rest) s
    start = rw e at x.well

    mapped :
        (pt vb : ℕ)
        → IsRoot own pt
        → vb < sv39
        → lookup o.cell 2 pt vb ≡ (
            if at_page root (base + n * 4096) pt vb
            then page_pte r (flags n)
            else lookup s.cell 2 pt vb)
    mapped pt vb hp hb =
        let hp' : IsRoot x.own' pt = (hp.0, x.grows pt 2 hp.0 hp.1) in
        rw (← lookup-filled kernel_end x.own' rest r s g start fill pt vb hp')
          (y.after pt vb hp' hb)

    new_entry : lookup o.cell 2 root (base + n * 4096) ≡ page_pte r (flags n)
    new_entry =
        let here : at_page root (base + n * 4096) root (base + n * 4096) ≡ true = ground arith in
        rw here at (mapped root (base + n * 4096) hr (omega arith))

    new_frame : frame_of o n ≡ r
    new_frame =
        let page = start.free.1 in
        rw new_entry ((page_pte_lem r (flags n) page.aligned page.below small).1)

    old_entry :
        (i : ℕ)
        → i < n
        → lookup o.cell 2 root (base + i * 4096) ≡ lookup s.cell 2 root (base + i * 4096)
    old_entry i lt =
        let elsewhere : at_page root (base + n * 4096) root (base + i * 4096) ≡ false =
          ground arith in
        rw elsewhere at (mapped root (base + i * 4096) hr (omega arith))

    kept :
        (q : ℕ)
        → IsFreeable kernel_end x.own' x.pages' q
        → IsFreeable kernel_end y.own' y.pages' q
          × (r ≢ q)
          × ((a : ℕ) → in_page q a ≡ true → o.cell a ≡ s.cell a)
    kept q h = other_frame kernel_end x.own' rest r s g start fill root _ _ o true y q (rw e at h)

    new_own : IsFreeable kernel_end y.own' y.pages' r
    new_own = frame-IsFreeable kernel_end x.own' rest r s g start fill root _ _ o true y

    last : (i : ℕ) → i < suc n → (i ≡ n) ⊎ (i < n)
    last i lt = elim (Bool-cases (i == n)) [
      | inl z ↦ inl ((==_iff i n).0 z)
      | inr z ↦ inr (ground arith)
    ]

    -- The next page has its frame.
    pub place_page : Placed (suc n) o
    place_page = record {
      own' = y.own';
      pages' = y.pages';
      well = y.well;
      grows = λ p k t h. y.grows p k t (x.grows p k t h);
      entry = λ i lt h. entry i (last i lt) h;
      frame = λ i lt h. frame i (last i lt) h;
      apart = λ i j lt lt' h h'. apart i j lt (last j lt') h h';
      words = λ i a lt h inside. words i a (last i lt) h inside;
      after = λ pt vb hp hb out.
          let elsewhere : at_page root (base + n * 4096) pt vb ≡ false = elsewhere pt vb out in
          rw elsewhere at (mapped pt vb hp hb) ∙ x.after pt vb hp hb (before pt vb out);
      others = λ q h.
          let before = x.others q h in
          let now = kept q before.0 in (now.0, λ a i. now.2 a i ∙ before.1 a i);
      saved = λ q l h inside. saved q (x.saved q l h inside);
    }
      where
        later :
            (q : ℕ)
            → (has q y.pages' ≡ true) ⊎ IsTable y.own' q
            → IsSaved (suc n) o y.own' y.pages' q
        later q (inl z) = inl z
        later q (inr t) = inr (inl t)

        saved : (q : ℕ) → IsSaved n s x.own' x.pages' q → IsSaved (suc n) o y.own' y.pages' q
        saved q (inl z) = elim (Bool-cases (q == r)) [
          | inl same ↦ inr (inr (n, omega arith, there, rw new_frame (sym ((==_iff q r).0 same))))
          | inr ne ↦
              let rest_free = (filled-IsWell kernel_end x.own' rest r s g start fill).free in
              let z' = rw e at z in later q (y.saved q rest rest_free (ground arith))
        ]
        saved q (inr (inl (k, t, is))) = inr (inl (k, t, y.grows q k t is))
        saved q (inr (inr (i, lt, p, f))) = inr (inr (i, omega arith, p, rw (old_entry i lt) f))

        elsewhere :
            (pt vb : ℕ)
            → is_placed (suc n) pt vb ≡ false
            → at_page root (base + n * 4096) pt vb ≡ false
        elsewhere pt vb out = elim (Bool-cases (at_page root (base + n * 4096) pt vb)) [
          | inl z ↦
              let index : (vb - base) / 4096 ≡ n = ground arith in
              let inside : in_range root base (suc n) pt vb ≡ true = ground arith in
              absurd (false≢true (sym (rw (inside, index, there) at out)))
          | inr z ↦ z
        ]

        before : (pt vb : ℕ) → is_placed (suc n) pt vb ≡ false → is_placed n pt vb ≡ false
        before pt vb out = elim (Bool-cases (present ((vb - base) / 4096))) [
          | inl z ↦ rw z (ground arith)
          | inr z ↦ rw z (ground arith)
        ]

        entry :
            (i : ℕ)
            → (i ≡ n) ⊎ (i < n)
            → present i ≡ true
            → lookup o.cell 2 root (base + i * 4096) ≡ page_pte (frame_of o i) (flags i)
        entry i (inl z) h = rw (z, new_frame, new_entry)
        entry i (inr lt) h = rw (old_entry i lt) (x.entry i lt h)

        frame :
            (i : ℕ)
            → (i ≡ n) ⊎ (i < n)
            → present i ≡ true
            → IsFreeable kernel_end y.own' y.pages' (frame_of o i)
        frame i (inl z) h = rw (z, new_frame) new_own
        frame i (inr lt) h = rw (old_entry i lt) (kept (frame_of s i) (x.frame i lt h)).0

        apart :
            (i j : ℕ)
            → i < j
            → (j ≡ n) ⊎ (j < n)
            → present i ≡ true
            → present j ≡ true
            → frame_of o i ≢ frame_of o j
        apart i j lt (inl z) h h' =
            let lt' : i < n = omega arith in
            rw (z, new_frame, old_entry i lt')
              (λ w. (kept (frame_of s i) (x.frame i lt' h)).1 (sym w))
        apart i j lt (inr lt') h h' =
            rw (old_entry i (omega arith), old_entry j lt') (x.apart i j lt lt' h h')

        words :
            (i a : ℕ)
            → (i ≡ n) ⊎ (i < n)
            → present i ≡ true
            → in_page (frame_of o i) a ≡ true
            → o.cell a ≡ word i (a - frame_of o i)
        words i a (inl z) h inside =
            let inside' : in_page r a ≡ true = rw (z, new_frame) at inside in
            rw (z, new_frame)
              (frame_words kernel_end x.own' rest r s g start fill root _ _ o true y a inside'
                ∙ filled a inside')
        words i a (inr lt) h inside =
            let inside' : in_page (frame_of s i) a ≡ true = rw (old_entry i lt) at inside in
            rw (old_entry i lt)
              ((kept (frame_of s i) (x.frame i lt h)).2 a inside' ∙ x.words i a lt h inside')
