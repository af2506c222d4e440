-- ===== src/UserMemory/Shrink.antt =====
-- `uvmdealloc` of Proyecto3/kernel/vm.c: a process gives memory back.
use oscraft.Common.{
  ℕ, ◌-◌, ◌/◌, ◌≤◌, ◌≡◌, refl, true, false, List, arith, leb, ltb, if◌then◌else◌, Bool-cases, inl,
  inr,
}
use oscraft.Riscv.{pgroundup, sext32, maxva}
use oscraft.Monad.{Returns, Returns-bind}
use oscraft.Machine.{Machine}
use oscraft.PageTable.{uvmunmap}
use oscraft.PageTable.Shape.{Kind}
use oscraft.PageTable.Well.{IsWell}
use oscraft.PageTable.Map.{IsRoot}
use oscraft.PageTable.Range.{in_range}
use oscraft.PageTable.Release.{HasFrames, released, RangeUnmapped, uvmunmap_free}
use oscraft.UserMemory.{uvmdealloc}

-- the pages that a process of `oldsz` bytes has beyond `newsz`
abbrev pub surplus : (oldsz newsz : ℕ) → ℕ
surplus oldsz newsz = (pgroundup oldsz - pgroundup newsz) / 4096

module _ (kernel_end : ℕ) (own : ℕ → Kind) (root : ℕ) (hr : IsRoot own root) where
  pub nothing_unmapped :
      (pages : List ℕ) (m : Machine) (a : ℕ)
      → IsWell kernel_end own pages m
      → RangeUnmapped kernel_end own pages root a 0 m m
  nothing_unmapped pages m a well = record {
    well = well;
    upper = λ p k e i t hi. refl;
    after = λ pt vb hp hb. let out : in_range root a 0 pt vb ≡ false = ground arith in rw out;
  }

  -- Where the free list and the page tables are well formed, and for sizes of at most MAXVA: if the
  -- frames of the pages beyond the new size may be freed and are distinct, `uvmdealloc` returns the lower
  -- of the two sizes. The frames of the mapped pages between them are given back, those pages are not
  -- mapped any more, and every other page of every space is mapped as before.
  pub uvmdealloc_lem :
      (oldsz newsz : ℕ) (pages : List ℕ) (m : Machine)
      → IsWell kernel_end own pages m
      → oldsz ≤ maxva
      → newsz ≤ maxva
      → HasFrames kernel_end own pages m.cell root (pgroundup newsz) (surplus oldsz newsz)
      → Returns
          (λ r o.
            (r ≡ (if leb oldsz newsz then oldsz else newsz))
            × RangeUnmapped kernel_end own
                (released m.cell root (pgroundup newsz) (surplus oldsz newsz) pages)
                root
                (pgroundup newsz)
                (surplus oldsz newsz)
                m
                o)
          (uvmdealloc kernel_end root oldsz newsz m)
  unfolding uvmdealloc
  uvmdealloc_lem oldsz newsz pages m well fits fits' h = elim (Bool-cases (leb oldsz newsz)) [
    | inl e ↦
        let none : surplus oldsz newsz ≡ 0 = ground arith in
        rw (e, none) (refl, nothing_unmapped pages m (pgroundup newsz) well)
    | inr e ↦ elim (Bool-cases (ltb (pgroundup newsz) (pgroundup oldsz))) [
      | inl lt ↦
          let count : sext32 (surplus oldsz newsz) ≡ surplus oldsz newsz = ground arith in
          rw (e, lt, count)
            (Returns-bind _
              (uvmunmap kernel_end root (pgroundup newsz) (surplus oldsz newsz) true m) _
              (uvmunmap_free kernel_end own root hr (surplus oldsz newsz) (pgroundup newsz) pages m
                well (omega arith) (omega arith) h)
              λ _ o x. (refl, x))
      | inr ge ↦
          let none : surplus oldsz newsz ≡ 0 = ground arith in
          rw (e, ge, none) (refl, nothing_unmapped pages m (pgroundup newsz) well)
    ]
  ]
