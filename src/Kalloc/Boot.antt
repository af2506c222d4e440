-- ===== src/Kalloc/Boot.antt =====
-- `kinit`: the free list after boot.
use oscraft.Common.{
  ℕ, zero, suc, ◌+◌, ◌-◌, ◌/◌, ◌%◌, ◌≤◌, ◌<◌, ◌≡◌, ◌≢◌, refl, true, false, List, [], ◌∷◌, arith,
  leb, AllBelow, AllBelow-has, AllBelow-mono,
}
use oscraft.Riscv.{pgroundup, phystop}
use oscraft.Monad.{Returns}
use oscraft.Machine.{Machine}
use oscraft.Kalloc.{free_pages, kinit}
use oscraft.Kalloc.FreeList.{IsPage, freed, kfree-ok, freed-FreeList}
use oscraft.Kalloc.Contract.{IsFree}

-- The pages `p`, `p + 4096`, … put in front of `pages` one after another, `n` of them.
pub with_pages : ℕ → ℕ → List ℕ → List ℕ
with_pages zero p pages = pages
with_pages (suc n) p pages = with_pages n (p + 4096) (p ∷ pages)

-- how many whole pages lie from `p` on below `pa_end`
abbrev pub page_count : ℕ → ℕ → ℕ
page_count p pa_end = (pa_end - p) / 4096

module _ (kernel_end : ℕ) where
  free_pages_lem :
      (rounds n p : ℕ) (pages : List ℕ) (m : Machine)
      → n ≤ rounds
      → page_count p phystop ≡ n
      → p % 4096 ≡ 0
      → kernel_end ≤ p
      → p ≢ 0
      → p ≤ phystop
      → AllBelow p pages
      → IsFree kernel_end pages m
      → Returns
          (λ _ m'. IsFree kernel_end (with_pages n p pages) m')
          (free_pages kernel_end rounds p phystop m)
  unfolding free_pages with_pages
  free_pages_lem zero zero p pages m le count al above nz below less h =
      let stop : leb (p + 4096) phystop ≡ false = ground arith in rw stop h
  free_pages_lem (suc rounds) zero p pages m le count al above nz below less h =
      let stop : leb (p + 4096) phystop ≡ false = ground arith in rw stop h
  free_pages_lem zero (suc n) p pages m le count al above nz below less h = absurd (omega arith)
  free_pages_lem (suc rounds) (suc n) p pages m le count al above nz below less h =
      let go : leb (p + 4096) phystop ≡ true = ground arith in
      let page : IsPage kernel_end p = record {
        aligned = al;
        above = above;
        below = omega arith;
        not_null = nz;
      } in
      rw (go, kfree-ok kernel_end p m page)
        (free_pages_lem rounds n (p + 4096) (p ∷ pages) (freed p m) (omega arith) (omega arith)
          (omega arith) (omega arith) (omega arith) (omega arith)
          (omega arith, AllBelow-mono p (p + 4096) pages (omega arith) less)
          (freed-FreeList kernel_end p m pages page (AllBelow-has p pages less) h))

  -- From an empty list, for a kernel that ends above 0 and at least a page below PHYSTOP, `kinit` returns, and the free
  -- list holds exactly the whole pages between the end of the kernel, rounded up, and PHYSTOP, the
  -- highest first.
  pub kinit_lem :
      (m : Machine)
      → 0 < kernel_end
      → kernel_end + 4096 ≤ phystop
      → m.freelist ≡ 0
      → Returns
          (λ _ n.
            IsFree kernel_end
              (with_pages (page_count (pgroundup kernel_end) phystop) (pgroundup kernel_end) [])
              n)
          (kinit kernel_end m)
  unfolding kinit
  kinit_lem m pos room empty =
      free_pages_lem (phystop / 4096) (page_count (pgroundup kernel_end) phystop)
        (pgroundup kernel_end) [] m (omega arith) refl (omega arith) (omega arith) (omega arith)
        (omega arith) tt empty
