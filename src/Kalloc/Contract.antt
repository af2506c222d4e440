-- ===== src/Kalloc/Contract.antt =====
-- kalloc.c against its abstract view, a list of free pages: `kfree` puts a page in front and `kalloc`
-- takes the first.
use oscraft.Common.{
  ℕ, ◌*◌, ◌≤◌, ◌<◌, ◌≡◌, ◌≢◌, refl, true, false, List, ◌∷◌, arith, ap, ◌∙◌, length, has,
}
use oscraft.Monad.{ok, ◌>>◌, Returns}
use oscraft.Machine.{Machine, in_page, splat}
use oscraft.Kalloc.{kfree, kalloc, get_free_memory}
use oscraft.Kalloc.FreeList.{
  IsPage, FreeList, freed, taken, kfree-ok, freed-FreeList, kalloc-ok, taken-FreeList,
  count_free_lem,
}

-- The machine's free pages are `pages`, in this order.
abbrev pub IsFree : ℕ → List ℕ → Machine → Type 0
IsFree kernel_end pages m = FreeList m.cell kernel_end m.freelist pages

-- Outside the page at `pa` the words are as before.
abbrev pub SameOutside : ℕ → Machine → Machine → Type 0
SameOutside pa m n = (a : ℕ) → in_page pa a ≡ false → n.cell a ≡ m.cell a

-- For a page of the allocator that is not free yet, `kfree` returns, the page is the first of the
-- free list, the others follow it in their order, and no word outside the page has changed.
pub kfree-cons :
    (kernel_end pa : ℕ) (pages : List ℕ) (m : Machine)
    → IsPage kernel_end pa
    → has pa pages ≡ false
    → IsFree kernel_end pages m
    → Returns (λ _ n. IsFree kernel_end (pa ∷ pages) n × SameOutside pa m n) (kfree kernel_end pa m)
kfree-cons kernel_end pa pages m page new h =
    rw (kfree-ok kernel_end pa m page)
      (freed-FreeList kernel_end pa m pages page new h, λ a out. outside a out)
  where
    outside : (a : ℕ) → in_page pa a ≡ false → (freed pa m).cell a ≡ m.cell a
    outside a out = ground arith

-- With free pages left, `kalloc` returns the first, which is not null, keeps the others in their
-- order, fills the page with the byte 5 and changes no word outside it.
pub kalloc-cons :
    (kernel_end r : ℕ) (pages : List ℕ) (m : Machine)
    → IsFree kernel_end (r ∷ pages) m
    → Returns
        (λ p n.
          (p ≡ r)
          × (p ≢ 0)
          × IsFree kernel_end pages n
          × SameOutside r m n
          × ((a : ℕ) → in_page r a ≡ true → n.cell a ≡ splat 5))
        (kalloc m)
kalloc-cons kernel_end r pages m h = rw (kalloc-ok kernel_end r m h.0 h.1.not_null) (
  refl,
  h.1.not_null,
  taken-FreeList kernel_end r m pages h,
  λ a out. outside a out,
  λ a inside. filled a inside,
)
  where
    outside : (a : ℕ) → in_page r a ≡ false → (taken r m).cell a ≡ m.cell a
    outside a out = ground arith

    filled : (a : ℕ) → in_page r a ≡ true → (taken r m).cell a ≡ splat 5
    filled a inside = ground arith

-- A page that is freed is the one that the next `kalloc` returns, and the free list is then the one
-- from before.
pub kalloc-kfree :
    (kernel_end pa : ℕ) (pages : List ℕ) (m : Machine)
    → IsPage kernel_end pa
    → has pa pages ≡ false
    → IsFree kernel_end pages m
    → Returns (λ p n. (p ≡ pa) × IsFree kernel_end pages n) ((kfree kernel_end pa >> kalloc) m)
kalloc-kfree kernel_end pa pages m page new h =
    let full = freed-FreeList kernel_end pa m pages page new h in
    rw (kfree-ok kernel_end pa m page) (
      rw (kalloc-ok kernel_end pa (freed pa m) refl page.not_null)
        (refl, taken-FreeList kernel_end pa (freed pa m) pages full))

-- For a free list of at most `rounds` pages below 2 ^ 52, `get_free_memory` ends within `rounds`
-- rounds, returns 4096 bytes for each free page and changes nothing.
pub get_free_memory-length :
    (kernel_end rounds : ℕ) (pages : List ℕ) (m : Machine)
    → IsFree kernel_end pages m
    → length pages ≤ rounds
    → length pages < 4503599627370496
    → get_free_memory rounds m ≡ ok (4096 * length pages) m
unfolding get_free_memory
get_free_memory-length kernel_end rounds pages m h le small =
    count_free_lem kernel_end rounds m.freelist 0 m pages h le (omega arith)
    ∙ ap (λ (n : ℕ). ok n m) (omega arith)
