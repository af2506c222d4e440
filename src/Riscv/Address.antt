-- ===== src/Riscv/Address.antt =====
-- What the macros of riscv.h satisfy.
use oscraft.Common.{ℕ, ◌+◌, ◌/◌, ◌%◌, ◌^◌, ◌≤◌, ◌<◌, ◌≡◌, arith}
use oscraft.Riscv.{pgroundup, pa2pte, pte2pa, px, word}

px-zero : (va : ℕ) → px 0 va ≡ va / 4096 % 512
px-zero va = omega arith

px-one : (va : ℕ) → px 1 va ≡ va / 2097152 % 512
px-one va = omega arith

px-two : (va : ℕ) → px 2 va ≡ va / 1073741824 % 512
px-two va = omega arith

-- Two virtual addresses below 2 ^ 39 with the same three indices lie in one page.
pub px_injective :
    (va vb : ℕ)
    → va < 2 ^ 39
    → vb < 2 ^ 39
    → px 2 va ≡ px 2 vb
    → px 1 va ≡ px 1 vb
    → px 0 va ≡ px 0 vb
    → va / 4096 ≡ vb / 4096
px_injective va vb ha hb two one none = omega arith

-- The physical address of a PTE made by PA2PTE and any low flags is the page's.
pub pte2pa-pa2pte :
    (pa flags : ℕ) → pa % 4096 ≡ 0 → pa < word → flags < 1024 → pte2pa (pa2pte pa + flags) ≡ pa
pte2pa-pa2pte pa flags aligned small low = omega arith

-- PGROUNDUP gives the next multiple of the page size.
pub pgroundup_bounds :
    (sz : ℕ)
    → sz + 4095 < word
    → (sz ≤ pgroundup sz) × (pgroundup sz < sz + 4096) × (pgroundup sz % 4096 ≡ 0)
pgroundup_bounds sz h = omega arith
