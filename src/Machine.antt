-- ===== src/Machine.antt =====
-- The memory that the kernel works on, and the monad of its functions.
--
-- Physical memory is its 64-bit words: `cell a` is the word at the address `a`, a multiple of 8.
-- Page tables, the links of the free list and the contents of pages are all such words, so writing
-- a page through one pointer is seen through every other. A byte is a digit to base 256 of the word
-- that holds it (little endian). `console` is what `printk` was given, the latest line first.
pub mod Cells
use oscraft.Monad.{Outcome, ok, panic, null_pointer}
use oscraft.Common.{
  ℕ, zero, suc, ◌+◌, ◌-◌, ◌*◌, ◌/◌, ◌%◌, ◌^◌, Bool, true, false, ◌&&◌, ◌||◌, List, [], ◌∷◌, leb,
  ltb, ◌==◌, if◌then◌else◌,
}

-- A line of `vmprint`: the root, or an entry with its depth, first address and value.
pub data Line : Type 0 where
  page_table : ℕ → Line
  entry : (dots va pte pa : ℕ) → Line

pub record Machine : Type 0 where
  pub cell : ℕ → ℕ
  pub freelist : ℕ
  pub console : List Line

-- A function of the kernel that works on memory alone.
abbrev pub M : Type 0 → Type 0
M A = Machine → Outcome Machine A

abbrev pub update : (ℕ → ℕ) → ℕ → ℕ → ℕ → ℕ
update f p v q = if p == q then v else f q

-- whether the word at `a` lies in the page at `pa`
abbrev pub in_page : ℕ → ℕ → Bool
in_page pa a = leb pa a && ltb a (pa + 4096)

-- `*p` for a `uint64 *p`
unfoldable pub load : ℕ → M ℕ
load p m = if p == 0 then panic null_pointer else ok (m.cell p) m

-- `*p = v`
unfoldable pub store : ℕ → ℕ → M (Unit {0})
store p v m = if p == 0 then panic null_pointer else ok tt (record m { cell = update m.cell p v })

-- a word whose eight bytes are `c`
abbrev pub splat : ℕ → ℕ
splat c = c * 72340172838076673

-- the byte at `a`
abbrev pub byte_at : (ℕ → ℕ) → ℕ → ℕ
byte_at f a = f (a - a % 8) / 256 ^ (a % 8) % 256

-- memory with the byte at `a` set to `v`
abbrev pub put_byte : (ℕ → ℕ) → ℕ → ℕ → ℕ → ℕ
put_byte f a v =
    update f (a - a % 8) (f (a - a % 8) + v * 256 ^ (a % 8) - byte_at f a * 256 ^ (a % 8))

-- the bytes of `memmove(dst, …, n)` for a source that lies outside the pages
unfoldable pub write_bytes : ℕ → List ℕ → (ℕ → ℕ) → ℕ → ℕ
write_bytes a [] f = f
write_bytes a (v ∷ vs) f = write_bytes (a + 1) vs (put_byte f a v)

-- the `n` bytes from `a`
unfoldable pub read_bytes : ℕ → ℕ → (ℕ → ℕ) → List ℕ
read_bytes zero a f = []
read_bytes (suc n) a f = byte_at f a ∷ read_bytes n (a + 1) f

-- `memset(pa, c, PGSIZE)`
unfoldable pub memset_page : ℕ → ℕ → M (Unit {0})
memset_page pa c m =
    if pa == 0
    then panic null_pointer
    else ok tt (record m { cell = λ a. if in_page pa a then splat c else m.cell a })

-- `memmove(dst, src, PGSIZE)`
unfoldable pub memmove_page : ℕ → ℕ → M (Unit {0})
memmove_page dst src m =
    if (dst == 0) || (src == 0)
    then panic null_pointer
    else ok tt
        (record m { cell = λ a. if in_page dst a then m.cell (src + (a - dst)) else m.cell a })

-- `memmove` of bytes into memory, and out of it
unfoldable pub copy_to : ℕ → List ℕ → M (Unit {0})
unfolding write_bytes
copy_to a vs m = ok tt (record m { cell = write_bytes a vs m.cell })

unfoldable pub copy_from : ℕ → ℕ → M (List ℕ)
unfolding read_bytes
copy_from n a m = ok (read_bytes n a m.cell) m

unfoldable pub printk : Line → M (Unit {0})
printk l m = ok tt (record m { console = l ∷ m.console })
