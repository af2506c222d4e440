-- ===== src/Machine/Cells.antt =====
-- Reading memory after a write.
use oscraft.Common.{ℕ, ◌≡◌, ◌≢◌, arith, if◌then◌else◌}
use oscraft.Monad.{ok}
use oscraft.Machine.{Machine, update, in_page, splat, load, store, memset_page}

pub load-ok : (p : ℕ) (m : Machine) → p ≢ 0 → load p m ≡ ok (m.cell p) m
unfolding load
load-ok p m h = ground arith

pub store-ok :
    (p v : ℕ) (m : Machine) → p ≢ 0 → store p v m ≡ ok tt (record m { cell = update m.cell p v })
unfolding store
store-ok p v m h = ground arith

pub memset_page-ok :
    (p c : ℕ) (m : Machine)
    → p ≢ 0
    → memset_page p c m ≡ ok tt (record m { cell = λ a. if in_page p a then splat c else m.cell a })
unfolding memset_page
memset_page-ok p c m h = ground arith
