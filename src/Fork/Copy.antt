-- ===== src/Fork/Copy.antt =====
-- kernel/vm.c: `uvmcopy` of a page for the child in the tests of `fork`: the parent's tables are at
-- 4096, 8192 and 12288, with the page at 16384, the child's at 20480, 24576 and 28672, and 32768 is
-- free.
use paddle_os.Prelude.{if-false, ℕ, suc, ◌+◌, ◌≤◌, ◌<◌, ◌≡◌, refl, ◌∙◌, true, false, arith, ok}
use paddle_os.Memory.{Mem, memset, memmove, store}
use paddle_os.Memory.Move.{inside, memmove_lem, memset_lem}
use paddle_os.Memory.Words.{load_word, store_word, load_word-same}
use paddle_os.Kalloc.{Kmem, page_size, kalloc}
use paddle_os.Vm.{walk, walk_levels, mappages, map_loop}
use paddle_os.Vm.Space.{uvmcopy, copy_loop}

abbrev tables : Mem
tables =
    store_word 8
      (store_word 8
        (store_word 8 (store_word 8 (store_word 8 (λ a. 0) 4096 2049) 8192 3073) 12288 4119) 20480
        6145)
      24576 7169

abbrev pub memory : Kmem
memory = record { mem = tables; freelist = 32768 }

parent_entries :
    (load_word 8 tables 4096 ≡ 2049)
    × (load_word 8 tables 8192 ≡ 3073)
    × (load_word 8 tables 12288 ≡ 4119)
    × (load_word 8 tables 32768 ≡ 0)
unfolding load_word store_word store
parent_entries = (refl, refl, refl, refl)

child_entries :
    (load_word 8 tables 20480 ≡ 6145)
    × (load_word 8 tables 24576 ≡ 7169)
    × (load_word 8 tables 28672 ≡ 0)
unfolding load_word store_word store
child_entries = (refl, refl, refl)

-- the memory once the page is taken and copied
abbrev copied_page : Mem
copied_page = memmove 32768 16384 page_size (memset 32768 3 page_size tables)

copied_page-below : (a : ℕ) → a < 32768 → copied_page a ≡ tables a
copied_page-below a l =
    memmove_lem 32768 16384 page_size (memset 32768 3 page_size tables) a
    ∙ if-false (inside a 32768 page_size) _ _ (ground (arith, l))
    ∙ memset_lem 32768 3 page_size tables a
    ∙ if-false (inside a 32768 page_size) _ _ (ground (arith, l))

same_word : (a : ℕ) → a + 8 ≤ 32768 → load_word 8 copied_page a ≡ load_word 8 tables a
same_word a l =
    load_word-same 8 tables copied_page a (λ j k. copied_page-below (a + j) (omega (arith, l, k)))

abbrev pub after_copy : Kmem
after_copy = record { mem = store_word 8 copied_page 28672 8215; freelist = 0 }

old_walk : walk 4096 0 false memory ≡ ok (12288, memory)
unfolding walk walk_levels
old_walk = rw (parent_entries.0, parent_entries.1) refl

taken : kalloc memory ≡ (32768, record { mem = memset 32768 3 page_size tables; freelist = 0 })
unfolding kalloc
taken = rw parent_entries.3 refl

page_mapped :
    mappages 1 20480 0 page_size 32768 23 (record { mem = copied_page; freelist = 0 })
    ≡ ok (true, after_copy)
unfolding mappages map_loop walk walk_levels
page_mapped =
    let c0 = same_word 20480 (omega arith) ∙ child_entries.0 in
    let c1 = same_word 24576 (omega arith) ∙ child_entries.1 in
    let c2 = same_word 28672 (omega arith) ∙ child_entries.2 in rw (c0, c1, c2) refl

copied_one :
    (fuel : ℕ) → copy_loop 0 (suc (suc fuel)) 4096 20480 0 4096 memory ≡ ok (true, after_copy)
unfolding copy_loop
copied_one fuel = rw (old_walk, parent_entries.2, taken, page_mapped) refl

pub uvmcopy-memory : uvmcopy 0 4097 4096 20480 4096 memory ≡ ok (true, after_copy)
unfolding uvmcopy
uvmcopy-memory = copied_one 4095
