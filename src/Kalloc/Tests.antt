-- ===== src/Kalloc/Tests.antt =====
-- Runs of kernel/kalloc.c: a kernel that ends 8200 bytes below the end of memory leaves two pages.
use paddle_os.Prelude.{ℕ, ◌-◌, ◌≡◌, ◌↔◌, true, false, List, [], ◌∷◌, arith, ok}
use paddle_os.Memory.{Mem}
use paddle_os.Memory.Move.{inside}
use paddle_os.Kalloc.{page_size, phymemstop, Kmem, kfree, kinit, kalloc}
use paddle_os.Kalloc.FreeList.{IsPage, nil, Free, kfree-Free, kalloc-empty}
use paddle_os.Kalloc.Init.{has, kinit_lem}

abbrev kernel_end : ℕ
kernel_end = phymemstop - 8200

abbrev page : ℕ
page = phymemstop - 4096

abbrev blank : Mem
blank a = 0

abbrev empty : Kmem
empty = record { mem = blank; freelist = 0 }

page-IsPage : IsPage kernel_end page
page-IsPage = omega arith

abbrev one_page :
    (k : Kmem) × (kfree kernel_end page empty ≡ ok k)
    × Free kernel_end k (page ∷ [])
    × ((b : ℕ) → inside b page page_size ≡ false → k.mem b ≡ blank b)
one_page = kfree-Free page empty (omega arith) page-IsPage tt nil

kalloc-empty_example : kalloc empty ≡ (0, empty)
kalloc-empty_example = kalloc-empty {kernel_end = kernel_end} empty nil

kinit_lem_example :
    (k : Kmem) × (ps : List ℕ) × (kinit kernel_end blank ≡ ok k)
    × Free kernel_end k ps
    × ((a : ℕ) → (has a ps ≡ true) ↔ IsPage kernel_end a)
kinit_lem_example = kinit_lem kernel_end blank (omega arith) (omega arith)
