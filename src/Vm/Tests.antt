-- ===== src/Vm/Tests.antt =====
-- kernel/vm.c on a page table of three pages from 4096 on that maps the address 0 to 16384.
use paddle_os.Prelude.{
  ltb, leb, ◌==◌, if◌then◌else◌, Bool-cases, ℕ, zero, suc, ◌+◌, ◌*◌, ◌/◌, ◌%◌, ◌^◌, ◌≤◌, ◌<◌, ◌≡◌,
  refl, sym, ap, ◌∙◌, ◌⊎◌, inl, inr, arith,
}
use paddle_os.Vm.Copy.{IsBuffer, Copyin, copyin_lem}
use paddle_os.Vm.Transfer.{copyin, with_mem}
use paddle_os.Vm.Walk.{translate}
use paddle_os.Vm.{maxva}
use paddle_os.Memory.{Mem}
use paddle_os.Memory.Words.{
  load_word, store_word, load_word-same, load_word-store_word, store_word-outside,
}
use paddle_os.Kalloc.{Kmem}

-- the user's page holds the byte 65
abbrev user_data : Mem
user_data b = if leb 16384 b then 65 else 0

-- The last PTE has the flags V, R, W and U.
abbrev table_bytes : Mem
table_bytes = store_word 8 (store_word 8 (store_word 8 user_data 4096 2049) 8192 3073) 12288 4119

abbrev mapped_page : Kmem
mapped_page = record { mem = table_bytes; freelist = 0 }

word-stored :
    (m : Mem) (a v i : ℕ)
    → v < 256 ^ 8
    → load_word 8 (store_word 8 m a v) (a + 8 * i)
      ≡ (if i == 0 then v else load_word 8 m (a + 8 * i))
word-stored m a v i h = elim (Bool-cases (i == 0)) [
  | inl e ↦
      rw e
        (ap (load_word 8 (store_word 8 m a v)) (ground (arith, e)) ∙ load_word-store_word 8 m a v h)
  | inr e ↦ rw e (
      load_word-same 8 m (store_word 8 m a v) (a + 8 * i)
        (λ j l. store_word-outside 8 m a v (a + 8 * i + j) (ground (arith, e))))
]

word-elsewhere :
    (m : Mem) (a v c : ℕ)
    → (c + 8 ≤ a) ⊎ (a + 8 ≤ c)
    → load_word 8 (store_word 8 m a v) c ≡ load_word 8 m c
word-elsewhere m a v c h =
    load_word-same 8 m (store_word 8 m a v) c
      (λ j l. store_word-outside 8 m a v (c + j) (ground (arith, h, l)))

no_word : (n c : ℕ) → c + n ≤ 16384 → load_word n user_data c ≡ 0
unfolding load_word
no_word zero c h = refl
no_word (suc n) c h = ground (arith, h, no_word n (c + 1) (omega (arith, h)))

root-entry :
    (i : ℕ) → i < 512 → load_word 8 table_bytes (4096 + 8 * i) ≡ (if i == 0 then 2049 else 0)
root-entry i h =
    word-elsewhere (store_word 8 (store_word 8 user_data 4096 2049) 8192 3073) 12288 4119
      (4096 + 8 * i) (inl (omega (arith, h)))
    ∙ word-elsewhere (store_word 8 user_data 4096 2049) 8192 3073 (4096 + 8 * i)
        (inl (omega (arith, h)))
    ∙ word-stored user_data 4096 2049 i (omega arith)
    ∙ ap (λ w. if i == 0 then 2049 else w) (no_word 8 (4096 + 8 * i) (omega (arith, h)))

middle-entry :
    (i : ℕ) → i < 512 → load_word 8 table_bytes (8192 + 8 * i) ≡ (if i == 0 then 3073 else 0)
middle-entry i h =
    word-elsewhere (store_word 8 (store_word 8 user_data 4096 2049) 8192 3073) 12288 4119
      (8192 + 8 * i) (inl (omega (arith, h)))
    ∙ word-stored (store_word 8 user_data 4096 2049) 8192 3073 i (omega arith)
    ∙ ap (λ w. if i == 0 then 3073 else w)
        (word-elsewhere user_data 4096 2049 (8192 + 8 * i) (inr (omega arith))
          ∙ no_word 8 (8192 + 8 * i) (omega (arith, h)))

last-entry :
    (i : ℕ) → i < 512 → load_word 8 table_bytes (12288 + 8 * i) ≡ (if i == 0 then 4119 else 0)
last-entry i h =
    word-stored (store_word 8 (store_word 8 user_data 4096 2049) 8192 3073) 12288 4119 i
      (omega arith)
    ∙ ap (λ w. if i == 0 then 4119 else w)
        (word-elsewhere (store_word 8 user_data 4096 2049) 8192 3073 (12288 + 8 * i)
            (inr (omega arith))
          ∙ word-elsewhere user_data 4096 2049 (12288 + 8 * i) (inr (omega arith))
          ∙ no_word 8 (12288 + 8 * i) (omega (arith, h)))

abbrev SameTables : Mem → Type 0
SameTables m = (b : ℕ) → b < 16384 → m b ≡ table_bytes b

same_entry :
    (m : Mem) → SameTables m → (c : ℕ) → c + 8 ≤ 16384 → load_word 8 m c ≡ load_word 8 table_bytes c
same_entry m s c h = load_word-same 8 table_bytes m c (λ j l. s (c + j) (omega (arith, h, l)))

translate-small :
    (m : Mem)
    → SameTables m
    → (va : ℕ) → translate 4096 va (with_mem mapped_page m) ≡ (if ltb va 4096 then 16384 else 0)
unfolding translate
translate-small m s va = elim (Bool-cases (leb maxva va)) [
  | inl e ↦ ground (arith, e)
  | inr e ↦ ground (
    arith,
    e,
    same_entry m s (4096 + 8 * (va / 2 ^ 30 % 512)) (omega arith),
    root-entry (va / 2 ^ 30 % 512) (omega arith),
    same_entry m s (8192 + 8 * (va / 2 ^ 21 % 512)) (omega arith),
    middle-entry (va / 2 ^ 21 % 512) (omega arith),
    same_entry m s (12288 + 8 * (va / 2 ^ 12 % 512)) (omega arith),
    last-entry (va / 2 ^ 12 % 512) (omega arith),
  )
]

-- The buffer is 6 bytes from 32768 on.
IsBuffer-mapped_page : IsBuffer 4096 32768 6 mapped_page
IsBuffer-mapped_page = record {
  tables = λ m h va.
      translate-small m (λ b l. h b (ground (arith, l))) va
      ∙ sym (translate-small table_bytes (λ b l. refl) va);
  pages = λ va z. inl (ground (arith, translate-small table_bytes (λ b l. refl) va, z));
}

-- the last 6 bytes of the page
copyin_lem_example :
    Copyin 4096 32768 4090 6 mapped_page table_bytes (copyin 6 4096 32768 4090 6 mapped_page)
copyin_lem_example = copyin_lem 4096 32768 4090 6 mapped_page IsBuffer-mapped_page
