-- ===== src/Memory/Tests.antt =====
-- Runs of kernel/string.c on small memories.
use paddle_os.Prelude.{get_or, ℕ, zero, suc, ◌≡◌, refl, some, List, [], ◌∷◌, arith, pos, negsuc}
use paddle_os.Memory.{Mem, memset, memmove, strncmp, strlen}
use paddle_os.Memory.Move.{memmove_lem, memset_lem}
use paddle_os.Memory.Strings.{NoNul, IsString, strlen_lem}

-- the bytes of a list from address 0 on, zeros behind them
abbrev from_list : List ℕ → Mem
from_list xs a = get_or xs a 0

-- "ab", a terminator, and bytes behind it
abbrev sample : Mem
sample = from_list (97 ∷ 98 ∷ 0 ∷ 99 ∷ 97 ∷ 98 ∷ 0 ∷ 120 ∷ 120 ∷ 120 ∷ 120 ∷ [])

-- Copying three bytes one place up, over themselves.
memmove_overlaps : memmove 1 0 3 sample 3 ≡ 0
unfolding memmove
memmove_overlaps = refl

memset_runs : memset 2 0x141 2 sample 3 ≡ 0x41
unfolding memset
memset_runs = refl

strncmp_runs : (strncmp 0 4 9 sample ≡ pos 0) × (strncmp 0 1 3 sample ≡ negsuc 0)
unfolding strncmp
strncmp_runs = (refl, refl)

memmove_lem_example : memmove 1 0 3 sample 2 ≡ 98
memmove_lem_example = memmove_lem 1 0 3 sample 2

memset_lem_example : memset 2 0x141 2 sample 3 ≡ 0x41
memset_lem_example = memset_lem 2 0x141 2 sample 3

sample-IsString : IsString sample 0 2
sample-IsString = (no_nul, refl)
  where
    no_nul : NoNul sample 0 2
    no_nul zero l = omega arith
    no_nul (suc zero) l = omega arith
    no_nul (suc (suc j)) l = absurd (omega arith)

strlen_lem_example : strlen 5 0 sample ≡ some 2
strlen_lem_example = strlen_lem 5 0 2 sample sample-IsString (omega arith)
