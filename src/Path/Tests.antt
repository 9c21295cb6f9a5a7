-- ===== src/Path/Tests.antt =====
-- `skipelem` of kernel/fs.c at the path of its comment.
use paddle_os.Prelude.{ℕ, ◌≡◌, refl, some, List, [], ◌∷◌}
use paddle_os.Path.{skipelem, skip_slashes, element}

-- ///a//bb
abbrev sample : List ℕ
sample = b'/' ∷ b'/' ∷ b'/' ∷ b'a' ∷ b'/' ∷ b'/' ∷ b'b' ∷ b'b' ∷ []

skipelem-sample : skipelem sample ≡ some (b'a' ∷ [], b'b' ∷ b'b' ∷ [])
unfolding skipelem skip_slashes element
skipelem-sample = refl
