-- ===== src/Console/Lines.antt =====
-- The buffer of kernel/console.c as two lists: the characters that a read may take, and those
-- of the line that is being typed.
use paddle_os.Prelude.{
  length, set, get_or, All, ℕ, suc, ◌+◌, ◌-◌, ◌%◌, ◌^◌, ◌≤◌, ◌<◌, ◌≡◌, refl, ap, ap₂, ◌∙◌, ◌≢◌,
  List, [], ◌∷◌, ◌++◌, arith,
}
use paddle_os.Ring.{slots, slots-append, slots-push, slots-set_behind, slots-same_place, IsRing-128}
use paddle_os.Console.{Cons, input_buf_size}

abbrev pub ready_count : Cons → ℕ
ready_count c = (c.w + (2 ^ 32 - c.r)) % 2 ^ 32

abbrev pub line_count : Cons → ℕ
line_count c = (c.e + (2 ^ 32 - c.w)) % 2 ^ 32

abbrev pub ready : Cons → List ℕ
ready c = slots input_buf_size c.bytes c.r (ready_count c)

abbrev pub line : Cons → List ℕ
line c = slots input_buf_size c.bytes c.w (line_count c)

-- The counters are `uint`, the buffer has 128 places, and the line being typed has no newline.
pub record IsCons (c : Cons) : Type 0 where
  pub words : (c.r < 2 ^ 32) × (c.w < 2 ^ 32) × (c.e < 2 ^ 32)
  pub size : length c.bytes ≡ input_buf_size
  pub fits : ready_count c + line_count c ≤ input_buf_size
  pub no_newline : All (λ x. x ≢ 10) (line c)

pub All-append : (P : ℕ → Type 0) (xs ys : List ℕ) → All P xs → All P ys → All P (xs ++ ys)
All-append P [] ys a b = b
All-append P (x ∷ xs) ys a b = (a.0, All-append P xs ys a.1 b)

pub All-parts : (P : ℕ → Type 0) (xs ys : List ℕ) → All P (xs ++ ys) → All P xs × All P ys
All-parts P [] ys a = (tt, a)
All-parts P (x ∷ xs) ys a = ((a.0, (All-parts P xs ys a.1).0), (All-parts P xs ys a.1).1)

-- The last character of the line.
pub line-last :
    (c : Cons) (k : ℕ)
    → IsCons c
    → line_count c ≡ suc k
    → line c
      ≡ slots input_buf_size c.bytes c.w k
        ++ (get_or c.bytes ((c.e + (2 ^ 32 - 1)) % 2 ^ 32 % input_buf_size) 0 ∷ [])
unfolding slots
line-last c k h q =
    ap (slots input_buf_size c.bytes c.w) {y = k + 1} (omega (arith, q))
    ∙ slots-append input_buf_size c.bytes c.w k 1
    ∙ ap (λ i. slots input_buf_size c.bytes c.w k ++ (get_or c.bytes i 0 ∷ []))
        (omega (arith, q, h.words.0, h.words.1, h.words.2))

-- the buffer after `ch` is put behind the line
abbrev pub with_char : ℕ → Cons → List ℕ
with_char ch c = set c.bytes (c.e % input_buf_size) ch

pub ready-with_char :
    (c : Cons) (ch : ℕ)
    → IsCons c
    → ready_count c + line_count c < input_buf_size
    → slots input_buf_size (with_char ch c) c.r (ready_count c) ≡ ready c
ready-with_char c ch h l =
    ap (λ i. slots input_buf_size (set c.bytes i ch) c.r (ready_count c))
      (omega (arith, h.words.0, h.words.1, h.words.2))
    ∙ slots-set_behind input_buf_size IsRing-128 c.bytes c.r (c.r + (ready_count c + line_count c))
        (ready_count c + line_count c) (ready_count c) ch refl (omega arith) l

pub line-with_char :
    (c : Cons) (ch : ℕ)
    → IsCons c
    → ready_count c + line_count c < input_buf_size
    → slots input_buf_size (with_char ch c) c.w (suc (line_count c)) ≡ line c ++ (ch ∷ [])
line-with_char c ch h l =
    ap (λ i. slots input_buf_size (set c.bytes i ch) c.w (suc (line_count c)))
      (omega (arith, h.words.0, h.words.1, h.words.2))
    ∙ slots-push input_buf_size IsRing-128 c.bytes c.w (c.w + line_count c) (line_count c) ch refl
        h.size (omega (arith, l))

-- both lists in one
pub all-with_char :
    (c : Cons) (ch : ℕ)
    → IsCons c
    → ready_count c + line_count c < input_buf_size
    → slots input_buf_size (with_char ch c) c.r (ready_count c + suc (line_count c))
      ≡ ready c ++ (line c ++ (ch ∷ []))
all-with_char c ch h l =
    slots-append input_buf_size (with_char ch c) c.r (ready_count c) (suc (line_count c))
    ∙ ap₂ (λ x y. x ++ y) (ready-with_char c ch h l)
        (slots-same_place input_buf_size IsRing-128 (with_char ch c) (c.r + ready_count c) c.w
            (suc (line_count c)) (omega (arith, h.words.0, h.words.1))
          ∙ line-with_char c ch h l)

pub line-empty : (c : Cons) → c.e ≡ c.w → c.w < 2 ^ 32 → line c ≡ []
unfolding slots
line-empty c e l = ap (slots input_buf_size c.bytes c.w) {y = 0} (omega (arith, e, l))
