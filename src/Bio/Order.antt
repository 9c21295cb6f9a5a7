-- ===== src/Bio/Order.antt =====
-- The list of the buffer cache: `binit` builds it and `brelse` moves a buffer to its front.
use paddle_os.Prelude.{
  put, length, ℕ, zero, suc, ◌+◌, ◌≤◌, ◌≡◌, refl, sym, transport, ap, ◌≢◌, false, List, [], ◌∷◌,
  ◌++◌, arith,
}
use paddle_os.Bio.{Cache, nbuf, head, binit_from, binit, move_to_front}
use paddle_os.Bio.Chain.{
  front_next, front_prev, unlinked_next, unlinked_prev, mem, Distinct, Chain, Chain-push_front,
  Chain-unlink, Chain-append, mem-append,
}

-- The buffers `xs`, from the most to the least recently used, are the list behind the head.
pub record IsOrder (c : Cache) (xs : List ℕ) : Type 0 where
  pub linked : Chain c.next c.prev head xs head
  pub distinct : Distinct xs
  pub no_head : mem head xs ≡ false
  pub count : length xs ≤ nbuf

-- the buffers from `b - 1` down to 0
abbrev pub below : ℕ → List ℕ
below zero = []
below (suc b) = b ∷ below b

mem-below : (a b : ℕ) → b ≤ a → mem a (below b) ≡ false
mem-below a zero h = refl
mem-below a (suc b) h = ground (arith, h, mem-below a b (omega (arith, h)))

Distinct-below : (b : ℕ) → Distinct (below b)
Distinct-below zero = tt
Distinct-below (suc b) = (mem-below b b (omega arith), Distinct-below b)

length-below : (b : ℕ) → length (below b) ≡ b
length-below zero = refl
length-below (suc b) = ap suc (length-below b)

all_done : (b : ℕ) → b + 0 ≡ nbuf → b ≡ nbuf
all_done b e = omega (arith, e)

binit_from-Chain :
    (left b : ℕ) (c : Cache)
    → b + left ≡ nbuf
    → Chain c.next c.prev head (below b) head
    → Chain (binit_from left b c).next (binit_from left b c).prev head (below nbuf) head
unfolding binit_from
binit_from-Chain zero b c e h =
    transport (λ i. Chain c.next c.prev head (below (all_done b e i)) head) h
binit_from-Chain (suc left) b c e h = binit_from-Chain left (suc b) _ (omega (arith, e)) (
    Chain-push_front c.next c.prev head b (below b) (λ q. omega (arith, e, q))
      (mem-below b b (omega arith)) (mem-below head b (omega (arith, e))) (Distinct-below b) h)

-- `binit` links every buffer, the last of the array in front.
pub binit-IsOrder : (c : Cache) → IsOrder (binit c) (below nbuf)
unfolding binit
binit-IsOrder c = record {
  linked = binit_from-Chain nbuf 0 _ refl (ground arith, ground arith);
  distinct = Distinct-below nbuf;
  no_head = refl;
  count = omega arith;
}

mem-without :
    (a b : ℕ) (pre post : List ℕ) → mem a (pre ++ b ∷ post) ≡ false → mem a (pre ++ post) ≡ false
mem-without a b pre post h = ground (arith, mem-append a pre (b ∷ post), mem-append a pre post, h)

Distinct-without :
    (b : ℕ) (pre post : List ℕ)
    → Distinct (pre ++ b ∷ post)
    → Distinct (pre ++ post) × (mem b (pre ++ post) ≡ false)
Distinct-without b [] post d = (d.1, d.0)
Distinct-without b (x ∷ pre) post d =
    let (e, m) = Distinct-without b pre post d.1 in
    ((mem-without x b pre post d.0, e), ground (arith, m, d.0, mem-append x pre (b ∷ post)))

length-without : (b : ℕ) (pre post : List ℕ) → length (pre ++ b ∷ post) ≡ suc (length (pre ++ post))
length-without b [] post = refl
length-without b (x ∷ pre) post = ap suc (length-without b pre post)

unlinked_itself : (f : ℕ → ℕ) (n b : ℕ) → put f n (f b) b ≡ f b
unlinked_itself f n b = ground arith

in_list : (b : ℕ) (pre post : List ℕ) → mem head (pre ++ b ∷ post) ≡ false → b ≢ head
in_list b pre post h e = ground (arith, e, h, mem-append head pre (b ∷ post))

-- `brelse` of the last reference puts the buffer in front and keeps the others in their order.
pub move_to_front-IsOrder :
    (b : ℕ) (pre post : List ℕ) (c : Cache)
    → IsOrder c (pre ++ b ∷ post)
    → IsOrder (move_to_front b c) (b ∷ (pre ++ post))
unfolding move_to_front
move_to_front-IsOrder b pre post c h =
    let (p, q) = Chain-append c.next c.prev head pre b post head h.linked in
    let (d, m) = Distinct-without b pre post h.distinct in
    let k = mem-without head b pre post h.no_head in
    let n : b ≢ head = in_list b pre post h.no_head in
    record {
      linked =
          transport
            (λ i.
              Chain
                (front_next (put c.next (sym (unlinked_itself c.prev (c.next b) b) i) (c.next b))
                  (unlinked_prev c.next c.prev b) head b)
                (front_prev (put c.next (sym (unlinked_itself c.prev (c.next b) b) i) (c.next b))
                  (unlinked_prev c.next c.prev b) head b)
                head (b ∷ (pre ++ post)) head)
            (Chain-push_front (unlinked_next c.next c.prev b) (unlinked_prev c.next c.prev b) head b
              (pre ++ post) n m k d (Chain-unlink c.next c.prev b head pre post head d k k p q));
      distinct = (m, d);
      no_head = ground (arith, n, k);
      count = omega (arith, h.count, length-without b pre post);
    }
