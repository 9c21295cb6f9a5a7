-- ===== src/Pipe/Fifo.antt =====
-- The pipe of kernel/pipe.c as a queue of at most 512 bytes, across the wrap of its counters.
use paddle_os.Prelude.{
  length, set, get_or, length-set, ℕ, suc, ◌+◌, ◌-◌, ◌%◌, ◌^◌, ◌≤◌, ◌<◌, ◌≡◌, refl, ap, ◌∙◌, ◌↔◌,
  true, false, List, [], ◌∷◌, ◌++◌, arith,
}
use paddle_os.Ring.{slots, IsRing-512, slots-same_place, slots-push}
use paddle_os.Pipe.{pipealloc_init, Pipe, full, empty, put_byte, next_byte, drop_byte, pipe_size}

-- how many bytes wait in the pipe, by the counters modulo 2^32
abbrev pub count : Pipe → ℕ
count p = (p.nwrite + (2 ^ 32 - p.nread)) % 2 ^ 32

abbrev pub contents : Pipe → List ℕ
contents p = slots pipe_size p.bytes p.nread (count p)

pub record IsPipe (p : Pipe) : Type 0 where
  pub nread_word : p.nread < 2 ^ 32
  pub nwrite_word : p.nwrite < 2 ^ 32
  pub page : length p.bytes ≡ pipe_size
  pub fits : count p ≤ pipe_size

pub full_iff : (p : Pipe) → IsPipe p → (full p ≡ true) ↔ (count p ≡ pipe_size)
unfolding full
full_iff p h = ground (arith, h.nread_word, h.nwrite_word, h.fits)

pub empty_iff : (p : Pipe) → IsPipe p → (empty p ≡ true) ↔ (count p ≡ 0)
unfolding empty
empty_iff p h = ground (arith, h.nread_word, h.nwrite_word, h.fits)

count-put_byte :
    (p : Pipe) (ch : ℕ) → IsPipe p → full p ≡ false → count (put_byte ch p) ≡ suc (count p)
unfolding put_byte full
count-put_byte p ch h f = ground (arith, h.nread_word, h.nwrite_word, h.fits, f)

pub IsPipe-put_byte : (p : Pipe) (ch : ℕ) → IsPipe p → full p ≡ false → IsPipe (put_byte ch p)
unfolding put_byte full
IsPipe-put_byte p ch h f = record {
  nread_word = h.nread_word;
  nwrite_word = omega arith;
  page = length-set p.bytes (p.nwrite % pipe_size) ch ∙ h.page;
  fits = ground (arith, h.nread_word, h.nwrite_word, h.fits, f);
}

write_place : (p : Pipe) → IsPipe p → p.nwrite % pipe_size ≡ (p.nread + count p) % pipe_size
write_place p h = omega (arith, h.nread_word, h.nwrite_word)

not_full : (p : Pipe) → IsPipe p → full p ≡ false → count p < pipe_size
unfolding full
not_full p h f = ground (arith, h.nread_word, h.nwrite_word, h.fits, f)

pub contents-put_byte :
    (p : Pipe) (ch : ℕ)
    → IsPipe p
    → full p ≡ false
    → contents (put_byte ch p) ≡ contents p ++ (ch ∷ [])
unfolding put_byte
contents-put_byte p ch h f =
    ap (slots pipe_size (set p.bytes (p.nwrite % pipe_size) ch) p.nread) (count-put_byte p ch h f)
    ∙ ap (λ j. slots pipe_size (set p.bytes j ch) p.nread (suc (count p))) (write_place p h)
    ∙ slots-push pipe_size IsRing-512 p.bytes p.nread (p.nread + count p) (count p) ch refl h.page
        (not_full p h f)

count-drop_byte : (p : Pipe) → IsPipe p → empty p ≡ false → count p ≡ suc (count (drop_byte p))
unfolding drop_byte empty
count-drop_byte p h f = ground (arith, h.nread_word, h.nwrite_word, h.fits, f)

pub IsPipe-drop_byte : (p : Pipe) → IsPipe p → empty p ≡ false → IsPipe (drop_byte p)
unfolding drop_byte empty
IsPipe-drop_byte p h f = record {
  nread_word = omega arith;
  nwrite_word = h.nwrite_word;
  page = h.page;
  fits = ground (arith, h.nread_word, h.nwrite_word, h.fits, f);
}

pub contents-drop_byte :
    (p : Pipe) → IsPipe p → empty p ≡ false → contents p ≡ next_byte p ∷ contents (drop_byte p)
unfolding drop_byte next_byte slots
contents-drop_byte p h f =
    ap (slots pipe_size p.bytes p.nread) (count-drop_byte p h f)
    ∙ ap (λ l. get_or p.bytes (p.nread % pipe_size) 0 ∷ l)
        (slots-same_place pipe_size IsRing-512 p.bytes (suc p.nread) ((p.nread + 1) % 2 ^ 32)
          (count (drop_byte p)) (omega arith))

-- A new pipe is a valid one.
pub IsPipe-pipealloc_init : (page : List ℕ) → length page ≡ pipe_size → IsPipe (pipealloc_init page)
unfolding pipealloc_init
IsPipe-pipealloc_init page l = record {
  nread_word = omega arith;
  nwrite_word = omega arith;
  page = l;
  fits = omega arith;
}
