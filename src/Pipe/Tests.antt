-- ===== src/Pipe/Tests.antt =====
-- The pipe of kernel/pipe.c at concrete states, one of them across the wrap of the counters.
use paddle_os.Prelude.{
  ltb, if◌then◌else◌, replicate, ℕ, ◌%◌, ◌≡◌, refl, ◌≢◌, ◌⊎◌, Bool, true, false, Option, none, some,
  List, [], arith,
}
use paddle_os.Pipe.{Pipe, asleep, pipewrite, piperead}
use paddle_os.Pipe.Fifo.{IsPipe, contents}
use paddle_os.Pipe.Write.{Written, pipewrite_lem}
use paddle_os.Pipe.Read.{ReadOut, piperead_lem}

abbrev page : List ℕ
page = replicate 512 7

abbrev wrapping : Pipe
wrapping = record {
  bytes = page;
  nread = 4294967290;
  nwrite = 3;
  readopen = true;
  writeopen = true;
}

wrapping-IsPipe : IsPipe wrapping
wrapping-IsPipe = record {
  nread_word = omega arith;
  nwrite_word = omega arith;
  page = refl;
  fits = omega arith;
}

abbrev letters : ℕ → Option ℕ
letters a = if ltb a 4096 then some (a % 256) else none

abbrev alive : ℕ → Bool
alive i = false

abbrev writable_page : ℕ → ℕ → Bool
writable_page a c = ltb a 4096

pipewrite_lem_example :
    Written letters alive 4090 8 0 wrapping (pipewrite letters alive 4090 8 0 wrapping)
pipewrite_lem_example = pipewrite_lem letters alive 4090 8 0 wrapping (omega arith) wrapping-IsPipe

piperead_lem_example :
    ((contents wrapping ≡ [])
      × (wrapping.writeopen ≡ true)
      × (piperead writable_page false 4092 8 wrapping
          ≡ record { stop = asleep 0; pipe = wrapping; woken = []; delivered = [] }))
    ⊎ (((contents wrapping ≢ []) ⊎ (wrapping.writeopen ≡ false))
        × ReadOut writable_page 4092 8 0 wrapping (piperead writable_page false 4092 8 wrapping))
piperead_lem_example = piperead_lem writable_page false 4092 8 wrapping wrapping-IsPipe
