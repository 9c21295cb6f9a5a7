-- ===== src/Data/Tests.antt =====
-- A file of 3000 bytes in the blocks 50 to 52, its inode in block 4.
use paddle_os.Prelude.{ltb, if◌then◌else◌, ◌+◌, ◌≡◌, true, false, some, arith, ok}
use paddle_os.Memory.{Mem}
use paddle_os.Fs.{Fs}
use paddle_os.Inode.{Inode}
use paddle_os.Data.{read_bytes, write_bytes, readi, writei}
use paddle_os.Data.Content.{block_of, file_bytes}
use paddle_os.Data.Read.{kernel_copyout, readable, readi_lem}
use paddle_os.Data.Block.{kernel_copyin, IsOwner}
use paddle_os.Data.Write.{Wrote, grown, writei_lem}
use paddle_os.Data.Round.{readi-writei}

abbrev disk : Fs
disk = record { block = λ b i. b + i; logged = λ b. false; size = 1000; bmapstart = 40 }

abbrev file : Inode
file = record {
  inum = 17;
  ref = 1;
  valid = true;
  kind = 2;
  major = 0;
  minor = 0;
  nlink = 1;
  size = 3000;
  addrs = λ i. if ltb i 3 then 50 + i else 0;
}

file-IsOwner : IsOwner 3 file disk
unfolding block_of
file-IsOwner = record {
  mapped = record {
    size = omega arith;
    blocks = λ bn l. ground (arith, l);
    indirect = λ l. absurd (omega (arith, l));
  };
  distinct = λ i j l l' e. ground (arith, l, l', e);
  apart = λ i l. ((λ e. ground (arith, l, e)), (λ big. absurd (omega (arith, big))));
  numbers = λ big. absurd (omega (arith, big));
}

abbrev zeros : Mem
zeros a = 0

-- 100 bytes over the end of the first block
readi_lem_example :
    readi kernel_copyout 4096 1000 100 file disk zeros
    ≡ ok (
      some (readable 1000 100 3000),
      file,
      disk,
      write_bytes (file_bytes (readable 1000 100 3000) 1000 file disk) 4096 zeros,
    )
readi_lem_example = readi_lem 4096 1000 100 file disk zeros file-IsOwner.mapped (omega arith)

longer-IsOwner : IsOwner 3 (grown (2990 + 50) file) disk
unfolding block_of
longer-IsOwner = record {
  mapped = record {
    size = omega arith;
    blocks = λ bn l. ground (arith, l);
    indirect = λ l. absurd (omega (arith, l));
  };
  distinct = λ i j l l' e. ground (arith, l, l', e);
  apart = λ i l. ((λ e. ground (arith, l, e)), (λ big. absurd (omega (arith, big))));
  numbers = λ big. absurd (omega (arith, big));
}

-- 50 bytes over the end of the file
writei_lem_example :
    (fs' : Fs) × (writei (kernel_copyin zeros) 3 0 2990 50 file disk
      ≡ ok (some 50, grown (2990 + 50) file, fs'))
    × Wrote 3 2990 50 0 zeros (grown (2990 + 50) file) disk fs'
writei_lem_example = writei_lem 3 0 2990 50 zeros file disk longer-IsOwner (omega arith)

readi-writei_example :
    (fs' : Fs) × (writei (kernel_copyin zeros) 3 0 1000 100 file disk ≡ ok (some 100, file, fs'))
    × (readi kernel_copyout 4096 1000 100 file fs' zeros
        ≡ ok (some 100, file, fs', write_bytes (read_bytes 100 0 zeros) 4096 zeros))
readi-writei_example =
    readi-writei 3 0 1000 100 4096 zeros zeros file disk file-IsOwner (omega arith)
