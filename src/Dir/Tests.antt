-- ===== src/Dir/Tests.antt =====
-- A root directory of two entries in block 50, `.` for the inode 1 and `a` for the inode 5.
use paddle_os.Prelude.{◌==◌, if◌then◌else◌, ◌>>=◌, ℕ, ◌≡◌, refl, true, false, List, [], ◌∷◌, arith}
use paddle_os.Memory.{Mem}
use paddle_os.Fs.{Fs}
use paddle_os.Inode.{Inode, Itable}
use paddle_os.Data.Content.{block_of}
use paddle_os.Dir.{dirlookup, same_bytes, namex}
use paddle_os.Dir.Entries.{IsDir}
use paddle_os.Dir.Lookup.{Lookup, dirlookup_lem}
use paddle_os.Dir.Resolve.{origin, resolve, namex_lem}
use paddle_os.Path.Names.{names}

abbrev entries : ℕ → ℕ
entries a =
    if a == 0
    then 1
    else if a == 2
    then b'.'
    else if a == 16
    then 5
    else if a == 18
    then b'a'
    else 0

abbrev disk : Fs
disk = record {
  block = λ b i. if b == 50 then entries i else 0;
  logged = λ b. false;
  size = 1000;
  bmapstart = 40;
}

abbrev root : Inode
root = record {
  inum = 1;
  ref = 1;
  valid = true;
  kind = 1;
  major = 0;
  minor = 0;
  nlink = 1;
  size = 32;
  addrs = λ i. if i == 0 then 50 else 0;
}

abbrev table : Itable
table i = if i == 0 then root else record root { ref = 0 }

root-IsDir : IsDir root disk
unfolding block_of
root-IsDir = record {
  mapped = record {
    size = omega arith;
    blocks = λ bn l. ground (arith, l);
    indirect = λ l. absurd (omega (arith, l));
  };
  whole = refl;
}

abbrev zeros : Mem
zeros a = 0

dirlookup_lem_example :
    Lookup (b'a' ∷ []) root table disk (dirlookup (b'a' ∷ []) zeros 0 table disk)
dirlookup_lem_example = dirlookup_lem (b'a' ∷ []) zeros 0 table disk root-IsDir refl

-- `/a//b`
abbrev path : List ℕ
path = b'/' ∷ b'a' ∷ b'/' ∷ b'/' ∷ b'b' ∷ []

namex_lem_example :
    namex 3 zeros true path [] 0 table disk
    ≡ (origin path 0 table >>= λ e. resolve 3 zeros true (names path) [] e.0 e.1 disk)
namex_lem_example = namex_lem 3 zeros true path [] 0 table disk

same_bytes-prefix : same_bytes 14 (b'a' ∷ []) (b'a' ∷ 0 ∷ b'x' ∷ []) ≡ true
unfolding same_bytes
same_bytes-prefix = refl
