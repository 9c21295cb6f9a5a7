-- ===== src/Inode/Tests.antt =====
-- Inodes of kernel/fs.c on a disk that is all zero, the inodes from block 3 on.
use paddle_os.Prelude.{
  ltb, ◌==◌, if◌then◌else◌, ℕ, ◌+◌, ◌-◌, ◌<◌, ◌≡◌, refl, ap, true, false, ◌&&◌, arith, ok,
}
use paddle_os.Fs.Bitmap.{in_use}
use paddle_os.Inode.Map.{IsDisk, Bmap, bmap_lem}
use paddle_os.Fs.{Fs, test_bit, bitmap_block}
use paddle_os.Inode.{Inode, Itable, iupdate, read_inode, ilock, iget, addr_fields, bmap}
use paddle_os.Inode.Update.{SameFields, iupdate_lem}
use paddle_os.Inode.Get.{IsTable, Iget, IsEntry, iget_lem}

abbrev empty_disk : Fs
empty_disk = record { block = λ b i. 0; logged = λ b. false; size = 1000; bmapstart = 40 }

abbrev unread : (inum ref : ℕ) → Inode
unread inum ref = record {
  inum = inum;
  ref = ref;
  valid = false;
  kind = 0;
  major = 0;
  minor = 0;
  nlink = 0;
  size = 0;
  addrs = λ i. 0;
}

-- a file of 3000 bytes in the blocks 50 to 52
abbrev file : Inode
file = record (unread 17 1) {
  valid = true;
  kind = 2;
  nlink = 1;
  size = 3000;
  addrs = λ i. if ltb i 3 then 50 + i else 0;
}

iupdate_lem_example :
    (ilock 3 (iupdate 3 file empty_disk) (unread 17 1)
      ≡ ok (read_inode 3 (iupdate 3 file empty_disk) (unread 17 1)))
    × SameFields (read_inode 3 (iupdate 3 file empty_disk) (unread 17 1)) file
    × SameFields
        (read_inode 3 (iupdate 3 file empty_disk) (unread 18 1))
        (read_inode 3 empty_disk (unread 18 1))
unfolding addr_fields
iupdate_lem_example =
    iupdate_lem 3 file (unread 17 1) (unread 18 1) empty_disk
      (
        omega arith,
        (
          omega arith,
          (
            omega arith,
            (
              omega arith,
              (
                omega arith,
                (
                  omega arith,
                  (
                    omega arith,
                    (
                      omega arith,
                      (
                        omega arith,
                        (
                          omega arith,
                          (
                            omega arith,
                            (
                              omega arith,
                              (
                                omega arith,
                                (
                                  omega arith,
                                  (omega arith, (omega arith, (omega arith, (omega arith, tt)))),
                                ),
                              ),
                            ),
                          ),
                        ),
                      ),
                    ),
                  ),
                ),
              ),
            ),
          ),
        ),
      )
      (omega arith) refl (omega arith) refl (omega arith)

-- The entries 0 and 1 have the inodes 1 and 17.
abbrev two_entries : Itable
two_entries i = unread (if i == 1 then 17 else 1) (2 - i)

two_entries-IsTable : IsTable two_entries
two_entries-IsTable = record { unique = λ i j l l' p q e. ground (arith, p, q, e) }

iget_lem_example : Iget 17 two_entries (iget 17 two_entries) × IsEntry 17 (iget 17 two_entries)
iget_lem_example = iget_lem 17 two_entries two_entries-IsTable

-- a disk of 16 blocks, 0 to 2 in use, the bitmap in block 2
abbrev small_disk : Fs
small_disk = record {
  block = λ b i. if b == 2 && i == 0 then 7 else 0;
  logged = λ b. false;
  size = 16;
  bmapstart = 2;
}

small_bitmap : (n : ℕ) → n < 16 → in_use small_disk (bitmap_block small_disk n) ≡ true
unfolding test_bit
small_bitmap n l = ap (in_use small_disk) {x = bitmap_block small_disk n} {y = 2} (omega (arith, l))

small_disk-IsDisk : IsDisk small_disk
unfolding test_bit
small_disk-IsDisk = record {
  bitmap = record { bitmap_used = λ n l. (ground (arith, l), small_bitmap n l) };
  boot = refl;
  size = (omega arith, omega arith);
}

-- Two blocks are allocated.
bmap_lem_example : Bmap (bmap 20) (bmap 20 file small_disk)
bmap_lem_example = bmap_lem 20 file small_disk (omega arith) small_disk-IsDisk
