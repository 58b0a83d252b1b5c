-- ===== src/Rufs/Tests.antt =====
-- Instances of the theorems on the file system of project4/code, on a small disk: a root directory
-- with the file "b" of five bytes.
use cs416_operating_systems.Base.{
  ℕ, ◌+◌, ◌%◌, ◌^◌, ◌≤◌, ◌<◌, ◌≡◌, ◌≢◌, refl, true, false, some, List, [], ◌∷◌, arith, length, take,
  ◌==◌, if◌then◌else◌,
}
use cs416_operating_systems.Base.Memory.{Bytes, load16, load32}
use cs416_operating_systems.Base.Copy.{slice}
use cs416_operating_systems.Rufs.{Superblock, ok, err, or_fail, minus_one, enonet, eio, is_dir}
use cs416_operating_systems.Rufs.Device.{
  Disk, place, unopened, opened, can_read, can_write, bio_read,
}
use cs416_operating_systems.Rufs.Device.Blocks.{IsDisk}
use cs416_operating_systems.Rufs.Inode
use cs416_operating_systems.Rufs.Inode.{inode_size}
use cs416_operating_systems.Rufs.Dirent
use cs416_operating_systems.Rufs.State.{Fs, done, fail, after, Caller}
use cs416_operating_systems.Rufs.Bitmap.{
  get_bitmap, get_avail_blkno, get_avail_ino, count_loop, count_used_dblocks,
}
use cs416_operating_systems.Rufs.Bitmap.Takes.{Takes, get_avail_blkno-Takes, get_avail_ino-Takes}
use cs416_operating_systems.Rufs.Bitmap.Count.{Counted, count_used_dblocks-get_avail_blkno}
use cs416_operating_systems.Rufs.InodeTable.{inode_block, readi, writei, put_inode}
use cs416_operating_systems.Rufs.InodeTable.Roundtrip.{readi-writei}
use cs416_operating_systems.Base.{==_iff}
use cs416_operating_systems.Base.Bits.{passes, passes_lem}
use cs416_operating_systems.Base.Search.{first_slot}
use cs416_operating_systems.Rufs.Directory.{dir_find, dir_add, find_loop, is_match, is_unused_entry}
use cs416_operating_systems.Rufs.Dirent.{has_name}
use cs416_operating_systems.Rufs.Directory.Find.{DirFinds, dir_find-DirFinds}
use cs416_operating_systems.Rufs.Directory.Fills.{IsDirectory, Unused}
use cs416_operating_systems.Rufs.Directory.Add.{dir_find-dir_add}
use cs416_operating_systems.Rufs.Path.{walk, get_node_by_path, is_root}
use cs416_operating_systems.Rufs.Path.Names.{
  slash, dirname, basename, parent_of, before_name, from_slash, drop_slashes, last_name,
  before_slash,
}
use cs416_operating_systems.Rufs.Path.Tokens.{components, names_from}
use cs416_operating_systems.Rufs.Path.Resolve.{resolve, walk-resolve, get_node_by_path-resolve}
use cs416_operating_systems.Rufs.Path.Lookup.{get_node_by_path-dirname}
use cs416_operating_systems.Rufs.Format.{rufs_init, new_sb, root_inode}
use cs416_operating_systems.Rufs.Format.Mount.{IsNew, rufs_init_twice}
use cs416_operating_systems.Rufs.Operations.{rufs_create, rufs_mkdir}
use cs416_operating_systems.Rufs.Operations.Existing.{IsApart, rufs_create_existing}
use cs416_operating_systems.Rufs.Data.{write_file, read_file}
use cs416_operating_systems.Rufs.Data.Beyond.{write_file_beyond}
use cs416_operating_systems.Rufs.Data.Content.{IsFile}
use cs416_operating_systems.Rufs.Data.Roundtrip.{read_file-write_file}

abbrev sb : Superblock
sb = record {
  magic_num = 23610;
  max_inum = 32;
  max_dnum = 64;
  i_bitmap_blk = 1;
  d_bitmap_blk = 2;
  i_start_blk = 3;
  d_start_blk = 5;
}

-- Inode 0 is a directory with the block 5, inode 1 a file with the block 6.
abbrev inode_table : Bytes
inode_table q =
    if q == 2
    then 1
    else if q == 16
    then 5
    else if q == 137
    then 64
    else if q == 256
    then 1
    else if q == 258
    then 1
    else if q == 260
    then 5
    else if q == 272
    then 6
    else if q == 393
    then 128
    else 0

-- Its entry 0 is in use for inode 1, with the name "b".
abbrev dir_block : Bytes
dir_block q =
    if q == 0 then 1 else if q == 2 then 1 else if q == 4 then 98 else if q == 212 then 1 else 0

abbrev bitmap : Bytes
bitmap q = if q == 0 then 3 else 0

abbrev blocks : ℕ → Bytes
blocks n q =
    if n == 1
    then bitmap q
    else if n == 2
    then bitmap q
    else if n == 3
    then inode_table q
    else if n == 5
    then dir_block q
    else if n == 6
    then if q == 0 then 104 else 0
    else 0

abbrev disk : Disk
disk = record {
  exists_file = true;
  diskfile = opened;
  blocks = blocks;
  bad_open = false;
  bad_read = λ _. false;
  bad_write = λ _. false;
}

abbrev fs : Fs
fs = record { sb = sb; disk = disk }

disk-IsDisk : IsDisk disk
disk-IsDisk n q = ground arith

writable_2 : can_write disk 2 ≡ true
unfolding can_write
writable_2 = refl

writable_1 : can_write disk 1 ≡ true
unfolding can_write
writable_1 = refl

get_avail_blkno-Takes_example : Takes fs 2 64 (λ i. 5 + i) (get_avail_blkno fs)
get_avail_blkno-Takes_example = get_avail_blkno-Takes fs disk-IsDisk writable_2

get_avail_ino-Takes_example : Takes fs 1 32 (λ i. i) (get_avail_ino fs)
get_avail_ino-Takes_example = get_avail_ino-Takes fs disk-IsDisk writable_1

two_used : count_used_dblocks fs ≡ ok 2
unfolding count_used_dblocks count_loop bio_read can_read get_bitmap
two_used = refl

count_used_dblocks-get_avail_blkno_example : Counted fs 2 (get_avail_blkno fs)
count_used_dblocks-get_avail_blkno_example =
    count_used_dblocks-get_avail_blkno fs 2 disk-IsDisk writable_2 two_used

readable_3 : can_read disk 3 ≡ true
unfolding can_read
readable_3 = refl

writable_3 : can_write disk 3 ≡ true
unfolding can_write
writable_3 = refl

-- A directory inode for the number 2.
abbrev new_dir : Bytes
new_dir q = if q == 0 then 2 else if q == 2 then 1 else if q == 137 then 64 else 0

new_dir-valid : Inode.valid new_dir ≢ 0
unfolding load16
new_dir-valid = omega arith

readi-writei_example :
    let fs' = put_inode fs 2 new_dir in
    (writei fs 2 new_dir ≡ done tt fs')
    × (readi fs' 2 ≡ ok (slice new_dir 0 inode_size))
    × ((other : ℕ) → other < 2 ^ 16 → other ≢ 2 → readi fs' other ≡ readi fs other)
readi-writei_example =
    readi-writei fs 2 new_dir (omega arith) (omega arith) readable_3 writable_3 new_dir-valid

-- The inodes of the directory and of the file.
abbrev dir_inode : Bytes
dir_inode = slice inode_table 0 inode_size

abbrev file_inode : Bytes
file_inode = slice inode_table 256 inode_size

dir_stored : readi fs 0 ≡ ok dir_inode
unfolding readi bio_read can_read load16
dir_stored = refl

file_stored : readi fs 1 ≡ ok file_inode
unfolding readi bio_read can_read load16
file_stored = refl

abbrev name_b : List ℕ
name_b = 98 ∷ []

abbrev name_c : List ℕ
name_c = 99 ∷ []

abbrev path_b : List ℕ
path_b = 47 ∷ 98 ∷ []

dir_find-DirFinds_example : DirFinds fs dir_inode name_b 0 16 (dir_find fs 0 name_b)
dir_find-DirFinds_example = dir_find-DirFinds fs 0 dir_inode name_b (omega arith) dir_stored

-- The directory has the one block 5, and the file the one block 6.
one_block : passes (λ i. Inode.direct_ptr dir_inode i == (if i == 0 then 5 else 0)) 16 ≡ true
unfolding passes load32
one_block = refl

dir_ptr : (i : ℕ) → i < 16 → Inode.direct_ptr dir_inode i ≡ (if i == 0 then 5 else 0)
dir_ptr i h =
    (==_iff _ _).0
      (passes_lem (λ i. Inode.direct_ptr dir_inode i == (if i == 0 then 5 else 0)) 16 i h one_block)

dir_ptr_5 : (i : ℕ) → i < 16 → Inode.direct_ptr dir_inode i ≢ 0 → Inode.direct_ptr dir_inode i ≡ 5
dir_ptr_5 i h nz = ground (arith, dir_ptr i h)

dir_number : Inode.ino dir_inode ≡ 0
unfolding load16
dir_number = refl

file_number : Inode.ino file_inode ≡ 1
unfolding load16
file_number = refl

readable_5 : can_read disk 5 ≡ true
unfolding can_read
readable_5 = refl

writable_5 : can_write disk 5 ≡ true
unfolding can_write
writable_5 = refl

dir-IsDirectory : IsDirectory fs dir_inode
dir-IsDirectory = record {
  stored = rw dir_number dir_stored;
  small = omega arith;
  inode_write = rw dir_number writable_3;
  block_read = λ i h nz. rw (dir_ptr_5 i h nz) readable_5;
  block_write = λ i h nz. rw (dir_ptr_5 i h nz) writable_5;
  apart = λ i h nz. rw (dir_ptr_5 i h nz, dir_number) (omega arith);
}

-- Entry 1 of the block is not in use.
entry_1 : Unused fs dir_inode 0 1 dir_block
unfolding load32 load16 bio_read can_read is_unused_entry
entry_1 = record { in_use = omega arith; block = refl; in_block = omega arith; free = refl }

no_c : dir_find fs (Inode.ino dir_inode) name_c ≡ err enonet
unfolding dir_find find_loop readi bio_read can_read load16 load32 first_slot is_match has_name
no_c = refl

dir_find-dir_add_example :
    let fs' = after (dir_add fs 7 dir_inode 2 name_c) in
    (dir_add fs 7 dir_inode 2 name_c ≡ done tt fs')
    × ((dirent : Bytes) × (dir_find fs' (Inode.ino dir_inode) name_c ≡ ok dirent)
        × (Dirent.ino dirent 0 ≡ 2 % 2 ^ 16))
    × ((g : List ℕ)
        → length g ≤ 208
        → g ≢ name_c
        → dir_find fs' (Inode.ino dir_inode) g ≡ dir_find fs (Inode.ino dir_inode) g)
dir_find-dir_add_example =
    dir_find-dir_add fs 7 dir_inode 2 name_c 0 1 dir_block dir-IsDirectory (omega arith) no_c
      (omega arith) entry_1

walk-resolve_example : walk 2 fs dir_inode name_b ≡ resolve fs dir_inode (components name_b)
walk-resolve_example = walk-resolve 2 fs dir_inode name_b (omega arith)

get_node_by_path-resolve_example :
    get_node_by_path fs path_b 0
    ≡ or_fail (readi fs 0) minus_one (λ cur. resolve fs cur (components (take 4095 path_b)))
get_node_by_path-resolve_example = get_node_by_path-resolve fs path_b 0

has_names : components (slash ∷ 97 ∷ 47 ∷ 98 ∷ []) ≢ []
unfolding components names_from
has_names e = cc

short_parent : length (dirname (slash ∷ 97 ∷ 47 ∷ 98 ∷ [])) ≤ 4095
unfolding dirname parent_of before_name from_slash drop_slashes
short_parent = omega arith

get_node_by_path-dirname_example :
    get_node_by_path fs (slash ∷ 97 ∷ 47 ∷ 98 ∷ []) 0
    ≡ or_fail (get_node_by_path fs (dirname (slash ∷ 97 ∷ 47 ∷ 98 ∷ [])) 0) minus_one (λ dir.
      if is_dir (Inode.st_mode dir)
      then or_fail
          (dir_find fs (Inode.ino dir) (basename (slash ∷ 97 ∷ 47 ∷ 98 ∷ [])))
          minus_one
          (λ dent. or_fail (readi fs (Dirent.ino dent 0)) minus_one ok)
      else err minus_one)
get_node_by_path-dirname_example =
    get_node_by_path-dirname fs (97 ∷ 47 ∷ 98 ∷ []) 0 has_names (omega arith) short_parent

abbrev no_disk : Disk
no_disk = record {
  exists_file = false;
  diskfile = unopened;
  blocks = λ _ _. 0;
  bad_open = false;
  bad_read = λ _. false;
  bad_write = λ _. false;
}

no_disk-IsNew : IsNew no_disk
no_disk-IsNew = record {
  missing = refl;
  unopened_yet = refl;
  opens = refl;
  reads = λ n. refl;
  writes = λ n. refl;
}

abbrev env : Caller
env = record { dir_time = 5; time = 6; uid = 7; gid = 8 }

rufs_init_twice_example :
    (f : Fs) × (rufs_init env (record { sb = sb; disk = no_disk }) ≡ some (done tt f))
    × (f.sb ≡ new_sb)
    × (readi f 0 ≡ ok (slice (root_inode env) 0 inode_size))
    × (rufs_init env (record { sb = sb; disk = record f.disk { diskfile = unopened } })
        ≡ some (done tt f))
rufs_init_twice_example = rufs_init_twice env env sb sb no_disk no_disk-IsNew

root_found : get_node_by_path fs (dirname path_b) 0 ≡ ok dir_inode
unfolding get_node_by_path dirname parent_of before_name from_slash drop_slashes is_root readi
    bio_read can_read load16
root_found = refl

b_found : dir_find fs (Inode.ino dir_inode) (basename path_b) ≡ ok (Dirent.entry dir_block 0)
unfolding dir_find find_loop readi bio_read can_read load16 load32 first_slot is_match has_name
    basename last_name before_slash drop_slashes
b_found = refl

root-is_dir : is_dir (Inode.st_mode dir_inode) ≡ true
unfolding load32
root-is_dir = refl

dir-IsApart : IsApart fs dir_inode
dir-IsApart = record {
  from_inode = rw dir_number (omega arith);
  from_blocks = λ i h nz. rw (dir_ptr_5 i h nz) (omega arith);
}

bitmap_reads : bio_read 1 disk ≡ some bitmap
unfolding bio_read can_read
bitmap_reads = refl

bit_2 : get_bitmap bitmap 2 ≡ 0
unfolding get_bitmap
bit_2 = refl

rufs_create_existing_example :
    (i : ℕ) × (f : Fs) × (b : Bytes) × (i < 32)
    × (get_bitmap bitmap i ≡ 0)
    × ((j : ℕ) → j < i → get_bitmap bitmap j ≡ 1)
    × (rufs_create env fs path_b 420 ≡ fail eio f)
    × (rufs_mkdir env fs path_b 420 ≡ fail minus_one f)
    × (bio_read 1 f.disk ≡ some b)
    × ((j : ℕ) → get_bitmap b j ≡ (if i == j then 1 else get_bitmap bitmap j))
rufs_create_existing_example =
    rufs_create_existing env fs path_b 420 dir_inode (Dirent.entry dir_block 0) bitmap 2 disk-IsDisk
      writable_1 root_found root-is_dir (rw dir_number dir_stored) dir-IsApart b_found bitmap_reads
      (omega arith) bit_2

file_size : Inode.size file_inode ≡ 5
unfolding load32
file_size = refl

write_file_beyond_example :
    (f : Fs) × (n : Bytes) × (write_file 9 fs file_inode 3 70000 (λ q. q) ≡ done 0 f)
    × (readi f (Inode.ino file_inode) ≡ ok n)
    × (Inode.size n ≡ 70000)
    × ((m : ℕ)
        → place m ≢ place (inode_block sb (Inode.ino file_inode))
        → bio_read m f.disk ≡ bio_read m disk)
    × ((other : ℕ) → other < 2 ^ 16 → other ≢ Inode.ino file_inode → readi f other ≡ readi fs other)
write_file_beyond_example =
    write_file_beyond 9 fs file_inode 3 70000 (λ q. q) (rw file_number file_stored) (omega arith)
      (rw file_number writable_3) (omega arith) (omega arith) (omega (arith, file_size))

file_ptr : Inode.direct_ptr file_inode 0 ≡ 6
unfolding load32
file_ptr = refl

readable_6 : can_read disk 6 ≡ true
unfolding can_read
readable_6 = refl

writable_6 : can_write disk 6 ≡ true
unfolding can_write
writable_6 = refl

first_ptr : (i : ℕ) → i < 1 → Inode.direct_ptr file_inode i ≡ 6
first_ptr i h = let e : i ≡ 0 = omega (arith, h) in rw e file_ptr

small-IsFile : IsFile fs file_inode 1
small-IsFile = record {
  few = omega arith;
  set = λ i h. rw (first_ptr i h) (omega arith);
  reads = λ i h. rw (first_ptr i h) readable_6;
  writes = λ i h. rw (first_ptr i h) writable_6;
  distinct = λ i j hi hj e. omega arith;
}

read_file-write_file_example :
    (f : Fs) × (n : Bytes) × (write_file 9 fs file_inode 3 1 (λ q. 50 + q) ≡ done 3 f)
    × (readi f (Inode.ino file_inode) ≡ ok n)
    × ((read_file f n 3 1 (λ _. 0)).0 ≡ 3)
    × ((q : ℕ) → q < 3 → (read_file f n 3 1 (λ _. 0)).1 q ≡ 50 + q)
read_file-write_file_example =
    read_file-write_file 9 fs file_inode 1 3 1 (λ q. 50 + q) (λ _. 0) (rw file_number file_stored)
      (omega arith) (rw file_number writable_3) small-IsFile
      (λ i h. rw (first_ptr i h, file_number) (omega arith)) (omega arith) (omega arith)
