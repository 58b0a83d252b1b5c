-- ===== src/Vm/Paging/Layout.antt =====
-- The layout of the page tables of my_vm.c in the simulated physical memory: which frames are in
-- use, and for what, and that no frame has two uses.
use cs416_operating_systems.Base.{ℕ, ◌+◌, ◌*◌, ◌/◌, ◌%◌, ◌^◌, ◌≤◌, ◌<◌, ◌≡◌, ◌≢◌, ◌⊎◌, arith}
use cs416_operating_systems.Base.Memory.{
  Bytes, IsBytes, load32, store32, clear_range, load32-store32_self, load32-store32_apart,
  load32-clear_inside, load32-clear_apart,
}
use cs416_operating_systems.Vm.{Vm, pgsize, px_entries}
use cs416_operating_systems.Vm.Bitmap.{get_bit}

-- Entry `i` of the directory or table at the frame address `a`.
abbrev pub entry : Bytes → ℕ → ℕ → ℕ
entry mem a i = load32 mem (a + 4 * i)

-- What a frame can be used for: the directory, the table of directory entry `d`, or the page of
-- entry `t` of that table.
pub data Use : Type 0 where
  directory : Use
  table : ℕ → Use
  page : ℕ → ℕ → Use

-- The address of the frame that is used so; 0 where there is none, but for the directory.
abbrev pub frame_of : Bytes → ℕ → Use → ℕ
frame_of mem dir directory = dir
frame_of mem dir (table d) = entry mem dir d
frame_of mem dir (page d t) = entry mem (entry mem dir d) t

-- The use exists.
abbrev pub IsLive : Bytes → ℕ → Use → Type 0
IsLive mem dir directory = Unit
IsLive mem dir (table d) = (d < px_entries) × (entry mem dir d ≢ 0)
IsLive mem dir (page d t) =
    (d < px_entries)
    × (t < px_entries)
    × (entry mem dir d ≢ 0)
    × (entry mem (entry mem dir d) t ≢ 0)

-- A frame address whose bit is set.
abbrev pub IsUsed : Bytes → ℕ → Type 0
IsUsed bitmap a = (a % pgsize ≡ 0) × (get_bit bitmap (a / pgsize) ≡ 1)

-- Every frame in use is aligned and marked, no frame has two uses, and the directory is frame 0.
pub record Layout (s : Vm) : Type 0 where
  pub phys_bytes : IsBytes s.phys_bitmap
  pub frames : s.num_phys_pages ≤ 2 ^ 18
  pub root : s.page_dir ≡ 0
  pub used : (u : Use) → IsLive s.phys_mem 0 u → IsUsed s.phys_bitmap (frame_of s.phys_mem 0 u)
  pub apart :
      (u v : Use)
      → IsLive s.phys_mem 0 u
      → IsLive s.phys_mem 0 v
      → frame_of s.phys_mem 0 u ≡ frame_of s.phys_mem 0 v
      → u ≡ v

-- A frame that is not in use in any way.
abbrev pub IsSpare : Bytes → ℕ → Type 0
IsSpare mem a = (u : Use) → IsLive mem 0 u → frame_of mem 0 u ≢ a

module _ (a b i j : ℕ) (ha : a % pgsize ≡ 0) (hb : b % pgsize ≡ 0) (hi : i < px_entries)
    (hj : j < px_entries) where
  -- Entries of different frames do not overlap.
  frames_apart : a ≢ b → (a + 4 * i + 4 ≤ b + 4 * j) ⊎ (b + 4 * j + 4 ≤ a + 4 * i)
  frames_apart h = omega arith

  -- A write to an entry changes that entry alone.
  pub entry-store :
      (mem : Bytes) (v : ℕ)
      → (a ≢ b) ⊎ (i ≢ j)
      → entry (store32 mem (a + 4 * i) v) b j ≡ entry mem b j
  entry-store mem v h = load32-store32_apart mem _ _ v (omega arith)

  -- Clearing a frame changes that frame alone.
  pub entry-clear_apart :
      (mem : Bytes) → a ≢ b → entry (clear_range mem a pgsize) b j ≡ entry mem b j
  entry-clear_apart mem h = load32-clear_apart mem a pgsize _ (omega arith)

pub entry-clear_inside :
    (mem : Bytes) (a i : ℕ) → i < px_entries → entry (clear_range mem a pgsize) a i ≡ 0
entry-clear_inside mem a i h = load32-clear_inside mem a pgsize _ (omega arith) (omega arith)

pub entry-store_self :
    (mem : Bytes) (a i v : ℕ) → v < 2 ^ 32 → entry (store32 mem (a + 4 * i) v) a i ≡ v
entry-store_self mem a i v h = load32-store32_self mem _ v h
