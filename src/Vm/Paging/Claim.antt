-- ===== src/Vm/Paging/Claim.antt =====
-- allocate_phys_page of my_vm.c under the invariant: the frame that it hands out has no other use.
use cs416_operating_systems.Base.{ℕ, ◌*◌, ◌/◌, ◌<◌, ◌≡◌, ◌≢◌, arith}
use cs416_operating_systems.Vm.{Vm, memsize, pgsize, invalid_pa}
use cs416_operating_systems.Vm.Bitmap.{get_bit, set_bit, set_bit-IsBytes}
use cs416_operating_systems.Vm.Frames.{allocate_phys_page}
use cs416_operating_systems.Vm.Paging.Layout.{IsUsed, IsSpare}
use cs416_operating_systems.Vm.Paging.Tables.{
  FreshFrame, fresh, exhausted, allocate-FreshFrame, clear-IsSpare, set_bit-Keeps, set_bit_self,
}
use cs416_operating_systems.Vm.Paging.Translation.{IsValid}

-- A frame `pa` that is marked in `t`, serves nothing, and can be mapped.
pub record IsClaimed (t : Vm) (pa : ℕ) : Type 0 where
  pub used : IsUsed t.phys_bitmap pa
  pub spare : IsSpare t.phys_mem pa
  pub pos : pa ≢ 0
  pub small : pa < memsize

-- The state with frame `f` marked.
abbrev pub marking : Vm → ℕ → Vm
marking s f = record s { phys_bitmap = set_bit s.phys_bitmap f }

pub data Claims (s : Vm) (r : ℕ × Vm) : Type 0 where
  claimed :
      (f : ℕ)
      → f < s.num_phys_pages
      → get_bit s.phys_bitmap f ≡ 0
      → r ≡ (f * pgsize, marking s f)
      → IsValid (marking s f)
      → IsClaimed (marking s f) (f * pgsize)
      → Claims s r
  none_free :
      ((g : ℕ) → g < s.num_phys_pages → get_bit s.phys_bitmap g ≡ 1)
      → r ≡ (invalid_pa, s)
      → Claims s r

pub marking-IsValid : (s : Vm) (f : ℕ) → IsValid s → IsValid (marking s f)
marking-IsValid s f w =
    let keeps = set_bit-Keeps s.phys_bitmap f w.layout.phys_bytes in
    record {
      layout = record {
        phys_bytes = set_bit-IsBytes s.phys_bitmap f w.layout.phys_bytes;
        frames = w.layout.frames;
        root = w.layout.root;
        used = λ u live. let (a, b) = w.layout.used u live in (a, keeps _ b);
        apart = w.layout.apart;
      };
      mem_bytes = w.mem_bytes;
      cache = w.cache;
      coherent = w.coherent;
      virt_bytes = w.virt_bytes;
      virt_pages = w.virt_pages;
      marked = w.marked;
    }

-- Under the invariant allocate_phys_page marks a free frame that is in use neither as the directory
-- nor as a page table nor as a mapped page, and is not frame 0, and keeps the invariant; or every
-- frame is marked, and it returns INVALID_PA and changes nothing.
pub allocate_phys_page-Claims : (s : Vm) → IsValid s → Claims s (allocate_phys_page s)
allocate_phys_page-Claims s w = go (allocate_phys_page s) (allocate-FreshFrame s w.layout)
  where
    go : (r : ℕ × Vm) → FreshFrame s r → Claims s r
    go r (fresh f hi nz free e) =
        let back : f * pgsize / pgsize ≡ f = omega arith in
        claimed f hi free e (marking-IsValid s f w) (record {
          used = (omega arith, rw back (set_bit_self s.phys_bitmap f w.layout.phys_bytes));
          spare = clear-IsSpare s f w.layout free;
          pos = λ z. nz (omega (arith, z));
          small = omega (arith, w.layout.frames);
        })
    go r (exhausted all e) = none_free all e
