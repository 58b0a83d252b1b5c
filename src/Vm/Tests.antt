-- ===== src/Vm/Tests.antt =====
-- The theorems on the virtual memory system of my_vm.c at concrete inputs.
use cs416_operating_systems.Base.{
  ltb, if◌then◌else◌, ◌+◌, ◌/◌, ◌%◌, ℕ, ◌^◌, ◌<◌, ◌≡◌, ◌≢◌, refl, ◌∙◌, false, none, some, arith,
}
use cs416_operating_systems.Base.Memory.{Bytes, IsBytes}
use cs416_operating_systems.Vm.{Vm, Tlb, Status, success, va2u, pgsize}
use cs416_operating_systems.Vm.Data.{put_data, get_data}
use cs416_operating_systems.Vm.Data.Writing.{IsMapped}
use cs416_operating_systems.Vm.Data.Put.{Puts, put_data-Puts}
use cs416_operating_systems.Vm.Data.Get.{Gets, get_data-Gets}
use cs416_operating_systems.Vm.Data.Roundtrip.{get_data-put_data}
use cs416_operating_systems.Vm.Bitmap.{get_bit, get_bit_zero, get_bit-set_bit}
use cs416_operating_systems.Vm.Frames.{allocate_phys_page, set_physical_mem}
use cs416_operating_systems.Vm.Frames.Fresh.{Allocates, allocate_phys_page-Allocates}
use cs416_operating_systems.Vm.Lookaside.{tlb_add, tlb_check, tlb_invalidate}
use cs416_operating_systems.Vm.Lookaside.Lookup.{IsTlb, vpn_of, tlb_add-IsTlb}
use cs416_operating_systems.Vm.Lookaside.Updates.{tlb_check-tlb_add, tlb_check-tlb_invalidate}
use cs416_operating_systems.Vm.Paging.{translate, map_page}
use cs416_operating_systems.Vm.Paging.Claim.{
  Claims, marking, marking-IsValid, allocate_phys_page-Claims,
}
use cs416_operating_systems.Vm.Paging.Lookup.{Translates, translate-Translates}
use cs416_operating_systems.Vm.Paging.Mapping.{Maps, Mapped, entered_page, no_table, map_page-Maps}
use cs416_operating_systems.Vm.Paging.Setup.{
  initial, initial-IsValid, no_translation, set_physical_mem-IsValid,
}
use cs416_operating_systems.Vm.Paging.Tables.{clear-IsSpare, set_bit_self}
use cs416_operating_systems.Vm.Paging.Translation.{translation, IsValid}
use cs416_operating_systems.Vm.Alloc.{get_next_avail, n_free, n_malloc}
use cs416_operating_systems.Vm.Alloc.Free.{FreedRange, n_free-FreedRange}
use cs416_operating_systems.Vm.Alloc.Malloc.{Mallocs, n_malloc-Mallocs}
use cs416_operating_systems.Vm.Alloc.Runs.{Reserves, get_next_avail-Reserves}

abbrev zeros : Bytes
zeros = λ _. 0

zeros-IsBytes : IsBytes zeros
zeros-IsBytes a = omega arith

abbrev empty_tlb : Tlb
empty_tlb = record {
  count = 0;
  next_evict = 0;
  entries = λ _. record { vpn = 0; pfn = 0; pte = 0; valid = false };
}

-- The globals before anything is allocated.
abbrev unset : Vm
unset = record {
  has_mem = false;
  phys_mem = zeros;
  page_dir = 0;
  num_phys_pages = 0;
  num_virt_pages = 0;
  phys_bitmap = zeros;
  virt_bitmap = zeros;
  tlb = empty_tlb;
  tlb_lookups = 0;
  tlb_misses = 0;
}

abbrev boot : Vm
boot = initial zeros unset

boot-IsValid : IsValid boot
boot-IsValid = initial-IsValid zeros unset zeros-IsBytes

empty_tlb-IsTlb : IsTlb empty_tlb
empty_tlb-IsTlb = record {
  count_le = omega arith;
  evict_lt = omega arith;
  filled = λ i h v. cc;
  distinct = λ i j h k v w e. cc;
}

frame_one_free : get_bit boot.phys_bitmap 1 ≡ 0
frame_one_free = get_bit-set_bit zeros 0 1 zeros-IsBytes ∙ get_bit_zero 1

-- Frame 1 is handed out and not yet mapped.
abbrev one_frame : Vm
one_frame = marking boot 1

one_frame-IsValid : IsValid one_frame
one_frame-IsValid = marking-IsValid boot 1 boot-IsValid

allocate_phys_page-Allocates_example :
    Allocates boot.num_phys_pages 0 boot (allocate_phys_page boot)
allocate_phys_page-Allocates_example =
    allocate_phys_page-Allocates boot boot-IsValid.layout.phys_bytes

allocate_phys_page-Claims_example : Claims boot (allocate_phys_page boot)
allocate_phys_page-Claims_example = allocate_phys_page-Claims boot boot-IsValid

set_physical_mem-IsValid_example :
    (t : Vm) × (set_physical_mem (some zeros) unset ≡ some t)
    × IsValid t
    × ((v : ℕ) → v < 2 ^ 20 → translation t.phys_mem v ≡ 0)
    × ((v : ℕ) → get_bit t.virt_bitmap v ≡ 0)
set_physical_mem-IsValid_example = set_physical_mem-IsValid zeros unset zeros-IsBytes refl

tlb_add-IsTlb_example : IsTlb (tlb_add 8192 12288 empty_tlb).1
tlb_add-IsTlb_example = tlb_add-IsTlb 8192 12288 empty_tlb empty_tlb-IsTlb

tlb_check-tlb_add_example :
    let (status, t') = tlb_add 8192 12288 empty_tlb in
    (status ≡ success)
    × ((i : ℕ) × (tlb_check 8192 t' ≡ some i) × ((t'.entries i).pte ≡ va2u 12288))
tlb_check-tlb_add_example =
    tlb_check-tlb_add 8192 12288 empty_tlb empty_tlb-IsTlb (omega arith) (omega arith) (omega arith)

abbrev one_entry : Tlb
one_entry = (tlb_add 8192 12288 empty_tlb).1

tlb_check-tlb_invalidate_example :
    (tlb_check 8192 (tlb_invalidate 8192 one_entry) ≡ none)
    × ((vb : ℕ)
        → vpn_of vb ≢ vpn_of 8192
        → tlb_check vb (tlb_invalidate 8192 one_entry) ≡ tlb_check vb one_entry)
tlb_check-tlb_invalidate_example =
    tlb_check-tlb_invalidate 8192 one_entry tlb_add-IsTlb_lem (omega arith)
  where
    tlb_add-IsTlb_lem : IsTlb one_entry
    tlb_add-IsTlb_lem = tlb_add-IsTlb 8192 12288 empty_tlb empty_tlb-IsTlb

map_page-Maps_example : Maps one_frame 4096 4096 (map_page 0 4096 4096 one_frame)
map_page-Maps_example =
    map_page-Maps one_frame 4096 4096 one_frame-IsValid
      (refl, set_bit_self boot.phys_bitmap 1 boot-IsValid.layout.phys_bytes)
      (clear-IsSpare boot 1 boot-IsValid.layout frame_one_free) (omega arith) (omega arith)
      (no_translation zeros unset zeros-IsBytes 1 (omega arith))

translate-Translates_example : Translates boot 4660 (translate 0 4660 boot)
translate-Translates_example = translate-Translates boot 4660 boot-IsValid

get_next_avail-Reserves_example : Reserves boot 3 (get_next_avail 3 boot)
get_next_avail-Reserves_example =
    get_next_avail-Reserves boot 3 (omega arith) (omega arith) (omega arith) zeros-IsBytes

n_free-FreedRange_example : FreedRange boot 2 3 (n_free 8192 9000 boot)
n_free-FreedRange_example = n_free-FreedRange boot 8192 9000 boot-IsValid refl (omega arith)

n_malloc-Mallocs_example : (r : ℕ × Vm) × (n_malloc none 9000 boot ≡ some r) × Mallocs boot 3 r
n_malloc-Mallocs_example =
    n_malloc-Mallocs none 9000 boot boot-IsValid refl (omega arith) (omega arith) (omega arith)

-- The state with page 1 mapped to frame 1.
abbrev one_page : Vm
one_page = (map_page 0 4096 4096 one_frame).1

frame_two_free : get_bit one_frame.phys_bitmap 2 ≡ 0
frame_two_free =
    get_bit-set_bit boot.phys_bitmap 1 2 boot-IsValid.layout.phys_bytes
    ∙ get_bit-set_bit zeros 0 2 zeros-IsBytes
    ∙ get_bit_zero 2

one_page-Mapped : Mapped one_frame 4096 4096 one_page
one_page-Mapped = go _ (
    map_page-Maps one_frame 4096 4096 one_frame-IsValid
      (refl, set_bit_self boot.phys_bitmap 1 boot-IsValid.layout.phys_bytes)
      (clear-IsSpare boot 1 boot-IsValid.layout frame_one_free) (omega arith) (omega arith)
      (no_translation zeros unset zeros-IsBytes 1 (omega arith)))
  where
    go : (r : Status × Vm) → Maps one_frame 4096 4096 r → Mapped one_frame 4096 4096 r.1
    go r (entered_page t e f) = rw e f
    go r (no_table all e) = absurd (omega (arith, frame_two_free, all 2 (omega arith)))

one_page-IsMapped : (j : ℕ) → j < 100 → IsMapped one_page (va2u 5000 + j)
one_page-IsMapped j h =
    let page : (va2u 5000 + j) / pgsize ≡ 1 = omega arith in
    rw (page, one_page-Mapped.translations 1 (omega arith)) (λ e. omega (arith, e))

put_data-Puts_example :
    Puts one_page
      (va2u 5000)
      100
      (λ q. q % 256)
      0
      (put_data 5000 (some (λ q. q % 256)) 100 one_page)
put_data-Puts_example =
    put_data-Puts one_page 5000 100 (λ q. q % 256) one_page-Mapped.valid (λ q. omega arith)
      (omega arith) (omega arith) (omega arith)

get_data-Gets_example :
    (r : Bytes × Vm) × (get_data 5000 (some zeros) 100 one_page ≡ (some r.0, r.1))
    × Gets one_page (va2u 5000) 100 zeros 0 r
get_data-Gets_example =
    get_data-Gets one_page 5000 100 zeros one_page-Mapped.valid (omega arith) (omega arith)
      (omega arith)

get_data-put_data_example :
    let (status, t) = put_data 5000 (some (λ q. q % 256)) 100 one_page in
    (status ≡ success)
    × ((b : Bytes) × (u : Vm) × (get_data 5000 (some zeros) 100 t ≡ (some b, u))
        × ((q : ℕ) → b q ≡ (if ltb q 100 then q % 256 else 0)))
get_data-put_data_example =
    get_data-put_data one_page 5000 100 (λ q. q % 256) zeros one_page-Mapped.valid
      (λ q. omega arith) (omega arith) (omega arith) (omega arith) one_page-IsMapped
