-- ===== src/Vm/Data.antt =====
-- put_data, get_data and mat_mult of my_vm.c. A host buffer is a function from positions to bytes,
-- with `none` for NULL; a size is the bit pattern of the C `int`.
pub mod Pages
pub mod Writing
pub mod Put
pub mod Get
pub mod Roundtrip
use cs416_operating_systems.Base.{
  ℕ, zero, suc, ◌+◌, ◌-◌, ◌*◌, ◌%◌, ◌^◌, Bool, true, false, ◌&&◌, ◌||◌, Option, none, some, ltb,
  leb, ◌==◌, if◌then◌else◌,
}
use cs416_operating_systems.Base.Memory.{Bytes, load32, store32}
use cs416_operating_systems.Base.Copy.{memcpy}
use cs416_operating_systems.Vm.{Vm, Status, success, failure, pgsize, u32, va2u, off}
use cs416_operating_systems.Vm.Paging.{deref, translate}

abbrev pub not_positive : ℕ → Bool
not_positive size = size == 0 || leb (2 ^ 31) size

-- The bytes of the current page that one round copies.
abbrev pub chunk : ℕ → ℕ → ℕ
chunk curr_va remaining =
    let space_in_page = pgsize - off curr_va in
    if ltb remaining space_in_page then remaining else space_in_page

-- The loop of put_data, reading `src` from position `k`; each round copies a byte at least, so
-- `fuel` of the bytes that remain is enough.
pub put_loop : ℕ → ℕ → ℕ → Bytes → ℕ → Vm → Status × Vm
put_loop zero remaining curr_va src k s = (if remaining == 0 then success else failure, s)
put_loop (suc fuel) remaining curr_va src k s =
    let (pte, s') = translate s.page_dir curr_va s in
    let n = chunk curr_va remaining in
    elim (remaining == 0) [
      | true ↦ (success, s)
      | false ↦ elim pte [
        | none ↦ (failure, s')
        | some p ↦
            let at = deref s' p + off curr_va in
            let t = record s' { phys_mem = memcpy s'.phys_mem at src k n } in
            put_loop fuel (remaining - n) ((curr_va + n) % u32) src (k + n) t
      ]
    ]

pub put_data : ℕ → Option Bytes → ℕ → Vm → Status × Vm
put_data va none size s = (failure, s)
put_data va (some val) size s =
    if not_positive size then (failure, s) else put_loop size size (va2u va) val 0 s

-- The loop of get_data, writing `dst` from position `k`.
pub get_loop : ℕ → ℕ → ℕ → Bytes → ℕ → Vm → Bytes × Vm
get_loop zero remaining curr_va dst k s = (dst, s)
get_loop (suc fuel) remaining curr_va dst k s =
    let (pte, s') = translate s.page_dir curr_va s in
    let n = chunk curr_va remaining in
    elim (remaining == 0) [
      | true ↦ (dst, s)
      | false ↦ elim pte [
        | none ↦ (dst, s')
        | some p ↦
            let at = deref s' p + off curr_va in
            get_loop fuel (remaining - n) ((curr_va + n) % u32) (memcpy dst k s'.phys_mem at n)
              (k + n) s'
      ]
    ]

-- get_data into a buffer that is not NULL.
pub read_into : ℕ → Bytes → ℕ → Vm → Bytes × Vm
read_into va val size s =
    if not_positive size then (val, s) else get_loop size size (va2u va) val 0 s

-- The result has the new contents of the buffer.
pub get_data : ℕ → Option Bytes → ℕ → Vm → Option Bytes × Vm
get_data va none size s = (none, s)
get_data va (some val) size s = let (dst, t) = read_into va val size s in (some dst, t)

pub add_offset32 : ℕ → ℕ → ℕ
add_offset32 base_va off_bytes = (va2u base_va + off_bytes % u32) % u32

-- The local variables of mat_mult that outlive a round: the buffers `a` and `b`, which keep their
-- bytes when get_data fails, and the simulated memory.
pub record Locals : Type 0 where
  pub a : Bytes
  pub b : Bytes
  pub vm : Vm

-- One round of the innermost loop, adding to `c`.
pub dot_round : ℕ → ℕ → ℕ → ℕ → ℕ → ℕ → ℕ → Locals → ℕ × Locals
dot_round mat1 mat2 size i j k c l =
    let addr1 = add_offset32 mat1 ((i * size + k) * 4) in
    let addr2 = add_offset32 mat2 ((k * size + j) * 4) in
    let (a, s) = read_into addr1 l.a 4 l.vm in
    let (b, t) = read_into addr2 l.b 4 s in
    ((c + load32 a 0 * load32 b 0) % u32, record { a = a; b = b; vm = t })

pub dot_loop : ℕ → ℕ → ℕ → ℕ → ℕ → ℕ → ℕ → ℕ → Locals → ℕ × Locals
dot_loop zero mat1 mat2 size i j k c l = (c, l)
dot_loop (suc rounds) mat1 mat2 size i j k c l =
    let (c', l') = dot_round mat1 mat2 size i j k c l in
    dot_loop rounds mat1 mat2 size i j (k + 1) c' l'

-- One element of the answer.
pub store_element : ℕ → ℕ → ℕ → ℕ → ℕ → ℕ → Locals → Locals
store_element mat1 mat2 size answer i j l =
    let (c, l') = dot_loop size mat1 mat2 size i j 0 0 l in
    let answer_addr = (va2u answer + (i * size + j) * 4) % u32 in
    record l' { vm = (put_data answer_addr (some (store32 (λ _. 0) 0 c)) 4 l'.vm).1 }

pub row_loop : ℕ → ℕ → ℕ → ℕ → ℕ → ℕ → ℕ → Locals → Locals
row_loop zero mat1 mat2 size answer i j l = l
row_loop (suc rounds) mat1 mat2 size answer i j l =
    row_loop rounds mat1 mat2 size answer i (j + 1) (store_element mat1 mat2 size answer i j l)

pub matrix_loop : ℕ → ℕ → ℕ → ℕ → ℕ → ℕ → Locals → Locals
matrix_loop zero mat1 mat2 size answer i l = l
matrix_loop (suc rounds) mat1 mat2 size answer i l =
    matrix_loop rounds mat1 mat2 size answer (i + 1) (row_loop size mat1 mat2 size answer i 0 l)

-- `size` is not negative, and small enough that the `int` products do not overflow.
pub mat_mult : ℕ → ℕ → ℕ → ℕ → Locals → Locals
mat_mult mat1 mat2 size answer l = matrix_loop size mat1 mat2 size answer 0 l
