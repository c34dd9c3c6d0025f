-- ===== src/Elf.antt =====
-- kern/lib/elf.c: the segments of a program are loaded into the memory of a process.
pub mod Load
pub mod Quotas
use Prim.Native.Nat.{bit_and, bit_or}
use mcertikos.Base.{
  ℕ, zero, suc, ◌+◌, ◌-◌, ◌/◌, ◌%◌, ◌^◌, Bool, not, ◌&&◌, ◌||◌, ◌==◌, ltb, if◌then◌else◌, List, [],
  ◌∷◌, ok, hang, panic, Call, ◌>>=◌, ◌>>◌, pure,
}
use mcertikos.Strings.{Bytes}
use mcertikos.Vmm.Tables.{Vmm, pte_p, pte_w, pte_u}
use mcertikos.Vmm.Mapping.{alloc_page}
use mcertikos.UserMemory.{pt_copyout, pt_memset}

abbrev pub elf_magic : ℕ
elf_magic = 0x464c_457f

-- `proghdr`, less the fields that the loader does not read
pub record ProgramHeader : Type 0 where
  pub p_type : ℕ
  pub p_offset : ℕ
  pub p_va : ℕ
  pub p_filesz : ℕ
  pub p_memsz : ℕ
  pub p_flags : ℕ

-- A program at the address `exe` of the kernel's memory: the fields of its header that the loader reads,
-- the type of the section `e_shstrndx`, the `e_phnum` program headers, and the bytes of the
-- kernel's memory.
pub record Program : Type 0 where
  pub exe : ℕ
  pub e_magic : ℕ
  pub e_shstrndx : ℕ
  pub sh_type : ℕ
  pub headers : List ProgramHeader
  pub e_entry : ℕ
  pub kernel : Bytes

-- `rounddown` and `roundup` to a page
unfoldable pub rounddown : ℕ → ℕ
rounddown a = a - a % 4096

unfoldable pub roundup : ℕ → ℕ
unfolding rounddown
roundup b = rounddown ((b + 4095) % 2 ^ 32)

-- The body of the loop on pages: a complete page, a partial page, or zeros.
unfoldable pub load_page : Bytes → (pid fa va zva filesz perm : ℕ) → Call Vmm (Unit {0})
unfolding rounddown
load_page kernel pid fa va zva filesz perm = alloc_page pid va perm >>= λ _.
    if ltb va (rounddown zva)
    then (pt_copyout fa (λ j. kernel (fa + j)) pid va 4096 >>= λ _. pure tt)
    else if ltb va zva && not (filesz == 0)
    then (pt_memset pid va 0 4096 >>= λ _.
        pt_copyout fa (λ j. kernel (fa + j)) pid va (zva - va) >>= λ _. pure tt)
    else (pt_memset pid va 0 4096 >>= λ _. pure tt)

-- The loop on the pages of a segment. Both ends are multiples of the page size, so `(eva - va) / 4096` rounds
-- are enough.
unfoldable pub load_pages : Bytes → (pid zva filesz perm eva fuel fa va : ℕ) → Call Vmm (Unit {0})
unfolding load_page
load_pages kernel pid zva filesz perm eva zero fa va s = if ltb va eva then hang else ok (tt, s)
load_pages kernel pid zva filesz perm eva (suc fuel) fa va s =
    let rest = load_pages kernel pid zva filesz perm eva fuel in
    if ltb va eva
    then (load_page kernel pid fa va zva filesz perm
          >> rest ((fa + 4096) % 2 ^ 32) ((va + 4096) % 2 ^ 32))
        s
    else ok (tt, s)

-- `PTE_U | PTE_P`, with `PTE_W` for a segment that can be written
abbrev pub segment_perm : ProgramHeader → ℕ
segment_perm ph =
    let perm = bit_or pte_u pte_p in
    if not (bit_and ph.p_flags 2 == 0) then bit_or perm pte_w else perm

-- The ends of a segment.
abbrev pub zero_from : ProgramHeader → ℕ
zero_from ph = (ph.p_va + ph.p_filesz) % 2 ^ 32

abbrev pub segment_end : ProgramHeader → ℕ
segment_end ph = roundup ((ph.p_va + ph.p_memsz) % 2 ^ 32)

unfoldable pub load_segment : Bytes → (exe pid : ℕ) → ProgramHeader → Call Vmm (Unit {0})
unfolding load_pages roundup
load_segment kernel exe pid ph =
    let va = rounddown ph.p_va in
    let eva = segment_end ph in
    if not (ph.p_type == 1)
    then pure tt
    else load_pages kernel pid (zero_from ph) ph.p_filesz (segment_perm ph) eva ((eva - va) / 4096)
        ((exe + rounddown ph.p_offset) % 2 ^ 32) va

-- The loop on the program headers.
unfoldable pub load_segments : Bytes → (exe pid : ℕ) → List ProgramHeader → Call Vmm (Unit {0})
unfolding load_segment
load_segments kernel exe pid [] = pure tt
load_segments kernel exe pid (ph ∷ headers) =
    load_segment kernel exe pid ph >> load_segments kernel exe pid headers

-- The three assertions of `elf_load`.
abbrev pub is_elf : Program → Bool
is_elf p = (p.e_magic == elf_magic) && not (p.e_shstrndx == 0) && (p.sh_type == 3)

unfoldable pub elf_load : Program → ℕ → Call Vmm (Unit {0})
unfolding load_segments
elf_load p pid = if is_elf p then load_segments p.kernel p.exe pid p.headers else λ s. panic

unfoldable pub elf_entry : Program → Call Vmm ℕ
elf_entry p = if p.e_magic == elf_magic then pure p.e_entry else λ s. panic
