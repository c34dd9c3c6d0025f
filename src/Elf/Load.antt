-- ===== src/Elf/Load.antt =====
-- A program whose segments lie in the user's addresses is loaded.
use mcertikos.Base.{
  ℕ, zero, suc, ◌+◌, ◌-◌, ◌*◌, ◌/◌, ◌%◌, ◌^◌, ◌≤◌, ◌<◌, ◌≡◌, ◌≢◌, refl, sym, ◌∙◌, ap, arith, Bool,
  true, false, not, ◌&&◌, ◌==◌, ltb, if◌then◌else◌, List, [], ◌∷◌, ok, hang, panic, Call, bind_ok,
  ◌>>=◌, ◌>>◌, pure,
}
use Prim.Native.Nat.{bit_and}
use mathlib.Core.Path.{subst}
use native.Mathlib.Decide.{ℕ_discrete, dec_lt}
use mcertikos.Strings.{Bytes}
use mcertikos.Vmm.Tables.{Vmm}
use mcertikos.Vmm.Mapping.{alloc_page}
use mcertikos.Vmm.Mapping.Owned.{IsOwned}
use mcertikos.Vmm.Mapping.AllocPage.{alloc_page_total}
use mcertikos.UserMemory.{vm_userlo, vm_userhi, in_bounds, pt_copyout, pt_memset}
use mcertikos.UserMemory.Copy.{Returns, pt_copyout_total, pt_memset_total}
use mcertikos.Elf.{
  ProgramHeader, Program, rounddown, roundup, load_page, load_pages, segment_perm, zero_from,
  segment_end, load_segment, load_segments, is_elf, elf_load,
}

-- Two calls in a row.
then_Returns :
    {A : Type 0} {B : Type 0} (m : Call Vmm A) (k : A → Call Vmm B) (s : Vmm) (a : A) (b : B)
    → Returns m s a
    → ((t : Vmm) → IsOwned t → Returns (k a) t b)
    → Returns (m >>= k) s b
then_Returns m k s a b (t, e, o) rest =
    let (u, e', o') = rest t o in (u, bind_ok m k s t a e ∙ e', o')

module _ (kernel : Bytes) (pid : ℕ) (ne : pid ≢ 0) where
  clear : ℕ → Call Vmm ℕ
  clear va = pt_memset pid va 0 4096

  copy : (fa va n : ℕ) → Call Vmm ℕ
  copy fa va n = pt_copyout fa (λ j. kernel (fa + j)) pid va n

  clear_then :
      (va : ℕ) (k : ℕ → Call Vmm (Unit {0})) (s : Vmm)
      → vm_userlo ≤ va
      → va + 4096 ≤ vm_userhi
      → IsOwned s
      → ((t : Vmm) → IsOwned t → Returns (k 4096) t tt)
      → Returns (clear va >>= k) s tt
  unfolding clear
  clear_then va k s lo hi o rest =
      then_Returns (clear va) k s 4096 tt (pt_memset_total pid s ne o va 0 4096 lo hi) rest

  copy_done :
      (fa va n : ℕ) (s : Vmm)
      → va + n < 2 ^ 32
      → IsOwned s
      → Returns (copy fa va n >>= λ _. pure tt) s tt
  unfolding copy
  copy_done fa va n s word o =
      then_Returns (copy fa va n) (λ _. pure tt) s (if in_bounds va fa n then n else 0) tt
        (pt_copyout_total pid s ne o fa (λ j. kernel (fa + j)) va n word) (λ t o'. (t, refl, o'))

  -- The three ways to fill a page.
  fill_total :
      (fa va zva : ℕ) (whole part : Bool) (s : Vmm)
      → zva < 2 ^ 32
      → vm_userlo ≤ va
      → va + 4096 ≤ vm_userhi
      → IsOwned s
      → Returns
          (if whole
            then (copy fa va 4096 >>= λ _. pure tt)
            else if part
            then (clear va >>= λ _. copy fa va (zva - va) >>= λ _. pure tt)
            else (clear va >>= λ _. pure tt))
          s
          tt
  fill_total fa va zva true part s word lo hi o = copy_done fa va 4096 s (omega arith) o
  fill_total fa va zva false true s word lo hi o =
      clear_then va (λ _. copy fa va (zva - va) >>= λ _. pure tt) s lo hi o
        λ t o'. copy_done fa va (zva - va) t (omega arith) o'
  fill_total fa va zva false false s word lo hi o =
      clear_then va (λ _. pure tt) s lo hi o λ t o'. (t, refl, o')

  load_page_total :
      (fa va zva filesz perm : ℕ) (s : Vmm)
      → zva < 2 ^ 32
      → perm < 4096
      → vm_userlo ≤ va
      → va + 4096 ≤ vm_userhi
      → IsOwned s
      → Returns (load_page kernel pid fa va zva filesz perm) s tt
  unfolding load_page clear copy
  load_page_total fa va zva filesz perm s word p lo hi o =
      let (r, t, e, o', _) = alloc_page_total pid va perm ne (lo, omega arith) p s o in
      let whole = ltb va (rounddown zva) in
      let part = ltb va zva && not (filesz == 0) in
      then_Returns (alloc_page pid va perm)
        (λ _.
          if whole
          then (copy fa va 4096 >>= λ _. pure tt)
          else if part
          then (clear va >>= λ _. copy fa va (zva - va) >>= λ _. pure tt)
          else (clear va >>= λ _. pure tt))
        s r tt (t, e, o') (λ u o''. fill_total fa va zva whole part u word lo hi o'')

  load_pages_total :
      (zva filesz perm eva fuel fa va : ℕ) (s : Vmm)
      → zva < 2 ^ 32
      → perm < 4096
      → vm_userlo ≤ va
      → eva ≤ vm_userhi
      → va % 4096 ≡ 0
      → eva % 4096 ≡ 0
      → eva ≤ va + 4096 * fuel
      → IsOwned s
      → Returns (load_pages kernel pid zva filesz perm eva fuel fa va) s tt
  unfolding load_pages
  load_pages_total zva filesz perm eva zero fa va s word p lo hi al al' enough o =
      let b : ltb va eva ≡ false = ground arith in
      (s, ap (λ b. if b then hang else ok (tt, s)) b, o)
  load_pages_total zva filesz perm eva (suc fuel) fa va s word p lo hi al al' enough o =
      let rest =
        λ (v : ℕ). load_pages kernel pid zva filesz perm eva fuel ((fa + 4096) % 2 ^ 32) v in
      let page = load_page kernel pid fa va zva filesz perm in
      elim (dec_lt va eva) [
        | no done ↦
            let b : ltb va eva ≡ false = ground arith in
            (s, ap (λ b. if b then (page >> rest ((va + 4096) % 2 ^ 32)) s else ok (tt, s)) b, o)
        | yes more ↦
            let b : ltb va eva ≡ true = ground arith in
            let next : va + 4096 ≡ (va + 4096) % 2 ^ 32 = omega arith in
            let (t, e, o') =
              then_Returns page (λ _. rest ((va + 4096) % 2 ^ 32)) s tt tt
                (load_page_total fa va zva filesz perm s word p lo (omega arith) o)
                (λ t o'.
                  subst (λ v. Returns (rest v) t tt) next
                    (load_pages_total zva filesz perm eva fuel ((fa + 4096) % 2 ^ 32) (va + 4096) t
                      word p (omega arith) hi (omega arith) al' (omega arith) o')) in
            (
              t,
              ap (λ b. if b then (page >> rest ((va + 4096) % 2 ^ 32)) s else ok (tt, s)) b ∙ e,
              o',
            )
      ]

-- A segment that is loaded lies in the user's addresses.
pub data IsUserSegment (ph : ProgramHeader) : Type 0 where
  ignored : ph.p_type ≢ 1 → IsUserSegment ph
  inside : vm_userlo ≤ ph.p_va → ph.p_va + ph.p_memsz ≤ vm_userhi → IsUserSegment ph

unfoldable pub IsUserProgram : List ProgramHeader → Type 0
IsUserProgram [] = Unit {0}
IsUserProgram (ph ∷ headers) = IsUserSegment ph × IsUserProgram headers

segment_perm-lt : (ph : ProgramHeader) → segment_perm ph < 4096
segment_perm-lt ph = go (not (bit_and ph.p_flags 2 == 0))
  where
    go : (b : Bool) → (if b then 7 else 5) < 4096
    go true = omega arith
    go false = omega arith

load_segment-ignored :
    (kernel : Bytes) (exe pid : ℕ) (ph : ProgramHeader) (s : Vmm)
    → ph.p_type ≢ 1
    → IsOwned s
    → Returns (load_segment kernel exe pid ph) s tt
unfolding load_segment rounddown roundup
load_segment-ignored kernel exe pid ph s other o =
    let b : (ph.p_type == 1) ≡ false = ground arith in
    let eva = segment_end ph in
    let va = rounddown ph.p_va in
    let load =
      load_pages kernel pid (zero_from ph) ph.p_filesz (segment_perm ph) eva ((eva - va) / 4096)
        ((exe + rounddown ph.p_offset) % 2 ^ 32) va in
    (s, ap (λ b. (if not b then pure tt else load) s) b, o)

load_segment_total :
    (kernel : Bytes) (exe pid : ℕ) (ph : ProgramHeader) (s : Vmm)
    → pid ≢ 0
    → IsUserSegment ph
    → IsOwned s
    → Returns (load_segment kernel exe pid ph) s tt
unfolding load_segment rounddown roundup
load_segment_total kernel exe pid ph s ne (ignored other) o =
    load_segment-ignored kernel exe pid ph s other o
load_segment_total kernel exe pid ph s ne (inside lo hi) o = elim (ℕ_discrete ph.p_type 1) [
  | no other ↦ load_segment-ignored kernel exe pid ph s other o
  | yes is_load ↦
      let b : (ph.p_type == 1) ≡ true = ground arith in
      let eva = segment_end ph in
      let va = rounddown ph.p_va in
      let load =
        load_pages kernel pid (zero_from ph) ph.p_filesz (segment_perm ph) eva ((eva - va) / 4096)
          ((exe + rounddown ph.p_offset) % 2 ^ 32) va in
      let (t, e, o') =
        load_pages_total kernel pid ne (zero_from ph) ph.p_filesz (segment_perm ph) eva
          ((eva - va) / 4096) ((exe + rounddown ph.p_offset) % 2 ^ 32) va s (omega arith)
          (segment_perm-lt ph) (omega arith) (omega arith) (omega arith) (omega arith) (omega arith)
          o in
      (t, ap (λ b. (if not b then pure tt else load) s) b ∙ e, o')
]

load_segments_total :
    (kernel : Bytes) (exe pid : ℕ) (headers : List ProgramHeader) (s : Vmm)
    → pid ≢ 0
    → IsUserProgram headers
    → IsOwned s
    → Returns (load_segments kernel exe pid headers) s tt
unfolding load_segments IsUserProgram
load_segments_total kernel exe pid [] s ne u o = (s, refl, o)
load_segments_total kernel exe pid (ph ∷ headers) s ne (u, us) o =
    then_Returns (load_segment kernel exe pid ph) (λ _. load_segments kernel exe pid headers) s tt
      tt (load_segment_total kernel exe pid ph s ne u o)
      (λ t o'. load_segments_total kernel exe pid headers t ne us o')

-- On a state whose page tables are owned, a program that passes the assertions and whose loaded segments lie
-- in the user's addresses is loaded into the memory of a process other than 0: `elf_load`
-- returns, and the page tables stay owned.
pub elf_load_total :
    (p : Program) (pid : ℕ) (s : Vmm)
    → pid ≢ 0
    → is_elf p ≡ true
    → IsUserProgram p.headers
    → IsOwned s
    → Returns (elf_load p pid) s tt
unfolding elf_load
elf_load_total p pid s ne e u o =
    subst (λ b. Returns (if b then load_segments p.kernel p.exe pid p.headers else λ s. panic) s tt)
      (sym e) (load_segments_total p.kernel p.exe pid p.headers s ne u o)
