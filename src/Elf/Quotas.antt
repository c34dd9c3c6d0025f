-- ===== src/Elf/Quotas.antt =====
-- The loader changes no quota.
use Prim.Native.Nat.{bit_and}
use mcertikos.Base.{
  ℕ, zero, suc, ◌+◌, ◌-◌, ◌/◌, ◌%◌, ◌^◌, not, ◌&&◌, ◌==◌, ltb, if◌then◌else◌, List, [], ◌∷◌, ok,
  hang, panic, Call, ◌>>=◌, ◌>>◌, pure, gets, Keeps, bind-Keeps, if-Keeps, if-Good,
}
use mcertikos.Strings.{Bytes}
use mcertikos.Vmm.Tables.{Vmm, pte_p, ptu}
use mcertikos.Vmm.Address.{get_ptbl_entry_by_va}
use mcertikos.Vmm.Mapping.{alloc_page}
use mcertikos.Vmm.Mapping.Quotas.{AtQuotas, alloc_page-Keeps}
use mcertikos.UserMemory.{
  Move, move_out, move_set, move_page, present_entry, physical, share, each_page, in_bounds,
  pt_copyout, pt_memset,
}
use mcertikos.Elf.{
  ProgramHeader, Program, rounddown, load_page, load_pages, segment_perm, zero_from, segment_end,
  load_segment, load_segments, is_elf, elf_load,
}

module _ (q : ℕ → ℕ) where
  abbrev P : Vmm → Type 0
  P = AtQuotas q

  present_entry-Keeps : (pid va : ℕ) → Keeps P (present_entry pid va)
  unfolding present_entry
  present_entry-Keeps pid va =
      let read : Call Vmm ℕ = gets (λ s. get_ptbl_entry_by_va s pid va) in
      let again : Call Vmm ℕ = alloc_page pid va ptu >>= λ _. read in
      bind-Keeps P read (λ pa. if bit_and pa pte_p == 0 then again else pure pa) (λ s h. h)
        (λ pa.
          if-Keeps P (bit_and pa pte_p == 0) again (pure pa)
            (bind-Keeps P (alloc_page pid va ptu) (λ _. read) (alloc_page-Keeps q pid va ptu)
              (λ _ s h. h))
            (λ s h. h))

  module _ {A : Type 0} (move : Move A) (pid : ℕ) where
    each_page-Keeps :
        (fuel va len done : ℕ) (a : A) → Keeps P (each_page move pid fuel va len done a)
    unfolding each_page move_page
    each_page-Keeps zero va len done a s h = if-Good P (len == 0) (ok ((done, a), s)) hang h tt
    each_page-Keeps (suc fuel) va len done a s h =
        let rest = λ (pa : ℕ) (b : A).
          each_page move pid fuel ((va + share pa va len) % 2 ^ 32) (len - share pa va len)
            (done + share pa va len) b in
        let body =
          λ (pa : ℕ). move_page move (physical pa va) done (share pa va len) a >>= rest pa in
        if-Good P (len == 0) (ok ((done, a), s)) ((present_entry pid va >>= body) s) h (
          bind-Keeps P (present_entry pid va) body (present_entry-Keeps pid va)
            (λ pa.
              bind-Keeps P (move_page move (physical pa va) done (share pa va len) a) (rest pa)
                (λ s h. h)
                (λ b.
                  each_page-Keeps fuel ((va + share pa va len) % 2 ^ 32) (len - share pa va len)
                    (done + share pa va len) b))
            s h)

  count-Keeps : (m : Call Vmm (ℕ × Unit {0})) → Keeps P m → Keeps P (m >>= λ r. pure r.0)
  count-Keeps m h = bind-Keeps P m (λ r. pure r.0) h (λ _ s h. h)

  pt_copyout-Keeps :
      (kva : ℕ) (src : Bytes) (pid va len : ℕ) → Keeps P (pt_copyout kva src pid va len)
  unfolding pt_copyout
  pt_copyout-Keeps kva src pid va len s h =
      let loop = each_page (move_out src) pid len va len 0 tt in
      if-Good P (in_bounds va kva len) ((loop >>= λ r. pure r.0) s) (ok (0, s))
        (count-Keeps loop (each_page-Keeps (move_out src) pid len va len 0 tt) s h) h

  pt_memset-Keeps : (pid va c len : ℕ) → Keeps P (pt_memset pid va c len)
  unfolding pt_memset
  pt_memset-Keeps pid va c len =
      count-Keeps (each_page (move_set c) pid len va len 0 tt)
        (each_page-Keeps (move_set c) pid len va len 0 tt)

  void-Keeps : (m : Call Vmm ℕ) → Keeps P m → Keeps P (m >>= λ _. pure (tt {0}))
  void-Keeps m h = bind-Keeps P m (λ _. pure (tt {0})) h (λ _ s h. h)

  load_page-Keeps :
      (kernel : Bytes) (pid fa va zva filesz perm : ℕ)
      → Keeps P (load_page kernel pid fa va zva filesz perm)
  unfolding load_page
  load_page-Keeps kernel pid fa va zva filesz perm =
      let clear : Call Vmm ℕ = pt_memset pid va 0 4096 in
      let copy : ℕ → Call Vmm ℕ = pt_copyout fa (λ j. kernel (fa + j)) pid va in
      let whole : Call Vmm (Unit {0}) = copy 4096 >>= λ _. pure tt in
      let part : Call Vmm (Unit {0}) = clear >>= λ _. copy (zva - va) >>= λ _. pure tt in
      let zeros : Call Vmm (Unit {0}) = clear >>= λ _. pure tt in
      let a = ltb va (rounddown zva) in
      let b = ltb va zva && not (filesz == 0) in
      let copy-Keeps =
        λ (n : ℕ). void-Keeps (copy n) (pt_copyout-Keeps fa (λ j. kernel (fa + j)) pid va n) in
      bind-Keeps P (alloc_page pid va perm) (λ _. if a then whole else if b then part else zeros)
        (alloc_page-Keeps q pid va perm)
        (λ _. if-Keeps P a whole (if b then part else zeros) (copy-Keeps 4096) (
          if-Keeps P b part zeros
            (bind-Keeps P clear (λ _. copy (zva - va) >>= λ _. pure tt)
              (pt_memset-Keeps pid va 0 4096) (λ _. copy-Keeps (zva - va)))
            (void-Keeps clear (pt_memset-Keeps pid va 0 4096))))

  load_pages-Keeps :
      (kernel : Bytes) (pid zva filesz perm eva fuel fa va : ℕ)
      → Keeps P (load_pages kernel pid zva filesz perm eva fuel fa va)
  unfolding load_pages
  load_pages-Keeps kernel pid zva filesz perm eva zero fa va s h =
      if-Good P (ltb va eva) hang (ok (tt, s)) tt h
  load_pages-Keeps kernel pid zva filesz perm eva (suc fuel) fa va s h =
      let page = load_page kernel pid fa va zva filesz perm in
      let rest =
        load_pages kernel pid zva filesz perm eva fuel ((fa + 4096) % 2 ^ 32)
          ((va + 4096) % 2 ^ 32) in
      if-Good P (ltb va eva) ((page >> rest) s) (ok (tt, s))
        (bind-Keeps P page (λ _. rest) (load_page-Keeps kernel pid fa va zva filesz perm)
          (λ _.
            load_pages-Keeps kernel pid zva filesz perm eva fuel ((fa + 4096) % 2 ^ 32)
              ((va + 4096) % 2 ^ 32))
          s h)
        h

  load_segments-Keeps :
      (kernel : Bytes) (exe pid : ℕ) (headers : List ProgramHeader)
      → Keeps P (load_segments kernel exe pid headers)
  unfolding load_segments load_segment
  load_segments-Keeps kernel exe pid [] = λ s h. h
  load_segments-Keeps kernel exe pid (ph ∷ headers) =
      let va = rounddown ph.p_va in
      let rounds = (segment_end ph - va) / 4096 in
      let fa = (exe + rounddown ph.p_offset) % 2 ^ 32 in
      let load =
        load_pages kernel pid (zero_from ph) ph.p_filesz (segment_perm ph) (segment_end ph) rounds
          fa va in
      bind-Keeps P (load_segment kernel exe pid ph) (λ _. load_segments kernel exe pid headers)
        (if-Keeps P (not (ph.p_type == 1)) (pure tt) load (λ s h. h)
          (load_pages-Keeps kernel pid (zero_from ph) ph.p_filesz (segment_perm ph) (segment_end ph)
            rounds fa va))
        (λ _. load_segments-Keeps kernel exe pid headers)

  -- `elf_load` changes no quota.
  pub elf_load-Keeps : (p : Program) (pid : ℕ) → Keeps P (elf_load p pid)
  unfolding elf_load
  elf_load-Keeps p pid =
      if-Keeps P (is_elf p) (load_segments p.kernel p.exe pid p.headers) (λ s. panic)
        (load_segments-Keeps p.kernel p.exe pid p.headers) (λ s h. tt)
