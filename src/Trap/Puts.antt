-- ===== src/Trap/Puts.antt =====
-- `sys_puts` prints a string of the process, in pieces that fit the buffer.
use mcertikos.Base.{
  ℕ, zero, suc, ◌+◌, ◌-◌, ◌%◌, ◌^◌, ◌≤◌, ◌<◌, min, ◌⊎◌, inl, inr, ◌≡◌, ◌≢◌, refl, ◌∙◌, ap, arith,
  Bool, true, false, not, ◌&&◌, ◌==◌, leb, if◌then◌else◌, List, ◌∷◌, update, Outcome, ok, Call,
  bind_ok, ◌>>=◌, ◌>>◌, pure, modify,
}
use native.Mathlib.Decide.{dec_lt, ℕ_discrete}
use mcertikos.Strings.{Bytes}
use mcertikos.Vmm.Tables.{Vmm}
use mcertikos.Thread.Context.{get_curid}
use mcertikos.UserMemory.{vm_userlo, vm_userhi, pt_copyin}
use mcertikos.UserMemory.Range.{IsPresent}
use mcertikos.UserMemory.Copyin.{user_byte, pt_copyin-reads}
use mcertikos.Proc.{Trapframe, Kernel}
use mcertikos.Proc.Create.{in_vmm_ok}
use mcertikos.Trap.{
  e_succ, e_mem, e_inval_addr, syscall_get_arg2, syscall_get_arg3, syscall_set_errno, in_kernel_vmm,
  puts_share, puts_loop, sys_puts,
}

-- The strings `new` on the console are `old` with the `len` bytes of the process at `uva`, in pieces of 4095 bytes
-- and a shorter last one, each with a zero behind it.
pub data Said (s : Vmm) (pid : ℕ) : (uva len : ℕ) → (old new : List Bytes) → Type 0 where
  end : {uva len : ℕ} {old : List Bytes} → len ≡ 0 → Said s pid uva len old old
  piece :
      {uva len : ℕ} {old new : List Bytes} (n : ℕ) (text : Bytes)
      → 0 < len
      → n ≡ min len 4095
      → ((j : ℕ) → j < n → text j ≡ user_byte s pid (uva + j))
      → text n ≡ 0
      → Said s pid (uva + n) (len - n) (text ∷ old) new
      → Said s pid uva len old new

module _ (kva pid : ℕ) (tf : Trapframe) (ne : pid ≢ 0) (buffer : kva + 4095 ≤ vm_userhi) where
  -- The state after a round.
  abbrev put_text : ℕ → Bytes → Vmm → Kernel → Kernel
  put_text n b v s = record s {
    threads = record s.threads { vmm = v };
    sys_buf = update (update s.sys_buf pid b) pid (update b n 0);
    printed = update b n 0 ∷ s.printed;
  }

  puts_round :
      (fuel pos remain : ℕ) (s : Kernel) (b : Bytes) (v : Vmm)
      → remain ≢ 0
      → pt_copyin pid pos kva (puts_share remain) (s.sys_buf pid) s.threads.vmm
        ≡ ok ((puts_share remain, b), v)
      → puts_loop kva pid (suc fuel) pos remain tf s
        ≡ puts_loop kva pid fuel
            ((pos + puts_share remain) % 2 ^ 32)
            (remain - puts_share remain)
            tf
            (put_text (puts_share remain) b v s)
  unfolding puts_loop
  puts_round fuel pos remain s b v more run =
      let n = puts_share remain in
      let rest = puts_loop kva pid fuel ((pos + n) % 2 ^ 32) (remain - n) tf in
      let a : (remain == 0) ≡ false = ground arith in
      let same : (n == n) ≡ true = ground arith in
      let u : Kernel = record s { threads = record s.threads { vmm = v } } in
      let w : Kernel = record u { sys_buf = update s.sys_buf pid b } in
      let say : Call Kernel Trapframe =
        modify (λ s. record s {
          sys_buf = update s.sys_buf pid (update b n 0);
          printed = update b n 0 ∷ s.printed;
        })
        >> rest in
      let k : ℕ × Bytes → Call Kernel Trapframe = λ r.
        modify (λ s. record s { sys_buf = update s.sys_buf pid r.1 })
        >> (if not (r.0 == n)
            then pure (syscall_set_errno e_mem tf)
            else (modify (λ s. record s {
              sys_buf = update s.sys_buf pid (update r.1 n 0);
              printed = update r.1 n 0 ∷ s.printed;
            })
                >> rest)) in
      let copy : Call Kernel (ℕ × Bytes) =
        in_kernel_vmm (pt_copyin pid pos kva n (s.sys_buf pid)) in
      ap (λ a. if a then ok (syscall_set_errno e_succ tf, s) else (copy >>= k) s) a
      ∙ bind_ok copy k s u (n, b)
          (in_vmm_ok (pt_copyin pid pos kva n (s.sys_buf pid)) s (n, b) v run)
      ∙ ap (λ c. (if not c then pure (syscall_set_errno e_mem tf) else say) w) same

  stop :
      (fuel pos remain : ℕ) (s : Kernel)
      → remain ≡ 0
      → puts_loop kva pid fuel pos remain tf s ≡ ok (syscall_set_errno e_succ tf, s)
  unfolding puts_loop
  stop zero pos remain s z = ground arith
  stop (suc fuel) pos remain s z = ground arith

  puts_loop-Said :
      (u0 len0 fuel pos remain : ℕ) (s : Kernel)
      → IsPresent s.threads.vmm pid u0 len0
      → u0 ≤ pos
      → pos + remain ≤ u0 + len0
      → remain ≤ fuel
      → vm_userlo ≤ pos
      → pos + remain ≤ vm_userhi
      → (t : Kernel) × (puts_loop kva pid fuel pos remain tf s
          ≡ ok (syscall_set_errno e_succ tf, t))
        × Said s.threads.vmm pid pos remain s.printed t.printed
        × (t.threads ≡ s.threads)
  puts_loop-Said u0 len0 zero pos remain s h l r enough lo hi =
      (s, stop zero pos remain s (omega arith), Said.end (omega arith), refl)
  puts_loop-Said u0 len0 (suc fuel) pos remain s h l r enough lo hi = elim (ℕ_discrete remain 0) [
    | yes z ↦ (s, stop (suc fuel) pos remain s z, Said.end z, refl)
    | no more ↦
        let n = puts_share remain in
        let least : n ≡ min remain 4095 = ground arith in
        let part : IsPresent s.threads.vmm pid pos n = record {
          word = λ a a_lo a_hi. h.word a (omega arith) (omega arith);
          there = λ a a_lo a_hi. h.there a (omega arith) (omega arith);
        } in
        let (b, run, bytes) =
          pt_copyin-reads s.threads.vmm pid pos n kva (s.sys_buf pid) part lo (omega arith)
            (omega arith) in
        let word : (pos + n) % 2 ^ 32 ≡ pos + n = omega arith in
        let (t, e, said, same) =
          puts_loop-Said u0 len0 fuel (pos + n) (remain - n) (put_text n b s.threads.vmm s) h
            (omega arith) (omega arith) (omega arith) (omega arith) (omega arith) in
        (
          t,
          puts_round fuel pos remain s b s.threads.vmm more run
              ∙ ap (λ p. puts_loop kva pid fuel p (remain - n) tf (put_text n b s.threads.vmm s))
                  word
              ∙ e,
          Said.piece n (update b n 0) (omega arith) least
              (λ j lt. let old : update b n 0 j ≡ b j = ground arith in old ∙ bytes j lt)
              (ground arith) said,
          same,
        )
  ]

-- Let the current process not be 0 and its buffer `sys_buf` lie below the end of the user's addresses, let the range
-- of addresses of the string not wrap, and its pages be there if they are those of user addresses. Then
-- `sys_puts` returns and changes the console, its buffer and EAX alone. For a range of user addresses it
-- prints the bytes of the process there, in pieces of 4095 bytes and a shorter last one, and sets EAX to
-- 0, which is `E_SUCC`; for any other range it prints nothing and sets EAX to 4, `E_INVAL_ADDR`.
pub sys_puts_total :
    (kva : ℕ → ℕ) (tf : Trapframe) (s : Kernel)
    → let pid = get_curid s.threads in
      let uva = tf.ebx in
      let len = tf.ecx in
      pid ≢ 0
      → kva pid + 4095 ≤ 0xf000_0000
      → uva + len < 2 ^ 32
      → (0x4000_0000 ≤ uva → uva + len ≤ 0xf000_0000 → IsPresent s.threads.vmm pid uva len)
      → ((0x4000_0000 ≤ uva)
          × (uva + len ≤ 0xf000_0000)
          × (t : Kernel) × (sys_puts kva tf s ≡ ok (record tf { eax = 0 }, t))
          × Said s.threads.vmm pid uva len s.printed t.printed
          × (t.threads ≡ s.threads))
        ⊎ (((uva < 0x4000_0000) ⊎ (0xf000_0000 < uva + len))
            × (sys_puts kva tf s ≡ ok (record tf { eax = 4 }, s)))
unfolding sys_puts syscall_get_arg2 syscall_get_arg3 syscall_set_errno
sys_puts_total kva tf s ne buffer word present = elim (dec_lt tf.ebx 0x4000_0000) [
  | yes low ↦
      let b : (leb vm_userlo tf.ebx && leb ((tf.ebx + tf.ecx) % 2 ^ 32) vm_userhi) ≡ false =
        ground arith in
      inr (inl low, ap choose b)
  | no lo ↦ elim (dec_lt 0xf000_0000 (tf.ebx + tf.ecx)) [
    | yes high ↦
        let b : (leb vm_userlo tf.ebx && leb ((tf.ebx + tf.ecx) % 2 ^ 32) vm_userhi) ≡ false =
          ground arith in
        inr (inr high, ap choose b)
    | no hi ↦
        let b : (leb vm_userlo tf.ebx && leb ((tf.ebx + tf.ecx) % 2 ^ 32) vm_userhi) ≡ true =
          ground arith in
        let pid = get_curid s.threads in
        let (t, run, said, same) =
          puts_loop-Said (kva pid) pid tf ne buffer tf.ebx tf.ecx tf.ecx tf.ebx tf.ecx s
            (present (omega arith) (omega arith)) (omega arith) (omega arith) (omega arith)
            (omega arith) (omega arith) in
        inl (omega arith, omega arith, t, ap choose b ∙ run, said, same)
  ]
]
  where
    choose : Bool → Outcome (Trapframe × Kernel)
    choose b =
        if not b
        then ok (syscall_set_errno e_inval_addr tf, s)
        else puts_loop (kva (get_curid s.threads)) (get_curid s.threads) tf.ecx tf.ebx tf.ecx tf s
