-- ===== src/Zpoline/Returns.antt =====
-- What a system call that enters through `asm_syscall_hook` of mylib/zpoline.c leaves for its caller.
use staut.Prelude.{
  ℕ, ◌+◌, ◌-◌, ◌*◌, ◌/◌, ◌%◌, ◌^◌, ◌≤◌, ◌<◌, ◌≡◌, refl, ap, ◌∙◌, ◌≢◌, arith, true, false, ◌==◌,
  some, ◌>>=◌, lt→ltb,
}
use staut.Zpoline.Rewrite.{Bitmap, is_bitmap_set}
use staut.Zpoline.Hook.{
  Memory, Registers, Syscall, enter_syscall, nr_clone3, nr_clone, is_replaced_instruction_addr,
  syscall_hook, before_call, call_hook, after_call, asm_syscall_hook,
}

-- The first address of the frame that `asm_syscall_hook` lays out below `rsp`.
abbrev pub frame : ℕ → ℕ
frame rsp = (rsp - 8) / 16 * 16 - 80

module _ (r : Registers) (mem : Memory) (room : 256 ≤ r.rsp) where
  abbrev pushed : Memory
  pushed = (before_call (r, mem)).1

  -- The words of the frame, from its first address on, and those that the call leaves as they are.
  record Frame : Type 0 where
    first : (before_call (r, mem)).0.rsp ≡ frame r.rsp
    bottom : (before_call (r, mem)).0.rbp ≡ r.rsp - 8
    word_r10 : pushed (frame r.rsp) ≡ r.r10
    word_rax : pushed (frame r.rsp + 8) ≡ r.rax
    word_ret : pushed (frame r.rsp + 16) ≡ mem r.rsp
    word_rcx : pushed (frame r.rsp + 24) ≡ r.rcx
    word_rdx : pushed (frame r.rsp + 32) ≡ r.rdx
    word_rsi : pushed (frame r.rsp + 40) ≡ r.rsi
    word_rdi : pushed (frame r.rsp + 48) ≡ r.rdi
    word_r8 : pushed (frame r.rsp + 56) ≡ r.r8
    word_r9 : pushed (frame r.rsp + 64) ≡ r.r9
    word_r11 : pushed (frame r.rsp + 72) ≡ r.r11
    word_rbp : pushed (r.rsp - 8) ≡ r.rbp
    above : (a : ℕ) → r.rsp ≤ a → pushed a ≡ mem a

  before_call-Frame : Frame
  unfolding before_call
  before_call-Frame = record {
    first = omega (arith, room);
    bottom = refl;
    word_r10 = ground (arith, room);
    word_rax = ground (arith, room);
    word_ret = ground (arith, room);
    word_rcx = ground (arith, room);
    word_rdx = ground (arith, room);
    word_rsi = ground (arith, room);
    word_rdi = ground (arith, room);
    word_r8 = ground (arith, room);
    word_r9 = ground (arith, room);
    word_r11 = ground (arith, room);
    word_rbp = ground (arith, room);
    above = λ a h. ground (arith, room, h);
  }

==-ne : (m n : ℕ) → m ≢ n → (m == n) ≡ false
==-ne m n h = ground arith

-- A system call other than clone3 and clone, from an instruction that was replaced.
syscall_hook-plain :
    (bm : Bitmap) (hook_fn : Syscall) (rdi rsi rdx rcx r8 r9 r10 rax retptr : ℕ) (mem : Memory)
    → rax ≢ nr_clone3
    → rax ≢ nr_clone
    → retptr - 2 < 2 ^ 48
    → is_bitmap_set bm (retptr - 2) ≡ true
    → syscall_hook bm hook_fn rdi rsi rdx rcx r8 r9 r10 rax retptr mem
      ≡ some (hook_fn rax rdi rsi rdx r10 r8 r9 mem)
unfolding syscall_hook is_replaced_instruction_addr
syscall_hook-plain bm hook_fn rdi rsi rdx rcx r8 r9 r10 rax retptr mem no3 other low set =
    rw (lt→ltb (retptr - 2) (2 ^ 48) low, set, ==-ne rax nr_clone3 no3, ==-ne rax nr_clone other)
      refl

module _ (bm : Bitmap) (hook_fn : Syscall) (syscall_addr : ℕ) (scratch r : Registers)
    (mem : Memory) where
  -- The answer of `hook_fn` for the arguments in the caller's registers, and the memory behind it.
  abbrev pub answer : ℕ × Memory
  answer = hook_fn r.rax r.rdi r.rsi r.rdx r.r10 r.r8 r.r9 (before_call (r, mem)).1

  -- `syscall_hook` with the registers `b`, when the three words on the stack are `r10`, `rax` and `ret`.
  call_hook-plain :
      (b : Registers) (m : Memory) (r10 rax ret : ℕ)
      → m b.rsp ≡ r10
      → m (b.rsp + 8) ≡ rax
      → m (b.rsp + 16) ≡ ret
      → rax ≢ nr_clone3
      → rax ≢ nr_clone
      → ret - 2 < 2 ^ 48
      → is_bitmap_set bm (ret - 2) ≡ true
      → call_hook bm hook_fn scratch (b, m)
        ≡ some (
          record scratch {
            rax = (hook_fn rax b.rdi b.rsi b.rdx r10 b.r8 b.r9 m).0;
            rbp = b.rbp;
            rsp = b.rsp;
          },
          (hook_fn rax b.rdi b.rsi b.rdx r10 b.r8 b.r9 m).1,
        )
  unfolding call_hook
  call_hook-plain b m r10 rax ret e10 ea er no3 other low set =
      rw (e10, ea, er)
        (ap (λ o. o >>= λ q. some (record scratch { rax = q.0; rbp = b.rbp; rsp = b.rsp }, q.1))
          (syscall_hook-plain bm hook_fn b.rdi b.rsi b.rdx b.rcx b.r8 b.r9 r10 rax ret m no3 other
            low set))

  module _ (room : 256 ≤ r.rsp)
      (kept : (a : ℕ)
        → frame r.rsp ≤ a
        → a < r.rsp + 8
        → answer.1 a ≡ (before_call (r, mem)).1 a) where
    open before_call-Frame r mem room use {
      first, word_r10, word_rax, word_ret, word_rcx, word_rdx, word_rsi, word_rdi, word_r8, word_r9,
      word_r11, word_rbp, above,
    }

    call_hook-answer :
        r.rax ≢ nr_clone3
        → r.rax ≢ nr_clone
        → mem r.rsp - 2 < 2 ^ 48
        → is_bitmap_set bm (mem r.rsp - 2) ≡ true
        → call_hook bm hook_fn scratch (before_call (r, mem))
          ≡ some (record scratch { rax = answer.0; rbp = r.rsp - 8; rsp = frame r.rsp }, answer.1)
    unfolding before_call
    call_hook-answer no3 other low set =
        let b = before_call (r, mem) in
        let word : (k v : ℕ) → pushed r mem room (frame r.rsp + k) ≡ v → b.1 (b.0.rsp + k) ≡ v =
          λ k v e. ap (λ sp. b.1 (sp + k)) first ∙ e in
        call_hook-plain b.0 b.1 r.r10 r.rax (mem r.rsp) (ap b.1 first ∙ word_r10)
          (word 8 r.rax word_rax) (word 16 (mem r.rsp) word_ret) no3 other low set
        ∙ ap (λ sp. some (record scratch { rax = answer.0; rbp = r.rsp - 8; rsp = sp }, answer.1))
            first

    kept_word :
        (k v : ℕ)
        → k ≤ 72
        → pushed r mem room (frame r.rsp + k) ≡ v
        → answer.1 (frame r.rsp + k) ≡ v
    kept_word k v h e = kept (frame r.rsp + k) (omega arith) (omega (arith, h, room)) ∙ e

    after_call-answer :
        after_call (record scratch { rax = answer.0; rbp = r.rsp - 8; rsp = frame r.rsp }, answer.1)
        ≡ (mem r.rsp, record r { rax = answer.0; rsp = r.rsp + 8 }, answer.1)
    unfolding after_call
    after_call-answer =
        let e : r.rsp - 8 + 8 ≡ r.rsp = omega (arith, room) in
        rw
          (
            e,
            kept r.rsp (omega (arith, room)) (omega arith) ∙ above r.rsp (omega arith),
            kept (r.rsp - 8) (omega (arith, room)) (omega (arith, room)) ∙ word_rbp,
            kept (frame r.rsp) (omega arith) (omega (arith, room)) ∙ word_r10,
            kept_word 24 r.rcx (omega arith) word_rcx,
            kept_word 32 r.rdx (omega arith) word_rdx,
            kept_word 40 r.rsi (omega arith) word_rsi,
            kept_word 48 r.rdi (omega arith) word_rdi,
            kept_word 56 r.r8 (omega arith) word_r8,
            kept_word 64 r.r9 (omega arith) word_r9,
            kept_word 72 r.r11 (omega arith) word_r11,
          )
          refl

-- A system call from an instruction that was replaced, other than rt_sigreturn, clone and clone3, with
-- `enter_syscall` as `hook_fn`: the kernel gets the number and the six arguments of the caller's registers;
-- the code goes on behind the instruction with every register as before but %rax, which has the kernel's
-- result, and with the memory behind the call; `syscall_hook` was called with an aligned stack and none of
-- the caller's words changed before. The kernel leaves the frame below the stack and the return address.
pub asm_syscall_hook-enter_syscall :
    (bm : Bitmap) (kernel : Syscall) (syscall_addr : ℕ) (scratch r : Registers) (mem : Memory)
    → 256 ≤ r.rsp
    → r.rax ≢ 15
    → r.rax ≢ nr_clone3
    → r.rax ≢ nr_clone
    → mem r.rsp - 2 < 2 ^ 48
    → is_bitmap_set bm (mem r.rsp - 2) ≡ true
    → ((a : ℕ)
        → frame r.rsp ≤ a
        → a < r.rsp + 8
        → (kernel r.rax r.rdi r.rsi r.rdx r.r10 r.r8 r.r9 (before_call (r, mem)).1).1 a
          ≡ (before_call (r, mem)).1 a)
    → (asm_syscall_hook bm (enter_syscall kernel) syscall_addr scratch (r, mem)
        ≡ some (
          mem r.rsp,
          record r {
            rax = (kernel r.rax r.rdi r.rsi r.rdx r.r10 r.r8 r.r9 (before_call (r, mem)).1).0;
            rsp = r.rsp + 8;
          },
          (kernel r.rax r.rdi r.rsi r.rdx r.r10 r.r8 r.r9 (before_call (r, mem)).1).1,
        ))
      × ((before_call (r, mem)).0.rsp % 16 ≡ 0)
      × ((a : ℕ) → r.rsp ≤ a → (before_call (r, mem)).1 a ≡ mem a)
unfolding asm_syscall_hook enter_syscall
asm_syscall_hook-enter_syscall bm kernel syscall_addr scratch r mem room no15 no3 other low set
      kept =
    let f = before_call-Frame r mem room in
    (
      rw
          (
            ==-ne r.rax 15 no15,
            call_hook-answer bm (enter_syscall kernel) syscall_addr scratch r mem room kept no3
                other low set,
          )
          (ap some
            (after_call-answer bm (enter_syscall kernel) syscall_addr scratch r mem room kept)),
      omega (arith, f.first, room),
      f.above,
    )
