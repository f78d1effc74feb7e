-- ===== src/Zpoline/Hook.antt =====
-- `asm_syscall_hook` of mylib/zpoline.c behind `skip_pop`, `syscall_hook` and `enter_syscall`. The system
-- calls of the kernel are a parameter.
use staut.Prelude.{
  ℕ, ◌+◌, ◌-◌, ◌*◌, ◌/◌, ◌%◌, ◌^◌, Bool, ◌&&◌, ◌==◌, ltb, if◌then◌else◌, Option, some, ◌>>=◌, ◌>>◌,
  assert, update,
}
use staut.Zpoline.Rewrite.{Bitmap, is_bitmap_set}

-- Words of eight bytes, by their address. A stack has its words at multiples of 8.
abbrev pub Memory : Type 0
Memory = ℕ → ℕ

pub record Registers : Type 0 where
  pub rax : ℕ
  pub rdi : ℕ
  pub rsi : ℕ
  pub rdx : ℕ
  pub rcx : ℕ
  pub r8 : ℕ
  pub r9 : ℕ
  pub r10 : ℕ
  pub r11 : ℕ
  pub rbp : ℕ
  pub rsp : ℕ

-- `hook_fn` with its seven arguments, and a system call with its number and six arguments: the result and
-- the memory behind it.
abbrev pub Syscall : Type 0
Syscall = (a1 a2 a3 a4 a5 a6 a7 : ℕ) → Memory → ℕ × Memory

-- `enter_syscall`: the moves from the registers of a C call, its seventh argument on the stack, to those
-- of the system call, in the order rax, rdi, rsi, rdx, r10, r8, r9.
unfoldable pub enter_syscall : Syscall → Syscall
enter_syscall kernel rdi rsi rdx rcx r8 r9 seventh mem =
    let rax = rdi in
    let rdi = rsi in
    let rsi = rdx in
    let rdx = rcx in
    let r10 = r8 in let r8 = r9 in let r9 = seventh in kernel rax rdi rsi rdx r10 r8 r9 mem

-- __NR_clone3, __NR_clone and ENOSYS
abbrev pub nr_clone3 : ℕ
nr_clone3 = 435

abbrev pub nr_clone : ℕ
nr_clone = 56

abbrev pub enosys : ℕ
enosys = 38

-- `flags & CLONE_VM`
abbrev pub clone_vm : ℕ → Bool
clone_vm flags = flags / 0x100 % 2 == 1

-- `is_replaced_instruction_addr`
unfoldable pub is_replaced_instruction_addr : Bitmap → ℕ → Option Bool
is_replaced_instruction_addr bm addr = assert (ltb addr (2 ^ 48)) >> some (is_bitmap_set bm addr)

-- `syscall_hook`; `none` is an assertion that fails, or int3.
unfoldable pub syscall_hook :
    Bitmap
    → Syscall
    → (rdi rsi rdx rcx r8 r9 r10_on_stack rax_on_stack retptr : ℕ) → Memory
    → Option (ℕ × Memory)
unfolding is_replaced_instruction_addr
syscall_hook bm hook_fn rdi rsi rdx rcx r8 r9 r10_on_stack rax_on_stack retptr mem = do
  replaced ← is_replaced_instruction_addr bm (retptr - 2)
  assert replaced
  if rax_on_stack == nr_clone3
      then some (2 ^ 64 - enosys, mem)
      else if rax_on_stack == nr_clone && clone_vm rdi
      then some
          (hook_fn rax_on_stack rdi (rsi - 8) rdx r10_on_stack r8 r9 (update mem (rsi - 8) retptr))
      else some (hook_fn rax_on_stack rdi rsi rdx r10_on_stack r8 r9 mem)

-- The instructions on the registers and the memory.
abbrev pub pushq : ℕ → Registers × Memory → Registers × Memory
pushq v (r, mem) = (record r { rsp = r.rsp - 8 }, update mem (r.rsp - 8) v)

abbrev pub drop_words : ℕ → Registers × Memory → Registers × Memory
drop_words n (r, mem) = (record r { rsp = r.rsp + 8 * n }, mem)

-- From `pushq %rbp` to the last push before the call.
unfoldable pub before_call : Registers × Memory → Registers × Memory
before_call s =
    let entered = pushq s.0.rbp s in
    let framed : Registers × Memory = (record entered.0 { rbp = entered.0.rsp }, entered.1) in
    let aligned : Registers × Memory =
      (record framed.0 { rsp = framed.0.rsp / 16 * 16 }, framed.1) in
    let saved = pushq s.0.rcx (
      pushq s.0.rdx
        (pushq s.0.rsi (pushq s.0.rdi (pushq s.0.r8 (pushq s.0.r9 (pushq s.0.r11 aligned)))))) in
    let with_return = pushq (saved.1 (saved.0.rbp + 8)) saved in
    pushq s.0.r10 (pushq s.0.rax with_return)

-- `callq syscall_hook`: its last three arguments are on the stack. `scratch` is what it leaves in the
-- registers that it need not keep.
unfoldable pub call_hook :
    Bitmap → Syscall → (scratch : Registers) → Registers × Memory → Option (Registers × Memory)
unfolding syscall_hook
call_hook bm hook_fn scratch (r, mem) =
    syscall_hook bm hook_fn r.rdi r.rsi r.rdx r.rcx r.r8 r.r9 (mem r.rsp) (mem (r.rsp + 8))
      (mem (r.rsp + 16)) mem
    >>= λ q. some (record scratch { rax = q.0; rbp = r.rbp; rsp = r.rsp }, q.1)

-- From `popq %r10` to `retq`: where it returns to, and the state there.
unfoldable pub after_call : Registers × Memory → ℕ × Registers × Memory
after_call (r, mem) =
    let restored = record r {
      r10 = mem r.rsp;
      rcx = mem (r.rsp + 24);
      rdx = mem (r.rsp + 32);
      rsi = mem (r.rsp + 40);
      rdi = mem (r.rsp + 48);
      r8 = mem (r.rsp + 56);
      r9 = mem (r.rsp + 64);
      r11 = mem (r.rsp + 72);
    } in
    let left = record restored { rsp = r.rbp + 8; rbp = mem r.rbp } in
    (mem left.rsp, record left { rsp = left.rsp + 8 }, mem)

-- From `cmpq $15,%rax` on: where it goes, and the state there. rt_sigreturn goes to the instruction of
-- the system call, without the return address.
unfoldable pub asm_syscall_hook :
    Bitmap
    → Syscall
    → (syscall_addr : ℕ) (scratch : Registers) → Registers × Memory
    → Option (ℕ × Registers × Memory)
unfolding before_call call_hook after_call
asm_syscall_hook bm hook_fn syscall_addr scratch s =
    if s.0.rax == 15
    then some (syscall_addr, record s.0 { rsp = s.0.rsp + 8 }, s.1)
    else call_hook bm hook_fn scratch (before_call s) >>= λ c. some (after_call c)
