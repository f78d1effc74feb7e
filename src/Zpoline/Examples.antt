-- ===== src/Zpoline/Examples.antt =====
-- System calls at concrete numbers through the trampoline of mylib/zpoline.c.
use staut.Prelude.{
  ℕ, ◌+◌, ◌*◌, ◌%◌, ◌≤◌, refl, update, update_ne, true, false, ◌==◌, if◌then◌else◌, ◌≡◌, arith, inl,
  List, map, strncmp_eq, [], ◌∷◌, some,
}
use staut.Zpoline.Maps.{rewrite_code}
use staut.Zpoline.Printed.{
  Mapping, AreMappings, print_line, rewrite_targets, rewrite_code-print_line,
}
use staut.Zpoline.Rewrite.{Code, is_bitmap_set, Disassembler, syscall_text, disassemble_and_rewrite}
use staut.Zpoline.Hook.{Registers, Syscall, enter_syscall, before_call, asm_syscall_hook}
use staut.Zpoline.Returns.{asm_syscall_hook-enter_syscall}
use staut.Zpoline.Entry.{enter_hook, enter_hook-returns}

-- write(2) is number 1, called from 0x401000.
enter_hook-returns_example :
    enter_hook 0x7000_0000 1 7 0x401000 []
    ≡ some (record { rax = 1; rdi = 7; stack = 0x401000 ∷ [] })
enter_hook-returns_example =
    enter_hook-returns 0x7000_0000 1 7 0x401000 [] (omega arith) (omega arith) (omega arith)
      (inl (omega arith))

-- A region of instructions of two bytes, the second of which is a system call.
abbrev pairs : Disassembler
pairs mem ptr = (2, (if ptr == 0x1002 then syscall_text else []) ∷ [])

abbrev fresh_code : Code
fresh_code = record { mem = λ _. 0x90; bm_mem = λ _ _. false }

-- A kernel that answers a number from what it gets, and fills a buffer at 0x9000.
abbrev kernel : Syscall
kernel rax rdi rsi rdx r10 r8 r9 mem = (100 * rax + rdi, update mem 0x9000 rsi)

-- A call of number 39 with the stack at 0x8008, from the instruction before 0x401002.
abbrev caller : Registers
caller = record {
  rax = 39;
  rdi = 7;
  rsi = 8;
  rdx = 9;
  rcx = 1;
  r8 = 2;
  r9 = 3;
  r10 = 4;
  r11 = 5;
  rbp = 0x8100;
  rsp = 0x8008;
}

asm_syscall_hook-enter_syscall_example :
    (asm_syscall_hook (λ _ _. true) (enter_syscall kernel) 0x500 caller (caller, λ _. 0x401002)
      ≡ some (
        0x401002,
        record caller { rax = 3907; rsp = 0x8010 },
        update (before_call (caller, λ _. 0x401002)).1 0x9000 8,
      ))
    × ((before_call (caller, λ _. 0x401002)).0.rsp % 16 ≡ 0)
    × ((a : ℕ) → 0x8008 ≤ a → (before_call (caller, λ _. 0x401002)).1 a ≡ 0x401002)
unfolding is_bitmap_set
asm_syscall_hook-enter_syscall_example =
    asm_syscall_hook-enter_syscall (λ _ _. true) kernel 0x500 caller caller (λ _. 0x401002)
      (omega arith) (omega arith) (omega arith) (omega arith) (omega arith) refl
      (λ a low high. update_ne (before_call (caller, λ _. 0x401002)).1 0x9000 8 a (omega arith))

-- "1000-1006 r-xp 0" and "2000-2002 rw-p 0".
abbrev mappings : List Mapping
mappings =
    record {
      start = 1 ∷ 0 ∷ 0 ∷ 0 ∷ [];
      stop = 1 ∷ 0 ∷ 0 ∷ 6 ∷ [];
      read = true;
      write = false;
      exec = true;
      shared = false;
      rest = 48 ∷ [];
    }
    ∷ record {
      start = 2 ∷ 0 ∷ 0 ∷ 0 ∷ [];
      stop = 2 ∷ 0 ∷ 0 ∷ 2 ∷ [];
      read = true;
      write = true;
      exec = false;
      shared = false;
      rest = 48 ∷ [];
    }
    ∷ []

mappings-AreMappings : AreMappings mappings
mappings-AreMappings = (
  record {
    start_digits = ground arith;
    stop_digits = ground arith;
    short = omega arith;
    ordered = omega arith;
    bounded = omega arith;
    in_buffer = omega arith;
  },
  (
    record {
      start_digits = ground arith;
      stop_digits = ground arith;
      short = omega arith;
      ordered = omega arith;
      bounded = omega arith;
      in_buffer = omega arith;
    },
    tt,
  ),
)

rewrite_code-print_line_example :
    rewrite_code 0x2000 pairs (map print_line mappings) fresh_code
    ≡ rewrite_targets 0x2000 pairs mappings fresh_code
rewrite_code-print_line_example =
    rewrite_code-print_line 0x2000 pairs mappings fresh_code mappings-AreMappings

-- Only the first is rewritten.
targets-first :
    rewrite_targets 0x2000 pairs mappings fresh_code
    ≡ disassemble_and_rewrite 0x2000 pairs 0x1000 6 fresh_code
unfolding disassemble_and_rewrite strncmp_eq
targets-first = refl
