-- ===== src/Zpoline/Rewrite.antt =====
-- The rewriting of code in mylib/zpoline.c: the bitmap of replaced instructions, `do_rewrite` and
-- `disassemble_and_rewrite`. The disassembler of libopcodes is a parameter.
use staut.Prelude.{
  ℕ, zero, suc, ◌+◌, ◌/◌, ◌%◌, ◌≤◌, ◌<◌, ◌≡◌, ◌≢◌, arith, Bool, true, false, ◌&&◌, ◌||◌, not, ◌==◌,
  ltb, if◌then◌else◌, List, [], ◌∷◌, Option, none, some, ◌⊎◌, CString, strncmp_eq, update, ◌^◌,
  assert, ◌>>◌, ◌>>=◌,
}

-- A byte of the bitmap as its bits.
abbrev pub Bitmap : Type 0
Bitmap = ℕ → ℕ → Bool

unfoldable pub bitmap_set : Bitmap → ℕ → Bitmap
bitmap_set bm val = update bm (val / 8) (update (bm (val / 8)) (val % 8) true)

unfoldable pub is_bitmap_set : Bitmap → ℕ → Bool
is_bitmap_set bm val = bm (val / 8) (val % 8)

-- The bit that is set, and no other one, is found set.
pub is_bitmap_set-bitmap_set :
    (bm : Bitmap) (val x : ℕ)
    → is_bitmap_set (bitmap_set bm val) x ≡ (if val == x then true else is_bitmap_set bm x)
unfolding is_bitmap_set bitmap_set
is_bitmap_set-bitmap_set bm val x = ground arith

-- The bytes of memory, and the replaced instructions.
pub record Code : Type 0 where
  pub mem : ℕ → ℕ
  pub bm_mem : Bitmap

-- "syscall" and "sysenter"
abbrev pub syscall_text : CString
syscall_text = 115 ∷ 121 ∷ 115 ∷ 99 ∷ 97 ∷ 108 ∷ 108 ∷ []

abbrev pub sysenter_text : CString
sysenter_text = 115 ∷ 121 ∷ 115 ∷ 101 ∷ 110 ∷ 116 ∷ 101 ∷ 114 ∷ []

abbrev pub is_syscall : CString → Bool
is_syscall buf = strncmp_eq buf syscall_text 7 || strncmp_eq buf sysenter_text 8

-- What the disassembler answers at an address: the length of the instruction, and the texts that it
-- prints of it, one call of `do_rewrite` each.
abbrev pub Disassembler : Type 0
Disassembler = (ℕ → ℕ) → ℕ → ℕ × List CString

module _ (syscall_addr : ℕ) where
  -- `do_rewrite`; `ptr` is the address of the instruction. `none` is the failed assertion of
  -- `record_replaced_instruction_addr`.
  unfoldable pub do_rewrite : ℕ → CString → Code → Option Code
  unfolding bitmap_set
  do_rewrite ptr buf c =
      if is_syscall buf && not (ptr == syscall_addr)
      then (assert (ltb ptr (2 ^ 48))
          >> some (record c {
            mem = update (update c.mem ptr 0xff) (ptr + 1) 0xd0;
            bm_mem = bitmap_set c.bm_mem ptr;
          }))
      else some c

  unfoldable pub do_rewrites : ℕ → List CString → Code → Option Code
  unfolding do_rewrite
  do_rewrites ptr [] c = some c
  do_rewrites ptr (buf ∷ bufs) c = do_rewrite ptr buf c >>= λ d. do_rewrites ptr bufs d

  -- The loop of `disassemble_and_rewrite`; `none` is a failed assertion, or no fuel.
  unfoldable pub rewrite_loop : Disassembler → ℕ → ℕ → ℕ → ℕ → Code → Option Code
  unfolding do_rewrites
  rewrite_loop disasm code size zero off c = if ltb off size then none else some c
  rewrite_loop disasm code size (suc fuel) off c =
      let r = disasm c.mem (code + off) in
      let rest =
        do_rewrites (code + off) r.1 c >>= λ d. rewrite_loop disasm code size fuel (off + r.0) d in
      if ltb off size then rest else some c

  unfoldable pub disassemble_and_rewrite : Disassembler → ℕ → ℕ → Code → Option Code
  unfolding rewrite_loop
  disassemble_and_rewrite disasm code code_size c = rewrite_loop disasm code code_size code_size 0 c

  -- Some text that is printed is that of a system call.
  abbrev pub HasSyscall : List CString → Type 0
  HasSyscall [] = ⊥
  HasSyscall (buf ∷ bufs) = (is_syscall buf ≡ true) ⊎ HasSyscall bufs

  -- An instruction of the region that may be recorded: the disassembler prints it as a system call, in
  -- some state of the memory, and it is not that of `enter_syscall`.
  abbrev pub IsRecordable : Disassembler → (code size : ℕ) → ℕ → Type 0
  IsRecordable disasm code size x =
      (x ≢ syscall_addr)
      × (code ≤ x)
      × (x < code + size)
      × (mem : ℕ → ℕ) × HasSyscall (disasm mem x).1

  -- How the code at address `x` may change: what is recorded stays so, what is recorded anew may be, and a
  -- byte that changes belongs to a recorded instruction of two bytes.
  pub record RewriteOf (May : ℕ → Type 0) (c d : Code) (x : ℕ) : Type 0 where
    pub keeps : (is_bitmap_set c.bm_mem x ≡ false) ⊎ (is_bitmap_set d.bm_mem x ≡ true)
    pub own : (is_bitmap_set d.bm_mem x ≡ is_bitmap_set c.bm_mem x) ⊎ May x
    pub byte :
        (d.mem x ≡ c.mem x)
        ⊎ ((is_bitmap_set d.bm_mem x ≡ true) × (d.mem x ≡ 0xff))
        ⊎ ((y : ℕ) × (y + 1 ≡ x) × (is_bitmap_set d.bm_mem y ≡ true) × (d.mem x ≡ 0xd0))
