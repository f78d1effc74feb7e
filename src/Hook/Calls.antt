-- ===== src/Hook/Calls.antt =====
-- `hook_openat` and `hook_function` of mylib/hook.c, built without USE_IO_URING. The
-- kernel is a parameter, a state and what `next_sys_call` does to it.
use staut.Prelude.{
  ℕ, ◌+◌, ◌/◌, Bool, ltb, if◌then◌else◌, List, [], Option, none, some, CString, update, ◌>>=◌,
}
use staut.Fs.State.{Fs, get_size}
use staut.Fs.Ops.{close, unlink}
use staut.Fs.Open.{open_file}
use staut.Transfer.Request.{Batch}
use staut.Transfer.Impl.{read_impl, write_impl}
use staut.Hook.Names.{Hooked, is_hooked_filename}

-- A `long` that a system call returns: a result, or the negated error number.
pub data Ret : Type 0 where
  value : ℕ → Ret
  failed : ℕ → Ret

-- The system calls that `hook_function` tells apart, with the arguments it reads; `other` stands for
-- each number without a case. Buffers are not modelled.
pub data Call : Type 0 where
  openat : (filename : CString) → Call
  close_call : (fd : ℕ) → Call
  read : (fd count : ℕ) → Call
  pread64 : (fd count pos : ℕ) → Call
  write : (fd len : ℕ) → Call
  pwrite64 : (fd len pos : ℕ) → Call
  newfstatat : (fd : ℕ) → Call
  unlink_call : (pathname : CString) → Call
  other : (a1 : ℕ) → Call

-- MAX_HOOKFD
abbrev pub max_hookfd : ℕ
max_hookfd = 1024

-- `hookfds`, `cur_pos` and the file system; NOT_USED_FD is `none`.
pub record Table : Type 0 where
  pub hookfds : ℕ → Option ℕ
  pub cur_pos : ℕ → ℕ
  pub fs : Fs

-- The fields of `struct stat` that are written for a hooked file.
pub record Stat : Type 0 where
  pub st_size : ℕ
  pub st_blocks : ℕ
  pub st_blksize : ℕ

-- What a system call leaves: its result, the table, the kernel, the requests to the driver, and the
-- `struct stat` if it wrote one.
pub record Outcome (K : Type 0) : Type 0 where
  pub ret : Ret
  pub table : Table
  pub kernel : K
  pub requests : List Batch
  pub stat : Option Stat

-- The loop of `__hook_init` over `hookfds`.
unfoldable pub init_hookfds : Table → Table
init_hookfds t = record t { hookfds = λ i. if ltb i max_hookfd then none else t.hookfds i }

module _ {K : Type 0} (next_sys_call : Call → K → Ret × K) (hooked : Hooked)
    (read_deg write_deg : ℕ) where
  -- `return next_sys_call(a1, ...)`
  unfoldable pub forward : Call → Table → K → Outcome K
  forward c t k = record {
    ret = (next_sys_call c k).0;
    table = t;
    kernel = (next_sys_call c k).1;
    requests = [];
    stat = none;
  }

  -- The entry of a hooked file in the table.
  abbrev pub set_hookfd : Table → ℕ → ℕ × Fs → Table
  set_hookfd t fd r = record {
    hookfds = update t.hookfds fd (some r.0);
    cur_pos = update t.cur_pos fd 0;
    fs = r.1;
  }

  -- `hook_openat` behind its system call; `none` is the write to `hookfds[ret]` with a negative `ret`, the
  -- failed assertion, or what `myfs_open` does with a full table.
  unfoldable pub hook_opened : CString → Table → Ret → Option Table
  hook_opened filename t (failed e) = if is_hooked_filename hooked filename then none else some t
  hook_opened filename t (value fd) =
      let opened = open_file t.fs filename >>= λ r. some (set_hookfd t fd r) in
      if is_hooked_filename hooked filename
      then (if ltb fd max_hookfd then opened else none)
      else some t

  unfoldable pub hook_openat : CString → Table → K → Option (Outcome K)
  unfolding forward hook_opened
  hook_openat filename t k = hook_opened filename t (next_sys_call (openat filename) k).0 >>= λ u.
      some (record (forward (openat filename) t k) { table = u })

  -- SYS_close
  unfoldable pub hook_close : ℕ → Table → K → Outcome K
  unfolding forward
  hook_close fd t k =
      forward (close_call fd)
        (elim (t.hookfds fd) [
          | none ↦ t
          | some hookfd ↦ record t { hookfds = update t.hookfds fd none; fs = close t.fs hookfd }
        ])
        k

  -- What a transfer of `count` bytes returns; `cur_pos` is the table's afterwards.
  abbrev pub transferred : ℕ → (ℕ → ℕ) → Table → K → List Batch × Fs → Outcome K
  transferred count cur_pos t k r = record {
    ret = value count;
    table = record t { cur_pos = cur_pos; fs = r.1 };
    kernel = k;
    requests = r.0;
    stat = none;
  }

  -- `cur_pos[fd] += count`
  abbrev pub advance : Table → ℕ → ℕ → ℕ → ℕ
  advance t fd count = update t.cur_pos fd (t.cur_pos fd + count)

  -- SYS_read, 17, SYS_write and 18; `none` is a failed assertion of the transfer.
  unfoldable pub hook_read : ℕ → ℕ → Table → K → Option (Outcome K)
  unfolding forward
  hook_read fd count t k = elim (t.hookfds fd) [
    | none ↦ some (forward (read fd count) t k)
    | some hookfd ↦ read_impl read_deg t.fs hookfd count (t.cur_pos fd) >>= λ r.
        some (transferred count (advance t fd count) t k r)
  ]

  unfoldable pub hook_pread64 : ℕ → ℕ → ℕ → Table → K → Option (Outcome K)
  unfolding forward
  hook_pread64 fd count pos t k = elim (t.hookfds fd) [
    | none ↦ some (forward (pread64 fd count pos) t k)
    | some hookfd ↦
        read_impl read_deg t.fs hookfd count pos >>= λ r. some (transferred count t.cur_pos t k r)
  ]

  unfoldable pub hook_write : ℕ → ℕ → Table → K → Option (Outcome K)
  unfolding forward
  hook_write fd len t k = elim (t.hookfds fd) [
    | none ↦ some (forward (write fd len) t k)
    | some hookfd ↦ write_impl write_deg t.fs hookfd len (t.cur_pos fd) >>= λ r.
        some (transferred len (advance t fd len) t k r)
  ]

  unfoldable pub hook_pwrite64 : ℕ → ℕ → ℕ → Table → K → Option (Outcome K)
  unfolding forward
  hook_pwrite64 fd len pos t k = elim (t.hookfds fd) [
    | none ↦ some (forward (pwrite64 fd len pos) t k)
    | some hookfd ↦
        write_impl write_deg t.fs hookfd len pos >>= λ r. some (transferred len t.cur_pos t k r)
  ]

  -- 262
  unfoldable pub hook_newfstatat : ℕ → Table → K → Outcome K
  unfolding forward
  hook_newfstatat fd t k = elim (t.hookfds fd) [
    | none ↦ forward (newfstatat fd) t k
    | some hookfd ↦ record {
      ret = value 0;
      table = t;
      kernel = k;
      requests = [];
      stat = some (record {
        st_size = get_size t.fs hookfd;
        st_blocks = 512;
        st_blksize = get_size t.fs hookfd / 512;
      });
    }
  ]

  -- 87
  unfoldable pub hook_unlink : CString → Table → K → Outcome K
  unfolding forward
  hook_unlink pathname t k =
      forward (unlink_call pathname) (record t { fs = unlink t.fs pathname }) k

  -- The `switch` of `hook_function`.
  unfoldable pub dispatch : Call → Table → K → Option (Outcome K)
  unfolding hook_openat hook_close hook_read hook_pread64 hook_write hook_pwrite64 hook_newfstatat
      hook_unlink
  dispatch (openat filename) t k = hook_openat filename t k
  dispatch (close_call fd) t k = some (hook_close fd t k)
  dispatch (read fd count) t k = hook_read fd count t k
  dispatch (pread64 fd count pos) t k = hook_pread64 fd count pos t k
  dispatch (write fd len) t k = hook_write fd len t k
  dispatch (pwrite64 fd len pos) t k = hook_pwrite64 fd len pos t k
  dispatch (newfstatat fd) t k = some (hook_newfstatat fd t k)
  dispatch (unlink_call pathname) t k = some (hook_unlink pathname t k)
  dispatch (other a1) t k = some (forward (other a1) t k)

  -- `hook_function`: a thread that is none of the library's goes to the kernel.
  unfoldable pub hook_function : Bool → Call → Table → K → Option (Outcome K)
  unfolding dispatch
  hook_function is_ult c t k = if is_ult then dispatch c t k else some (forward c t k)
