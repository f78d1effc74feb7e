-- ===== src/Hook/Dispatch.antt =====
-- What `hook_function` of mylib/hook.c leaves to the kernel, and how reads and writes move the position.
use staut.Prelude.{◌≡◌, ◌≢◌, false, none}
use staut.Fs.State.{max_files}
use staut.Fs.Lookup.{NoMatch}
use staut.Hook.Names.{Hooked, is_hooked_filename}
use staut.Hook.Calls.{
  Call, openat, close_call, read, pread64, write, pwrite64, newfstatat, unlink_call, other, Table,
}

-- The call is for a descriptor or a name that is not hooked, and not one of futex, clock_nanosleep, select
-- and epoll_pwait2.
abbrev pub IsForeign : Hooked → Table → Call → Type 0
IsForeign h t (openat filename) = is_hooked_filename h filename ≡ false
IsForeign h t (close_call fd) = t.hookfds fd ≡ none
IsForeign h t (read fd count) = t.hookfds fd ≡ none
IsForeign h t (pread64 fd count pos) = t.hookfds fd ≡ none
IsForeign h t (write fd len) = t.hookfds fd ≡ none
IsForeign h t (pwrite64 fd len pos) = t.hookfds fd ≡ none
IsForeign h t (newfstatat fd) = t.hookfds fd ≡ none
IsForeign h t (unlink_call pathname) = NoMatch pathname t.fs max_files
IsForeign h t (other a1) = (a1 ≢ 202) × (a1 ≢ 230) × (a1 ≢ 270) × (a1 ≢ 441)
