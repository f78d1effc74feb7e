-- ===== src/Fs/Open.antt =====
-- `myfs_open` of mylib/myfs.c.
use staut.Prelude.{
  ℕ, zero, suc, ◌+◌, length, ltb, Bool, true, false, if◌then◌else◌, [], ◌∷◌, Option, none, some,
  CString,
}
use staut.Fs.State.{Fs, Flags, max_files}
use staut.Fs.Ops.{name_matches, set_file, set_state}

-- How the loop ends: at a matching entry, or behind the last with `empty_i`.
pub data Scan : Type 0 where
  found : ℕ → Scan
  missing : Option ℕ → Scan

-- `name[0] == '\0'`
unfoldable pub is_empty : CString → Bool
is_empty [] = true
is_empty (c ∷ cs) = false

-- The update of `empty_i`.
unfoldable pub note_empty : Option ℕ → Bool → ℕ → Option ℕ
note_empty (some e) free i = some e
note_empty none free i = if free then some i else none

-- The loop: `n` rounds are left, from index `i` on.
unfoldable pub open_scan : ℕ → ℕ → Fs → CString → Option ℕ → Scan
unfolding is_empty note_empty
open_scan zero i s filename empty = missing empty
open_scan (suc n) i s filename empty =
    let rest = open_scan n (i + 1) s filename (note_empty empty (is_empty (s.file i).name) i) in
    if name_matches filename s i then found i else rest

abbrev pub opened_flags : Flags
opened_flags = record { opened = true; unlinked = false }

-- `myfs_file_states[i].flags = MYFS_FILE_OPENED`
abbrev pub set_opened : Fs → ℕ → Fs
set_opened s i = set_state s i (record (s.states i) { flags = opened_flags })

-- The size of `name` in `file_t`.
abbrev pub name_size : ℕ
name_size = 1024

-- The entry that a new file gets: its name, which fits in `name` with its end, and no blocks.
abbrev pub create : Fs → ℕ → CString → Fs
create s e filename = set_file s e (record (s.file e) { name = filename; n_block = 0 })

-- `none` is the write to `file[-1]`, which the source does with a full table, and the copy of a name
-- that does not fit in `name`.
unfoldable pub open_at : Fs → CString → Scan → Option (ℕ × Fs)
open_at s filename (found i) = some (i, set_opened s i)
open_at s filename (missing none) = none
open_at s filename (missing (some e)) =
    if ltb (length filename) name_size then some (e, set_opened (create s e filename) e) else none

-- `myfs_open`
unfoldable pub open_file : Fs → CString → Option (ℕ × Fs)
unfolding open_scan open_at
open_file s filename = open_at s filename (open_scan max_files 0 s filename none)
