-- ===== src/Fs/Removal.antt =====
-- What `myfs_unlink` of mylib/myfs.c does to each entry of the file table.
use staut.Prelude.{
  ℕ, zero, suc, ◌+◌, ◌<◌, ◌≡◌, refl, ◌≢◌, arith, [], true, false, CString, ◌⊎◌, strncmp_eq, length,
  if◌then◌else◌,
}
use staut.Fs.State.{Fs, File, FileState, inactive, no_flags, max_files}
use staut.Fs.Ops.{name_matches, try_unlink, unlink_scan, unlink}
use staut.Fs.Lookup.{NoMatch}

-- Entry `i` and its state are the same.
abbrev pub SameEntry : Fs → Fs → ℕ → Type 0
SameEntry s t i = (t.file i ≡ s.file i) × (t.states i ≡ s.states i)

-- An entry that has lost its name and its blocks: no slot that was counted has one. `f` is the entry
-- before, and `f'` and `e'` are the entry and its state behind.
abbrev pub Gone : File → File → FileState → Type 0
Gone f f' e' =
    (f'.name ≡ [])
    × (f'.n_block ≡ 0)
    × ((j : ℕ) → j < f.n_block → f'.block j ≡ inactive)
    × (e'.flags ≡ no_flags)
    × (e'.ref_count ≡ 0)

-- An entry that is unlinked, `f` and `e` before and `f'` and `e'` after: it loses its name and
-- its blocks if nobody refers to it, and is else only marked.
abbrev pub Unlinked : File → FileState → File → FileState → Type 0
Unlinked f e f' e' =
    ((e.ref_count ≡ 0) × Gone f f' e') ⊎ ((e.ref_count ≢ 0) × (f' ≡ f) × (e'.flags.unlinked ≡ true))

-- What unlinking a name does to an entry.
abbrev pub EntryOf : CString → File → FileState → File → FileState → Type 0
EntryOf filename f e f' e' =
    ((strncmp_eq filename f.name (length filename) ≡ false) × (f' ≡ f) × (e' ≡ e))
    ⊎ ((strncmp_eq filename f.name (length filename) ≡ true) × Unlinked f e f' e')

abbrev pub UnlinkOf : CString → Fs → Fs → ℕ → Type 0
UnlinkOf filename s t i = EntryOf filename (s.file i) (s.states i) (t.file i) (t.states i)

abbrev round : CString → Fs → ℕ → Fs
round filename s k = if name_matches filename s k then try_unlink s k else s

unlink_scan_without :
    (n k : ℕ) (s : Fs) (filename : CString)
    → ((i : ℕ) → i < k + n → name_matches filename s i ≡ false)
    → unlink_scan n k s filename ≡ s
unfolding unlink_scan
unlink_scan_without zero k s filename none_such = refl
unlink_scan_without (suc n) k s filename none_such =
    rw (none_such k (omega arith))
      (unlink_scan_without n (k + 1) s filename (λ i h. none_such i (omega arith)))

-- Without a matching entry nothing changes.
pub unlink_without :
    (s : Fs) (filename : CString) → NoMatch filename s max_files → unlink s filename ≡ s
unfolding unlink
unlink_without s filename none_such =
    unlink_scan_without max_files 0 s filename (λ i h. none_such i (omega arith))
