-- ===== src/Fs/Steps.antt =====
-- The operations of mylib/myfs.c as steps, in any order, and the invariant of all reachable
-- superblocks.
use staut.Prelude.{
  if_both, ℕ, zero, suc, ◌+◌, ◌/◌, ◌≤◌, ◌<◌, ◌≡◌, refl, ◌≢◌, arith, true, Bool, some, inl, inr, [],
  ◌∷◌, CString, subst,
}
use staut.Fs.State.{FileState, Fs, File, max_files, max_blocks_per_file, block_size, mount}
use staut.Fs.Ops.{
  get_lba, unlink, unlink_fd, unlink_scan, try_unlink, close, increment_ref, decrement_ref,
}
use staut.Fs.Open.{open_file, create, is_empty, opened_flags}
use staut.Fs.Count.{table_hits-update, blocks_in_use-update, occurrences}
use staut.Fs.Invariant.{IsValid, IsPacked, HasRoom, set_state-IsValid, IsPacked-update}
use staut.Fs.Unlink.{unlink_now-IsValid}
use staut.Fs.Mount.{IsBlank, mount-IsValid}
use staut.Fs.Lookup.{open_file-Opens}
use staut.Fs.Addresses.{get_lba_inside, ensure_block-IsValid}

name_of_is_empty : (name : CString) → is_empty name ≡ true → name ≡ []
unfolding is_empty
name_of_is_empty [] h = refl
name_of_is_empty (c ∷ cs) h = cc

created-IsPacked :
    (f : File) (filename : CString)
    → f.name ≡ []
    → IsPacked f
    → IsPacked (record f { name = filename; n_block = 0 })
created-IsPacked f filename e p = record {
  short = omega arith;
  live = λ j h. elim h [ ];
  rest = λ j _ h. p.rest j (omega (arith, p.unused e)) h;
  unused = λ _. refl;
}

create-IsValid :
    (s : Fs) (e : ℕ) (filename : CString)
    → e < max_files
    → (s.file e).name ≡ []
    → IsValid s
    → IsValid (create s e filename)
unfolding occurrences
create-IsValid s e filename h named v = record {
  rp_in = v.rp_in;
  wp_in = v.wp_in;
  once = λ b. omega (
    arith,
    v.once b,
    table_hits-update b s.file e (record (s.file e) { name = filename; n_block = 0 }) h,
  );
  accounted = omega (
    arith,
    v.accounted,
    (v.packed e h).unused named,
    blocks_in_use-update s.file e (record (s.file e) { name = filename; n_block = 0 }) h,
  );
  ring_live = v.ring_live;
  packed =
      IsPacked-update s e _ (λ k p _. v.packed k p)
        (created-IsPacked (s.file e) filename named (v.packed e h));
}

abbrev opened_state : Fs → ℕ → FileState
opened_state s i = record (s.states i) { flags = opened_flags }

-- Whatever entry `myfs_open` answers, the superblock stays well formed.
pub open_file-IsValid :
    (s t : Fs) (filename : CString) (i : ℕ)
    → open_file s filename ≡ some (i, t)
    → IsValid s
    → IsValid t
open_file-IsValid s t filename i e v = elim (open_file-Opens s filename) [
  | inl (j, _, _, _, r) ↦
      subst IsValid (ground (arith, e, r)) (set_state-IsValid s j (opened_state s j) v)
  | inr (inl (j, _, first, _, r)) ↦ subst IsValid (ground (arith, e, r)) (
      set_state-IsValid (create s j filename) j (opened_state s j)
        (create-IsValid s j filename first.0 (name_of_is_empty _ first.1) v))
  | inr (inr (_, _, r)) ↦ cc
]

-- Unlinking one entry, at once or later, keeps the superblock well formed.
pub try_unlink-IsValid : (s : Fs) (fd : ℕ) → fd < max_files → IsValid s → IsValid (try_unlink s fd)
unfolding try_unlink
try_unlink-IsValid s fd h v =
    if_both IsValid _ (unlink_now-IsValid _ fd h (set_state-IsValid s fd _ v))
      (set_state-IsValid s fd _ v)

unlink_scan-IsValid :
    (n i : ℕ) (s : Fs) (filename : CString)
    → i + n ≤ max_files
    → IsValid s
    → IsValid (unlink_scan n i s filename)
unfolding unlink_scan
unlink_scan-IsValid zero i s filename h v = v
unlink_scan-IsValid (suc n) i s filename h v =
    unlink_scan-IsValid n (i + 1) _ filename (omega arith)
      (if_both IsValid _ (try_unlink-IsValid s i (omega arith) v) v)

pub decrement_ref-IsValid :
    (s : Fs) (fd : ℕ) → fd < max_files → IsValid s → IsValid (decrement_ref s fd)
unfolding decrement_ref unlink_fd
decrement_ref-IsValid s fd h v =
    if_both IsValid _ (try_unlink-IsValid _ fd h (set_state-IsValid s fd _ v))
      (set_state-IsValid s fd _ v)

increment_ref-IsValid : (s : Fs) (fd : ℕ) → IsValid s → IsValid (increment_ref s fd).1
unfolding increment_ref
increment_ref-IsValid s fd v =
    if_both (λ (r : Bool × Fs). IsValid r.1) _ (set_state-IsValid s fd _ v) v

-- One operation. A lookup is for a named file, at an index below or at the end of its blocks, with a
-- free block left; descriptors are in range, and an opening answers.
pub data Step (s : Fs) : Fs → Type 0 where
  opens : (filename : CString) (i : ℕ) (t : Fs) → open_file s filename ≡ some (i, t) → Step s t
  looks_up :
      (i offset : ℕ) (write : Bool)
      → i < max_files
      → offset / block_size < max_blocks_per_file
      → (s.file i).name ≢ []
      → offset / block_size ≤ (s.file i).n_block
      → HasRoom s
      → Step s (get_lba s i offset write).1
  unlinks : (filename : CString) → Step s (unlink s filename)
  closes : (fd : ℕ) → fd < max_files → Step s (close s fd)
  increments : (fd : ℕ) → fd < max_files → Step s (increment_ref s fd).1
  decrements : (fd : ℕ) → fd < max_files → Step s (decrement_ref s fd)

pub data Reach (s : Fs) : Fs → Type 0 where
  here : Reach s s
  next : {t u : Fs} → Reach s t → Step t u → Reach s u

-- Every operation keeps the superblock well formed: each block number is in exactly one place, the
-- free ring or one slot of one file. A lookup is for a named file, at an index below or at the end of its
-- blocks, with a free block left; a descriptor is that of an entry of the table; an opening answers, so a name that it stores
-- fits in an entry.
pub Step-IsValid : {s t : Fs} → Step s t → IsValid s → IsValid t
unfolding unlink close
Step-IsValid {s} (opens filename i t e) v = open_file-IsValid s t filename i e v
Step-IsValid {s} (looks_up i offset write hi hj named le room) v =
    rw (get_lba_inside s i offset write hi hj)
      (ensure_block-IsValid s i (offset / block_size) write hi hj named le room v)
Step-IsValid {s} (unlinks filename) v = unlink_scan-IsValid max_files 0 s filename (omega arith) v
Step-IsValid {s} (closes fd _) v = set_state-IsValid s fd _ v
Step-IsValid {s} (increments fd _) v = increment_ref-IsValid s fd v
Step-IsValid {s} (decrements fd h) v = decrement_ref-IsValid s fd h v

Reach-IsValid : {s t : Fs} → Reach s t → IsValid s → IsValid t
Reach-IsValid here v = v
Reach-IsValid (next r st) v = Step-IsValid st (Reach-IsValid r v)

-- From the mount of a zeroed superblock file on, after any sequence of operations, the superblock is
-- well formed: each block number below NUM_BLOCKS - 1 is in exactly one place, the free ring or one
-- slot of one file, and none other is in use. The lookups of the sequence are for named files, at an
-- index below or at the end of the file's blocks, with a free block left; descriptors are
-- those of entries of the table; openings answer, so a name that one stores fits in an entry.
pub mounted-IsValid : (s t : Fs) → IsBlank s → Reach (mount s) t → IsValid t
mounted-IsValid s t blank r = Reach-IsValid r (mount-IsValid s (inl blank))
