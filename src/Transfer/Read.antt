-- ===== src/Transfer/Read.antt =====
-- What the loops of `read_impl` in mylib/hook.c issue and await.
use staut.Prelude.{
  ℕ, zero, suc, ◌+◌, ◌-◌, ◌*◌, ◌/◌, ◌%◌, ◌≤◌, ◌<◌, ◌≡◌, refl, arith, true, false, some, List, [],
  sym, ◌∷◌, min, ◌∙◌, subst, ap, dec_lt, le→leb, leb-false, ltb-false, lt→ltb, ◌^◌, length, ==_iff,
}
use staut.Fs.State.{
  Fs, File, Block, block_size, max_files, max_blocks_per_file, at, get_size, only_opened,
}
use staut.Fs.Addresses.{get_lba_inside}
use staut.Fs.Ops.{lba_of, get_lba, ensure_block, block_lba, increment_ref, decrement_ref}
use staut.Fs.References.{decrement_ref-counted}
use staut.Transfer.Request.{Request, Batch, request_at, read_blksz, issued, awaited_in}
use staut.Transfer.Impl.{read_batch, read_loop, read_impl, clip}
use staut.Transfer.Shape.{
  Fits, UnitSize, UnitSize-pos, Fits-next, Fits-first, read_blksz-UnitSize, request_at-IsSound,
  Covers, Covers-append, requests_of, All, All-append, Sound,
}

-- Every byte of the range lies in a block of the file, in a slot of its table of blocks.
abbrev pub IsMapped : (ℕ → Block) → ℕ → ℕ → Type 0
IsMapped block pos len =
    (k : ℕ)
    → k < len
    → ((pos + k) / block_size < max_blocks_per_file)
      × (b : ℕ) × (block ((pos + k) / block_size) ≡ at b)

get_lba-read :
    (s : Fs) (fd offset b : ℕ)
    → fd < max_files
    → offset / block_size < max_blocks_per_file
    → (s.file fd).block (offset / block_size) ≡ at b
    → (get_lba s fd offset false).0 ≡ some (lba_of b offset)
unfolding ensure_block block_lba
get_lba-read s fd offset b hf hj e = rw (get_lba_inside s fd offset false hf hj, e)

module _ (s : Fs) (fd pos len blksz : ℕ) (u : UnitSize len pos blksz) (fd_in : fd < max_files)
    (mapped : IsMapped (s.file fd).block pos len) where
  record ReadsBatch (n j : ℕ) : Type 0 where
    requests : List Request
    next : ℕ
    answers : read_batch fd pos len blksz n s j ≡ some (requests, next)
    sound : All (Sound (s.file fd).block pos len) requests
    covers : Covers (min j len) requests (min next len)
    fits : next < len → Fits pos blksz next
    progress : j + min n (len - j) ≤ next

  reads_batch : (n j : ℕ) → (j < len → Fits pos blksz j) → ReadsBatch n j
  unfolding read_batch
  reads_batch zero j f = record {
    requests = [];
    next = j;
    answers = refl;
    sound = tt;
    covers = refl;
    fits = f;
    progress = omega arith;
  }
  reads_batch (suc n) j f = elim (dec_lt j len) [
    | no p ↦ record {
      requests = [];
      next = j;
      answers = rw (le→leb len j (omega arith));
      sound = tt;
      covers = refl;
      fits = f;
      progress = omega arith;
    }
    | yes p ↦
        let (slot, b, e) = mapped j p in
        let rest = reads_batch n (j + blksz) (λ h. Fits-next len pos blksz j u h (f p)) in
        record {
          requests = request_at (lba_of b (pos + j)) len blksz j ∷ rest.requests;
          next = rest.next;
          answers =
              rw (leb-false len j p, get_lba-read s fd (pos + j) b fd_in slot e, rest.answers);
          sound = ((b, e, request_at-IsSound len pos blksz j b u p (f p)), rest.sound);
          covers = (
            omega arith,
            subst (λ i. Covers i rest.requests (min rest.next len)) (omega arith) rest.covers,
          );
          fits = rest.fits;
          progress = omega (arith, rest.progress, UnitSize-pos len pos blksz j u p);
        }
  ]

  record ReadsAll (fuel deg j : ℕ) : Type 0 where
    batches : List Batch
    answers : read_loop fd pos len blksz fuel deg s j ≡ some batches
    sound : All (Sound (s.file fd).block pos len) (requests_of batches)
    covers : Covers (min j len) (requests_of batches) len
    awaited : awaited_in batches ≡ issued batches

  reads_all :
      (fuel deg j : ℕ)
      → 0 < deg
      → len ≤ j + fuel
      → (j < len → Fits pos blksz j)
      → ReadsAll fuel deg j
  unfolding read_loop issued awaited_in
  reads_all zero deg j d h f = record {
    batches = [];
    answers = rw (ltb-false j len (omega arith));
    sound = tt;
    covers = omega arith;
    awaited = refl;
  }
  reads_all (suc fuel) deg j d h f = elim (dec_lt j len) [
    | no p ↦ record {
      batches = [];
      answers = rw (ltb-false j len (omega arith));
      sound = tt;
      covers = omega arith;
      awaited = refl;
    }
    | yes p ↦
        let batch = reads_batch deg j f in
        let rest = reads_all fuel deg batch.next d (omega (arith, batch.progress)) batch.fits in
        record {
          batches =
              record { requests = batch.requests; awaited = length batch.requests } ∷ rest.batches;
          answers = rw (lt→ltb j len p, batch.answers, rest.answers);
          sound = All-append _ batch.requests _ batch.sound rest.sound;
          covers = Covers-append _ _ _ batch.requests _ batch.covers rest.covers;
          awaited = omega (arith, rest.awaited);
        }
  ]

-- A reference that is taken and dropped leaves file table and count as they were.
pub increment_ref-opened :
    (s : Fs) (fd : ℕ)
    → only_opened (s.states fd).flags ≡ true
    → (s.states fd).ref_count + 1 < 2 ^ 16
    → let t = (increment_ref s fd).1 in
      (t.file ≡ s.file) × ((t.states fd).ref_count ≡ (s.states fd).ref_count + 1)
unfolding increment_ref
increment_ref-opened s fd o h = (ground arith, ground arith)

read_impl_of_loop :
    (deg : ℕ) (s : Fs) (fd len pos : ℕ) (bs : List Batch)
    → pos % 512 ≡ 0
    → pos + len < 2 ^ 63
    → let t = (increment_ref s fd).1 in
      let n = clip (get_size t fd) pos len in
      n + 4096 < 2 ^ 31
      → read_loop fd pos n (read_blksz n pos) n deg t 0 ≡ some bs
      → read_impl deg s fd len pos ≡ some (bs, decrement_ref t fd)
unfolding read_impl
read_impl_of_loop deg s fd len pos bs aligned pos_in n_in e = rw (
  lt→ltb _ (2 ^ 31) n_in,
  lt→ltb (pos + len) (2 ^ 63) pos_in,
  (==_iff (pos % 512) 0).1 aligned,
  e,
)

-- The answer of a read of `n` bytes of a file with this block map.
abbrev pub ReadAnswer : (ℕ → Block) → ℕ → ℕ → List Batch → Type 0
ReadAnswer block pos n bs =
    All (Sound block pos n) (requests_of bs)
    × Covers 0 (requests_of bs) n
    × (awaited_in bs ≡ issued bs)

read_answers :
    (deg : ℕ) (t : Fs) (fd n pos : ℕ)
    → 0 < deg
    → pos % 512 ≡ 0
    → fd < max_files
    → IsMapped (t.file fd).block pos n
    → (bs : List Batch) × (read_loop fd pos n (read_blksz n pos) n deg t 0 ≡ some bs)
      × ReadAnswer (t.file fd).block pos n bs
read_answers deg t fd n pos d aligned fd_in mapped = (
  all.batches,
  all.answers,
  (
    all.sound,
    subst (λ k. Covers k (requests_of all.batches) n) (omega arith) all.covers,
    all.awaited,
  ),
)
  where
    u : UnitSize n pos (read_blksz n pos)
    u = read_blksz-UnitSize n pos

    all : ReadsAll t fd pos n (read_blksz n pos) u fd_in mapped n deg 0
    all =
        reads_all t fd pos n (read_blksz n pos) u fd_in mapped n deg 0 d (omega arith)
          (λ _. Fits-first n pos (read_blksz n pos) aligned u)

get_size-file : (s t : Fs) (fd : ℕ) → t.file ≡ s.file → get_size t fd ≡ get_size s fd
unfolding get_size
get_size-file s t fd e = ap (λ (file : ℕ → File). (file fd).n_block * block_size) e

-- `read_impl` of an opened file at a sector boundary, on a range whose blocks are allocated up to the
-- end of the file, answers: its requests cover the range up to the end of the file in order and without
-- gaps, each lies within one 4096-byte unit of the device and one block of the file, and all are
-- awaited. The file table and the reference count are left as they were. The descriptor is that of an entry
-- of the table, and less than 2 ^ 31 - 4096 bytes are read, so that the `int` of the loop holds the offset;
-- the end of the range fits a `loff_t`.
pub read_impl-reads :
    (deg : ℕ) (s : Fs) (fd len pos : ℕ)
    → 0 < deg
    → pos % 512 ≡ 0
    → fd < max_files
    → pos + len < 2 ^ 63
    → clip (get_size s fd) pos len + 4096 < 2 ^ 31
    → only_opened (s.states fd).flags ≡ true
    → (s.states fd).ref_count + 1 < 2 ^ 16
    → IsMapped (s.file fd).block pos (clip (get_size s fd) pos len)
    → (bs : List Batch) × (t : Fs) × (read_impl deg s fd len pos ≡ some (bs, t))
      × ReadAnswer (s.file fd).block pos (clip (get_size s fd) pos len) bs
      × (t.file ≡ s.file)
      × ((t.states fd).ref_count ≡ (s.states fd).ref_count)
read_impl-reads deg s fd len pos d aligned fd_in pos_in n_in o small mapped =
    let t = (increment_ref s fd).1 in
    let (e, c) = increment_ref-opened s fd o small in
    let size = get_size-file s t fd e in
    let mapped' : IsMapped (t.file fd).block pos (clip (get_size t fd) pos len) =
      rw (e, size) mapped in
    let (bs, answers, ok) = read_answers deg t fd _ pos d aligned fd_in mapped' in
    let (f, c', _) = decrement_ref-counted t fd (omega arith) (omega arith) in
    (
      bs,
      decrement_ref t fd,
      read_impl_of_loop deg s fd len pos bs aligned pos_in
          (subst (λ k. clip k pos len + 4096 < 2 ^ 31) (sym size) n_in) answers,
      subst (λ (file : ℕ → File). ReadAnswer (file fd).block pos (clip (get_size s fd) pos len) bs)
          e (subst (λ k. ReadAnswer (t.file fd).block pos (clip k pos len) bs) size ok),
      f ∙ e,
      omega arith,
    )
