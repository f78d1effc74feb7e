-- ===== src/Transfer/Write.antt =====
-- What the loops of `write_impl` in mylib/hook.c issue and await.
use staut.Prelude.{
  ℕ, zero, suc, ◌+◌, ◌-◌, ◌/◌, ◌%◌, ◌≤◌, ◌<◌, ◌≡◌, refl, arith, true, some, List, [], ◌∷◌, min, ◌∙◌,
  subst, dec_lt, length, ==_iff, ◌^◌, lt→ltb, ltb-false, leb-false, le→leb,
}
use staut.Fs.State.{Fs, File, block_size, max_files, max_blocks_per_file, at, only_opened}
use staut.Fs.Ops.{lba_of, get_lba, block_lba, increment_ref, decrement_ref}
use staut.Fs.References.{decrement_ref-counted}
use staut.Fs.Addresses.{get_lba_inside, ensure_block-at}
use staut.Transfer.Request.{Request, Batch, request_at, write_blksz, issued, awaited_in}
use staut.Transfer.Impl.{write_batch, write_loop, write_impl}
use staut.Transfer.Shape.{
  Fits, UnitSize, UnitSize-pos, Fits-next, Fits-first, write_blksz-UnitSize, request_at-IsSound,
  Covers, Covers-append, requests_of, All, All-append, Sound, IsSound,
}
use staut.Transfer.Read.{IsMapped, increment_ref-opened}

pub get_lba-mapped :
    (s : Fs) (fd offset b : ℕ)
    → fd < max_files
    → offset / block_size < max_blocks_per_file
    → (s.file fd).block (offset / block_size) ≡ at b
    → get_lba s fd offset true ≡ (some (lba_of b offset), s)
unfolding block_lba
get_lba-mapped s fd offset b hf hj e =
    rw (get_lba_inside s fd offset true hf hj, ensure_block-at s fd (offset / block_size) true e, e)

module _ (s : Fs) (fd pos len blksz : ℕ) (u : UnitSize len pos blksz) (fd_in : fd < max_files)
    (mapped : IsMapped (s.file fd).block pos len) where
  record WritesBatch (n j : ℕ) : Type 0 where
    requests : List Request
    rq_k : ℕ
    next : ℕ
    answers :
        write_batch fd pos len blksz n s j
        ≡ some (record { requests = requests; rq_k = rq_k; next = next; fs = s })
    sound : All (Sound (s.file fd).block pos len) requests
    covers : Covers j requests (min next len)
    fits : next < len → Fits pos blksz next
    progress : j + min n 1 ≤ next
    open_end : next < len → rq_k ≡ length requests
    broke : len ≤ next → rq_k + 1 ≡ length requests

  writes_batch : (n j : ℕ) → j < len → Fits pos blksz j → WritesBatch n j
  unfolding write_batch
  writes_batch zero j h f = record {
    requests = [];
    rq_k = 0;
    next = j;
    answers = refl;
    sound = tt;
    covers = omega arith;
    fits = λ _. f;
    progress = omega arith;
    open_end = λ _. refl;
    broke = λ p. absurd (omega arith);
  }
  writes_batch (suc n) j h f = elim (dec_lt (j + blksz) len) [
    | no p ↦ record {
      requests = request_at (lba_of b (pos + j)) len blksz j ∷ [];
      rq_k = 0;
      next = j + blksz;
      answers =
          rw (get_lba-mapped s fd (pos + j) b fd_in slot e, le→leb len (j + blksz) (omega arith));
      sound = ((b, e, first), tt);
      covers = (refl, omega arith);
      fits = λ q. absurd (omega arith);
      progress = omega (arith, UnitSize-pos len pos blksz j u h);
      open_end = λ q. absurd (omega arith);
      broke = λ _. refl;
    }
    | yes p ↦
        let rest = writes_batch n (j + blksz) p (Fits-next len pos blksz j u p f) in
        record {
          requests = request_at (lba_of b (pos + j)) len blksz j ∷ rest.requests;
          rq_k = rest.rq_k + 1;
          next = rest.next;
          answers = rw (
            get_lba-mapped s fd (pos + j) b fd_in slot e,
            leb-false len (j + blksz) p,
            rest.answers,
          );
          sound = ((b, e, first), rest.sound);
          covers = (
            refl,
            subst (λ i. Covers i rest.requests (min rest.next len)) (omega arith) rest.covers,
          );
          fits = rest.fits;
          progress = omega (arith, rest.progress, UnitSize-pos len pos blksz j u h);
          open_end = λ q. omega (arith, rest.open_end q);
          broke = λ q. omega (arith, rest.broke q);
        }
  ]
    where
      slot : (pos + j) / block_size < max_blocks_per_file
      slot = (mapped j h).0

      b : ℕ
      b = (mapped j h).1

      e : (s.file fd).block ((pos + j) / block_size) ≡ at b
      e = (mapped j h).2

      first : IsSound pos len b (request_at (lba_of b (pos + j)) len blksz j)
      first = request_at-IsSound len pos blksz j b u h f

  record WritesAll (fuel deg j : ℕ) : Type 0 where
    batches : List Batch
    answers : write_loop fd pos len blksz fuel deg s j ≡ some (batches, s)
    sound : All (Sound (s.file fd).block pos len) (requests_of batches)
    covers : Covers j (requests_of batches) len
    one_open : awaited_in batches + 1 ≡ issued batches

  writes_end : (fuel deg j : ℕ) → len ≤ j → write_loop fd pos len blksz fuel deg s j ≡ some ([], s)
  unfolding write_loop
  writes_end zero deg j h = rw (ltb-false j len h)
  writes_end (suc fuel) deg j h = rw (ltb-false j len h)

  writes_all :
      (fuel deg j : ℕ)
      → 0 < deg
      → len ≤ j + fuel
      → j < len
      → Fits pos blksz j
      → WritesAll fuel deg j
  unfolding write_loop issued awaited_in
  writes_all zero deg j d h p f = absurd (omega arith)
  writes_all (suc fuel) deg j d h p f = elim (dec_lt batch.next len) [
    | no q ↦ record {
      batches = here ∷ [];
      answers = rw (lt→ltb j len p, batch.answers, writes_end fuel deg batch.next (omega arith));
      sound = All-append _ batch.requests [] batch.sound tt;
      covers = Covers-append _ _ _ batch.requests [] batch.covers (omega arith);
      one_open = omega (arith, batch.broke (omega arith));
    }
    | yes q ↦
        let rest =
          writes_all fuel deg batch.next d (omega (arith, batch.progress)) q (batch.fits q) in
        record {
          batches = here ∷ rest.batches;
          answers = rw (lt→ltb j len p, batch.answers, rest.answers);
          sound = All-append _ batch.requests _ batch.sound rest.sound;
          covers =
              Covers-append _ _ _ batch.requests _ batch.covers
                (subst (λ k. Covers k (requests_of rest.batches) len) (omega arith) rest.covers);
          one_open = omega (arith, rest.one_open, batch.open_end q);
        }
  ]
    where
      batch : WritesBatch deg j
      batch = writes_batch deg j p f

      here : Batch
      here = record { requests = batch.requests; awaited = batch.rq_k }

writes_mapped :
    (deg : ℕ) (t : Fs) (fd len pos : ℕ)
    → 0 < deg
    → 0 < len
    → pos % 512 ≡ 0
    → fd < max_files
    → IsMapped (t.file fd).block pos len
    → (bs : List Batch) × (write_loop fd pos len (write_blksz len pos) len deg t 0 ≡ some (bs, t))
      × All (Sound (t.file fd).block pos len) (requests_of bs)
      × Covers 0 (requests_of bs) len
      × (awaited_in bs + 1 ≡ issued bs)
writes_mapped deg t fd len pos d h aligned fd_in mapped =
    (all.batches, all.answers, all.sound, all.covers, all.one_open)
  where
    u : UnitSize len pos (write_blksz len pos)
    u = write_blksz-UnitSize len pos

    all : WritesAll t fd pos len (write_blksz len pos) u fd_in mapped len deg 0
    all =
        writes_all t fd pos len (write_blksz len pos) u fd_in mapped len deg 0 d (omega arith) h
          (Fits-first len pos (write_blksz len pos) aligned u)

write_impl_of_loop :
    (deg : ℕ) (s : Fs) (fd len pos : ℕ) (bs : List Batch)
    → pos % 512 ≡ 0
    → pos + len < 2 ^ 63
    → len + 4096 < 2 ^ 31
    → let t = (increment_ref s fd).1 in
      write_loop fd pos len (write_blksz len pos) len deg t 0 ≡ some (bs, t)
      → write_impl deg s fd len pos ≡ some (bs, decrement_ref t fd)
unfolding write_impl
write_impl_of_loop deg s fd len pos bs aligned pos_in n_in e = rw (
  lt→ltb (len + 4096) (2 ^ 31) n_in,
  lt→ltb (pos + len) (2 ^ 63) pos_in,
  (==_iff (pos % 512) 0).1 aligned,
  e,
)

-- `write_impl` of an opened file at a sector boundary, over blocks that are allocated, answers: its
-- requests cover the range in order and without gaps, and each lies within one 4096-byte unit of the
-- device and one block of the file. All but one of them are awaited. The file table and the reference
-- count are left as they were. The descriptor is that of an entry of the table, and the length is below
-- 2 ^ 31 - 4096, so that the `int` of the loop holds the offset.
pub write_impl-overwrites :
    (deg : ℕ) (s : Fs) (fd len pos : ℕ)
    → 0 < deg
    → 0 < len
    → pos % 512 ≡ 0
    → fd < max_files
    → len + 4096 < 2 ^ 31
    → only_opened (s.states fd).flags ≡ true
    → (s.states fd).ref_count + 1 < 2 ^ 16
    → IsMapped (s.file fd).block pos len
    → (bs : List Batch) × (t : Fs) × (write_impl deg s fd len pos ≡ some (bs, t))
      × All (Sound (s.file fd).block pos len) (requests_of bs)
      × Covers 0 (requests_of bs) len
      × (awaited_in bs + 1 ≡ issued bs)
      × (t.file ≡ s.file)
      × ((t.states fd).ref_count ≡ (s.states fd).ref_count)
write_impl-overwrites deg s fd len pos d h aligned fd_in n_in o small mapped =
    let pos_in : pos + len < 2 ^ 63 =
      omega (arith, (mapped (len - 1) (omega (arith, h))).0, n_in) in
    let t = (increment_ref s fd).1 in
    let (e, c) = increment_ref-opened s fd o small in
    let mapped' : IsMapped (t.file fd).block pos len = rw e mapped in
    let (bs, answers, sound, covers, one_open) =
      writes_mapped deg t fd len pos d h aligned fd_in mapped' in
    let (f, c', _) = decrement_ref-counted t fd (omega arith) (omega arith) in
    (
      bs,
      decrement_ref t fd,
      write_impl_of_loop deg s fd len pos bs aligned pos_in n_in answers,
      subst (λ (file : ℕ → File). All (Sound (file fd).block pos len) (requests_of bs)) e sound,
      covers,
      one_open,
      f ∙ e,
      omega arith,
    )
