-- ===== src/Transfer/Extend.antt =====
-- What the loops of `write_impl` in mylib/hook.c issue where the file grows.
use staut.Prelude.{
  ℕ, zero, suc, ◌+◌, ◌-◌, ◌/◌, ◌≤◌, ◌<◌, ◌≡◌, ◌≢◌, refl, sym, arith, some, List, [], ◌∷◌, min, ◌∙◌,
  subst, dec_lt, length, lt→ltb, ltb-false, leb-false, le→leb,
}
use staut.Fs.State.{Fs, block_size, max_files, max_blocks_per_file}
use staut.Fs.Ops.{lba_of}
use staut.Fs.Invariant.{IsValid}
use staut.Transfer.Request.{Request, Batch, request_at, issued, awaited_in}
use staut.Transfer.Impl.{write_batch, write_loop}
use staut.Transfer.Shape.{
  Fits, UnitSize, UnitSize-pos, Fits-next, request_at-IsSound, Covers, Covers-append, requests_of,
  All, All-append, Sound, IsSound,
}
use staut.Transfer.Grow.{Grown, Grown-refl, Grown-trans, IsReady, Looked, get_lba-Looked}

All-map :
    {A : Type 0} {P Q : A → Type 0} (xs : List A) → ((x : A) → P x → Q x) → All P xs → All Q xs
All-map [] f h = tt
All-map (x ∷ xs) f h = (f x h.0, All-map xs f h.1)

-- A request stays sound when the file grows.
Sound-Grown :
    (fd pos len : ℕ) {s t : Fs} (rs : List Request)
    → Grown fd s t
    → All (Sound (s.file fd).block pos len) rs
    → All (Sound (t.file fd).block pos len) rs
Sound-Grown fd pos len rs g h =
    All-map rs (λ r q. (q.0, g.kept ((pos + r.buf) / block_size) q.0 q.1, q.2)) h

module _ (fd pos len blksz : ℕ) (u : UnitSize len pos blksz) (fd_in : fd < max_files)
    (last_in : (pos + len - 1) / block_size < max_blocks_per_file) where
  abbrev last : ℕ
  last = (pos + len - 1) / block_size

  Looked-IsReady :
      (j : ℕ) (s : Fs)
      → (s.file fd).name ≢ []
      → Fits pos blksz j
      → (l : Looked fd last (pos + j) s) → IsReady fd last (pos + (j + blksz)) l.fs
  Looked-IsReady j s named f l = record {
    valid = l.valid;
    named = λ e. named (sym l.grown.name ∙ e);
    reach = omega (arith, l.beyond, f);
    room = l.room;
  }

  record ExtendsBatch (n j : ℕ) (s : Fs) : Type 0 where
    requests : List Request
    rq_k : ℕ
    next : ℕ
    fs : Fs
    answers :
        write_batch fd pos len blksz n s j
        ≡ some (record { requests = requests; rq_k = rq_k; next = next; fs = fs })
    grown : Grown fd s fs
    valid : IsValid fs
    sound : All (Sound (fs.file fd).block pos len) requests
    covers : Covers j requests (min next len)
    fits : next < len → Fits pos blksz next
    ready : next < len → IsReady fd last (pos + next) fs
    progress : j + min n 1 ≤ next
    open_end : next < len → rq_k ≡ length requests
    broke : len ≤ next → rq_k + 1 ≡ length requests
    beyond : len ≤ next → last + 1 ≤ (fs.file fd).n_block

  extends_batch :
      (n j : ℕ) (s : Fs)
      → j < len
      → Fits pos blksz j
      → IsReady fd last (pos + j) s
      → ExtendsBatch n j s
  unfolding write_batch
  extends_batch zero j s h f r = record {
    requests = [];
    rq_k = 0;
    next = j;
    fs = s;
    answers = refl;
    grown = Grown-refl fd s;
    valid = r.valid;
    sound = tt;
    covers = omega arith;
    fits = λ _. f;
    ready = λ _. r;
    progress = omega arith;
    open_end = λ _. refl;
    broke = λ p. absurd (omega arith);
    beyond = λ p. absurd (omega arith);
  }
  extends_batch (suc n) j s h f r = elim (dec_lt (j + blksz) len) [
    | no p ↦ record {
      requests = here ∷ [];
      rq_k = 0;
      next = j + blksz;
      fs = l.fs;
      answers = rw (l.answer, le→leb len (j + blksz) (omega arith)) refl;
      grown = l.grown;
      valid = l.valid;
      sound = ((l.b, l.mapped, first), tt);
      covers = (refl, omega arith);
      fits = λ q. absurd (omega arith);
      ready = λ q. absurd (omega arith);
      progress = omega (arith, UnitSize-pos len pos blksz j u h);
      open_end = λ q. absurd (omega arith);
      broke = λ _. refl;
      beyond = λ _. omega (arith, l.beyond, f, p);
    }
    | yes p ↦
        let rest =
          extends_batch n (j + blksz) l.fs p (Fits-next len pos blksz j u p f)
            (Looked-IsReady j s r.named f l) in
        record {
          requests = here ∷ rest.requests;
          rq_k = rest.rq_k + 1;
          next = rest.next;
          fs = rest.fs;
          answers = rw (l.answer, leb-false len (j + blksz) p, rest.answers) refl;
          grown = Grown-trans fd l.grown rest.grown;
          valid = rest.valid;
          sound = ((l.b, rest.grown.kept _ l.b l.mapped, first), rest.sound);
          covers = (
            refl,
            subst (λ i. Covers i rest.requests (min rest.next len)) (omega arith) rest.covers,
          );
          fits = rest.fits;
          ready = rest.ready;
          progress = omega (arith, rest.progress, UnitSize-pos len pos blksz j u h);
          open_end = λ q. omega (arith, rest.open_end q);
          broke = λ q. omega (arith, rest.broke q);
          beyond = rest.beyond;
        }
  ]
    where
      l : Looked fd last (pos + j) s
      l = get_lba-Looked fd last (pos + j) s fd_in last_in (omega (arith, h)) r

      here : Request
      here = request_at (lba_of l.b (pos + j)) len blksz j

      first : IsSound pos len l.b here
      first = request_at-IsSound len pos blksz j l.b u h f

  pub record ExtendsAll (fuel deg j : ℕ) (s : Fs) : Type 0 where
    pub batches : List Batch
    pub fs : Fs
    pub answers : write_loop fd pos len blksz fuel deg s j ≡ some (batches, fs)
    pub grown : Grown fd s fs
    pub valid : IsValid fs
    pub sound : All (Sound (fs.file fd).block pos len) (requests_of batches)
    pub covers : Covers j (requests_of batches) len
    pub one_open : awaited_in batches + 1 ≡ issued batches
    pub beyond : last + 1 ≤ (fs.file fd).n_block

  loop_end :
      (fuel deg j : ℕ) (s : Fs) → len ≤ j → write_loop fd pos len blksz fuel deg s j ≡ some ([], s)
  unfolding write_loop
  loop_end zero deg j s h = rw (ltb-false j len h) refl
  loop_end (suc fuel) deg j s h = rw (ltb-false j len h) refl

  pub extends_all :
      (fuel deg j : ℕ) (s : Fs)
      → 0 < deg
      → len ≤ j + fuel
      → j < len
      → Fits pos blksz j
      → IsReady fd last (pos + j) s
      → ExtendsAll fuel deg j s
  unfolding write_loop issued awaited_in
  extends_all zero deg j s d h p f r = absurd (omega arith)
  extends_all (suc fuel) deg j s d h p f r = elim (dec_lt batch.next len) [
    | no q ↦ record {
      batches = here ∷ [];
      fs = batch.fs;
      answers =
          rw (lt→ltb j len p, batch.answers, loop_end fuel deg batch.next batch.fs (omega arith))
            refl;
      grown = batch.grown;
      valid = batch.valid;
      sound = All-append _ batch.requests [] batch.sound tt;
      covers = Covers-append _ _ _ batch.requests [] batch.covers (omega arith);
      one_open = omega (arith, batch.broke (omega arith));
      beyond = batch.beyond (omega arith);
    }
    | yes q ↦
        let rest =
          extends_all fuel deg batch.next batch.fs d (omega (arith, batch.progress)) q
            (batch.fits q) (batch.ready q) in
        record {
          batches = here ∷ rest.batches;
          fs = rest.fs;
          answers = rw (lt→ltb j len p, batch.answers, rest.answers) refl;
          grown = Grown-trans fd batch.grown rest.grown;
          valid = rest.valid;
          sound =
              All-append _ batch.requests _
                (Sound-Grown fd pos len batch.requests rest.grown batch.sound) rest.sound;
          covers =
              Covers-append _ _ _ batch.requests _ batch.covers
                (subst (λ k. Covers k (requests_of rest.batches) len) (omega arith) rest.covers);
          one_open = omega (arith, rest.one_open, batch.open_end q);
          beyond = rest.beyond;
        }
  ]
    where
      batch : ExtendsBatch deg j s
      batch = extends_batch deg j s p f r

      here : Batch
      here = record { requests = batch.requests; awaited = batch.rq_k }
