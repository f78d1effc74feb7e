-- ===== src/Hook/Position.antt =====
-- read(2) and write(2) of a hooked file against pread64(2) and pwrite64(2), in mylib/hook.c.
use staut.Prelude.{
  ℕ, ◌+◌, ◌≡◌, refl, ap, ◌∙◌, sym, arith, Option, some, none, List, [], ◌∷◌, ◌++◌, update,
  update_self, update_ne, ◌≢◌, ◌>>=◌, >>=-eq-some, inl, inr, Option-cases,
}
use staut.Fs.State.{Fs}
use staut.Transfer.Request.{Batch}
use staut.Transfer.Impl.{read_impl, write_impl}
use staut.Hook.Names.{Hooked}
use staut.Hook.Calls.{
  Ret, value, Call, Table, Outcome, hook_read, hook_pread64, hook_write, hook_pwrite64,
}

-- A read, or a write, of so many bytes.
pub data Io : Type 0 where
  gets : (count : ℕ) → Io
  puts : (count : ℕ) → Io

abbrev pub count_of : Io → ℕ
count_of (gets count) = count
count_of (puts count) = count

abbrev pub bytes : List Io → ℕ
bytes [] = 0
bytes (io ∷ ios) = count_of io + bytes ios

module _ {K : Type 0} (next_sys_call : Call → K → Ret × K) (hooked : Hooked)
    (read_deg write_deg fd : ℕ) where
  abbrev transfer : Io → ℕ → Fs → ℕ → Option (List Batch × Fs)
  transfer (gets count) hookfd s pos = read_impl read_deg s hookfd count pos
  transfer (puts count) hookfd s pos = write_impl write_deg s hookfd count pos

  abbrev pub at_cursor : Io → Table → K → Option (Outcome K)
  at_cursor (gets count) t k = hook_read next_sys_call hooked read_deg write_deg fd count t k
  at_cursor (puts count) t k = hook_write next_sys_call hooked read_deg write_deg fd count t k

  abbrev pub at_offset : Io → ℕ → Table → K → Option (Outcome K)
  at_offset (gets count) pos t k =
      hook_pread64 next_sys_call hooked read_deg write_deg fd count pos t k
  at_offset (puts count) pos t k =
      hook_pwrite64 next_sys_call hooked read_deg write_deg fd count pos t k

  -- Transfers at the descriptor's position, one after the other: all requests, and the table after.
  abbrev pub sequential : List Io → Table → K → Option (List Batch × Table)
  sequential [] t k = some ([], t)
  sequential (io ∷ ios) t k = at_cursor io t k >>= λ o.
      sequential ios o.table o.kernel >>= λ r. some (o.requests ++ r.0, r.1)

  -- The same transfers at the offset `pos` and those behind it.
  abbrev pub positioned : List Io → ℕ → Table → K → Option (List Batch × Table)
  positioned [] pos t k = some ([], t)
  positioned (io ∷ ios) pos t k = at_offset io pos t k >>= λ o.
      positioned ios (pos + count_of io) o.table o.kernel >>= λ r. some (o.requests ++ r.0, r.1)

  abbrev with_cursor : Table → (ℕ → ℕ) → Table
  with_cursor t cur_pos = record t { cur_pos = cur_pos }

  abbrev moved : (ℕ → ℕ) → ℕ → ℕ → ℕ
  moved cur_pos count = update cur_pos fd (cur_pos fd + count)

  abbrev answer : Io → (ℕ → ℕ) → Table → K → List Batch × Fs → Outcome K
  answer io cur_pos t k r = record {
    ret = value (count_of io);
    table = record t { cur_pos = cur_pos; fs = r.1 };
    kernel = k;
    requests = r.0;
    stat = none;
  }

  at_offset-transfer :
      (io : Io) (t : Table) (pos : ℕ) (k : K) (hookfd : ℕ)
      → t.hookfds fd ≡ some hookfd
      → at_offset io pos t k
        ≡ (transfer io hookfd t.fs pos >>= λ r. some (answer io t.cur_pos t k r))
  unfolding hook_pread64 hook_pwrite64
  at_offset-transfer (gets n) t pos k hookfd h = rw (h, hook_pread64) refl
  at_offset-transfer (puts n) t pos k hookfd h = rw (h, hook_pwrite64) refl

  at_cursor-transfer :
      (io : Io) (t : Table) (k : K) (hookfd : ℕ)
      → t.hookfds fd ≡ some hookfd
      → at_cursor io t k ≡ (
          transfer io hookfd t.fs (t.cur_pos fd) >>= λ r.
          some (answer io (moved t.cur_pos (count_of io)) t k r))
  unfolding hook_read hook_write
  at_cursor-transfer (gets n) t k hookfd h = rw (h, hook_read) refl
  at_cursor-transfer (puts n) t k hookfd h = rw (h, hook_write) refl

  positioned-cons :
      (io : Io) (ios : List Io) (t : Table) (pos : ℕ) (k : K) (hookfd : ℕ)
      → t.hookfds fd ≡ some hookfd
      → positioned (io ∷ ios) pos t k ≡ (
          transfer io hookfd t.fs pos >>= λ r.
          positioned ios (pos + count_of io) (record t { fs = r.1 }) k >>= λ q.
          some (r.0 ++ q.0, q.1))
  positioned-cons io ios t pos k hookfd h = elim (Option-cases (transfer io hookfd t.fs pos)) [
    | inl e ↦ rw (at_offset-transfer io t pos k hookfd h, e) refl
    | inr (r, e) ↦ rw (at_offset-transfer io t pos k hookfd h, e) refl
  ]

  sequential-cons :
      (io : Io) (ios : List Io) (t : Table) (k : K) (hookfd : ℕ)
      → t.hookfds fd ≡ some hookfd
      → sequential (io ∷ ios) t k ≡ (
          transfer io hookfd t.fs (t.cur_pos fd) >>= λ r.
          sequential ios (record t { cur_pos = moved t.cur_pos (count_of io); fs = r.1 }) k >>= λ q.
          some (r.0 ++ q.0, q.1))
  sequential-cons io ios t k hookfd h =
      elim (Option-cases (transfer io hookfd t.fs (t.cur_pos fd))) [
        | inl e ↦ rw (at_cursor-transfer io t k hookfd h, e) refl
        | inr (r, e) ↦ rw (at_cursor-transfer io t k hookfd h, e) refl
      ]

  abbrev set_cursor : (ℕ → ℕ) → Option (List Batch × Table) → Option (List Batch × Table)
  set_cursor cursor o = o >>= λ z. some (z.0, with_cursor z.1 cursor)

  -- What the transfers at the descriptor's position answer, given the answer of the others.
  record Follows (ios : List Io) (t : Table) (cur_pos : ℕ → ℕ) (k : K) (bs : List Batch) (u : Table)
      : Type 0 where
    cursor : ℕ → ℕ
    answers : sequential ios (with_cursor t cur_pos) k ≡ some (bs, with_cursor u cursor)
    at_end : cursor fd ≡ cur_pos fd + bytes ios
    others : (other : ℕ) → other ≢ fd → cursor other ≡ cur_pos other

  Follows-cons :
      (io : Io) (ios : List Io) (t u : Table) (cur_pos : ℕ → ℕ) (k : K) (hookfd : ℕ)
      (bs bs' : List Batch) (r : List Batch × Fs) (v : Table)
      → t.hookfds fd ≡ some hookfd
      → transfer io hookfd t.fs (cur_pos fd) ≡ some r
      → (◌≡◌ {A = Option (List Batch × Table)} (some (r.0 ++ bs', v)) (some (bs, u)))
      → Follows ios (record t { fs = r.1 }) (moved cur_pos (count_of io)) k bs' v
      → Follows (io ∷ ios) t cur_pos k bs u
  Follows-cons io ios t u cur_pos k hookfd bs bs' r v h e same rest = record {
    cursor = rest.cursor;
    answers =
        sequential-cons io ios (with_cursor t cur_pos) k hookfd h
        ∙ rw (e, rest.answers) (ap (set_cursor rest.cursor) same);
    at_end = omega (arith, rest.at_end, update_self cur_pos fd (cur_pos fd + count_of io));
    others = λ other ne.
        rest.others other ne
        ∙ update_ne cur_pos fd (cur_pos fd + count_of io) other (λ e. ne (sym e));
  }

  follows :
      (ios : List Io) (t : Table) (cur_pos : ℕ → ℕ) (k : K) (hookfd : ℕ) (bs : List Batch)
      (u : Table)
      → t.hookfds fd ≡ some hookfd
      → positioned ios (cur_pos fd) t k ≡ some (bs, u)
      → Follows ios t cur_pos k bs u
  follows [] t cur_pos k hookfd bs u h e = record {
    cursor = cur_pos;
    answers = ap (set_cursor cur_pos) e;
    at_end = omega arith;
    others = λ other ne. refl;
  }
  follows (io ∷ ios) t cur_pos k hookfd bs u h e =
      let n = count_of io in
      let (r, e1, e2) =
        >>=-eq-some (transfer io hookfd t.fs (cur_pos fd)) _
          (sym (positioned-cons io ios t (cur_pos fd) k hookfd h) ∙ e) in
      let (q, e3, e4) =
        >>=-eq-some (positioned ios (cur_pos fd + n) (record t { fs = r.1 }) k) _ e2 in
      Follows-cons io ios t u cur_pos k hookfd bs q.0 r q.1 h e1 e4 (
        follows ios (record t { fs = r.1 }) (moved cur_pos n) k hookfd q.0 q.1 h
          (ap (λ p. positioned ios p (record t { fs = r.1 }) k)
              (update_self cur_pos fd (cur_pos fd + n))
            ∙ e3))

  -- Reads and writes of a hooked file one after the other issue the requests of `pread64` and `pwrite64`
  -- calls at the descriptor's position and at those behind it, each by the count of the call before, and
  -- leave the same file system and table but for the positions: that of the descriptor has moved by all
  -- the counts, and those of the others are what they were.
  pub sequential-positioned :
      (ios : List Io) (t : Table) (k : K) (hookfd : ℕ) (bs : List Batch) (u : Table)
      → t.hookfds fd ≡ some hookfd
      → positioned ios (t.cur_pos fd) t k ≡ some (bs, u)
      → (cursor : ℕ → ℕ) × (sequential ios t k ≡ some (bs, record u { cur_pos = cursor }))
        × (cursor fd ≡ t.cur_pos fd + bytes ios)
        × ((other : ℕ) → other ≢ fd → cursor other ≡ t.cur_pos other)
  sequential-positioned ios t k hookfd bs u h e =
      let all = follows ios t t.cur_pos k hookfd bs u h e in
      (all.cursor, all.answers, all.at_end, all.others)
