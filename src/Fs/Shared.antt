-- ===== src/Fs/Shared.antt =====
-- Threads that allocate blocks at once, in mylib/myfs.c, never get the same block.
use staut.Prelude.{
  ℕ, ◌+◌, ◌%◌, ◌≡◌, ◌≢◌, refl, sym, ap, ◌∙◌, arith, Option, none, some, update, update_self,
  update_ne, ℕ_discrete, ◌⊎◌, inl, inr,
}
use staut.Fs.State.{num_blocks, Block, at}
use staut.Fs.Allocs.{
  Table, AllocPc, locking, storing, counting, AllocMove, call, lock, has_block, no_block, load,
  cas_lose, cas_win, store, count, unlock, Allocators, AllocReach, begin, later, IsAhead, IsApart,
}

-- The entry that a thread has taken and not stored.
abbrev claim_of : AllocPc → Option ℕ
claim_of (storing i k old) = some old
claim_of _ = none

none-some : {p : ℕ} → none ≡ some p → ⊥
none-some e = cc

some-inj : {p q : ℕ} → some p ≡ some q → p ≡ q
some-inj e = cc

-- A thread that claims nothing is none of those that do.
claim_other :
    (pc : ℕ → AllocPc) (t u p : ℕ) (x : AllocPc)
    → claim_of x ≡ none
    → claim_of (update pc t x u) ≡ some p
    → (t ≢ u) × (claim_of (pc u) ≡ some p)
claim_other pc t u p x z h = elim (ℕ_discrete t u) [
  | yes e ↦ absurd (none-some (sym z ∙ sym (ap claim_of (rw (← e) (update_self pc t x))) ∙ h))
  | no ne ↦ (ne, sym (ap claim_of (update_ne pc t x u ne)) ∙ h)
]

-- After a thread takes the entry `r` the claims are that one and the old ones.
claim_cases :
    (pc : ℕ → AllocPc) (t u i k r p : ℕ)
    → claim_of (update pc t (storing i k r) u) ≡ some p
    → ((t ≡ u) × (r ≡ p)) ⊎ ((t ≢ u) × (claim_of (pc u) ≡ some p))
claim_cases pc t u i k r p h = elim (ℕ_discrete t u) [
  | yes e ↦
      let hit : update pc t (storing i k r) u ≡ storing i k r =
        rw (← e) (update_self pc t (storing i k r)) in
      inl (e, some-inj (sym (ap claim_of hit) ∙ h))
  | no ne ↦ inr (ne, sym (ap claim_of (update_ne pc t (storing i k r) u ne)) ∙ h)
]

stored_cases :
    (f : ℕ → ℕ → Block) (i k : ℕ) (b : Block) (j l : ℕ)
    → ((i ≡ j) × (k ≡ l) × (update f i (update (f i) k b) j l ≡ b))
      ⊎ (update f i (update (f i) k b) j l ≡ f j l)
stored_cases f i k b j l = ground arith

module _ (wp : ℕ) (free : ℕ → Block) where
  record Inv (m : Table) (pc : ℕ → AllocPc) : Type 0 where
    apart : IsApart wp free m
    unstored :
        (t p : ℕ)
        → claim_of (pc t) ≡ some p
        → ((i k : ℕ) → m.block i k ≢ free p) × ((q : ℕ) → IsAhead wp free m.rp q → free q ≢ free p)
    claims :
        (t u p q : ℕ)
        → t ≢ u
        → claim_of (pc t) ≡ some p
        → claim_of (pc u) ≡ some q
        → free p ≢ free q

  module _ (m : Table) (pc : ℕ → AllocPc) (v : Inv m pc) (t : ℕ) where
    quiet :
        (n : Table) (x : AllocPc)
        → n.rp ≡ m.rp
        → n.block ≡ m.block
        → claim_of x ≡ none
        → Inv n (update pc t x)
    quiet n x r b z = record {
      apart = record {
        rp_in = rw r v.apart.rp_in;
        wp_in = v.apart.wp_in;
        fresh = rw (r, b) v.apart.fresh;
        free_apart = rw r v.apart.free_apart;
        slots_apart = rw b v.apart.slots_apart;
      };
      unstored = λ u p h. rw (r, b) (v.unstored u p (claim_other pc t u p x z h).1);
      claims = λ u w p q ne h k.
          v.claims u w p q ne (claim_other pc t u p x z h).1 (claim_other pc t w q x z k).1;
    }

    next-IsAhead :
        m.rp ≢ wp
        → (p : ℕ) → IsAhead wp free ((m.rp + 1) % num_blocks) p
        → IsAhead wp free m.rp p × (p ≢ m.rp)
    next-IsAhead ne p h = (
      (h.0, omega (arith, v.apart.rp_in, v.apart.wp_in, ne, h.1, h.0)),
      λ e. omega (arith, e, v.apart.rp_in, v.apart.wp_in, ne, h.1),
    )

    first-IsAhead : m.rp ≢ wp → IsAhead wp free m.rp m.rp
    first-IsAhead ne = (v.apart.rp_in, omega (arith, v.apart.rp_in, v.apart.wp_in, ne))

    won :
        (i k : ℕ)
        → m.rp ≢ wp
        → Inv (record m { rp = (m.rp + 1) % num_blocks }) (update pc t (storing i k m.rp))
    won i k ne =
        let first = first-IsAhead ne in
        record {
          apart = record {
            rp_in = omega arith;
            wp_in = v.apart.wp_in;
            fresh = λ p h. v.apart.fresh p (next-IsAhead ne p h).0;
            free_apart =
                λ p q h k. v.apart.free_apart p q (next-IsAhead ne p h).0 (next-IsAhead ne q k).0;
            slots_apart = v.apart.slots_apart;
          };
          unstored = λ u p h. elim (claim_cases pc t u i k m.rp p h) [
            | inl (_, e) ↦ rw (← e) (
              v.apart.fresh m.rp first,
              λ q a.
                  v.apart.free_apart q m.rp (next-IsAhead ne q a).0 first (next-IsAhead ne q a).1,
            )
            | inr (_, c) ↦
                ((v.unstored u p c).0, λ q a. (v.unstored u p c).1 q (next-IsAhead ne q a).0)
          ];
          claims = λ u w p q d h l.
              taken first u w p q d (claim_cases pc t u i k m.rp p h)
                (claim_cases pc t w i k m.rp q l);
        }
      where
        taken :
            IsAhead wp free m.rp m.rp
            → (u w p q : ℕ) → u ≢ w
            → ((t ≡ u) × (m.rp ≡ p)) ⊎ ((t ≢ u) × (claim_of (pc u) ≡ some p))
            → ((t ≡ w) × (m.rp ≡ q)) ⊎ ((t ≢ w) × (claim_of (pc w) ≡ some q))
            → free p ≢ free q
        taken first u w p q d (inl (e, f)) (inl (g, h)) = absurd (d (sym e ∙ g))
        taken first u w p q d (inl (e, f)) (inr (g, h)) = rw (← f) ((v.unstored w q h).1 m.rp first)
        taken first u w p q d (inr (e, f)) (inl (g, h)) =
            rw (← h) (λ x. (v.unstored u p f).1 m.rp first (sym x))
        taken first u w p q d (inr (e, f)) (inr (g, h)) = v.claims u w p q d f h

    put :
        (i k old : ℕ)
        → pc t ≡ storing i k old
        → Inv
            (record m { block = update m.block i (update (m.block i) k (free old)) })
            (update pc t (counting i))
    put i k old e = record {
      apart = record {
        rp_in = v.apart.rp_in;
        wp_in = v.apart.wp_in;
        fresh = λ p h j l x. elim (stored_cases m.block i k (free old) j l) [
          | inl (_, _, b) ↦ mine.1 p h (sym x ∙ b)
          | inr b ↦ v.apart.fresh p h j l (sym b ∙ x)
        ];
        free_apart = v.apart.free_apart;
        slots_apart = λ a b j l x h g.
            slots a b j l x h g (stored_cases m.block i k (free old) a b)
              (stored_cases m.block i k (free old) j l);
      };
      unstored = λ u p h.
          let (ne, c) = claim_other pc t u p (counting i) refl h in
          (
            λ j l x. elim (stored_cases m.block i k (free old) j l) [
              | inl (_, _, b) ↦ v.claims t u old p ne own c (sym b ∙ x)
              | inr b ↦ (v.unstored u p c).0 j l (sym b ∙ x)
            ],
            (v.unstored u p c).1,
          );
      claims = λ u w p q ne h l.
          v.claims u w p q ne (claim_other pc t u p (counting i) refl h).1
            (claim_other pc t w q (counting i) refl l).1;
    }
      where
        own : claim_of (pc t) ≡ some old
        own = ap claim_of e

        mine :
            ((j l : ℕ) → m.block j l ≢ free old)
            × ((q : ℕ) → IsAhead wp free m.rp q → free q ≢ free old)
        mine = v.unstored t old own

        new : ℕ → ℕ → Block
        new = update m.block i (update (m.block i) k (free old))

        slots :
            (a b j l x : ℕ)
            → new a b ≡ at x
            → new j l ≡ at x
            → ((i ≡ a) × (k ≡ b) × (new a b ≡ free old)) ⊎ (new a b ≡ m.block a b)
            → ((i ≡ j) × (k ≡ l) × (new j l ≡ free old)) ⊎ (new j l ≡ m.block j l)
            → (a ≡ j) × (b ≡ l)
        slots a b j l x h g (inl (e, f, _)) (inl (e', f', _)) = (sym e ∙ e', sym f ∙ f')
        slots a b j l x h g (inl (_, _, y)) (inr z) = absurd (mine.0 j l (sym z ∙ g ∙ sym h ∙ y))
        slots a b j l x h g (inr y) (inl (_, _, z)) = absurd (mine.0 a b (sym y ∙ h ∙ sym g ∙ z))
        slots a b j l x h g (inr y) (inr z) = v.apart.slots_apart a b j l x (sym y ∙ h) (sym z ∙ g)

    AllocMove-Inv :
        {x y : AllocPc} {n : Table} → AllocMove wp free t m x n y → pc t ≡ x → Inv n (update pc t y)
    AllocMove-Inv (call i k) e = quiet m (locking i k) refl refl refl
    AllocMove-Inv (lock h) e = quiet _ _ refl refl refl
    AllocMove-Inv (has_block h) e = quiet _ _ refl refl refl
    AllocMove-Inv (no_block h) e = quiet _ _ refl refl refl
    AllocMove-Inv load e = quiet _ _ refl refl refl
    AllocMove-Inv (cas_lose h) e = quiet _ _ refl refl refl
    AllocMove-Inv (cas_win {i} {k} {old} h ne) e = rw (← h) (won i k ne)
    AllocMove-Inv (store {i} {k} {old}) e = put i k old e
    AllocMove-Inv count e = quiet _ _ refl refl refl
    AllocMove-Inv unlock e = quiet _ _ refl refl refl

  AllocReach-Inv :
      (m : Table) {s : Allocators wp free}
      → IsApart wp free m
      → AllocReach wp free m s
      → Inv s.table s.pc
  AllocReach-Inv m a begin = record {
    apart = a;
    unstored = λ t p h. absurd (none-some h);
    claims = λ t u p q ne h. absurd (none-some h);
  }
  AllocReach-Inv m a (later {s} t r mv) =
      AllocMove-Inv s.table s.pc (AllocReach-Inv m a r) t mv refl

  -- Any number of threads run `myfs_get_lba` for writing, in any interleaving of their accesses, on a
  -- table in which no block is in two places, and no thread takes an entry of an empty ring. At every
  -- moment no block is in two slots of files, or both in a slot and among the free entries that are
  -- left; and the blocks that threads have taken and not yet stored are in no slot, not free, and
  -- different for different threads.
  pub AllocReach-IsApart :
      (m : Table) (s : Allocators wp free)
      → IsApart wp free m
      → AllocReach wp free m s
      → IsApart wp free s.table
        × ((t i k old : ℕ)
            → s.pc t ≡ storing i k old
            → ((j l : ℕ) → s.table.block j l ≢ free old)
              × ((q : ℕ) → IsAhead wp free s.table.rp q → free q ≢ free old)
              × ((u j l other : ℕ) → t ≢ u → s.pc u ≡ storing j l other → free old ≢ free other))
  AllocReach-IsApart m s a r =
      let v = AllocReach-Inv m a r in
      (
        v.apart,
        λ t i k old e. (
          (v.unstored t old (ap claim_of e)).0,
          (v.unstored t old (ap claim_of e)).1,
          λ u j l other ne f. v.claims t u old other ne (ap claim_of e) (ap claim_of f),
        ),
      )
