-- ===== src/Fs/Buffer/Locked.antt =====
-- Changes of one buffer, and taking its sleeplock.
use biglab.Prelude.{
  ℕ, ◌≡◌, refl, ◌∙◌, ap, ◌⊎◌, inl, inr, true, none, some, List, [], ◌∷◌, ◌==◌, Bool-cases, eqb_refl,
  update,
}
use biglab.Prelude.Run.{ok, blocked}
use mathlib.Core.Path.{fun_ext}
use biglab.Fs.Buffer.{Buffer, Buffers, set_buf, insert_node, lock_buf}

pub List-cases : (xs : List ℕ) → (xs ≡ []) ⊎ ((i : ℕ) × (ys : List ℕ) × (xs ≡ i ∷ ys))
List-cases [] = inl refl
List-cases (i ∷ ys) = inr (i, ys, refl)

update-update : (f : ℕ → Buffer) (i : ℕ) (a b : Buffer) → update (update f i b) i a ≡ update f i a
update-update f i a b =
    fun_ext λ j. elim (Bool-cases (i == j)) [ inl e ↦ rw e refl | inr e ↦ rw e refl ]

-- Only the last change of a buffer counts.
pub set_buf-set_buf :
    (i : ℕ) (a b : Buffer) (s : Buffers) → set_buf i a (set_buf i b s) ≡ set_buf i a s
set_buf-set_buf i a b s = ap (λ f. record s { bufs = f }) (update-update s.bufs i a b)

abbrev pub raised : ℕ → Buffers → Buffers
raised i s = insert_node i true true s

pub set_buf-raised :
    (i : ℕ) (a b : Buffer) (s : Buffers)
    → set_buf i a (raised i (set_buf i b s)) ≡ raised i (set_buf i a s)
set_buf-raised i a b s = ap (raised i) (set_buf-set_buf i a b s)

pub at-set_buf : (i : ℕ) (a : Buffer) (f : ℕ → Buffer) → update f i a i ≡ a
at-set_buf i a f = rw (eqb_refl i) refl

lock_free :
    (i : ℕ) (s : Buffers)
    → (s.bufs i).slk ≡ none
    → lock_buf i s ≡ ok i (set_buf i (record (s.bufs i) { slk = some s.pid }) s)
lock_free i s free = rw (lock_buf, free) refl

pub lock_held : (i p : ℕ) (s : Buffers) → (s.bufs i).slk ≡ some p → lock_buf i s ≡ blocked
lock_held i p s held = rw (lock_buf, held) refl

module _ (i : ℕ) (b : Buffer) (s : Buffers) (free : b.slk ≡ none) where
  abbrev locked_buf : Buffer
  locked_buf = record b { slk = some s.pid }

  pub lock-set_buf : lock_buf i (set_buf i b s) ≡ ok i (set_buf i locked_buf s)
  lock-set_buf =
      lock_free i (set_buf i b s) (ap Buffer.slk (at-set_buf i b s.bufs) ∙ free)
      ∙ ap (λ c. ok i (set_buf i (record c { slk = some s.pid }) (set_buf i b s)))
          (at-set_buf i b s.bufs)
      ∙ ap (ok i) (set_buf-set_buf i locked_buf b s)

  pub lock-raised : lock_buf i (raised i (set_buf i b s)) ≡ ok i (raised i (set_buf i locked_buf s))
  lock-raised =
      lock_free i (raised i (set_buf i b s)) (ap Buffer.slk (at-set_buf i b s.bufs) ∙ free)
      ∙ ap (λ c. ok i (set_buf i (record c { slk = some s.pid }) (raised i (set_buf i b s))))
          (at-set_buf i b s.bufs)
      ∙ ap (ok i) (set_buf-raised i locked_buf b s)
