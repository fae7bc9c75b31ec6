-- ===== src/Disk/Effects.antt =====
-- Effects with faults: each system call reads the next fault of a schedule, so a theorem for every
-- schedule covers every failing call and every moment at which the process may be killed. What is
-- written stays written; the loss of unsynced data at a power failure is not modelled.
use hukou.Prelude.{ℕ, Bool, true, false, List, [], ◌∷◌}
use hukou.Disk.{World}

-- The call succeeds; fails with no effect; fails after a part of its effect; or the process is
-- killed before it, or after a part of its effect. The numbers say how far a call got that is not
-- atomic.
pub data Fault : Type 0 where
  pass fail crash : Fault
  short cut : ℕ → Fault

pub data Outcome {ℓ} (E A : Type ℓ) : Type ℓ where
  done : A → Outcome E A
  failed : E → Outcome E A
  crashed : Outcome E A

-- An outcome, with the disk and the faults that are left.
abbrev pub Step : Type 0 → Type 0 → Type 0
Step E A = Outcome E A × World × List Fault

abbrev pub M : Type 0 → Type 0 → Type 0
M E A = World → List Fault → Step E A

abbrev pub after : {E A B : Type 0} → Step E A → (A → M E B) → Step E B
after (done a, w, fs) f = f a w fs
after (failed e, w, fs) f = (failed e, w, fs)
after (crashed, w, fs) f = (crashed, w, fs)

infixl 5 ◌>>=◌ ◌>>◌
unfoldable pub ◌>>=◌ : {E A B : Type 0} → M E A → (A → M E B) → M E B
◌>>=◌ m f w fs = after (m w fs) f

unfoldable pub ◌>>◌ : {E B : Type 0} → M E Unit → M E B → M E B
unfolding ◌>>=◌
m >> k = m >>= λ _. k

unfoldable pub pure : {E A : Type 0} → A → M E A
pure a w fs = (done a, w, fs)

unfoldable pub raise : {E A : Type 0} → E → M E A
raise e w fs = (failed e, w, fs)

-- `if !b { return e }`
abbrev pub require : {E : Type 0} → Bool → E → M E Unit
require true e = pure tt
require false e = raise e

module _ {E : Type 0} (io : E) where
  -- A call that is not atomic: `partly k` is what it leaves when it stops at `k`.
  unfoldable pub effect : (ℕ → World → World) → (World → World) → M E Unit
  effect partly all w [] = (done tt, all w, [])
  effect partly all w (pass ∷ fs) = (done tt, all w, fs)
  effect partly all w (fail ∷ fs) = (failed io, w, fs)
  effect partly all w (crash ∷ fs) = (crashed, w, fs)
  effect partly all w (short k ∷ fs) = (failed io, partly k w, fs)
  effect partly all w (cut k ∷ fs) = (crashed, partly k w, fs)

  -- An atomic call: all of its effect or none.
  unfoldable pub change : (World → World) → M E Unit
  unfolding effect
  change f = effect (λ k w. w) f

  -- A call that leaves the modelled part of the disk alone, such as syncing a file or a directory.
  unfoldable pub touch : M E Unit
  unfolding change
  touch = change (λ w. w)

  -- A call that reads.
  unfoldable pub look : {A : Type 0} → (World → A) → M E A
  unfolding touch ◌>>=◌
  look f = touch >>= λ _ w fs. (done (f w), w, fs)
