-- ===== src/Disk/Holds.antt =====
-- Postconditions of effects: `P` of a result and the disk, `Q` of the disk after an error or a kill.
use hukou.Prelude.{ℕ, Bool, true, false, ◌≡◌, refl, List, [], ◌∷◌}
use hukou.Disk.{World}
use hukou.Disk.Effects.{
  Fault, pass, fail, crash, short, cut, done, failed, crashed, Step, M, after, ◌>>=◌, ◌>>◌, pure,
  raise, require, effect, change, touch, look,
}

abbrev pub Holds : {E A : Type 0} → Step E A → (A → World → Type 0) → (World → Type 0) → Type 0
Holds (done a, w, fs) P Q = P a w
Holds (failed e, w, fs) P Q = Q w
Holds (crashed, w, fs) P Q = Q w

module _ {E A : Type 0} (P : A → World → Type 0) (Q : World → Type 0) where
  pub Holds-map :
      (P' : A → World → Type 0) (Q' : World → Type 0)
      → ((a : A) (w : World) → P a w → P' a w)
      → ((w : World) → Q w → Q' w)
      → (r : Step E A) → Holds r P Q
      → Holds r P' Q'
  Holds-map P' Q' p q (done a, w, fs) h = p a w h
  Holds-map P' Q' p q (failed e, w, fs) h = q w h
  Holds-map P' Q' p q (crashed, w, fs) h = q w h

  pub Holds-bind :
      {B : Type 0} (P' : B → World → Type 0) (m : M E A) (f : A → M E B) (w : World)
      (fs : List Fault)
      → Holds (m w fs) P Q
      → ((a : A) (w' : World) (fs' : List Fault) → P a w' → Holds (f a w' fs') P' Q)
      → Holds ((m >>= f) w fs) P' Q
  unfolding ◌>>=◌
  Holds-bind {B} P' m f w fs h k = go (m w fs) h
    where
      go : (r : Step E A) → Holds r P Q → Holds (after r f) P' Q
      go (done a, w', fs') x = k a w' fs' x
      go (failed e, w', fs') x = x
      go (crashed, w', fs') x = x

-- The rules for a block that begins with one call.
module _ {E A B : Type 0} (io : E) (w : World) (P : B → World → Type 0) (Q : World → Type 0)
    (q : Q w) where
  pub look->>= :
      (f : World → A) (k : A → M E B) (fs : List Fault)
      → ((fs' : List Fault) → Holds (k (f w) w fs') P Q)
      → Holds ((look io f >>= k) w fs) P Q
  unfolding look ◌>>=◌
  look->>= f k [] h = h []
  look->>= f k (pass ∷ fs) h = h fs
  look->>= f k (fail ∷ fs) h = q
  look->>= f k (crash ∷ fs) h = q
  look->>= f k (short n ∷ fs) h = q
  look->>= f k (cut n ∷ fs) h = q

module _ {E B : Type 0} (w : World) (P : B → World → Type 0) (Q : World → Type 0) (q : Q w) where
  pub touch->> :
      (io : E) (k : M E B) (fs : List Fault)
      → ((fs' : List Fault) → Holds (k w fs') P Q)
      → Holds ((touch io >> k) w fs) P Q
  unfolding touch ◌>>◌
  touch->> io k [] h = h []
  touch->> io k (pass ∷ fs) h = h fs
  touch->> io k (fail ∷ fs) h = q
  touch->> io k (crash ∷ fs) h = q
  touch->> io k (short n ∷ fs) h = q
  touch->> io k (cut n ∷ fs) h = q

  pub change->> :
      (io : E) (f : World → World) (k : M E B) (fs : List Fault)
      → ((fs' : List Fault) → Holds (k (f w) fs') P Q)
      → Holds ((change io f >> k) w fs) P Q
  unfolding change ◌>>◌
  change->> io f k [] h = h []
  change->> io f k (pass ∷ fs) h = h fs
  change->> io f k (fail ∷ fs) h = q
  change->> io f k (crash ∷ fs) h = q
  change->> io f k (short n ∷ fs) h = q
  change->> io f k (cut n ∷ fs) h = q

  pub effect->> :
      (io : E) (partly : ℕ → World → World) (all : World → World) (k : M E B) (fs : List Fault)
      → ((n : ℕ) → Q (partly n w))
      → ((fs' : List Fault) → Holds (k (all w) fs') P Q)
      → Holds ((effect io partly all >> k) w fs) P Q
  unfolding effect ◌>>◌
  effect->> io partly all k [] r h = h []
  effect->> io partly all k (pass ∷ fs) r h = h fs
  effect->> io partly all k (fail ∷ fs) r h = q
  effect->> io partly all k (crash ∷ fs) r h = q
  effect->> io partly all k (short n ∷ fs) r h = r n
  effect->> io partly all k (cut n ∷ fs) r h = r n

  pub require->> :
      (b : Bool) (e : E) (k : M E B) (fs : List Fault)
      → (b ≡ true → Holds (k w fs) P Q)
      → Holds ((require b e >> k) w fs) P Q
  unfolding ◌>>◌ pure raise
  require->> true e k fs h = h refl
  require->> false e k fs h = q

  pub raise-Holds : (e : E) (fs : List Fault) → Holds (raise {A = B} e w fs) P Q
  unfolding raise
  raise-Holds e fs = q

-- A block that begins with a step which only reads, and answers `v`.
module _ {E A B : Type 0} (w : World) (P : B → World → Type 0) (Q : World → Type 0) where
  pub reads->>= :
      (m : M E A) (v : A) (k : A → M E B) (fs : List Fault)
      → Holds (m w fs) (λ a w'. (a ≡ v) × (w' ≡ w)) Q
      → ((fs' : List Fault) → Holds (k v w fs') P Q)
      → Holds ((m >>= k) w fs) P Q
  reads->>= m v k fs h next =
      Holds-bind (λ a w'. (a ≡ v) × (w' ≡ w)) Q P m k w fs h
        (λ a w' fs' (e, e'). rw (e, e') (next fs'))

module _ {E B : Type 0} (w : World) (P : B → World → Type 0) (Q : World → Type 0) where
  pub reads->> :
      (m : M E Unit) (c : Type 0) (k : M E B) (fs : List Fault)
      → Holds (m w fs) (λ _ w'. c × (w' ≡ w)) Q
      → (c → (fs' : List Fault) → Holds (k w fs') P Q)
      → Holds ((m >> k) w fs) P Q
  unfolding ◌>>◌
  reads->> m c k fs h next =
      Holds-bind (λ _ w'. c × (w' ≡ w)) Q P m (λ _. k) w fs h
        (λ a w' fs' (x, e'). rw e' (next x fs'))

pub require-Holds :
    {E : Type 0} (w : World) (Q : World → Type 0) (b : Bool) (e : E) (fs : List Fault)
    → Q w
    → Holds (require b e w fs) (λ _ w'. (b ≡ true) × (w' ≡ w)) Q
unfolding pure raise
require-Holds w Q true e fs q = (refl, refl)
require-Holds w Q false e fs q = q

pub touch-Holds :
    {E : Type 0} (io : E) (w : World) (P : Unit → World → Type 0) (Q : World → Type 0)
    (fs : List Fault)
    → P tt w
    → Q w
    → Holds (touch io w fs) P Q
unfolding touch
touch-Holds io w P Q [] p q = p
touch-Holds io w P Q (pass ∷ fs) p q = p
touch-Holds io w P Q (fail ∷ fs) p q = q
touch-Holds io w P Q (crash ∷ fs) p q = q
touch-Holds io w P Q (short n ∷ fs) p q = q
touch-Holds io w P Q (cut n ∷ fs) p q = q

pub change-Holds :
    {E : Type 0} (io : E) (w : World) (P : Unit → World → Type 0) (Q : World → Type 0)
    (f : World → World) (fs : List Fault)
    → P tt (f w)
    → Q w
    → Holds (change io f w fs) P Q
unfolding change
change-Holds io w P Q f [] p q = p
change-Holds io w P Q f (pass ∷ fs) p q = p
change-Holds io w P Q f (fail ∷ fs) p q = q
change-Holds io w P Q f (crash ∷ fs) p q = q
change-Holds io w P Q f (short n ∷ fs) p q = q
change-Holds io w P Q f (cut n ∷ fs) p q = q

-- A block that begins with any step.
pub Holds-seq :
    {E B : Type 0} (P1 : World → Type 0) (P : B → World → Type 0) (Q : World → Type 0)
    (m : M E Unit) (k : M E B) (w : World) (fs : List Fault)
    → Holds (m w fs) (λ _. P1) Q
    → ((w' : World) (fs' : List Fault) → P1 w' → Holds (k w' fs') P Q)
    → Holds ((m >> k) w fs) P Q
unfolding ◌>>◌
Holds-seq P1 P Q m k w fs h next =
    Holds-bind (λ _. P1) Q P m (λ _. k) w fs h (λ _ w' fs' p. next w' fs' p)
