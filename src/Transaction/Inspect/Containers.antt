-- ===== src/Transaction/Inspect/Containers.antt =====
-- What `IsValidQuarantineContainer` asks of the entries of a container.
use hukou.Prelude.{
  ℕ, Text, codes, Bool, true, false, ◌≡◌, ◌⊎◌, inl, inr, refl, Option, none, some, arith,
  text_eq_iff,
}
use hukou.Disk.{Node, Listing, nil, entry, regular, symlink, special, directory}
use hukou.Transaction.Inspect.{contents, is_regular, is_complete, entries, container_valid}

-- A directory that holds META, a regular file, and payload, and nothing else.
pub data Container (n : Option Node) : Type 0 where
  meta_first :
      (bytes : Text) (mode : ℕ) (held : Node)
      → n
        ≡ some (
            directory
              (entry (codes "META") (regular bytes mode) (entry (codes "payload") held nil)))
      → Container n
  payload_first :
      (bytes : Text) (mode : ℕ) (held : Node)
      → n
        ≡ some (
            directory
              (entry (codes "payload") held (entry (codes "META") (regular bytes mode) nil)))
      → Container n

is_regular-node :
    (n : Node) → is_regular n ≡ true → (bytes : Text) × (mode : ℕ) × (n ≡ regular bytes mode)
unfolding is_regular
is_regular-node (regular bytes mode) e = (bytes, mode, refl)
is_regular-node (symlink t) e = cc
is_regular-node special e = cc
is_regular-node (directory l) e = cc

contents-last :
    (m p : Bool) (b : Text) (y : Node)
    → is_complete (contents m p (entry b y nil)) ≡ true
    → ((b ≡ codes "META") × (is_regular y ≡ true) × (p ≡ true))
      ⊎ ((b ≡ codes "payload") × (m ≡ true))
unfolding contents is_complete
contents-last m p b y e =
    ground (arith, text_eq_iff b (codes "META"), text_eq_iff b (codes "payload"))

contents-first :
    (a : Text) (x : Node) (l : Listing)
    → is_complete (contents false false (entry a x l)) ≡ true
    → ((a ≡ codes "META") × (is_regular x ≡ true) × (is_complete (contents true false l) ≡ true))
      ⊎ ((a ≡ codes "payload") × (is_complete (contents false true l) ≡ true))
unfolding contents is_complete
contents-first a x l e =
    ground (arith, text_eq_iff a (codes "META"), text_eq_iff a (codes "payload"))

of_two :
    (a : Text) (x : Node) (b : Text) (y : Node)
    → is_complete (contents false false (entry a x (entry b y nil))) ≡ true
    → Container (some (directory (entry a x (entry b y nil))))
of_two a x b y e = elim (contents-first a x (entry b y nil) e) [
  | inl (am, xr, rest) ↦ elim (contents-last true false b y rest) [
    | inl (bm, yr, clash) ↦ cc
    | inr (bp, p) ↦
        let (bytes, mode, n) = is_regular-node x xr in meta_first bytes mode y (rw (am, bp, n) refl)
  ]
  | inr (ap', rest) ↦ elim (contents-last false true b y rest) [
    | inl (bm, yr, p) ↦
        let (bytes, mode, n) = is_regular-node y yr in
        payload_first bytes mode x (rw (ap', bm, n) refl)
    | inr (bp, clash) ↦ cc
  ]
]

pub container_valid-Container : (n : Option Node) → container_valid n ≡ true → Container n
unfolding container_valid
container_valid-Container none e = cc
container_valid-Container (some (regular b m)) e = cc
container_valid-Container (some (symlink t)) e = cc
container_valid-Container (some special) e = cc
container_valid-Container (some (directory nil)) e = unfold entries in cc
container_valid-Container (some (directory (entry a x nil))) e = unfold entries in cc
container_valid-Container (some (directory (entry a x (entry b y nil)))) e =
    unfold entries in of_two a x b y e
container_valid-Container (some (directory (entry a x (entry b y (entry c z l))))) e =
    unfold entries in ground arith

pub container_valid-of_Container : (n : Option Node) → Container n → container_valid n ≡ true
unfolding container_valid contents is_complete entries
container_valid-of_Container n (meta_first bytes mode held e) = rw e refl
container_valid-of_Container n (payload_first bytes mode held e) = rw e refl
