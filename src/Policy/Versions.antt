-- ===== src/Policy/Versions.antt =====
-- What internal/versionpolicy uses of golang.org/x/mod/semver, with the documented behaviour of
-- `semver.Compare` that the proofs rely on.
use Prim.Native.Nat.{Ordering}
use hukou.Prelude.{Text, Bool, ◌≡◌, ◌≢◌}

-- The functions of the package; `compare` returns -1, 0 or +1 as `lt`, `eq` or `gt`.
pub record Semver : Type 0 where
  pub is_valid : Text → Bool
  pub compare : Text → Text → Ordering
  pub prerelease : Text → Text
  pub major : Text → Text

abbrev pub flip : Ordering → Ordering
flip Ordering.lt = Ordering.gt
flip Ordering.eq = Ordering.eq
flip Ordering.gt = Ordering.lt

-- "semantic version precedence" is a total preorder.
pub record IsPrecedence (sv : Semver) : Type 0 where
  pub compare_flip : (v w : Text) → sv.compare w v ≡ flip (sv.compare v w)
  pub compare_trans :
      (u v w : Text)
      → sv.compare u v ≢ Ordering.lt
      → sv.compare v w ≢ Ordering.lt
      → sv.compare u w ≢ Ordering.lt
