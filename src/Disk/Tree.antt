-- ===== src/Disk/Tree.antt =====
-- Lookups after a change of the map of paths or of a directory.
use hukou.Prelude.{Text, ◌≡◌, refl, none, some, arith, Option, text_eq, text_eq_iff, if◌then◌else◌}
use hukou.Disk.{Node, Listing, nil, entry, Live, update, find, remove, put}

pub update_lem :
    (live : Live) (p q : Text) (n : Option Node)
    → update live p n q ≡ (if text_eq q p then n else live q)
unfolding update
update_lem live p q n = refl

pub find-remove :
    (m name : Text) (l : Listing)
    → find m (remove name l) ≡ (if text_eq m name then none else find m l)
unfolding find remove
find-remove m name nil = ground arith
find-remove m name (entry k n l) =
    ground (arith, find-remove m name l, text_eq_iff m name, text_eq_iff name k, text_eq_iff m k)

pub find-put :
    (m name : Text) (n : Node) (l : Listing)
    → find m (put name n l) ≡ (if text_eq m name then some n else find m l)
unfolding put find
find-put m name n l = ground (arith, find-remove m name l)
