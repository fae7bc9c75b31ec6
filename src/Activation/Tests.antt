-- ===== src/Activation/Tests.antt =====
-- Runs of the operations on a lineage, and the theorems at a concrete one.
use mathlib.Core.List.{reverse}
use hukou.Prelude.{
  ℕ, ◌<◌, pos, ◌≡◌, ◌↔◌, refl, codes, some, [], ◌∷◌, all_hex, List, take, length, member, to_lower,
  ok, err,
}
use hukou.Manifest.{Event, Entry, validate_entry_lineage, last_event}
use hukou.Manifest.Samples.{plain, digest_b, blank, first_event}
use hukou.Activation.{
  validate, validate_id, adopted, record_adopt, upgrade_event, record_upgrade, rollback_event,
  record_rollback, previous, ancestors, find_ancestor_by_tag, tag_rebound, no_previous_activation,
}
use hukou.Activation.Validity.{validators_agree}
use hukou.Activation.Ancestry.{Chain, ancestors-Chain}
use hukou.Activation.Descent.{LeadsTo, rollback-LeadsTo, done, back, Rollbacks-end}
use hukou.Activation.Steps.{started, after, upgraded, rolled, Sound, Reached-Sound}
use hukou.Activation.Undo.{Undone, upgrade-Undone}

abbrev first : Entry
first = adopted blank (codes "e1") (codes "t0")

abbrev second : Entry
second = record first {
  activations =
      first_event ∷ upgrade_event first (codes "e2") (codes "v2") digest_b (codes "t1") ∷ [];
  active_activation_id = codes "e2";
  tag = codes "v2";
  sha256 = digest_b;
  updated_at = codes "t1";
}

-- The first version again.
abbrev third : Entry
third = record second {
  activations =
      first_event
      ∷ upgrade_event first (codes "e2") (codes "v2") digest_b (codes "t1")
      ∷ rollback_event second (codes "e3") first_event (codes "t2")
      ∷ [];
  active_activation_id = codes "e3";
  tag = codes "v1";
  sha256 = first_event.sha256;
  updated_at = codes "t2";
}

adopts : record_adopt plain blank (codes "e1") (codes "t0") ≡ ok first
unfolding record_adopt all_hex to_lower
adopts = refl

upgrades : record_upgrade plain first (codes "e2") (codes "v2") digest_b (codes "t1") ≡ ok second
unfolding record_upgrade all_hex to_lower
upgrades = refl

rolls_back : record_rollback plain second (codes "e3") (codes "e1") (codes "t2") ≡ ok third
unfolding record_rollback all_hex to_lower
rolls_back = refl

-- A tag keeps its digest.
rebound_refused :
    record_upgrade plain first (codes "e2") (codes "v1") digest_b (codes "t1") ≡ err tag_rebound
unfolding record_upgrade all_hex to_lower
rebound_refused = refl

-- From the first version there is nothing to go back to, also after a rollback.
nothing_before : previous plain third ≡ err no_previous_activation
unfolding previous all_hex to_lower
nothing_before = refl

found_by_tag : find_ancestor_by_tag plain second (codes "v1") ≡ ok first_event
unfolding find_ancestor_by_tag all_hex to_lower
found_by_tag = refl

second_ok : validate plain second ≡ ok tt
unfolding validate all_hex to_lower
second_ok = refl

validators_agree_example :
    (validate plain second ≡ ok tt) ↔ (validate_entry_lineage plain second ≡ ok tt)
validators_agree_example = validators_agree plain refl second

ancestors-Chain_example :
    (a : Event) × (up : List Event) × (last_event second.activations ≡ some a)
    × Chain (reverse second.activations) a up
    × (length up < length second.activations)
    × ((limit : ℕ) → ancestors plain second (pos limit) ≡ ok (take limit up))
ancestors-Chain_example = ancestors-Chain plain refl second second_ok

rollback-LeadsTo_example : LeadsTo plain refl second third (codes "e1")
rollback-LeadsTo_example =
    rollback-LeadsTo plain refl second third (codes "e3") (codes "e1") (codes "t2") rolls_back

Rollbacks-end_example : 1 < 2
Rollbacks-end_example =
    Rollbacks-end plain refl 1 second third second_ok
      (back (codes "e3") (codes "e1") (codes "t2") rolls_back done)

Reached-Sound_example : Sound plain refl 2 first third
Reached-Sound_example = Reached-Sound plain refl 2 first third (
    after
      (after (started blank (codes "e1") (codes "t0") adopts)
        (upgraded (codes "e2") (codes "v2") digest_b (codes "t1") upgrades))
      (rolled (codes "e3") (codes "e1") (codes "t2") rolls_back))

id_ok : validate_id (codes "e3") ≡ ok tt
unfolding validate_id
id_ok = refl

upgrade-Undone_example : Undone plain refl first second (codes "e3") (codes "t2")
unfolding member
upgrade-Undone_example =
    upgrade-Undone plain refl first second (codes "e2") (codes "v2") digest_b (codes "t1") upgrades
      (codes "e3") (codes "t2") id_ok refl refl
