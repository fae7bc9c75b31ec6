-- ===== src/Transaction/Errors.antt =====
-- The errors of internal/transaction. The role and the path that a wrapping message adds are left out.
use hukou.Prelude.{Text}
use hukou.Disk.{World}
use hukou.Disk.Effects

-- `io` is an error of a system call; each other constructor is one `i18n.Errorf`, or an error that a
-- call returns because of what it finds.
pub data TxError : Type 0 where
  io not_exist exists not_regular unknown_kind : TxError
  payload_escapes payload_not_regular payload_mismatch payload_changed : TxError
  topology_changed : TxError
  drift not_target : Text → TxError
  marker_topology invalid_marker unexpected_path : TxError
  not_active unknown_role role_mismatch : TxError
  abort_committed not_committed : TxError
  unknown_directories many_pending not_directory : TxError
  bad_intent id_mismatch name_taken : TxError

abbrev pub Tx : Type 0 → Type 0
Tx = Effects.M TxError

abbrev pub touch : Tx Unit
touch = Effects.touch io

abbrev pub change : (World → World) → Tx Unit
change = Effects.change io

abbrev pub look : {A : Type 0} → (World → A) → Tx A
look = Effects.look io
