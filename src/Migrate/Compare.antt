-- ===== src/Migrate/Compare.antt =====
-- internal/migrate/compare.go and internal/model/mapping.go: what is to be done with a domain and
-- with a mailbox.
use c_panel_self_migration.Prelude.{ℕ, Bool, true, false, ◌&&◌, Bytes, eqb, ◌==◌, if◌then◌else◌}

pub data DomainType : Type 0 where
  main addon sub parked : DomainType

pub data Action : Type 0 where
  already_present create_addon create_sub : Action

unfoldable pub action_for : DomainType → (exists_on_dest : Bool) → Action
action_for src true = already_present
action_for sub false = create_sub
action_for _ false = create_addon

abbrev pub same_type : DomainType → DomainType → Bool
same_type main main = true
same_type addon addon = true
same_type sub sub = true
same_type parked parked = true
same_type _ _ = false

unfoldable pub expected_destination_type : DomainType → DomainType
expected_destination_type src = if same_type src sub then sub else addon

unfoldable pub compatible_destination_type : (src dest : DomainType) → Bool
unfolding expected_destination_type
compatible_destination_type src dest = same_type dest (expected_destination_type src)

-- `maildir.BoxStats`, as far as the comparison reads it.
pub record BoxStats : Type 0 where
  pub msg_count : ℕ
  pub uid_validity : Bytes

pub data BoxStatus : Type 0 where
  to_migrate identical differs : BoxStatus

unfoldable pub classify_box : (src dest : BoxStats) → BoxStatus
classify_box src dest =
    if dest.msg_count == 0
    then to_migrate
    else if src.msg_count == dest.msg_count && eqb src.uid_validity dest.uid_validity
    then identical
    else differs
