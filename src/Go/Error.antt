-- ===== src/Go/Error.antt =====
-- Error values. `pkg/vcd-client/client.go` declares the six sentinels; an error of code outside
-- the repository keeps its text and the answer to `errors.Is(err, govcd.ErrorEntityNotFound)`.
-- An error made from a format keeps the format and its arguments: the text is not expanded.
-- `as_format e` is the text of `e` where it is read as a format without arguments.
use vcd_csi.Prelude.{String, Bool, true, false}
use vcd_csi.Go.Int.{ℤ}

-- `google.golang.org/grpc/codes`
pub data Code : Type 0 where
  invalid_argument not_found already_exists failed_precondition out_of_range unimplemented
        internal :
      Code

mutual
  pub data Error : Type 0 where
    vm_not_found : Error
    wrong_disk_attach : Error
    disk_already_exists : Error
    disk_not_exists : Error
    no_free_units : Error
    disk_attached_to_vm : Error
    external : Bool → String → Error
    new : String → Error
    errorf : String → Args → Error
    status : Code → Error → Error
    as_format : Error → Error

  -- The arguments of a format.
  pub data Args : Type 0 where
    end : Args
    text : String → Args → Args
    number : ℤ → Args → Args
    cause : Error → Args → Args

-- `errors.Is(err, govcd.ErrorEntityNotFound)`
abbrev pub is_entity_not_found : Error → Bool
is_entity_not_found (external found _) = found
is_entity_not_found _ = false

-- `errors.Is(err, ErrVmNotFound)`
abbrev pub is_vm_not_found : Error → Bool
is_vm_not_found vm_not_found = true
is_vm_not_found _ = false

-- `errors.Is(err, vcd_client.ErrDiskAlreadyExists)`
abbrev pub is_disk_already_exists : Error → Bool
is_disk_already_exists disk_already_exists = true
is_disk_already_exists _ = false

-- `errors.Is(err, vcd_client.ErrDiskAttachedToVm)`
abbrev pub is_disk_attached_to_vm : Error → Bool
is_disk_attached_to_vm disk_attached_to_vm = true
is_disk_attached_to_vm _ = false
