-- ===== src/Mount/Handler.antt =====
-- `MounterHandler` and `NewMounter` of internal/mount/mounter.go: the mounter that the driver is given.
use vcd_csi.Driver.State.{Mounter}
use vcd_csi.Mount.Host.{Host}
use vcd_csi.Mount.Commands
use vcd_csi.Mount.Disks
use vcd_csi.Mount.Statistics

unfoldable pub new_mounter : {H : Type 0} → Host H → Mounter H
new_mounter host = record {
  format = λ source fs_type. Commands.format host source fs_type;
  mount = λ source target fs_type options. Commands.mount host source target fs_type options;
  unmount = λ target. Commands.unmount host target;
  is_formatted = λ source. Commands.is_formatted host source;
  is_mounted = λ target. Commands.is_mounted host target;
  get_statistics = λ path. Statistics.get_statistics host path;
  is_block_device = λ path. Statistics.is_block_device host path;
  get_disk_unit = λ size unit bus. Disks.get_disk_unit host size unit bus;
}
