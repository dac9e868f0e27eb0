-- ===== src/Driver/Info.antt =====
-- The methods of internal/driver that only describe the driver, and those that it does not have.
use vcd_csi.Prelude.{String, List, [], ◌∷◌, Bool, true, Option, ◌==◌}
use vcd_csi.Go.Int.{ℤ, pos}
use vcd_csi.Go.Error.{status, new, unimplemented}
use vcd_csi.Go.Exec.{Exec, pure, raise, ◌>>◌}
use vcd_csi.Csi.{
  Mode, single_node_writer, VolumeCapability, ControllerCapability, NodeCapability,
  PluginCapability, controller_service, volume_accessibility_constraints, offline_expansion,
  NodeGetInfoResponse,
}
use vcd_csi.Driver.State.{CsiDriver, invalid, reject}
use vcd_csi.Driver.Create.{topology_key}
use vcd_csi.Driver.Publish.{is_nil}

-- `maxVolumesPerNode`
abbrev pub max_volumes_per_node : ℤ
max_volumes_per_node = pos 8

module _ {S : Type 0} where
  -- The answer confirms the one supported mode, whatever was asked.
  unfoldable pub validate_volume_capabilities :
      String → Option (List VolumeCapability) → Exec S (List Mode)
  validate_volume_capabilities volume_id capabilities = do
    reject (volume_id == "") (invalid "ValidateVolumeCapabilities Volume ID must be provided")
    reject (is_nil capabilities)
        (invalid "ValidateVolumeCapabilities Volume Capabilities must be provided")
    pure (single_node_writer ∷ [])

  unfoldable pub get_capacity : Exec S ℤ
  get_capacity = raise (status unimplemented (new ""))

  -- `CreateSnapshot`, `DeleteSnapshot` and `ListSnapshots`
  unfoldable pub snapshots : Exec S (Unit {0})
  snapshots = raise (new "not implemeneted")

  unfoldable pub controller_get_capabilities : Exec S (List ControllerCapability)
  controller_get_capabilities = pure (
      ControllerCapability.create_delete_volume ∷ ControllerCapability.publish_unpublish_volume
      ∷ ControllerCapability.list_volumes ∷ ControllerCapability.expand_volume ∷ [])

  unfoldable pub node_get_capabilities : Exec S (List NodeCapability)
  node_get_capabilities = pure (
      NodeCapability.stage_unstage_volume ∷ NodeCapability.expand_volume
      ∷ NodeCapability.get_volume_stats ∷ [])

  -- name and version
  unfoldable pub get_plugin_info : CsiDriver → Exec S (String × String)
  get_plugin_info c = pure (c.name, c.version)

  unfoldable pub get_plugin_capabilities : Exec S (List PluginCapability)
  get_plugin_capabilities =
      pure (controller_service ∷ volume_accessibility_constraints ∷ offline_expansion ∷ [])

  unfoldable pub probe : Exec S Bool
  probe = pure true

  unfoldable pub node_get_info : CsiDriver → Exec S NodeGetInfoResponse
  node_get_info c = pure (record {
    node_id = c.node_id;
    max_volumes_per_node = max_volumes_per_node;
    accessible_topology = (topology_key, c.config.node_vdc) ∷ [];
  })
