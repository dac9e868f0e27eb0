-- ===== src/Tests/Node.antt =====
-- A node over a mounter that answers in a fixed way.
use vcd_csi.Prelude.{List, [], ◌∷◌, some}
use vcd_csi.Csi.{mount, single_node_writer, NodeStageVolumeRequest}
use vcd_csi.Driver.State.{State}
use vcd_csi.Driver.Node.Order.{Traced, traced, Guarded}
use vcd_csi.Driver.Node.Session.{NodeRequest, stage, unstage, node_serve, node_serve-Guarded}
use vcd_csi.Tests.Fixtures.{mounter}

abbrev staging : NodeStageVolumeRequest
staging = record {
  volume_id = "data";
  staging_target_path = "/stage";
  volume_capability = some (record {
    access_mode = some single_node_writer;
    access_type = mount (record { fs_type = "xfs"; mount_flags = [] });
  });
  publish_context = ("diskUnitNum", "9") ∷ ("diskSizeB", "5368709120") ∷ [];
}

abbrev requests : List NodeRequest
requests = stage staging ∷ unstage "data" "/stage" ∷ []

abbrev start : State (Unit {0}) (Traced (Unit {0}))
start = record {
  vcl = tt;
  lock = record { storage = [] };
  host = record { events = []; inner = tt };
}

node_serve-Guarded_example : Guarded (node_serve (traced mounter) requests start)
node_serve-Guarded_example = node_serve-Guarded mounter requests start tt
