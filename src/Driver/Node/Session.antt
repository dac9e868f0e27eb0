-- ===== src/Driver/Node/Session.antt =====
-- A node that serves any sequence of requests. A request that fails leaves the state that it reached.
use vcd_csi.Prelude.{String, List, [], ◌∷◌}
use vcd_csi.Csi.{NodeStageVolumeRequest, NodePublishVolumeRequest}
use vcd_csi.Driver.State.{Mounter, State}
use vcd_csi.Driver.Node.{
  node_stage_volume, node_unstage_volume, node_publish_volume, node_unpublish_volume,
  node_get_volume_stats,
}
use vcd_csi.Driver.Node.Keeps.{
  KeepsHost, node_stage_volume-Keeps, node_unstage_volume-Keeps, node_publish_volume-Keeps,
  node_unpublish_volume-Keeps, node_get_volume_stats-Keeps,
}
use vcd_csi.Driver.Node.Order.{Traced, traced, Guarded, traced-KeepsHost}

pub data NodeRequest : Type 0 where
  stage : NodeStageVolumeRequest → NodeRequest
  unstage : String → String → NodeRequest
  publish : NodePublishVolumeRequest → NodeRequest
  unpublish : String → String → NodeRequest
  stats : String → String → NodeRequest

module _ {S M : Type 0} (m : Mounter M) where
  unfoldable pub node_after : NodeRequest → State S M → State S M
  node_after (stage req) s = (node_stage_volume m req s).1
  node_after (unstage volume_id path) s = (node_unstage_volume m volume_id path s).1
  node_after (publish req) s = (node_publish_volume m req s).1
  node_after (unpublish volume_id path) s = (node_unpublish_volume m volume_id path s).1
  node_after (stats volume_id path) s = (node_get_volume_stats m volume_id path s).1

  unfoldable pub node_serve : List NodeRequest → State S M → State S M
  node_serve [] s = s
  node_serve (r ∷ requests) s = node_serve requests (node_after r s)

module _ {S M : Type 0} {P : State S M → Type 0} (m : Mounter M) (h : KeepsHost P m) where
  pub node_after-keeps : (r : NodeRequest) (s : State S M) → P s → P (node_after m r s)
  unfolding node_after
  node_after-keeps (stage req) s p = (node_stage_volume-Keeps m h req).at s p
  node_after-keeps (unstage volume_id path) s p =
      (node_unstage_volume-Keeps m h volume_id path).at s p
  node_after-keeps (publish req) s p = (node_publish_volume-Keeps m h req).at s p
  node_after-keeps (unpublish volume_id path) s p =
      (node_unpublish_volume-Keeps m h volume_id path).at s p
  node_after-keeps (stats volume_id path) s p =
      (node_get_volume_stats-Keeps m h volume_id path).at s p

  pub node_serve-keeps :
      (requests : List NodeRequest) (s : State S M) → P s → P (node_serve m requests s)
  unfolding node_serve
  node_serve-keeps [] s p = p
  node_serve-keeps (r ∷ requests) s p = node_serve-keeps requests _ (node_after-keeps r s p)

module _ {S M : Type 0} (m : Mounter M) where
  -- Whatever a node is asked for and in whatever order, over any mounter, it formats a device only
  -- right after the host has said that the device is not formatted, it mounts a target only right
  -- after the host has said that the target is not mounted, and it unmounts a target only right
  -- after the host has said that it is mounted, as long as this held at the start.
  pub node_serve-Guarded :
      (requests : List NodeRequest) (s : State S (Traced M))
      → Guarded s
      → Guarded (node_serve (traced m) requests s)
  node_serve-Guarded requests s h = node_serve-keeps (traced m) (traced-KeepsHost m) requests s h
