-- ===== src/Service/Session.antt =====
-- The service that `main` of cmd/provisioner/main.go makes, serving any sequence of remote calls.
use vcd_csi.Prelude.{List, [], ◌≡◌}
use mathlib.Core.Path.{subst}
use vcd_csi.Go.Exec.{Result, Outcome, returned, panicked, blocked, Exec, ok, err}
use vcd_csi.Go.Exec.Runs.{Runs}
use vcd_csi.Config.{ControllerConfig, new_controller_config}
use vcd_csi.Cloud.{Cloud}
use vcd_csi.Vcd.State.{VcdClient, new_vcd_client}
use vcd_csi.Vcd.State.Returns.{Logs, new_vcd_client-Returns}
use vcd_csi.Vcd.Service.{Visit}
use vcd_csi.Vcd.Units.Laws.{IsOrder}
use vcd_csi.Vcd.Trace as Cloud_trace
use vcd_csi.Vcd.Guard
use vcd_csi.Vcd.Guard.Idle.{IsIdle}
use vcd_csi.Mount.Host.{Host}
use vcd_csi.Mount.Trace as Host_trace
use vcd_csi.Mount.Blank.{Blank, Safe}
use vcd_csi.Mount.Blank.Session.{new_mounter-KeepsHost}
use vcd_csi.Driver.State.{Serves, VcdService, State, on_vcl}
use vcd_csi.Driver.Capabilities.{StringSets}
use vcd_csi.Driver.Client.{vcd_service-Serves}
use vcd_csi.Driver.Runs.{RunsClient}
use vcd_csi.Driver.Node.Apart.{KeepsHost-both, apart-KeepsHost}
use vcd_csi.Driver.Session.{Request, driver_serve, driver_serve-keeps}
use vcd_csi.Service.Start.{
  Outside, Service, Launch, crashed, started, assemble, with_client, launch,
}

-- The client is idle, each change of the cloud was guarded, and each file system was made on a device
-- that had none.
abbrev pub IsSound :
    {W H : Type 0} → State (VcdClient (Cloud_trace.Traced W)) (Host_trace.Traced H) → Type 0
IsSound s = IsIdle s.vcl × Blank s

module _ {S M : Type 0} {R : S → Type 0} (B : M → Type 0) where
  on_vcl-Runs :
      {A : Type 0} {m : Exec S A}
      → Runs R m
      → Runs {S = State S M} (λ s. R s.vcl × B s.host) (on_vcl m)
  unfolding on_vcl
  on_vcl-Runs r = record { keeps = λ s p. (r.keeps s.vcl p.0, p.1); ends = λ s p. r.ends s.vcl p.0 }

  pub Serves-RunsClient :
      {vcl : VcdService S} → Serves R vcl → RunsClient {S = S} {M = M} (λ s. R s.vcl × B s.host) vcl
  Serves-RunsClient h = record {
    calls = record {
      creates = λ vdc name profile size. on_vcl-Runs (h.creates vdc name profile size);
      lists = on_vcl-Runs h.lists;
      deletes = λ name. on_vcl-Runs (h.deletes name);
      detaches = λ vm name. on_vcl-Runs (h.detaches vm name);
      attaches = λ vm name. on_vcl-Runs (h.attaches vm name);
      resizes = λ vdc name size. on_vcl-Runs (h.resizes vdc name size);
    };
    locks = λ s lock p. p;
  }

module _ {W H Url Level Set : Type 0} (cloud : Cloud W) (host : Host H) (visit : Visit)
    (order : IsOrder visit.units) (outside : Outside Url Level) (sets : StringSets Set) where
  abbrev pub watched : W → H → Launch (Cloud_trace.Traced W) (Host_trace.Traced H) Level
  watched w h =
      launch (Cloud_trace.traced cloud) (Host_trace.traced host) visit outside
        (record { events = []; world = w }) (record { events = []; inner = h })

  -- What a service that was started is after some remote calls.
  abbrev Follows : List Request → Launch (Cloud_trace.Traced W) (Host_trace.Traced H) Level → Type 0
  Follows requests (started s) = IsSound (driver_serve s.vcl sets s.mounter requests s.state)
  Follows requests _ = Unit

  with_client-Follows :
      (requests : List Request) (c : ControllerConfig) (h : H) (o : Outcome (Unit {0}))
      (client : VcdClient (Cloud_trace.Traced W))
      → IsIdle client
      → Follows requests (
          with_client
            (Cloud_trace.traced cloud)
            (Host_trace.traced host)
            visit
            outside
            c
            (record { events = []; inner = h })
            (o, client))
  unfolding with_client assemble
  with_client-Follows requests c h (returned (ok u)) client idle =
      driver_serve-keeps _ sets
        (Serves-RunsClient (λ t. Safe t) (vcd_service-Serves cloud c visit order)) _
        (KeepsHost-both (apart-KeepsHost IsIdle _) (new_mounter-KeepsHost host)) requests _
        (idle, tt)
  with_client-Follows requests c h (returned (err e)) client idle = tt
  with_client-Follows requests c h panicked client idle = tt
  with_client-Follows requests c h blocked client idle = tt

  configured :
      (requests : List Request) (w : W) (h : H) (r : Result ControllerConfig)
      → Follows requests (elim r [
        | err e ↦ crashed
        | ok c ↦
            with_client
              (Cloud_trace.traced cloud)
              (Host_trace.traced host)
              visit
              outside
              c
              (record { events = []; inner = h })
              (new_vcd_client
                (Cloud_trace.traced cloud)
                c
                outside.parse_request_uri
                (record { events = []; world = w }))
      ])
  configured requests w h (err e) = tt
  configured requests w h (ok c) =
      let made =
        (new_vcd_client-Returns Guarded (Cloud_trace.traced cloud) c quiet outside.parse_request_uri
          (record { events = []; world = w }) tt).1 in
      with_client-Follows requests c h _ _ (record { free = made.0; guarded = made.1 })
    where
      Guarded : Cloud_trace.Traced W → Type 0
      Guarded t = Guard.IsGuarded t.events

      quiet : Logs Guarded (Cloud_trace.traced cloud) c
      quiet = record { enters = λ w p. p; orgs = λ o w p. p; vdcs = λ o n w p. p }

  watched-Follows : (requests : List Request) (w : W) (h : H) → Follows requests (watched w h)
  unfolding launch
  watched-Follows requests w h = configured requests w h (new_controller_config outside.process)

  -- A service that `main` starts, over any cloud and any host, and that then gets any remote calls
  -- that reach the client, the lock or the host, in any order, each failing or not, has its client
  -- idle, with every change of the cloud guarded as in the results for the client, and has run a
  -- command that makes a file system only right after that command was found and `blkid` had said
  -- of the same device that it found nothing on it. The runtime ranges over the units in an order
  -- of the map.
  pub driver_serve-IsSound :
      (requests : List Request) (w : W) (h : H)
      (s : Service (Cloud_trace.Traced W) (Host_trace.Traced H) Level)
      → watched w h ≡ started s
      → IsSound (driver_serve s.vcl sets s.mounter requests s.state)
  driver_serve-IsSound requests w h s e = subst (Follows requests) e (watched-Follows requests w h)
