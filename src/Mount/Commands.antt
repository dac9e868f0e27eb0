-- ===== src/Mount/Commands.antt =====
-- `Format`, `Mount`, `Unmount`, `IsFormatted` and `IsMounted` of internal/mount/mounter.go.
use vcd_csi.Prelude.{
  String, ◌<>◌, List, [], ◌∷◌, ◌++◌, Bool, true, false, ◌||◌, none, some, eqb, ◌==◌, if◌then◌else◌,
}
use vcd_csi.Go.Error.{Error, new, errorf, text, cause, end}
use vcd_csi.Go.Exec.{ok, err, Exec, pure, raise, deref, attempt, ◌>>=◌, ◌>>◌}
use vcd_csi.Mount.Text.{trim_space}
use vcd_csi.Mount.Host.{
  Host, present, missing, unreadable, Run, succeeded, exited, failed, FileSystem, call, ask,
}

-- `strings.Join(texts, sep)`
unfoldable pub join : List String → String → String
join [] sep = ""
join (x ∷ []) sep = x
join (x ∷ y ∷ xs) sep = x <> (sep <> join (y ∷ xs) sep)

module _ {H : Type 0} (host : Host H) where
  -- `exec.LookPath(cmd)` and the two returns that follow it
  unfoldable pub require_path : String → Exec H (Unit {0})
  require_path cmd = do
    found ← ask (host.look_path cmd)
    elim found [
      | present ↦ pure tt
      | missing ↦ raise (errorf "%q executable not found in $PATH" (text cmd end))
      | unreadable e ↦ raise e
    ]

  -- `if s == "" { return errors.New(message) }`
  unfoldable pub require_text : String → String → Exec H (Unit {0})
  require_text s message = if s == "" then raise (new message) else pure tt

  -- A command whose failure is reported with its output.
  unfoldable pub execute : String → String → List String → Exec H (Unit {0})
  execute message cmd args = do
    output ← ask (host.combined_output cmd args)
    elim output.failure [
      | none ↦ pure tt
      | some e ↦
          raise (errorf message (cause e (text cmd (text (join args " ") (text output.out end)))))
    ]

  abbrev pub mkfs_args : String → String → List String
  mkfs_args source fs_type =
      if fs_type == "ext4" || fs_type == "ext3" then "-F" ∷ source ∷ [] else source ∷ []

  unfoldable pub format : String → String → Exec H (Unit {0})
  format source fs_type = do
    require_path ("mkfs." <> fs_type)
    require_text fs_type "fs type is not specified for formatting the volume"
    require_text source "source is not specified for formatting the volume"
    execute "formatting disk failed: %v cmd: '%s %s' output: %q" ("mkfs." <> fs_type)
        (mkfs_args source fs_type)

  -- An error of a call, in a message of its own.
  unfoldable pub explained : {A : Type 0} → String → Exec H A → Exec H A
  explained message m = do
    r ← attempt m
    elim r [ ok a ↦ pure a | err e ↦ raise (errorf message (cause e end)) ]

  -- The mount point is a file for a raw block device, and a directory otherwise.
  unfoldable pub make_target : String → String → Exec H (Unit {0})
  make_target target fs_type =
      if fs_type == ""
      then (do
        explained "failed to create target directory for raw block bind mount: %v"
            (call (host.mkdir_all (host.dir target) 0o750))
        explained "failed to create target file for raw block bind mount: %v"
            (call (host.create_file target 0o660)))
      else call (host.mkdir_all target 0o750)

  abbrev pub mount_args : String → String → String → List String → List String
  mount_args source target fs_type opts =
      (if fs_type == "" then [] else "-t" ∷ fs_type ∷ [])
      ++ ((elim opts [ [] ↦ [] | o ∷ os ↦ "-o" ∷ join (o ∷ os) "," ∷ [] ])
          ++ (source ∷ target ∷ []))

  unfoldable pub mount : String → String → String → List String → Exec H (Unit {0})
  mount source target fs_type opts = do
    require_text source "source is not specified for mounting the volume"
    require_text target "target is not specified for mounting the volume"
    make_target target fs_type
    execute "mounting failed: %v cmd: '%s %s' output: %q" "mount"
        (mount_args source target fs_type opts)

  unfoldable pub unmount : String → Exec H (Unit {0})
  unmount target = do
    require_text target "target is not specified for unmounting the volume"
    execute "unmounting failed: %v cmd: '%s %s' output: %q" "umount" (target ∷ [])

  abbrev check_failed : Error → String → Error
  check_failed e source =
      errorf "checking formatting failed: %v cmd: %q, args: %q"
        (cause e (text "blkid" (text source end)))

  -- What the end of `blkid` means. `blkidExitStatusNoIdentifiers` is 2.
  unfoldable pub read_status : String → Run → Exec H Bool
  read_status source succeeded = pure true
  read_status source (exited exit_code e) =
      if eqb exit_code 2 then pure false else raise (check_failed e source)
  read_status source (failed e) = raise (check_failed e source)

  unfoldable pub is_formatted : String → Exec H Bool
  is_formatted source = do
    require_text source "source is not specified"
    require_path "blkid"
    r ← ask (host.run "blkid" (source ∷ []))
    read_status source r

  -- The loop over the file systems. An entry that is not shared ends it with an error.
  unfoldable pub find_target : String → List FileSystem → Bool → Exec H Bool
  find_target target [] target_found = pure target_found
  find_target target (fs ∷ rest) target_found =
      let next = find_target target rest (target_found || fs.target == target) in
      if fs.propagation == "shared"
      then next
      else raise (errorf "mount propagation for target %q is not enabled" (text target end))

  abbrev findmnt_args : String → List String
  findmnt_args target = "-o" ∷ "TARGET,PROPAGATION,FSTYPE,OPTIONS" ∷ "-M" ∷ target ∷ "-J" ∷ []

  -- What the answer of `findmnt` means. A decoded `null` has no list to read.
  unfoldable pub read_mounts : String → String → Exec H Bool
  read_mounts target out = if out == "" then pure false else elim (host.unmarshal out) [
    | err e ↦ raise (errorf "couldn't unmarshal data: %q: %s" (text out (cause e end)))
    | ok resp ↦ do file_systems ← deref resp; find_target target file_systems false
  ]

  -- The answer beside an error is not used by any caller.
  unfoldable pub is_mounted : String → Exec H Bool
  is_mounted target = do
    require_text target "target is not specified for checking the mount"
    require_path "findmnt"
    output ← ask (host.combined_output "findmnt" (findmnt_args target))
    elim output.failure [
      | none ↦ read_mounts target output.out
      | some e ↦
          if trim_space output.out == ""
          then pure false
          else raise (
              errorf "checking mounted failed: %v cmd: %q output: %q"
                (cause e (text "findmnt" (text output.out end))))
    ]
