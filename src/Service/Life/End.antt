-- ===== src/Service/Life/End.antt =====
-- The service of cmd/provisioner/main.go and pkg/controller/v1/cntrl.go comes to its end.
use vcd_csi.Prelude.{ℕ, ◌+◌, ◌≡◌, ◌⊎◌, Bool, true, false, List, Option}
use vcd_csi.Go.Error.{Error}
use vcd_csi.Service.Life.{
  Runner, starting, serving, returned, ended, Main, listening, stopping, finished, Life, Step, Move,
}

-- The process is over: `main` has returned, or a panic has ended it.
abbrev pub Over : Life → Type 0
Over l = (l.main ≡ finished) ⊎ (l.crashed ≡ true)

-- Every way to go on leads to the end, and until then there is a step that needs no mishap.
pub data Ends (wait : List (Option Error) → Option Error) : Life → Type 0 where
  over : {l : Life} → Over l → Ends wait l
  onward :
      {l : Life} (l' : Life)
      → Step wait l l'
      → ((l'' : Life) → Move wait l l'' → Ends wait l'')
      → Ends wait l

abbrev flag : Bool → ℕ
flag true = 0
flag false = 1

abbrev main_weight : Main → ℕ
main_weight listening = 2
main_weight stopping = 1
main_weight finished = 0

abbrev runner_weight : Runner → ℕ
runner_weight starting = 8
runner_weight (serving g) =
    2 + flag g.closed + flag g.stopped + flag g.shut + flag g.grpc + flag g.http
runner_weight (returned e) = 1
runner_weight ended = 0

-- What is left to do.
abbrev weight : Life → ℕ
weight l = main_weight l.main + runner_weight l.runner + flag l.crashed

module _ (wait : List (Option Error) → Option Error) where
  abbrev Can : Life → Type 0
  Can l = (l' : Life) × Step wait l l'
