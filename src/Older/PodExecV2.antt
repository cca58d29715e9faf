-- ===== src/Older/PodExecV2.antt =====
-- proposals/description/old/pod_exec_v2.ts.
use tribe.Base.{[], ◌∷◌, String, ℕ}
use tribe.Js.{get}
use tribe.Types.{address, bytes32, TemplatedProposalDescription}
use tribe.Tips.Tip121c.{command}

module _ (id : String → ℕ) where
  unfoldable pub pod_exec_v2 : TemplatedProposalDescription
  pod_exec_v2 = record {
    title = "Pod Executor V2";
    commands =
        command "tribalCouncilTimelock" "0" "grantRole(bytes32,address)"
          (λ a. bytes32 (id "EXECUTOR_ROLE") ∷ address (get a "podExecutorV2") ∷ [])
          "\n      Tribal Council timelock grants the new Pod Executor v2 contract\n      EXECUTOR_ROLE\n      "
        ∷ command "tribalCouncilTimelock" "0" "revokeRole(bytes32,address)"
            (λ a. bytes32 (id "EXECUTOR_ROLE") ∷ address (get a "podExecutor") ∷ [])
            "\n      Migrate Pod Executor contracts\n\n      Tribal Council timelock grants EXECUTOR_ROLE to a new Pod Executor V2 contract\n      which exposes executeBatch() as expected.\n\n      It also deprecates the old Pod Executor contract by removing the EXECUTOR_ROLE\n      "
        ∷ [];
    description =
        "\n  Pod Executor V2\n  \n  Deploys a Pod Executor V2 which the Tribal Council timelock then authorises \n  with the EXECUTOR role. This exposes the execution of proposal to the public.\n  \n  In addition, it deprecates the old pod executor by removing the EXECUTOR role.\n  ";
  }
