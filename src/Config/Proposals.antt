-- ===== src/Config/Proposals.antt =====
-- protocol-configuration/proposalsConfig.ts: the proposals that the integration tests run.
use tribe.Base.{ℕ, String, true, some, [], ◌∷◌}
use tribe.Js.{Object}
use tribe.Types.{TemplatedProposalConfig, dao}
use tribe.Tips.Tip121b.{tip_121b}
use tribe.Tips.Tip121c.{tip_121c}

-- `id` is `ethers.utils.id`, which the second proposal's commands apply to role names.
unfoldable pub proposals_config : (String → ℕ) → Object TemplatedProposalConfig
proposals_config id =
    (
      "tip_121b",
      record {
        deploy = true;
        category = dao;
        total_value = 0;
        proposal = some tip_121b;
        affected_contract_signoff = [];
        deprecated_contract_signoff = [];
        proposal_id = "";
      },
    )
    ∷ (
      "tip_121c",
      record {
        deploy = true;
        category = dao;
        total_value = 0;
        proposal = some (tip_121c id);
        affected_contract_signoff = [];
        deprecated_contract_signoff = [];
        proposal_id = "";
      },
    )
    ∷ []
