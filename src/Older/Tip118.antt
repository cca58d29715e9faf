-- ===== src/Older/Tip118.antt =====
-- proposals/description/old/tip_118.ts: its last commands, and all of it.
use tribe.Base.{List, [], ◌∷◌, ◌++◌, String, ℕ}
use tribe.Js.{get}
use tribe.Types.{
  address, addresses, text, texts, TemplatedProposalCommand, TemplatedProposalDescription,
}
use tribe.Tips.Tip121c.{command}
use tribe.Older.Tip118One.{tip_118_first, tip_118_second}

module _ (id : String → ℕ) where
  abbrev pub tip_118_third : List TemplatedProposalCommand
  tip_118_third =
      command "angleDelegatorPCVDeposit" "0" "unstakeFromGauge(address,uint256)"
        (λ a. address (get a "angleAgEurFeiPool") ∷ text "9295203165522303785936702" ∷ [])
        "Unstake all agEUR/FEI Uniswap tokens from gauge"
      ∷ command "ratioPCVControllerV2" "0" "withdrawRatioERC20(address,address,address,uint256)"
          (λ a.
            address (get a "angleDelegatorPCVDeposit")
            ∷ address (get a "angleAgEurFeiPool")
            ∷ address (get a "agEurUniswapPCVDeposit")
            ∷ text "10000"
            ∷ [])
          "Move all agEUR/FEI Uniswap tokens to PCV deposit"
      ∷ command "ratioPCVControllerV2" "0" "withdrawRatio(address,address,uint256)"
          (λ a.
            address (get a "agEurUniswapPCVDeposit")
            ∷ address (get a "agEurUniswapPCVDeposit")
            ∷ text "10000"
            ∷ [])
          "Remove all agEUR/FEI Uniswap liquidity & burn FEI"
      ∷ command "ratioPCVControllerV2" "0" "withdrawRatioERC20(address,address,address,uint256)"
          (λ a.
            address (get a "agEurUniswapPCVDeposit")
            ∷ address (get a "agEUR")
            ∷ address (get a "angleEuroRedeemer")
            ∷ text "10000"
            ∷ [])
          "Move all agEUR to redeemer"
      ∷ command "angleEuroRedeemer" "0" "redeemAgEurToDai()" (λ a. [])
          "Redeem all agEUR for DAI and send to DAI PSM"
      ∷ command "pcvGuardian" "0" "unsetSafeAddresses(address[])"
          (λ a.
            addresses (
              get a "ethPSM"
              ∷ get a "lusdPSM"
              ∷ get a "raiPriceBoundPSM"
              ∷ get a "agEurUniswapPCVDeposit"
              ∷ get a "aaveEthPCVDeposit"
              ∷ get a "turboFusePCVDeposit"
              ∷ get a "aaveRaiPCVDeposit"
              ∷ get a "rariPool9RaiPCVDeposit"
              ∷ get a "balancerDepositFeiWeth"
              ∷ get a "d3poolConvexPCVDeposit"
              ∷ get a "d3poolCurvePCVDeposit"
              ∷ get a "compoundEthPCVDeposit"
              ∷ get a "dpiToDaiLBPSwapper"
              ∷ get a "uniswapPCVDeposit"
              ∷ [])
            ∷ [])
          "\n      Unset as safe addresses the deprecated PSMs along with various other deprecated \n      PCV deposits.\n      "
      ∷ command "collateralizationOracle" "0" "removeDeposits(address[])"
          (λ a.
            addresses (
              get a "agEurUniswapPCVDeposit"
              ∷ get a "uniswapLensAgEurUniswapGauge"
              ∷ get a "lusdPSM"
              ∷ get a "ethPSM"
              ∷ get a "aaveEthPCVDepositWrapper"
              ∷ get a "voltDepositWrapper"
              ∷ get a "turboFusePCVDeposit"
              ∷ get a "feiOATimelockWrapper"
              ∷ get a "rariPool128FeiPCVDepositWrapper"
              ∷ get a "rariPool22FeiPCVDepositWrapper"
              ∷ [])
            ∷ [])
          "\n      Remove agEUR addresses, LUSD PSM, ETH PSM, Aave ETH PCV Deposit wrapper ,\n      Volt deposit wrapper, Turbo Fuse PCV deposit, Fei OA timelock wrapper\n      and various Rari Fuse pool wrappers from CR oracle.\n      "
      ∷ command "proxyAdmin" "0" "changeProxyAdmin(address,address)"
          (λ a.
            address (get a "aaveTribeIncentivesController")
            ∷ address (get a "aaveLendingPoolAddressesProvider")
            ∷ [])
          "\n      Transfer the admin of the Aave Tribe Incentives Controller Proxy to Aave governance, specifically \n      the LendingPoolAddressesProvider.\n      "
      ∷ command "daiFixedPricePSM" "0" "setRedeemFee(uint256)" (λ a. text "3" ∷ [])
          "Set DAI PSM redeem fee to 3bps"
      ∷ command "daiFixedPricePSM" "0" "setMintFee(uint256)" (λ a. text "3" ∷ [])
          "Set DAI PSM mint fee to 3bps"
      ∷ command "proxyAdmin" "0" "upgrade(address,address)"
          (λ a.
            address (get a "vlAuraDelegatorPCVDeposit")
            ∷ address (get a "vlAuraDelegatorPCVDepositImplementation")
            ∷ [])
          "Upgrade implementation of the vlAuraDelegatorPCVDeposit"
      ∷ []

  abbrev pub tip_118_fourth : List TemplatedProposalCommand
  tip_118_fourth =
      command "vlAuraDelegatorPCVDeposit" "0" "initialize(address,address,address)"
        (λ a.
          address (get a "aura") ∷ address (get a "vlAura") ∷ address (get a "auraMerkleDrop") ∷ [])
        "Initialize state of vlAuraDelegatorPCVDeposit"
      ∷ command "vlAuraDelegatorPCVDeposit" "0" "claimAirdropAndLock(bytes32[],uint256)"
          (λ a.
            texts (
              "0x7a976f1aaae92306705a851e21eca3a2b94e5f13b70ab392ab43de0772ebeec7"
              ∷ "0x5f45f18cae24e95af94aeb735804f6fa3c71737f9bb628a47aa1d10338c8f108"
              ∷ "0x048081e369fa24baee1b7a0cce66539341a6a3e82abe5f1de21a5c34c62c7059"
              ∷ "0xd161606724ac7215eb1d8401a9652d5cd674dcb87b358142e8a1c0606638a155"
              ∷ "0x95c5cd035c6d6b3d680c7f44f39762cd520ae00bb22a97b720c7a5e9f8343bb1"
              ∷ "0xe21283def28f3d19b0ca2e7d5dbc658b36ff156452caccd8b1bec0a3f8e1888d"
              ∷ "0xc0594f46556af78da13a3a6927537d3797d06d1a840809d5a1fe652104558796"
              ∷ "0x1ef501ed5c0808c30fe72e31488aedbb87cc47b6ad57d4f698834a8980828e96"
              ∷ "0x96093189d23ab1dcbc52c1ce8e66c26458fd343bf71e992a3dcddab33732f4e6"
              ∷ "0x343102ed4002e53b89598f5ef4117d269b3ac98666da0b018d37d12c3ccd3e5f"
              ∷ "0x14737b2e4f69768d546edf1c090e03113a5f4dad097fd7e618519c56405a4dc0"
              ∷ "0xc3d849f7a9528b1c7a94b37fa96daddd882b85442a136fd1a2a89b9785392b03"
              ∷ "0x885f3b9b64e16f0a6490c275896092c04f932fd1a484ba7049c7ae632e301a23" ∷ [])
            ∷ text "23438420626218725374201"
            ∷ [])
          "Claim AURA airdrop and lock"
      ∷ command "vlAuraDelegatorPCVDeposit" "0" "setDelegate(address)"
          (λ a. address (get a "eswak") ∷ []) "Set vlAURA delegatee"
      ∷ []

  unfoldable pub tip_118 : TemplatedProposalDescription
  tip_118 = record {
    title = "TIP_118: PSM deprecation, Incentives withdrawal, agEUR redemption";
    commands = tip_118_first id ++ tip_118_second id ++ tip_118_third ++ tip_118_fourth;
    description =
        "\n  TIP_118: Deprecating PSMs, deprecating TRIBE incentives system, redeem agEUR\n\n  This proposal deprecates the ETH, LUSD and RAI PSMs and completes items from TIP-109: Discontinue TRIBE\n  incentives and TIP-110: Simplify PCV (redeeming all agEUR in the PCV to DAI).\n\n  Forum post: https://tribe.fei.money/t/tip-118-psm-deprecation-incentives-withdrawal-ageur-redemption/4424 \n  Code changes: https://github.com/fei-protocol/fei-protocol-core/pull/922 \n\n  PSM deprecation\n  --------------------------------------------\n  The proposal deprecates the ETH, LUSD and RAI PSMs. This involves transferring all assets off these PSMs, \n  revoking their MINTER_ROLE and ensuring they are fully paused. It also pauses the the associated PCV drip controllers and \n  deprecates the Fei skimmers. Going forward, the only active PSM will be the DAI PSM.\n\n  The DAI FEI skimmer is also activated by granting the PCV_CONTROLLER_ROLE and excess FEI burned. \n  \n  In addition, a new type of PCV deposit, the ERC20HoldingPCVDeposit, is deployed. This is a deposit which has \n  the deposit() method as a no-op and is intended to just hold assets. The DAO's gOHM and VOLT assets are transferred\n  from the DAO timelock to the relevant holding deposits.\n\n\n  TIP-109: Deprecate TRIBE Incentives system (https://tribe.fei.money/t/tip-109-discontinue-tribe-incentives/4291)\n  --------------------------------------------\n  The proposal finishes the deprecation of the TRIBE incentives system by withdrawing the excess TRIBE from \n  the incentives system and deprecating the Tribal Chief contract. \n\n  Specifically it:\n  - Withdraws remaining TRIBE from the TribalChief, leaving enough behind to fully fund existing commitments\n  - Withdraws all TRIBE from 3Crv and D3 Votium briber contracts\n  - Withdraws remaining TRIBE from ERC20 Dripper\n  - Revokes no longer needed TRIBAL_CHIEF_ADMIN_ROLE roles\n\n  TIP-110: Simply PCV, specifically the agEUR & Angle redemption (https://tribe.fei.money/t/tip-110-simplify-pcv/4323)\n  -----------------------------------------------\n  Convert all agEUR in the PCV to DAI, and deprecate all Angle Protocol-related contracts, except the contract that is holding vote-escrowed ANGLE.\n\n  This proposal will perform the following actions :\n  - Move all ANGLE rewards to TC Multisig where they can be sold\n  - Unstake from Angle Protocol's Gauge all agEUR/FEI Uniswap tokens\n  - Move all agEUR/FEI Uniswap tokens to PCV deposit\n  - Remove all agEUR/FEI Uniswap liquidity & burn FEI\n  - Redeem agEUR for DAI, and send proceeds to DAI PSM\n  - Unset agEUR safe addresses & CR oracle entries\n\n  Additional cleanup items:\n  ----------------------------\n  - Transfers the admin of the Aave Tribe Incentives Controller Proxy to Aave Governance\n  - Claim 23k AURA airdrop and lock it for 16 weeks to avoid 30% penalty\n  ";
  }
