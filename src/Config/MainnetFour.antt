-- ===== src/Config/MainnetFour.antt =====
-- protocol-configuration/mainnetAddresses.ts, lines 2197 to 2667.
use tribe.Base.{[], ◌∷◌}
use tribe.Js.{Object}
use tribe.Types.{ContractConfig, contract_config, deprecated, external, tbd}

unfoldable pub contracts_sixteenth : Object ContractConfig
contracts_sixteenth =
    (
      "d3AutoRewardsDistributor",
      contract_config "AutoRewardsDistributorV2" "0x9Fd318C3F8f8583Fd40a0C2fba058fB7097E11d4"
          deprecated,
    )
    ∷ (
      "fei3CrvAutoRewardsDistributor",
      contract_config "AutoRewardsDistributorV2" "0x15f6D0d95aceCD7570e8Ff6128D953BC6aA3573C"
          deprecated,
    )
    ∷ (
      "rewardsDistributorAdmin",
      contract_config "RewardsDistributorAdmin" "0x4e979E8b136Cd7BdEBB83ea50a599C3BED1e15c0"
          deprecated,
    )
    ∷ (
      "stakingTokenWrapperBribeD3pool",
      contract_config "StakingTokenWrapper" "0x462515dC7c21C728C8b7A777fDC89EEdAcF74537" deprecated,
    )
    ∷ (
      "stakingTokenWrapperFOXLaaS",
      contract_config "StakingTokenWrapper" "0x3CD384ff1Fa1cbA8f06DF326AF4cbDA634aF94e8" deprecated,
    )
    ∷ (
      "stakingTokenWrapperGROLaaS",
      contract_config "StakingTokenWrapper" "0x508629e8E0B96986Df4D0F1F60aadeF1d0FbaE96" deprecated,
    )
    ∷ (
      "stakingTokenWrapperKYLINLaaS",
      contract_config "StakingTokenWrapper" "0xFe266d143dB42a9835e2B1AB43B64a46278398cc" deprecated,
    )
    ∷ (
      "stakingTokenWrapperMStableLaaS",
      contract_config "StakingTokenWrapper" "0x9B9ad20Cd99Cac3B536b94497A18346d66db0379" deprecated,
    )
    ∷ (
      "stakingTokenWrapperNEARLaaS",
      contract_config "StakingTokenWrapper" "0x3b3591a4f7FD386E9987Eb48d898e29b57c30c47" deprecated,
    )
    ∷ (
      "stakingTokenWrapperPoolTogetherLaaS",
      contract_config "StakingTokenWrapper" "0x6b018170311F3DA23c3fA62AFe1b2D0638522CCD" deprecated,
    )
    ∷ (
      "stakingTokenWrapperRari",
      contract_config "StakingTokenWrapper" "0xd81Be1B9A7895C996704A8DDa794BbA4454EeB90" deprecated,
    )
    ∷ (
      "stakingTokenWrapperSYNLaaS",
      contract_config "StakingTokenWrapper" "0x5Db85e395735Bb42eEB720Fe2EE69627d246e300" deprecated,
    )
    ∷ (
      "stakingTokenWrapperUMALaaS",
      contract_config "StakingTokenWrapper" "0x90B336dFF819b9e4b3D9A32cabdcAB0E92836065" deprecated,
    )
    ∷ (
      "fei3CrvStakingtokenWrapper",
      contract_config "StakingTokenWrapper" "0x7013dc2e3c0D5ca3c0a6a66F6B5883eD203ac49c" deprecated,
    )
    ∷ (
      "feiDaiStakingTokenWrapper",
      contract_config "StakingTokenWrapper" "0x601FFddACcAF7F05600D7E7561a51C745B8A2A3e" deprecated,
    )
    ∷ (
      "feiUsdcStakingTokenWrapper",
      contract_config "StakingTokenWrapper" "0x0A0542Adf2fA8e85DD797697da537448b2e7c3EE" deprecated,
    )
    ∷ (
      "feiDaiAutoRewardsDistributor",
      contract_config "AutoRewardsDistributorV2" "0xE6Fef62A834D9b0BA1Da832769D6E99135dD2E0e"
          deprecated,
    )
    ∷ (
      "feiUsdcAutoRewardsDistributor",
      contract_config "AutoRewardsDistributorV2" "0x1126f1fA7Da556F8F82846223E3C2176B5631707"
          deprecated,
    )
    ∷ ("fox", contract_config "IERC20" "0xc770EEfAd204B5180dF6a14Ee197D99d808ee52d" external)
    ∷ (
      "d3StakingTokenWrapper",
      contract_config "StakingTokenWrapper" "0xAa267d0A5A0A56Ef0F17bB4A28f85a5C4e0394F6" deprecated,
    )
    ∷ (
      "stwBulkHarvest",
      contract_config "STWBulkHarvest" "0x83433D925048d7e9D2D7Eec2A0Efbb4456Af2F93" deprecated,
    )
    ∷ (
      "tribalChiefSyncV2",
      contract_config "TribalChiefSyncV2" "0xb41c594f9a6a2E0882212598337AF8145f63731b" deprecated,
    )
    ∷ (
      "tribalChiefSyncExtension",
      contract_config "TribalChiefSyncExtension" "0x7b834cA07f81d52bB52d98DaE560D1442b2d7dBa"
          deprecated,
    )
    ∷ (
      "stakingTokenWrapperBribe3Crvpool",
      contract_config "StakingTokenWrapper" "0xaC98807E5CC43f134b00E87349e4ea3eDf927961" deprecated,
    )
    ∷ (
      "votiumBriberD3pool",
      contract_config "VotiumBriber" "0x0BEC570466B466aB689Ad33F1Ce5238CA43C8003" deprecated,
    )
    ∷ (
      "aavePassthroughETH",
      contract_config "unknown" "0x126AD2B5341A30D8115C443B3158E7661e4faD26" deprecated,
    )
    ∷ (
      "balDepositWrapper",
      contract_config "ERC20PCVDepositWrapper" "0x7E28BA7a2D52Af88242E588d868E927119BA45dB"
          deprecated,
    )
    ∷ (
      "compoundPassthroughETH",
      contract_config "unknown" "0xF56B0B80ea6E986364c50177d396b988C3e41094" deprecated,
    )
    ∷ (
      "daiBondingCurve",
      contract_config "unknown" "0xC0afe0E649e32528666F993ce63822c3840e941a" deprecated,
    )
    ∷ []

unfoldable pub contracts_seventeenth : Object ContractConfig
contracts_seventeenth =
    (
      "daiBondingCurveWrapper",
      contract_config "PCVDepositWrapper" "0x2547d76E2447E67F29d6bFeE5d46FDd2183c88E4" deprecated,
    )
    ∷ (
      "creamFeiPCVDeposit",
      contract_config "ERC20CompoundPCVDeposit" "0x243C601CC5DaA3Ac250B14509804188347bd2aFB"
          deprecated,
    )
    ∷ (
      "bondingCurve",
      contract_config "unknown" "0xB783c0E21763bEf9F2d04E6499abFbe23AdB7e1F" deprecated,
    )
    ∷ (
      "compoundEthPCVDripController",
      contract_config "PCVDripController" "0xa84C8be28f3d560059339f06C6b6c5B23f53C58C" deprecated,
    )
    ∷ (
      "ethReserveStabilizer",
      contract_config "unknown" "0x17305f0e18318994a57b494078CAC866A857F7b6" deprecated,
    )
    ∷ (
      "creamFeiPCVDepositWrapper",
      contract_config "PCVDepositWrapper" "0xFf419Bc27483edb94b7Ad5c97b7FaB5DB323c7E0" deprecated,
    )
    ∷ (
      "daiPSMFeiSkimmer",
      contract_config "FeiSkimmer" "0xf8Ca6c10a794C867497541F5b7A7f96ca2bCd1E8" deprecated,
    )
    ∷ (
      "defiPulseOTC",
      contract_config "unknown" "0x673d140eed36385cb784e279f8759f495c97cf03" deprecated,
    )
    ∷ (
      "dpiBondingCurve",
      contract_config "unknown" "0xBf5721c5E1C370f6F1A3E21b3972E0AcE93A1E84" deprecated,
    )
    ∷ (
      "dpiBondingCurveWrapper",
      contract_config "PCVDepositWrapper" "0x60B63eF8f461355207fE1d8102dda938bbd8c3fB" deprecated,
    )
    ∷ (
      "ethOTCEscrow",
      contract_config "OtcEscrow" "0x6Cfed416f0729d5754f13fDDf297789079208E2e" deprecated,
    )
    ∷ (
      "ethPCVDripper",
      contract_config "IPCVDeposit" "0xDa079A280FC3e33Eb11A78708B369D5Ca2da54fE" deprecated,
    )
    ∷ (
      "feiBalOtcEscrow",
      contract_config "OtcEscrow" "0x7fB1f6Cb94f01Ba03d2af5cC13c4c1E74b9b9Ecc" deprecated,
    )
    ∷ (
      "feiBuybackLens",
      contract_config "BPTLens" "0x107460564896377BA6CdcC7516c7eAb65E32E360" deprecated,
    )
    ∷ (
      "feiLusdLens",
      contract_config "BPTLens" "0x1F05b337cB16CeA2a1C638Ba9b9571F0Cf4a5612" deprecated,
    )
    ∷ (
      "feiLusdLBPSwapper",
      contract_config "BalancerLBPSwapper" "0x5fc76F8Fc3AF2b19D45AC841252dcE711ed448ff" deprecated,
    )
    ∷ (
      "feiOTCEscrow",
      contract_config "OtcEscrow" "0x9B9fE1b732839a53948B02E5164c0A50fdf11e06" deprecated,
    )
    ∷ (
      "feiRewardsDistributor",
      contract_config "unknown" "0xEf1a94AF192A88859EAF3F3D8C1B9705542174C5" deprecated,
    )
    ∷ (
      "genesisGroup",
      contract_config "unknown" "0xBFfB152b9392e38CdDc275D818a3Db7FE364596b" deprecated,
    )
    ∷ (
      "governorAlpha",
      contract_config "GovernorAlpha" "0xE087F94c3081e1832dC7a22B48c6f2b5fAaE579B" deprecated,
    )
    ∷ (
      "governorAlphaBackup",
      contract_config "GovernorAlpha" "0x4C895973334Af8E06fd6dA4f723Ac24A5f259e6B" deprecated,
    )
    ∷ (
      "oldEthBondingCurve",
      contract_config "unknown" "0xe1578B4a32Eaefcd563a9E6d0dc02a4213f673B7" deprecated,
    )
    ∷ (
      "oldEthReserveStabilizer",
      contract_config "unknown" "0xa08A721dFB595753FFf335636674D76C455B275C" deprecated,
    )
    ∷ (
      "ratioPCVController",
      contract_config "unknown" "0xB1410aeCe2c65fE9e107c58b5aa32e91B18f0BC7" deprecated,
    )
    ∷ (
      "oldRatioPCVController",
      contract_config "unknown" "0xfC1aD6eb84351597cD3b9B65179633697d65B920" deprecated,
    )
    ∷ (
      "raiBondingCurve",
      contract_config "unknown" "0x25d60212D47Dd8F6Ff0469367E4c6C98Cd3411A5" deprecated,
    )
    ∷ (
      "raiBondingCurveWrapper",
      contract_config "PCVDepositWrapper" "0xc42e155788f9f599Fd437C7455F63810A395a81f" deprecated,
    )
    ∷ (
      "staticPcvDepositWrapper",
      contract_config "unknown" "0x8B41DcEfAe6064E6bc2A9B3ae20141d23EFD6cbd" deprecated,
    )
    ∷ (
      "staticPcvDepositWrapper2",
      contract_config "unknown" "0xe72EB93de743F819fe91277582d7d0Fa9bb9b023" deprecated,
    )
    ∷ []

unfoldable pub contracts_eighteenth : Object ContractConfig
contracts_eighteenth =
    (
      "tribalChiefOptimisticTimelock",
      contract_config "Timelock" "0x27Fae9E49AD955A24bB578B66Cdc962b5029fbA9" deprecated,
    )
    ∷ (
      "tribalChiefSync",
      contract_config "unknown" "0x7A883825caA45fcbDcd76991C5972Baf1551aa3d" deprecated,
    )
    ∷ (
      "tribeBalOtcEscrow",
      contract_config "OtcEscrow" "0xfFdEe6b0261d70278f5A3093A375c282eF8266Db" deprecated,
    )
    ∷ (
      "tribeOTCEscrow",
      contract_config "OtcEscrow" "0xe2fE8041429e4bd51c40F92C6cDb699527171298" deprecated,
    )
    ∷ (
      "tribeRagequit",
      contract_config "TRIBERagequit" "0xE77d572F04904fFea40899FD907F7ADd6Ea5228A" deprecated,
    )
    ∷ (
      "uniswapOracle",
      contract_config "unknown" "0x087F35bd241e41Fc28E43f0E8C58d283DD55bD65" deprecated,
    )
    ∷ (
      "uniswapPCVController",
      contract_config "unknown" "0x0760dfe09bd6d04d0df9a60c51f01ecedceb5132" deprecated,
    )
    ∷ (
      "uniswapRouter",
      contract_config "unknown" "0x7a250d5630B4cF539739dF2C5dAcb4c659F2488D" deprecated,
    )
    ∷ (
      "convexPoolPCVDepositWrapper",
      contract_config "PCVDepositWrapper" "0x1370CA8655C255948d6c6110066d78680601B7c2" deprecated,
    )
    ∷ (
      "timelock",
      contract_config "Timelock" "0x639572471f2f318464dc01066a56867130e45E25" deprecated,
    )
    ∷ (
      "ohmEscrow",
      contract_config "OtcEscrow" "0x14d2F529576d3a5451BfbA370408a899Bb5261a9" deprecated,
    )
    ∷ (
      "ohmEscrowUnwind",
      contract_config "OtcEscrow" "0x01e292c0fBe4C35aE3af981a37Af30ca86d5a712" deprecated,
    )
    ∷ (
      "gOHMHoldingPCVDeposit",
      contract_config "ERC20HoldingPCVDeposit" "0x2C9980fa0a1ABe4B0cc6263132d8EB41Db9B73Ba"
          deprecated,
    )
    ∷ (
      "mergerGate",
      contract_config "MergerGate" "0xC2d452A4Feb76B41659cd036D5746149B98453D6" deprecated,
    )
    ∷ (
      "rariPool54FeiPCVDeposit",
      contract_config "ERC20CompoundPCVDeposit" "0x9d28B8Cb17c3E25b6Cce17f88B259f75174b69f4"
          deprecated,
    )
    ∷ (
      "reptbRedeemer",
      contract_config "REPTbRedeemer" "0xfEa132A3B7B70089f3d58F04eC1D1C2F321ef660" deprecated,
    )
    ∷ (
      "kashiRedeemer",
      contract_config "KashiPCVRedeemer" "0x14a38801FcC8a20b6c26cBcF85B7231218633928" deprecated,
    )
    ∷ (
      "idleTranchesRedeemer",
      contract_config "IdleTranchePCVRedeemer" "0x4E2F5e67e0A7A9bbFc257CEB1586D56F20364077"
          deprecated,
    )
    ∷ (
      "idleRedeemer",
      contract_config "IdlePCVRedeemer" "0xBca1d1eC00581ad3033eB88D9F0206BB4B9D1b90" deprecated,
    )
    ∷ ("idle", contract_config "IERC20" "0x875773784Af8135eA0ef43b5a374AaD105c5D39e" external)
    ∷ (
      "bbRedeemer",
      contract_config "SmartYieldRedeemer" "0x2dC77678Be7F900e81c638b056F4835BB7203C96" deprecated,
    )
    ∷ (
      "podExecutor",
      contract_config "PodExecutor" "0x99d8b669F48A708f7C0373AF6CE31F0726ab6CaD" deprecated,
    )
    ∷ (
      "clawbackVestingContractA",
      contract_config "QuadraticTimelockedDelegator" "0x1b4948248E13dc6Ec2A8e2B5Baa5EB78739d9486"
          deprecated,
    )
    ∷ (
      "clawbackVestingContractB",
      contract_config "QuadraticTimelockedDelegator" "0xf2a5872a34E69101f5311A8196EFac8d7B79dcCd"
          deprecated,
    )
    ∷ (
      "clawbackVestingContractC",
      contract_config "QuadraticTimelockedDelegator" "0xba7182c1B6df04bB730f0008BddeD27fc7D13ea2"
          deprecated,
    )
    ∷ (
      "clawbackVestingContractBeneficiary",
      contract_config "unknown" "0x4bFa2625D50b68D622D1e71c82ba6Db99BA0d17F" deprecated,
    )
    ∷ (
      "feiLabsVestingTimelock",
      contract_config "TimelockedDelegator" "0x38afbf8128cc54323e216acde9516d281c4f1e5f" deprecated,
    )
    ∷ (
      "pegExchanger",
      contract_config "PegExchanger" "0xc09BB5ECf865e6f69Fe62A43c27f036A426909f7" deprecated,
    )
    ∷ (
      "pegExchangerDripper",
      contract_config "PegExchangerDripper" "0xC416EEe663ECa29cEB726241caDFFe6a77D61E2D" deprecated,
    )
    ∷ []

unfoldable pub contracts_nineteenth : Object ContractConfig
contracts_nineteenth =
    (
      "newRariInfraFeiTimelock",
      contract_config "LinearTokenTimelock" "0x5d39721BA1c734b395C2CAdbdeeC178F688F6ec9" deprecated,
    )
    ∷ (
      "newRariInfraTribeTimelock",
      contract_config "LinearTimelockedDelegator" "0x20bC8FE104fadED2D0aD9634D745f1488f9991eF"
          deprecated,
    )
    ∷ (
      "angleEuroRedeemer",
      contract_config "AngleEuroRedeemer" "0x05A842943a56720Ebecd2D5f1fb32E48dB25863C" deprecated,
    )
    ∷ (
      "vlAuraDelegatorPCVDeposit",
      contract_config "VlAuraDelegatorPCVDeposit" "0xc44902C03093D52213d20E5b06a0Bda4D9Ce6524" tbd,
    )
    ∷ (
      "vlAuraDelegatorPCVDepositImplementation",
      contract_config "VlAuraDelegatorPCVDeposit" "0x6A78a824BC61Abf70C6AC33c41d37206B22B575d" tbd,
    )
    ∷ (
      "vlAuraDelegatorPCVDepositImplementationOld",
      contract_config "VlAuraDelegatorPCVDeposit" "0xEd47a9519F86a695A212B53B5EBff92aF41741b1" tbd,
    )
    ∷ []
