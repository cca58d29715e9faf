-- ===== src/Config/MainnetThree.antt =====
-- protocol-configuration/mainnetAddresses.ts, lines 1468 to 2196.
use tribe.Base.{[], ◌∷◌}
use tribe.Js.{Object}
use tribe.Types.{ContractConfig, contract_config, external, pcv, uncategorized, deprecated}

unfoldable pub contracts_eleventh : Object ContractConfig
contracts_eleventh =
    ("tWETH", contract_config "IERC20" "0xD3D13a578a53685B4ac36A1Bab31912D2B2A2F36" external)
    ∷ (
      "votiumBribe",
      contract_config "IVotiumBribe" "0x19BBC3463Dd8d07f55438014b021Fb457EBD4595" external,
    )
    ∷ ("weth", contract_config "WETH9" "0xC02aaA39b223FE8D0A0e5C4F27eAD9083C756Cc2" external)
    ∷ (
      "wethHoldingPCVDeposit",
      contract_config "ERC20HoldingPCVDeposit" "0xC6D675ca5217d39C3A5E366141060fC2D1ea2b82" pcv,
    )
    ∷ (
      "orcaPodController",
      contract_config "IControllerV1" "0x17FDC2Eaf2bd46f3e1052CCbccD9e6AD0296C42c" external,
    )
    ∷ (
      "orcaMemberToken",
      contract_config "IMemberToken" "0x0762aA185b6ed2dCA77945Ebe92De705e0C37AE3" external,
    )
    ∷ (
      "orcaShipToken",
      contract_config "unknown" "0x872EdeaD0c56930777A82978d4D7deAE3A2d1539" external,
    )
    ∷ (
      "tribeDev1Deployer",
      contract_config "unknown" "0x64c4Bffb220818F0f2ee6DAe7A2F17D92b359c5d" external,
    )
    ∷ (
      "tribeDev2Deployer",
      contract_config "unknown" "0xcE96fE7Eb7186E9F894DE7703B4DF8ea60E2dD77" external,
    )
    ∷ (
      "tribeDev3Deployer",
      contract_config "unknown" "0xE2388f22cf5e328C197D6530663809cc0408a510" external,
    )
    ∷ (
      "tribeDev4Deployer",
      contract_config "unknown" "0x5346b4ff3e924508d33d93f352d11e392a7a9d3b" external,
    )
    ∷ (
      "voltOTCEscrow",
      contract_config "OtcEscrow" "0x590eb1a809377f786a11fa1968eF8c15eB44A12F" external,
    )
    ∷ ("gOHM", contract_config "IERC20" "0x0ab87046fBb341D058F17CBC4c1133F25a20a52f" external)
    ∷ (
      "makerUSDCPSM",
      contract_config "IDSSPSM" "0x89B78CfA322F6C5dE0aBcEecab66Aee45393cC5A" external,
    )
    ∷ ("makerUSDCGemJoin", uncategorized "unknown" "0x0A59649758aa4d66E25f08Dd01271e891fe52199")
    ∷ ("aura", contract_config "IERC20" "0xC0c293ce456fF0ED870ADd98a0828Dd4d2903DBF" external)
    ∷ (
      "vlAura",
      contract_config "IAuraLocker" "0x3Fa73f1E5d8A792C80F426fc8F84FBF7Ce9bBCAC" external,
    )
    ∷ (
      "auraMerkleDrop",
      contract_config "IAuraMerkleDrop" "0x45EB1A004373b1D8457134A2C04a42d69D287724" external,
    )
    ∷ ("eswak", contract_config "unknown" "0x6ef71cA9cD708883E129559F5edBFb9d9D5C6148" external)
    ∷ (
      "olympusMultisig",
      contract_config "unknown" "0x245cc372C84B3645Bf0Ffe6538620B04a217988B" external,
    )
    ∷ (
      "noFeeFeiTribeLBPSwapper",
      contract_config "BalancerLBPSwapper" "0xC05FAF6C5C4bC1bD841AdFC92b3D3f20180F26E8" deprecated,
    )
    ∷ (
      "compoundDaiPCVDepositWrapper",
      contract_config "PCVDepositWrapper" "0xfDe7077AAEcDaf2C4B85261Aa858c96A7E737a61" deprecated,
    )
    ∷ (
      "feiBuybackLensNoFee",
      contract_config "BPTLens" "0x89DfBC12001b41985eFAbd7dFCae6a77B22E4Ec3" deprecated,
    )
    ∷ (
      "compoundDaiPCVDeposit",
      contract_config "ERC20CompoundPCVDeposit" "0xe0f73b8d76D2Ad33492F995af218b03564b8Ce20"
          deprecated,
    )
    ∷ (
      "namedStaticPCVDepositWrapper",
      contract_config "NamedStaticPCVDepositWrapper" "0x06dAcca04e201AD31393754E68dA04Dc14778Fa6"
          deprecated,
    )
    ∷ (
      "uniswapFeiTribeLiquidityTimelock",
      contract_config "FeiTribeLiquidityTimelockInterface"
          "0x7D809969f6A04777F0A87FF94B57E56078E5fE0F" deprecated,
    )
    ∷ []

unfoldable pub contracts_twelfth : Object ContractConfig
contracts_twelfth =
    (
      "chainlinkOhmV2EthOracleWrapper",
      contract_config "ChainlinkOracleWrapper" "0xA67541733A5179977bED7d38F95b63b8c5398E18"
          deprecated,
    )
    ∷ (
      "uniswapLiquidityRemover",
      contract_config "UniswapLiquidityRemover" "0x378CFc826f9235587e50c1BcE0fA108AF5B9B7dA"
          deprecated,
    )
    ∷ (
      "dpiToDaiLBPSwapper",
      contract_config "BalancerLBPSwapper" "0x05FD907528cf725C6F6d1D28E14619A313513Ba8" deprecated,
    )
    ∷ (
      "optimisticMinter",
      contract_config "OwnableTimedMinter" "0xE66c4De480Bd317054B5a3CF8E8689649d0728c9" deprecated,
    )
    ∷ (
      "aaveEthPCVDripController",
      contract_config "PCVDripController" "0xb3D63876d95d3a5e591D4DE536dC410b97244086" deprecated,
    )
    ∷ (
      "gOhmUSDOracle",
      contract_config "CompositeOracle" "0x319BCE09E7E3e32dac08206129Df541F189A5Df8" deprecated,
    )
    ∷ (
      "gOhmEthOracle",
      contract_config "GOhmEthOracle" "0x49A7e453c164353ac2980ac05756a8C46B062293" deprecated,
    )
    ∷ (
      "raiPCVDripController",
      contract_config "PCVDripController" "0x64d216dFbe31d0C88BBcAdfF51Ab2aD704A3aAd9" deprecated,
    )
    ∷ (
      "lusdPSMFeiSkimmer",
      contract_config "FeiSkimmer" "0xFc29429D8c8D80320C4AB454131f741F56239c2b" deprecated,
    )
    ∷ (
      "lusdPCVDripController",
      contract_config "PCVDripController" "0x59fA1bB4fBd7fcB055476645F228f13ac14754a8" deprecated,
    )
    ∷ (
      "collateralizationOracleKeeper",
      contract_config "CollateralizationOracleKeeper" "0x62378C316a6161A613D02E11F65290aED79B3eD5"
          deprecated,
    )
    ∷ (
      "opsOptimisticTimelock",
      contract_config "OptimisticTimelock" "0x7DC26A320a9f70Db617e24B77aCA1D3DC48C5721" deprecated,
    )
    ∷ (
      "lusdPSM",
      contract_config "PegStabilityModule" "0xb0e731F036AdfDeC12da77c15aaB0F90E8e45A0e" deprecated,
    )
    ∷ (
      "raiPriceBoundPSM",
      contract_config "PriceBoundPSM" "0x5ddE9B4b14eDf59CB23c1d4579B279846998205e" deprecated,
    )
    ∷ (
      "ethPSM",
      contract_config "PegStabilityModule" "0x98E5F5706897074a4664DD3a32eB80242d6E694B" deprecated,
    )
    ∷ (
      "ethPSMRouter",
      contract_config "PSMRouter" "0xFA6a07f3551bF0ceE88D494780ce793AF452Cbca" deprecated,
    )
    ∷ (
      "ethPSMFeiSkimmer",
      contract_config "FeiSkimmer" "0xA8A25F8cbfC5053241aB6FA87b865755dcB5501F" deprecated,
    )
    ∷ (
      "dpiToDaiLensDai",
      contract_config "BPTLens" "0x3AA57FAf7114a9ebEbda73a997A35eAE06008A7B" deprecated,
    )
    ∷ (
      "dpiToDaiLensDpi",
      contract_config "BPTLens" "0xaDdB7eBdCA3fa3b72D2e57c8e660C90ec00af7Cc" deprecated,
    )
    ∷ (
      "agEurUniswapPCVDeposit",
      contract_config "UniswapPCVDeposit" "0xE8633C49AcE655EB4A8B720e6b12F09Bd3a97812" deprecated,
    )
    ∷ (
      "bammDeposit",
      contract_config "BAMMDeposit" "0x374628EBE7Ef6AcA0574e750B618097531A26Ff8" deprecated,
    )
    ∷ (
      "d3poolConvexPCVDeposit",
      contract_config "ConvexPCVDeposit" "0x5ae217dE26f6Ff5F481C6e10ec48b2cf2fc857C8" deprecated,
    )
    ∷ (
      "d3poolCurvePCVDeposit",
      contract_config "CurvePCVDepositPlainPool" "0x24F663c69Cd4B263cf5685A49013Ff5f1C898D24"
          deprecated,
    )
    ∷ (
      "ethTokemakPCVDeposit",
      contract_config "EthTokemakPCVDeposit" "0x0961d2a545e0c1201B313d14C57023682a546b9D"
          deprecated,
    )
    ∷ (
      "rariPool7LusdPCVDeposit",
      contract_config "ERC20CompoundPCVDeposit" "0x6026a1559CDd44a63C5CA9A078CC996a9eb68ABB"
          deprecated,
    )
    ∷ (
      "uniswapPCVDeposit",
      contract_config "UniswapPCVDeposit" "0x15958381E9E6dc98bD49655e36f524D2203a28bD" deprecated,
    )
    ∷ (
      "aaveEthPCVDepositWrapper",
      contract_config "PCVDepositWrapper" "0x43Ef03755991056681F01EE2182234eF6aF1f658" deprecated,
    )
    ∷ (
      "compoundEthPCVDepositWrapper",
      contract_config "PCVDepositWrapper" "0x0735e14D28eD395048d5Fa4a8dbe6e6EB9fc0470" deprecated,
    )
    ∷ (
      "feiOATimelockWrapper",
      contract_config "PCVDepositWrapper" "0x7Eb88140af813294aEDce981b6aC08fcd139d408" deprecated,
    )
    ∷ []

unfoldable pub contracts_thirteenth : Object ContractConfig
contracts_thirteenth =
    (
      "rariPool19FeiPCVDepositWrapper",
      contract_config "PCVDepositWrapper" "0x7e39bBA9D0d967Ee55524fAe9e54900B02d9889a" deprecated,
    )
    ∷ (
      "rariPool24FeiPCVDepositWrapper",
      contract_config "PCVDepositWrapper" "0x508f6fbd78B6569C29E9D75986a51558dE9E5865" deprecated,
    )
    ∷ (
      "rariPool6FeiPCVDepositWrapper",
      contract_config "PCVDepositWrapper" "0x7aA4b1558C3e219cFFFd6a356421C071F71966e7" deprecated,
    )
    ∷ (
      "rariPool128FeiPCVDepositWrapper",
      contract_config "PCVDepositWrapper" "0xA62ddde8F799873E6FcdbB3aCBbA75da85D9dcdE" deprecated,
    )
    ∷ (
      "rariPool22FeiPCVDepositWrapper",
      contract_config "PCVDepositWrapper" "0xa2BdbCb95d31C85BAE6f0FA42D55F65d609D94eE" deprecated,
    )
    ∷ (
      "wethDepositWrapper",
      contract_config "ERC20PCVDepositWrapper" "0x5E9fA7d783A7F7d4626cE450C8Bd2EbBB26dfdB2"
          deprecated,
    )
    ∷ (
      "agEurDepositWrapper",
      contract_config "ERC20PCVDepositWrapper" "0x485d23ce5725ecdE46ca9033012984D90b514FFd"
          deprecated,
    )
    ∷ (
      "voltDepositWrapper",
      contract_config "ERC20PCVDepositWrapper" "0x564eFCe5c6873219a7FbE450187c23254E3d62a4"
          deprecated,
    )
    ∷ (
      "uniswapLensAgEurUniswapGauge",
      contract_config "UniswapLens" "0xD2554839c2e8a87Dd2CddD013EF828B6534aBC26" deprecated,
    )
    ∷ (
      "aaveEthPCVDeposit",
      contract_config "AavePCVDeposit" "0x5B86887e171bAE0C2C826e87E34Df8D558C079B9" deprecated,
    )
    ∷ (
      "compoundEthPCVDeposit",
      contract_config "EthCompoundPCVDeposit" "0x4fCB1435fD42CE7ce7Af3cB2e98289F79d2962b3"
          deprecated,
    )
    ∷ (
      "rariPool24FeiPCVDeposit",
      contract_config "ERC20CompoundPCVDeposit" "0x1434F99EDB2bD03DECCCFe21288767b8324B7403"
          deprecated,
    )
    ∷ (
      "rariPool19FeiPCVDeposit",
      contract_config "ERC20CompoundPCVDeposit" "0xD6960adba53212bBE96E54a7AFeDA2066437D000"
          deprecated,
    )
    ∷ (
      "rariPool6FeiPCVDeposit",
      contract_config "ERC20CompoundPCVDeposit" "0xB51f09B6F103D697dc5d64DC904Ad6a2Dad39987"
          deprecated,
    )
    ∷ (
      "agEurAngleUniswapPCVDeposit",
      contract_config "AngleUniswapPCVDeposit" "0x7AC2Ab8143634419c5bc230A9f9955C3e29f64Ef"
          deprecated,
    )
    ∷ (
      "gaugeLensAgEurUniswapGauge",
      contract_config "AngleGaugeLens" "0x10f59bd0a100bcAD86CaB39751797D952eE1f76f" deprecated,
    )
    ∷ (
      "collateralizationOracleGuardian",
      contract_config "CollateralizationOracleGuardian" "0x81De6bA8df84A4B679061952E171a27F096F3eAe"
          deprecated,
    )
    ∷ (
      "collateralizationOracleWrapper",
      contract_config "CollateralizationOracleWrapper" "0xd1866289B4Bd22D453fFF676760961e0898EE9BF"
          deprecated,
    )
    ∷ (
      "collateralizationOracleWrapperImpl",
      contract_config "CollateralizationOracleWrapper" "0x656aA9c9875eB089b11869d4730d6963D25E76ad"
          deprecated,
    )
    ∷ (
      "turboFusePCVDeposit",
      contract_config "ERC20CompoundPCVDeposit" "0x2c47Fef515d2C70F2427706999E158533F7cF090"
          deprecated,
    )
    ∷ (
      "aaveTribeIncentivesController",
      contract_config "IAaveIncentivesController" "0xDee5c1662bBfF8f80f7c572D8091BF251b3B0dAB"
          deprecated,
    )
    ∷ (
      "aaveTribeIncentivesControllerImpl",
      contract_config "IAaveIncentivesController" "0xFF865335401F12B88fa3FF5A3a51685A7f224191"
          deprecated,
    )
    ∷ (
      "erc20Dripper",
      contract_config "ERC20Dripper" "0x3Fe0EAD3500e767F0F8bC2d3B5AF7755B1b21A6a" deprecated,
    )
    ∷ (
      "rariRewardsDistributorDelegate",
      contract_config "IRewardsDistributorAdmin" "0x220f93183a69d1598e8405310cB361CFF504146F"
          deprecated,
    )
    ∷ (
      "rariRewardsDistributorDelegator",
      contract_config "IRewardsDistributorDelegator" "0x73F16f0c0Cd1A078A54894974C5C054D8dC1A3d7"
          deprecated,
    )
    ∷ (
      "tribalChief",
      contract_config "TribalChief" "0x9e1076cC0d19F9B0b8019F384B0a29E48Ee46f7f" deprecated,
    )
    ∷ (
      "tribalChiefImpl",
      contract_config "TribalChief" "0x2d91362e8bcAA8826b482B531dcb170FC9d17777" deprecated,
    )
    ∷ (
      "votiumBriber3Crvpool",
      contract_config "VotiumBriber" "0x8B6A295a35171E2F05B1579E485017B999810dcb" deprecated,
    )
    ∷ (
      "voltHoldingPCVDeposit",
      contract_config "ERC20HoldingPCVDeposit" "0xBDC01c9743989429df9a4Fe24c908D87e462AbC1"
          deprecated,
    )
    ∷ []

unfoldable pub contracts_fourteenth : Object ContractConfig
contracts_fourteenth =
    ("voltCore", contract_config "Core" "0xEC7AD284f7Ad256b64c6E69b84Eb0F48f42e8196" deprecated)
    ∷ (
      "voltFeiSwapContract",
      contract_config "OtcEscrow" "0xeF152E462B59940616E667E801762dA9F2AF97b9" deprecated,
    )
    ∷ (
      "voltOraclePassthrough",
      contract_config "IOracle" "0x84dc71500D504163A87756dB6368CC8bB654592f" deprecated,
    )
    ∷ (
      "voltOracle",
      contract_config "CompositeOracle" "0x8A1f9707AbeE2102Da45a2392f2F992BA22Ff446" deprecated,
    )
    ∷ (
      "tribeFeiLabsDel1",
      contract_config "unknown" "0x107d1c9ef7a2ddb6a4aecfdcd6658355c7435a43" external,
    )
    ∷ (
      "tribeFeiLabsDel2",
      contract_config "unknown" "0xe0ac4559739bd36f0913fb0a3f5bfc19bcbacd52" external,
    )
    ∷ (
      "tribeFeiLabsDel3",
      contract_config "unknown" "0x486c33760ad3f6d9cf4a63493773e2b69635d602" external,
    )
    ∷ (
      "tribeFeiLabsDel4",
      contract_config "unknown" "0x70b6ab736be7672c917a1ab11e67b5bc9fddeca9" external,
    )
    ∷ (
      "tribeFeiLabsDel5",
      contract_config "unknown" "0xc8eefb8b3d50ca87da7f99a661720148acf97efa" external,
    )
    ∷ (
      "tribeFeiLabsDel6",
      contract_config "unknown" "0x66b9d411e14fbc86424367b67933945fd7e40b11" external,
    )
    ∷ (
      "feiTribeLBPSwapper",
      contract_config "BalancerLBPSwapper" "0x16ef9601076d45e8cc564cDD91E5dF3Ae83dD3B3" deprecated,
    )
    ∷ (
      "delayedPCVMoverWethUniToBal",
      contract_config "DelayedPCVMover" "0x52B1D5BE5005002afD76193ADd3a827c18e2db99" deprecated,
    )
    ∷ (
      "rariGovernanceTokenSushiSwapDistributor",
      contract_config "RariGovernanceTokenUniswapDistributor"
          "0x1fa69a416bcf8572577d3949b742fbb0a9cd98c7" deprecated,
    )
    ∷ (
      "pcvGuardianV1",
      contract_config "PCVGuardian" "0x2D1b1b509B6432A73e3d798572f0648f6453a5D9" deprecated,
    )
    ∷ (
      "daiPSM",
      contract_config "PriceBoundPSM" "0x210300C158f95E1342fD008aE417ef68311c49C2" deprecated,
    )
    ∷ (
      "aaveRaiPCVDeposit",
      contract_config "AavePCVDeposit" "0xd2174d78637a40448112aa6B30F9B19e6CF9d1F9" deprecated,
    )
    ∷ (
      "ethLidoPCVDepositOld",
      contract_config "EthLidoPCVDeposit" "0xac38ee05c0204a1e119c625d0a560d6731478880" deprecated,
    )
    ∷ (
      "rariPool18FeiPCVDeposit",
      contract_config "ERC20CompoundPCVDeposit" "0x5A8CB4556e5D5935Af06beab8292905f48131479"
          deprecated,
    )
    ∷ (
      "rariPool25FeiPCVDeposit",
      contract_config "ERC20CompoundPCVDeposit" "0xe1662531aA5de1DAD8ab5B5756b8F6c8F3C759Ca"
          deprecated,
    )
    ∷ (
      "rariPool26FeiPCVDeposit",
      contract_config "ERC20CompoundPCVDeposit" "0xFdCc96967C86250f333cE52Ba706Ec2961c3302f"
          deprecated,
    )
    ∷ (
      "rariPool27FeiPCVDeposit",
      contract_config "ERC20CompoundPCVDeposit" "0x91f50E3183a8CC30D2A981C3aFA85A2Bf6691c67"
          deprecated,
    )
    ∷ (
      "rariPool19DpiPCVDeposit",
      contract_config "ERC20CompoundPCVDeposit" "0x3dD3d945C4253bAc5B4Cc326a001B7d3f9C4DD66"
          deprecated,
    )
    ∷ (
      "rariPool7FeiPCVDeposit",
      contract_config "ERC20CompoundPCVDeposit" "0x74B235Fef146cDB5BE0D3786a9f3774674b3615E"
          deprecated,
    )
    ∷ (
      "rariPool9FeiPCVDeposit",
      contract_config "ERC20CompoundPCVDeposit" "0xF2D8beE45f29A779cFB9F04ac233E703974a2C53"
          deprecated,
    )
    ∷ (
      "rariPool9RaiPCVDeposit",
      contract_config "ERC20CompoundPCVDeposit" "0x9aAdFfe00eAe6d8e59bB4F7787C6b99388A6960D"
          deprecated,
    )
    ∷ (
      "rariPool28FeiPCVDeposit",
      contract_config "ERC20CompoundPCVDeposit" "0xb0D5eBA35E1cecE568096064Ed68A49C6A24d961"
          deprecated,
    )
    ∷ (
      "rariPool31FeiPCVDeposit",
      contract_config "ERC20CompoundPCVDeposit" "0x81DCB06eA4db474D1506Ca6275Ff7D870bA3A1Be"
          deprecated,
    )
    ∷ (
      "rariPool72FeiPCVDeposit",
      contract_config "ERC20CompoundPCVDeposit" "0x4A5Af5A124E672C156241b76CAd4E41D09dd4883"
          deprecated,
    )
    ∷ (
      "rariPool90FeiPCVDeposit",
      contract_config "ERC20CompoundPCVDeposit" "0x61d26126D2F8A44b41c1D8E1B1F276551DC8EEc6"
          deprecated,
    )
    ∷ []

unfoldable pub contracts_fifteenth : Object ContractConfig
contracts_fifteenth =
    (
      "rariPool91FeiPCVDeposit",
      contract_config "ERC20CompoundPCVDeposit" "0x2296a2417D1f02d394ab22aF794a0f426eD53436"
          deprecated,
    )
    ∷ (
      "gaugeLensBpt30Fei70WethGaugeOld",
      contract_config "CurveGaugeLens" "0xa8E388a1f19f2b33Be8bf2cCeC43641C10b4D1e5" deprecated,
    )
    ∷ (
      "balancerLensBpt30Fei70WethOld",
      contract_config "BalancerPool2Lens" "0x673f7DFA863b611dE657759aEDE629b260F4E682" deprecated,
    )
    ∷ (
      "dpiUniswapPCVDeposit",
      contract_config "UniswapPCVDeposit" "0x902199755219A9f8209862d09F1891cfb34F59a3" deprecated,
    )
    ∷ (
      "liquityFusePoolLusdPCVDeposit",
      contract_config "ERC20CompoundPCVDeposit" "0x8C51E4532CC745cF3DFec5CEBd835D07E7BA1002"
          deprecated,
    )
    ∷ (
      "aaveRaiPCVDepositWrapper",
      contract_config "PCVDepositWrapper" "0x1267B39c93711Dd374DEAB15e0127e4adB259BE0" deprecated,
    )
    ∷ (
      "creamDepositWrapper",
      contract_config "ERC20PCVDepositWrapper" "0x3a1838Ac9EcA864054bebB82C32455Dd7d7Fc89c"
          deprecated,
    )
    ∷ (
      "ethLidoPCVDepositOldWrapper",
      contract_config "PCVDepositWrapper" "0xA271fF86426c7fdAaAE72603e6Ce68c892d69ED7" deprecated,
    )
    ∷ (
      "ethReserveStabilizerWrapper",
      contract_config "PCVDepositWrapper" "0xB24570Bc46efDf97b4Aa7f008B4268005Eb7A27E" deprecated,
    )
    ∷ (
      "rariPool146EthPCVDeposit",
      contract_config "EthCompoundPCVDeposit" "0xC68412B72e68c30D4E6c0854b439CBBe957146e4"
          deprecated,
    )
    ∷ (
      "rariPool8DaiPCVDeposit",
      contract_config "ERC20CompoundPCVDeposit" "0x9CC46aB5A714f7cd24C59f33C5769039B5872491"
          deprecated,
    )
    ∷ (
      "rariPool8LusdPCVDeposit",
      contract_config "ERC20CompoundPCVDeposit" "0xF846eE6E8EE9A6fbf51c7c65105CAbc041c048ad"
          deprecated,
    )
    ∷ (
      "rariPool18FeiPCVDepositWrapper",
      contract_config "PCVDepositWrapper" "0x07F2DD7E6A78D96c08D0a8212f4097dCC129d629" deprecated,
    )
    ∷ (
      "rariPool19DpiPCVDepositWrapper",
      contract_config "PCVDepositWrapper" "0x9a774a1B1208C323EDeD05E6Daf592E6E59cAa55" deprecated,
    )
    ∷ (
      "rariPool25FeiPCVDepositWrapper",
      contract_config "PCVDepositWrapper" "0xB4FFD10C4C290Dc13E8e30BF186F1509001515fD" deprecated,
    )
    ∷ (
      "rariPool26FeiPCVDepositWrapper",
      contract_config "PCVDepositWrapper" "0x82aebeE64a52180d8541eB601A8381e012A1eD04" deprecated,
    )
    ∷ (
      "rariPool27FeiPCVDepositWrapper",
      contract_config "PCVDepositWrapper" "0xe2e35097638F0Ff2EeCA2EF70F352Be37431945f" deprecated,
    )
    ∷ (
      "rariPool7FeiPCVDepositWrapper",
      contract_config "PCVDepositWrapper" "0xb13C755107301eBFeD6A93190aCdE09281b2f8A5" deprecated,
    )
    ∷ (
      "rariPool8FeiPCVDepositWrapper",
      contract_config "PCVDepositWrapper" "0xD6598a23418c7FEf7c0Dc863265515B623B720F9" deprecated,
    )
    ∷ (
      "rariPool9FeiPCVDepositWrapper",
      contract_config "PCVDepositWrapper" "0x96A657eE40A79A964c6b4eA551c895D98e885a75" deprecated,
    )
    ∷ (
      "rariPool28FeiPCVDepositWrapper",
      contract_config "PCVDepositWrapper" "0x4E119714f625B2E82e5fB5A7E297978f020Ea51E" deprecated,
    )
    ∷ (
      "rariPool31FeiPCVDepositWrapper",
      contract_config "PCVDepositWrapper" "0x05E2e93CFb0B53D36A3151ee727Bb581D4B918Ce" deprecated,
    )
    ∷ (
      "rariPool90FeiPCVDepositWrapper",
      contract_config "PCVDepositWrapper" "0xec54148CbC47bFF8FCc5e04e5E8083aDb8aF9aD9" deprecated,
    )
    ∷ (
      "rariPool91FeiPCVDepositWrapper",
      contract_config "PCVDepositWrapper" "0x5d073Fd34006E292583B7fC02B0f16ee8e29bcA5" deprecated,
    )
    ∷ (
      "rariPool72FeiPCVDepositWrapper",
      contract_config "PCVDepositWrapper" "0x395B1Bc1800fa0ad48ae3876E66d4C10d297650c" deprecated,
    )
    ∷ (
      "rariPool9RaiPCVDepositWrapper",
      contract_config "PCVDepositWrapper" "0xCCe230c087F31032fc17621a2CF5E425A0b80C96" deprecated,
    )
    ∷ (
      "dpiDepositWrapper",
      contract_config "ERC20PCVDepositWrapper" "0xB250926E75b1CC6c53E77bb9426Baac14aB1e24c"
          deprecated,
    )
    ∷ (
      "raiDepositWrapper",
      contract_config "ERC20PCVDepositWrapper" "0x7339cA4Ac94020b83A34f5edFA6e0F26986c434b"
          deprecated,
    )
    ∷ (
      "autoRewardsDistributor",
      contract_config "AutoRewardsDistributor" "0x61be49dfbd869a601fea076e1a1379903e61a895"
          deprecated,
    )
    ∷ []
