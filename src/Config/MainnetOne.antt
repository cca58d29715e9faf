-- ===== src/Config/MainnetOne.antt =====
-- protocol-configuration/mainnetAddresses.ts, lines 4 to 737.
use tribe.Base.{[], ◌∷◌}
use tribe.Js.{Object}
use tribe.Types.{
  ContractConfig, contract_config, core, security, utility, governance, peg, deprecated, pcv,
  pcv_v1, collateralization, distribution, oracle, turbo, fuse, fei_rari, volt, external,
}

unfoldable pub contracts_first : Object ContractConfig
contracts_first =
    ("core", contract_config "Core" "0x8d5ED43dCa8C2F7dFB20CF7b53CC7E593635d7b9" core)
    ∷ ("fei", contract_config "Fei" "0x956F47F50A910163D8BF957Cf5846D573E7f87CA" core)
    ∷ ("proxyAdmin", contract_config "ProxyAdmin" "0xf8c2b645988b7658E7748BA637fE25bdD46A704A" core)
    ∷ ("tribe", contract_config "Tribe" "0xc7283b66Eb1EB5FB86327f08e1B5816b0720212B" core)
    ∷ (
      "tribeMinter",
      contract_config "TribeMinter" "0xFC3532b443383d9022b1B2c6FD5Fd0895943360A" core,
    )
    ∷ (
      "restrictedPermissions",
      contract_config "RestrictedPermissions" "0x10ffa0CD36Bc16b355d21A08DF4a552c4A9FEC10" core,
    )
    ∷ (
      "pcvSentinel",
      contract_config "PCVSentinel" "0xC297705Acf50134d256187c754B92FA37826C019" security,
    )
    ∷ (
      "pcvGuardian",
      contract_config "PCVGuardian" "0x02435948F84d7465FB71dE45ABa6098Fc6eC2993" security,
    )
    ∷ (
      "guardianMultisig",
      contract_config "unknown" "0xB8f482539F2d3Ae2C9ea6076894df36D1f632775" security,
    )
    ∷ (
      "fuseWithdrawalGuard",
      contract_config "FuseWithdrawalGuard" "0xd079ec4b442600a381eAc7E95662eB1b313cd113" security,
    )
    ∷ (
      "maxFeiWithdrawalGuard",
      contract_config "MaxFeiWithdrawalGuard" "0x2Ee70721909b9673C6f5029243804b98C12a1bF2" security,
    )
    ∷ (
      "ratioPCVControllerV2",
      contract_config "RatioPCVControllerV2" "0x221fff24FB66dA3c722c7C5B856956a6a30C0179" utility,
    )
    ∷ (
      "ethToDaiLBPSwapper",
      contract_config "BalancerLBPSwapper" "0xf7991f4698ffb6716982aec7f78964dd731c4a54" utility,
    )
    ∷ (
      "fuseFixer",
      contract_config "FuseFixer" "0xFE7547F583aAe1212e72e063Aac25057C06c4797" utility,
    )
    ∷ (
      "pcvEquityMinter",
      contract_config "PCVEquityMinter" "0x904Deb2Dac1EdfCBBb69b9c279aE5F75E57Cf5E9" utility,
    )
    ∷ (
      "daiPCVDripController",
      contract_config "PCVDripController" "0x3e0f66c5687FF917809A3F7fA7096e1Bc409fB03" utility,
    )
    ∷ (
      "lusdToDaiSwapper",
      contract_config "BalancerLBPSwapper" "0x09d26e0D6e40b285854C964FF8Dd672b524E235c" utility,
    )
    ∷ ("feiDAO", contract_config "FeiDAO" "0x0BEF27FEB58e857046d630B2c03dFb7bae567494" governance)
    ∷ (
      "feiDAOTimelock",
      contract_config "FeiDAOTimelock" "0xd51dbA7a94e1adEa403553A8235C302cEbF41a3c" governance,
    )
    ∷ (
      "optimisticMultisig",
      contract_config "unknown" "0x35ED000468f397AA943009bD60cc6d2d9a7d32fF" governance,
    )
    ∷ (
      "optimisticTimelock",
      contract_config "OptimisticTimelock" "0xbC9C084a12678ef5B516561df902fdc426d95483" governance,
    )
    ∷ (
      "rariTimelock",
      contract_config "Timelock" "0x8ace03Fc45139fDDba944c6A4082b604041d19FC" governance,
    )
    ∷ (
      "tribeRariDAO",
      contract_config "FeiDAO" "0x637deEED4e4deb1D222650bD4B64192abf002c00" governance,
    )
    ∷ (
      "weightedBalancerPoolManagerBase",
      contract_config "WeightedBalancerPoolManagerBase" "0x75b984d8Ad22007923B03b5D40daA1917EF35313"
          governance,
    )
    ∷ (
      "veBalDelegatorPCVDeposit",
      contract_config "VeBalDelegatorPCVDeposit" "0xc4EAc760C2C631eE0b064E39888b89158ff808B2"
          governance,
    )
    ∷ (
      "balancerGaugeStaker",
      contract_config "BalancerGaugeStaker" "0x66977Ce30049CD0e443216Bf26377966c3A109E2" governance,
    )
    ∷ (
      "balancerGaugeStakerImpl",
      contract_config "BalancerGaugeStaker" "0xF53E251352683155898295569d77B8506bA00d80" governance,
    )
    ∷ []

unfoldable pub contracts_second : Object ContractConfig
contracts_second =
    (
      "angleDelegatorPCVDeposit",
      contract_config "AngleDelegatorPCVDeposit" "0xb91F96b7C62fe4a2301219956Cc023fA7892F0C0"
          governance,
    )
    ∷ (
      "rariGovernanceProxyAdmin",
      contract_config "ProxyAdmin" "0x1c9aA54a013962C2444ECae06902F31D532c6AD3" governance,
    )
    ∷ (
      "podExecutorV2",
      contract_config "PodExecutor" "0xC72e814314e79114354F1682111e07015826080D" governance,
    )
    ∷ (
      "podAdminGateway",
      contract_config "PodAdminGateway" "0xDDe8AA537c5b289De9cede462E6F0ec3a3a99e39" governance,
    )
    ∷ (
      "podFactory",
      contract_config "PodFactory" "0x4B2c8894D29d05dbc0d5A1CE23535be08d844819" governance,
    )
    ∷ (
      "governanceMetadataRegistry",
      contract_config "GovernanceMetadataRegistry" "0xd78Cd3AaE6168BE43B548877aAc68312B9df9AFb"
          governance,
    )
    ∷ ("nopeDAO", contract_config "NopeDAO" "0x6C7aF43Ce97686e0C8AcbBc03b2E4f313c0394C7" governance)
    ∷ (
      "tribalCouncilTimelock",
      contract_config "TimelockController" "0xe0C7DE94395B629860Cbb3c42995F300F56e6d7a" governance,
    )
    ∷ (
      "tribalCouncilSafe",
      contract_config "unknown" "0x2EC598d8e3DF35E5D6F13AE2f05a7bB2704e92Ea" governance,
    )
    ∷ (
      "roleBastion",
      contract_config "RoleBastion" "0x8096314D9014EbB69Fc777ED3791DDE6FFbaFAed" governance,
    )
    ∷ (
      "tribeReserveStabilizer",
      contract_config "TribeReserveStabilizer" "0xE1A468418f4D8D3F070A06d49b3575A9562b6CfD" peg,
    )
    ∷ (
      "daiFixedPricePSM",
      contract_config "FixedPricePSM" "0x2A188F9EB761F70ECEa083bA6c2A40145078dfc2" deprecated,
    )
    ∷ (
      "daiFixedPricePSMFeiSkimmer",
      contract_config "FeiSkimmer" "0xe49B608663EeB89f1E3AbBe75744e5318F85029C" deprecated,
    )
    ∷ (
      "tribalCouncilTimelockFeiLens",
      contract_config "ERC20PCVDepositWrapper" "0x4037a70152F4c88Ad40522f35BD4dDD17E6B2052" pcv,
    )
    ∷ (
      "rariTimelockFeiOldLens",
      contract_config "ERC20PCVDepositWrapper" "0x614D46B7eB2AC1a359b8835D64954F3Ee4E6F676" pcv,
    )
    ∷ (
      "ethToDaiLensDai",
      contract_config "BPTLens" "0xdF9Ff5c077d9F3427ade67AC2d27a864Be6F3187" pcv,
    )
    ∷ (
      "ethToDaiLensEth",
      contract_config "BPTLens" "0xf24401F6992FaEAcbc5d6C6991db15B5F8364A1B" pcv,
    )
    ∷ (
      "lusdToDaiLensDai",
      contract_config "BPTLens" "0x49194B3a9330316dC24e806B06a276794e1116DD" pcv,
    )
    ∷ (
      "lusdToDaiLensLusd",
      contract_config "BPTLens" "0x35cA36B69a4169B6BF71E6b64a03C2B2A6834ad0" pcv,
    )
    ∷ (
      "ethLidoPCVDeposit",
      contract_config "EthLidoPCVDeposit" "0x6e5f2745C08249a190239763706473bE0B72816d" pcv,
    )
    ∷ (
      "balancerDepositFeiWeth",
      contract_config "BalancerPCVDepositWeightedPool" "0xc5bb8F0253776beC6FF450c2B40f092f7e7f5b57"
          pcv,
    )
    ∷ (
      "balancerDepositBalWeth",
      contract_config "BalancerPCVDepositWeightedPool" "0xcd1Ac0014E2ebd972f40f24dF1694e6F528B2fD4"
          pcv,
    )
    ∷ (
      "balancerLensBpt30Fei70Weth",
      contract_config "BalancerPool2Lens" "0x8465E7CFA63Aa6682531C7a34141966318aC5178" pcv,
    )
    ∷ (
      "balancerLensVeBalBal",
      contract_config "BalancerPool2Lens" "0x8cbA3149b95084A61bBAb9e01110b0fB92C9a289" pcv,
    )
    ∷ (
      "balancerLensVeBalWeth",
      contract_config "BalancerPool2Lens" "0xD8Eb546726d449fC1dEd06DFeCa800A2fa8bB930" pcv,
    )
    ∷ []

unfoldable pub contracts_third : Object ContractConfig
contracts_third =
    (
      "aaveFeiPCVDepositWrapper",
      contract_config "PCVDepositWrapper" "0xFAc571b6054619053ac311dA8112939C9a374A85" pcv,
    )
    ∷ (
      "daiHoldingPCVDeposit",
      contract_config "ERC20HoldingPCVDeposit" "0x8fFAe111Ab06F532a18418190129373D14570014" pcv,
    )
    ∷ (
      "rariPool79FeiPCVDepositWrapper",
      contract_config "PCVDepositWrapper" "0xb3A026B830796E43bfC8b135553A7573538aB341" pcv,
    )
    ∷ (
      "lusdHoldingPCVDeposit",
      contract_config "ERC20HoldingPCVDeposit" "0x4378De2F2991Fbed6616b34AC7727E7653713712" pcv,
    )
    ∷ (
      "compoundFeiPCVDepositWrapper",
      contract_config "PCVDepositWrapper" "0xB80B3dc4F8B30589477b2bA0e4EF2b8224bDf0a5" pcv,
    )
    ∷ (
      "aaveFeiPCVDeposit",
      contract_config "AavePCVDeposit" "0xaFBd7Bd91B4c1Dd289EE47a4F030FBeDfa7ABc12" pcv_v1,
    )
    ∷ (
      "indexDelegator",
      contract_config "SnapshotDelegatorPCVDeposit" "0x0ee81df08B20e4f9E0F534e50da437D24491c4ee"
          pcv_v1,
    )
    ∷ (
      "rariPool22FeiPCVDeposit",
      contract_config "ERC20CompoundPCVDeposit" "0x7CeBaB7b4B4399343f6D0D36B550EE097F60d7fE" pcv_v1,
    )
    ∷ (
      "rariPool128FeiPCVDeposit",
      contract_config "ERC20CompoundPCVDeposit" "0x02101960B3B317839254a17ba54a811A087cB3A0" pcv_v1,
    )
    ∷ (
      "rariPool8FeiPCVDeposit",
      contract_config "ERC20CompoundPCVDeposit" "0x37349d9cc523D28e6aBFC03fc5F44879bC8BfFD9" pcv_v1,
    )
    ∷ (
      "rariPool79FeiPCVDeposit",
      contract_config "ERC20CompoundPCVDeposit" "0x76dFcf06E7D7B8248094DC319b284fB244f06309" pcv_v1,
    )
    ∷ (
      "gaugeLensBpt30Fei70WethGauge",
      contract_config "CurveGaugeLens" "0xd9fc482E0Af8fd509699f1074d72D137cAC94D5B" pcv_v1,
    )
    ∷ (
      "convexPoolPCVDeposit",
      contract_config "ERC20CompoundPCVDeposit" "0x525eA5983A2e02abA8aA0BE7D15Cd73150812379" pcv_v1,
    )
    ∷ (
      "compoundFeiPCVDeposit",
      contract_config "PCVDeposit" "0xe1f2a7342459b54fbfea9f40695cdd46efadeeee" pcv_v1,
    )
    ∷ (
      "collateralizationOracle",
      contract_config "CollateralizationOracle" "0xFF6f59333cfD8f4Ebc14aD0a0E181a83e655d257"
          collateralization,
    )
    ∷ (
      "investorUniswapFeiTribeTimelock",
      contract_config "LinearUnlockTimelock" "0x2ef97E5ce736bF81703C4F5C7D5273238b8688EB"
          distribution,
    )
    ∷ (
      "laTribuFeiTimelock",
      contract_config "LinearTokenTimelock" "0xdb02630ed4f4994414122894B5082dc6D88a4ED4"
          distribution,
    )
    ∷ (
      "laTribuTribeTimelock",
      contract_config "QuadraticTokenTimelock" "0x552b8A441E945D021D29ae58B6Ae3dE96da75A05"
          distribution,
    )
    ∷ (
      "rariInfraFeiTimelock",
      contract_config "LinearTokenTimelock" "0xfaFC562265a49975E8B20707EAC966473795CF90"
          distribution,
    )
    ∷ (
      "rariInfraTribeTimelock",
      contract_config "LinearTimelockedDelegator" "0x625cf6AA7DafB154F3Eb6BE87592110e30290dEe"
          distribution,
    )
    ∷ (
      "balUsdCompositeOracle",
      contract_config "CompositeOracle" "0xDe0407851AEC6F073A63D27C7D29805CCD59D3e0" oracle,
    )
    ∷ (
      "chainlinkBALEthOracle",
      contract_config "ChainlinkOracleWrapper" "0x7261D245454Daa070C77B2a26eA192E3a4c8F655" oracle,
    )
    ∷ (
      "chainlinkCREAMEthOracle",
      contract_config "ChainlinkOracleWrapper" "0xDE02522cDc4959117fe839a7326D80F9858f383C" oracle,
    )
    ∷ (
      "chainlinkDaiUsdOracleWrapper",
      contract_config "ChainlinkOracleWrapper" "0x231aDa12E273eDf3fA54CbD90c5C1a73129D5bb9" oracle,
    )
    ∷ (
      "chainlinkDpiUsdOracleWrapper",
      contract_config "ChainlinkOracleWrapper" "0xB594d2bd55Ede471e16b92AE6F7651648DA871c3" oracle,
    )
    ∷ []

unfoldable pub contracts_fourth : Object ContractConfig
contracts_fourth =
    (
      "chainlinkEthUsdOracleWrapper",
      contract_config "ChainlinkOracleWrapper" "0xCd3c40AE1256922BA16C7872229385E20Bc8351e" oracle,
    )
    ∷ (
      "chainlinkStEthUsdOracleWrapper",
      contract_config "ChainlinkOracleWrapper" "0x011d15600671530C93818FdB1283E20748CB8c73" oracle,
    )
    ∷ (
      "compositeStEthEthOracle",
      contract_config "CompositeOracle" "0x16A26876835cB3b06D948E7D166835aB28896a71" oracle,
    )
    ∷ (
      "chainlinkEurUsdOracleWrapper",
      contract_config "ChainlinkOracleWrapper" "0xFb3a062236A7E08b572F17bc9Ad2bBc2becB87b1" oracle,
    )
    ∷ (
      "chainlinkFeiEthOracleWrapper",
      contract_config "ChainlinkOracleWrapper" "0x060Be7B51F78DFFd04749332fd306BA1228e7444" oracle,
    )
    ∷ (
      "chainlinkLUSDOracleWrapper",
      contract_config "ChainlinkOracleWrapper" "0xe61d11ec732d556A26fb863B192052BEa03eF8B5" oracle,
    )
    ∷ (
      "chainlinkRaiEthOracleWrapper",
      contract_config "ChainlinkOracleWrapper" "0x3d49573ee6aFCBDe606F8a1c2AA1C498048E7190" oracle,
    )
    ∷ (
      "chainlinkRaiUsdOracleWrapper",
      contract_config "ChainlinkOracleWrapper" "0xC7a950418eC90df99B1516F3d0276423bF46D4C2" oracle,
    )
    ∷ (
      "chainlinkRaiUsdCompositeOracle",
      contract_config "CompositeOracle" "0x392b1d29eDab680c5CA778D3A32b8284859BFBB0" oracle,
    )
    ∷ (
      "chainlinkTribeEthOracleWrapper",
      contract_config "ChainlinkOracleWrapper" "0x061118ccabF0c2c62f05a2e3C2bd4379c0C70079" oracle,
    )
    ∷ (
      "compositeOracle",
      contract_config "CompositeOracle" "0x8721f9EAba0B9081069970bCBce38763D3D4f28E" oracle,
    )
    ∷ (
      "creamUsdCompositeOracle",
      contract_config "CompositeOracle" "0x2BDca027c7f57eD9AC1769Ba3a3D64600578bA49" oracle,
    )
    ∷ (
      "oneConstantOracle",
      contract_config "ConstantOracle" "0x2374800337c6BE8B935f96AA6c10b33f9F12Bd40" oracle,
    )
    ∷ (
      "tribeUsdCompositeOracle",
      contract_config "CompositeOracle" "0xD7B8207f8644ee5cc60095023a8fcb8BdCF54732" oracle,
    )
    ∷ (
      "zeroConstantOracle",
      contract_config "ConstantOracle" "0x43b99923CF06D6D9101110b595234670f73A4934" oracle,
    )
    ∷ (
      "rariTurboFusePool",
      contract_config "unknown" "0x081E7C60bCB8A2e7E43076a2988068c0a6e69e27" turbo,
    )
    ∷ ("turboAdmin", contract_config "unknown" "0x18413D61b335D2F46235E9E1256Fd5ec8AD03757" turbo)
    ∷ ("turboBooster", contract_config "unknown" "0xf6c7f4a90b10c9eaaf2a6676ce81fe8673453e72" turbo)
    ∷ ("turboMaster", contract_config "unknown" "0xf2e513d3b4171bb115cb9ffc45555217fbbbd00c" turbo)
    ∷ (
      "fuseERC4626Pool8Fei",
      contract_config "unknown" "0xf486608dbc7dd0eb80e4b9fa0fdb03e40f414030" fuse,
    )
    ∷ (
      "fuseERC4626Pool18Fei",
      contract_config "unknown" "0x0a00F781508a2E3FF5C6Aa80DF97dAebd0fFC259" fuse,
    )
    ∷ (
      "rariPool8ConvexD3Plugin",
      contract_config "IConvexERC4626" "0xaa189e7f4aac757216b62849f78f1236749ba814" fei_rari,
    )
    ∷ (
      "rariCErc20PluginImpl",
      contract_config "unknown" "0xbfb8D550B53F64F581df1Da41DDa0CB9E596Aa0E" fei_rari,
    )
    ∷ (
      "rariPool8Comptroller",
      contract_config "Unitroller" "0xc54172e34046c1653d1920d40333dd358c7a1af4" fei_rari,
    )
    ∷ (
      "rariPool8MasterOracle",
      contract_config "IMasterOracle" "0x4d10BC156FBaD2474a94f792fe0D6c3261469cdd" fei_rari,
    )
    ∷ []

unfoldable pub contracts_fifth : Object ContractConfig
contracts_fifth =
    (
      "rariChainlinkPriceOracleV3",
      contract_config "unknown" "0x058c345D3240001088b6280e008F9e78b3B2112d" fei_rari,
    )
    ∷ (
      "curveLPTokenOracle",
      contract_config "unknown" "0xa9f3faac3b8eDF7b3DCcFDBBf25033D6F5fc02F3" fei_rari,
    )
    ∷ (
      "gUniFuseOracle",
      contract_config "unknown" "0xEa3633b38C747ceA231aDB74b511DC2eD3992B43" fei_rari,
    )
    ∷ (
      "rariPool8Lusd",
      contract_config "CErc20Delegator" "0x647A36d421183a0a9Fa62717a64B664a24E469C7" fei_rari,
    )
    ∷ (
      "rariPool8Dai",
      contract_config "CErc20Delegator" "0x7e9cE3CAa9910cc048590801e64174957Ed41d43" fei_rari,
    )
    ∷ (
      "rariPool8DaiIrm",
      contract_config "unknown" "0xede47399e2aa8f076d40dc52896331cba8bd40f7" fei_rari,
    )
    ∷ (
      "rariPool8Eth",
      contract_config "CErc20Delegator" "0xbB025D470162CC5eA24daF7d4566064EE7f5F111" fei_rari,
    )
    ∷ (
      "rariPool8EthIrm",
      contract_config "unknown" "0xbab47e4b692195bf064923178a90ef999a15f819" fei_rari,
    )
    ∷ (
      "rariPool8Fei",
      contract_config "CErc20Delegator" "0xd8553552f8868C1Ef160eEdf031cF0BCf9686945" fei_rari,
    )
    ∷ (
      "rariPool8FeiIrm",
      contract_config "unknown" "0x8f47be5692180079931e2f983db6996647aba0a5" fei_rari,
    )
    ∷ (
      "rariPool8Tribe",
      contract_config "CErc20Delegator" "0xFd3300A9a74b3250F1b2AbC12B47611171910b07" fei_rari,
    )
    ∷ (
      "rariPool8TribeIrm",
      contract_config "unknown" "0x075538650a9c69ac8019507a7dd1bd879b12c1d7" fei_rari,
    )
    ∷ (
      "rariPool8CTokenImpl",
      contract_config "unknown" "0x67Db14E73C2Dce786B5bbBfa4D010dEab4BBFCF9" fei_rari,
    )
    ∷ (
      "rariPool8Fei3Crv",
      contract_config "CErc20Delegator" "0xBFB6f7532d2DB0fE4D83aBb001c5C2B0842AF4dB" fei_rari,
    )
    ∷ (
      "rariPool8FeiD3",
      contract_config "CErc20Delegator" "0x5cA8Ffe4DAD9452ED880FA429DD0A08574225936" fei_rari,
    )
    ∷ (
      "rariPool146Comptroller",
      contract_config "Unitroller" "0x88F7c23EA6C4C404dA463Bc9aE03b012B32DEf9e" fei_rari,
    )
    ∷ (
      "rariPool146FuseAdmin",
      contract_config "FuseAdmin" "0x6d64D080345C446dA31b8D3855bA6d9C0fC875D2" fei_rari,
    )
    ∷ (
      "rariPool146Eth",
      contract_config "unknown" "0xfbD8Aaf46Ab3C2732FA930e5B343cd67cEA5054C" fei_rari,
    )
    ∷ (
      "fuseAdmin",
      contract_config "FuseAdmin" "0x761dD1Ae03D95BdABeC3C228532Dcdab4F2c7adD" fei_rari,
    )
    ∷ (
      "fuseGuardian",
      contract_config "FuseGuardian" "0xc0c59A2d3F278445f27ed4a00E2727D6c677c43F" fei_rari,
    )
    ∷ ("volt", contract_config "Fei" "0x559eBC30b0E58a45Cc9fF573f77EF1e5eb1b3E18" volt)
    ∷ (
      "voltFusePCVDeposit",
      contract_config "ERC20CompoundPCVDeposit" "0xFeBDf448C8484834bb399d930d7E1bdC773E23bA" volt,
    )
    ∷ ("voltSafe", contract_config "unknown" "0xcBB83206698E8788F85EFbEeeCAd17e53366EBDf" volt)
    ∷ (
      "voltOptimisticTimelock",
      contract_config "unknown" "0x860fa85f04f9d35b3471d8f7f7fa3ad31ce4d5ae" volt,
    )
    ∷ (
      "aaveLendingPoolAddressesProvider",
      contract_config "unknown" "0xB53C1a33016B2DC2fF3653530bfF1848a515c8c5" external,
    )
    ∷ []
