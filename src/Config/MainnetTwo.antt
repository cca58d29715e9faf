-- ===== src/Config/MainnetTwo.antt =====
-- protocol-configuration/mainnetAddresses.ts, lines 738 to 1466.
use tribe.Base.{[], ◌∷◌}
use tribe.Js.{Object}
use tribe.Types.{ContractConfig, contract_config, external}

unfoldable pub contracts_sixth : Object ContractConfig
contracts_sixth =
    (
      "dpiToDaiLBPPool",
      contract_config "IWeightedPool" "0xd10386804959a121a8a487e49f45aa9f5a2eb2a0" external,
    )
    ∷ (
      "ethToDaiLBPPool",
      contract_config "IWeightedPool" "0x34809aEDF93066b49F638562c42A9751eDb36DF5" external,
    )
    ∷ (
      "lusdToDaiLBPPool",
      contract_config "IWeightedPool" "0x8485b36623632ffa5e486008df4d0b6d363defdb" external,
    )
    ∷ ("veBal", contract_config "IVeToken" "0xC128a9954e6c874eA3d62ce62B468bA073093F25" external)
    ∷ (
      "bpt80Bal20Weth",
      contract_config "IERC20" "0x5c6Ee304399DBdB9C8Ef030aB642B10820DB8F56" external,
    )
    ∷ (
      "bpt30Fei70Weth",
      contract_config "IERC20" "0x90291319F1D4eA3ad4dB0Dd8fe9E12BAF749E845" external,
    )
    ∷ (
      "balancerMinter",
      contract_config "IBalancerMinter" "0x239e55F427D44C3cc793f49bFB507ebe76638a2b" external,
    )
    ∷ (
      "balancerGaugeController",
      contract_config "ILiquidityGaugeController" "0xC128468b7Ce63eA702C1f104D55A2566b13D3ABD"
          external,
    )
    ∷ (
      "balancerGaugeBpt30Fei70Weth",
      contract_config "ILiquidityGauge" "0x4f9463405F5bC7b4C1304222c1dF76EFbD81a407" external,
    )
    ∷ (
      "tokemakManagerRollover",
      contract_config "unknown" "0x90b6C61B102eA260131aB48377E143D6EB3A9d4B" external,
    )
    ∷ (
      "tokemakManager",
      contract_config "unknown" "0xa86e412109f77c45a3bc1c5870b880492fb86a14" external,
    )
    ∷ (
      "rariOpsMultisig",
      contract_config "unknown" "0x5A2e3420af551a48a1dB056caC4d6Ba752bF1488" external,
    )
    ∷ ("aave", contract_config "IERC20" "0x7Fc66500c84A76Ad7e9c93437bFc5Ac33E2DDaE9" external)
    ∷ (
      "aaveGovernanceV2",
      contract_config "IAaveGovernanceV2" "0xEC568fffba86c094cf06b22134B23074DFE2252c" external,
    )
    ∷ (
      "aaveIncentivesController",
      contract_config "IAaveIncentivesController" "0xd784927ff2f95ba542bfc824c8a8a98f3495f6b5"
          external,
    )
    ∷ (
      "aaveLendingPool",
      contract_config "ILendingPool" "0x7d2768dE32b0b80b7a3454c06BdAc94A69DDc7A9" external,
    )
    ∷ ("aFei", contract_config "IERC20" "0x683923dB55Fead99A79Fa01A27EeC3cB19679cC3" external)
    ∷ ("cFei", contract_config "IERC20" "0x7713DD9Ca933848F6819F38B8352D9A15EA73F67" external)
    ∷ (
      "aFeiStableDebt",
      contract_config "IERC20" "0xd89cF9E8A858F8B4b31Faf793505e112d6c17449" external,
    )
    ∷ (
      "aFeiVariableDebt",
      contract_config "IERC20" "0xC2e10006AccAb7B45D9184FcF5b7EC7763f5BaAe" external,
    )
    ∷ ("agEUR", contract_config "IERC20" "0x1a7e4e63778B4f12a199C062f3eFdD288afCBce8" external)
    ∷ ("alusd", contract_config "IERC20" "0xBC6DA0FE9aD5f3b0d58160288917AA56653660E9" external)
    ∷ (
      "angleMultisig",
      contract_config "unknown" "0x0C2553e4B9dFA9f83b1A6D3EAB96c4bAaB42d430" external,
    )
    ∷ ("angle", contract_config "Tribe" "0x31429d1856ad1377a8a0079410b297e1a9e214c2" external)
    ∷ []

unfoldable pub contracts_seventh : Object ContractConfig
contracts_seventh =
    (
      "angleAgEurFeiPool",
      contract_config "IUniswapV2Pair" "0xF89CE5eD65737dA8440411544b0499c9FaD323B2" external,
    )
    ∷ (
      "anglePoolManager",
      contract_config "IAnglePoolManager" "0x53b981389Cfc5dCDA2DC2e903147B5DD0E985F44" external,
    )
    ∷ (
      "angleStableMaster",
      contract_config "IAngleStableMaster" "0x5adDc89785D75C86aB939E9e15bfBBb7Fc086A87" external,
    )
    ∷ (
      "angleGaugeController",
      contract_config "ILiquidityGaugeController" "0x9aD7e7b0877582E14c17702EecF49018DD6f2367"
          external,
    )
    ∷ (
      "angleGaugeUniswapV2FeiAgEur",
      contract_config "ILiquidityGauge" "0xd6282C5aEAaD4d776B932451C44b8EB453E44244" external,
    )
    ∷ (
      "anglePoolManagerUsdc",
      contract_config "IAnglePoolManager" "0xe9f183FC656656f1F17af1F2b0dF79b8fF9ad8eD" external,
    )
    ∷ (
      "angleStrategyUsdc1",
      contract_config "IAngleStrategy" "0x5fE0E497Ac676d8bA78598FC8016EBC1E6cE14a3" external,
    )
    ∷ ("veAngle", contract_config "IVeToken" "0x0C462Dbb9EC8cD1630f1728B2CFD2769d09f0dd5" external)
    ∷ ("comp", contract_config "Tribe" "0xc00e94Cb662C3520282E6f5717214004A7f26888" external)
    ∷ ("aRai", contract_config "IERC20" "0xc9BC48c72154ef3e5425641a3c747242112a46AF" external)
    ∷ ("aWETH", contract_config "IERC20" "0x030bA81f1c18d280636F32af80b9AAd02Cf0854e" external)
    ∷ ("bal", contract_config "IERC20" "0xba100000625a3754423978a60c9317c58a424e3D" external)
    ∷ ("usdc", contract_config "IERC20" "0xA0b86991c6218b36c1d19D4a2e9Eb0cE3606eB48" external)
    ∷ (
      "balancerAdmin",
      contract_config "unknown" "0x10A19e7eE7d7F8a52822f6817de8ea18204F2e4f" external,
    )
    ∷ (
      "balancerAuthorizer",
      contract_config "Permissions" "0xA331D84eC860Bf466b4CdCcFb4aC09a1B43F3aE6" external,
    )
    ∷ (
      "balancerWeightedPoolFactory",
      contract_config "IWeightedPool2TokensFactory" "0xA5bf2ddF098bb0Ef6d120C98217dD6B141c74EE0"
          external,
    )
    ∷ (
      "balancerLBPoolFactory",
      contract_config "ILiquidityBootstrappingPoolFactory"
          "0x751A0bC0e3f75b38e01Cf25bFCE7fF36DE1C87DE" external,
    )
    ∷ (
      "balancerLBPoolFactoryNoFee",
      contract_config "ILiquidityBootstrappingPoolFactory"
          "0x0F3e0c4218b7b0108a3643cFe9D3ec0d4F57c54e" external,
    )
    ∷ (
      "balancerVault",
      contract_config "IVault" "0xBA12222222228d8Ba445958a75a0704d566BF2C8" external,
    )
    ∷ (
      "balancerRewards",
      contract_config "IMerkleOrchard" "0xdAE7e32ADc5d490a43cCba1f0c736033F2b4eFca" external,
    )
    ∷ (
      "barnbridgeAFei",
      contract_config "ISmartYield" "0xA3abb32c657adA8803bF6AEEF6Eb42B29c74bf28" external,
    )
    ∷ ("bamm", contract_config "IBAMM" "0x0d3AbAA7E088C2c82f54B2f47613DA438ea8C598" external)
    ∷ (
      "bentoBox",
      contract_config "IMasterContractManager" "0xF5BCE5077908a1b7370B9ae04AdC565EBd643966"
          external,
    )
    ∷ (
      "chainlinkDaiUsdOracle",
      contract_config "unknown" "0xAed0c38402a5d19df6E4c03F4E2DceD6e29c1ee9" external,
    )
    ∷ (
      "chainlinkDpiUsdOracle",
      contract_config "unknown" "0xD2A593BF7594aCE1faD597adb697b5645d5edDB2" external,
    )
    ∷ []

unfoldable pub contracts_eighth : Object ContractConfig
contracts_eighth =
    (
      "chainlinkEthUsdOracle",
      contract_config "unknown" "0x5f4eC3Df9cbd43714FE2740f5E3616155c5b8419" external,
    )
    ∷ (
      "chainlinkOHMV2EthOracle",
      contract_config "unknown" "0x9a72298ae3886221820b1c878d12d872087d3a23" external,
    )
    ∷ (
      "chainlinkStEthUsdOracle",
      contract_config "unknown" "0xCfE54B5cD566aB89272946F602D76Ea879CAb4a8" external,
    )
    ∷ (
      "chainlinkEurUsdOracle",
      contract_config "unknown" "0xb49f677943bc038e9857d61e7d053caa2c1734c1" external,
    )
    ∷ (
      "chainlinkFeiEthOracle",
      contract_config "unknown" "0x7F0D2c2838c6AC24443d13e23d99490017bDe370" external,
    )
    ∷ (
      "chainlinkRaiEthOracle",
      contract_config "unknown" "0x4ad7B025127e89263242aB68F0f9c4E5C033B489" external,
    )
    ∷ (
      "chainlinkTribeEthOracle",
      contract_config "unknown" "0x84a24deCA415Acc0c395872a9e6a63E27D6225c8" external,
    )
    ∷ (
      "communalFarm",
      contract_config "unknown" "0x0639076265e9f88542C91DCdEda65127974A5CA5" external,
    )
    ∷ (
      "compoundDai",
      contract_config "unknown" "0x5d3a536e4d6dbd6114cc1ead35777bab948e3643" external,
    )
    ∷ (
      "compoundEth",
      contract_config "unknown" "0x4Ddc2D193948926D02f9B1fE9e1daa0718270ED5" external,
    )
    ∷ (
      "convexBooster",
      contract_config "IConvexBooster" "0xF403C135812408BFbE8713b5A23a04b3D48AAE31" external,
    )
    ∷ (
      "convexD3poolRewards",
      contract_config "IConvexBaseRewardPool" "0x329cb014b562d5d42927cfF0dEdF4c13ab0442EF" external,
    )
    ∷ ("cream", contract_config "IERC20" "0x2ba592F78dB6436527729929AAf6c908497cB200" external)
    ∷ (
      "creamFei",
      contract_config "CErc20Delegator" "0x8C3B7a4320ba70f8239F83770c4015B5bc4e6F91" external,
    )
    ∷ ("crv", contract_config "IERC20" "0xD533a949740bb3306d119CC777fa900bA034cd52" external)
    ∷ ("curve3crv", contract_config "unknown" "0x6c3F90f043a72FA612cbac8115EE7e52BDe6E490" external)
    ∷ (
      "curve3pool",
      contract_config "unknown" "0xbebc44782c7db0a1a60cb6fe97d0b483032ff1c7" external,
    )
    ∷ (
      "curveD3pool",
      contract_config "ICurveStableSwap3" "0xBaaa1F5DbA42C3389bDbc2c9D2dE134F5cD0Dc89" external,
    )
    ∷ (
      "curveStethPool",
      contract_config "IStableSwapSTETH" "0xDC24316b9AE028F1497c275EB9192a3Ea0f67022" external,
    )
    ∷ (
      "curveFei3crvMetapool",
      contract_config "IERC20" "0x06cb22615BA53E60D67Bf6C341a0fD5E718E1655" external,
    )
    ∷ ("cvx", contract_config "IERC20" "0x4e3FBD56CD56c3e72c1403e103b45Db9da5B9D2B" external)
    ∷ ("dai", contract_config "IERC20" "0x6B175474E89094C44Da98b954EedeAC495271d0F" external)
    ∷ ("dpi", contract_config "IERC20" "0x1494CA1F11D487c2bBe4543E90080AeBa4BA3C2b" external)
    ∷ (
      "feiEthPair",
      contract_config "IUniswapV2Pair" "0x94B0A3d511b6EcDb17eBF877278Ab030acb0A878" external,
    )
    ∷ []

unfoldable pub contracts_ninth : Object ContractConfig
contracts_ninth =
    (
      "feiLusdLBP",
      contract_config "IWeightedPool" "0xede4efcc5492cf41ed3f0109d60bc0543cfad23a" external,
    )
    ∷ (
      "feiTribeLBP",
      contract_config "IWeightedPool" "0xC1382FE6e17bCdBC3d35F73f5317fBF261EbeECD" external,
    )
    ∷ (
      "feiTribePair",
      contract_config "IUniswapV2Pair" "0x9928e4046d7c6513326cCeA028cD3e7a91c7590A" external,
    )
    ∷ (
      "fuseFeeDistributor",
      contract_config "IFuseFeeDistributor" "0xa731585ab05fC9f83555cf9Bff8F58ee94e18F85" external,
    )
    ∷ (
      "fuseMultisig",
      contract_config "unknown" "0x5eA4A9a7592683bF0Bc187d6Da706c6c4770976F" external,
    )
    ∷ ("frax", contract_config "IERC20" "0x853d955aCEf822Db058eb8505911ED77F175b99e" external)
    ∷ (
      "gfxAddress",
      contract_config "unknown" "0xA6E8772AF29B29B9202A073F8E36F447689BEEF6" external,
    )
    ∷ ("gohm", contract_config "IERC20" "0x0ab87046fBb341D058F17CBC4c1133F25a20a52f" external)
    ∷ (
      "gUniFeiDaiLP",
      contract_config "unknown" "0x3D1556e84783672f2a3bd187a592520291442539" external,
    )
    ∷ (
      "gUniFeiUsdcLP",
      contract_config "unknown" "0xCf84a3dC12319531E3deBD48C86E68eAeAfF224a" external,
    )
    ∷ (
      "idleBestYield",
      contract_config "IIdleToken" "0xb2d5cb72a621493fe83c6885e4a776279be595bc" external,
    )
    ∷ (
      "idleTranches",
      contract_config "IERC20" "0x9ce3a740df498646939bcbb213a66bbfa1440af6" external,
    )
    ∷ (
      "idleTranchesMinter",
      contract_config "IIdleTrancheMinter" "0x77648A2661687ef3B05214d824503F6717311596" external,
    )
    ∷ (
      "hypervisor",
      contract_config "IHypervisor" "0x704eCeCABe7855996CeDE5CeFa660Eccd3c01dBE" external,
    )
    ∷ ("index", contract_config "IERC20" "0x0954906da0Bf32d5479e25f46056d22f08464cab" external)
    ∷ (
      "kashiFeiDPI",
      contract_config "IKashiPair" "0xf352773f1d4d69deb4de8d0578e43b993ee76e5d" external,
    )
    ∷ (
      "kashiFeiEth",
      contract_config "IKashiPair" "0x329efec40f58054fc2f2cd4fd65809f2be3e11c8" external,
    )
    ∷ (
      "kashiFeiTribe",
      contract_config "IKashiPair" "0x18c9584d9ce56a0f62f73f630f180d5278c873b7" external,
    )
    ∷ (
      "kashiFeiXSushi",
      contract_config "IKashiPair" "0xf2028069cd88f75fcbcfe215c70fe6d77cb80b10" external,
    )
    ∷ (
      "liquityFusePoolLusd",
      contract_config "CErc20Delegator" "0x5052BfbB7972E702179f3Eeed43B9213819b681a" external,
    )
    ∷ ("lqty", contract_config "IERC20" "0x6DEA81C8171D0bA574754EF6F8b412F2Ed88c54D" external)
    ∷ ("lusd", contract_config "IERC20" "0x5f98805A4E8be255a32880FDeC7F6728C6568bA0" external)
    ∷ (
      "masterKashi",
      contract_config "unknown" "0x2cba6ab6574646badc84f0544d05059e57a5dc42" external,
    )
    ∷ (
      "multisend",
      contract_config "IERC20Airdropper" "0x0B36b0F351ea8383506F596743a2DA7DCa204cc3" external,
    )
    ∷ ("rai", contract_config "IERC20" "0x03ab458634910AaD20eF5f1C8ee96F1D6ac54919" external)
    ∷ []

unfoldable pub contracts_tenth : Object ContractConfig
contracts_tenth =
    (
      "rariPool18Fei",
      contract_config "CErc20Delegator" "0x17b1A2E012cC4C31f83B90FF11d3942857664efc" external,
    )
    ∷ (
      "rariPool19Dpi",
      contract_config "CErc20Delegator" "0xf06f65a6b7d2c401fcb8b3273d036d21fe2a5963" external,
    )
    ∷ (
      "rariPool19Fei",
      contract_config "CErc20Delegator" "0x04281F6715Dea6A8EbBCE143D86ea506FF326531" external,
    )
    ∷ (
      "rariPool22Fei",
      contract_config "CErc20Delegator" "0x653A32ED7AaA3DB37520125CDB45c17AdB3fdF01" external,
    )
    ∷ (
      "rariPool24Fei",
      contract_config "CErc20Delegator" "0xb5A817E5354736eafe3A0C85620433eE75daA649" external,
    )
    ∷ (
      "rariPool25Fei",
      contract_config "CErc20Delegator" "0xE468D0244D75b9b18B27cb682AeC3ab35d33663B" external,
    )
    ∷ (
      "rariPool26Fei",
      contract_config "CErc20Delegator" "0x38ee94FcF276Cee403f4645341f80e671d25b352" external,
    )
    ∷ (
      "rariPool27Fei",
      contract_config "CErc20Delegator" "0xda396c927e3e6BEf77A98f372CE431b49EdEc43D" external,
    )
    ∷ (
      "rariPool6Fei",
      contract_config "CErc20Delegator" "0x185Ab80A77D362447415a5B347D7CD86ecaCC87C" external,
    )
    ∷ (
      "rariPool7Fei",
      contract_config "CErc20Delegator" "0xE640E9beC342B86266B2bD79F3847e7958cb30C4" external,
    )
    ∷ (
      "rariPool9Fei",
      contract_config "CErc20Delegator" "0x11A9F6ae6B36B4b820777D05B90Cd6CCCB1CDa31" external,
    )
    ∷ (
      "rariPool9Rai",
      contract_config "CErc20Delegator" "0x752F119bD4Ee2342CE35E2351648d21962c7CAfE" external,
    )
    ∷ ("reptb", contract_config "IERC20" "0x6c806eDDAd78A5505Fce27B18C6f859fc9739BEc" external)
    ∷ (
      "rgt",
      contract_config "ERC20VotesComp" "0xD291E7a03283640FDc51b121aC401383A46cC623" external,
    )
    ∷ (
      "saddleD4Pool",
      contract_config "ISaddleSwap" "0xC69DDcd4DFeF25D8a793241834d4cc4b3668EAD6" external,
    )
    ∷ (
      "snapshotDelegateRegistry",
      contract_config "DelegateRegistry" "0x469788fE6E9E9681C6ebF3bF78e7Fd26Fc015446" external,
    )
    ∷ ("stAAVE", contract_config "IERC20" "0x4da27a545c0c5b758a6ba100e3a049001de870f5" external)
    ∷ ("wstEth", contract_config "IERC20" "0x7f39C581F595B53c5cb19bD0b3f8dA6c935E2Ca0" external)
    ∷ ("steth", contract_config "IERC20" "0xae7ab96520DE3A18E5e111B5EaAb095312D7fE84" external)
    ∷ (
      "sushiswapDpiFei",
      contract_config "IUniswapV2Pair" "0x8775aE5e83BC5D926b6277579c2B0d40c7D9b528" external,
    )
    ∷ (
      "sushiswapRouter",
      contract_config "unknown" "0xd9e1cE17f2641f24aE83637ab66a2cca9C378B9F" external,
    )
    ∷ ("usd", contract_config "unknown" "0x1111111111111111111111111111111111111111" external)
    ∷ ("toke", contract_config "IERC20" "0x2e9d63788249371f1dfc918a52f8d799f4a38c94" external)
    ∷ ("tToke", contract_config "IERC20" "0xa760e26aA76747020171fCF8BdA108dFdE8Eb930" external)
    ∷ []
