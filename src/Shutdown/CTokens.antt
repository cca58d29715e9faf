-- ===== src/Shutdown/CTokens.antt =====
-- scripts/shutdown/data/prod/cTokens.ts: the 27 Fuse tokens of the redemption.
use tribe.Base.{◌≡◌, refl, List, [], ◌∷◌, map, String, length}
use tribe.Js.{to_lower_case}

abbrev pub check_summed_ctokens : List String
check_summed_ctokens =
    "0xd8553552f8868C1Ef160eEdf031cF0BCf9686945" ∷ "0xbB025D470162CC5eA24daF7d4566064EE7f5F111"
    ∷ "0x7e9cE3CAa9910cc048590801e64174957Ed41d43" ∷ "0x647A36d421183a0a9Fa62717a64B664a24E469C7"
    ∷ "0xFA1057d02A0C1a4885851e3F4fD496Ee7D38F56e" ∷ "0x8E4E0257A4759559B4B1AC087fe8d80c63f20D19"
    ∷ "0x6f95d4d251053483f41c8718C30F4F3C404A8cf2" ∷ "0x3E5C122Ffa75A9Fe16ec0c69F7E9149203EA1A5d"
    ∷ "0x51fF03410a0dA915082Af444274C381bD1b4cDB1" ∷ "0xB7FE5f277058b3f9eABf6e0655991f10924BFA54"
    ∷ "0x9de558FCE4F289b305E38ABe2169b75C626c114e" ∷ "0xda396c927e3e6BEf77A98f372CE431b49EdEc43D"
    ∷ "0xF148cDEc066b94410d403aC5fe1bb17EC75c5851" ∷ "0x0C402F06C11c6e6A6616C98868A855448d4CfE65"
    ∷ "0x26267e41CeCa7C8E0f143554Af707336f27Fa051" ∷ "0xEbE0d1cb6A0b8569929e062d67bfbC07608f0A47"
    ∷ "0xe097783483D1b7527152eF8B150B99B9B2700c8d" ∷ "0x8922C1147E141C055fdDfc0ED5a119f3378c8ef8"
    ∷ "0x7DBC3aF9251756561Ce755fcC11c754184Af71F7" ∷ "0x3a2804ec0Ff521374aF654D8D0daA1d1aE1ee900"
    ∷ "0xA54c548d11792b3d26aD74F5f899e12CDfD64Fd6" ∷ "0xA6C25548dF506d84Afd237225B5B34F2Feb1aa07"
    ∷ "0xfbD8Aaf46Ab3C2732FA930e5B343cd67cEA5054C" ∷ "0x001E407f497e024B9fb1CB93ef841F43D645CA4F"
    ∷ "0x5CaDc2a04921213DE60B237688776e0F1A7155E6" ∷ "0x88d3557eB6280CC084cA36e425d6BC52d0A04429"
    ∷ "0xe92a3db67e4b6AC86114149F522644b34264f858" ∷ []

unfoldable pub c_tokens : List String
unfolding to_lower_case
c_tokens = map to_lower_case check_summed_ctokens

length-c_tokens : length c_tokens ≡ 27
unfolding c_tokens
length-c_tokens = refl
