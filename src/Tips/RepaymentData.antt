-- ===== src/Tips/RepaymentData.antt =====
-- proposals/data/hack_repayment: the tokens, rates and roots that tip_121b deploys with.
use tribe.Base.{ℕ, List, [], ◌∷◌, String, ◌≡◌, refl, map}
use tribe.Js.{to_lower_case}
use tribe.Shutdown.CTokens
use tribe.Tips.Tip121b.{parse_ether}

abbrev pub c_tokens : List String
c_tokens =
    "0xd8553552f8868C1Ef160eEdf031cF0BCf9686945" ∷ "0xbB025D470162CC5eA24daF7d4566064EE7f5F111"
    ∷ "0x7e9cE3CAa9910cc048590801e64174957Ed41d43" ∷ "0x647A36d421183a0a9Fa62717a64B664a24E469C7"
    ∷ "0xFA1057d02A0C1a4885851e3F4fD496Ee7D38F56e" ∷ "0x8E4E0257A4759559B4B1AC087fe8d80c63f20D19"
    ∷ "0x6f95d4d251053483f41c8718C30F4F3C404A8cf2" ∷ "0x3E5C122Ffa75A9Fe16ec0c69F7E9149203EA1A5d"
    ∷ "0x51fF03410a0dA915082Af444274C381bD1b4cDB1" ∷ "0xB7FE5f277058b3f9eABf6e0655991f10924BFA54"
    ∷ "0x9de558FCE4F289b305E38ABe2169b75C626c114e" ∷ "0xda396c927e3e6BEf77A98f372CE431b49EdEc43D"
    ∷ "0xF148cDEc066b94410d403aC5fe1bb17EC75c5851" ∷ "0x0C402F06C11c6e6A6616C98868A855448d4CfE65"
    ∷ "0x26267e41CeCa7C8E0f143554Af707336f27Fa051" ∷ "0xEbE0d1cb6A0b8569929e062d67bfbC07608f0A47"
    ∷ "0xe097783483D1b7527152eF8B150B99B9B2700c8d" ∷ "0x8922C1147E141C055fdDfc0ED5a119f3378c8ef8"
    ∷ "0x7DBC3aF9251756561Ce755fcC11c754184Af71F7" ∷ "0x3a2804ec0Ff521374aF654D8D0daA1d1aE1ee900"
    ∷ "0xA54c548d11792b3d26aD74F5f899e12CDfD64Fd6" ∷ "0xA6C25548dF506d84Afd237225B5B34F2Feb1aa07"
    ∷ "0xfbD8Aaf46Ab3C2732FA930e5B343cd67cEA5054C" ∷ "0x001E407f497e024B9fb1CB93ef841F43D645CA4F"
    ∷ "0x5CaDc2a04921213DE60B237688776e0F1A7155E6" ∷ "0x88d3557eB6280CC084cA36e425d6BC52d0A04429"
    ∷ "0xe92a3db67e4b6AC86114149F522644b34264f858" ∷ []

abbrev pub rates : List ℕ
rates =
    parse_ether 1
    ∷ parse_ether 1
    ∷ parse_ether 1
    ∷ parse_ether 1
    ∷ parse_ether 1
    ∷ parse_ether 1
    ∷ parse_ether 1
    ∷ parse_ether 1
    ∷ parse_ether 1
    ∷ parse_ether 1
    ∷ parse_ether 1
    ∷ parse_ether 1
    ∷ parse_ether 1
    ∷ parse_ether 1
    ∷ parse_ether 1
    ∷ parse_ether 1
    ∷ parse_ether 1
    ∷ parse_ether 1
    ∷ parse_ether 1
    ∷ parse_ether 1
    ∷ parse_ether 1
    ∷ parse_ether 1
    ∷ parse_ether 1
    ∷ parse_ether 1
    ∷ parse_ether 1
    ∷ parse_ether 1
    ∷ parse_ether 1
    ∷ []

abbrev pub roots : List String
roots =
    "0xa0f39c7ea219a2cb6f4e5600b68b033dd728c46f6f97f600913d39840d980a75"
    ∷ "0x23c789bd2ebfb9d58f67e63921d243d335f12f9558db5c39bfca17270803dc15"
    ∷ "0x6df1521806401ce5b6ae85aa19c746edcc6483ae3b59b7c8d2a3a6b6539d5e62"
    ∷ "0xaadc33d33372c571646ab17878956ef55edabd08ee4e6ddf4b7e4ad58c00b546"
    ∷ "0x27fc646affe6a72626f06f0446c39f091705e86d5f52ab5d76b209181e054871"
    ∷ "0x23ad67da46aec636f01b27fcb0e61cb47bb334ef099233ecee435bde5fa451bc"
    ∷ "0x90cd4f7218e605d9f0dd02e908b0c3543eba15d38a31742237f52d8415a87c45"
    ∷ "0xbccb0430b5fed669c18f22c8e0e0676157944a88922f8f6c290f09cf17054372"
    ∷ "0xc8f5831956da3ce4f890980d6dd2f572f1bf0ad5984e1144a0eedda07587e35c"
    ∷ "0x9ddbb9b528c6c63db19fe55f18953dbe43c15dcf2effe51afee9d8e3e7aeee0d"
    ∷ "0x530f8754b64345c11706eca2851ac5bc94738eb26852c87b0cda34cec0909ca0"
    ∷ "0x9c0710c7d697b3103c6b07c942f25aac9e5e4718dd225dd5949671efdcdf6a4e"
    ∷ "0xc0aa5492ee3523d6992f301bf994ca27641d03da13a7fc015fb97930018b28bf"
    ∷ "0x609d03bca361f9bf980883d81226e7e61e80c4dc800cab987b937da5847bf38c"
    ∷ "0xc30d4a90accfc79eb40cf8ec2291b482d0ccf5b251fb400bc813f357fbef606d"
    ∷ "0x9204ac4a8fe70ab56350132fed5dc58ba2c73036e336c961f4210862ca1cb44b"
    ∷ "0xbb0f61dd54ffe4f7539c6effe9d78d1addadc392bd91b44d3ab1cbaf3250cf6e"
    ∷ "0xf6a7f1cf777a5c181af69d4768503e7485fcbd243e72acb6a6dbcb9b25de88f9"
    ∷ "0x6afdb1fb0c0dd74fff2941b4f56267b0cc2025a8957bfbe857530590897548c0"
    ∷ "0xb28f94199c48945569aa44c968fbe5d68f3de4063eb59317fc1f1f0e4f5c839c"
    ∷ "0xa3c816a95f29aaf8038ea65314aac1d15834c991868fcdadce7e2e1ec9b906a5"
    ∷ "0xe836dd7180037caaef1cd6f2d14de92c138cff774bb7ae1e2bdac3b02c45ee1f"
    ∷ "0x8fec95f1b1434720a13eaac79f215d1811b9d27ec6231cc264f6fd29384404c6"
    ∷ "0xf4ff1d720dffdb58f82974781cab4e560e4923b0086b1da6fe5c73b34c7db9bf"
    ∷ "0xe1cac43bd377fdcae629e455bef0c06782fc24311e696400905b91b34bbc1f43"
    ∷ "0xf51f65a3034ff7262870c91f3272308c62ae43ca86671b66a73228eefb48aa63"
    ∷ "0x8e51b7180ccad02f846cd6339825b5a7554e122c4914378a5877a124c5fbbfbb" ∷ []

-- The same tokens, in the same order, as scripts/shutdown/data/prod/cTokens.ts has them.
lower-c_tokens : map to_lower_case c_tokens ≡ CTokens.c_tokens
unfolding CTokens.c_tokens to_lower_case
lower-c_tokens = refl
