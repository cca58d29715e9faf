-- ===== src/Shutdown/DeployTests.antt =====
-- Files of 27 entries with keys that are no addresses through the checks of
-- deployMerkleRedeemer.ts.
use tribe.Base.{◌≡◌, refl, false, map, ok}
use tribe.Js.{Object}
use tribe.Shutdown.CTokens.{c_tokens}
use tribe.Shutdown.DeployMerkleRedeemer.{Json, other, KeyTests, sanity_check, sanity_check_iff}

abbrev key_tests : KeyTests
key_tests = record { starts_with_0x = λ k. false; has_42_characters = λ k. false }

-- Keys that are no addresses, and values that are no texts.
abbrev junk : Object Json
junk = map (λ t. ("junk", other)) c_tokens

sanity_check_iff_example : sanity_check key_tests junk junk ≡ ok tt
unfolding c_tokens
sanity_check_iff_example = (sanity_check_iff key_tests junk junk).1 (refl, refl)
