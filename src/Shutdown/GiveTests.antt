-- ===== src/Shutdown/GiveTests.antt =====
-- The arguments of a run of setTokenBalance.ts for FEI, and its theorem at them.
use tribe.Base.{◌≡◌, refl, false, List, [], ◌∷◌, String, ok, str_eq}
use tribe.Shutdown.CTokens.{c_tokens}
use tribe.Shutdown.Give.{read_arguments_debug}
use tribe.Shutdown.SetTokenBalance.{
  Request, read_arguments, with_token, with_recipient, fei_address,
}

abbrev argv : List String
argv = "node" ∷ "setTokenBalance" ∷ fei_address ∷ "0x11e52c" ∷ "1000" ∷ []

abbrev request : Request
request = record { token = fei_address; give_to = "0x11e52c"; amount = "1000"; debug = false }

accepted : read_arguments argv ≡ ok request
unfolding read_arguments with_token with_recipient c_tokens
accepted = refl

read_arguments_debug_example : request.debug ≡ str_eq request.amount "true"
read_arguments_debug_example = read_arguments_debug argv request accepted
