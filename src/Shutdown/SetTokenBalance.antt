-- ===== src/Shutdown/SetTokenBalance.antt =====
-- scripts/shutdown/setTokenBalance.ts: on a fork of the chain, it is to give tokens of a recorded
-- holder to an address. It throws before it reaches the chain, so nothing of what follows is here.
use tribe.Base.{
  Bool, false, ◌||◌, Option, none, some, List, String, Result, ok, err, ◌>>=◌, ◌>>◌, require,
  str_eq, if◌then◌else◌,
}
use tribe.Js.{includes, argument}
use tribe.Shutdown.CTokens.{c_tokens}

abbrev pub fei_address : String
fei_address = "0x956f47f50a910163d8bf957cf5846d573e7f87ca"

pub record Request : Type 0 where
  pub token : String
  pub give_to : String
  pub amount : String
  pub debug : Bool

abbrev or_default : Option String → String → String
or_default none d = d
or_default (some a) d = a

abbrev is_true : Option String → Bool
is_true none = false
is_true (some a) = str_eq a "true"

unfoldable pub with_recipient : String → Option String → Option String → Result Request
with_recipient token none amount =
    err "Must provide address to give tokens to. Run with single param 'help' for usage."
with_recipient token (some give_to) amount = ok (record {
  token = token;
  give_to = give_to;
  amount = or_default amount "1000000000000000000";
  debug = is_true amount;
})

unfoldable pub with_token : Option String → Option String → Option String → Result Request
with_token none give_to amount =
    err "Must provide cToken address. Run with single param 'help' for usage."
with_token (some token) give_to amount = do
  require (includes c_tokens token || str_eq token fei_address) "Invalid token address"
  with_recipient token give_to amount

-- The checks of the arguments. Both the amount and the debug flag are read from `argv[4]`.
unfoldable pub read_arguments : List String → Result Request
read_arguments argv = with_token (argument argv 2) (argument argv 3) (argument argv 4)

-- The provider is not filled in, so a run ends here.
unfoldable pub connect : Result (Unit {0})
connect = err "Please provide the url for an instance of anvil forked from mainnet here."

-- A run prints its usage and changes nothing, or checks the arguments and connects.
unfoldable pub main : List String → Result (Unit {0})
main argv = elim (argument argv 2) [
  | none ↦ read_arguments argv >>= λ r. connect
  | some a ↦ if str_eq a "help" then ok tt else read_arguments argv >>= λ r. connect
]
