-- ===== src/Shutdown/Give.antt =====
-- What the requests of setTokenBalance.ts lead to.
use tribe.Base.{
  ◌≡◌, refl, true, ◌||◌, Option, none, some, List, String, ok, require-then-eq-ok, ok-injective,
  str_eq,
}
use tribe.Js.{includes, argument}
use tribe.Shutdown.CTokens.{c_tokens}
use tribe.Shutdown.SetTokenBalance.{
  Request, with_recipient, with_token, read_arguments, fei_address,
}

with_recipient_lem :
    (token : String) (give_to amount : Option String) (r : Request)
    → with_recipient token give_to amount ≡ ok r
    → (r.token ≡ token) × (r.debug ≡ str_eq r.amount "true")
unfolding with_recipient
with_recipient_lem token none amount r h = cc
with_recipient_lem token (some give_to) none r h = rw (← ok-injective h) (refl, refl)
with_recipient_lem token (some give_to) (some a) r h = rw (← ok-injective h) (refl, refl)

with_token_lem :
    (token give_to amount : Option String) (r : Request)
    → with_token token give_to amount ≡ ok r
    → ((includes c_tokens r.token || str_eq r.token fei_address) ≡ true)
      × (r.debug ≡ str_eq r.amount "true")
unfolding with_token
with_token_lem none give_to amount r h = cc
with_token_lem (some token) give_to amount r h =
    let (known, h1) =
      require-then-eq-ok (includes c_tokens token || str_eq token fei_address) _ _ h in
    let (same, flag) = with_recipient_lem token give_to amount r h1 in (rw same known, flag)

-- The debug flag of an accepted request is on exactly where its amount is the text "true".
pub read_arguments_debug :
    (argv : List String) (r : Request)
    → read_arguments argv ≡ ok r
    → r.debug ≡ str_eq r.amount "true"
unfolding read_arguments
read_arguments_debug argv r h =
    (with_token_lem (argument argv 2) (argument argv 3) (argument argv 4) r h).1
