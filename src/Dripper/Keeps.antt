-- ===== src/Dripper/Keeps.antt =====
-- Withdrawals and pauses leave the rest of the dripper as it is.
use tribe.Base.{
  Result, ℕ, ◌≡◌, Bool, true, false, not, ok, >>=-eq-ok, require-then-eq-ok, ok-injective, ap, sym,
}
use tribe.Evm.{Erc20}
use tribe.Dripper.{
  withdraw_token, withdraw_eth, Funds, Rights, withdraw, withdraw_erc20, set_paused,
}

module _ (e : Erc20) (this : ℕ) where
  pub withdraw_keeps :
      (r : Rights) (sender recipient amount : ℕ) (s t : Funds e)
      → withdraw e this r sender recipient amount s ≡ ok t
      → t.dripper ≡ s.dripper
  unfolding withdraw
  withdraw_keeps r sender recipient amount s t h =
      let (_, h1) = require-then-eq-ok (r.is_pcv_controller sender) _ _ h in
      let (w, hw, h2) =
        >>=-eq-ok (withdraw_erc20 e this s.dripper.token recipient amount s.world) _ h1 in
      ap (λ (x : Funds e). x.dripper) (sym (ok-injective h2))

  pub withdraw_token_keeps :
      (r : Rights) (sender token recipient amount : ℕ) (s t : Funds e)
      → withdraw_token e this r sender token recipient amount s ≡ ok t
      → t.dripper ≡ s.dripper
  unfolding withdraw_token
  withdraw_token_keeps r sender token recipient amount s t h =
      let (_, h1) = require-then-eq-ok (r.is_pcv_controller sender) _ _ h in
      let (w, hw, h2) = >>=-eq-ok (withdraw_erc20 e this token recipient amount s.world) _ h1 in
      ap (λ (x : Funds e). x.dripper) (sym (ok-injective h2))

  pub withdraw_eth_keeps :
      (send : (recipient amount : ℕ) → e.World → Result e.World) (r : Rights)
      (sender recipient amount : ℕ) (s t : Funds e)
      → withdraw_eth e this send r sender recipient amount s ≡ ok t
      → t.dripper ≡ s.dripper
  unfolding withdraw_eth
  withdraw_eth_keeps send r sender recipient amount s t h =
      let (_, h1) = require-then-eq-ok (r.is_pcv_controller sender) _ _ h in
      let (w, hw, h2) = >>=-eq-ok (send recipient amount s.world) _ h1 in
      ap (λ (x : Funds e). x.dripper) (sym (ok-injective h2))

  pub set_paused_keeps :
      (b : Bool) (r : Rights) (sender : ℕ) (s t : Funds e)
      → set_paused e this b r sender s ≡ ok t
      → t.dripper ≡ record s.dripper { paused = b }
  unfolding set_paused
  set_paused_keeps true r sender s t h =
      let (_, h1) = require-then-eq-ok (r.is_guardian_or_governor sender) _ _ h in
      let (_, h2) = require-then-eq-ok (not s.dripper.paused) _ _ h1 in
      ap (λ (x : Funds e). x.dripper) (sym (ok-injective h2))
  set_paused_keeps false r sender s t h =
      let (_, h1) = require-then-eq-ok (r.is_guardian_or_governor sender) _ _ h in
      let (_, h2) = require-then-eq-ok s.dripper.paused _ _ h1 in
      ap (λ (x : Funds e). x.dripper) (sym (ok-injective h2))
