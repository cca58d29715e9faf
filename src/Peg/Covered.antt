-- ===== src/Peg/Covered.antt =====
-- The calls of SimpleFeiDaiPSM.sol, of Fei.sol and of others, and that each keeps the DAI at the FEI
-- outside the contract.
use tribe.Base.{
  ℕ, Bool, true, ◌+◌, ◌≤◌, ◌≡◌, ◌≢◌, sym, ap, subst, ◌∙◌, ok, ok-injective, ◌==◌, Bool-cases, inl,
  inr, arith,
}
use tribe.Evm.{Erc20, Moved}
use tribe.Peg.Fei.{Supply, State, Roles, Incentivize}
use tribe.Peg.Fei
use tribe.Peg.Incentives.{
  HasNoIncentives, transfer_from_parts, transfer_parts, mint_parts, burn_parts, burn_from_parts,
  set_paused_parts,
}
use tribe.Peg.Steps.{mint_steps, redeem_steps}
use tribe.Peg.{mint, redeem, burn_fei_held}

module _ (e : Erc20) (b : Supply e) (incentivize : Incentivize e) (dai this : ℕ) where
  -- The FEI outside the contract is at most the DAI in it.
  abbrev pub IsBacked : e.World → Type 0
  IsBacked w = b.total_supply w ≤ e.balance_of w b.token this + e.balance_of w dai this

  -- The contract is the only minter of FEI.
  abbrev pub IsOnlyMinter : Roles → Type 0
  IsOnlyMinter r = (a : ℕ) → r.is_minter a ≡ true → a ≡ this

  -- Calls that returned. The contract itself mints, moves and approves FEI in its own functions only,
  -- and no call sets an incentive contract. Core may change its roles, with the contract left as the
  -- only minter. Elsewhere FEI stays as it is, and the contract's DAI does not fall.
  pub data History (s : State e) : State e → Type 0 where
    here : History s s
    mints :
        {u u' : State e}
        → History s u
        → (sender to amount minimum out : ℕ) → sender ≢ this
        → mint e b incentivize dai this sender to amount minimum u ≡ ok (out, u')
        → History s u'
    redeems :
        {u u' : State e}
        → History s u
        → (sender to amount minimum out : ℕ) → sender ≢ this
        → redeem e b incentivize dai this sender to amount minimum u ≡ ok (out, u')
        → History s u'
    burns_held :
        {u u' : State e}
        → History s u
        → burn_fei_held e b incentivize dai this u ≡ ok u'
        → History s u'
    mints_fei :
        {u u' : State e}
        → History s u
        → (caller account amount : ℕ) → caller ≢ this
        → Fei.mint e b caller account amount u ≡ ok u'
        → History s u'
    burns_fei :
        {u u' : State e}
        → History s u
        → (caller amount : ℕ) → Fei.burn e b caller amount u ≡ ok u'
        → History s u'
    burns_fei_from :
        {u u' : State e}
        → History s u
        → (caller account amount : ℕ) → Fei.burn_from e b caller account amount u ≡ ok u'
        → History s u'
    transfers_fei :
        {u u' : State e}
        → History s u
        → (caller recipient amount : ℕ) → caller ≢ this
        → Fei.transfer e b incentivize caller recipient amount u ≡ ok u'
        → History s u'
    transfers_fei_from :
        {u u' : State e}
        → History s u
        → (caller sender recipient amount : ℕ) → sender ≢ this
        → Fei.transfer_from e b incentivize caller sender recipient amount u ≡ ok u'
        → History s u'
    pauses :
        {u u' : State e}
        → History s u
        → (to : Bool) (caller : ℕ) → Fei.set_paused e b to caller u ≡ ok u'
        → History s u'
    changes_roles :
        {u : State e}
        → History s u
        → (r : Roles) → IsOnlyMinter r
        → History s (record u { roles = r })
    elsewhere :
        {u : State e}
        → History s u
        → (w : e.World) → b.total_supply w ≡ b.total_supply u.world
        → ((h : ℕ) → e.balance_of w b.token h ≡ e.balance_of u.world b.token h)
        → e.balance_of u.world dai this ≤ e.balance_of w dai this
        → History s (record u { world = w })

  -- What the histories keep.
  pub record Covers (s : State e) : Type 0 where
    pub none : HasNoIncentives s
    pub only : IsOnlyMinter s.roles
    pub backed : IsBacked s.world

  -- A call that changes the world alone.
  same_but_world :
      {s s' : State e}
      → s' ≡ record s { world = s'.world }
      → Covers s
      → IsBacked s'.world
      → Covers s'
  same_but_world {s} {s'} same i backed = record {
    none = λ a. ap (λ (x : State e). x.incentive_contract a) same ∙ i.none a;
    only = subst IsOnlyMinter (ap (λ (x : State e). x.roles) (sym same)) i.only;
    backed = backed;
  }

  module _ (apart : dai ≢ b.token) where
    mint-Covers :
        (sender to amount minimum out : ℕ) (s s' : State e)
        → sender ≢ this
        → mint e b incentivize dai this sender to amount minimum s ≡ ok (out, s')
        → Covers s
        → Covers s'
    mint-Covers sender to amount minimum out s s' other h i =
        let (w1, (hw, hm, same, _)) =
          mint_steps e b incentivize dai this sender to amount minimum out s s' h in
        let moved = (e.transfer_from-Moved dai this sender this amount s.world w1 hw).1 in
        let (supply, minted) = b.mint-Minted to amount w1 s'.world hm in
        let kept = b.transfer_from-supply dai this sender this amount s.world w1 hw in
        same_but_world same i (
          ground (
            arith,
            apart,
            other,
            moved dai this,
            moved b.token this,
            minted dai this,
            minted b.token this,
            supply,
            kept,
            i.backed,
          ))

    redeem-Covers :
        (sender to amount minimum out : ℕ) (s s' : State e)
        → sender ≢ this
        → redeem e b incentivize dai this sender to amount minimum s ≡ ok (out, s')
        → Covers s
        → Covers s'
    redeem-Covers sender to amount minimum out s s' other h i =
        let (w1, (hw, hm, same, _)) =
          redeem_steps e b incentivize dai this sender to amount minimum out s s' i.none h in
        let taken = (e.transfer_from-Moved b.token this sender this amount s.world w1 hw).1 in
        let paid = (e.transfer-Moved dai this to amount w1 s'.world hm).1 in
        let kept = b.transfer_from-supply b.token this sender this amount s.world w1 hw in
        let kept' = b.transfer-supply dai this to amount w1 s'.world hm in
        same_but_world same i (
          ground (
            arith,
            apart,
            other,
            taken dai this,
            taken b.token this,
            paid dai this,
            paid b.token this,
            kept,
            kept',
            i.backed,
          ))

    -- Burning any account's FEI leaves at least as much backing for the rest.
    fei_burn-IsBacked :
        (account amount : ℕ) (w w' : e.World)
        → b.burn account amount w ≡ ok w'
        → IsBacked w
        → IsBacked w'
    fei_burn-IsBacked account amount w w' h i =
        let (supply, burnt) = b.burn-Burnt account amount w w' h in
        ground (arith, apart, supply, burnt dai this, burnt b.token this, i)

    burn_fei_held-Covers :
        (s s' : State e) → burn_fei_held e b incentivize dai this s ≡ ok s' → Covers s → Covers s'
    unfolding burn_fei_held
    burn_fei_held-Covers s s' h i = elim (Bool-cases (e.balance_of s.world b.token this == 0)) [
      | inl none_held ↦ subst Covers (ok-injective (rw none_held at h)) i
      | inr held ↦
          let (burnt, same) =
            burn_parts e b this (e.balance_of s.world b.token this) s s' (rw held at h) in
          same_but_world same i (fei_burn-IsBacked this _ s.world s'.world burnt i.backed)
    ]

    -- A transfer of FEI by another account keeps the supply, and the contract's tokens do not fall.
    fei_transfer-IsBacked :
        (source recipient amount : ℕ) (w w' : e.World)
        → source ≢ this
        → Moved (e.balance_of w) (e.balance_of w') b.token source recipient amount
        → b.total_supply w' ≡ b.total_supply w
        → IsBacked w
        → IsBacked w'
    fei_transfer-IsBacked source recipient amount w w' other moved kept i =
        ground (arith, apart, other, moved dai this, moved b.token this, kept, i)

    pub History-Covers : {s u : State e} → History s u → Covers s → Covers u
    History-Covers here i = i
    History-Covers (mints {u} {u'} past sender to amount minimum out other h) i =
        mint-Covers sender to amount minimum out u u' other h (History-Covers past i)
    History-Covers (redeems {u} {u'} past sender to amount minimum out other h) i =
        redeem-Covers sender to amount minimum out u u' other h (History-Covers past i)
    History-Covers (burns_held {u} {u'} past h) i =
        burn_fei_held-Covers u u' h (History-Covers past i)
    History-Covers (mints_fei {u} {u'} past caller account amount other h) i = absurd (
        other ((History-Covers past i).only caller (mint_parts e b caller account amount u u' h).0))
    History-Covers (burns_fei {u} {u'} past caller amount h) i =
        let k = History-Covers past i in
        let (burnt, same) = burn_parts e b caller amount u u' h in
        same_but_world same k (fei_burn-IsBacked caller amount u.world u'.world burnt k.backed)
    History-Covers (burns_fei_from {u} {u'} past caller account amount h) i =
        let k = History-Covers past i in
        let (burnt, same) = burn_from_parts e b caller account amount u u' h in
        same_but_world same k (fei_burn-IsBacked account amount u.world u'.world burnt k.backed)
    History-Covers (transfers_fei {u} {u'} past caller recipient amount other h) i =
        let k = History-Covers past i in
        let (hw, same) = transfer_parts e b incentivize caller recipient amount u u' k.none h in
        same_but_world same k (
          fei_transfer-IsBacked caller recipient amount u.world u'.world other
            (e.transfer-Moved b.token caller recipient amount u.world u'.world hw).1
            (b.transfer-supply b.token caller recipient amount u.world u'.world hw) k.backed)
    History-Covers (transfers_fei_from {u} {u'} past caller sender recipient amount other h) i =
        let k = History-Covers past i in
        let (hw, same) =
          transfer_from_parts e b incentivize caller sender recipient amount u u' k.none h in
        same_but_world same k (
          fei_transfer-IsBacked sender recipient amount u.world u'.world other
            (e.transfer_from-Moved b.token caller sender recipient amount u.world u'.world hw).1
            (b.transfer_from-supply b.token caller sender recipient amount u.world u'.world hw)
            k.backed)
    History-Covers (pauses {u} {u'} past to caller h) i =
        subst Covers (sym (set_paused_parts e b to caller u u' h)) (
          let k = History-Covers past i in
          record { none = k.none; only = k.only; backed = k.backed })
    History-Covers (changes_roles {u} past r only) i =
        let k = History-Covers past i in record { none = k.none; only = only; backed = k.backed }
    History-Covers (elsewhere {u} past w supply fei more) i =
        let k = History-Covers past i in
        record {
          none = k.none;
          only = k.only;
          backed = omega (arith, supply, fei this, more, k.backed);
        }
