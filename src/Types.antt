-- ===== src/Types.antt =====
-- types/types.ts: the shapes that the proposals and the test setup pass around. Fields of a
-- contract other than its address belong to ethers and are not modelled here.
use tribe.Base.{ℕ, Bool, Option, none, some, List, [], ◌∷◌, String}
use tribe.Js.{Object}

pub data ProposalCategory : Type 0 where
  dao debug tc debug_tc no_category : ProposalCategory

pub data AddressCategory : Type 0 where
  core governance utility security peg pcv pcv_v1 collateralization oracle : AddressCategory
  rewards fei_rari turbo external deprecated fuse volt tbd distribution : AddressCategory

-- `NamedAddresses`; a name that has no entry is `undefined`.
abbrev pub NamedAddresses : Type 0
NamedAddresses = Object String

pub record ContractConfig : Type 0 where
  pub artifact_name : String
  pub address : String
  -- `none` where the entry spells the field in another way
  pub category : Option AddressCategory

abbrev pub contract_config : String → String → AddressCategory → ContractConfig
contract_config artifact address category = record {
  artifact_name = artifact;
  address = address;
  category = some category;
}

abbrev pub uncategorized : String → String → ContractConfig
uncategorized artifact address = record {
  artifact_name = artifact;
  address = address;
  category = none;
}

-- The values that the proposals pass as arguments of a call. An address is looked up by name, so
-- it may be undefined.
pub data Argument : Type 0 where
  address : Option String → Argument
  addresses : List (Option String) → Argument
  number : ℕ → Argument
  text : String → Argument
  bytes32 : ℕ → Argument
  boolean : Bool → Argument
  texts : List String → Argument
  -- an asset, a target and an amount, as one struct
  withdraw_info : (asset target : Option String) → (amount : String) → Argument

pub record TemplatedProposalCommand : Type 0 where
  pub target : String
  pub values : String
  pub method : String
  pub arguments : NamedAddresses → List Argument
  pub description : String

pub record TemplatedProposalDescription : Type 0 where
  pub title : String
  pub commands : List TemplatedProposalCommand
  pub description : String

pub record TemplatedProposalConfig : Type 0 where
  pub deploy : Bool
  pub category : ProposalCategory
  pub total_value : ℕ
  pub proposal : Option TemplatedProposalDescription
  pub affected_contract_signoff : List String
  pub deprecated_contract_signoff : List String
  pub proposal_id : String

-- `namedContractsToNamedAddresses`, over contracts of which only the address is read.
unfoldable pub named_contracts_to_named_addresses :
    {C : Type 0} → (C → String) → Object C → NamedAddresses
named_contracts_to_named_addresses address_of [] = []
named_contracts_to_named_addresses address_of ((name, contract) ∷ contracts) =
    (name, address_of contract) ∷ named_contracts_to_named_addresses address_of contracts
