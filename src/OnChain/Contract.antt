-- ===== src/OnChain/Contract.antt =====
-- `SubscriptionContract` of `infrastructure/billing/subscriptions.py`.
use code_zard.Prelude.{String, Bool, true, false, not, ◌||◌, Option, none, some, if◌then◌else◌}
use code_zard.Prelude.Text.{same, concat}
use code_zard.Prelude.Result.{Result, ok, err}
use code_zard.Identity.{is_address}
use code_zard.OnChain.{OnChainSubscription}
use code_zard.OnChain.Values.{Value, ValueError, Spelling, read}

-- What the object keeps: the client, once it is made, and why there is none.
pub record Contract : Type 0 where
  pub contract_id : String
  pub network : String
  pub source : String
  pub has_client : Bool
  pub reason : String

-- The SDK as it is installed, or the text of the `ImportError`; a call of the contract and each step with
-- the network gives what it returns, or the text of what it raises.
pub record Sdk : Type 0 where
  pub import_error : Option String
  pub spelling : Spelling
  pub invoke : String → String → Result String Value
  pub prepare : String → String → String → Result String String
  pub send : String → String → Result String (String × String)
  pub poll : String → Result String String
  pub public_passphrase : String
  pub testnet_passphrase : String

-- `SubscriptionContractError` with its text, and what nothing catches.
pub data ContractError : Type 0 where
  unusable : String → ContractError
  unreadable : ValueError → ContractError

module _ (sdk : Sdk) where
  abbrev loaded : Option String → Contract → Contract
  loaded none c = record c { has_client = true }
  loaded (some message) c = record c {
    reason =
        concat
          "this gateway cannot read the subscriptions contract: the Stellar dependency is not installed ("
          (concat message "). Install it with: pip install -e \".[stellar]\"");
  }

  -- `_load`: whether there is a client, and the object after it.
  unfoldable pub load : Contract → Contract
  load c =
      if c.has_client || not (same c.reason "")
      then c
      else if same c.contract_id ""
      then record c { reason = "no subscriptions contract is configured" }
      else loaded sdk.import_error c

  -- `available`
  unfoldable pub is_available : Contract → Bool × Contract
  unfolding load
  is_available c = if same c.contract_id "" then (false, c) else ((load c).has_client, load c)

  -- `_passphrase`
  unfoldable pub passphrase : Contract → String
  passphrase c = if same c.network "stellar" then sdk.public_passphrase else sdk.testnet_passphrase

  abbrev read_result :
      Result ValueError (Option OnChainSubscription)
      → Result ContractError (Option OnChainSubscription)
  read_result (ok found) = ok found
  read_result (err e) = err (unreadable e)

  abbrev answered : Result String Value → Result ContractError (Option OnChainSubscription)
  answered (ok v) = read_result (read sdk.spelling v)
  answered (err message) =
      err (unusable (concat "the subscriptions contract could not be read: " message))

  -- `subscription`
  unfoldable pub subscription :
      Contract → String → Result ContractError (Option OnChainSubscription) × Contract
  unfolding load is_address read
  subscription c address =
      let after = load c in
      if not after.has_client || not (is_address address)
      then (ok none, after)
      else (answered (sdk.invoke address c.source), after)

  abbrev no_client : Contract → ContractError
  no_client c = unusable (if same c.reason "" then "no subscriptions contract" else c.reason)

  abbrev prepared : Result String String → Result ContractError String
  prepared (ok xdr) = ok xdr
  prepared (err message) =
      err (unusable (concat "the subscription transaction could not be built: " message))

  -- `build_subscribe`
  unfoldable pub build_subscribe :
      Contract → String → String → Result ContractError String × Contract
  unfolding load is_address passphrase
  build_subscribe c address plan =
      let after = load c in
      if not (is_address address)
      then (err (unusable "that is not a Stellar address"), c)
      else if not after.has_client
      then (err (no_client after), after)
      else (prepared (sdk.prepare (passphrase c) address plan), after)

  abbrev failed : String → ContractError
  failed message = unusable (concat "the subscription could not be submitted: " message)

  abbrev is_status : String → String → String → Bool
  is_status status long short = same status long || same status short

  abbrev settled : String → Result String String → Result ContractError String
  settled hash (err message) = err (failed message)
  settled hash (ok status) =
      if not (is_status status "GetTransactionStatus.SUCCESS" "SUCCESS")
      then err (unusable (concat "the transaction failed on the ledger: " status))
      else ok hash

  abbrev sent : Result String (String × String) → Result ContractError String
  sent (err message) = err (failed message)
  sent (ok (status, hash)) =
      if not (is_status status "SendTransactionStatus.PENDING" "PENDING")
      then err (unusable (concat "the network refused the transaction: " status))
      else settled hash (sdk.poll hash)

  -- `submit`
  unfoldable pub submit : Contract → String → Result ContractError String × Contract
  unfolding load passphrase
  submit c signed_xdr =
      let after = load c in
      if not after.has_client
      then (err (no_client after), after)
      else (sent (sdk.send (passphrase c) signed_xdr), after)
