-- ===== src/Bridge/Names/Fixtures.antt =====
-- A short history of the name service: alice attests the transfer of the Steem account bob with
-- the memo carol, and carol confirms, or the registration expires.
use steem_virtual_machine_ev.Prelude.{
  nat_eq, List, [], none, some, Result, ok, err, get, codes, map,
}
use steem_virtual_machine_ev.Decimal.{half_up}
use steem_virtual_machine_ev.Bridge.Facts.{NameFacts}
use steem_virtual_machine_ev.Bridge.State.{Error, gateway_account_name, Store, Context}
use steem_virtual_machine_ev.Bridge.Ledger.{genesis}
use steem_virtual_machine_ev.Bridge.Fixtures.{Balances, bank, alice, external, context, params}
use steem_virtual_machine_ev.Bridge.Names.{NameStatus, NameRegistration, NameStore}
use steem_virtual_machine_ev.Bridge.Names.Registration.{
  MsgSubmitNameRegistration, submit_name_registration, new_registration,
}
use steem_virtual_machine_ev.Bridge.Names.Linking.{MsgConfirmName, confirm_name}
use steem_virtual_machine_ev.Bridge.Names.Expiry.{expire_name_registrations}
use steem_virtual_machine_ev.Bridge.Names.System.{no_names}

abbrev pub name_facts : NameFacts
name_facts = record {
  steem_block = 77;
  steem_timestamp = codes "t";
  steem_account = codes "bob";
  gateway_account = gateway_account_name;
  amount_millisteem = 1000;
  memo = codes "carol";
}

abbrev pub name_msg : MsgSubmitNameRegistration
name_msg = record { validator = alice; txid = codes "ef"; op_index = 0; facts = name_facts }

abbrev pub confirm_msg : MsgConfirmName
confirm_msg = record { confirmer = codes "carol"; registration_id = 0 }

abbrev pub start : Store Balances
start = genesis params []

abbrev pub after_both :
    Store Balances × NameStore
    → Result Error (Store Balances × NameStore)
    → Store Balances × NameStore
after_both before (ok result) = result
after_both before (err why) = before

abbrev pub after_names : NameStore → Result Error NameStore → NameStore
after_names before (ok result) = result
after_names before (err why) = before

abbrev pub parked : Store Balances × NameStore
parked =
    after_both (start, no_names)
      (submit_name_registration half_up external bank context name_msg start no_names)

abbrev pub linked : NameStore
linked = after_names parked.1 (confirm_name external context parked.0.params confirm_msg parked.1)

abbrev pub late : Context
late = record context { block_height = 50 }

abbrev pub lapsed : NameStore
lapsed = after_names parked.1 (expire_name_registrations external late parked.0.params parked.1)

abbrev pub parked_again : Store Balances × NameStore
parked_again =
    after_both parked (submit_name_registration half_up external bank late name_msg parked.0 lapsed)

abbrev pub the_registration : NameRegistration
the_registration = elim (get 0 parked.1.registration) [
  | none ↦ new_registration context 0 name_msg
  | some r ↦ r
]

abbrev pub statuses : NameStore → List NameStatus
statuses k = map (λ e. e.1.status) k.registration
