-- ===== src/Accounts/Tests.antt =====
-- Accounts at concrete logins.
use nanacoin.Prelude.{◌≡◌, refl, some, [], ◌∷◌, ◌++◌, List, codes, Text}
use nanacoin.Model.{Role}
use nanacoin.Accounts.{
  StoredAccount, signed_out, AccountAction, take_action, take_actions, persist, read, token, active,
  add, remove,
}
use nanacoin.Accounts.Held.{IsHeld, signed_out-IsHeld, take_actions-IsHeld, read-persist}

abbrev account : Text → StoredAccount
account id = record {
  user_id = id;
  username = id;
  display_name = id;
  role = Role.user;
  token = codes "token-" ++ id;
}

-- Ann and Ben log in, Ben logs out, and Ann is active again.
abbrev evening : List AccountAction
evening =
    AccountAction.log_in (account (codes "ann"))
    ∷ AccountAction.log_in (account (codes "ben"))
    ∷ AccountAction.log_out (codes "ben")
    ∷ []

back_to_ann : token (take_actions evening signed_out) ≡ some (codes "token-ann")
unfolding token active take_actions take_action add remove
back_to_ann = refl

take_actions-IsHeld_example : IsHeld (take_actions evening signed_out)
take_actions-IsHeld_example = take_actions-IsHeld evening signed_out signed_out-IsHeld

read-persist_example :
    read (some (persist (take_actions evening signed_out))) ≡ take_actions evening signed_out
read-persist_example =
    read-persist (take_actions evening signed_out)
      (take_actions-IsHeld evening signed_out signed_out-IsHeld)
