-- ===== src/Accounts.antt =====
-- The signed-in accounts of a browser tab (nanacoin_ui/src/app/api/accounts.ts). The tab's storage,
-- `JSON.stringify` and `JSON.parse` are the platform's: what is stored is the value that parsing
-- it gives.
pub mod Held
mod Tests
use nanacoin.Prelude.{
  ℕ, Bool, true, false, not, if◌then◌else◌, Option, none, some, is_some, List, [], ◌∷◌, ◌++◌, find,
  any, keep, Text, same_text, ◌&&◌, ◌==◌,
}
use nanacoin.Model.{Role}

-- `interface StoredAccount`
pub record StoredAccount : Type 0 where
  pub user_id : Text
  pub username : Text
  pub display_name : Text
  pub role : Role
  pub token : Text

-- `interface Persisted`
pub record Persisted : Type 0 where
  pub accounts : List StoredAccount
  pub active_user_id : Option Text

abbrev pub signed_out : Persisted
signed_out = record { accounts = []; active_user_id = none }

abbrev pub has_user : Text → StoredAccount → Bool
has_user id a = same_text a.user_id id

abbrev pub is_other : Text → StoredAccount → Bool
is_other id a = not (same_text a.user_id id)

-- `active()` and `token()`
unfoldable pub active : Persisted → Option StoredAccount
active s = elim s.active_user_id [ none ↦ none | some id ↦ find (has_user id) s.accounts ]

unfoldable pub token : Persisted → Option Text
unfolding active
token s = elim (active s) [ none ↦ none | some a ↦ some a.token ]

-- `accounts[accounts.length - 1]?.userId ?? null`
abbrev pub last_user : List StoredAccount → Option Text
last_user [] = none
last_user (a ∷ []) = some a.user_id
last_user (a ∷ b ∷ rest) = last_user (b ∷ rest)

-- `add(account)`
unfoldable pub add : StoredAccount → Persisted → Persisted
add account s = record {
  accounts = keep (is_other account.user_id) s.accounts ++ account ∷ [];
  active_user_id = some account.user_id;
}

-- `activate(userId)`
unfoldable pub activate : Text → Persisted → Persisted
activate id s = if any (has_user id) s.accounts then record s { active_user_id = some id } else s

abbrev pub is_active_id : Option Text → Text → Bool
is_active_id none id = false
is_active_id (some active) id = same_text active id

-- `remove(userId)`
unfoldable pub remove : Text → Persisted → Persisted
remove id s =
    let accounts = keep (is_other id) s.accounts in
    record {
      accounts = accounts;
      active_user_id =
          if is_active_id s.active_user_id id then last_user accounts else s.active_user_id;
    }

-- `clear()`
abbrev pub clear : Persisted → Persisted
clear s = signed_out

-- `if (active) this.remove(active.userId)`
unfoldable pub remove_found : Option StoredAccount → Persisted → Persisted
unfolding remove
remove_found none s = s
remove_found (some a) s = remove a.user_id s

-- `invalidateActive()`
unfoldable pub invalidate_active : Persisted → Persisted
unfolding active remove_found
invalidate_active s = remove_found (active s) s

-- An entry of what was stored. A field of another type than text is absent here.
pub record StoredEntry : Type 0 where
  pub user_id : Option Text
  pub token : Option Text
  pub username : Text
  pub display_name : Text
  pub role : Role

-- What parsing the stored text gives. `accounts` is absent where it is no array.
pub record StoredState : Type 0 where
  pub v : ℕ
  pub accounts : Option (List StoredEntry)
  pub active_user_id : Option Text

-- An entry with its two texts, if it has them.
abbrev pub stored_account : StoredEntry → Option StoredAccount
stored_account e = elim e.user_id [
  | none ↦ none
  | some id ↦ elim e.token [
    | none ↦ none
    | some token ↦ some record {
      user_id = id;
      username = e.username;
      display_name = e.display_name;
      role = e.role;
      token = token;
    }
  ]
]

abbrev pub prepend : Option StoredAccount → List StoredAccount → List StoredAccount
prepend none rest = rest
prepend (some a) rest = a ∷ rest

unfoldable pub usable : List StoredEntry → List StoredAccount
usable [] = []
usable (e ∷ rest) = prepend (stored_account e) (usable rest)

abbrev pub holds_user : Option Text → List StoredAccount → Bool
holds_user none accounts = false
holds_user (some id) accounts = any (has_user id) accounts

abbrev pub read_accounts : List StoredAccount → Option Text → Persisted
read_accounts accounts active_id = record {
  accounts = accounts;
  active_user_id = if holds_user active_id accounts then active_id else last_user accounts;
}

-- `read()`: `none` where nothing is stored, or parsing or storage fails.
unfoldable pub read : Option StoredState → Persisted
unfolding usable
read none = signed_out
read (some stored) = elim stored.accounts [
  | none ↦ signed_out
  | some entries ↦
      if stored.v == 1 then read_accounts (usable entries) stored.active_user_id else signed_out
]

abbrev pub entry_of : StoredAccount → StoredEntry
entry_of a = record {
  user_id = some a.user_id;
  token = some a.token;
  username = a.username;
  display_name = a.display_name;
  role = a.role;
}

abbrev pub entries_of : List StoredAccount → List StoredEntry
entries_of [] = []
entries_of (a ∷ rest) = entry_of a ∷ entries_of rest

-- `persist()`, where the storage takes the text
unfoldable pub persist : Persisted → StoredState
persist s = record {
  v = 1;
  accounts = some (entries_of s.accounts);
  active_user_id = s.active_user_id;
}

pub data AccountAction : Type 0 where
  log_in : StoredAccount → AccountAction
  switch_to : Text → AccountAction
  log_out : Text → AccountAction
  log_all_out expire : AccountAction

-- A call of one of the methods
unfoldable pub take_action : AccountAction → Persisted → Persisted
unfolding add activate remove invalidate_active
take_action (AccountAction.log_in a) s = add a s
take_action (AccountAction.switch_to id) s = activate id s
take_action (AccountAction.log_out id) s = remove id s
take_action AccountAction.log_all_out s = clear s
take_action AccountAction.expire s = invalidate_active s

unfoldable pub take_actions : List AccountAction → Persisted → Persisted
unfolding take_action
take_actions [] s = s
take_actions (a ∷ rest) s = take_actions rest (take_action a s)
