-- ===== src/Accounts/Held.antt =====
-- One entry for each person, somebody active while anybody is held, and a reload that changes
-- nothing.
use nanacoin.Prelude.{
  ◌≡◌, refl, sym, ap, subst, arith, Bool, true, false, inl, inr, if◌then◌else◌, if-elim, Bool-cases,
  Option, none, some, List, [], ◌∷◌, ◌++◌, any, keep, All, All-append, All-keep, Text, same_text,
  same_text_iff,
}
use nanacoin.Accounts.{
  StoredAccount, Persisted, signed_out, has_user, is_other, active, last_user, add, activate,
  remove, remove_found, invalidate_active, persist, read, entries_of, usable, is_active_id,
  read_accounts, AccountAction, take_action, take_actions,
}

-- Nobody is held and nobody active, or the active one is held.
pub data HasActive : List StoredAccount → Option Text → Type 0 where
  empty : HasActive [] none
  held :
      {accounts : List StoredAccount} (id : Text)
      → any (has_user id) accounts ≡ true
      → HasActive accounts (some id)

-- No two entries are of one person.
abbrev pub Unique : List StoredAccount → Type 0
Unique [] = Unit
Unique (a ∷ rest) = All (λ b. is_other a.user_id b ≡ true) rest × Unique rest

pub record IsHeld (s : Persisted) : Type 0 where
  pub unique : Unique s.accounts
  pub somebody : HasActive s.accounts s.active_user_id

keep-All :
    (P : StoredAccount → Type 0) (p : StoredAccount → Bool) (xs : List StoredAccount)
    → All P xs
    → All P (keep p xs)
keep-All P p [] h = tt
keep-All P p (x ∷ xs) (h, hs) =
    if-elim (All P) (p x) (x ∷ keep p xs) (keep p xs) (h, keep-All P p xs hs) (keep-All P p xs hs)

keep-Unique : (p : StoredAccount → Bool) (xs : List StoredAccount) → Unique xs → Unique (keep p xs)
keep-Unique p [] h = tt
keep-Unique p (x ∷ xs) (h, hs) =
    if-elim Unique (p x) (x ∷ keep p xs) (keep p xs) (keep-All _ p xs h, keep-Unique p xs hs)
      (keep-Unique p xs hs)

other_sym : (a b : StoredAccount) → is_other a.user_id b ≡ true → is_other b.user_id a ≡ true
other_sym a b h =
    ground (arith, same_text_iff a.user_id b.user_id, same_text_iff b.user_id a.user_id)

snoc-Unique :
    (xs : List StoredAccount) (a : StoredAccount)
    → Unique xs
    → All (λ b. is_other a.user_id b ≡ true) xs
    → Unique (xs ++ a ∷ [])
snoc-Unique [] a h k = (tt, tt)
snoc-Unique (x ∷ xs) a (h, hs) (k, ks) =
    (All-append _ xs (a ∷ []) h (other_sym a x k, tt), snoc-Unique xs a hs ks)

any_last :
    (xs : List StoredAccount) (a : StoredAccount) → any (has_user a.user_id) (xs ++ a ∷ []) ≡ true
any_last [] a = ground (arith, same_text_iff a.user_id a.user_id)
any_last (x ∷ xs) a = ground (arith, any_last xs a)

any_more :
    (id : Text) (x : StoredAccount) (xs : List StoredAccount)
    → any (has_user id) xs ≡ true
    → any (has_user id) (x ∷ xs) ≡ true
any_more id x xs h = ground arith

last_held :
    (x : StoredAccount) (xs : List StoredAccount)
    → (id : Text) × (last_user (x ∷ xs) ≡ some id) × (any (has_user id) (x ∷ xs) ≡ true)
last_held x [] = (x.user_id, refl, ground (arith, same_text_iff x.user_id x.user_id))
last_held x (y ∷ xs) = let (id, e, h) = last_held y xs in (id, e, any_more id x (y ∷ xs) h)

last-HasActive : (xs : List StoredAccount) → HasActive xs (last_user xs)
last-HasActive [] = HasActive.empty
last-HasActive (x ∷ xs) =
    let (id, e, h) = last_held x xs in subst (HasActive (x ∷ xs)) (sym e) (HasActive.held id h)

any_kept :
    (id other : Text) (xs : List StoredAccount)
    → same_text id other ≡ false
    → any (has_user id) xs ≡ true
    → any (has_user id) (keep (is_other other) xs) ≡ true
any_kept id other [] h k = cc
any_kept id other (x ∷ xs) h k = ground (
  arith,
  any_kept id other xs h,
  same_text_iff x.user_id id,
  same_text_iff x.user_id other,
  same_text_iff id other,
)

add-IsHeld : (a : StoredAccount) (s : Persisted) → IsHeld s → IsHeld (add a s)
unfolding add
add-IsHeld a s h = record {
  unique =
      snoc-Unique _ a (keep-Unique (is_other a.user_id) s.accounts h.unique)
        (All-keep _ (is_other a.user_id) s.accounts (λ x k. k));
  somebody = HasActive.held a.user_id (any_last _ a);
}

activate-IsHeld : (id : Text) (s : Persisted) → IsHeld s → IsHeld (activate id s)
unfolding activate
activate-IsHeld id s h = elim (Bool-cases (any (has_user id) s.accounts)) [
  | inl e ↦ rw e record { unique = h.unique; somebody = HasActive.held id e }
  | inr e ↦ rw e h
]

remove-HasActive :
    (id : Text) (xs : List StoredAccount) (o : Option Text)
    → HasActive xs o
    → HasActive
        (keep (is_other id) xs)
        (if is_active_id o id then last_user (keep (is_other id) xs) else o)
remove-HasActive id [] o HasActive.empty = HasActive.empty
remove-HasActive id xs o (HasActive.held active e) = elim (Bool-cases (same_text active id)) [
  | inl same ↦ rw same (last-HasActive (keep (is_other id) xs))
  | inr other ↦ rw other (HasActive.held active (any_kept active id xs other e))
]

remove-IsHeld : (id : Text) (s : Persisted) → IsHeld s → IsHeld (remove id s)
unfolding remove
remove-IsHeld id s h = record {
  unique = keep-Unique (is_other id) s.accounts h.unique;
  somebody = remove-HasActive id s.accounts s.active_user_id h.somebody;
}

remove_found-IsHeld :
    (o : Option StoredAccount) (s : Persisted) → IsHeld s → IsHeld (remove_found o s)
unfolding remove_found
remove_found-IsHeld none s h = h
remove_found-IsHeld (some a) s h = remove-IsHeld a.user_id s h

invalidate_active-IsHeld : (s : Persisted) → IsHeld s → IsHeld (invalidate_active s)
unfolding invalidate_active
invalidate_active-IsHeld s h = remove_found-IsHeld (active s) s h

take_action-IsHeld : (a : AccountAction) (s : Persisted) → IsHeld s → IsHeld (take_action a s)
unfolding take_action
take_action-IsHeld (AccountAction.log_in a) s h = add-IsHeld a s h
take_action-IsHeld (AccountAction.switch_to id) s h = activate-IsHeld id s h
take_action-IsHeld (AccountAction.log_out id) s h = remove-IsHeld id s h
take_action-IsHeld AccountAction.log_all_out s h = record {
  unique = tt;
  somebody = HasActive.empty;
}
take_action-IsHeld AccountAction.expire s h = invalidate_active-IsHeld s h

-- Whatever logins, switches and logouts follow, no person has two entries, and the active one is
-- among those held, or nobody is held and nobody active, if that was so before.
pub take_actions-IsHeld :
    (actions : List AccountAction) (s : Persisted) → IsHeld s → IsHeld (take_actions actions s)
unfolding take_actions
take_actions-IsHeld [] s h = h
take_actions-IsHeld (a ∷ rest) s h = take_actions-IsHeld rest _ (take_action-IsHeld a s h)

usable-entries : (xs : List StoredAccount) → usable (entries_of xs) ≡ xs
unfolding usable
usable-entries [] = refl
usable-entries (x ∷ xs) = ap (x ∷◌) (usable-entries xs)

read_back :
    (xs : List StoredAccount) (o : Option Text)
    → HasActive xs o
    → read_accounts xs o ≡ record { accounts = xs; active_user_id = o }
read_back [] o HasActive.empty = refl
read_back xs o (HasActive.held id e) = rw e refl

-- What is stored of such a state is read back, after a reload of the page, as the same state.
pub read-persist : (s : Persisted) → IsHeld s → read (some (persist s)) ≡ s
unfolding read persist
read-persist s h = rw (usable-entries s.accounts) (read_back s.accounts s.active_user_id h.somebody)

pub signed_out-IsHeld : IsHeld signed_out
signed_out-IsHeld = record { unique = tt; somebody = HasActive.empty }
