-- ===== src/Ledger/Members.antt =====
-- The household's members (`provision`, `addUser`, `setUserStatus`, `setUserBio`,
-- `setUserPassword`). A method returns the member as stored; what a viewer sees of it is `view`.
use nanacoin.Prelude.{
  ℕ, ◌+◌, Bool, true, ◌&&◌, ◌||◌, not, if◌then◌else◌, is_some, [], ◌∷◌, ◌++◌, code_units, update,
  ltb, ◌==◌, Text, is_empty, byte_length, has_control,
}
use nanacoin.Exec.{Exec, Fault, Code, pure, lift, gets, throw_if, modify, or_raise, ◌>>=◌, ◌>>◌}
use nanacoin.Model.{AccountId, User, Role, UserStatus, is_nana}
use nanacoin.Ledger.State.{Ledger, user_by_id, user_by_name, now}
use nanacoin.Ledger.Guards.{require_nana}

abbrev pub has_user_id : ℕ → User → Bool
has_user_id id u = u.id == id

-- `a || b` on texts
abbrev pub text_or : Text → Text → Text
text_or a b = if is_empty a then b else a

unfoldable pub add_user : Text → Text → Text → Role → Exec Ledger User
unfolding ◌>>=◌
add_user username display_name password role = do
  throw_if (λ s. is_some (user_by_name s username)) (Fault.demo 409 Code.username_taken)
  id ← gets (λ s. s.next_id)
  modify (λ s. record s { next_id = s.next_id + 1 })
  at ← now
  let u : User = record {
    id = id;
    username = username;
    display_name = text_or display_name username;
    role = role;
    status = UserStatus.active;
    account = AccountId.member id;
    created_at = at;
    bio = [];
    password = password;
  }
  modify (λ s. record s { users = s.users ++ u ∷ [] })
  pure u

unfoldable pub provision : Text → Text → Text → Text → Exec Ledger User
unfolding ◌>>=◌
provision username display_name password household = do
  throw_if (λ s. s.provisioned) (Fault.demo 409 Code.already_provisioned)
  modify (λ s. record s { household = text_or household s.household })
  nana ← add_user username display_name password Role.nana
  modify (λ s. record s { provisioned = true })
  pure nana

-- `this.userById(id)`, or a fault if there is no such member.
unfoldable pub member_by_id : ℕ → Exec Ledger User
unfolding ◌>>=◌
member_by_id id = do
  found ← gets (λ s. user_by_id s id)
  lift (or_raise found (Fault.demo 404 Code.not_found))

unfoldable pub update_user : ℕ → (User → User) → Ledger → Ledger
update_user id f s = record s { users = update (has_user_id id) f s.users }

unfoldable pub set_user_status : User → ℕ → UserStatus → Exec Ledger User
unfolding ◌>>=◌
set_user_status actor id status = do
  require_nana actor
  u ← member_by_id id
  throw_if (λ _. u.id == actor.id) (Fault.demo 400 Code.bad_request)
  modify (update_user id (λ (u : User). record u { status = status }))
  pure (record u { status = status })

unfoldable pub set_user_bio : User → ℕ → Text → Exec Ledger User
unfolding ◌>>=◌
set_user_bio actor id bio = do
  u ← member_by_id id
  throw_if (λ _. not (actor.id == u.id)) (Fault.demo 403 Code.forbidden)
  throw_if (λ _. ltb 96 (byte_length bio) || has_control bio) (Fault.demo 400 Code.bad_request)
  modify (update_user id (λ (u : User). record u { bio = bio }))
  pure (record u { bio = bio })

unfoldable pub set_user_password : User → ℕ → Text → Exec Ledger User
unfolding ◌>>=◌
set_user_password actor id password = do
  u ← member_by_id id
  throw_if (λ _. not (is_nana actor.role) && not (actor.id == u.id)) (Fault.demo 403 Code.forbidden)
  throw_if (λ _. ltb (code_units password) 4) (Fault.demo 400 Code.bad_request)
  modify (update_user id (λ (u : User). record u { password = password }))
  pure (record u { password = password })
