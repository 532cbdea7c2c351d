-- ===== src/Auth/Tokens.antt =====
-- app/core/oauth2.py: the tokens, and the guards of the endpoints. JWT is a parameter.

use event_booking_ticketing.Session.{
  forbidden, unauthorized, raise_if, or_raise, ◌>>=◌, ◌>>◌, pure, Handler,
}
use event_booking_ticketing.Redis.{
  revoked, blacklist, user_revoked_at, timestamp, second, RedisValue, Redis,
}
use event_booking_ticketing.Auth.Visit.{read_saved, tell, ask, Visit, AuthEnv}
use event_booking_ticketing.Model.{customer, has_user_id, Db, seller, admin, User, UserRole}
use event_booking_ticketing.Common.{
  any, not, is_some, [], ltb, false, ◌==◌, ◌/◌, ◌-◌, none, ◌∷◌, ◌+◌, first, true, ◌&&◌, ◌*◌, ◌≡◌,
  some, if◌then◌else◌, Bool, List, Option, ℕ,
}

pub data TokenType : Type 0 where
  access refresh : TokenType

-- The claims of a token. `sub` is the decimal text of a user's id, which `create_access_token` and
-- `create_fresh_token` alone write; `exp` is in seconds, `iat` is not rounded.
pub record Payload : Type 0 where
  pub sub : Option ℕ
  pub jti : Option ℕ
  pub type : Option TokenType
  pub exp : Option ℕ
  pub iat : Option ℕ

-- `exp` is not over.
abbrev pub is_unexpired : ℕ → Payload → Bool
is_unexpired now p = elim p.exp [ none ↦ true | some exp ↦ ltb now (exp * second) ]

-- PyJWT with the secret key of the settings.
pub record Jwt (T : Type 0) : Type 0 where
  pub encode : Payload → T
  -- `jwt.decode` at a time; `none` is a `PyJWTError`.
  pub decode : ℕ → T → Option Payload
  -- The same with `options={"verify_exp": False}`.
  pub decode_any : ℕ → T → Option Payload
  -- Expiry is all that the option leaves out.
  pub decode-decode_any :
      (now : ℕ) (token : T) (p : Payload)
      → decode now token ≡ some p
      → (decode_any now token ≡ some p) × (is_unexpired now p ≡ true)
  -- The claims are those of the text of the token, whenever it is read.
  pub decode_any-same :
      (t t' : ℕ) (token : T) (p p' : Payload)
      → decode_any t token ≡ some p
      → decode_any t' token ≡ some p'
      → p ≡ p'

abbrev pub minutes_in_seconds : ℕ → ℕ
minutes_in_seconds n = n * 60

abbrev pub days_in_seconds : ℕ → ℕ
days_in_seconds n = n * 24 * 60 * 60

unfoldable pub access_payload : AuthEnv → ℕ → Payload
access_payload e user_id = record {
  sub = some user_id;
  jti = some e.access_jti;
  type = some access;
  exp = some ((e.now + minutes_in_seconds e.access_token_expire_minutes * second) / second);
  iat = some e.now;
}

unfoldable pub refresh_payload : AuthEnv → ℕ → Payload
refresh_payload e user_id = record {
  sub = some user_id;
  jti = some e.refresh_jti;
  type = some refresh;
  exp = some ((e.now + days_in_seconds e.refresh_token_expire_days * second) / second);
  iat = none;
}

abbrev is_access : Option TokenType → Bool
is_access (some access) = true
is_access _ = false

abbrev pub find_user : ℕ → Db → Option User
find_user k db = first (has_user_id k) db.users

-- `token_iat < float(user_revoked_at)`
abbrev pub is_before : Option ℕ → Option RedisValue → Bool
is_before iat (some (timestamp revoked_at)) = ltb (elim iat [ none ↦ 0 | some t ↦ t ]) revoked_at
is_before iat _ = false

-- The lifetime that is left, in whole seconds; what has none is kept for an hour.
abbrev pub blacklist_seconds : ℕ → ℕ → ℕ
blacklist_seconds now exp =
    let remaining = (exp * second - now) / second in if ltb 0 remaining then remaining else 3600

-- `user_id is None or token_type != "access"`
abbrev pub claimed_user : Payload → Option ℕ
claimed_user p = if is_access p.type then p.sub else none

-- `user if (user and user.is_verified and user.is_active) else None`
abbrev pub usable : Option User → Option User
usable none = none
usable (some user) = if user.is_verified && user.is_active then some user else none

abbrev pub is_same_role : UserRole → UserRole → Bool
is_same_role customer customer = true
is_same_role seller seller = true
is_same_role admin admin = true
is_same_role a b = false

module _ {S T : Type 0} (redis : Redis S) (jwt : Jwt T) where
  abbrev pub create_access_token : AuthEnv → ℕ → T
  create_access_token e user_id = jwt.encode (access_payload e user_id)

  abbrev pub create_fresh_token : AuthEnv → ℕ → T
  create_fresh_token e user_id = jwt.encode (refresh_payload e user_id)

  unfoldable pub blacklist_claims : ℕ → Option ℕ → Option ℕ → Handler (Visit S) (Unit {0})
  blacklist_claims now (some exp) (some k) =
      if exp == 0
      then pure tt
      else tell (redis.set now (blacklist k) revoked (blacklist_seconds now exp))
  blacklist_claims now _ _ = pure tt

  -- A token that cannot be decoded needs no entry.
  unfoldable pub add_blacklist_token : AuthEnv → T → Handler (Visit S) (Unit {0})
  add_blacklist_token e token = elim (jwt.decode e.now token) [
    | none ↦ pure tt
    | some p ↦ blacklist_claims e.now p.exp p.jti
  ]

  -- `jti and await redis.get(f"blacklist:{jti}")`
  unfoldable pub is_blacklisted : ℕ → Option ℕ → Handler (Visit S) Bool
  is_blacklisted now none = pure false
  is_blacklisted now (some k) = ask (λ s. is_some (redis.get now (blacklist k) s))

  unfoldable pub is_token_blacklisted : AuthEnv → T → Handler (Visit S) Bool
  is_token_blacklisted e token = elim (jwt.decode_any e.now token) [
    | none ↦ pure false
    | some p ↦ is_blacklisted e.now p.jti
  ]

  unfoldable pub get_current_user : AuthEnv → T → Handler (Visit S) User
  get_current_user e token = do
    p ← or_raise (jwt.decode e.now token) unauthorized
    user_id ← or_raise (claimed_user p) unauthorized
    listed ← is_blacklisted e.now p.jti
    raise_if listed unauthorized
    revoked_at ← ask (redis.get e.now (user_revoked_at user_id))
    raise_if (is_before p.iat revoked_at) unauthorized
    found ← read_saved (find_user user_id)
    user ← or_raise found unauthorized
    raise_if (not user.is_active) unauthorized
    pure user

  unfoldable pub get_verified_user : AuthEnv → T → Handler (Visit S) User
  get_verified_user e token = do
    user ← get_current_user e token
    raise_if (not user.is_verified) forbidden
    pure user

  -- The part of `get_optional_current_user` behind the claims.
  unfoldable pub optional_user : AuthEnv → Payload → ℕ → Handler (Visit S) (Option User)
  optional_user e p user_id = do
    listed ← is_blacklisted e.now p.jti
    if listed then pure none else (do
      revoked_at ← ask (redis.get e.now (user_revoked_at user_id))
      if is_before p.iat revoked_at
          then pure none
          else (do found ← read_saved (find_user user_id); pure (usable found)))

  -- `user_id is None or token_type != "access"` is a guest, as an invalid token is.
  unfoldable pub optional_claims : AuthEnv → Payload → Option ℕ → Handler (Visit S) (Option User)
  optional_claims e p none = pure none
  optional_claims e p (some user_id) = optional_user e p user_id

  unfoldable pub optional_payload : AuthEnv → Option Payload → Handler (Visit S) (Option User)
  optional_payload e none = pure none
  optional_payload e (some p) = optional_claims e p (claimed_user p)

  unfoldable pub get_optional_current_user : AuthEnv → Option T → Handler (Visit S) (Option User)
  get_optional_current_user e none = pure none
  get_optional_current_user e (some token) = optional_payload e (jwt.decode e.now token)

  -- `RequireRole`, with the user that the token stands for.
  unfoldable pub require_role : List UserRole → AuthEnv → T → Handler (Visit S) User
  require_role allowed_roles e token = do
    user ← get_verified_user e token
    raise_if (not (any (is_same_role user.role) allowed_roles)) forbidden
    pure user

abbrev pub require_seller_roles : List UserRole
require_seller_roles = seller ∷ admin ∷ []

abbrev pub require_admin_roles : List UserRole
require_admin_roles = admin ∷ []
