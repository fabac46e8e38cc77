-- ===== src/Examples.antt =====
-- Concrete environments and databases on which the operations are run.
use graphql_prisma_postgres.Identity.Resolve.Routing.{FindsFirst}
use graphql_prisma_postgres.Prelude.{
  ℕ, inl, inr, arith, Option-cases, ◌+◌, true, false, Option, none, some, [], ◌∷◌, text, codes,
  Bool, ◌==◌, if◌then◌else◌,
}
use graphql_prisma_postgres.Data.{
  User, UserStatus, owner, member, UserType, Workspace, WorkspaceStatus, Reservation,
  ReservationStatus, release_pending, MfaMethod,
}
use graphql_prisma_postgres.Effects.{
  World, Env, done, AuthLibrary, Payload, Secret, access_secret, refresh_secret, storage_secret,
  access,
}
use graphql_prisma_postgres.Access.Grants.{AccessActor}
use graphql_prisma_postgres.Access.Guards.{Context}

-- Libraries that keep everything in the clear: a token is known to the library by its number.
-- The token of a challenge of user 11 is 1, that of a session is 2, and its refresh token is 3.
abbrev pub body : Payload
body = record {
  id = none;
  email = none;
  user_type = none;
  workspace_id = none;
  is_2fa_pending = false;
  token_type = none;
  jti = none;
  sub = none;
}

abbrev pub session_body : Bool → Payload
session_body pending = record body {
  id = some 11;
  workspace_id = some 7;
  is_2fa_pending = pending;
  token_type = some access;
}

abbrev pub sealed_token : Payload → ℕ
sealed_token p = elim p.sub [ some _ ↦ 3 | none ↦ if p.is_2fa_pending then 1 else 2 ]

abbrev pub sealed_payload : Secret → ℕ → Option Payload
sealed_payload access_secret token =
    if token == 1
    then some (session_body true)
    else if token == 2
    then some (session_body false)
    else none
sealed_payload refresh_secret token =
    if token == 3 then some (record body { jti = some 5; sub = some 11 }) else none
sealed_payload storage_secret token = none

abbrev pub sealed : AuthLibrary
sealed = record {
  sign = λ secret date p. sealed_token p;
  verify = λ secret date token. sealed_payload secret token;
  sha256 = λ text. text;
  compare = λ password hash. password == hash;
  verify_totp = λ date code secret. code == secret;
  create_enrollment = λ n email. record { secret = 33; qr_code = 1; backup_codes = 44 ∷ 45 ∷ [] };
  google_verify = λ token. none;
  random_otp = λ n. 123456;
  random_hex = λ n length. codes "ab";
  sends = λ n. true;
}

-- One shard, 1, on which every call is done and answered.
abbrev pub calm : Env
calm = record {
  fate = λ _. done;
  delay = λ _. 1;
  reachable = λ _ _. true;
  route = λ _. 1;
  find_first = λ f. elim (f 1) [ none ↦ none | some u ↦ some (1, u) ];
  redis = λ _. true;
  uuid = λ n. n + 1000;
  bcrypt = λ n. n;
  auth = sealed;
  to_lower = λ s. s;
}

pub calm-FindsFirst : FindsFirst calm
calm-FindsFirst f shard u e = elim (Option-cases (f 1)) [
  | inl missing ↦ absurd (ground (arith, missing))
  | inr (v, found) ↦ ground (arith, found)
]

abbrev pub person : ℕ → ℕ → UserType → User
person id email t = record {
  id = id;
  shard = 1;
  email = email;
  username = id;
  password = 1;
  user_type = t;
  status = UserStatus.active;
  avatar = none;
  email_verified = true;
  workspace_id = 7;
  google_id = none;
  mfa_settings = none;
  otp = none;
  password_reset = none;
  roles = [];
  custom_permissions = [];
}

abbrev pub reserved : ℕ → ReservationStatus → Reservation
reserved id s = record {
  user_id = id;
  workspace_id = some 7;
  shard_id = some 1;
  status = s;
  expires_at = none;
}

abbrev pub boss : User
boss = person 10 100 owner

abbrev pub helper : User
helper = person 11 101 member

abbrev pub firm : Workspace
firm = record {
  id = 7;
  shard = 1;
  name = 70;
  slug = 71;
  status = WorkspaceStatus.active;
  shard_id = some 1;
  owner_id = some 10;
}

-- A workspace with its owner and one member.
abbrev pub office : World
office = record {
  reservations =
      (100, reserved 10 ReservationStatus.active)
      ∷ (101, reserved 11 ReservationStatus.active)
      ∷ [];
  users = boss ∷ helper ∷ [];
  workspaces = firm ∷ [];
  roles = [];
  cache = [];
  sessions = [];
  clock = 0;
  calls = 0;
}

-- The member is being deleted: its row is gone, the reservation is still there.
abbrev pub leaving : World
leaving = record {
  reservations =
      (100, reserved 10 ReservationStatus.active) ∷ (101, reserved 11 release_pending) ∷ [];
  users = boss ∷ [];
  workspaces = firm ∷ [];
  roles = [];
  cache = [];
  sessions = [];
  clock = 0;
  calls = 0;
}

abbrev pub boss_actor : AccessActor
boss_actor = record { id = 10; user_type = some owner; permissions = [] }

-- A caller with one permission.
abbrev pub caller : Option UserStatus → Context
caller status = record {
  user = some 11;
  is_authenticated = true;
  is_2fa_pending = false;
  client = some 1;
  user_type = some member;
  workspace_id = 7;
  workspace_status = some WorkspaceStatus.active;
  permissions = text "users.read" ∷ [];
  user_status = status;
}

-- The office, where the member has a second factor by an application, a code by mail on the way, a
-- reset of the password asked for, and one session.
abbrev pub careful : User
careful = record (person 11 101 member) {
  mfa_settings = some (record {
    is_enabled = true;
    method = some MfaMethod.authenticator;
    secret = some 33;
    backup_codes = [];
  });
  otp = some (record { code_hash = 9; expires_at = 1000; attempts = 4 });
  password_reset = some (record { token_hash = 55; expires_at = 1000 });
}

abbrev pub careful_office : World
careful_office = record office { users = boss ∷ careful ∷ []; sessions = (11, 5 ∷ []) ∷ [] }
