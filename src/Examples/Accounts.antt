-- ===== src/Examples/Accounts.antt =====
-- Accounts of one venue with its two groups, and a signing and hashing that can be computed.
use Prim.Native.String.{String}
use text.Mathlib.Text.{◌==◌ as str_eq}
use pikol_backend.Common.{ℕ, ◌+◌, true, false, none, some, [], ◌∷◌}
use pikol_backend.Time.{day}
use pikol_backend.Catalog.{User}
use pikol_backend.Auth.Access.{VenueAccess}
use pikol_backend.Auth.Security.{Crypto, Settings}
use pikol_backend.Users.Domain.{staff, all_codes, user_manage}
use pikol_backend.Users.Models.{UserRow, UserGroup, GroupMember}
use pikol_backend.Users.Changes.{UserUpdate}
use pikol_backend.Database.{Accounts, Tables, Session}
use pikol_backend.Program.{open_session}
use pikol_backend.Examples.Data.{new_tables, noon, codes, own_venue}

abbrev account : ℕ → String → UserRow
account id email = record {
  id = id;
  email = email;
  password_hash = some "secret";
  first_name = "A";
  last_name = "B";
  mobile = none;
  system_admin = false;
  is_active = true;
  email_verified_at = some noon;
  last_login_at = none;
  deleted_at = none;
}

abbrev pub manager_row : UserRow
manager_row = account 8 "m@x"

abbrev pub desk_row : UserRow
desk_row = account 9 "d@x"

abbrev pub pending_row : UserRow
pending_row = record (account 10 "p@x") { email_verified_at = none; is_active = false }

abbrev pub manager : User
manager = record { id = 8; system_admin = false }

abbrev group : ℕ → UserGroup
group id = record {
  id = id;
  kind = staff;
  venue_id = some 1;
  name = "Desk";
  created_by_user_id = none;
  updated_by_user_id = none;
}

abbrev member : ℕ → ℕ → GroupMember
member g u = record { group_id = g; user_id = u; added_by_user_id = none; created_at = noon }

abbrev pub sample_accounts : Accounts
sample_accounts = record {
  users = manager_row ∷ desk_row ∷ pending_row ∷ [];
  next_user_id = 11;
  user_groups = group 1 ∷ group 2 ∷ group 3 ∷ [];
  next_user_group_id = 4;
  members = member 1 8 ∷ member 2 8 ∷ member 2 9 ∷ [];
  group_codes =
      record { group_id = 1; code = user_manage }
      ∷ record { group_id = 2; code = "BOOKING:ReadAny" }
      ∷ record { group_id = 2; code = "PRICE:Manage" }
      ∷ [];
  permissions = all_codes;
  refresh_tokens = record { user_id = 8; jti = 5; expires_at = noon + day; revoked_at = none } ∷ [];
  user_tokens = [];
}

abbrev pub sample_tables : Tables
sample_tables = record new_tables { accounts = sample_accounts }

abbrev pub sample_session : Session
sample_session = open_session codes sample_tables

abbrev pub manager_access : VenueAccess
manager_access = record {
  scope = own_venue;
  permissions = user_manage ∷ "BOOKING:ReadAny" ∷ [];
  is_master = false;
}

-- Every token is the refresh token of key 5, and every hash is the text itself.
abbrev pub open_crypto : Crypto
open_crypto = record {
  lower = λ s. s;
  hash_password = λ s. s;
  check_hash = λ h s. str_eq h s;
  dummy_hash = "";
  sha256 = λ s. s;
  jwt_encode = λ c. c.typ;
  jwt_decode = λ t now.
      some (record { sub = 8; typ = "refresh"; jti = some 5; iat = noon; exp = noon + day });
}

abbrev pub short_settings : Settings
short_settings = record { access_token_minutes = 15; refresh_token_days = 7 }

abbrev pub make_inactive : UserUpdate
make_inactive = record {
  first_name = none;
  last_name = none;
  mobile = none;
  is_active = some (some false);
}
