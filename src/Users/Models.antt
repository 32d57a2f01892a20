-- ===== src/Users/Models.antt =====
-- users/persistence/models.py: accounts, groups and who is in them. A row of `group_codes` is a row
-- of `user_group_permissions`, with the code of its permission for the permission's key.
use Prim.Native.String.{String}
use pikol_backend.Common.{ℕ, Bool, Option}
use pikol_backend.Time.{Instant}
use pikol_backend.Users.Domain.{GroupKind}

pub record UserRow : Type 0 where
  pub id : ℕ
  pub email : String
  pub password_hash : Option String
  pub first_name : String
  pub last_name : String
  pub mobile : Option String
  pub system_admin : Bool
  pub is_active : Bool
  pub email_verified_at : Option Instant
  pub last_login_at : Option Instant
  pub deleted_at : Option Instant

pub record UserGroup : Type 0 where
  pub id : ℕ
  pub kind : GroupKind
  pub venue_id : Option ℕ
  pub name : String
  pub created_by_user_id : Option ℕ
  pub updated_by_user_id : Option ℕ

pub record GroupMember : Type 0 where
  pub group_id : ℕ
  pub user_id : ℕ
  pub added_by_user_id : Option ℕ
  pub created_at : Instant

pub record GroupCode : Type 0 where
  pub group_id : ℕ
  pub code : String
