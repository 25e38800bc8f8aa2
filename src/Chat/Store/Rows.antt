-- ===== src/Chat/Store/Rows.antt =====
-- The rows of the tables of backend/src/db/database.cpp, with the fields of backend/src/models that the
-- modelled code reads, and the tables together.
use enclave_station.Base.{ℕ, Bool, List, Text}

pub record User : Type 0 where
  pub id : Text
  pub username : Text
  pub role : Text

pub record Channel : Type 0 where
  pub id : Text
  pub name : Text
  pub description : Text
  pub is_direct : Bool
  pub is_public : Bool
  pub default_role : Text
  pub created_by : Text
  pub created_at : Text
  pub space_id : Text
  pub is_archived : Bool
  pub default_join : Bool

pub record Space : Type 0 where
  pub id : Text
  pub is_archived : Bool
  pub is_personal : Bool

-- A row of `channel_members`, or of `space_members`.
pub record Member : Type 0 where
  pub group : Text
  pub user_id : Text
  pub role : Text

pub record Message : Type 0 where
  pub id : Text
  pub channel_id : Text
  pub user_id : Text
  pub content : Text
  pub created_at : Text
  pub edited_at : Text
  pub is_deleted : Bool
  pub file_id : Text
  pub reply_to_message_id : Text

pub record Notification : Type 0 where
  pub id : Text
  pub user_id : Text
  pub kind : Text
  pub source_user_id : Text
  pub channel_id : Text
  pub message_id : Text
  pub content : Text

-- A row of `mentions`.
pub record Mention : Type 0 where
  pub message_id : Text
  pub channel_id : Text
  pub mentioned_user_id : Text
  pub is_channel_mention : Bool

pub record Reaction : Type 0 where
  pub message_id : Text
  pub user_id : Text
  pub emoji : Text

pub record Db : Type 0 where
  pub settings : List (Text × Text)
  pub users : List User
  pub channels : List Channel
  pub channel_members : List Member
  pub spaces : List Space
  pub space_members : List Member
  pub messages : List Message
  pub notifications : List Notification
  pub mentions : List Mention
  pub reactions : List Reaction
  pub serial : ℕ

-- What the database generates for its n-th insertion: an id, and the time; and the id that it reads from
-- a text that is a uuid (`cast`), and whether it takes a text for a value, which must be UTF-8 with no
-- zero byte (`is_text`).
pub record Generator : Type 0 where
  pub uuid : ℕ → Text
  pub now : ℕ → Text
  pub cast : Text → Text
  pub is_text : Text → Bool
