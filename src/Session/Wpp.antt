-- ===== src/Session/Wpp.antt =====
-- What internal/service/session.go uses of go.mau.fi/whatsmeow, its device container and the
-- session table (internal/db/repository/session.go): operations on an outside world, with clients
-- and devices as handles. A Boolean result is true where the source's error is nil.
use onwapp.Base.{Str, Bool, Option, List}

-- A row of the session table.
pub record SessionRecord : Type 0 where
  pub id : Str
  pub session : Str
  pub device_jid : Str
  pub phone : Str
  pub api_key : Str

pub record Wpp : Type 1 where
  pub World : Type 0
  pub Client : Type 0
  pub Device : Type 0
  pub Jid : Type 0
  -- types.ParseJID, JID.String and JID.User
  pub parse_jid : Str → Option Jid
  pub jid_string : Jid → Str
  pub jid_user : Jid → Str
  -- sqlstore.Container; a device pointer may be nil
  pub new_device : World → World × Device
  pub get_device : World → Jid → Option (Option Device)
  pub delete_device : World → Option Device → World × Bool
  pub device_id : World → Device → Option Jid
  -- whatsmeow.Client
  pub new_client : World → Option Device → World × Client
  pub store : World → Client → Option Device
  pub set_store : World → Client → Device → World
  pub is_connected : World → Client → Bool
  pub connect : World → Client → World × Bool
  pub disconnect : World → Client → World
  pub logout : World → Client → World × Bool
  pub add_event_handler : World → Client → World
  pub qr_channel : World → Client → World × Bool
  -- the session table
  pub get_all : World → Option (List SessionRecord)
  pub create_row : World → Str → Str → World × Option SessionRecord
  pub delete_row : World → Str → World × Bool
  pub update_status : World → Str → Str → World × Bool
  pub update_jid : World → Str → Str → Str → World × Bool
