-- ===== src/Store/Examples.antt =====
-- The theorems on internal/db/repository/message.go and chat.go at one message and one chat.
use onwapp.Base.{
  length, Str, is_empty, str_eq, ◌<◌, ◌≡◌, refl, ◌≢◌, ◌↔◌, true, false, none, some, [], ◌∷◌, map,
}
use onwapp.Store.Chats.{Chat, is_chat, get_by_jid, mark_as_read, is_group}
use onwapp.Store.Chats.Counters.{
  counts, receive_all, latest, IsNotAfter, AreNotAfter, counts-mark_as_read, is_group_iff,
}
use onwapp.Store.Messages.{Message, sent, read, Reaction}
use onwapp.Store.Messages.View.{view, updates_status, deletes, execute_all, denote_all}
use onwapp.Store.Messages.Refinement.{execute_all-denote_all}
use onwapp.Store.Messages.Reactions.{
  add, remove, last_by, reactions_by, reacts, reactions_at, reactions_by-execute_all,
}

abbrev sid : Str
sid = b's' ∷ []

abbrev mid : Str
mid = b'm' ∷ []

abbrev ann : Str
ann = b'a' ∷ []

abbrev row : Message
row = record {
  session_id = sid;
  msg_id = mid;
  chat_jid = ann;
  sender_jid = ann;
  timestamp = 10;
  push_name = [];
  sender_alt = [];
  server_id = none;
  verified_name = none;
  type_ = [];
  media_type = [];
  category = [];
  content = [];
  from_me = true;
  is_group = false;
  ephemeral = false;
  view_once = false;
  is_edit = false;
  edit_target_id = [];
  quoted_id = [];
  quoted_sender = [];
  cw_msg_id = none;
  cw_conv_id = none;
  cw_source_id = none;
  status = sent;
  delivered_at = none;
  read_at = none;
  reactions = [];
  raw_event = [];
  msg_order_id = none;
  stub_type = none;
  stub_params = [];
  message_secret = none;
  broadcast = false;
  created_at = 10;
}

execute_all-denote_all_example :
    view (execute_all (updates_status 20 sid mid read ∷ deletes sid mid ∷ []) (row ∷ []))
    ≡ denote_all (updates_status 20 sid mid read ∷ deletes sid mid ∷ []) (view (row ∷ []))
execute_all-denote_all_example =
    execute_all-denote_all (updates_status 20 sid mid read ∷ deletes sid mid ∷ []) (row ∷ [])

abbrev heart : Reaction
heart = record { emoji = b'h' ∷ []; sender_jid = ann; timestamp = 30 }

row_found : view (row ∷ []) sid mid ≡ some row
unfolding view
row_found = refl

reactions_by-execute_all_example :
    reactions_by ann (
      reactions_at sid mid
        (execute_all (map (reacts sid mid) (add heart ∷ remove ann ∷ [])) (row ∷ [])))
    ≡ last_by ann (add heart ∷ remove ann ∷ []) (reactions_by ann [])
reactions_by-execute_all_example =
    reactions_by-execute_all sid mid ann (add heart ∷ remove ann ∷ []) (row ∷ []) row_found

abbrev talk : Chat
talk = record {
  session_id = sid;
  chat_jid = ann;
  name = [];
  unread_count = 7;
  unread_mention_count = 1;
  marked_as_unread = true;
  ephemeral_expiration = 0;
  ephemeral_setting_timestamp = 0;
  read_only = false;
  suspended = false;
  locked = false;
  limit_sharing = false;
  comments_count = 0;
  conversation_timestamp = some 60;
  p_hash = [];
  not_spam = none;
  synced_at = 10;
  updated_at = 10;
}

talk_found : get_by_jid sid ann (talk ∷ []) ≡ some talk
unfolding get_by_jid is_chat str_eq
talk_found = refl

counts-mark_as_read_example :
    (counts (
        get_by_jid sid ann
          (receive_all sid ann ((71, 70) ∷ (72, 50) ∷ []) (mark_as_read 65 sid ann (talk ∷ []))))
      ≡ some (2, latest ((71, 70) ∷ (72, 50) ∷ []) (some 60)))
    × IsNotAfter (some 60) (latest ((71, 70) ∷ (72, 50) ∷ []) (some 60))
    × AreNotAfter ((71, 70) ∷ (72, 50) ∷ []) (latest ((71, 70) ∷ (72, 50) ∷ []) (some 60))
counts-mark_as_read_example =
    counts-mark_as_read 65 sid ann ((71, 70) ∷ (72, 50) ∷ []) (talk ∷ []) talk_found

is_group_iff_example :
    (is_group talk ≢ some true)
    × ((is_group talk ≡ none) ↔ ((is_empty ann ≡ false) × (length ann < 12)))
is_group_iff_example = is_group_iff talk
