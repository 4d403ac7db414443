-- ===== src/Media/Examples.antt =====
-- The theorems on internal/service/media.go at a session with one medium.
use onwapp.Base.{
  all, keep, Str, lit, str_eq, lookup, ◌≡◌, refl, Bool, true, false, not, none, some, [], ◌∷◌,
  arith,
}
use onwapp.Store.Messages.{Message, sent}
use onwapp.Media.{
  Media, Rows, can_download, is_pending, get_pending_downloads, get_by_msg_id,
  mark_as_retry_requested, update_row,
}
use onwapp.Media.Download.{
  fetched, uploaded, Services, MediaService, finished, timed_out, write, send_media_retry_request,
  history_loop, process_history_sync_media, handle_media_retry_response,
}
use onwapp.Media.Download.Progress.{attempts_left, total_left}
use onwapp.Media.Download.Progress.Loop.{is_ready, process_history_sync_media-ends}
use onwapp.Media.Download.Progress.Stuck.{history_loop_stuck}
use onwapp.Media.Download.Retries.{retry_roundtrip}

abbrev sid : Str
sid = b's' ∷ []

abbrev mid : Str
mid = b'm' ∷ []

abbrev medium : Media
medium = record {
  id = b'1' ∷ [];
  session_id = sid;
  msg_id = mid;
  media_type = [];
  mime_type = [];
  wa_direct_path = b'/' ∷ [];
  wa_media_key = b'k' ∷ [];
  wa_file_sha256 = [];
  wa_file_enc_sha256 = [];
  file_size = 3;
  storage_key = [];
  storage_url = [];
  stored_at = none;
  downloaded = false;
  download_error = [];
  download_attempts = 1;
  updated_at = 10;
}

abbrev note : Message
note = record {
  session_id = sid;
  msg_id = mid;
  chat_jid = b'c' ∷ [];
  sender_jid = b'c' ∷ [];
  timestamp = 10;
  push_name = [];
  sender_alt = [];
  server_id = none;
  verified_name = none;
  type_ = [];
  media_type = [];
  category = [];
  content = [];
  from_me = false;
  is_group = false;
  ephemeral = false;
  view_once = false;
  is_edit = false;
  edit_target_id = [];
  quoted_id = [];
  quoted_sender = [];
  cw_msg_id = none;
  cw_conv_id = none;
  cw_source_id = none;
  status = sent;
  delivered_at = none;
  read_at = none;
  reactions = [];
  raw_event = [];
  msg_order_id = none;
  stub_type = none;
  stub_params = [];
  message_secret = none;
  broadcast = false;
  created_at = 10;
}

abbrev services : Services
services = record {
  now = 50;
  has_client = true;
  is_connected = true;
  has_storage = true;
  writes_ok = true;
  to_lower = λ s. s;
  parses_jid = λ s. true;
  get_message = λ s m. some note;
  download = λ m. fetched (b'f' ∷ []);
  upload = λ s m b f t. uploaded (b'u' ∷ []) (b'v' ∷ []);
  sends_retry = λ m. true;
  decrypt = λ k. some (true, b'p' ∷ []);
}

abbrev service : Rows → MediaService
service rows = record {
  rows = rows;
  pending_retries = [];
  downloading = [];
  history_sync_running = false;
}

medium_ready : all (is_ready services sid) (medium ∷ []) ≡ true
unfolding is_ready is_pending can_download str_eq
medium_ready = refl

two_left : total_left (medium ∷ []) ≡ 2
unfolding total_left attempts_left
two_left = refl

process_history_sync_media-ends_example :
    let (st1, end) = process_history_sync_media 11 services sid (service (medium ∷ [])) in
    (end ≡ some finished)
    × (get_pending_downloads sid 5 st1.rows ≡ [])
    × (st1.history_sync_running ≡ false)
process_history_sync_media-ends_example =
    process_history_sync_media-ends services sid 11 (service (medium ∷ [])) (refl, refl, refl, refl)
      (refl, medium_ready) refl (omega (arith, two_left))

abbrev keyless : Media
keyless = record medium { wa_media_key = [] }

keyless_pending : keep (is_pending sid) (keyless ∷ []) ≡ keyless ∷ []
unfolding is_pending str_eq
keyless_pending = refl

keyless_useless : all (λ m. not (can_download m)) (keyless ∷ []) ≡ true
unfolding can_download
keyless_useless = refl

history_loop_stuck_example :
    (history_loop 190 3 services sid (service (keyless ∷ []))).1 ≡ timed_out
history_loop_stuck_example =
    history_loop_stuck services sid 190 2 (service (keyless ∷ [])) refl refl refl refl
      keyless_pending keyless_useless

abbrev requested : MediaService × Bool
requested = send_media_retry_request services sid medium (service (medium ∷ []))

requested_sent : requested.1 ≡ true
unfolding send_media_retry_request
requested_sent = refl

requested_row :
    get_by_msg_id sid mid requested.0.rows
    ≡ some (record medium { download_error = lit "retry_requested"; updated_at = 50 })
unfolding send_media_retry_request write mark_as_retry_requested update_row get_by_msg_id str_eq
requested_row = refl

retry_roundtrip_example :
    let (st2, answer) = handle_media_retry_response services sid mid requested.0 in
    (answer
      ≡ some (
          some
            (record medium { wa_direct_path = b'p' ∷ []; download_error = []; updated_at = 50 })))
    × (lookup mid st2.pending_retries ≡ none)
retry_roundtrip_example =
    retry_roundtrip services sid (b'p' ∷ []) medium (service (medium ∷ [])) requested_sent refl refl
      refl requested_row
