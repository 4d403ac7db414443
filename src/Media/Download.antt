-- ===== src/Media/Download.antt =====
-- internal/service/media.go: downloads, their retries and the loop after a history synchronisation.
pub mod Keeps
pub mod Progress
pub mod Retries
use onwapp.Base.{
  leb, ◌==◌, if◌then◌else◌, Str, is_empty, lit, str_eq, contains, Dict, lookup, insert, delete,
  retain, ℕ, zero, suc, ◌+◌, Bool, true, false, not, ◌&&◌, ◌||◌, Option, none, some, List, [], ◌∷◌,
}
use onwapp.Store.Messages.{Message}
use onwapp.Media.{
  Media, Rows, can_download, update_download_status, increment_download_attempts,
  update_direct_path, mark_as_retry_requested, get_by_msg_id, get_pending_downloads,
}

-- What `DownloadMediaWithPath` answers: the file, or the text of an error and whether it is one of
-- the library's errors for a status 403, 404 or 410.
pub data Fetched : Type 0 where
  fetched : Str → Fetched
  refused : Str → Bool → Fetched

-- What `Upload` answers: a key and a URL, or the text of an error.
pub data Uploaded : Type 0 where
  uploaded : Str → Str → Uploaded
  upload_error : Str → Uploaded

-- The errors of `DownloadAndStore`.
pub data DownloadError : Type 0 where
  nil_client missing_key not_connected status_failed : DownloadError
  media_expired download_failed upload_failed : Str → DownloadError

-- The client, the storage, the database and the clock, as long as a download takes.
pub record Services : Type 0 where
  pub now : ℕ
  pub has_client : Bool
  pub is_connected : Bool
  pub has_storage : Bool
  pub writes_ok : Bool
  pub to_lower : Str → Str
  pub parses_jid : Str → Bool
  pub get_message : Str → Str → Option Message
  pub download : Media → Fetched
  pub upload : Str → Media → Bool → Str → Str → Uploaded
  pub sends_retry : Media → Bool
  -- DecryptMediaRetryNotification: whether it succeeded, and the new path
  pub decrypt : Str → Option (Bool × Str)

-- A statement that may fail.
unfoldable pub write : Services → (Rows → Rows) → Rows → Rows
write sv f rows = if sv.writes_ok then f rows else rows

-- `IsMediaExpiredError`
unfoldable pub is_media_expired_error : Services → Str → Bool → Bool
unfolding contains lit
is_media_expired_error sv text known =
    let low = sv.to_lower text in
    known
    || contains low (lit "403")
    || contains low (lit "404")
    || contains low (lit "410")
    || contains low (lit "not found")
    || contains low (lit "forbidden")

-- `getDefaultContentType`
unfoldable pub get_default_content_type : Str → Str
unfolding str_eq lit
get_default_content_type t =
    if str_eq t (lit "image")
    then lit "image/jpeg"
    else if str_eq t (lit "video")
    then lit "video/mp4"
    else if str_eq t (lit "audio")
    then lit "audio/ogg"
    else if str_eq t (lit "sticker")
    then lit "image/webp"
    else lit "application/octet-stream"

-- The content type of a medium.
unfoldable pub content_type : Media → Str
unfolding get_default_content_type
content_type m = if is_empty m.mime_type then get_default_content_type m.media_type else m.mime_type

-- `fromMe`
unfoldable pub from_me : Services → Media → Bool
from_me sv m = elim (sv.get_message m.session_id m.msg_id) [ none ↦ false | some msg ↦ msg.from_me ]

-- The end of `DownloadAndStore`, with the answer of the upload.
unfoldable pub note_upload : Services → Media → Uploaded → Rows → Rows × Option DownloadError
unfolding write increment_download_attempts update_download_status
note_upload sv m (upload_error text) rows =
    (write sv (increment_download_attempts sv.now m.id text) rows, some (upload_failed text))
note_upload sv m (uploaded key url) rows =
    if sv.writes_ok
    then (update_download_status sv.now m.id true key url [] rows, none)
    else (rows, some status_failed)

-- `DownloadAndStore` behind its guards, with the answer of the download.
unfoldable pub note_download : Services → Str → Media → Fetched → Rows → Rows × Option DownloadError
unfolding note_upload content_type from_me write increment_download_attempts is_media_expired_error
note_download sv s m (fetched file) rows =
    note_upload sv m (sv.upload s m (from_me sv m) file (content_type m)) rows
note_download sv s m (refused text known) rows = (
  write sv (increment_download_attempts sv.now m.id text) rows,
  some (if is_media_expired_error sv text known then media_expired text else download_failed text),
)

-- `DownloadAndStore`
unfoldable pub download_and_store : Services → Str → Media → Rows → Rows × Option DownloadError
unfolding can_download note_download
download_and_store sv s m rows =
    if not sv.has_client
    then (rows, some nil_client)
    else if not (can_download m)
    then (rows, some missing_key)
    else if not sv.is_connected
    then (rows, some not_connected)
    else note_download sv s m (sv.download m) rows

-- `MediaRetryInfo`
pub record MediaRetryInfo : Type 0 where
  pub session_id : Str
  pub msg_id : Str
  pub chat_jid : Str
  pub sender_jid : Str
  pub media_key : Str
  pub is_from_me : Bool
  pub is_group : Bool
  pub created_at : ℕ

-- `MediaService`, with the rows of the database.
pub record MediaService : Type 0 where
  pub rows : Rows
  pub pending_retries : Dict MediaRetryInfo
  pub downloading : Dict Bool
  pub history_sync_running : Bool

-- `tryStartDownload`: the new state, unless the download runs.
unfoldable pub try_start_download : Str → MediaService → Option MediaService
unfolding lookup insert
try_start_download id st = elim (lookup id st.downloading) [
  | some true ↦ none
  | _ ↦ some (record st { downloading = insert id true st.downloading })
]

-- `finishDownload`
unfoldable pub finish_download : Str → MediaService → MediaService
unfolding delete
finish_download id st = record st { downloading = delete id st.downloading }

-- What `SendMediaRetryRequest` notes.
unfoldable pub retry_info : Services → Str → Media → Message → MediaRetryInfo
retry_info sv s m msg = record {
  session_id = s;
  msg_id = m.msg_id;
  chat_jid = msg.chat_jid;
  sender_jid = msg.sender_jid;
  media_key = m.wa_media_key;
  is_from_me = msg.from_me;
  is_group = msg.is_group;
  created_at = sv.now;
}

-- `SendMediaRetryRequest`: true for no error.
unfoldable pub send_media_retry_request :
    Services → Str → Media → MediaService → MediaService × Bool
unfolding retry_info insert delete write mark_as_retry_requested
send_media_retry_request sv s m st =
    if not sv.has_client then (st, false) else elim (sv.get_message m.session_id m.msg_id) [
      | none ↦ (st, false)
      | some msg ↦
          if not (sv.parses_jid msg.chat_jid)
          then (st, false)
          else let noted = insert m.msg_id (retry_info sv s m msg) st.pending_retries in
            if sv.sends_retry m
            then (
              record st {
                pending_retries = noted;
                rows = write sv (mark_as_retry_requested sv.now m.id) st.rows;
              },
              true,
            )
            else (record st { pending_retries = delete m.msg_id noted }, false)
    ]

-- How one medium of a batch ends.
pub data Tally : Type 0 where
  succeeded failed skipped : Tally

-- The rest of the body of the loop of `ProcessPendingDownloads`, with the error of the download.
unfoldable pub end_download :
    Services → Str → Media → MediaService → Option DownloadError → MediaService × Tally
unfolding send_media_retry_request
end_download sv s m st none = (st, succeeded)
end_download sv s m st (some (media_expired text)) =
    ((send_media_retry_request sv s m st).0, failed)
end_download sv s m st (some _) = (st, failed)

-- That body, behind `tryStartDownload`.
unfoldable pub process_started : Services → Str → Media → MediaService → MediaService × Tally
unfolding download_and_store finish_download end_download
process_started sv s m st =
    let (rows, error) = download_and_store sv s m st.rows in
    end_download sv s m (finish_download m.id (record st { rows = rows })) error

unfoldable pub process_one : Services → Str → Media → MediaService → MediaService × Tally
unfolding try_start_download process_started
process_one sv s m st = elim (try_start_download m.id st) [
  | none ↦ (st, skipped)
  | some started ↦ process_started sv s m started
]

-- The counts of the successes and the failures.
unfoldable pub count : Tally → ℕ × ℕ → ℕ × ℕ
count succeeded (a, b) = (a + 1, b)
count failed (a, b) = (a, b + 1)
count skipped (a, b) = (a, b)

-- The loop of `ProcessPendingDownloads`.
unfoldable pub process_batch :
    Services → Str → List Media → MediaService → ℕ × ℕ → MediaService × ℕ × ℕ
unfolding process_one count
process_batch sv s [] st n = (st, n.0, n.1)
process_batch sv s (m ∷ ms) st n =
    let (st1, t) = process_one sv s m st in process_batch sv s ms st1 (count t n)

-- `ProcessPendingDownloads`
unfoldable pub process_pending_downloads : Services → Str → ℕ → MediaService → MediaService × ℕ × ℕ
unfolding get_pending_downloads process_batch
process_pending_downloads sv s batch_size st =
    if not sv.has_storage
    then (st, 0, 0)
    else process_batch sv s (get_pending_downloads s batch_size st.rows) st (0, 0)

-- How the loop of `ProcessHistorySyncMedia` ends.
pub data LoopEnd : Type 0 where
  finished timed_out client_gone : LoopEnd

-- The loop: the first number is how many batches the timeout leaves time for, the second how many
-- more empty batches end it.
unfoldable pub history_loop : ℕ → ℕ → Services → Str → MediaService → MediaService × LoopEnd
unfolding process_pending_downloads
history_loop time zero sv s st = (st, finished)
history_loop zero (suc e) sv s st = (st, timed_out)
history_loop (suc time) (suc e) sv s st =
    let (st1, ok, bad) = process_pending_downloads sv s 5 st in
    let again = history_loop time 3 sv s st1 in
    let emptier = history_loop time e sv s st1 in
    if not sv.is_connected
    then (st, client_gone)
    else if ok == 0 && bad == 0
    then emptier
    else again

-- `ProcessHistorySyncMedia`, with its goroutine to the end; none if it does not start.
unfoldable pub process_history_sync_media :
    ℕ → Services → Str → MediaService → MediaService × Option LoopEnd
unfolding history_loop
process_history_sync_media time sv s st =
    if not sv.has_storage || st.history_sync_running
    then (st, none)
    else let (st1, end) = history_loop time 3 sv s (record st { history_sync_running = true }) in
      (record st1 { history_sync_running = false }, some end)

-- `HandleMediaRetryResponse`: the new state, and the medium whose download it starts; `none` inside
-- is an error.
unfoldable pub handle_media_retry_response :
    Services → Str → Str → MediaService → MediaService × Option (Option Media)
unfolding lookup delete update_direct_path get_by_msg_id
handle_media_retry_response sv s m st = elim (lookup m st.pending_retries) [
  | none ↦ (st, some none)
  | some info ↦ elim (sv.decrypt info.media_key) [
    | none ↦ (st, none)
    | some (false, path) ↦ (record st { pending_retries = delete m st.pending_retries }, none)
    | some (true, path) ↦
        if is_empty path || not sv.writes_ok
        then (st, none)
        else let rows = update_direct_path sv.now s m path st.rows in
          (
            record st { rows = rows; pending_retries = delete m st.pending_retries },
            elim (get_by_msg_id s m rows) [ none ↦ none | some media ↦ some (some media) ],
          )
  ]
]

-- `CleanupOldPendingRetries`: the age is in seconds.
unfoldable pub cleanup_old_pending_retries : ℕ → MediaService → MediaService
unfolding retain
cleanup_old_pending_retries now st = record st {
  pending_retries = retain (λ m info. leb now (info.created_at + 300)) st.pending_retries;
}
