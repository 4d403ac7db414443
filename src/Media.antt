-- ===== src/Media.antt =====
-- The media of messages: the rows of internal/db/repository/media.go, and the service of
-- internal/service/media.go that downloads and stores them.
pub mod Download
mod Examples
use onwapp.Base.{
  ltb, if◌then◌else◌, take, keep, Str, is_empty, lit, str_eq, ℕ, ◌+◌, Bool, not, ◌&&◌, Option, none,
  some, List, [], ◌∷◌, map,
}

-- `Media`, the fields that the downloads and retries read or write; a file size is not negative.
pub record Media : Type 0 where
  pub id : Str
  pub session_id : Str
  pub msg_id : Str
  pub media_type : Str
  pub mime_type : Str
  pub wa_direct_path : Str
  pub wa_media_key : Str
  pub wa_file_sha256 : Str
  pub wa_file_enc_sha256 : Str
  pub file_size : ℕ
  pub storage_key : Str
  pub storage_url : Str
  pub stored_at : Option ℕ
  pub downloaded : Bool
  pub download_error : Str
  pub download_attempts : ℕ
  pub updated_at : ℕ

-- The rows in the order of "createdAt".
abbrev pub Rows : Type 0
Rows = List Media

-- `CanDownload`
unfoldable pub can_download : Media → Bool
can_download m = not (is_empty m.wa_direct_path) && not (is_empty m.wa_media_key)

-- `WHERE "id" = $1`
unfoldable pub update_row : Str → (Media → Media) → Rows → Rows
unfolding str_eq
update_row id f rows = map (λ m. if str_eq m.id id then f m else m) rows

-- The columns of `UpdateDownloadStatus`.
unfoldable pub with_status : ℕ → Bool → Str → Str → Str → Media → Media
with_status now done key url error m = record m {
  downloaded = done;
  storage_key = key;
  storage_url = url;
  stored_at = if done then some now else none;
  download_error = error;
  download_attempts = m.download_attempts + 1;
  updated_at = now;
}

-- `UpdateDownloadStatus`
unfoldable pub update_download_status : ℕ → Str → Bool → Str → Str → Str → Rows → Rows
unfolding update_row with_status
update_download_status now id done key url error rows =
    update_row id (with_status now done key url error) rows

-- The columns of `IncrementDownloadAttempts`.
unfoldable pub with_attempt : ℕ → Str → Media → Media
with_attempt now error m = record m {
  download_attempts = m.download_attempts + 1;
  download_error = error;
  updated_at = now;
}

-- `IncrementDownloadAttempts`
unfoldable pub increment_download_attempts : ℕ → Str → Str → Rows → Rows
unfolding update_row with_attempt
increment_download_attempts now id error rows = update_row id (with_attempt now error) rows

-- `UpdateDirectPath`
unfoldable pub update_direct_path : ℕ → Str → Str → Str → Rows → Rows
unfolding str_eq
update_direct_path now s m path rows =
    map
      (λ row.
        if str_eq row.session_id s && str_eq row.msg_id m
        then record row { wa_direct_path = path; download_error = []; updated_at = now }
        else row)
      rows

-- `MarkAsRetryRequested`
unfoldable pub mark_as_retry_requested : ℕ → Str → Rows → Rows
unfolding update_row lit
mark_as_retry_requested now id rows =
    update_row id (λ m. record m { download_error = lit "retry_requested"; updated_at = now }) rows

-- `GetByMsgID`
unfoldable pub get_by_msg_id : Str → Str → Rows → Option Media
unfolding str_eq
get_by_msg_id s m [] = none
get_by_msg_id s m (row ∷ rows) =
    let rest = get_by_msg_id s m rows in
    if str_eq row.session_id s && str_eq row.msg_id m then some row else rest

-- The `WHERE` of `GetPendingDownloads`.
unfoldable pub is_pending : Str → Media → Bool
unfolding str_eq
is_pending s m =
    str_eq m.session_id s
    && not m.downloaded
    && not (is_empty m.wa_direct_path)
    && ltb m.download_attempts 3

-- `GetPendingDownloads`
unfoldable pub get_pending_downloads : Str → ℕ → Rows → Rows
unfolding is_pending
get_pending_downloads s limit rows = take limit (keep (is_pending s) rows)
