-- ===== src/Media/Download/Retries.antt =====
-- The retries of media that WhatsApp has dropped: SendMediaRetryRequest, HandleMediaRetryResponse
-- and CleanupOldPendingRetries of internal/service/media.go.
use onwapp.Base.{
  leb, if◌then◌else◌, Option-cases, Str, is_empty, lookup-insert_self, lookup-delete_self,
  HasDistinctKeys, lookup-retain, lookup, ℕ, ◌+◌, ◌≡◌, refl, ap, ◌∙◌, inl, inr, true, false, none,
  some, [], ◌∷◌, arith,
}
use onwapp.Media.{Media, Rows, update_direct_path, get_by_msg_id}
use onwapp.Media.Download.{
  Services, MediaService, MediaRetryInfo, retry_info, send_media_retry_request,
  handle_media_retry_response, cleanup_old_pending_retries,
}

get_by_msg_id-update_direct_path :
    (now : ℕ) (s m path : Str) (rows : Rows)
    → get_by_msg_id s m (update_direct_path now s m path rows) ≡ elim (get_by_msg_id s m rows) [
      | none ↦ none
      | some row ↦
          some (record row { wa_direct_path = path; download_error = []; updated_at = now })
    ]
unfolding get_by_msg_id update_direct_path
get_by_msg_id-update_direct_path now s m path [] = refl
get_by_msg_id-update_direct_path now s m path (row ∷ rows) =
    ground (arith, get_by_msg_id-update_direct_path now s m path rows)

-- A request that is sent is noted with the key of the medium.
sent_noted :
    (sv : Services) (s : Str) (m : Media) (st : MediaService)
    → (send_media_retry_request sv s m st).1 ≡ true
    → (info : MediaRetryInfo) × (lookup m.msg_id
          (send_media_retry_request sv s m st).0.pending_retries
        ≡ some info)
      × (info.media_key ≡ m.wa_media_key)
unfolding send_media_retry_request retry_info
sent_noted sv s m st sent = elim (Option-cases (sv.get_message m.session_id m.msg_id)) [
  | inl e ↦ ground arith
  | inr (msg, e) ↦
      let info = retry_info sv s m msg in
      (info, ground (arith, lookup-insert_self m.msg_id info st.pending_retries), refl)
]

response_lem :
    (sv : Services) (s path : Str) (m : Str) (st : MediaService) (info : MediaRetryInfo)
    {row : Media}
    → lookup m st.pending_retries ≡ some info
    → sv.writes_ok ≡ true
    → sv.decrypt info.media_key ≡ some (true, path)
    → is_empty path ≡ false
    → get_by_msg_id s m st.rows ≡ some row
    → let (st2, answer) = handle_media_retry_response sv s m st in
      (answer
        ≡ some
            (some (record row { wa_direct_path = path; download_error = []; updated_at = sv.now })))
      × (lookup m st2.pending_retries ≡ none)
unfolding handle_media_retry_response
response_lem sv s path m st info noted w key given found = ground (
  arith,
  get_by_msg_id-update_direct_path sv.now s m path st.rows,
  lookup-delete_self m st.pending_retries,
)

-- A retry request that is sent notes the medium under its message ID, with its key. A response that
-- this key decrypts to a path that is not empty then starts the download at that path of the row of
-- the message, which is in the table, with its error emptied, if the statements succeed; and the
-- note is gone.
pub retry_roundtrip :
    (sv : Services) (s path : Str) (m : Media) (st : MediaService) {row : Media}
    → (send_media_retry_request sv s m st).1 ≡ true
    → sv.writes_ok ≡ true
    → sv.decrypt m.wa_media_key ≡ some (true, path)
    → is_empty path ≡ false
    → get_by_msg_id s m.msg_id (send_media_retry_request sv s m st).0.rows ≡ some row
    → let (st2, answer) =
        handle_media_retry_response sv s m.msg_id (send_media_retry_request sv s m st).0 in
      (answer
        ≡ some
            (some (record row { wa_direct_path = path; download_error = []; updated_at = sv.now })))
      × (lookup m.msg_id st2.pending_retries ≡ none)
retry_roundtrip sv s path m st sent w key given found =
    let (info, noted, same) = sent_noted sv s m st sent in
    response_lem sv s path m.msg_id (send_media_retry_request sv s m st).0 info noted w
      (ap sv.decrypt same ∙ key) given found

-- A cleanup drops the notes of retries that are older than five minutes and keeps the others.
pub lookup-cleanup_old_pending_retries :
    (now : ℕ) (st : MediaService) (m : Str) {info : MediaRetryInfo}
    → lookup m st.pending_retries ≡ some info
    → HasDistinctKeys st.pending_retries
    → lookup m (cleanup_old_pending_retries now st).pending_retries
      ≡ (if leb now (info.created_at + 300) then some info else none)
unfolding cleanup_old_pending_retries
lookup-cleanup_old_pending_retries now st m h d =
    lookup-retain (λ k i. leb now (i.created_at + 300)) m _ st.pending_retries d h
