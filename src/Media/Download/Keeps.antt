-- ===== src/Media/Download/Keeps.antt =====
-- What the three statements of the downloads keep, the whole batch of internal/service/media.go
-- keeps.
use onwapp.Base.{
  if◌then◌else◌, Bool-cases, Option-cases, Str, ℕ, ◌≡◌, sym, subst, inl, inr, true, Option, none,
  some, List, [], ◌∷◌, arith,
}
use onwapp.Media.{
  Media, Rows, can_download, update_download_status, increment_download_attempts,
  mark_as_retry_requested,
}
use onwapp.Media.Download.{
  Services, DownloadError, nil_client, missing_key, not_connected, status_failed, media_expired,
  download_failed, upload_failed, end_download, write, Uploaded, uploaded, upload_error,
  note_upload, Fetched, fetched, refused, note_download, download_and_store, MediaService,
  try_start_download, finish_download, send_media_retry_request, process_started, process_one,
  count, process_batch,
}

module _ (sv : Services) (s : Str) (I : Rows → Type 0)
    (attempt : (id error : Str) (rows : Rows)
      → I rows
      → I (increment_download_attempts sv.now id error rows))
    (status : (id key url : Str) (rows : Rows)
      → I rows
      → I (update_download_status sv.now id true key url [] rows))
    (mark : (id : Str) (rows : Rows) → I rows → I (mark_as_retry_requested sv.now id rows)) where
  write-keeps : (f : Rows → Rows) (rows : Rows) → I (f rows) → I rows → I (write sv f rows)
  unfolding write
  write-keeps f rows h k = elim (Bool-cases sv.writes_ok) [
    | inl e ↦ subst (λ b. I (if b then f rows else rows)) (sym e) h
    | inr e ↦ subst (λ b. I (if b then f rows else rows)) (sym e) k
  ]

  note_upload-keeps :
      (m : Media) (u : Uploaded) (rows : Rows) → I rows → I (note_upload sv m u rows).0
  unfolding note_upload
  note_upload-keeps m (upload_error text) rows h =
      write-keeps (increment_download_attempts sv.now m.id text) rows (attempt m.id text rows h) h
  note_upload-keeps m (uploaded key url) rows h = elim (Bool-cases sv.writes_ok) [
    | inl e ↦ rw (e) (status m.id key url rows h)
    | inr e ↦ rw (e) h
  ]

  note_download-keeps :
      (m : Media) (a : Fetched) (rows : Rows) → I rows → I (note_download sv s m a rows).0
  unfolding note_download
  note_download-keeps m (fetched file) rows h = note_upload-keeps m _ rows h
  note_download-keeps m (refused text known) rows h =
      write-keeps (increment_download_attempts sv.now m.id text) rows (attempt m.id text rows h) h

  download_and_store-keeps :
      (m : Media) (rows : Rows) → I rows → I (download_and_store sv s m rows).0
  unfolding download_and_store
  download_and_store-keeps m rows h = elim (Bool-cases sv.has_client) [
    | inr a ↦ rw (a) h
    | inl a ↦ elim (Bool-cases (can_download m)) [
      | inr b ↦ rw (a, b) h
      | inl b ↦ elim (Bool-cases sv.is_connected) [
        | inr c ↦ rw (a, b, c) h
        | inl c ↦ rw (a, b, c) (note_download-keeps m (sv.download m) rows h)
      ]
    ]
  ]

  send_media_retry_request-keeps :
      (m : Media) (st : MediaService) → I st.rows → I (send_media_retry_request sv s m st).0.rows
  unfolding send_media_retry_request
  send_media_retry_request-keeps m st h = elim (Bool-cases sv.has_client) [
    | inr a ↦ rw (a) h
    | inl a ↦ elim (Option-cases (sv.get_message m.session_id m.msg_id)) [
      | inl b ↦ rw (a, b) h
      | inr (msg, b) ↦ elim (Bool-cases (sv.parses_jid msg.chat_jid)) [
        | inr c ↦ rw (a, b, c) h
        | inl c ↦ elim (Bool-cases (sv.sends_retry m)) [
          | inr d ↦ rw (a, b, c, d) h
          | inl d ↦
              rw (a, b, c, d)
                (write-keeps (mark_as_retry_requested sv.now m.id) st.rows (mark m.id st.rows h) h)
        ]
      ]
    ]
  ]

  ended-keeps :
      (m : Media) (st : MediaService) (error : Option DownloadError)
      → I st.rows
      → I (end_download sv s m st error).0.rows
  unfolding end_download
  ended-keeps m st none h = h
  ended-keeps m st (some (media_expired text)) h = send_media_retry_request-keeps m st h
  ended-keeps m st (some nil_client) h = h
  ended-keeps m st (some missing_key) h = h
  ended-keeps m st (some not_connected) h = h
  ended-keeps m st (some status_failed) h = h
  ended-keeps m st (some (download_failed text)) h = h
  ended-keeps m st (some (upload_failed text)) h = h

  -- What holds after the download of a medium holds after its whole step.
  pub process_started-keeps :
      (m : Media) (st : MediaService)
      → I (download_and_store sv s m st.rows).0
      → I (process_started sv s m st).0.rows
  unfolding process_started finish_download
  process_started-keeps m st h = ended-keeps m _ (download_and_store sv s m st.rows).1 h

  pub process_one-keeps :
      (m : Media) (st : MediaService) → I st.rows → I (process_one sv s m st).0.rows
  unfolding process_one try_start_download
  process_one-keeps m st h = elim (Option-cases (try_start_download m.id st)) [
    | inl e ↦ rw (e, process_one) h
    | inr (st1, e) ↦
        let same : st1.rows ≡ st.rows = ground arith in
        rw (e, process_one)
          (process_started-keeps m st1 (download_and_store-keeps m st1.rows (subst I (sym same) h)))
  ]

  pub process_batch-keeps :
      (ms : List Media) (st : MediaService) (n : ℕ × ℕ)
      → I st.rows
      → I (process_batch sv s ms st n).0.rows
  unfolding process_batch
  process_batch-keeps [] st n h = h
  process_batch-keeps (m ∷ ms) st n h =
      process_batch-keeps ms (process_one sv s m st).0 (count (process_one sv s m st).1 n)
        (process_one-keeps m st h)
