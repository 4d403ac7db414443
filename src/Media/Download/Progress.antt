-- ===== src/Media/Download/Progress.antt =====
-- How much work the downloads of internal/service/media.go leave.
pub mod Loop
pub mod Stuck
use onwapp.Base.{
  ltb, if◌then◌else◌, Str, str_eq, lookup, insert, ℕ, ◌+◌, ◌-◌, ◌≤◌, ◌<◌, ◌≡◌, refl, sym, subst,
  Bool, true, false, ◌&&◌, ◌||◌, some, List, [], ◌∷◌, arith,
}
use onwapp.Media.{
  Media, Rows, can_download, update_row, with_status, update_download_status, with_attempt,
  increment_download_attempts, mark_as_retry_requested, is_pending, get_pending_downloads,
}
use onwapp.Media.Download.Keeps.{process_started-keeps, process_batch-keeps}
use onwapp.Media.Download.{
  Services, DownloadError, media_expired, write, Uploaded, uploaded, upload_error, note_upload,
  Fetched, fetched, refused, note_download, content_type, from_me, download_and_store, MediaService,
  try_start_download, finish_download, send_media_retry_request, retry_info, Tally, succeeded,
  failed, skipped, process_started, process_one, count, process_batch,
}

-- How often a medium may still be tried.
unfoldable pub attempts_left : Media → ℕ
attempts_left m = if m.downloaded then 0 else 3 - m.download_attempts

unfoldable pub total_left : Rows → ℕ
unfolding attempts_left
total_left [] = 0
total_left (m ∷ rows) = attempts_left m + total_left rows

-- A change of a row that gives no attempts back.
abbrev pub Spends : (Media → Media) → Type 0
Spends f = (m : Media) → attempts_left (f m) ≤ attempts_left m

-- Some row of this ID may still be tried.
unfoldable pub is_open : Str → Rows → Bool
unfolding str_eq attempts_left
is_open id [] = false
is_open id (m ∷ rows) = (str_eq m.id id && ltb 0 (attempts_left m)) || is_open id rows

update_row-Spends :
    (id : Str) (f : Media → Media) (rows : Rows)
    → Spends f
    → total_left (update_row id f rows) ≤ total_left rows
unfolding update_row total_left
update_row-Spends id f [] h = omega arith
update_row-Spends id f (m ∷ rows) h = ground (arith, h m, update_row-Spends id f rows h)

update_row-Spends_one :
    (id : Str) (f : Media → Media) (rows : Rows)
    → Spends f
    → ((m : Media) → 0 < attempts_left m → attempts_left (f m) < attempts_left m)
    → is_open id rows ≡ true
    → total_left (update_row id f rows) < total_left rows
unfolding update_row total_left is_open
update_row-Spends_one id f [] h k o = ground arith
update_row-Spends_one id f (m ∷ rows) h k o =
    ground (arith, h m, k m, update_row-Spends id f rows h, update_row-Spends_one id f rows h k)

with_attempt-Spends : (now : ℕ) (error : Str) → Spends (with_attempt now error)
unfolding with_attempt attempts_left
with_attempt-Spends now error m = ground arith

with_status-Spends : (now : ℕ) (key url error : Str) → Spends (with_status now true key url error)
unfolding with_status attempts_left
with_status-Spends now key url error m = ground arith

increment-spends :
    (now : ℕ) (id error : Str) (rows : Rows)
    → total_left (increment_download_attempts now id error rows) ≤ total_left rows
unfolding increment_download_attempts
increment-spends now id error rows =
    update_row-Spends id (with_attempt now error) rows (with_attempt-Spends now error)

with_attempt-Spends_one :
    (now : ℕ) (error : Str) (m : Media)
    → 0 < attempts_left m
    → attempts_left (with_attempt now error m) < attempts_left m
unfolding with_attempt attempts_left
with_attempt-Spends_one now error m h = ground arith

with_status-Spends_one :
    (now : ℕ) (key url error : Str) (m : Media)
    → 0 < attempts_left m
    → attempts_left (with_status now true key url error m) < attempts_left m
unfolding with_status attempts_left
with_status-Spends_one now key url error m h = ground arith

increment-spends_one :
    (now : ℕ) (id error : Str) (rows : Rows)
    → is_open id rows ≡ true
    → total_left (increment_download_attempts now id error rows) < total_left rows
unfolding increment_download_attempts
increment-spends_one now id error rows o =
    update_row-Spends_one id (with_attempt now error) rows (with_attempt-Spends now error)
      (with_attempt-Spends_one now error) o

status-spends :
    (now : ℕ) (id key url error : Str) (rows : Rows)
    → total_left (update_download_status now id true key url error rows) ≤ total_left rows
unfolding update_download_status
status-spends now id key url error rows =
    update_row-Spends id (with_status now true key url error) rows
      (with_status-Spends now key url error)

status-spends_one :
    (now : ℕ) (id key url error : Str) (rows : Rows)
    → is_open id rows ≡ true
    → total_left (update_download_status now id true key url error rows) < total_left rows
unfolding update_download_status
status-spends_one now id key url error rows o =
    update_row-Spends_one id (with_status now true key url error) rows
      (with_status-Spends now key url error) (with_status-Spends_one now key url error) o

mark-spends :
    (now : ℕ) (id : Str) (rows : Rows)
    → total_left (mark_as_retry_requested now id rows) ≤ total_left rows
unfolding mark_as_retry_requested attempts_left
mark-spends now id rows = update_row-Spends id _ rows (λ m. ground arith)

module _ (sv : Services) (s : Str) where
  note_upload-spends_one :
      (m : Media) (u : Uploaded) (rows : Rows)
      → sv.writes_ok ≡ true
      → is_open m.id rows ≡ true
      → total_left (note_upload sv m u rows).0 < total_left rows
  unfolding note_upload write
  note_upload-spends_one m (upload_error text) rows w o =
      ground (arith, increment-spends_one sv.now m.id text rows o)
  note_upload-spends_one m (uploaded key url) rows w o =
      ground (arith, status-spends_one sv.now m.id key url [] rows o)

  note_download-spends_one :
      (m : Media) (a : Fetched) (rows : Rows)
      → sv.writes_ok ≡ true
      → is_open m.id rows ≡ true
      → total_left (note_download sv s m a rows).0 < total_left rows
  unfolding note_download write
  note_download-spends_one m (fetched file) rows w o = note_upload-spends_one m _ rows w o
  note_download-spends_one m (refused text known) rows w o =
      ground (arith, increment-spends_one sv.now m.id text rows o)

  download_and_store-spends_one :
      (m : Media) (rows : Rows)
      → sv.has_client ≡ true
      → sv.is_connected ≡ true
      → sv.writes_ok ≡ true
      → can_download m ≡ true
      → is_open m.id rows ≡ true
      → total_left (download_and_store sv s m rows).0 < total_left rows
  unfolding download_and_store
  download_and_store-spends_one m rows c n w d o =
      ground (arith, note_download-spends_one m (sv.download m) rows w o)

  batch-spends :
      (n : ℕ) (ms : List Media) (st : MediaService) (c : ℕ × ℕ)
      → total_left st.rows ≤ n
      → total_left (process_batch sv s ms st c).0.rows ≤ n
  batch-spends n ms st c h =
      process_batch-keeps sv s (λ rows. total_left rows ≤ n)
        (λ id error rows k. omega (arith, k, increment-spends sv.now id error rows))
        (λ id key url rows k. omega (arith, k, status-spends sv.now id key url [] rows))
        (λ id rows k. omega (arith, k, mark-spends sv.now id rows)) ms st c h

  started-spends :
      (n : ℕ) (m : Media) (st : MediaService)
      → total_left (download_and_store sv s m st.rows).0 ≤ n
      → total_left (process_started sv s m st).0.rows ≤ n
  started-spends n m st h =
      process_started-keeps sv s (λ rows. total_left rows ≤ n)
        (λ id error rows k. omega (arith, k, increment-spends sv.now id error rows))
        (λ id key url rows k. omega (arith, k, status-spends sv.now id key url [] rows))
        (λ id rows k. omega (arith, k, mark-spends sv.now id rows)) m st h

  try_start_idle :
      (id : Str) (st : MediaService)
      → st.downloading ≡ []
      → try_start_download id st ≡ some (record st { downloading = insert id true st.downloading })
  unfolding try_start_download lookup
  try_start_idle id st idle = ground arith

  process_one_idle :
      (m : Media) (st : MediaService)
      → st.downloading ≡ []
      → process_one sv s m st
        ≡ process_started sv s m (record st { downloading = insert m.id true st.downloading })
  unfolding process_one
  process_one_idle m st idle = rw (try_start_idle m.id st idle, process_one) refl

  -- A batch that begins with a medium that may still be tried, and that is not being downloaded,
  -- spends an attempt.
  pub process_batch-spends_one :
      (m : Media) (ms : List Media) (st : MediaService) (c : ℕ × ℕ)
      → sv.has_client ≡ true
      → sv.is_connected ≡ true
      → sv.writes_ok ≡ true
      → can_download m ≡ true
      → is_open m.id st.rows ≡ true
      → st.downloading ≡ []
      → total_left (process_batch sv s (m ∷ ms) st c).0.rows < total_left st.rows
  unfolding process_batch
  process_batch-spends_one m ms st c hc hn hw hd ho idle =
      let begun = record st { downloading = insert m.id true st.downloading } in
      let less = download_and_store-spends_one m st.rows hc hn hw hd ho in
      let left = total_left (download_and_store sv s m st.rows).0 in
      let one = started-spends left m begun (omega arith) in
      let first : total_left (process_one sv s m st).0.rows ≤ left =
        subst (λ r. total_left r.0.rows ≤ left) (sym (process_one_idle m st idle)) one in
      let (st1, t) = process_one sv s m st in
      omega (arith, less, batch-spends left ms st1 (count t c) first)
