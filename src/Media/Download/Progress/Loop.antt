-- ===== src/Media/Download/Progress/Loop.antt =====
-- The loop after a history synchronisation ends by itself (internal/service/media.go).
use onwapp.Base.{
  ◌==◌, length, take, all, keep, Str, str_eq_refl, insert, delete, ℕ, zero, suc, ◌+◌, ◌*◌, ◌≤◌, ◌<◌,
  ◌≡◌, refl, sym, ap, subst, ◌∙◌, ◌≢◌, ◌⊎◌, inl, inr, Bool, true, false, not, ◌&&◌, ◌||◌, Option,
  some, List, [], ◌∷◌, arith,
}
use onwapp.Media.{
  Media, Rows, can_download, update_row, with_status, update_download_status, with_attempt,
  increment_download_attempts, mark_as_retry_requested, is_pending, get_pending_downloads,
}
use onwapp.Media.Download.{
  Services, MediaService, DownloadError, finish_download, end_download, download_and_store,
  send_media_retry_request, Tally, skipped, process_started, process_one, count, process_batch,
  process_pending_downloads, LoopEnd, finished, history_loop, process_history_sync_media,
}
use onwapp.Media.Download.Keeps.{process_batch-keeps}
use onwapp.Media.Download.Progress.{
  attempts_left, total_left, is_open, process_one_idle, process_batch-spends_one,
}

count_counts :
    (t : Tally) (n : ℕ × ℕ) → t ≢ skipped → (count t n).0 + (count t n).1 ≡ suc (n.0 + n.1)
unfolding count
count_counts t n h = ground arith

List-cases {ℓ} : {A : Type ℓ} (xs : List A) → (xs ≡ []) ⊎ ((x : A) × (ys : List A) × (xs ≡ x ∷ ys))
List-cases [] = inl refl
List-cases (x ∷ ys) = inr (x, ys, refl)

pub counted_some : (a b n : ℕ) → a + b ≡ 0 + 0 + suc n → (a == 0 && b == 0) ≡ false
counted_some a b n h = ground arith

module _ (sv : Services) (s : Str) where
  end_download-downloading :
      (m : Media) (st : MediaService) (error : Option DownloadError)
      → (end_download sv s m st error).0.downloading ≡ st.downloading
  unfolding end_download send_media_retry_request
  end_download-downloading m st error = ground arith

  end_download-counts :
      (m : Media) (st : MediaService) (error : Option DownloadError)
      → (end_download sv s m st error).1 ≢ skipped
  unfolding end_download
  end_download-counts m st error = ground arith

  -- The step of a medium that no one else downloads gives it free again and is counted.
  pub process_one-idle :
      (m : Media) (st : MediaService)
      → st.downloading ≡ []
      → ((process_one sv s m st).0.downloading ≡ []) × ((process_one sv s m st).1 ≢ skipped)
  unfolding process_started finish_download insert delete
  process_one-idle m st idle =
      let begun = record st { downloading = insert m.id true st.downloading } in
      let (rows, error) = download_and_store sv s m st.rows in
      let ended = finish_download m.id (record begun { rows = rows }) in
      rw (process_one_idle sv s m st idle) (
        end_download-downloading m ended error ∙ ground (arith, str_eq_refl m.id),
        end_download-counts m ended error,
      )

  pub process_batch-idle :
      (ms : List Media) (st : MediaService) (n : ℕ × ℕ)
      → st.downloading ≡ []
      → let (st1, ok, bad) = process_batch sv s ms st n in
        (st1.downloading ≡ []) × (ok + bad ≡ n.0 + n.1 + length ms)
  unfolding process_batch
  process_batch-idle [] st n idle = (idle, omega arith)
  process_batch-idle (m ∷ ms) st n idle =
      let (free, counted) = process_one-idle m st idle in
      let (st1, t) = process_one sv s m st in
      let (later, sum) = process_batch-idle ms st1 (count t n) free in
      (later, omega (arith, sum, count_counts t n counted))

  -- A row that is pending can be downloaded.
  unfoldable pub is_ready : Media → Bool
  unfolding is_pending can_download
  is_ready m = not (is_pending s m) || can_download m

  update_row-is_ready :
      (id : Str) (f : Media → Media) (rows : Rows)
      → ((m : Media) → is_ready m ≡ true → is_ready (f m) ≡ true)
      → all is_ready rows ≡ true
      → all is_ready (update_row id f rows) ≡ true
  unfolding update_row
  update_row-is_ready id f [] h k = refl
  update_row-is_ready id f (m ∷ rows) h k = ground (arith, h m, update_row-is_ready id f rows h)

  with_attempt-is_ready :
      (now : ℕ) (error : Str) (m : Media)
      → is_ready m ≡ true
      → is_ready (with_attempt now error m) ≡ true
  unfolding with_attempt is_ready is_pending can_download
  with_attempt-is_ready now error m h = ground arith

  with_status-is_ready :
      (now : ℕ) (key url error : Str) (m : Media)
      → is_ready m ≡ true
      → is_ready (with_status now true key url error m) ≡ true
  unfolding with_status is_ready is_pending can_download
  with_status-is_ready now key url error m h = ground arith

  process_batch-is_ready :
      (ms : List Media) (st : MediaService) (n : ℕ × ℕ)
      → all is_ready st.rows ≡ true
      → all is_ready (process_batch sv s ms st n).0.rows ≡ true
  unfolding increment_download_attempts update_download_status mark_as_retry_requested is_ready
      is_pending can_download
  process_batch-is_ready ms st n h =
      process_batch-keeps sv s (λ rows. all is_ready rows ≡ true)
        (λ id error rows k.
          update_row-is_ready id (with_attempt sv.now error) rows
            (with_attempt-is_ready sv.now error) k)
        (λ id key url rows k.
          update_row-is_ready id (with_status sv.now true key url []) rows
            (with_status-is_ready sv.now key url []) k)
        (λ id rows k. update_row-is_ready id _ rows (λ m e. e) k) ms st n h

  first_pending :
      (m : Media) (ms rows : Rows)
      → keep (is_pending s) rows ≡ m ∷ ms
      → all is_ready rows ≡ true
      → (can_download m ≡ true) × (is_open m.id rows ≡ true)
  unfolding is_ready is_open is_pending attempts_left
  first_pending m ms [] h k = ground arith
  first_pending m ms (r ∷ rows) h k = ground (arith, first_pending m ms rows, str_eq_refl r.id)

  -- The services of a client that stays connected and a database that takes every statement.
  abbrev IsUp : Type 0
  IsUp =
      (sv.has_client ≡ true)
      × (sv.is_connected ≡ true)
      × (sv.has_storage ≡ true)
      × (sv.writes_ok ≡ true)

  -- No download runs, and each pending row can be downloaded.
  abbrev IsClean : MediaService → Type 0
  IsClean st = (st.downloading ≡ []) × (all is_ready st.rows ≡ true)

  pending_run :
      (st : MediaService)
      → sv.has_storage ≡ true
      → process_pending_downloads sv s 5 st
        ≡ process_batch sv s (get_pending_downloads s 5 st.rows) st (0, 0)
  unfolding process_pending_downloads
  pending_run st up = ground arith

  empty_batch :
      (st : MediaService)
      → sv.has_storage ≡ true
      → get_pending_downloads s 5 st.rows ≡ []
      → process_pending_downloads sv s 5 st ≡ (st, 0, 0)
  unfolding process_batch
  empty_batch st up e = pending_run st up ∙ ap (λ ms. process_batch sv s ms st (0, 0)) e

  pub full_run :
      (st : MediaService) (m : Media) (ms : List Media)
      → sv.has_storage ≡ true
      → keep (is_pending s) st.rows ≡ m ∷ ms
      → process_pending_downloads sv s 5 st ≡ process_batch sv s (m ∷ take 4 ms) st (0, 0)
  unfolding get_pending_downloads
  full_run st m ms up e =
      pending_run st up ∙ ap (λ ms. process_batch sv s ms st (0, 0)) (ap (take 5) e)

  -- A batch spent attempts and counted something.
  abbrev IsSpent : MediaService → MediaService × ℕ × ℕ → Type 0
  IsSpent st (st1, ok, bad) =
      IsClean st1 × (total_left st1.rows < total_left st.rows) × ((ok == 0 && bad == 0) ≡ false)

  full_batch :
      (st : MediaService) (m : Media) (ms : List Media)
      → IsUp
      → IsClean st
      → keep (is_pending s) st.rows ≡ m ∷ ms
      → IsSpent st (process_pending_downloads sv s 5 st)
  full_batch st m ms (hc, hn, hs, hw) (idle, ready) e =
      let (can, may) = first_pending m ms st.rows e ready in
      let batch = m ∷ take 4 ms in
      let (free, sum) = process_batch-idle batch st (0, 0) idle in
      subst (IsSpent st) (sym (full_run st m ms hs e)) (
        (free, process_batch-is_ready batch st (0, 0) ready),
        process_batch-spends_one sv s m (take 4 ms) st (0, 0) hc hn hw can may idle,
        counted_some _ _ (length (take 4 ms)) sum,
      )

  -- The loop has ended by itself and nothing is pending.
  abbrev IsDone : MediaService × LoopEnd → Type 0
  IsDone (st, end) = (end ≡ finished) × (get_pending_downloads s 5 st.rows ≡ [])

  pub again_step :
      (time e : ℕ) (st st1 : MediaService) (ok bad : ℕ)
      → sv.is_connected ≡ true
      → process_pending_downloads sv s 5 st ≡ (st1, ok, bad)
      → (ok == 0 && bad == 0) ≡ false
      → history_loop (suc time) (suc e) sv s st ≡ history_loop time 3 sv s st1
  unfolding history_loop
  again_step time e st st1 ok bad up run full = ground arith

  empty_step :
      (time e : ℕ) (st : MediaService)
      → sv.is_connected ≡ true
      → process_pending_downloads sv s 5 st ≡ (st, 0, 0)
      → history_loop (suc time) (suc e) sv s st ≡ history_loop time e sv s st
  unfolding history_loop
  empty_step time e st up run = ground arith

  history_loop-IsDone :
      (time e : ℕ) (st : MediaService)
      → IsUp
      → IsClean st
      → 4 * total_left st.rows + e ≤ time
      → (e ≡ 3) ⊎ (get_pending_downloads s 5 st.rows ≡ [])
      → IsDone (history_loop time e sv s st)
  unfolding history_loop get_pending_downloads
  history_loop-IsDone zero zero st up clean h (inl e3) = ground arith
  history_loop-IsDone zero zero st up clean h (inr none_left) = (refl, none_left)
  history_loop-IsDone (suc time) zero st up clean h (inl e3) = ground arith
  history_loop-IsDone (suc time) zero st up clean h (inr none_left) = (refl, none_left)
  history_loop-IsDone zero (suc e) st up clean h left = ground arith
  history_loop-IsDone (suc time) (suc e) st up clean h left =
      elim (List-cases (keep (is_pending s) st.rows)) [
        | inl none_left ↦
            let empty : get_pending_downloads s 5 st.rows ≡ [] = ap (take 5) none_left in
            subst IsDone (sym (empty_step time e st (up.1) (empty_batch st (up.2) empty)))
              (history_loop-IsDone time e st up clean (omega (arith, h)) (inr empty))
        | inr (m, ms, some_left) ↦
            let (clean1, less, counted) = full_batch st m ms up clean some_left in
            let (st1, ok, bad) = process_pending_downloads sv s 5 st in
            subst IsDone (sym (again_step time e st st1 ok bad (up.1) refl counted))
              (history_loop-IsDone time 3 st1 up clean1 (omega (arith, h, less)) (inl refl))
      ]

  -- Where no download runs, each pending row can be downloaded, the client stays connected and the
  -- database takes every statement, the media of a history synchronisation are worked off: within
  -- four batches for each attempt that is left, and three more, the loop ends by itself, no row of
  -- the session is pending, and another synchronisation may start.
  pub process_history_sync_media-ends :
      (time : ℕ) (st : MediaService)
      → IsUp
      → IsClean st
      → st.history_sync_running ≡ false
      → 4 * total_left st.rows + 3 ≤ time
      → let (st1, end) = process_history_sync_media time sv s st in
        (end ≡ some finished)
        × (get_pending_downloads s 5 st1.rows ≡ [])
        × (st1.history_sync_running ≡ false)
  unfolding process_history_sync_media
  process_history_sync_media-ends time st up clean idle enough =
      let begun = record st { history_sync_running = true } in
      let (done, none_left) = history_loop-IsDone time 3 begun up clean enough (inl refl) in
      ground (arith, up.2, done, none_left)
