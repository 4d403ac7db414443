-- ===== src/Media/Download/Progress/Stuck.antt =====
-- Media without a key, which internal/service/media.go tries again and again.
use onwapp.Base.{
  and-true, length, take, all, keep, Str, ℕ, zero, suc, ◌≡◌, refl, ap, ◌∙◌, Bool, true, false, not,
  some, List, [], ◌∷◌, arith,
}
use onwapp.Media.{Media, Rows, can_download, is_pending}
use onwapp.Media.Download.{
  Services, MediaService, missing_key, finish_download, end_download, download_and_store,
  process_started, process_one, count, process_batch, timed_out, history_loop,
}
use onwapp.Media.Download.Progress.{process_one_idle}
use onwapp.Media.Download.Progress.Loop.{
  process_one-idle, process_batch-idle, again_step, full_run, counted_some,
}

all-take {ℓ} :
    {A : Type ℓ} (p : A → Bool) (n : ℕ) (xs : List A) → all p xs ≡ true → all p (take n xs) ≡ true
all-take p zero xs h = refl
all-take p (suc n) [] h = refl
all-take p (suc n) (x ∷ xs) h = ground (arith, all-take p n xs)

module _ (sv : Services) (s : Str) where
  useless_download :
      (m : Media) (rows : Rows)
      → sv.has_client ≡ true
      → can_download m ≡ false
      → download_and_store sv s m rows ≡ (rows, some missing_key)
  unfolding download_and_store
  useless_download m rows c h = ground arith

  useless_started :
      (m : Media) (st : MediaService)
      → sv.has_client ≡ true
      → can_download m ≡ false
      → (process_started sv s m st).0.rows ≡ st.rows
  unfolding process_started finish_download end_download
  useless_started m st c h =
      ap (λ r. (end_download sv s m (finish_download m.id (record st { rows = r.0 })) r.1).0.rows)
        (useless_download m st.rows c h)

  useless_one :
      (m : Media) (st : MediaService)
      → sv.has_client ≡ true
      → can_download m ≡ false
      → st.downloading ≡ []
      → (process_one sv s m st).0.rows ≡ st.rows
  useless_one m st c h idle =
      ap (λ r. r.0.rows) (process_one_idle sv s m st idle) ∙ useless_started m _ c h

  useless_batch :
      (ms : List Media) (st : MediaService) (n : ℕ × ℕ)
      → sv.has_client ≡ true
      → all (λ m. not (can_download m)) ms ≡ true
      → st.downloading ≡ []
      → (process_batch sv s ms st n).0.rows ≡ st.rows
  unfolding process_batch
  useless_batch [] st n c h idle = refl
  useless_batch (m ∷ ms) st n c h idle =
      let (now, later) = and-true (not (can_download m)) (all (λ m. not (can_download m)) ms) h in
      let (free, counted) = process_one-idle sv s m st idle in
      useless_batch ms (process_one sv s m st).0 (count (process_one sv s m st).1 n) c later free
      ∙ useless_one m st c (ground arith) idle

  -- Where the session has pending media and none of them has a key, the batches fail without using
  -- up an attempt, and the loop runs into its timeout, however long that is.
  pub history_loop_stuck :
      (time e : ℕ) (st : MediaService) {m : Media} {ms : List Media}
      → sv.has_client ≡ true
      → sv.is_connected ≡ true
      → sv.has_storage ≡ true
      → st.downloading ≡ []
      → keep (is_pending s) st.rows ≡ m ∷ ms
      → all (λ m. not (can_download m)) (m ∷ ms) ≡ true
      → (history_loop time (suc e) sv s st).1 ≡ timed_out
  unfolding history_loop
  history_loop_stuck zero e st c n h idle some_left bad = refl
  history_loop_stuck (suc time) e st {m} {ms} c n h idle some_left bad =
      let batch = m ∷ take 4 ms in
      let run = full_run sv s st m ms h some_left in
      let (free, sum) = process_batch-idle sv s batch st (0, 0) idle in
      let same =
        useless_batch batch st (0, 0) c (all-take (λ x. not (can_download x)) 5 (m ∷ ms) bad)
          idle in
      let (st1, ok, failures) = process_batch sv s batch st (0, 0) in
      ap (λ r. r.1)
        (again_step sv s time e st st1 ok failures n run
          (counted_some ok failures (length (take 4 ms)) sum))
      ∙ history_loop_stuck time 2 st1 c n h free (ap (keep (is_pending s)) same ∙ some_left) bad
