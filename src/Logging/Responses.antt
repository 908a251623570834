-- ===== src/Logging/Responses.antt =====
-- What responseLog (internal/app/logging.go) makes of the calls of a handler.
use personal_yt_downloader.Common.{
  ℕ, ◌+◌, ◌%◌, ◌^◌, ◌<◌, ◌≡◌, ◌≢◌, Bool, false, ◌||◌, List, [], ◌∷◌, arith,
}
use personal_yt_downloader.Logging.{
  ResponseLog, fresh, write_header, write, Call, sets_header, writes, call, calls,
}

-- The status of the first call: 200 if it is a Write.
abbrev pub first_status : List Call → List ℕ
first_status [] = []
first_status (sets_header status ∷ cs) = status ∷ []
first_status (writes n failed ∷ cs) = 200 ∷ []

abbrev pub status_or_zero : List ℕ → ℕ
status_or_zero [] = 0
status_or_zero (status ∷ rest) = status

abbrev pub written : List Call → ℕ
written [] = 0
written (sets_header status ∷ cs) = written cs
written (writes n failed ∷ cs) = n + written cs

abbrev pub any_failed : List Call → Bool
any_failed [] = false
any_failed (sets_header status ∷ cs) = any_failed cs
any_failed (writes n failed ∷ cs) = failed || any_failed cs

-- No call sets the status zero, which `net/http` refuses.
abbrev pub HasStatuses : List Call → Type 0
HasStatuses [] = Unit
HasStatuses (sets_header status ∷ cs) = (status ≢ 0) × HasStatuses cs
HasStatuses (writes n failed ∷ cs) = HasStatuses cs

-- Once a status is set it stays, and only writes count.
calls_after :
    (w : ResponseLog) (cs : List Call)
    → w.status ≢ 0
    → w.bytes < 2 ^ 64
    → ((calls w cs).status ≡ w.status)
      × ((calls w cs).forwarded ≡ w.forwarded)
      × ((calls w cs).bytes ≡ (w.bytes + written cs) % 2 ^ 64)
      × ((calls w cs).write_failed ≡ (w.write_failed || any_failed cs))
unfolding calls call write write_header
calls_after w [] h small = ground arith
calls_after w (sets_header status ∷ cs) h small = ground (arith, calls_after w cs h small)
calls_after w (writes n failed ∷ cs) h small =
    let again = calls_after (write w n failed) cs (ground (arith, h)) (ground arith) in
    ground (arith, again, h, small)

-- If no call sets the status zero, responseLog forwards only the first status, which is 200 if the
-- first call is a Write, records that status, the sum of the bytes written modulo 2^64, and whether
-- any Write failed.
pub calls_lem :
    (cs : List Call)
    → HasStatuses cs
    → ((calls fresh cs).status ≡ status_or_zero (first_status cs))
      × ((calls fresh cs).forwarded ≡ first_status cs)
      × ((calls fresh cs).bytes ≡ written cs % 2 ^ 64)
      × ((calls fresh cs).write_failed ≡ any_failed cs)
unfolding calls call write write_header
calls_lem [] h = ground arith
calls_lem (sets_header status ∷ cs) (h, hs) =
    let again = calls_after (write_header fresh status) cs (ground (arith, h)) (ground arith) in
    ground (arith, again, h)
calls_lem (writes n failed ∷ cs) h =
    let again = calls_after (write fresh n failed) cs (ground arith) (ground arith) in
    ground (arith, again)
