-- ===== src/Manager/Invariant.antt =====
-- What holds between any two steps of the manager's threads.
pub mod Basics
pub mod Ownership
pub mod Deletion
pub mod Removed
pub mod Storage
pub mod Steps
use personal_yt_downloader.Common.{
  ℕ, suc, ◌+◌, ◌≤◌, ◌<◌, ◌≡◌, ◌≢◌, String, Bool, true, false, ◌&&◌, ◌||◌, not, Option, none, some,
  ◌==◌, if◌then◌else◌, lookup, Distinct,
}
use personal_yt_downloader.Model.{Job}
use personal_yt_downloader.Manager.State.{JobState, Manager, is_current}
use personal_yt_downloader.Manager.Protocol.{World, owned, holds, one_if}

-- The registered job at the address is being deleted.
abbrev pub is_due : Manager → ℕ → Bool
is_due m r = is_current m r && (m.heap r).deleting

abbrev pub has : Option ℕ → ℕ
has none = 0
has (some att) = 1

-- distinct: the registry has no key twice.
-- registered: an entry of the registry has its key for an id, at an allocated address.
-- active, fetching: the two flags of a job say whether the download worker, or one title worker,
--   owns it; two title workers never own one job.
-- due: while a registered job is being deleted and no worker owns it, exactly one call of
--   finalizeDeletion is on its way; at all other times there is none.
-- busy_current: what a worker owns is registered.
-- attempt, attempts_differ: a job being deleted has an open removal attempt of its own.
-- removing_attempt: the call that holds saveMu goes by the job's attempt.
-- saving_current: metadata is written for a registered job only, and not while it is removed.
-- disk_registered: metadata on disk belongs to a registered job.
pub record Inv (w : World) : Type 0 where
  pub distinct : Distinct w.manager.jobs
  pub registered :
      (k : String) (r : ℕ)
      → lookup k w.manager.jobs ≡ some r
      → ((w.manager.heap r).id ≡ k) × (r < w.manager.next_ref)
  pub active : (r : ℕ) → holds (owned w.download) r ≡ one_if (w.manager.heap r).active
  pub fetching :
      (r : ℕ) → holds w.first_title r + holds w.second_title r ≡ one_if (w.manager.heap r).fetching
  pub due :
      (r : ℕ)
      → w.pending r + has (w.removing r)
        ≡ one_if
            (is_due w.manager r && not (w.manager.heap r).active && not (w.manager.heap r).fetching)
  pub busy_current :
      (r : ℕ)
      → ((w.manager.heap r).active || (w.manager.heap r).fetching) ≡ true
      → is_current w.manager r ≡ true
  pub attempt :
      (r : ℕ)
      → is_due w.manager r ≡ true
      → (att : ℕ) × ((w.manager.heap r).removal ≡ some att)
        × (att < w.manager.next_attempt)
        × (w.manager.outcomes att ≡ none)
  pub attempts_differ :
      (r r' att : ℕ)
      → is_due w.manager r ≡ true
      → is_due w.manager r' ≡ true
      → (w.manager.heap r).removal ≡ some att
      → (w.manager.heap r').removal ≡ some att
      → r ≡ r'
  pub unused : (att : ℕ) → w.manager.next_attempt ≤ att → w.manager.outcomes att ≡ none
  pub removing_attempt :
      (r att : ℕ) → w.removing r ≡ some att → (w.manager.heap r).removal ≡ some att
  pub saving_current :
      (r : ℕ) (j : Job)
      → w.saving r ≡ some j
      → (w.removing r ≡ none) × (is_current w.manager r ≡ true) × (j.id ≡ (w.manager.heap r).id)
  pub disk_registered : (k : String) → w.manager.disk k ≢ none → lookup k w.manager.jobs ≢ none
