-- ===== src/Pipeline/Database/Files.antt =====
-- freeze of pipeline/DatabaseManager.cpp on every branch.
use smyte_db.Prelude.{ℕ, ◌≡◌, ◌≢◌, ◌↔◌, refl, List, Bool, true, false, Option, none, some, not}
use smyte_db.Pipeline.Database.{Answers, freeze}

-- What freeze does: it succeeds exactly if all three calls of RocksDB do; its list of files grows by
-- the live files and the logs, and not at all if it fails; and deletions of files stay disabled as
-- soon as the first call succeeds, also if freeze then fails.
pub freeze_lem :
    (a : Answers) (file_list : List (List ℕ))
    → let r = freeze a file_list in
      ((r.ok ≡ true) ↔ ((a.disabled ≡ true) × (a.live_files ≢ none) × (a.wal_files ≢ none)))
      × (r.ok ≡ false → r.file_list ≡ file_list)
      × (r.deletions_enabled ≡ not a.disabled)
unfolding freeze
freeze_lem a file_list = by_answers a.disabled a.live_files a.wal_files file_list
  where
    by_answers :
        (d : Bool) (l : Option (List (List ℕ) × ℕ)) (w : Option (List (List ℕ × ℕ)))
        (file_list : List (List ℕ))
        → let r = freeze (record { disabled = d; live_files = l; wal_files = w }) file_list in
          ((r.ok ≡ true) ↔ ((d ≡ true) × (l ≢ none) × (w ≢ none)))
          × (r.ok ≡ false → r.file_list ≡ file_list)
          × (r.deletions_enabled ≡ not d)
    by_answers false l w file_list = ((λ h. absurd (cc), λ h. absurd (cc)), λ h. refl, refl)
    by_answers true none w file_list = ((λ h. absurd (cc), λ h. absurd (h.1 refl)), λ h. refl, refl)
    by_answers true (some f) none file_list =
        ((λ h. absurd (cc), λ h. absurd (h.2 refl)), λ h. refl, refl)
    by_answers true (some f) (some logs) file_list =
        ((λ h. (refl, λ e. absurd (cc), λ e. absurd (cc)), λ h. refl), λ h. absurd (cc), refl)
